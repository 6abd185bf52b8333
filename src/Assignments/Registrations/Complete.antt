-- ===== src/Assignments/Registrations/Complete.antt =====
-- Groups that are not registered yet, and whose members are not, are all registered.
pub mod Groups
use mathlib.Core.List.{map-append, append_assoc, append-nil}
use stu_mgmt_service.Prelude.{
  ℕ, suc, String, string_eq, nat_eq, ◌===◌, ===_true, ===_eq, ◌==◌, ◌≡◌, refl, sym, ap, ◌∙◌, subst,
  inl, inr, Bool, true, false, Bool-cases, both_left, one_value, both_right, not, ◌&&◌, ◌||◌, List,
  [], ◌∷◌, ◌++◌, map, Option, some, any, All, All-∈, All-mono, ◌∈◌, ∈-append_cases, ∈-append_left,
  ∈-append_right, Distinct, if◌then◌else◌, length, arith,
}
use stu_mgmt_service.Groups.Models.{Outcome}
use stu_mgmt_service.Groups.Store.{continue, roll_back, return, throw, read_db, write_db}
use stu_mgmt_service.Assignments.Store.{Registration, RegistrationRelation, Tables}
use stu_mgmt_service.Assignments.Registrations.{
  GroupWithMembers, NewRegistration, build_registration, build_registrations, is_registration_of,
  occupies, references_exist, add_relation, insert_relation, insert_relations, add_registration,
  insert_registration_row, insert_registration, insert_registrations, create_registrations,
}
use stu_mgmt_service.Assignments.Invariant.{seat, registered_group, identity, IsConsistent}
use stu_mgmt_service.Assignments.Invariant.Rows.{IsConsistent-KeptByWrites}
use stu_mgmt_service.Assignments.Invariant.Writes.{KeptByWrites}

abbrev pub ParticipantExists : Tables → ℕ → Type 0
ParticipantExists db p = any (λ q. q.id === p) db.course_tables.participants ≡ true

-- The tables after `groups` and `seats` were registered.
pub record IsRegistered (before after : Tables) (groups : List (String × String))
    (seats : List (String × ℕ)) : Type 0 where
  pub groups_added :
      map registered_group after.registrations ≡ map registered_group before.registrations ++ groups
  pub seats_added : map seat after.relations ≡ map seat before.relations ++ seats
  pub same_course : after.course_tables ≡ before.course_tables
  pub same_assignments : after.assignments ≡ before.assignments
  pub consistent : IsConsistent after

pub any-none :
    {A : Type 0} (p : A → Bool) (xs : List A)
    → ((x : A) → x ∈ xs → p x ≡ true → ⊥)
    → any p xs ≡ false
any-none p [] h = refl
any-none p (x ∷ xs) h = elim (Bool-cases (p x)) [
  | inl e ↦ absurd (h x (inl refl) e)
  | inr e ↦ rw (e, any-none p xs (λ y i. h y (inr i))) refl
]

pub ∈-map : {A B : Type 0} (f : A → B) (x : A) (xs : List A) → x ∈ xs → f x ∈ map f xs
∈-map f x [] i = i
∈-map f x (y ∷ ys) (inl e) = inl (ap f e)
∈-map f x (y ∷ ys) (inr i) = inr (∈-map f x ys i)

pub any-of_∈ :
    {A B : Type 0} (f : A → B) (p : A → Bool) (b : B) (xs : List A)
    → ((x : A) → b ≡ f x → p x ≡ true)
    → b ∈ map f xs
    → any p xs ≡ true
any-of_∈ f p b [] hit i = absurd i
any-of_∈ f p b (x ∷ xs) hit (inl e) = rw (hit x e) refl
any-of_∈ f p b (x ∷ xs) hit (inr i) = rw (any-of_∈ f p b xs hit i) (ground arith)

-- A free seat of a registration is taken.
insert_relation-adds :
    (r : ℕ) (a : String) (p : ℕ) (db : Tables)
    → IsConsistent db
    → (r, a) ∈ map identity db.registrations
    → ParticipantExists db p
    → ¬ ((a, p) ∈ map seat db.relations)
    → (insert_relation r a p db ≡ (Outcome.ok tt, add_relation r a p db))
      × IsConsistent (add_relation r a p db)
unfolding insert_relation references_exist occupies read_db write_db throw continue
insert_relation-adds r a p db w i e n =
    let free : any (occupies r a p) db.relations ≡ false =
      any-none (occupies r a p) db.relations taken in
    let registered =
      any-of_∈ identity (λ x. (x.id === r) && (x.assignment_id === a)) (r, a) db.registrations own
        i in
    let exists : references_exist r a p db ≡ true = rw (registered, e) refl in
    (rw (free, registered, e) refl, IsConsistent-KeptByWrites.relation r a p db free exists w)
  where
    own :
        (x : Registration) → (r, a) ≡ identity x → ((x.id === r) && (x.assignment_id === a)) ≡ true
    own x q =
        rw
          (
            ===_true x.id r (sym (ap (λ k. k.0) q)),
            ===_true x.assignment_id a (sym (ap (λ k. k.1) q)),
          )
          refl

    taken : (s : RegistrationRelation) → s ∈ db.relations → occupies r a p s ≡ true → ⊥
    taken s j h =
        n (subst (λ x. x ∈ map seat db.relations) (same s j h) (∈-map seat s db.relations j))
      where
        same :
            (s : RegistrationRelation)
            → s ∈ db.relations
            → occupies r a p s ≡ true
            → seat s ≡ (a, p)
        same s j h =
            let participant : s.participant_id ≡ p =
              ===_eq s.participant_id p (both_left (s.participant_id === p) _ h) in
            let place : ((s.assignment_registration_id === r) || (s.assignment_id === a)) ≡ true =
              both_right (s.participant_id === p) _ h in
            elim (Bool-cases (s.assignment_registration_id === r)) [
              | inl e ↦
                  let own =
                    All-∈
                      (λ (x : RegistrationRelation).
                        (x.assignment_registration_id, x.assignment_id)
                        ∈ map identity db.registrations)
                      db.relations s w.belong j in
                  let here : (r, s.assignment_id) ∈ map identity db.registrations =
                    subst (λ x. (x, s.assignment_id) ∈ map identity db.registrations)
                      (===_eq s.assignment_registration_id r e) own in
                  let assignment =
                    one_value (λ (x : Registration). x.id) (λ x. x.assignment_id) r s.assignment_id
                      a db.registrations w.registrations_apart here i in
                  cc
              | inr e ↦
                  let assignment : s.assignment_id ≡ a = ===_eq s.assignment_id a (rw e at place) in
                  cc
            ]

pub IsRegistered-trans :
    {x y z : Tables} {gs hs : List (String × String)} {ss ts : List (String × ℕ)}
    → IsRegistered x y gs ss
    → IsRegistered y z hs ts
    → IsRegistered x z (gs ++ hs) (ss ++ ts)
IsRegistered-trans {x} {y} {z} {gs} {hs} {ss} {ts} p q = record {
  groups_added =
      q.groups_added
      ∙ ap (λ l. l ++ hs) p.groups_added
      ∙ append_assoc (map registered_group x.registrations) gs hs;
  seats_added =
      q.seats_added ∙ ap (λ l. l ++ ts) p.seats_added ∙ append_assoc (map seat x.relations) ss ts;
  same_course = q.same_course ∙ p.same_course;
  same_assignments = q.same_assignments ∙ p.same_assignments;
  consistent = q.consistent;
}

pub insert_relations-adds :
    (r : ℕ) (a : String) (ps : List ℕ) (db : Tables)
    → IsConsistent db
    → (r, a) ∈ map identity db.registrations
    → All (ParticipantExists db) ps
    → Distinct ps
    → All (λ p. ¬ ((a, p) ∈ map seat db.relations)) ps
    → ((insert_relations r a ps db).0 ≡ Outcome.ok tt)
      × IsRegistered db (insert_relations r a ps db).1 [] (map (λ p. (a, p)) ps)
unfolding insert_relations return continue add_relation
insert_relations-adds r a [] db w i e d n = (
  refl,
  record {
    groups_added = sym (append-nil _);
    seats_added = sym (append-nil _);
    same_course = refl;
    same_assignments = refl;
    consistent = w;
  },
)
insert_relations-adds r a (p ∷ ps) db w i e d n =
    let (done, v) = insert_relation-adds r a p db w i e.0 n.0 in
    let next = add_relation r a p db in
    let one : IsRegistered db next [] ((a, p) ∷ []) = record {
      groups_added = sym (append-nil _);
      seats_added = map-append seat db.relations _;
      same_course = refl;
      same_assignments = refl;
      consistent = v;
    } in
    let (ok, rest) = insert_relations-adds r a ps next v i e.1 d.1 (still_free ps d.0 n.1) in
    rw done (ok, IsRegistered-trans one rest)
  where
    still_free :
        (qs : List ℕ)
        → ¬ (p ∈ qs)
        → All (λ q. ¬ ((a, q) ∈ map seat db.relations)) qs
        → All (λ q. ¬ ((a, q) ∈ map seat (add_relation r a p db).relations)) qs
    still_free [] m f = tt
    still_free (q ∷ qs) m f = (
      (λ j.
          elim (∈-append_cases (map seat db.relations) ((a, p) ∷ []) (a, q)
            (subst (λ l. (a, q) ∈ l) (map-append seat db.relations _) j)) [
              | inl k ↦ f.0 k
              | inr (inl e) ↦ m (inl (sym (ap (λ k. k.1) e)))
              | inr (inr k) ↦ k
            ]),
      still_free qs (λ k. m (inr k)) f.1,
    )
