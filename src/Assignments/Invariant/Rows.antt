-- ===== src/Assignments/Invariant/Rows.antt =====
-- Each write to the registrations keeps the tables consistent.
use mathlib.Core.List.{map-append}
use stu_mgmt_service.Prelude.{
  ℕ, suc, ◌<◌, String, string_eq, nat_eq, ◌===◌, ===_true, ===_eq, ◌≡◌, sym, ap, inl, inr, Bool,
  true, false, Bool-cases, not, ◌&&◌, List, [], ◌∷◌, ◌++◌, map, filter_by, any, any-false, All,
  All-append, All-mono, All-filter, ◌∈◌, ∈-append_left, Distinct-snoc, Distinct-filter, arith,
}
use stu_mgmt_service.Groups.Store.{Database}
use stu_mgmt_service.Assignments.Models.{AssignmentRow}
use stu_mgmt_service.Assignments.Store.{Registration, RegistrationRelation, AssignmentEvent, Tables}
use stu_mgmt_service.Assignments.Registrations.{
  is_registration_of, occupies, references_exist, add_relation, add_registration,
}
use stu_mgmt_service.Assignments.Removal.{delete_registrations}
use stu_mgmt_service.Assignments.Invariant.{seat, registered_group, identity, IsConsistent}
use stu_mgmt_service.Assignments.Invariant.Writes.{KeptByWrites}

-- A row that a search by its key finds.
pub any-∈ :
    {A B : Type 0} (f : A → B) (p : A → Bool) (b : B) (xs : List A)
    → ((x : A) → p x ≡ true → b ≡ f x)
    → any p xs ≡ true
    → b ∈ map f xs
any-∈ f p b [] hit h = cc
any-∈ f p b (x ∷ xs) hit h = elim (Bool-cases (p x)) [
  | inl e ↦ inl (hit x e)
  | inr e ↦ inr (any-∈ f p b xs hit (rw e at h))
]

-- A key at which no entry is deleted.
mem-kept :
    {A B : Type 0} (f : A → B) (p q : A → Bool) (b : B) (xs : List A)
    → ((x : A) → b ≡ f x → q x ≡ true)
    → any (λ x. p x && q x) xs ≡ false
    → b ∈ map f xs
    → b ∈ map f (filter_by (λ x. not (p x)) xs)
mem-kept f p q b [] hit h i = i
mem-kept f p q b (x ∷ xs) hit h (inl e) =
    let k = hit x e in let n : p x ≡ false = ground arith in rw n (inl e)
mem-kept f p q b (x ∷ xs) hit h (inr i) = elim (Bool-cases (p x)) [
  | inl e ↦ rw e (mem-kept f p q b xs hit (ground arith) i)
  | inr e ↦ rw e (inr (mem-kept f p q b xs hit (ground arith) i))
]

-- The next id is no id of a row.
next_fresh :
    {A : Type 0} (id : A → ℕ) (n : ℕ) (xs : List A) → All (λ x. id x < n) xs → ¬ (n ∈ map id xs)
next_fresh id n [] a i = i
next_fresh id n (x ∷ xs) a (inl e) = let h = a.0 in omega (arith, e)
next_fresh id n (x ∷ xs) a (inr i) = next_fresh id n xs a.1 i

grows :
    {A : Type 0} (id : A → ℕ) (n : ℕ) (xs : List A)
    → All (λ x. id x < n) xs
    → All (λ x. id x < suc n) xs
grows id n xs = All-mono (λ x. id x < n) (λ x. id x < suc n) xs (λ x h. omega arith)

added_relation-IsConsistent :
    (r : ℕ) (a : String) (p : ℕ) (db : Tables)
    → any (occupies r a p) db.relations ≡ false
    → references_exist r a p db ≡ true
    → IsConsistent db
    → IsConsistent (add_relation r a p db)
unfolding occupies references_exist add_relation
added_relation-IsConsistent r a p db e f w =
    let n : RegistrationRelation = record {
      id = db.next_id;
      assignment_registration_id = r;
      assignment_id = a;
      participant_id = p;
    } in
    record {
      one_group = rw (map-append seat db.relations (n ∷ [])) (
          Distinct-snoc (map seat db.relations) (a, p) w.one_group
            (any-false seat (occupies r a p) (a, p) db.relations (λ s q. taken s q) e));
      groups_once = w.groups_once;
      belong = All-append _ db.relations (n ∷ []) w.belong (registered, tt);
      assignments_exist = w.assignments_exist;
      courses_exist = w.courses_exist;
      assignments_apart = w.assignments_apart;
      registrations_apart = w.registrations_apart;
      relations_apart = rw (map-append (λ (s : RegistrationRelation). s.id) db.relations (n ∷ [])) (
          Distinct-snoc (map (λ s. s.id) db.relations) db.next_id w.relations_apart (
            next_fresh (λ (s : RegistrationRelation). s.id) db.next_id db.relations
              w.relations_below));
      registrations_below =
          grows (λ (s : Registration). s.id) db.next_id db.registrations w.registrations_below;
      relations_below =
          All-append _ db.relations (n ∷ [])
            (grows (λ (s : RegistrationRelation). s.id) db.next_id db.relations w.relations_below)
            (omega arith, tt);
    }
  where
    taken : (s : RegistrationRelation) → (a, p) ≡ seat s → occupies r a p s ≡ true
    taken s q =
        let h = ===_true s.participant_id p (sym (ap (λ k. k.1) q)) in
        let k = ===_true s.assignment_id a (sym (ap (λ k. k.0) q)) in
        let b = s.assignment_registration_id === r in rw (h, k) (ground arith)

    registered : (r, a) ∈ map identity db.registrations
    registered =
        any-∈ identity (λ x. (x.id === r) && (x.assignment_id === a)) (r, a) db.registrations
          (λ x h.
            let i : x.id ≡ r = ===_eq x.id r (ground arith) in
            let j : x.assignment_id ≡ a = ===_eq x.assignment_id a (ground arith) in cc)
          (ground arith)

added_registration-IsConsistent :
    (a g : String) (db : Tables)
    → any (is_registration_of a g) db.registrations ≡ false
    → any (λ b. b.id === a) db.assignments ≡ true
    → IsConsistent db
    → IsConsistent (add_registration a g db)
unfolding is_registration_of add_registration
added_registration-IsConsistent a g db e f w =
    let n : Registration = record { id = db.next_id; assignment_id = a; group_id = g } in
    record {
      one_group = w.one_group;
      groups_once = rw (map-append registered_group db.registrations (n ∷ [])) (
          Distinct-snoc (map registered_group db.registrations) (a, g) w.groups_once
            (any-false registered_group (is_registration_of a g) (a, g) db.registrations
              (λ r q. taken r q) e));
      belong =
          All-mono
            (λ (s : RegistrationRelation).
              (s.assignment_registration_id, s.assignment_id) ∈ map identity db.registrations)
            _ db.relations
            (λ s i.
              rw (map-append identity db.registrations (n ∷ []))
                (∈-append_left (map identity db.registrations) _ _ i))
            w.belong;
      assignments_exist = All-append _ db.registrations (n ∷ []) w.assignments_exist (
        any-∈ (λ (b : AssignmentRow). b.id) (λ b. b.id === a) a db.assignments
            (λ b h. sym (===_eq b.id a h)) f,
        tt,
      );
      courses_exist = w.courses_exist;
      assignments_apart = w.assignments_apart;
      registrations_apart = rw (map-append (λ (r : Registration). r.id) db.registrations (n ∷ [])) (
          Distinct-snoc (map (λ r. r.id) db.registrations) db.next_id w.registrations_apart (
            next_fresh (λ (r : Registration). r.id) db.next_id db.registrations
              w.registrations_below));
      relations_apart = w.relations_apart;
      registrations_below =
          All-append _ db.registrations (n ∷ [])
            (grows (λ (r : Registration). r.id) db.next_id db.registrations w.registrations_below)
            (omega arith, tt);
      relations_below =
          grows (λ (s : RegistrationRelation). s.id) db.next_id db.relations w.relations_below;
    }
  where
    taken : (r : Registration) → (a, g) ≡ registered_group r → is_registration_of a g r ≡ true
    taken r q = rw (
      ===_true r.assignment_id a (sym (ap (λ k. k.0) q)),
      ===_true r.group_id g (sym (ap (λ k. k.1) q)),
    )

-- What is left of rows of which some are filtered out.
pub kept :
    {A : Type 0} (P : A → Type 0) (p : A → Bool) (xs : List A) → All P xs → All P (filter_by p xs)
kept P p xs a =
    All-mono (λ x. P x × (p x ≡ true)) P (filter_by p xs) (λ x h. h.0) (All-filter p P xs a)

unregistered-IsConsistent :
    (p : RegistrationRelation → Bool) (db : Tables)
    → IsConsistent db
    → IsConsistent (record db { relations = filter_by p db.relations })
unregistered-IsConsistent p db w = record {
  one_group = Distinct-filter seat p db.relations w.one_group;
  groups_once = w.groups_once;
  belong = kept _ p db.relations w.belong;
  assignments_exist = w.assignments_exist;
  courses_exist = w.courses_exist;
  assignments_apart = w.assignments_apart;
  registrations_apart = w.registrations_apart;
  relations_apart =
      Distinct-filter (λ (s : RegistrationRelation). s.id) p db.relations w.relations_apart;
  registrations_below = w.registrations_below;
  relations_below = kept _ p db.relations w.relations_below;
}

pub deleted-IsConsistent :
    (p : Registration → Bool) (db : Tables)
    → IsConsistent db
    → IsConsistent (delete_registrations p db)
unfolding delete_registrations
deleted-IsConsistent p db w =
    let stays : RegistrationRelation → Bool =
      λ s. not (any (λ r. p r && (r.id === s.assignment_registration_id)) db.registrations) in
    record {
      one_group = Distinct-filter seat stays db.relations w.one_group;
      groups_once =
          Distinct-filter registered_group (λ r. not (p r)) db.registrations w.groups_once;
      belong =
          All-mono
            (λ (s : RegistrationRelation).
              ((s.assignment_registration_id, s.assignment_id) ∈ map identity db.registrations)
              × (stays s ≡ true))
            _ (filter_by stays db.relations)
            (λ s i.
              mem-kept identity p (λ r. r.id === s.assignment_registration_id)
                (s.assignment_registration_id, s.assignment_id) db.registrations
                (λ r q. ===_true r.id s.assignment_registration_id (sym (ap (λ k. k.0) q)))
                (not_true _ i.1) i.0)
            (All-filter stays
              (λ s. (s.assignment_registration_id, s.assignment_id) ∈ map identity db.registrations)
              db.relations w.belong);
      assignments_exist = kept _ (λ r. not (p r)) db.registrations w.assignments_exist;
      courses_exist = w.courses_exist;
      assignments_apart = w.assignments_apart;
      registrations_apart =
          Distinct-filter (λ (r : Registration). r.id) (λ r. not (p r)) db.registrations
            w.registrations_apart;
      relations_apart =
          Distinct-filter (λ (s : RegistrationRelation). s.id) stays db.relations w.relations_apart;
      registrations_below = kept _ (λ r. not (p r)) db.registrations w.registrations_below;
      relations_below = kept _ stays db.relations w.relations_below;
    }
  where
    not_true : (b : Bool) → not b ≡ true → b ≡ false
    not_true b h = ground arith

-- A change of nothing that is read here: the events, or the tables of the groups.
same_rows :
    (db : Tables) (c : Database) (es : List AssignmentEvent)
    → IsConsistent db
    → IsConsistent (record db { course_tables = c; events = es })
same_rows db c es w = record {
  one_group = w.one_group;
  groups_once = w.groups_once;
  belong = w.belong;
  assignments_exist = w.assignments_exist;
  courses_exist = w.courses_exist;
  assignments_apart = w.assignments_apart;
  registrations_apart = w.registrations_apart;
  relations_apart = w.relations_apart;
  registrations_below = w.registrations_below;
  relations_below = w.relations_below;
}

pub IsConsistent-KeptByWrites : KeptByWrites IsConsistent
IsConsistent-KeptByWrites = record {
  relation = added_relation-IsConsistent;
  registration = added_registration-IsConsistent;
  deletion = deleted-IsConsistent;
  unregistration = unregistered-IsConsistent;
  event = λ e db w. same_rows db db.course_tables (db.events ++ e ∷ []) w;
  course = λ c db w. same_rows db c db.events w;
}
