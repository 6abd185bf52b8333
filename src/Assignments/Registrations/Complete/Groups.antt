-- ===== src/Assignments/Registrations/Complete/Groups.antt =====
-- The registrations of many groups at once.
use mathlib.Core.List.{map-append, append-nil}
use stu_mgmt_service.Prelude.{
  ℕ, String, string_eq, nat_eq, ◌===◌, ===_eq, ◌≡◌, refl, sym, ap, subst, inl, inr, true, false,
  ◌&&◌, both_left, both_right, List, [], ◌∷◌, ◌++◌, map, some, any, All, All-mono, All-self,
  All-map, ◌∈◌, ∈-append_cases, ∈-append_left, ∈-append_right, Distinct,
}
use stu_mgmt_service.Groups.Models.{Exception, Outcome}
use stu_mgmt_service.Groups.Store.{continue, return, throw, read_db, write_db}
use stu_mgmt_service.Assignments.Store.{Registration, Tables}
use stu_mgmt_service.Assignments.Registrations.{
  NewRegistration, is_registration_of, add_registration, insert_registration_row,
  insert_registration, insert_registrations,
}
use stu_mgmt_service.Assignments.Registrations.Complete.{
  ParticipantExists, IsRegistered, IsRegistered-trans, any-none, ∈-map, insert_relations-adds,
}
use stu_mgmt_service.Assignments.Invariant.{seat, registered_group, identity, IsConsistent}
use stu_mgmt_service.Assignments.Invariant.Rows.{IsConsistent-KeptByWrites}

-- Groups by id, with the ids of their participants.
abbrev pub new_registration : String × List ℕ → NewRegistration
new_registration g = record { group_id = some g.0; participant_ids = g.1 }

abbrev pub participants : List (String × List ℕ) → List ℕ
participants [] = []
participants (g ∷ gs) = g.1 ++ participants gs

abbrev pub seats : String → List ℕ → List (String × ℕ)
seats a = map (λ p. (a, p))

-- The groups and their participants exist and none is registered for the assignment, and no group
-- and no participant is there twice.
pub record CanRegister (db : Tables) (a : String) (gs : List (String × List ℕ)) : Type 0 where
  pub groups_exist : All (λ g. any (λ h. h.id === g.0) db.course_tables.groups ≡ true) gs
  pub groups_apart : Distinct (map (λ g. g.0) gs)
  pub groups_free : All (λ g. ¬ ((a, g.0) ∈ map registered_group db.registrations)) gs
  pub participants_exist : All (ParticipantExists db) (participants gs)
  pub participants_apart : Distinct (participants gs)
  pub participants_free : All (λ p. ¬ ((a, p) ∈ map seat db.relations)) (participants gs)

pub All-split :
    {A : Type 0} (P : A → Type 0) (xs ys : List A) → All P (xs ++ ys) → All P xs × All P ys
All-split P [] ys h = (tt, h)
All-split P (x ∷ xs) ys h = let (p, q) = All-split P xs ys h.1 in ((h.0, p), q)

pub Distinct-split :
    {A : Type 0} (xs ys : List A)
    → Distinct (xs ++ ys)
    → Distinct xs × Distinct ys × All (λ y. ¬ (y ∈ xs)) ys
Distinct-split {A} [] ys d = (tt, d, All-mono (λ y. y ∈ ys) _ ys (λ y i j. j) (All-self ys))
Distinct-split {A} (x ∷ xs) ys d =
    let (p, q, n) = Distinct-split xs ys d.1 in
    (
      ((λ i. d.0 (∈-append_left xs ys x i)), p),
      q,
      All-mono (λ y. ¬ (y ∈ xs) × (y ∈ ys)) _ ys
          (λ y h i. elim i [
            | inl e ↦ d.0 (subst (λ z. z ∈ (xs ++ ys)) e (∈-append_right xs ys y h.1))
            | inr j ↦ h.0 j
          ])
          (zip ys n (All-self ys)),
    )
  where
    zip :
        (zs : List A)
        → All (λ y. ¬ (y ∈ xs)) zs
        → All (λ y. y ∈ ys) zs
        → All (λ y. ¬ (y ∈ xs) × (y ∈ ys)) zs
    zip [] a b = tt
    zip (z ∷ zs) a b = ((a.0, b.0), zip zs a.1 b.1)

-- One group.
insert_registration-adds :
    (a g : String) (ps : List ℕ) (db : Tables)
    → IsConsistent db
    → any (λ b. b.id === a) db.assignments ≡ true
    → any (λ h. h.id === g) db.course_tables.groups ≡ true
    → ¬ ((a, g) ∈ map registered_group db.registrations)
    → All (ParticipantExists db) ps
    → Distinct ps
    → All (λ p. ¬ ((a, p) ∈ map seat db.relations)) ps
    → ((insert_registration a (new_registration (g, ps)) db).0 ≡ Outcome.ok tt)
      × IsRegistered db
          (insert_registration a (new_registration (g, ps)) db).1
          ((a, g) ∷ [])
          (seats a ps)
unfolding insert_registration insert_registration_row add_registration read_db write_db return throw
    continue
insert_registration-adds a g ps db w i e n es d fs =
    let free : any (is_registration_of a g) db.registrations ≡ false =
      any-none (is_registration_of a g) db.registrations taken in
    let v = IsConsistent-KeptByWrites.registration a g db free i w in
    let next = add_registration a g db in
    let one : IsRegistered db next ((a, g) ∷ []) [] = record {
      groups_added = map-append registered_group db.registrations _;
      seats_added = sym (append-nil _);
      same_course = refl;
      same_assignments = refl;
      consistent = v;
    } in
    let here : (db.next_id, a) ∈ map identity next.registrations =
      rw
        (map-append identity db.registrations
          (record { id = db.next_id; assignment_id = a; group_id = g } ∷ []))
        (∈-append_right (map identity db.registrations) _ (db.next_id, a) (inl refl)) in
    let (ok, rest) = insert_relations-adds db.next_id a ps next v here es d fs in
    rw (free, i, e) (ok, IsRegistered-trans one rest)
  where
    taken : (r : Registration) → r ∈ db.registrations → is_registration_of a g r ≡ true → ⊥
    taken r j h = n (
        subst (λ x. x ∈ map registered_group db.registrations) (same h)
          (∈-map registered_group r db.registrations j))
      where
        same : is_registration_of a g r ≡ true → registered_group r ≡ (a, g)
        same h =
            let k : ((r.assignment_id === a) && (r.group_id === g)) ≡ true =
              unfold is_registration_of in h in
            let x =
              ===_eq r.assignment_id a (both_left (r.assignment_id === a) (r.group_id === g) k) in
            let y = ===_eq r.group_id g (both_right (r.assignment_id === a) (r.group_id === g) k) in
            cc

free_after :
    {A : Type 0} (xs ys zs : List A)
    → All (λ z. ¬ (z ∈ xs)) zs
    → All (λ z. ¬ (z ∈ ys)) zs
    → All (λ z. ¬ (z ∈ (xs ++ ys))) zs
free_after xs ys [] f g = tt
free_after xs ys (z ∷ zs) f g = (
  (λ i. elim (∈-append_cases xs ys z i) [ inl j ↦ f.0 j | inr j ↦ g.0 j ]),
  free_after xs ys zs f.1 g.1,
)

-- A seat is taken only by its participant.
seat_taken : (a : String) (q : ℕ) (ps : List ℕ) → (a, q) ∈ seats a ps → q ∈ ps
seat_taken a q [] i = i
seat_taken a q (p ∷ ps) (inl e) = inl (ap (λ k. k.1) e)
seat_taken a q (p ∷ ps) (inr i) = inr (seat_taken a q ps i)

seats_free :
    (a : String) (ps qs : List ℕ)
    → All (λ q. ¬ (q ∈ ps)) qs
    → All (λ k. ¬ (k ∈ seats a ps)) (seats a qs)
seats_free a ps [] f = tt
seats_free a ps (q ∷ qs) f = ((λ i. f.0 (seat_taken a q ps i)), seats_free a ps qs f.1)

All-seats :
    (a : String) (P : String × ℕ → Type 0) (ps : List ℕ)
    → All P (seats a ps)
    → All (λ p. P (a, p)) ps
All-seats a P [] h = tt
All-seats a P (p ∷ ps) h = (h.0, All-seats a P ps h.1)

groups_left :
    (a : String) (g : String) (gs : List (String × List ℕ)) (rs : List (String × String))
    → ¬ (g ∈ map (λ h. h.0) gs)
    → All (λ h. ¬ ((a, h.0) ∈ rs)) gs
    → All (λ h. ¬ ((a, h.0) ∈ (rs ++ (a, g) ∷ []))) gs
groups_left a g [] rs n f = tt
groups_left a g (h ∷ gs) rs n f = (
  (λ i. elim (∈-append_cases rs ((a, g) ∷ []) (a, h.0) i) [
    | inl j ↦ f.0 j
    | inr (inl e) ↦ n (inl (sym (ap (λ k. k.1) e)))
    | inr (inr j) ↦ j
  ]),
  groups_left a g gs rs (λ i. n (inr i)) f.1,
)

-- What can be registered is left to be registered once the first group is.
CanRegister-rest :
    (db after : Tables) (a : String) (g : String × List ℕ) (gs : List (String × List ℕ))
    → CanRegister db a (g ∷ gs)
    → IsRegistered db after ((a, g.0) ∷ []) (seats a g.1)
    → CanRegister after a gs
CanRegister-rest db after a g gs c r =
    let (own, rest, apart) = Distinct-split g.1 (participants gs) c.participants_apart in
    record {
      groups_exist =
          subst (λ t. All (λ h. any (λ x. x.id === h.0) t.groups ≡ true) gs) (sym r.same_course)
            c.groups_exist.1;
      groups_apart = c.groups_apart.1;
      groups_free =
          subst (λ l. All (λ h. ¬ ((a, h.0) ∈ l)) gs) (sym r.groups_added)
            (groups_left a g.0 gs _ c.groups_apart.0 c.groups_free.1);
      participants_exist =
          subst (λ t. All (λ p. any (λ q. q.id === p) t.participants ≡ true) (participants gs))
            (sym r.same_course)
            (All-split (ParticipantExists db) g.1 (participants gs) c.participants_exist).1;
      participants_apart = rest;
      participants_free =
          subst (λ l. All (λ p. ¬ ((a, p) ∈ l)) (participants gs)) (sym r.seats_added)
            (All-seats a (λ k. ¬ (k ∈ (map seat db.relations ++ seats a g.1))) (participants gs)
              (free_after (map seat db.relations) (seats a g.1) (seats a (participants gs))
                (All-map (λ p. (a, p)) (λ k. ¬ (k ∈ map seat db.relations)) (participants gs)
                  (All-split (λ p. ¬ ((a, p) ∈ map seat db.relations)) g.1 (participants gs)
                    c.participants_free).1)
                (seats_free a g.1 (participants gs) apart)));
    }

pub insert_registrations-adds :
    (a : String) (gs : List (String × List ℕ)) (db : Tables)
    → IsConsistent db
    → any (λ b. b.id === a) db.assignments ≡ true
    → CanRegister db a gs
    → ((insert_registrations a (map new_registration gs) db).0 ≡ Outcome.ok tt)
      × IsRegistered db
          (insert_registrations a (map new_registration gs) db).1
          (map (λ g. (a, g.0)) gs)
          (seats a (participants gs))
unfolding insert_registrations return continue
insert_registrations-adds a [] db w i c = (
  refl,
  record {
    groups_added = sym (append-nil _);
    seats_added = sym (append-nil _);
    same_course = refl;
    same_assignments = refl;
    consistent = w;
  },
)
insert_registrations-adds a (g ∷ gs) db w i c =
    let (ok, r) =
      insert_registration-adds a g.0 g.1 db w i c.groups_exist.0 c.groups_free.0
        (All-split (ParticipantExists db) g.1 (participants gs) c.participants_exist).0
        (Distinct-split g.1 (participants gs) c.participants_apart).0
        (All-split (λ p. ¬ ((a, p) ∈ map seat db.relations)) g.1 (participants gs)
          c.participants_free).0 in
    onward (insert_registration a (new_registration g) db) ok r (insert_registrations-adds a gs)
  where
    Adds :
        Outcome (Unit {0}) × Tables → Tables → List (String × String) → List (String × ℕ) → Type 0
    Adds o before groups taken = (o.0 ≡ Outcome.ok tt) × IsRegistered before o.1 groups taken

    onward :
        (o : Outcome (Unit {0}) × Tables)
        → o.0 ≡ Outcome.ok tt
        → IsRegistered db o.1 ((a, g.0) ∷ []) (seats a g.1)
        → ((after : Tables)
            → IsConsistent after
            → any (λ b. b.id === a) after.assignments ≡ true
            → CanRegister after a gs
            → Adds
                (insert_registrations a (map new_registration gs) after)
                after
                (map (λ h. (a, h.0)) gs)
                (seats a (participants gs)))
        → Adds
            (continue (λ done. insert_registrations a (map new_registration gs)) o)
            db
            ((a, g.0) ∷ map (λ h. (a, h.0)) gs)
            (seats a (g.1 ++ participants gs))
    onward (Outcome.throws x, after) e r rest = absurd (throws-ne-ok e)
      where
        throws-ne-ok :
            {x : Exception} → ◌≡◌ {A = Outcome (Unit {0})} (Outcome.throws x) (Outcome.ok tt) → ⊥
        throws-ne-ok e = cc
    onward (Outcome.ok done, after) e r rest =
        let there = subst (λ l. any (λ b. b.id === a) l ≡ true) (sym r.same_assignments) i in
        let (ok, s) = rest after r.consistent there (CanRegister-rest db after a g gs c r) in
        let all = IsRegistered-trans r s in
        (
          ok,
          subst (IsRegistered db _ ((a, g.0) ∷ map (λ h. (a, h.0)) gs))
              (sym (map-append (λ p. (a, p)) g.1 (participants gs))) all,
        )
