-- ===== src/Assignments/Registering/User.antt =====
-- A user that was registered to a group is found in that group.
pub mod Found
use mathlib.Core.List.{map-append}
use stu_mgmt_service.Prelude.{
  ℕ, suc, ◌-◌, String, string_eq, nat_eq, arith, ◌===◌, ===_eq, ===_true, ===_refl, ◌≡◌, refl, sym,
  ap, ◌∙◌, subst, inl, inr, Bool, true, false, Bool-cases, Option-cases, both_left, both_right,
  ◌&&◌, ◌||◌, List, [], ◌∷◌, ◌++◌, map, Option, none, some, if◌then◌else◌, filter_by, find_by, any,
  none-ne-some, ◌∈◌, ∈-append_cases, ∈-append_right, one_value,
}
use stu_mgmt_service.Groups.Models.{Exception, Outcome, Participant}
use stu_mgmt_service.Groups.Store.{
  GroupRow, ParticipantRow, continue, roll_back, return, throw, read_db, write_db,
}
use stu_mgmt_service.Assignments.Store.{
  Registration, RegistrationRelation, AssignmentEvent, Tables, publish_event,
}
use stu_mgmt_service.Assignments.Registrations.{
  RegisteredGroup, is_registration_of, add_relation, add_registration, insert_relation,
  insert_registration, register_participant, create_registration, participants_of, with_members,
  build_group, has_user, joined_group, is_joined, try_get_registered_group_of_user,
}
use stu_mgmt_service.Assignments.Registrations.Complete.{∈-map}
use stu_mgmt_service.Assignments.Registering.{check_not_registered, register_user_to_group}
use stu_mgmt_service.Assignments.Invariant.{identity, IsConsistent}

module _ {A : Type 0} (p : A → Bool) where
  pub find_by-some :
      (x : A) (xs : List A)
      → x ∈ xs
      → p x ≡ true
      → (y : A) × (find_by p xs ≡ some y) × (y ∈ xs) × (p y ≡ true)
  find_by-some x [] i h = absurd i
  find_by-some x (y ∷ ys) i h = elim (Bool-cases (p y)) [
    | inl e ↦ (y, rw e refl, inl refl, e)
    | inr e ↦ elim i [
      | inl q ↦ absurd (differ h (subst (λ z. p z ≡ false) (sym q) e))
      | inr j ↦ let (z, f, k, r) = find_by-some x ys j h in (z, rw e f, inr k, r)
    ]
  ]
    where
      differ : {b : Bool} → b ≡ true → b ≡ false → ⊥
      differ f g = cc

  pub find_by-any :
      (xs : List A) → any p xs ≡ true → (y : A) × (find_by p xs ≡ some y) × (p y ≡ true)
  find_by-any [] h = absurd (differ h)
    where
      differ : false ≡ true → ⊥
      differ f = cc
  find_by-any (x ∷ xs) h = elim (Bool-cases (p x)) [
    | inl e ↦ (x, rw e refl, e)
    | inr e ↦ let (y, f, q) = find_by-any xs (rw e at h) in (y, rw e f, q)
  ]

  find_by-none : (x : A) (xs : List A) → find_by p xs ≡ none → x ∈ xs → p x ≡ false
  find_by-none x [] e i = absurd i
  find_by-none x (y ∷ ys) e i = elim (Bool-cases (p y)) [
    | inl h ↦ absurd (some-ne-none (rw h at e))
    | inr h ↦ elim i [ inl q ↦ rw q h | inr j ↦ find_by-none x ys (rw h at e) j ]
  ]
    where
      some-ne-none : {y : A} → ◌≡◌ {A = Option A} (some y) none → ⊥
      some-ne-none f = cc

pub find_by-true :
    {A : Type 0} (p : A → Bool) (y : A) (xs : List A)
    → find_by p xs ≡ some y
    → (y ∈ xs) × (p y ≡ true)
find_by-true p y [] e = absurd (none-ne-some e)
find_by-true p y (x ∷ xs) e = elim (Bool-cases (p x)) [
  | inl h ↦ let q = some_same (rw h at e) in (inl (sym q), rw (sym q) h)
  | inr h ↦ let (i, q) = find_by-true p y xs (rw h at e) in (inr i, q)
]
  where
    some_same : some x ≡ some y → x ≡ y
    some_same f = cc

any-append :
    {A : Type 0} (p : A → Bool) (xs : List A) (y : A) → any p (xs ++ y ∷ []) ≡ (any p xs || p y)
any-append p [] y = ground arith
any-append p (x ∷ xs) y = rw (any-append p xs y) (ground arith)

any-kept :
    {A : Type 0} (f h keep : A → Bool) (xs : List A)
    → ((x : A) → f x ≡ true → (keep x ≡ true) × (h x ≡ true))
    → any f xs ≡ true
    → any h (filter_by keep xs) ≡ true
any-kept f h keep [] g e = cc
any-kept f h keep (x ∷ xs) g e = elim (Bool-cases (f x)) [
  | inl k ↦ let (i, j) = g x k in rw (i, j) refl
  | inr k ↦
      let rest = any-kept f h keep xs g (rw k at e) in
      elim (Bool-cases (keep x)) [ inl i ↦ rw (i, rest) (ground arith) | inr i ↦ rw (i, rest) refl ]
]

filter_by-same :
    {A : Type 0} (f h : A → Bool) (xs : List A)
    → ((x : A) → f x ≡ h x)
    → filter_by f xs ≡ filter_by h xs
filter_by-same f h [] g = refl
filter_by-same f h (x ∷ xs) g = rw (g x, filter_by-same f h xs g) refl

-- The tables after a relation was added, and perhaps its registration.
module _ (db : Tables) (n : RegistrationRelation) (rs : List Registration) (k : ℕ)
    (es : List AssignmentEvent) where
  abbrev pub after : Tables
  after = record db {
    registrations = rs;
    relations = db.relations ++ n ∷ [];
    next_id = k;
    events = es;
  }

  -- The registrations of others have the participants that they had.
  others_same :
      (u : String) (x : Registration)
      → (n.assignment_registration_id === x.id) ≡ false
      → is_joined after n.assignment_id u x ≡ is_joined db n.assignment_id u x
  unfolding is_joined has_user participants_of
  others_same u x e =
      let same =
        filter_by-same
          (λ (p : ParticipantRow).
            any (λ s. (s.participant_id === p.id) && (s.assignment_registration_id === x.id))
              (db.relations ++ n ∷ []))
          (λ p.
            any (λ s. (s.participant_id === p.id) && (s.assignment_registration_id === x.id))
              db.relations)
          db.course_tables.participants
          (λ p.
            any-append
              (λ (s : RegistrationRelation).
                (s.participant_id === p.id) && (s.assignment_registration_id === x.id))
              db.relations n
            ∙ never _ (n.participant_id === p.id) e) in
      rw same refl
    where
      never : (b c : Bool) {d : Bool} → d ≡ false → (b || (c && d)) ≡ b
      never b c h = ground arith

  -- The registration of the relation has the user.
  own_joined :
      (u : String) (x : Registration)
      → (n.assignment_registration_id === x.id) ≡ true
      → x.assignment_id ≡ n.assignment_id
      → any (λ h. h.id === x.group_id) db.course_tables.groups ≡ true
      → any (λ q. (q.id === n.participant_id) && (q.user_id === u)) db.course_tables.participants
        ≡ true
      → is_joined after n.assignment_id u x ≡ true
  unfolding is_joined has_user participants_of
  own_joined u x e f h m =
      let joined =
        any-kept (λ (q : ParticipantRow). (q.id === n.participant_id) && (q.user_id === u))
          (λ q. q.user_id === u)
          (λ q.
            any (λ s. (s.participant_id === q.id) && (s.assignment_registration_id === x.id))
              (db.relations ++ n ∷ []))
          db.course_tables.participants
          (λ q i.
            let own =
              ===_eq q.id n.participant_id
                (both_left (q.id === n.participant_id) (q.user_id === u) i) in
            (
              any-append
                    (λ (s : RegistrationRelation).
                      (s.participant_id === q.id) && (s.assignment_registration_id === x.id))
                    db.relations n
                  ∙ last _ (===_true n.participant_id q.id (sym own)) e,
              both_right (q.id === n.participant_id) (q.user_id === u) i,
            ))
          m in
      rw (===_true x.assignment_id n.assignment_id f, h, joined) refl
    where
      last : (b : Bool) {c d : Bool} → c ≡ true → d ≡ true → (b || (c && d)) ≡ true
      last b h i = ground arith

  joined_some :
      (y : Registration) (row : GroupRow)
      → find_by (λ h. h.id === y.group_id) db.course_tables.groups ≡ some row
      → joined_group after (some y)
        ≡ some (record { group = row; members = participants_of after y.id })
  unfolding joined_group build_group with_members
  joined_some y row e = rw e refl

  -- The user, whom no registration had, is found in the group of the relation's registration.
  pub found_after :
      (u g : String) (x : Registration)
      → find_by (is_joined db n.assignment_id u) db.registrations ≡ none
      → ((y : Registration)
          → y ∈ rs
          → (n.assignment_registration_id === y.id) ≡ false
          → y ∈ db.registrations)
      → ((y : Registration)
          → y ∈ rs
          → (n.assignment_registration_id === y.id) ≡ true
          → y.group_id ≡ g)
      → x ∈ rs
      → (n.assignment_registration_id === x.id) ≡ true
      → x.assignment_id ≡ n.assignment_id
      → any (λ h. h.id === g) db.course_tables.groups ≡ true
      → any (λ q. (q.id === n.participant_id) && (q.user_id === u)) db.course_tables.participants
        ≡ true
      → (rg : RegisteredGroup) × ((try_get_registered_group_of_user n.assignment_id u after).0
          ≡ Outcome.ok (some rg))
        × (rg.group.id ≡ g)
  unfolding try_get_registered_group_of_user read_db
  found_after u g x none_before others own i e f h m =
      let exists : any (λ (h : GroupRow). h.id === x.group_id) db.course_tables.groups ≡ true =
        rw (own x i e) h in
      let (y, found, j, q) =
        find_by-some (is_joined after n.assignment_id u) x rs i (own_joined u x e f exists m) in
      let here : any (λ (h : GroupRow). h.id === y.group_id) db.course_tables.groups ≡ true =
        rw (own y j (mine y j q)) h in
      let (row, there, same) =
        find_by-any (λ (h : GroupRow). h.id === y.group_id) db.course_tables.groups here in
      (
        record { group = row; members = participants_of after y.id },
        rw found (ap (λ (o : Option RegisteredGroup). Outcome.ok o) (joined_some y row there)),
        ===_eq row.id y.group_id same ∙ own y j (mine y j q),
      )
    where
      mine :
          (y : Registration)
          → y ∈ rs
          → is_joined after n.assignment_id u y ≡ true
          → (n.assignment_registration_id === y.id) ≡ true
      mine y j q = elim (Bool-cases (n.assignment_registration_id === y.id)) [
        | inl t ↦ t
        | inr t ↦
            let old =
              find_by-none (is_joined db n.assignment_id u) y db.registrations none_before
                (others y j t) in
            let same = others_same u y t in absurd (differ (sym q ∙ same ∙ old))
      ]
        where
          differ : true ≡ false → ⊥
          differ e = cc
