-- ===== src/Assignments/Registering/User/Found.antt =====
-- `registerUserToGroup`, followed by a search for the group of the user.
use stu_mgmt_service.Prelude.{
  ℕ, suc, ◌<◌, String, string_eq, nat_eq, arith, ◌===◌, ===_eq, ===_true, ===_refl, ◌≡◌, refl, sym,
  ap, ◌∙◌, subst, inl, inr, true, false, Bool-cases, Option-cases, both_left, both_right, ◌&&◌,
  List, [], ◌∷◌, ◌++◌, map, Option, none, some, find_by, any, All-∈, ◌∈◌, ∈-append_cases,
  ∈-append_right, one_value,
}
use stu_mgmt_service.Groups.Models.{Exception, Outcome, Participant}
use stu_mgmt_service.Groups.Store.{Query, continue, roll_back, return, throw, read_db, write_db}
use stu_mgmt_service.Assignments.Store.{
  Registration, RegistrationRelation, AssignmentEvent, Tables, Task, publish_event,
}
use stu_mgmt_service.Assignments.Registrations.{
  RegisteredGroup, is_registration_of, occupies, references_exist, add_relation, add_registration,
  insert_relation, insert_relations, insert_registration_row, insert_registration,
  register_participant, create_registration, participants_of, with_members, build_group,
  joined_group, is_joined, try_get_registered_group_of_user,
}
use stu_mgmt_service.Assignments.Registrations.Complete.{∈-map}
use stu_mgmt_service.Assignments.Registering.{check_not_registered, register_user_to_group}
use stu_mgmt_service.Assignments.Registering.User.{after, found_after, find_by-true, find_by-any}
use stu_mgmt_service.Assignments.Invariant.{IsConsistent}

throws-ne-ok :
    {A : Type 0} {b : A} {e : Exception} → ◌≡◌ {A = Outcome A} (Outcome.throws e) (Outcome.ok b) → ⊥
throws-ne-ok h = cc

-- A chain that returns took its first step.
continue-ok :
    {S A B : Type 0} (f : A → Query S B) (o : Outcome A × S) (b : B)
    → (continue f o).0 ≡ Outcome.ok b
    → (a : A) × (o.0 ≡ Outcome.ok a) × (continue f o ≡ f a o.1)
unfolding continue
continue-ok f (Outcome.ok a, db) b h = (a, refl, refl)
continue-ok f (Outcome.throws e, db) b h = absurd (throws-ne-ok h)

insert_relation-ok :
    (r : ℕ) (a : String) (p : ℕ) (db : Tables)
    → (insert_relation r a p db).0 ≡ Outcome.ok tt
    → insert_relation r a p db ≡ (Outcome.ok tt, add_relation r a p db)
unfolding insert_relation read_db write_db throw continue
insert_relation-ok r a p db h = elim (Bool-cases (any (occupies r a p) db.relations)) [
  | inl e ↦ absurd (throws-ne-ok (rw e at h))
  | inr e ↦ elim (Bool-cases (references_exist r a p db)) [
    | inl f ↦ rw (e, f) refl
    | inr f ↦ absurd (throws-ne-ok (rw (e, f) at h))
  ]
]

insert_registration_row-ok :
    (a g : String) (id : ℕ) (db : Tables)
    → (insert_registration_row a (some g) db).0 ≡ Outcome.ok id
    → insert_registration_row a (some g) db ≡ (Outcome.ok db.next_id, add_registration a g db)
unfolding insert_registration_row read_db write_db throw return continue
insert_registration_row-ok a g id db h =
    elim (Bool-cases (any (is_registration_of a g) db.registrations)) [
      | inl e ↦ absurd (throws-ne-ok (rw e at h))
      | inr e ↦ elim (Bool-cases (any (λ b. b.id === a) db.assignments)) [
        | inl f ↦ elim (Bool-cases (any (λ k. k.id === g) db.course_tables.groups)) [
          | inl k ↦ rw (e, f, k) refl
          | inr k ↦ absurd (throws-ne-ok (rw (e, f, k) at h))
        ]
        | inr f ↦ absurd (throws-ne-ok (rw (e, f) at h))
      ]
    ]

roll_back-ok :
    {S A : Type 0} (db : S) (o : Outcome A × S) (b : A)
    → (roll_back db o).0 ≡ Outcome.ok b
    → (roll_back db o ≡ o) × (o.0 ≡ Outcome.ok b)
unfolding roll_back
roll_back-ok db (Outcome.ok a, d) b h = (refl, h)
roll_back-ok db (Outcome.throws e, d) b h = absurd (throws-ne-ok h)

joined_group-some :
    (a u : String) (db : Tables) (r : Registration)
    → is_joined db a u r ≡ true
    → (rg : RegisteredGroup) × (joined_group db (some r) ≡ some rg)
unfolding is_joined joined_group build_group with_members
joined_group-some a u db r h =
    let rest = both_right (r.assignment_id === a) _ h in
    let group = both_left (any (λ g. g.id === r.group_id) db.course_tables.groups) _ rest in
    let (g, e, q) = find_by-any (λ g. g.id === r.group_id) db.course_tables.groups group in
    (record { group = g; members = participants_of db r.id }, rw e refl)

-- A user who has a group is refused.
not_registered :
    (a u : String) (db : Tables)
    → (continue (check_not_registered u) (try_get_registered_group_of_user a u db)).0
      ≡ Outcome.ok tt
    → find_by (is_joined db a u) db.registrations ≡ none
unfolding check_not_registered try_get_registered_group_of_user read_db throw return continue
not_registered a u db h = elim (Option-cases (find_by (is_joined db a u) db.registrations)) [
  | inl e ↦ e
  | inr (r, e) ↦
      let here = (find_by-true (is_joined db a u) r db.registrations e).1 in
      absurd (throws-ne-ok (rw (e, (joined_group-some a u db r here).1) at h))
]

-- The user is in the group once the relation is saved, whatever is published.
module _ (db : Tables) (a g u : String) (p : ℕ) where
  abbrev IsFound : Tables → Type 0
  IsFound t =
      (rg : RegisteredGroup) × ((try_get_registered_group_of_user a u t).0 ≡ Outcome.ok (some rg))
      × (rg.group.id ≡ g)

  abbrev relation : ℕ → ℕ → RegistrationRelation
  relation id r = record {
    id = id;
    assignment_registration_id = r;
    assignment_id = a;
    participant_id = p;
  }

  in_registered :
      (es : List AssignmentEvent) (r : Registration)
      → IsConsistent db
      → find_by (is_joined db a u) db.registrations ≡ none
      → find_by (is_registration_of a g) db.registrations ≡ some r
      → any (λ h. h.id === g) db.course_tables.groups ≡ true
      → any (λ q. (q.id === p) && (q.user_id === u)) db.course_tables.participants ≡ true
      → IsFound (after db (relation db.next_id r.id) db.registrations (suc db.next_id) es)
  unfolding is_registration_of
  in_registered es r w n e h m =
      let (i, own) = find_by-true (is_registration_of a g) r db.registrations e in
      let assignment =
        ===_eq r.assignment_id a (both_left (r.assignment_id === a) (r.group_id === g) own) in
      let group = ===_eq r.group_id g (both_right (r.assignment_id === a) (r.group_id === g) own) in
      found_after db (relation db.next_id r.id) db.registrations (suc db.next_id) es u g r n
        (λ y j o. j)
        (λ y j o.
          one_value (λ (x : Registration). x.id) (λ x. x.group_id) r.id y.group_id r.group_id
            db.registrations w.registrations_apart
            (subst
              (λ x.
                ◌∈◌ {A = ℕ × String} (x, y.group_id)
                  (map (λ z. (z.id, z.group_id)) db.registrations))
              (sym (===_eq r.id y.id o))
              (∈-map (λ (z : Registration). (z.id, z.group_id)) y db.registrations j))
            (∈-map (λ (z : Registration). (z.id, z.group_id)) r db.registrations i)
          ∙ group)
        i (===_refl r.id) assignment h m

  in_new :
      (es : List AssignmentEvent)
      → IsConsistent db
      → find_by (is_joined db a u) db.registrations ≡ none
      → any (λ h. h.id === g) db.course_tables.groups ≡ true
      → any (λ q. (q.id === p) && (q.user_id === u)) db.course_tables.participants ≡ true
      → IsFound (
          after db
            (relation (suc db.next_id) db.next_id)
            (add_registration a g db).registrations
            (suc (suc db.next_id))
            es)
  unfolding add_registration
  in_new es w n h m =
      let x : Registration = record { id = db.next_id; assignment_id = a; group_id = g } in
      found_after db (relation (suc db.next_id) db.next_id) (db.registrations ++ x ∷ [])
        (suc (suc db.next_id)) es u g x n
        (λ y j o. elim (∈-append_cases db.registrations (x ∷ []) y j) [
          | inl k ↦ k
          | inr (inl e) ↦ absurd (
              differ (sym (===_true db.next_id y.id (ap (λ (z : Registration). z.id) (sym e))) ∙ o))
          | inr (inr k) ↦ absurd k
        ])
        (λ y j o. elim (∈-append_cases db.registrations (x ∷ []) y j) [
          | inl k ↦
              let below =
                All-∈ (λ (z : Registration). z.id < db.next_id) db.registrations y
                  w.registrations_below k in
              let same = ===_eq db.next_id y.id o in absurd (omega arith)
          | inr (inl e) ↦ ap (λ (z : Registration). z.group_id) e
          | inr (inr k) ↦ absurd k
        ])
        (∈-append_right db.registrations (x ∷ []) x (inl refl)) (===_refl db.next_id) refl h m
    where
      differ : true ≡ false → ⊥
      differ e = cc

  -- The tables once an event is published.
  abbrev with_event : AssignmentEvent → Tables → Tables
  with_event e t = record t { events = t.events ++ e ∷ [] }

  new_registration :
      (e : AssignmentEvent)
      → IsConsistent db
      → find_by (is_joined db a u) db.registrations ≡ none
      → any (λ h. h.id === g) db.course_tables.groups ≡ true
      → any (λ q. (q.id === p) && (q.user_id === u)) db.course_tables.participants ≡ true
      → (insert_registration a (record { group_id = some g; participant_ids = p ∷ [] }) db).0
        ≡ Outcome.ok tt
      → IsFound (
          with_event e
            (insert_registration a (record { group_id = some g; participant_ids = p ∷ [] }) db).1)
  unfolding insert_registration insert_relations return add_relation
  new_registration e w n h m k =
      let (id, x, c) =
        continue-ok (λ id. insert_relations id a (p ∷ [])) (insert_registration_row a (some g) db)
          tt k in
      let row = insert_registration_row-ok a g id db x in
      let (done, y, d) =
        continue-ok (λ (done : Unit {0}). return tt)
          (insert_relation db.next_id a p (add_registration a g db)) tt
          (unfold continue in rw row at k) in
      let added = insert_relation-ok db.next_id a p (add_registration a g db) y in
      rw (row) (unfold continue in rw added (in_new (db.events ++ e ∷ []) w n h m))

  created_found :
      (e : AssignmentEvent)
      → IsConsistent db
      → find_by (is_joined db a u) db.registrations ≡ none
      → any (λ h. h.id === g) db.course_tables.groups ≡ true
      → any (λ q. (q.id === p) && (q.user_id === u)) db.course_tables.participants ≡ true
      → (create_registration a g p db).0 ≡ Outcome.ok tt
      → IsFound (with_event e (create_registration a g p db).1)
  unfolding create_registration register_participant read_db continue
  created_found e w n h m k =
      elim (Option-cases (find_by (is_registration_of a g) db.registrations)) [
        | inl f ↦
            let new : Task (Unit {0}) =
              insert_registration a (record { group_id = some g; participant_ids = p ∷ [] }) in
            let (same, ok) = roll_back-ok db (new db) tt (rw f at k) in
            rw (f, same) (new_registration e w n h m ok)
        | inr (r, f) ↦
            let added = insert_relation-ok r.id a p db (rw f at k) in
            rw (f, added) (unfold add_relation in in_registered (db.events ++ e ∷ []) r w n f h m)
      ]

check-same :
    (u : String) (o : Option RegisteredGroup) (db : Tables) → (check_not_registered u o db).1 ≡ db
unfolding check_not_registered throw return
check-same u none db = refl
check-same u (some g) db = refl

-- The user had no group, and then came the registration and the event.
register_user_to_group-steps :
    (course_id a g : String) (p : Participant) (db : Tables)
    → (register_user_to_group course_id a g p db).0 ≡ Outcome.ok tt
    → let e = AssignmentEvent.user_registered course_id a p.user_id g in
      (find_by (is_joined db a p.user_id) db.registrations ≡ none)
      × ((create_registration a g p.id db).0 ≡ Outcome.ok tt)
      × (register_user_to_group course_id a g p db
          ≡ publish_event e (create_registration a g p.id db).1)
unfolding register_user_to_group try_get_registered_group_of_user read_db continue
register_user_to_group-steps course_id a g p db k =
    let e = AssignmentEvent.user_registered course_id a p.user_id g in
    let joined = joined_group db (find_by (is_joined db a p.user_id) db.registrations) in
    let rest : Unit {0} → Task (Unit {0}) =
      λ free. λ t. continue (λ done. publish_event e) (create_registration a g p.id t) in
    let (free, x, c) = continue-ok rest (check_not_registered p.user_id joined db) tt k in
    let all =
      c
      ∙ ap (λ t. continue (λ done. publish_event e) (create_registration a g p.id t))
          (check-same p.user_id joined db) in
    let (done, y, d) =
      continue-ok (λ done. publish_event e) (create_registration a g p.id db) tt
        (sym (ap (λ o. o.0) all) ∙ k) in
    (not_registered a p.user_id db x, y, all ∙ d)

-- In consistent tables in which the group and the participant exist: where `registerUserToGroup`
-- returns, the search for the user's registered group of that assignment finds the group.
pub register_user_to_group-found :
    (course_id a g : String) (p : Participant) (db : Tables)
    → IsConsistent db
    → any (λ h. h.id === g) db.course_tables.groups ≡ true
    → any (λ q. (q.id === p.id) && (q.user_id === p.user_id)) db.course_tables.participants ≡ true
    → (register_user_to_group course_id a g p db).0 ≡ Outcome.ok tt
    → (rg : RegisteredGroup) × ((try_get_registered_group_of_user a p.user_id
          (register_user_to_group course_id a g p db).1).0
        ≡ Outcome.ok (some rg))
      × (rg.group.id ≡ g)
unfolding publish_event write_db
register_user_to_group-found course_id a g p db w h m k =
    let e = AssignmentEvent.user_registered course_id a p.user_id g in
    let (none_before, created, steps) = register_user_to_group-steps course_id a g p db k in
    subst (IsFound db a g p.user_id p.id) (sym (ap (λ o. o.1) steps))
      (created_found db a g p.user_id p.id e w none_before h m created)
