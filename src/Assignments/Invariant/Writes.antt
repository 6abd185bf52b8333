-- ===== src/Assignments/Invariant/Writes.antt =====
-- A property of the tables that each single write keeps is kept by every call that registers or
-- unregisters, whether it returns or throws.
use stu_mgmt_service.Prelude.{
  ℕ, String, string_eq, nat_eq, ◌===◌, ◌≡◌, subst, inl, inr, arith, Bool, true, false, Bool-cases,
  List, [], ◌∷◌, ◌++◌, Option, none, some, filter_by, any,
}
use stu_mgmt_service.Merge.Groups.{GroupId}
use stu_mgmt_service.Groups.Models.{Exception, Outcome, Participant}
use stu_mgmt_service.Groups.Store.{
  Database, Action, continue, roll_back, return, throw, read_db, write_db,
}
use stu_mgmt_service.Groups.Preserve.{
  Preserves, throw-Preserves, return-Preserves, write_db-Preserves, bind-Preserves, if-Preserves,
  roll_back-Preserves,
}
use stu_mgmt_service.Assignments.Store.{
  Registration, RegistrationRelation, AssignmentEvent, Tables, in_course, found, publish_event,
}
use stu_mgmt_service.Assignments.Registrations.{
  GroupWithMembers, NewRegistration, RegisteredGroup, build_registrations, is_registration_of,
  occupies, references_exist, add_relation, insert_relation, insert_relations, add_registration,
  insert_registration_row, insert_registration, insert_registrations, create_registrations,
  catch_unique_violation, create_group_registration, register_participant, create_registration,
  try_get_registered_group_of_user,
}
use stu_mgmt_service.Assignments.Removal.{
  delete_registrations, remove_registration_for_user, remove_registration_for_group,
  remove_registrations,
}
use stu_mgmt_service.Assignments.Registering.{
  Services, groups_to_register, get_group_with_users, register_groups_for_assignment,
  register_group, check_not_registered, register_user_to_group, publish_if, unregister_user,
  unregister_group, remove_all_registrations,
}

-- Each write, under the checks that guard it.
pub record KeptByWrites (P : Tables → Type 0) : Type 0 where
  pub relation :
      (registration_id : ℕ) (assignment_id : String) (participant_id : ℕ) (db : Tables)
      → any (occupies registration_id assignment_id participant_id) db.relations ≡ false
      → references_exist registration_id assignment_id participant_id db ≡ true
      → P db
      → P (add_relation registration_id assignment_id participant_id db)
  pub registration :
      (assignment_id group_id : String) (db : Tables)
      → any (is_registration_of assignment_id group_id) db.registrations ≡ false
      → any (λ a. a.id === assignment_id) db.assignments ≡ true
      → P db
      → P (add_registration assignment_id group_id db)
  pub deletion : (p : Registration → Bool) (db : Tables) → P db → P (delete_registrations p db)
  pub unregistration :
      (p : RegistrationRelation → Bool) (db : Tables)
      → P db
      → P (record db { relations = filter_by p db.relations })
  pub event :
      (e : AssignmentEvent) (db : Tables) → P db → P (record db { events = db.events ++ e ∷ [] })
  pub course : (c : Database) (db : Tables) → P db → P (record db { course_tables = c })

module _ (P : Tables → Type 0) (w : KeptByWrites P) where
  pub publish_event-Preserves : (e : AssignmentEvent) → Preserves P (publish_event e)
  unfolding publish_event write_db
  publish_event-Preserves e db k = w.event e db k

  pub publish_if-Preserves : (b : Bool) (e : AssignmentEvent) → Preserves P (publish_if b e)
  unfolding publish_if
  publish_if-Preserves b e =
      if-Preserves P b _ _ (publish_event-Preserves e) (return-Preserves P tt)

  pub in_course-Preserves : (A : Type 0) (m : Action A) → Preserves P (in_course m)
  unfolding in_course
  in_course-Preserves A m db k = w.course (m db.course_tables).1 db k

  pub found-Preserves : (A : Type 0) (e : Exception) (o : Option A) → Preserves P (found e o)
  unfolding found
  found-Preserves A e none = throw-Preserves P A e
  found-Preserves A e (some a) = return-Preserves P a

  insert_relation-Preserves :
      (registration_id : ℕ) (assignment_id : String) (participant_id : ℕ)
      → Preserves P (insert_relation registration_id assignment_id participant_id)
  unfolding insert_relation read_db write_db throw continue
  insert_relation-Preserves r a p db k = elim (Bool-cases (any (occupies r a p) db.relations)) [
    | inl e ↦ rw e k
    | inr e ↦ elim (Bool-cases (references_exist r a p db)) [
      | inl f ↦ rw (e, f) (w.relation r a p db e f k)
      | inr f ↦ rw (e, f) k
    ]
  ]

  insert_relations-Preserves :
      (registration_id : ℕ) (assignment_id : String) (participant_ids : List ℕ)
      → Preserves P (insert_relations registration_id assignment_id participant_ids)
  unfolding insert_relations
  insert_relations-Preserves r a [] = return-Preserves P tt
  insert_relations-Preserves r a (p ∷ ps) =
      bind-Preserves P _ _ (insert_relation-Preserves r a p)
        (λ done. insert_relations-Preserves r a ps)

  insert_registration_row-Preserves :
      (assignment_id : String) (group_id : GroupId)
      → Preserves P (insert_registration_row assignment_id group_id)
  unfolding insert_registration_row read_db write_db throw return continue
  insert_registration_row-Preserves a none db k = k
  insert_registration_row-Preserves a (some g) db k =
      elim (Bool-cases (any (is_registration_of a g) db.registrations)) [
        | inl e ↦ rw e k
        | inr e ↦ elim (Bool-cases (any (λ b. b.id === a) db.assignments)) [
          | inl f ↦ elim (Bool-cases (any (λ h. h.id === g) db.course_tables.groups)) [
            | inl h ↦ rw (e, f, h) (w.registration a g db e f k)
            | inr h ↦ rw (e, f, h) k
          ]
          | inr f ↦ rw (e, f) k
        ]
      ]

  insert_registration-Preserves :
      (assignment_id : String) (r : NewRegistration)
      → Preserves P (insert_registration assignment_id r)
  unfolding insert_registration
  insert_registration-Preserves a r =
      bind-Preserves P _ _ (insert_registration_row-Preserves a r.group_id)
        (λ id. insert_relations-Preserves id a r.participant_ids)

  insert_registrations-Preserves :
      (assignment_id : String) (rs : List NewRegistration)
      → Preserves P (insert_registrations assignment_id rs)
  unfolding insert_registrations
  insert_registrations-Preserves a [] = return-Preserves P tt
  insert_registrations-Preserves a (r ∷ rs) =
      bind-Preserves P _ _ (insert_registration-Preserves a r)
        (λ done. insert_registrations-Preserves a rs)

  create_registrations-Preserves :
      (assignment_id : String) (groups : List GroupWithMembers)
      → Preserves P (create_registrations assignment_id groups)
  unfolding create_registrations
  create_registrations-Preserves a groups =
      if-Preserves P _ _ _ (return-Preserves P tt)
        (roll_back-Preserves P _ (insert_registrations-Preserves a (build_registrations groups)))

  create_group_registration-Preserves :
      (assignment_id group_id : String) (participant_ids : List ℕ)
      → Preserves P (create_group_registration assignment_id group_id participant_ids)
  unfolding create_group_registration
  create_group_registration-Preserves a g ps db k =
      let r : NewRegistration = record { group_id = some g; participant_ids = ps } in
      subst P (same (roll_back db (insert_registration a r db)))
        (roll_back-Preserves P (insert_registration a r) (insert_registration-Preserves a r) db k)
    where
      same : (r : Outcome (Unit {0}) × Tables) → r.1 ≡ (catch_unique_violation r).1
      same r = ground arith

  register_participant-Preserves :
      (r : Option Registration) (assignment_id group_id : String) (participant_id : ℕ)
      → Preserves P (register_participant r assignment_id group_id participant_id)
  unfolding register_participant
  register_participant-Preserves none a g p =
      let r : NewRegistration = record { group_id = some g; participant_ids = p ∷ [] } in
      roll_back-Preserves P (insert_registration a r) (insert_registration-Preserves a r)
  register_participant-Preserves (some r) a g p = insert_relation-Preserves r.id a p

  create_registration-Preserves :
      (assignment_id group_id : String) (participant_id : ℕ)
      → Preserves P (create_registration assignment_id group_id participant_id)
  unfolding create_registration read_db
  create_registration-Preserves a g p =
      bind-Preserves P _ _ (λ d k. k) (λ r. register_participant-Preserves r a g p)

  remove_registration_for_user-Preserves :
      (assignment_id user_id : String)
      → Preserves P (remove_registration_for_user assignment_id user_id)
  unfolding remove_registration_for_user read_db
  remove_registration_for_user-Preserves a u =
      bind-Preserves P _ _ (λ d k. k)
        (λ db.
          bind-Preserves P _ _ (found-Preserves RegistrationRelation Exception.entity_not_found _)
            (λ s.
              bind-Preserves P _ _ (write_db-Preserves P _ (λ d. w.unregistration _ d))
                (λ done. return-Preserves P true)))

  remove_registration_for_group-Preserves :
      (assignment_id group_id : String)
      → Preserves P (remove_registration_for_group assignment_id group_id)
  unfolding remove_registration_for_group read_db
  remove_registration_for_group-Preserves a g =
      bind-Preserves P _ _ (λ d k. k)
        (λ rs. if-Preserves P _ _ _ (return-Preserves P false) (
          bind-Preserves P _ _ (write_db-Preserves P _ (λ d. w.deletion _ d))
            (λ done. return-Preserves P true)))

  -- The calls of AssignmentRegistrationService.
  pub register_groups_for_assignment-Preserves :
      (services : Services) (course_id assignment_id : String)
      → Preserves P (register_groups_for_assignment services course_id assignment_id)
  unfolding register_groups_for_assignment
  register_groups_for_assignment-Preserves services c a =
      bind-Preserves P _ _
        (in_course-Preserves (List GroupWithMembers) (groups_to_register services c))
        (λ groups.
          bind-Preserves P _ _ (create_registrations-Preserves a groups)
            (λ done. publish_event-Preserves _))

  pub register_group-Preserves :
      (course_id assignment_id group_id : String)
      → Preserves P (register_group course_id assignment_id group_id)
  unfolding register_group
  register_group-Preserves c a g =
      bind-Preserves P _ _ (in_course-Preserves (List ℕ) (get_group_with_users g)) (λ ps.
        bind-Preserves P _ _ (create_group_registration-Preserves a g ps)
          (λ done. publish_event-Preserves _))

  pub register_user_to_group-Preserves :
      (course_id assignment_id group_id : String) (selected : Participant)
      → Preserves P (register_user_to_group course_id assignment_id group_id selected)
  unfolding register_user_to_group try_get_registered_group_of_user check_not_registered
  register_user_to_group-Preserves c a g p =
      bind-Preserves P _ _ (λ d k. k)
        (λ registered. bind-Preserves P _ _ (free registered) (λ ok.
          bind-Preserves P _ _ (create_registration-Preserves a g p.id)
            (λ done. publish_event-Preserves _)))
    where
      free : (o : Option RegisteredGroup) → Preserves P (check_not_registered p.user_id o)
      free none db k = k
      free (some group) db k = k

  pub unregister_user-Preserves :
      (course_id assignment_id user_id : String)
      → Preserves P (unregister_user course_id assignment_id user_id)
  unfolding unregister_user
  unregister_user-Preserves c a u =
      bind-Preserves P _ _ (remove_registration_for_user-Preserves a u)
        (λ removed. publish_if-Preserves removed _)

  pub unregister_group-Preserves :
      (course_id assignment_id group_id : String)
      → Preserves P (unregister_group course_id assignment_id group_id)
  unfolding unregister_group
  unregister_group-Preserves c a g =
      bind-Preserves P _ _ (remove_registration_for_group-Preserves a g)
        (λ removed. publish_if-Preserves removed _)

  pub remove_all_registrations-Preserves :
      (course_id assignment_id : String)
      → Preserves P (remove_all_registrations course_id assignment_id)
  unfolding remove_all_registrations remove_registrations
  remove_all_registrations-Preserves c a =
      bind-Preserves P _ _ (write_db-Preserves P _ (λ d. w.deletion _ d))
        (λ done. publish_event-Preserves _)
