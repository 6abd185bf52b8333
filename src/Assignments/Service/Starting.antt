-- ===== src/Assignments/Service/Starting.antt =====
-- What an update does that starts an assignment for the first time.
use stu_mgmt_service.Prelude.{
  string_eq, ◌===◌, ===_refl, ◌≡◌, refl, ap, ◌∙◌, inl, inr, true, false, Bool-cases, ◌&&◌, List, [],
  ◌∷◌, ◌++◌, map, none, some, any, find_by, update_by, map_get,
}
use stu_mgmt_service.Groups.Models.{Outcome, GroupSettings}
use stu_mgmt_service.Groups.Store.{continue, return, read_db, write_db}
use stu_mgmt_service.Assignments.Models.{
  AssignmentRow, new_assignment, allows_groups, has_changed_state, was_started,
}
use stu_mgmt_service.Assignments.Store.{Tables, found, publish_event}
use stu_mgmt_service.Assignments.Registrations.{has_registrations}
use stu_mgmt_service.Assignments.Registrations.Complete.Groups.{participants, seats}
use stu_mgmt_service.Assignments.Registering.{Services, publish_if, register_groups_for_assignment}
use stu_mgmt_service.Assignments.Registering.Course.{entry}
use stu_mgmt_service.Assignments.Registering.First.{
  IsUnregistered, groups_of, register_groups_for_assignment-registers,
}
use stu_mgmt_service.Assignments.Invariant.{registered_group, seat}
use stu_mgmt_service.Assignments.Invariant.Saving.{put-IsConsistent}
use stu_mgmt_service.Assignments.Service.{
  AssignmentUpdateDto, put, save, get_assignment_by_id, spread, save_update, register_if,
  register_on_first_start, finish_update, update_assignment, create_assignment_dto,
}

any-put :
    (row : AssignmentRow) (rows : List AssignmentRow)
    → any (λ b. b.id === row.id) rows ≡ true
    → any (λ b. b.id === row.id) (put row rows) ≡ true
unfolding put
any-put row rows h = rw h (updated rows h)
  where
    updated :
        (xs : List AssignmentRow)
        → any (λ b. b.id === row.id) xs ≡ true
        → any (λ b. b.id === row.id) (update_by (λ b. b.id === row.id) row xs) ≡ true
    updated [] k = k
    updated (x ∷ xs) k = elim (Bool-cases (x.id === row.id)) [
      | inl e ↦ rw (e, ===_refl row.id) refl
      | inr e ↦ rw (e, e) (updated xs (rw e at k))
    ]

-- The row with the values of an update that names no other assignment or course.
abbrev pub updated_row : AssignmentRow → AssignmentUpdateDto → AssignmentRow
updated_row a update = record (spread update a) { id = a.id; course_id = a.course_id }

-- The tables once the row is saved.
abbrev pub saved : AssignmentRow → Tables → Tables
saved row db = record db { assignments = put row db.assignments }

module _ (services : Services) (a : AssignmentRow) (update : AssignmentUpdateDto) (db : Tables)
    (settings : GroupSettings) where
  abbrev row : AssignmentRow
  row = updated_row a update

  saved-IsUnregistered :
      any (λ c. c === a.course_id) db.courses ≡ true
      → IsUnregistered services a.course_id a.id db
      → IsUnregistered services a.course_id a.id (saved row db)
  saved-IsUnregistered c u = record {
    consistent = put-IsConsistent row db c u.consistent;
    well_formed = u.well_formed;
    members_exist = u.members_exist;
    assignment_exists = any-put row db.assignments u.assignment_exists;
    unregistered = u.unregistered;
  }

  saving :
      find_by (λ b. b.id === a.id) db.assignments ≡ some a
      → any (λ c. c === a.course_id) db.courses ≡ true
      → update.id ≡ none
      → update.course_id ≡ none
      → save_update a.id update db ≡ (Outcome.ok row, saved row db)
  unfolding save_update get_assignment_by_id found save spread read_db write_db return continue
  saving f c i j = rw (f, i, j, c) refl

  -- Groups are registered, and then the events are published.
  registering :
      (was_started (new_assignment row) (some a.state) && allows_groups (new_assignment row)) ≡ true
      → any (λ r. r.assignment_id === a.id) db.registrations ≡ false
      → (register_groups_for_assignment services a.course_id a.id (saved row db)).0 ≡ Outcome.ok tt
      → let registered =
          (register_groups_for_assignment services a.course_id a.id (saved row db)).1 in
        let (result, after) = finish_update services a.course_id a.state row (saved row db) in
        (result ≡ Outcome.ok (create_assignment_dto row false))
        × (after.registrations ≡ registered.registrations)
        × (after.relations ≡ registered.relations)
        × (after.assignments ≡ registered.assignments)
  unfolding finish_update register_on_first_start register_if has_registrations publish_event
      publish_if read_db write_db return continue new_assignment
  registering started free ok =
      let registered =
        (register_groups_for_assignment services a.course_id a.id (saved row db)).1 in
      let e : register_groups_for_assignment services a.course_id a.id (saved row db)
          ≡ (Outcome.ok tt, registered) =
        ap (λ o. (o, registered)) ok in
      elim (Bool-cases (has_changed_state (new_assignment row) a.state)) [
        | inl c ↦ rw (started, free, e, c) (refl, refl, refl, refl)
        | inr c ↦ rw (started, free, e, c) (refl, refl, refl, refl)
      ]

  -- An update of an assignment, which names no other assignment or course, from a state that is not
  -- IN_PROGRESS to IN_PROGRESS, where groups are allowed then: if nothing is registered for the
  -- assignment yet, in consistent tables as `registerGroupsForAssignment` needs them, the update
  -- returns, the row has the values of the update, and each group of the course and each of its
  -- members is registered once, and nothing else.
  pub update_assignment-registers :
      find_by (λ b. b.id === a.id) db.assignments ≡ some a
      → any (λ c. c === a.course_id) db.courses ≡ true
      → update.id ≡ none
      → update.course_id ≡ none
      → (was_started (new_assignment (updated_row a update)) (some a.state)
          && allows_groups (new_assignment (updated_row a update)))
        ≡ true
      → IsUnregistered services a.course_id a.id db
      → map_get a.course_id db.course_tables.settings ≡ some settings
      → settings.merge_groups_on_assignment_started ≡ false
      → let (result, after) = update_assignment services a.course_id (new_assignment a) update db in
        let groups =
          map (entry db.course_tables) (groups_of services a.course_id db.course_tables) in
        (result ≡ Outcome.ok (create_assignment_dto (updated_row a update) false))
        × (after.assignments ≡ put (updated_row a update) db.assignments)
        × (map registered_group after.registrations
            ≡ map registered_group db.registrations ++ map (λ e. (a.id, e.0)) groups)
        × (map seat after.relations ≡ map seat db.relations ++ seats a.id (participants groups))
  unfolding update_assignment continue new_assignment
  update_assignment-registers f c i j started u s m =
      let (ok, r) =
        register_groups_for_assignment-registers services a.course_id a.id (saved row db) settings
          (saved-IsUnregistered c u) s m in
      let (result, same_registrations, same_relations, same_assignments) =
        registering started u.unregistered ok in
      rw (saving f c i j) (
        result,
        same_assignments ∙ r.same_assignments,
        ap (map registered_group) same_registrations ∙ r.groups_added,
        ap (map seat) same_relations ∙ r.seats_added,
      )
