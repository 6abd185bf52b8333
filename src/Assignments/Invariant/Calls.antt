-- ===== src/Assignments/Invariant/Calls.antt =====
-- Whatever is called: the calls of the two services and the scheduler's jobs.
use stu_mgmt_service.Prelude.{
  ℕ, String, string_eq, ◌===◌, Bool, true, false, Bool-cases, inl, inr, not, List, [], ◌∷◌, any,
}
use stu_mgmt_service.Groups.Models.{Exception, Participant}
use stu_mgmt_service.Groups.Store.{continue, return, throw, read_db, write_db}
use stu_mgmt_service.Groups.Preserve.{
  Preserves, throw-Preserves, return-Preserves, bind-Preserves, if-Preserves, write_db-Preserves,
}
use stu_mgmt_service.Assignments.Models.{AssignmentState, AssignmentRow, Assignment, new_assignment}
use stu_mgmt_service.Assignments.Store.{Tables, Task}
use stu_mgmt_service.Assignments.Registrations.{has_registrations}
use stu_mgmt_service.Assignments.Registering.{
  Services, register_group, register_user_to_group, unregister_user, unregister_group,
  remove_all_registrations,
}
use stu_mgmt_service.Assignments.Service.{
  AssignmentDto, AssignmentUpdateDto, save, get_assignment_by_id, spread, save_update,
  delete_assignment, create_assignment_dto, create_entity, register_if, create_assignment,
  register_on_first_start, finish_update, update_assignment,
}
use stu_mgmt_service.Assignments.Scheduler.{
  find_assignments_that_should_be_started, find_assignments_that_should_be_stopped, state_update,
  try_update_assignment, update_each, start_assignments, stop_assignments,
}
use stu_mgmt_service.Assignments.Invariant.{IsConsistent}
use stu_mgmt_service.Assignments.Invariant.Writes.{
  KeptByWrites, publish_event-Preserves, publish_if-Preserves, found-Preserves,
  register_groups_for_assignment-Preserves, register_group-Preserves,
  register_user_to_group-Preserves, unregister_user-Preserves, unregister_group-Preserves,
  remove_all_registrations-Preserves,
}
use stu_mgmt_service.Assignments.Invariant.Rows.{IsConsistent-KeptByWrites}
use stu_mgmt_service.Assignments.Invariant.Saving.{put-IsConsistent, removed-IsConsistent}

abbrev Keeps : {A : Type 0} → Task A → Type 0
Keeps = Preserves IsConsistent

-- What an update does once it is saved.
module _ (P : Tables → Type 0) (w : KeptByWrites P) (services : Services) where
  register_if-Preserves :
      (b : Bool) (course_id assignment_id : String)
      → Preserves P (register_if services b course_id assignment_id)
  unfolding register_if
  register_if-Preserves b c a =
      if-Preserves P b _ _ (register_groups_for_assignment-Preserves P w services c a)
        (return-Preserves P tt)

  register_on_first_start-Preserves :
      (course_id : String) (assignment : Assignment) (old_state : AssignmentState)
      → Preserves P (register_on_first_start services course_id assignment old_state)
  unfolding register_on_first_start has_registrations read_db
  register_on_first_start-Preserves c a old =
      if-Preserves P _ _ _
        (bind-Preserves P _ _ (λ db k. k) (λ exists. register_if-Preserves (not exists) c a.id))
        (return-Preserves P tt)

  pub finish_update-Preserves :
      (course_id : String) (old_state : AssignmentState) (row : AssignmentRow)
      → Preserves P (finish_update services course_id old_state row)
  unfolding finish_update
  finish_update-Preserves c old row =
      bind-Preserves P _ _ (register_on_first_start-Preserves c (new_assignment row) old)
        (λ registered. bind-Preserves P _ _ (publish_event-Preserves P w _) (λ updated.
          bind-Preserves P _ _ (publish_if-Preserves P w _ _)
            (λ changed. return-Preserves P (create_assignment_dto row false))))

save-Keeps : (a : AssignmentRow) → Keeps (save a)
unfolding save read_db write_db throw return continue
save-Keeps a db w = elim (Bool-cases (any (λ c. c === a.course_id) db.courses)) [
  | inl e ↦ rw e (put-IsConsistent a db e w)
  | inr e ↦ rw e w
]

save_update-Keeps :
    (assignment_id : String) (update : AssignmentUpdateDto)
    → Keeps (save_update assignment_id update)
unfolding save_update get_assignment_by_id read_db
save_update-Keeps id update =
    bind-Preserves IsConsistent _ _
      (bind-Preserves IsConsistent _ _ (λ db k. k)
        (λ o. found-Preserves IsConsistent IsConsistent-KeptByWrites AssignmentRow _ o))
      (λ row. save-Keeps (spread update row))

delete_assignment-Keeps :
    (course_id assignment_id : String) → Keeps (delete_assignment course_id assignment_id)
unfolding delete_assignment
delete_assignment-Keeps c a =
    bind-Preserves IsConsistent _ _
      (write_db-Preserves IsConsistent _ (λ d w. removed-IsConsistent a d w))
      (λ removed.
        bind-Preserves IsConsistent _ _
          (publish_event-Preserves IsConsistent IsConsistent-KeptByWrites _)
          (λ done. return-Preserves IsConsistent true))

module _ (services : Services) where
  create_assignment-Keeps :
      (new_id course_id : String) (dto : AssignmentDto)
      → Keeps (create_assignment services new_id course_id dto)
  unfolding create_assignment
  create_assignment-Keeps new_id c dto =
      if-Preserves IsConsistent _ _ _
        (throw-Preserves IsConsistent AssignmentRow Exception.bad_request)
        (bind-Preserves IsConsistent _ _ (save-Keeps (create_entity new_id c dto)) (λ row.
          bind-Preserves IsConsistent _ _
            (publish_event-Preserves IsConsistent IsConsistent-KeptByWrites _)
            (λ done.
              bind-Preserves IsConsistent _ _
                (register_if-Preserves IsConsistent IsConsistent-KeptByWrites services _ c _)
                (λ registered. return-Preserves IsConsistent (create_assignment_dto row false)))))

  update_assignment-Keeps :
      (course_id : String) (old : Assignment) (update : AssignmentUpdateDto)
      → Keeps (update_assignment services course_id old update)
  unfolding update_assignment
  update_assignment-Keeps c old update =
      bind-Preserves IsConsistent _ _ (save_update-Keeps old.id update)
        (finish_update-Preserves IsConsistent IsConsistent-KeptByWrites services c old.state)

  update_each-IsConsistent :
      (state : AssignmentState) (rows : List AssignmentRow) (db : Tables)
      → IsConsistent db
      → IsConsistent (update_each services state rows db)
  unfolding update_each try_update_assignment
  update_each-IsConsistent state [] db w = w
  update_each-IsConsistent state (a ∷ rows) db w =
      update_each-IsConsistent state rows _
        (update_assignment-Keeps a.course_id (new_assignment a) (state_update state) db w)

-- A call, with what the guards hand to it and the uuid that the database generates.
pub data AssignmentCall : Type 0 where
  creation : (new_id course_id : String) → AssignmentDto → AssignmentCall
  change : (course_id : String) → Assignment → AssignmentUpdateDto → AssignmentCall
  deletion : (course_id assignment_id : String) → AssignmentCall
  group_registration : (course_id assignment_id group_id : String) → AssignmentCall
  user_registration : (course_id assignment_id group_id : String) → Participant → AssignmentCall
  user_unregistration : (course_id assignment_id user_id : String) → AssignmentCall
  group_unregistration : (course_id assignment_id group_id : String) → AssignmentCall
  removal_of_all : (course_id assignment_id : String) → AssignmentCall
  starting : (now : ℕ) → AssignmentCall
  stopping : (now : ℕ) → AssignmentCall

module _ (services : Services) where
  -- The tables after a call, whether it returned or threw.
  unfoldable pub run_call : AssignmentCall → Tables → Tables
  run_call (AssignmentCall.creation new_id c dto) db =
      (create_assignment services new_id c dto db).1
  run_call (AssignmentCall.change c old update) db = (update_assignment services c old update db).1
  run_call (AssignmentCall.deletion c a) db = (delete_assignment c a db).1
  run_call (AssignmentCall.group_registration c a g) db = (register_group c a g db).1
  run_call (AssignmentCall.user_registration c a g p) db = (register_user_to_group c a g p db).1
  run_call (AssignmentCall.user_unregistration c a u) db = (unregister_user c a u db).1
  run_call (AssignmentCall.group_unregistration c a g) db = (unregister_group c a g db).1
  run_call (AssignmentCall.removal_of_all c a) db = (remove_all_registrations c a db).1
  run_call (AssignmentCall.starting now) db = start_assignments services now db
  run_call (AssignmentCall.stopping now) db = stop_assignments services now db

  unfoldable pub run_calls : List AssignmentCall → Tables → Tables
  unfolding run_call
  run_calls [] db = db
  run_calls (call ∷ calls) db = run_calls calls (run_call call db)

  run_call-IsConsistent :
      (call : AssignmentCall) (db : Tables) → IsConsistent db → IsConsistent (run_call call db)
  unfolding run_call start_assignments stop_assignments
  run_call-IsConsistent (AssignmentCall.creation new_id c dto) =
      create_assignment-Keeps services new_id c dto
  run_call-IsConsistent (AssignmentCall.change c old update) =
      update_assignment-Keeps services c old update
  run_call-IsConsistent (AssignmentCall.deletion c a) = delete_assignment-Keeps c a
  run_call-IsConsistent (AssignmentCall.group_registration c a g) =
      register_group-Preserves IsConsistent IsConsistent-KeptByWrites c a g
  run_call-IsConsistent (AssignmentCall.user_registration c a g p) =
      register_user_to_group-Preserves IsConsistent IsConsistent-KeptByWrites c a g p
  run_call-IsConsistent (AssignmentCall.user_unregistration c a u) =
      unregister_user-Preserves IsConsistent IsConsistent-KeptByWrites c a u
  run_call-IsConsistent (AssignmentCall.group_unregistration c a g) =
      unregister_group-Preserves IsConsistent IsConsistent-KeptByWrites c a g
  run_call-IsConsistent (AssignmentCall.removal_of_all c a) =
      remove_all_registrations-Preserves IsConsistent IsConsistent-KeptByWrites c a
  run_call-IsConsistent (AssignmentCall.starting now) = λ db w.
      update_each-IsConsistent services AssignmentState.in_progress
        (find_assignments_that_should_be_started now db) db w
  run_call-IsConsistent (AssignmentCall.stopping now) = λ db w.
      update_each-IsConsistent services AssignmentState.in_review
        (find_assignments_that_should_be_stopped now db) db w

  -- Whatever is called in whatever order, and whether the calls return or throw: in tables that
  -- were consistent before, a participant and a group stay registered at most once for an
  -- assignment, a relation belongs to a registration of its own assignment, a registration to an
  -- assignment that exists and an assignment to a course that exists, and ids stay different.
  pub run_calls-IsConsistent :
      (calls : List AssignmentCall) (db : Tables)
      → IsConsistent db
      → IsConsistent (run_calls calls db)
  unfolding run_calls
  run_calls-IsConsistent [] db w = w
  run_calls-IsConsistent (call ∷ calls) db w =
      run_calls-IsConsistent calls (run_call call db) (run_call-IsConsistent call db w)
