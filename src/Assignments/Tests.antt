-- ===== src/Assignments/Tests.antt =====
-- Runs of the operations on assignments on small data, and each theorem at a concrete input.
use Prim.Native.String.{compare}
use text.Mathlib.TextEquality.{eq_iff}
use stu_mgmt_service.Prelude.{
  map, ◌&&◌, ℕ, ◌+◌, ◌≤◌, ◌≡◌, refl, inl, inr, ltb, if◌then◌else◌, String, string_eq, ◌===◌, true,
  false, List, [], ◌∷◌, some, none, arith, ◌∈◌, find_by, map_get, sort,
}
use stu_mgmt_service.Groups.Models.{Outcome, CourseRole, GroupSettings, Participant}
use stu_mgmt_service.Groups.Store.{Relation, GroupRow, ParticipantRow, Database, continue}
use stu_mgmt_service.Groups.Invariant.{IsWellFormed}
use stu_mgmt_service.Assignments.Models.{
  AssignmentState, AssignmentType, CollaborationType, state_eq, AssignmentRow, new_assignment,
  was_started, allows_groups,
}
use stu_mgmt_service.Assignments.Store.{Tables}
use stu_mgmt_service.Assignments.Registrations.{
  RegisteredGroup, try_get_registered_group_of_user, create_registration,
}
use stu_mgmt_service.Assignments.Registrations.Complete.{IsRegistered}
use stu_mgmt_service.Assignments.Registering.{
  Services, register_groups_for_assignment, register_user_to_group,
}
use stu_mgmt_service.Assignments.Registering.First.{
  IsUnregistered, register_groups_for_assignment-registers,
}
use stu_mgmt_service.Assignments.Registering.User.Found.{register_user_to_group-found}
use stu_mgmt_service.Assignments.Service.{
  spread, save_update, update_assignment, put, create_assignment_dto,
}
use stu_mgmt_service.Assignments.Service.Starting.{updated_row, update_assignment-registers}
use stu_mgmt_service.Assignments.Service.Update.{save_update-other}
use stu_mgmt_service.Assignments.Scheduler.{
  is_to_be_started, state_update, start_assignments, find_next_assignment,
  get_next_starting_assignment, find_assignments_that_should_be_started,
  schedule_next_start_and_stop, fire_start,
}
use stu_mgmt_service.Assignments.Scheduler.Jobs.{start_assignments-mark}
use stu_mgmt_service.Assignments.Scheduler.Lifecycle.{Job, run_jobs, Follows, run_jobs-Follows}
use stu_mgmt_service.Assignments.Scheduler.Next.{IsNext, find_next_assignment-IsNext}
use stu_mgmt_service.Assignments.Scheduler.Timeouts.{
  longest_delay, IsSetTimeout, scheduled, fire_start-starts, fire_start-forgets,
}
use stu_mgmt_service.Assignments.Invariant.{IsConsistent, registered_group, seat}
use stu_mgmt_service.Assignments.Invariant.Calls.{AssignmentCall, run_calls, run_calls-IsConsistent}

abbrev services : Services
services = record { collate = compare; merge = λ course_id lo hi groups. Outcome.ok groups }

abbrev settings : GroupSettings
settings = record {
  allow_groups = true;
  name_schema = none;
  size_min = 2;
  size_max = 3;
  selfmanaged = true;
  merge_groups_on_assignment_started = false;
}

abbrev group_row : String → String → GroupRow
group_row id name = record {
  id = id;
  course_id = "java";
  name = name;
  password = none;
  is_closed = false;
}

abbrev participant_row : ℕ → String → ParticipantRow
participant_row id user = record {
  id = id;
  course_id = "java";
  user_id = user;
  role = CourseRole.student;
}

abbrev member : ℕ → String → String → Relation
member id user group = record { user_id = user; participant_id = id; group_id = group }

abbrev course_tables : Database
course_tables = record {
  groups = group_row "g1" "beta" ∷ group_row "g2" "alpha" ∷ [];
  relations = member 1 "ann" "g1" ∷ member 2 "bob" "g1" ∷ member 3 "cem" "g2" ∷ [];
  participants =
      participant_row 1 "ann"
      ∷ participant_row 2 "bob"
      ∷ participant_row 3 "cem"
      ∷ participant_row 4 "dan"
      ∷ [];
  settings = ("java", settings) ∷ [];
  events = [];
}

abbrev sheet : String → AssignmentState → ℕ → AssignmentRow
sheet id state start = record {
  id = id;
  name = id;
  state = state;
  start_date = some start;
  end_date = some (start + 100);
  comment = none;
  links = none;
  configs = none;
  kind = AssignmentType.homework;
  points = 10;
  bonus_points = none;
  collaboration = CollaborationType.group;
  course_id = "java";
}

abbrev tables : ℕ → Tables
tables start = record {
  courses = "java" ∷ [];
  course_tables = course_tables;
  assignments = sheet "s1" AssignmentState.invisible start ∷ [];
  registrations = [];
  relations = [];
  next_id = 1;
  events = [];
}

tables-IsConsistent : (start : ℕ) → IsConsistent (tables start)
tables-IsConsistent start = record {
  one_group = tt;
  groups_once = tt;
  belong = tt;
  assignments_exist = tt;
  courses_exist = (inl refl, tt);
  assignments_apart = ((λ i. i), tt);
  registrations_apart = tt;
  relations_apart = tt;
  registrations_below = tt;
  relations_below = tt;
}

course_tables-IsWellFormed : IsWellFormed course_tables
course_tables-IsWellFormed = record {
  one_group = omega arith;
  groups_exist = (inl refl, (inl refl, (inr (inl refl), tt)));
  ids_apart = ((λ i. elim i [ inl e ↦ apart e | inr j ↦ j ]), ((λ i. i), tt));
  names_apart = ((λ i. elim i [ inl e ↦ named e | inr j ↦ j ]), ((λ i. i), tt));
}
  where
    apart : ◌≡◌ {A = String} "g1" "g2" → ⊥
    apart e = ground (arith, eq_iff "g1" "g2")

    named : ◌≡◌ {A = String × String} ("java", "beta") ("java", "alpha") → ⊥
    named e = ground (arith, eq_iff "beta" "alpha")

abbrev dan : Participant
dan = record { id = 4; user_id = "dan"; group_id = none; role = CourseRole.student }

abbrev session : List AssignmentCall
session =
    AssignmentCall.starting 60
    ∷ AssignmentCall.user_registration "java" "s1" "g2" dan
    ∷ AssignmentCall.group_unregistration "java" "s1" "g1"
    ∷ AssignmentCall.group_registration "java" "s1" "g1"
    ∷ AssignmentCall.change "java" (new_assignment (sheet "s1" AssignmentState.in_progress 50))
        (state_update AssignmentState.evaluated)
    ∷ AssignmentCall.deletion "java" "s1"
    ∷ []

run_calls-IsConsistent_example : IsConsistent (run_calls services session (tables 50))
run_calls-IsConsistent_example =
    run_calls-IsConsistent services session (tables 50) (tables-IsConsistent 50)

tables-IsUnregistered : IsUnregistered services "java" "s1" (tables 50)
tables-IsUnregistered = record {
  consistent = tables-IsConsistent 50;
  well_formed = course_tables-IsWellFormed;
  members_exist = (refl, (refl, (refl, tt)));
  assignment_exists = refl;
  unregistered = refl;
}

register_groups_for_assignment-registers_example :
    ((register_groups_for_assignment services "java" "s1" (tables 50)).0 ≡ Outcome.ok tt)
    × IsRegistered
        (tables 50)
        (register_groups_for_assignment services "java" "s1" (tables 50)).1
        (("s1", "g2") ∷ ("s1", "g1") ∷ [])
        (("s1", 3) ∷ ("s1", 1) ∷ ("s1", 2) ∷ [])
unfolding sort
register_groups_for_assignment-registers_example =
    register_groups_for_assignment-registers services "java" "s1" (tables 50) settings
      tables-IsUnregistered (unfold map_get in refl) refl

dan_run : (register_user_to_group "java" "s1" "g1" dan (tables 50)).0 ≡ Outcome.ok tt
unfolding register_user_to_group continue try_get_registered_group_of_user create_registration
dan_run = refl

register_user_to_group-found_example :
    (rg : RegisteredGroup) × ((try_get_registered_group_of_user "s1" "dan"
        (register_user_to_group "java" "s1" "g1" dan (tables 50)).1).0
      ≡ Outcome.ok (some rg))
    × (rg.group.id ≡ "g1")
register_user_to_group-found_example =
    register_user_to_group-found "java" "s1" "g1" dan (tables 50) (tables-IsConsistent 50) refl refl
      dan_run

start_assignments-mark_example :
    (start_assignments services 60 (tables 50)).assignments
    ≡ sheet "s1" AssignmentState.in_progress 50 ∷ []
unfolding is_to_be_started
start_assignments-mark_example =
    start_assignments-mark services 60 (tables 50) (tables-IsConsistent 50)

run_jobs-Follows_example :
    Follows
      (Job.starting 60 ∷ Job.stopping 160 ∷ [])
      (tables 50).assignments
      (run_jobs services (Job.starting 60 ∷ Job.stopping 160 ∷ []) (tables 50)).assignments
run_jobs-Follows_example =
    run_jobs-Follows services (Job.starting 60 ∷ Job.stopping 160 ∷ []) (tables 50)
      (tables-IsConsistent 50)

find_next_assignment-IsNext_example :
    IsNext
      (λ a. a.start_date)
      (some AssignmentState.invisible)
      20
      (tables 50).assignments
      (find_next_assignment (λ a. a.start_date) (some AssignmentState.invisible) 20 (tables 50))
find_next_assignment-IsNext_example =
    find_next_assignment-IsNext (λ a. a.start_date) (some AssignmentState.invisible) 20 (tables 50)

abbrev set_timeout : ℕ → ℕ
set_timeout delay = if ltb delay 1 then 1 else (if ltb longest_delay delay then 1 else delay)

set_timeout-IsSetTimeout : IsSetTimeout set_timeout
set_timeout-IsSetTimeout = record {
  exact = λ delay h k. ground arith;
  at_once = refl;
  too_long = λ delay h. ground arith;
}

next_run_early :
    get_next_starting_assignment 20 (tables 50) ≡ some (sheet "s1" AssignmentState.invisible 50)
unfolding get_next_starting_assignment sort
next_run_early = refl

next_run_late :
    get_next_starting_assignment 20 (tables 3000000000)
    ≡ some (sheet "s1" AssignmentState.invisible 3000000000)
unfolding get_next_starting_assignment sort
next_run_late = refl

none_due_run : find_assignments_that_should_be_started 20 (tables 3000000000) ≡ []
unfolding find_assignments_that_should_be_started
none_due_run = refl

fire_start-starts_example :
    (due : ℕ) × ((scheduled services set_timeout 20 (tables 50)).timers.start ≡ some due)
    × (50 ≤ due)
    × (due ≤ 51)
    × (sheet "s1" AssignmentState.in_progress 50
        ∈ (fire_start services set_timeout
            (due + 7)
            (scheduled services set_timeout 20 (tables 50))).tables.assignments)
fire_start-starts_example =
    fire_start-starts services set_timeout set_timeout-IsSetTimeout 20 (tables 50)
      (sheet "s1" AssignmentState.invisible 50) 50 7 (tables-IsConsistent 50) next_run_early refl
      (omega arith)

fire_start-forgets_example :
    ((scheduled services set_timeout 20 (tables 3000000000)).timers.start ≡ some 21)
    × (fire_start services set_timeout
          (21 + 4)
          (scheduled services set_timeout 20 (tables 3000000000))
        ≡ record {
          tables = tables 3000000000;
          timers =
              record (schedule_next_start_and_stop services set_timeout 20 (tables 3000000000)) {
                start = none;
              };
        })
fire_start-forgets_example =
    fire_start-forgets services set_timeout set_timeout-IsSetTimeout 20 (tables 3000000000)
      (sheet "s1" AssignmentState.invisible 3000000000) 3000000000 4 none_due_run next_run_late refl
      (omega arith) (omega arith)

abbrev two_sheets : Tables
two_sheets = record (tables 50) {
  courses = "java" ∷ "c" ∷ [];
  assignments =
      sheet "s1" AssignmentState.invisible 50
      ∷ record (sheet "s2" AssignmentState.evaluated 10) { course_id = "c" }
      ∷ [];
}

save_update-other_example :
    let update = state_update AssignmentState.closed in
    let after = (save_update "s1" (record update { id = some "s2" }) two_sheets).1 in
    (find_by (λ b. b.id === "s1") after.assignments
      ≡ some (sheet "s1" AssignmentState.invisible 50))
    × (find_by (λ b. b.id === "s2") after.assignments
        ≡ some (record (sheet "s1" AssignmentState.closed 50) { id = "s2" }))
unfolding spread state_update
save_update-other_example =
    save_update-other "s1" "s2" (state_update AssignmentState.closed)
      (sheet "s1" AssignmentState.invisible 50) two_sheets refl refl refl refl

abbrev registered_tables : Tables
registered_tables = record (tables 50) {
  registrations = record { id = 1; assignment_id = "s1"; group_id = "g1" } ∷ [];
  next_id = 2;
}

abbrev invisible_sheet : AssignmentRow
invisible_sheet = sheet "s1" AssignmentState.invisible 50

sheet_started :
    let row = updated_row invisible_sheet (state_update AssignmentState.in_progress) in
    (was_started (new_assignment row) (some invisible_sheet.state)
      && allows_groups (new_assignment row))
    ≡ true
unfolding spread state_update was_started allows_groups new_assignment
sheet_started = refl

update_assignment-registers_example :
    let update = state_update AssignmentState.in_progress in
    let (result, after) =
      update_assignment services "java" (new_assignment invisible_sheet) update (tables 50) in
    (result ≡ Outcome.ok (create_assignment_dto (updated_row invisible_sheet update) false))
    × (after.assignments ≡ put (updated_row invisible_sheet update) (tables 50).assignments)
    × (map registered_group after.registrations ≡ ("s1", "g2") ∷ ("s1", "g1") ∷ [])
    × (map seat after.relations ≡ ("s1", 3) ∷ ("s1", 1) ∷ ("s1", 2) ∷ [])
unfolding sort state_update
update_assignment-registers_example =
    update_assignment-registers services invisible_sheet (state_update AssignmentState.in_progress)
      (tables 50) settings refl refl refl refl sheet_started tables-IsUnregistered
      (unfold map_get in refl) refl
