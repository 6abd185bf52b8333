-- ===== src/Assignments/Service.antt =====
-- AssignmentService and AssignmentRepository: assignments are created, updated and deleted.
pub mod Starting
pub mod Update
use Prim.Native.Nat.{Ordering, compare}
use stu_mgmt_service.Prelude.{
  ℕ, String, string_eq, option_eq, ◌===◌, ◌==◌, Bool, true, false, not, ◌&&◌, List, [], ◌∷◌, ◌++◌,
  map, Option, none, some, if◌then◌else◌, length, filter_by, any, find_by, update_by, ltb, sort,
}
use stu_mgmt_service.Groups.Models.{Exception, is_set}
use stu_mgmt_service.Groups.Store.{continue, ◌>>=◌, return, throw, read_db, write_db}
use stu_mgmt_service.Assignments.Models.{
  AssignmentState, AssignmentType, CollaborationType, state_eq, AssignmentRow, Assignment,
  new_assignment, allows_groups, has_changed_state, was_started,
}
use stu_mgmt_service.Assignments.Store.{AssignmentEvent, Tables, Task, found, publish_event}
use stu_mgmt_service.Assignments.Registrations.{has_registrations}
use stu_mgmt_service.Assignments.Removal.{delete_registrations}
use stu_mgmt_service.Assignments.Registering.{Services, register_groups_for_assignment, publish_if}

-- `AssignmentDto`, as a request's body gives it.
pub record AssignmentDto : Type 0 where
  pub name : Option String
  pub state : Option AssignmentState
  pub start_date : Option ℕ
  pub end_date : Option ℕ
  pub comment : Option String
  pub links : Option (List String)
  pub configs : Option (List String)
  pub kind : Option AssignmentType
  pub points : ℕ
  pub bonus_points : Option ℕ
  pub collaboration : Option CollaborationType

-- `AssignmentUpdateDto`: `none` is a key that the body does not have, and `some none` is `null`.
-- The body may have an id and a course: the validation pipe of main.ts strips no key.
pub record AssignmentUpdateDto : Type 0 where
  pub id : Option String
  pub course_id : Option String
  pub name : Option String
  pub state : Option AssignmentState
  pub start_date : Option (Option ℕ)
  pub end_date : Option (Option ℕ)
  pub comment : Option (Option String)
  pub links : Option (Option (List String))
  pub configs : Option (Option (List String))
  pub kind : Option AssignmentType
  pub points : Option ℕ
  pub bonus_points : Option (Option ℕ)
  pub collaboration : Option CollaborationType

-- `{ ...{ key: a }, ...update }`, and a column's default.
abbrev pub or_else : {A : Type 0} → Option A → A → A
or_else none a = a
or_else (some b) a = b

-- `xs?.length > 0 ? xs : null`
unfoldable pub unless_empty : Option (List String) → Option (List String)
unless_empty none = none
unless_empty (some xs) = if ltb 0 (length xs) then some xs else none

-- The entity that is saved, with the uuid and the defaults that the database fills in.
unfoldable pub create_entity : String → String → AssignmentDto → AssignmentRow
unfolding unless_empty
create_entity new_id course_id dto = record {
  id = new_id;
  name = or_else dto.name "";
  state = or_else dto.state AssignmentState.closed;
  start_date = dto.start_date;
  end_date = dto.end_date;
  comment = dto.comment;
  links = unless_empty dto.links;
  configs = unless_empty dto.configs;
  kind = or_else dto.kind AssignmentType.homework;
  points = dto.points;
  bonus_points = dto.bonus_points;
  collaboration = or_else dto.collaboration CollaborationType.group_or_single;
  course_id = course_id;
}

-- `save`: the row with the id is replaced, or a new one inserted. The course has to exist.
unfoldable pub put : AssignmentRow → List AssignmentRow → List AssignmentRow
put a rows =
    if any (λ b. b.id === a.id) rows then update_by (λ b. b.id === a.id) a rows else rows ++ a ∷ []

unfoldable pub save : AssignmentRow → Task AssignmentRow
unfolding put read_db write_db return throw
save a = do
  courses ← read_db (λ db. db.courses)
  if any (λ c. c === a.course_id) courses
      then (do done ← write_db (λ db. record db { assignments = put a db.assignments }); return a)
      else throw Exception.constraint_failed

unfoldable pub get_assignment_by_id : String → Task AssignmentRow
unfolding read_db found
get_assignment_by_id assignment_id = do
  assignment ← read_db (λ db. find_by (λ a. a.id === assignment_id) db.assignments)
  found Exception.entity_not_found assignment

-- `{ ...assignment, ...update, assignmentId }`: there is no column `assignmentId`.
unfoldable pub spread : AssignmentUpdateDto → AssignmentRow → AssignmentRow
spread update a = record {
  id = or_else update.id a.id;
  name = or_else update.name a.name;
  state = or_else update.state a.state;
  start_date = or_else update.start_date a.start_date;
  end_date = or_else update.end_date a.end_date;
  comment = or_else update.comment a.comment;
  links = or_else update.links a.links;
  configs = or_else update.configs a.configs;
  kind = or_else update.kind a.kind;
  points = or_else update.points a.points;
  bonus_points = or_else update.bonus_points a.bonus_points;
  collaboration = or_else update.collaboration a.collaboration;
  course_id = or_else update.course_id a.course_id;
}

unfoldable pub save_update : String → AssignmentUpdateDto → Task AssignmentRow
unfolding get_assignment_by_id spread save
save_update assignment_id update = do
  assignment ← get_assignment_by_id assignment_id
  save (spread update assignment)

-- The registrations of an assignment are deleted with it (`onDelete: "CASCADE"`).
unfoldable pub remove_assignment : String → Tables → Tables
unfolding delete_registrations
remove_assignment assignment_id db =
    let rest = delete_registrations (λ r. r.assignment_id === assignment_id) db in
    record rest { assignments = filter_by (λ a. not (a.id === assignment_id)) rest.assignments }

-- `remove` of an entity gives the entity, so that the result is always `true`.
unfoldable pub delete_assignment : String → String → Task Bool
unfolding remove_assignment publish_event write_db return
delete_assignment course_id assignment_id = do
  removed ← write_db (remove_assignment assignment_id)
  done ← publish_event (AssignmentEvent.assignment_removed course_id assignment_id)
  return true

-- `DtoFactory.createAssignmentDto`
unfoldable pub create_assignment_dto : AssignmentRow → Bool → AssignmentRow
create_assignment_dto a is_lecturer = record a {
  configs = if not is_lecturer then none else a.configs;
}

-- `endDate` in descending order: the database puts `NULL` first.
unfoldable pub later_first : Option ℕ → Option ℕ → Ordering
later_first none none = Ordering.eq
later_first none (some b) = Ordering.lt
later_first (some a) none = Ordering.gt
later_first (some a) (some b) = compare b a

unfoldable pub get_assignments : String → Bool → Task (List AssignmentRow)
unfolding create_assignment_dto later_first read_db
get_assignments course_id is_lecturer = read_db (λ db.
    map (λ a. create_assignment_dto a is_lecturer)
      (sort (λ a b. later_first a.end_date b.end_date)
        (filter_by (λ a. a.course_id === course_id) db.assignments)))

module _ (services : Services) where
  unfoldable pub register_if : Bool → String → String → Task (Unit {0})
  unfolding return
  register_if b course_id assignment_id =
      if b then register_groups_for_assignment services course_id assignment_id else return tt

  unfoldable pub create_assignment : String → String → AssignmentDto → Task AssignmentRow
  unfolding is_set create_entity save register_if publish_event create_assignment_dto throw return
  create_assignment new_id course_id dto =
      if not (is_set dto.name) then throw Exception.bad_request else (do
        row ← save (create_entity new_id course_id dto)
        let assignment = new_assignment row
        done ← publish_event (AssignmentEvent.assignment_created course_id assignment.id)
        registered ←
            register_if (was_started assignment none && allows_groups assignment) course_id
              assignment.id
        return (create_assignment_dto row false))

  -- What follows the update of an assignment that is now `IN_PROGRESS`, and was not.
  unfoldable pub register_on_first_start : String → Assignment → AssignmentState → Task (Unit {0})
  unfolding has_registrations register_if return
  register_on_first_start course_id assignment old_state =
      if was_started assignment (some old_state) && allows_groups assignment
      then (do
        exists ← has_registrations assignment.id
        register_if (not exists) course_id assignment.id)
      else return tt

  -- What follows once the update is saved.
  unfoldable pub finish_update : String → AssignmentState → AssignmentRow → Task AssignmentRow
  unfolding register_on_first_start publish_event publish_if create_assignment_dto return
  finish_update course_id old_state row = do
    let assignment = new_assignment row
    registered ← register_on_first_start course_id assignment old_state
    updated ← publish_event (AssignmentEvent.assignment_updated course_id assignment.id)
    changed ←
        publish_if (has_changed_state assignment old_state)
          (AssignmentEvent.assignment_state_changed assignment)
    return (create_assignment_dto row false)

  unfoldable pub update_assignment : String → Assignment → AssignmentUpdateDto → Task AssignmentRow
  unfolding save_update finish_update
  update_assignment course_id old update = do
    row ← save_update old.id update
    finish_update course_id old.state row
