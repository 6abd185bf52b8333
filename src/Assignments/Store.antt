-- ===== src/Assignments/Store.antt =====
-- The tables of the assignments and their registrations, beside those of the groups, and the
-- events of course/events/assignment.
use stu_mgmt_service.Prelude.{ℕ, String, List, [], ◌∷◌, ◌++◌, Option, none, some}
use stu_mgmt_service.Groups.Models.{Exception}
use stu_mgmt_service.Groups.Store.{Database, Action, Query, throw, return, write_db}
use stu_mgmt_service.Assignments.Models.{AssignmentRow, Assignment}

-- `AssignmentRegistration`
pub record Registration : Type 0 where
  pub id : ℕ
  pub assignment_id : String
  pub group_id : String

-- `GroupRegistrationRelation`
pub record RegistrationRelation : Type 0 where
  pub id : ℕ
  pub assignment_registration_id : ℕ
  pub assignment_id : String
  pub participant_id : ℕ

-- The ids are those of the course, the assignment, and the group or the user.
pub data AssignmentEvent : Type 0 where
  assignment_created : (course_id assignment_id : String) → AssignmentEvent
  assignment_updated : (course_id assignment_id : String) → AssignmentEvent
  assignment_removed : (course_id assignment_id : String) → AssignmentEvent
  assignment_state_changed : Assignment → AssignmentEvent
  registrations_created : (course_id assignment_id : String) → AssignmentEvent
  registrations_removed : (course_id assignment_id : String) → AssignmentEvent
  group_registered : (course_id assignment_id group_id : String) → AssignmentEvent
  group_unregistered : (course_id assignment_id group_id : String) → AssignmentEvent
  user_registered : (course_id assignment_id user_id group_id : String) → AssignmentEvent
  user_unregistered : (course_id assignment_id user_id : String) → AssignmentEvent

-- `next_id` is a number that no registration and no relation has had yet.
pub record Tables : Type 0 where
  pub courses : List String
  pub course_tables : Database
  pub assignments : List AssignmentRow
  pub registrations : List Registration
  pub relations : List RegistrationRelation
  pub next_id : ℕ
  pub events : List AssignmentEvent

abbrev pub Task : Type 0 → Type 0
Task A = Query Tables A

-- A call that uses the tables of the groups.
unfoldable pub in_course : {A : Type 0} → Action A → Task A
in_course action = λ db. let r = action db.course_tables in (r.0, record db { course_tables = r.1 })

-- The value, or an exception where there is none.
unfoldable pub found : {A : Type 0} → Exception → Option A → Task A
unfolding throw return
found e none = throw e
found e (some a) = return a

-- `this.events.publish(event)`
unfoldable pub publish_event : AssignmentEvent → Task (Unit {0})
unfolding write_db
publish_event event = write_db (λ db. record db { events = db.events ++ event ∷ [] })
