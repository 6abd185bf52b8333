-- ===== src/Assignments/Invariant.antt =====
-- What holds of the assignments and their registrations between any two calls.
pub mod Writes
pub mod Rows
pub mod Saving
pub mod Calls
use stu_mgmt_service.Prelude.{ℕ, String, List, map, ◌∈◌, Distinct, All, ◌<◌}
use stu_mgmt_service.Assignments.Models.{AssignmentRow}
use stu_mgmt_service.Assignments.Store.{Registration, RegistrationRelation, Tables}

-- The assignment and the participant of a relation, and of a registration the assignment and the
-- group, and its id and its assignment.
abbrev pub seat : RegistrationRelation → String × ℕ
seat s = (s.assignment_id, s.participant_id)

abbrev pub registered_group : Registration → String × String
registered_group r = (r.assignment_id, r.group_id)

abbrev pub identity : Registration → ℕ × String
identity r = (r.id, r.assignment_id)

abbrev pub assignment_ids : List AssignmentRow → List String
assignment_ids = map (λ a. a.id)

-- For one assignment a participant is registered once, and a group once. A relation belongs to a
-- registration of its own assignment, a registration to an assignment that exists, and an
-- assignment to a course that exists. No two rows have an id in common, and the next is new.
pub record IsConsistent (db : Tables) : Type 0 where
  pub one_group : Distinct (map seat db.relations)
  pub groups_once : Distinct (map registered_group db.registrations)
  pub belong :
      All
        (λ s. (s.assignment_registration_id, s.assignment_id) ∈ map identity db.registrations)
        db.relations
  pub assignments_exist :
      All (λ r. r.assignment_id ∈ assignment_ids db.assignments) db.registrations
  pub courses_exist : All (λ a. a.course_id ∈ db.courses) db.assignments
  pub assignments_apart : Distinct (assignment_ids db.assignments)
  pub registrations_apart : Distinct (map (λ (r : Registration). r.id) db.registrations)
  pub relations_apart : Distinct (map (λ (s : RegistrationRelation). s.id) db.relations)
  pub registrations_below : All (λ r. r.id < db.next_id) db.registrations
  pub relations_below : All (λ s. s.id < db.next_id) db.relations
