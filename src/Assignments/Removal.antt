-- ===== src/Assignments/Removal.antt =====
-- How registrations are removed: the last methods of AssignmentRegistrationRepository.
use stu_mgmt_service.Prelude.{
  String, string_eq, nat_eq, Bool, true, false, not, ◌&&◌, ◌==◌, ◌===◌, if◌then◌else◌, length,
  filter_by, any, find_by,
}
use stu_mgmt_service.Groups.Models.{Exception}
use stu_mgmt_service.Groups.Store.{◌>>=◌, return, read_db, write_db}
use stu_mgmt_service.Assignments.Store.{Registration, RegistrationRelation, Tables, Task, found}
use stu_mgmt_service.Assignments.Registrations.{is_registration_of}

-- The registrations deleted, and their relations with them (`onDelete: "CASCADE"`).
unfoldable pub delete_registrations : (Registration → Bool) → Tables → Tables
delete_registrations p db = record db {
  registrations = filter_by (λ r. not (p r)) db.registrations;
  relations =
      filter_by
        (λ s. not (any (λ r. p r && (r.id === s.assignment_registration_id)) db.registrations))
        db.relations;
}

-- The joins of a relation with its registration and its participant.
unfoldable pub is_relation_of_user : Tables → String → String → RegistrationRelation → Bool
is_relation_of_user db assignment_id user_id s =
    any (λ r. (r.id === s.assignment_registration_id) && (r.assignment_id === assignment_id))
      db.registrations
    && any (λ p. (p.id === s.participant_id) && (p.user_id === user_id))
        db.course_tables.participants

unfoldable pub remove_registration_for_user : String → String → Task Bool
unfolding is_relation_of_user read_db write_db found return
remove_registration_for_user assignment_id user_id = do
  db ← read_db (λ db. db)
  relation ←
      found Exception.entity_not_found
        (find_by (is_relation_of_user db assignment_id user_id) db.relations)
  done ←
      write_db
        (λ db. record db { relations = filter_by (λ s. not (s.id === relation.id)) db.relations })
  return true

unfoldable pub remove_registration_for_group : String → String → Task Bool
unfolding delete_registrations is_registration_of read_db write_db return
remove_registration_for_group assignment_id group_id = do
  registrations ←
      read_db (λ db. filter_by (is_registration_of assignment_id group_id) db.registrations)
  if length registrations == 0 then return false else (do
    done ← write_db (delete_registrations (is_registration_of assignment_id group_id))
    return true)

unfoldable pub remove_registrations : String → Task (Unit {0})
unfolding delete_registrations write_db
remove_registrations assignment_id =
    write_db (delete_registrations (λ r. r.assignment_id === assignment_id))
