-- ===== src/Enrolment/Tests.antt =====
-- Runs on a small course, and each theorem at a concrete input.
use stu_mgmt_service.Prelude.{◌≡◌, ◌⊎◌, refl, true, false, [], ◌∷◌, some, arith, find_by}
use stu_mgmt_service.Groups.Models.{Exception, Outcome, CourseRole}
use stu_mgmt_service.Groups.Store.{ParticipantRow}
use stu_mgmt_service.Enrolment.{
  UserRole, UserDto, CourseRow, Enrolment, CanJoin, is_admin, is_lecturer, is_row_of, find_course,
  can_join_course, add_participant, check_if_user_can_add_participant, enrol_in,
}
use stu_mgmt_service.Enrolment.Agreement.{enrolled, can_join_course_joins, add_participant_allowed}

abbrev java : CourseRow
java = record { id = "java"; is_closed = false; password = some "secret" }

abbrev tables : Enrolment
tables = record {
  courses = java ∷ [];
  users = "ada" ∷ "bob" ∷ [];
  participants =
      record { id = 1; course_id = "java"; user_id = "ada"; role = CourseRole.student } ∷ [];
  joined = [];
}

abbrev bob : UserDto
bob = record { id = "bob"; role = UserRole.user }

other_run :
    add_participant 2 bob "java" "cem" (some "secret") tables
    ≡ (Outcome.throws Exception.forbidden, tables)
unfolding add_participant check_if_user_can_add_participant enrol_in is_row_of is_admin
other_run = refl

-- A user without a row.
unknown_user_run :
    add_participant 2 (record bob { id = "eve" }) "java" "eve" (some "secret") tables
    ≡ (Outcome.throws Exception.entity_not_found, tables)
unfolding add_participant
unknown_user_run = refl

query_run : can_join_course "java" "bob" tables ≡ Outcome.ok (CanJoin.can_join true)
unfolding can_join_course
query_run = refl

join_run :
    add_participant 2 bob "java" "bob" (some "secret") tables
    ≡ (Outcome.ok tt, enrolled 2 bob "java" (some "secret") tables)
unfolding add_participant
join_run = refl

can_join_course_joins_example :
    add_participant 2 bob "java" "bob" (some "secret") tables
    ≡ (Outcome.ok tt, enrolled 2 bob "java" (some "secret") tables)
unfolding is_admin find_course is_row_of
can_join_course_joins_example =
    can_join_course_joins 2 bob "java" (some "secret") tables java true refl refl refl (omega arith)
      query_run (λ h. refl)

add_participant_allowed_example :
    (bob.id ≡ bob.id)
    ⊎ ((is_admin bob.role ≡ true)
        ⊎ ((row : ParticipantRow) × (find_by (is_row_of "java" "bob") tables.participants
              ≡ some row)
            × (is_lecturer row ≡ true)))
add_participant_allowed_example =
    add_participant_allowed 2 bob "java" "bob" (some "secret") tables
      (enrolled 2 bob "java" (some "secret") tables) join_run
