-- ===== src/Enrolment.antt =====
-- Joining a course: `addParticipant` of course/services/course-participants.service.ts and the
-- query of course/queries/can-join-course.
pub mod Agreement
mod Tests
use stu_mgmt_service.Prelude.{
  ℕ, String, string_eq, option_eq, Bool, true, false, not, ◌&&◌, ◌||◌, ◌===◌, ◌==◌, List, [], ◌∷◌,
  ◌++◌, Option, none, some, if◌then◌else◌, length, filter_by, find_by, any,
}
use stu_mgmt_service.Groups.Models.{Exception, Outcome, CourseRole, is_set}
use stu_mgmt_service.Groups.Store.{ParticipantRow}

pub data UserRole : Type 0 where
  system_admin : UserRole
  admin_tool : UserRole
  mgmt_admin : UserRole
  user : UserRole

unfoldable pub is_admin : UserRole → Bool
is_admin role = elim role [ UserRole.user ↦ false | _ ↦ true ]

pub record UserDto : Type 0 where
  pub id : String
  pub role : UserRole

-- A course with the password of its configuration.
pub record CourseRow : Type 0 where
  pub id : String
  pub is_closed : Bool
  pub password : Option String

-- The tables, of the users the ids, and the users of the `CourseJoined` events, each with the course.
pub record Enrolment : Type 0 where
  pub courses : List CourseRow
  pub users : List String
  pub participants : List ParticipantRow
  pub joined : List (String × String)

unfoldable pub is_row_of : String → String → ParticipantRow → Bool
is_row_of course_id user_id p = (p.user_id === user_id) && (p.course_id === course_id)

unfoldable pub is_lecturer : ParticipantRow → Bool
is_lecturer p = elim p.role [ CourseRole.lecturer ↦ true | _ ↦ false ]

-- `checkIfUserCanAddParticipant`: whether the user is an admin or lecturer, or an exception.
unfoldable pub check_if_user_can_add_participant :
    Option ParticipantRow → String → UserDto → Outcome Bool
unfolding is_admin is_lecturer
check_if_user_can_add_participant (some requesting) target_user_id requesting_user =
    if requesting.user_id === target_user_id
    then Outcome.throws Exception.conflict
    else (if is_admin requesting_user.role || is_lecturer requesting
        then Outcome.ok (is_lecturer requesting || is_admin requesting_user.role)
        else Outcome.throws Exception.forbidden)
check_if_user_can_add_participant none target_user_id requesting_user =
    if not (requesting_user.id === target_user_id) && not (is_admin requesting_user.role)
    then Outcome.throws Exception.forbidden
    else Outcome.ok (is_admin requesting_user.role)

-- The checks for a user who is neither an admin nor a lecturer.
unfoldable pub check_course : CourseRow → Option String → Outcome (Unit {0})
unfolding is_set
check_course course password =
    if course.is_closed
    then Outcome.throws (Exception.course_closed course.id)
    else (if is_set course.password && not (course.password === password)
        then Outcome.throws Exception.invalid_password
        else Outcome.ok tt)

-- `save` of a participant: the unique index on course and user refuses a second one, which is the
-- exception. A user without a row is refused by a foreign key, and that error is swallowed.
unfoldable pub save_participant : ParticipantRow → Enrolment → Outcome (Unit {0}) × Enrolment
unfolding is_row_of
save_participant row db =
    if any (is_row_of row.course_id row.user_id) db.participants
    then (Outcome.throws Exception.conflict, db)
    else (if any (λ u. u === row.user_id) db.users
        then (Outcome.ok tt, record db { participants = db.participants ++ row ∷ [] })
        else (Outcome.ok tt, db))

-- `getParticipant`, which throws where there is none.
unfoldable pub row_or_error : Option ParticipantRow → Outcome ParticipantRow
row_or_error none = Outcome.throws Exception.entity_not_found
row_or_error (some row) = Outcome.ok row

unfoldable pub get_participant : String → String → Enrolment → Outcome ParticipantRow
unfolding is_row_of row_or_error
get_participant course_id user_id db =
    row_or_error (find_by (is_row_of course_id user_id) db.participants)

-- The event, of the participant that was read.
unfoldable pub publish_joined :
    String → Outcome ParticipantRow → Enrolment → Outcome (Unit {0}) × Enrolment
publish_joined course_id (Outcome.throws e) db = (Outcome.throws e, db)
publish_joined course_id (Outcome.ok row) db =
    (Outcome.ok tt, record db { joined = db.joined ++ (course_id, row.user_id) ∷ [] })

unfoldable pub read_created :
    String → String → Outcome (Unit {0}) × Enrolment → Outcome (Unit {0}) × Enrolment
unfolding get_participant publish_joined
read_created course_id user_id (Outcome.throws e, db) = (Outcome.throws e, db)
read_created course_id user_id (Outcome.ok u, db) =
    publish_joined course_id (get_participant course_id user_id db) db

-- `createParticipant` and the event.
unfoldable pub create_participant : ℕ → String → String → Enrolment → Outcome (Unit {0}) × Enrolment
unfolding save_participant read_created
create_participant new_id course_id user_id db = read_created course_id user_id (
    save_participant
      (record { id = new_id; course_id = course_id; user_id = user_id; role = CourseRole.student })
      db)

unfoldable pub enrol_checked :
    ℕ → String → Outcome (Unit {0}) → String → Enrolment → Outcome (Unit {0}) × Enrolment
unfolding create_participant
enrol_checked new_id course_id (Outcome.throws e) user_id db = (Outcome.throws e, db)
enrol_checked new_id course_id (Outcome.ok u) user_id db =
    create_participant new_id course_id user_id db

-- What follows once the course is found.
unfoldable pub enrol :
    ℕ → CourseRow → Bool → String → Option String → Enrolment → Outcome (Unit {0}) × Enrolment
unfolding check_course enrol_checked
enrol new_id course privileged user_id password db =
    enrol_checked new_id course.id
      (if privileged then Outcome.ok tt else check_course course password) user_id db

unfoldable pub find_course : String → Enrolment → Option CourseRow
find_course course_id db = find_by (λ c. c.id === course_id) db.courses

-- The course is loaded, and must exist.
unfoldable pub enrol_in :
    ℕ
    → Option CourseRow
    → Outcome Bool
    → String
    → Option String
    → Enrolment
    → Outcome (Unit {0}) × Enrolment
unfolding enrol
enrol_in new_id found (Outcome.throws e) user_id password db = (Outcome.throws e, db)
enrol_in new_id none (Outcome.ok privileged) user_id password db =
    (Outcome.throws Exception.entity_not_found, db)
enrol_in new_id (some course) (Outcome.ok privileged) user_id password db =
    enrol new_id course privileged user_id password db

unfoldable pub add_participant :
    ℕ → UserDto → String → String → Option String → Enrolment → Outcome (Unit {0}) × Enrolment
unfolding is_row_of check_if_user_can_add_participant find_course enrol_in
add_participant new_id requesting_user course_id target_user_id password db =
    enrol_in new_id (find_course course_id db)
      (check_if_user_can_add_participant
        (find_by (is_row_of course_id requesting_user.id) db.participants) target_user_id
        requesting_user)
      target_user_id password db

pub data CanJoin : Type 0 where
  is_member : CanJoin
  closed : CanJoin
  can_join : (requires_password : Bool) → CanJoin

-- The answer for the course that is found, and the number of the user's rows in it.
unfoldable pub answer : Option CourseRow → ℕ → Outcome CanJoin
unfolding is_set
answer none rows = Outcome.throws Exception.entity_not_found
answer (some course) rows =
    if rows == 1
    then Outcome.ok CanJoin.is_member
    else (if course.is_closed
        then Outcome.ok CanJoin.closed
        else Outcome.ok (CanJoin.can_join (is_set course.password)))

-- `CanJoinCourseHandler.execute`
unfoldable pub can_join_course : String → String → Enrolment → Outcome CanJoin
unfolding is_row_of find_course answer
can_join_course course_id user_id db =
    answer (find_course course_id db)
      (length (filter_by (is_row_of course_id user_id) db.participants))
