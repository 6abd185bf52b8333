-- ===== src/Access.antt =====
-- Who may act in a course: course/guards (the guards for course members, teaching staff and group
-- members), and the role that auth/services/auth.service.ts gives a new account.
pub mod Group
pub mod Login
mod Tests
use stu_mgmt_service.Prelude.{
  String, string_eq, option_eq, Bool, true, false, ◌&&◌, ◌||◌, ◌===◌, List, [], ◌∷◌, Option, none,
  some, if◌then◌else◌, find_by,
}
use stu_mgmt_service.Groups.Models.{Exception, Outcome, CourseRole}
use stu_mgmt_service.Enrolment.{UserRole, UserDto, is_admin}

-- A participant as `getCourseWithParticipant` loads it, with the course's id.
pub record MemberRow : Type 0 where
  pub course_id : String
  pub user_id : String
  pub group_id : Option String
  pub role : CourseRole

-- What the guard attaches to the request as its participant.
pub record Requester : Type 0 where
  pub user_id : String
  pub group_id : Option String
  pub role : CourseRole

-- `handleAdmin`: the course must exist, and the admin acts as a lecturer. An error with which the
-- query ends, other than for a missing row, is thrown on.
unfoldable pub handle_admin :
    Option Exception → List String → String → UserDto → Outcome (Option Requester)
handle_admin (some error) courses course_id user = Outcome.throws error
handle_admin none courses course_id user = elim (find_by (λ c. c === course_id) courses) [
  | none ↦ Outcome.throws Exception.entity_not_found
  | some c ↦
      Outcome.ok (some (record { user_id = user.id; group_id = none; role = CourseRole.lecturer }))
]

-- The row of a member, who otherwise is refused. Another error of the query is swallowed, and the
-- request goes on without a participant.
unfoldable pub as_member :
    Option Exception → String → UserDto → Option MemberRow → Outcome (Option Requester)
as_member (some error) course_id user row = Outcome.ok none
as_member none course_id user none =
    Outcome.throws (Exception.not_a_course_member course_id user.id)
as_member none course_id user (some row) =
    Outcome.ok (some (record { user_id = row.user_id; group_id = row.group_id; role = row.role }))

unfoldable pub is_member_row : String → String → MemberRow → Bool
is_member_row course_id user_id row = (row.course_id === course_id) && (row.user_id === user_id)

unfoldable pub check_is_course_member_or_admin :
    Option Exception → List String → List MemberRow → String → UserDto → Outcome (Option Requester)
unfolding handle_admin as_member is_member_row
check_is_course_member_or_admin error courses members course_id user =
    if is_admin user.role
    then handle_admin error courses course_id user
    else as_member error course_id user (find_by (is_member_row course_id user.id) members)

unfoldable pub is_staff : Requester → Bool
is_staff p = elim p.role [ CourseRole.student ↦ false | _ ↦ true ]

-- `TeachingStaffGuard`
unfoldable pub teaching_staff_guard : String → Requester → Outcome (Unit {0})
unfolding is_staff
teaching_staff_guard course_id p =
    if is_staff p
    then Outcome.ok tt
    else Outcome.throws (Exception.not_a_teaching_staff_member course_id p.user_id)

-- `GroupMemberGuard`
unfoldable pub group_member_guard : String → Requester → Outcome (Unit {0})
unfolding is_staff
group_member_guard group_id p =
    if is_staff p || (p.group_id === some group_id)
    then Outcome.ok tt
    else Outcome.throws (Exception.not_a_group_member group_id p.user_id)

-- One guard after the other, which calls a method of the participant.
unfoldable pub then_guard :
    Outcome (Option Requester) → (Requester → Outcome (Unit {0})) → Outcome (Unit {0})
then_guard (Outcome.ok (some p)) guard = guard p
then_guard (Outcome.ok none) guard = Outcome.throws Exception.type_error
then_guard (Outcome.throws e) guard = Outcome.throws e

-- `determineRole`, which reads the first role only.
unfoldable pub determine_role : List String → UserRole
determine_role [] = UserRole.user
determine_role (role ∷ roles) =
    if role === "ADMIN"
    then UserRole.system_admin
    else (if role === "SERVICE" then UserRole.admin_tool else UserRole.user)
