-- ===== src/Access/Tests.antt =====
-- Requests of a member, of a stranger, and the theorem at a concrete input.
use stu_mgmt_service.Prelude.{◌≡◌, ◌⊎◌, refl, String, true, List, [], ◌∷◌, none, some, find_by}
use stu_mgmt_service.Groups.Models.{Exception, Outcome, CourseRole}
use stu_mgmt_service.Enrolment.{UserRole, UserDto, is_admin}
use stu_mgmt_service.Access.{
  MemberRow, is_member_row, check_is_course_member_or_admin, is_staff, group_member_guard,
  then_guard, determine_role,
}
use stu_mgmt_service.Access.Login.{
  User, Identity, find_user, role_before, get_or_create_user, get_or_create_user-identity,
}
use stu_mgmt_service.Access.Group.{requester, group_member_guard_admits}

abbrev rows : List MemberRow
rows =
    record { course_id = "java"; user_id = "ada"; group_id = some "g1"; role = CourseRole.student }
    ∷ []

abbrev user : String → UserDto
user id = record { id = id; role = UserRole.user }

member_run :
    then_guard
      (check_is_course_member_or_admin none ("java" ∷ []) rows "java" (user "ada"))
      (group_member_guard "g1")
    ≡ Outcome.ok tt
unfolding then_guard check_is_course_member_or_admin group_member_guard is_admin
member_run = refl

stranger_run :
    then_guard
      (check_is_course_member_or_admin none ("java" ∷ []) rows "java" (user "bob"))
      (group_member_guard "g1")
    ≡ Outcome.throws (Exception.not_a_course_member "java" "bob")
unfolding then_guard check_is_course_member_or_admin is_admin
stranger_run = refl

role_run : determine_role ("DEFAULT" ∷ "ADMIN" ∷ []) ≡ UserRole.user
unfolding determine_role
role_run = refl

group_member_guard_admits_example :
    (is_admin (user "ada").role ≡ true)
    ⊎ ((row : MemberRow) × (find_by (is_member_row "java" "ada") rows ≡ some row)
        × ((is_staff (requester row) ≡ true) ⊎ (row.group_id ≡ some "g1")))
group_member_guard_admits_example =
    group_member_guard_admits none ("java" ∷ []) rows "java" "g1" (user "ada") member_run

abbrev known_user : User
known_user = record {
  id = "u1";
  username = "ada";
  email = "old";
  display_name = "Ada";
  role = UserRole.user;
}

abbrev identity : Identity
identity = record { username = "ada"; full_name = some "Ada"; roles = "ADMIN" ∷ []; email = "new" }

login_run :
    (get_or_create_user "u2" identity (known_user ∷ [])).0 ≡ record known_user { email = "new" }
unfolding get_or_create_user
login_run = refl

get_or_create_user-identity_example :
    let user = (get_or_create_user "u2" identity (known_user ∷ [])).0 in
    (user.username ≡ "ada")
    × (user.email ≡ "new")
    × (user.role ≡ role_before identity (find_user "ada" (known_user ∷ [])))
get_or_create_user-identity_example = get_or_create_user-identity "u2" identity (known_user ∷ [])
