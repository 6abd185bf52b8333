-- ===== src/Access/Group.antt =====
-- Who reaches what the guards for course and group members protect.
use stu_mgmt_service.Prelude.{
  ◌≡◌, ◌⊎◌, inl, inr, String, string_eq, option_eq, true, ◌===◌, ===_eq, Bool-cases, Option-cases,
  List, Option, none, some, find_by,
}
use stu_mgmt_service.Groups.Models.{Exception, Outcome}
use stu_mgmt_service.Enrolment.{UserDto, is_admin}
use stu_mgmt_service.Access.{
  MemberRow, Requester, as_member, is_member_row, check_is_course_member_or_admin, is_staff,
  group_member_guard, then_guard,
}

refused : (e : Exception) → ◌≡◌ {A = Outcome (Unit {0})} (Outcome.throws e) (Outcome.ok tt) → ⊥
refused e h = cc

-- The requester that the guard makes of a row.
abbrev pub requester : MemberRow → Requester
requester row = record { user_id = row.user_id; group_id = row.group_id; role = row.role }

-- Where the guards for course members and group members let a request through, the user is an
-- admin, or has a row in the course that is of its teaching staff or in that group. This is so
-- whether the query of the first guard ends with another error or not.
pub group_member_guard_admits :
    (error : Option Exception) (courses : List String) (members : List MemberRow)
    (course_id group_id : String) (user : UserDto)
    → then_guard
        (check_is_course_member_or_admin error courses members course_id user)
        (group_member_guard group_id)
      ≡ Outcome.ok tt
    → (is_admin user.role ≡ true)
      ⊎ ((row : MemberRow) × (find_by (is_member_row course_id user.id) members ≡ some row)
          × ((is_staff (requester row) ≡ true) ⊎ (row.group_id ≡ some group_id)))
unfolding then_guard check_is_course_member_or_admin as_member group_member_guard
group_member_guard_admits (some error) courses members course_id group_id user h =
    elim (Bool-cases (is_admin user.role)) [
      | inl a ↦ inl a
      | inr a ↦ absurd (refused _ (rw a at h))
    ]
group_member_guard_admits none courses members course_id group_id user h =
    elim (Bool-cases (is_admin user.role)) [
      | inl a ↦ inl a
      | inr a ↦ elim (Option-cases (find_by (is_member_row course_id user.id) members)) [
        | inl n ↦ absurd (refused _ (rw (a, n) at h))
        | inr (row, f) ↦ elim (Bool-cases (is_staff (requester row))) [
          | inl s ↦ inr (row, f, inl s)
          | inr s ↦ elim (Bool-cases (row.group_id === some group_id)) [
            | inl g ↦ inr (row, f, inr (===_eq row.group_id (some group_id) g))
            | inr g ↦ absurd (refused _ (rw (a, f, s, g) at h))
          ]
        ]
      ]
    ]
