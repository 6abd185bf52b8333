-- ===== src/Groups/Service.antt =====
-- GroupService of course/services/group.service.ts: the operations that change groups.
use stu_mgmt_service.Prelude.{
  String, string_eq, Bool, false, ◌===◌, ltb, Option, none, some, if◌then◌else◌, map_get,
}
use stu_mgmt_service.Groups.Models.{
  Exception, Outcome, Course, GroupSettings, Group, Participant, GroupUpdateDto, with_settings,
  course_is_not_closed, allows_group_creation, allows_self_managed_groups, allows_group_to_rename,
  allows_group_to_close, group_is_not_closed, has_capacity, accepts_password, wants_to_close,
  wants_to_change_name, is_student, has_no_group, is_set, is_member_of_group,
  is_allowed_to_remove_group_member,
}
use stu_mgmt_service.Groups.Store.{
  GroupRow, Event, Action, ◌>>=◌, return, throw, check, read_db, publish,
}
use stu_mgmt_service.Groups.Repository.{GroupDto}
use stu_mgmt_service.Groups.Names.{get_available_group_name_for_schema}
use stu_mgmt_service.Groups.Repository

-- `getByCourseId`
unfoldable pub get_group_settings_of_course : String → Action GroupSettings
unfolding read_db check
get_group_settings_of_course course_id = do
  settings ← read_db (λ db. db.settings)
  check (elim (map_get course_id settings) [
    | none ↦ Outcome.throws Exception.entity_not_found
    | some s ↦ Outcome.ok s
  ])

-- `if (condition) { calls }`
unfoldable pub when : Bool → Action (Unit {0}) → Action (Unit {0})
unfolding return
when condition calls = if condition then calls else return tt

unfoldable pub add_user_to_group_force : String → String → String → Action (Unit {0})
unfolding throw publish
add_user_to_group_force course_id group_id user_id = do
  added ← Repository.add_user_to_group course_id group_id user_id
  if added
      then publish (Event.user_joined_group course_id group_id user_id)
      else throw Exception.bad_request

-- The checks on a group that a student wants to join.
unfoldable pub check_group : Group → GroupSettings → Option String → Action (Unit {0})
unfolding check
check_group group settings password = do
  not_closed ← check (group_is_not_closed group)
  capacity ← check (has_capacity group settings.size_max)
  check (accepts_password group password)

unfoldable pub add_user_to_group :
    Course → Group → Participant → Participant → Option String → Action (Unit {0})
unfolding check when check_group throw publish
add_user_to_group course group participant selected_participant password = do
  no_group ← check (has_no_group selected_participant)
  settings ← get_group_settings_of_course course.id
  opened ← check (course_is_not_closed (with_settings course settings).course)
  allowed ← when (is_student participant) (check_group group settings password)
  added ← Repository.add_user_to_group course.id group.id selected_participant.user_id
  if added
      then publish (Event.user_joined_group course.id group.id selected_participant.user_id)
      else throw Exception.bad_request

unfoldable pub remove_user :
    Course → Group → Participant → Participant → Option String → Action (Unit {0})
unfolding check when throw publish
remove_user course group participant selected_participant reason = do
  opened ← check (course_is_not_closed course)
  allowed ← when (is_student participant) (do
    member ← check (is_member_of_group participant group)
    self ← check (is_allowed_to_remove_group_member participant selected_participant)
    settings ← get_group_settings_of_course course.id
    check (allows_self_managed_groups (with_settings course settings)))
  removed ← Repository.remove_user group.id selected_participant.user_id
  if removed
      then publish (Event.user_left_group course.id group.id selected_participant.user_id reason)
      else throw Exception.bad_request

unfoldable pub delete_group : Course → Group → Participant → Action Bool
unfolding check when
delete_group course group participant = do
  opened ← check (course_is_not_closed course)
  allowed ← when (is_student participant) (do
    settings ← get_group_settings_of_course course.id
    check (allows_self_managed_groups (with_settings course settings)))
  Repository.delete_group group.id

unfoldable pub update_group : Course → Group → GroupUpdateDto → Action GroupRow
unfolding check when
update_group course group update = do
  settings ← get_group_settings_of_course course.id
  let with_groups = with_settings course settings
  opened ← check (course_is_not_closed with_groups.course)
  rename ← when (wants_to_change_name group update) (do
    managed ← check (allows_self_managed_groups with_groups)
    check (allows_group_to_rename with_groups))
  close ← when (wants_to_close group update) (check (allows_group_to_close with_groups group))
  Repository.update_group group.id update

module _ (ilike : String → String → Bool) where
  unfoldable pub determine_name : Course → GroupSettings → GroupDto → Action String
  unfolding is_set return throw
  determine_name course settings dto = do
    name ← elim settings.name_schema [
      | none ↦ return dto.name
      | some schema ↦
          if schema === ""
          then return dto.name
          else get_available_group_name_for_schema ilike course.id schema
    ]
    if name === "" then throw Exception.plain_error else return name

  -- The uuid that the database generates is given.
  unfoldable pub create_group_as_student :
      String → Course → GroupDto → String → GroupSettings → Action GroupRow
  unfolding determine_name return
  create_group_as_student new_id course dto user_id settings = do
    name ← determine_name course settings dto
    group ← Repository.create_group new_id course.id (record {
      name = name;
      password = dto.password;
      is_closed = if ltb 1 settings.size_min then some false else dto.is_closed;
    })
    joined ← add_user_to_group_force course.id group.id user_id
    return group

  unfoldable pub create_group : String → Course → Participant → GroupDto → Action GroupRow
  unfolding check when create_group_as_student
  create_group new_id course participant dto = do
    settings ← get_group_settings_of_course course.id
    let with_groups = with_settings course settings
    opened ← check (course_is_not_closed with_groups.course)
    allowed ← check (allows_group_creation with_groups)
    no_group ← when (is_student participant) (check (has_no_group participant))
    if is_student participant
        then create_group_as_student new_id course dto participant.user_id settings
        else Repository.create_group new_id course.id dto
