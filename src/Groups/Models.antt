-- ===== src/Groups/Models.antt =====
-- The models of course/models, whose methods guard the operations, and the exceptions of
-- course/exceptions/custom-exceptions.ts. The texts of the messages are left out.
use stu_mgmt_service.Prelude.{
  ℕ, String, string_eq, Bool, true, false, not, ◌&&◌, ◌||◌, ◌===◌, nat_eq, bool_eq, option_eq, List,
  Option, none, some, if◌then◌else◌, ltb, leb, length,
}

pub data Exception : Type 0 where
  course_closed : String → Exception
  group_closed : String → Exception
  not_a_group_member : String → String → Exception
  not_a_course_member : String → String → Exception
  not_a_teaching_staff_member : String → String → Exception
  groups_forbidden : String → Exception
  already_in_group : String → Exception
  group_full : String → Exception
  invalid_password : Exception
  bad_request : Exception
  conflict : Exception
  forbidden : Exception
  -- `EntityNotFoundError`, `QueryFailedError` and a plain `Error`.
  entity_not_found : Exception
  query_failed : Exception
  plain_error : Exception
  -- `EntityAlreadyExistsError`, a `QueryFailedError` whose code is not that of a unique
  -- violation, a `TypeError` and a `NotFoundException`.
  entity_already_exists : Exception
  constraint_failed : Exception
  type_error : Exception
  not_found : Exception

-- What a call ends with.
pub data Outcome (A : Type 0) : Type 0 where
  ok : A → Outcome A
  throws : Exception → Outcome A

-- `if (condition) throw e`
unfoldable pub throw_if : Bool → Exception → Outcome (Unit {0})
throw_if condition e = if condition then Outcome.throws e else Outcome.ok tt

-- A text that is neither missing nor empty.
unfoldable pub is_set : Option String → Bool
is_set none = false
is_set (some text) = not (text === "")

pub data CourseRole : Type 0 where
  lecturer : CourseRole
  tutor : CourseRole
  student : CourseRole

pub record CourseEntity : Type 0 where
  pub id : String
  pub shortname : String
  pub semester : String
  pub is_closed : Bool

-- `Course`, whose `isClosed` may be `undefined`.
pub record Course : Type 0 where
  pub entity : CourseEntity
  pub id : String
  pub shortname : String
  pub semester : String
  pub is_closed : Option Bool

-- `new Course(course)`, which does not assign `isClosed`.
unfoldable pub new_course : CourseEntity → Course
new_course course = record {
  entity = course;
  id = course.id;
  shortname = course.shortname;
  semester = course.semester;
  is_closed = none;
}

pub record GroupSettings : Type 0 where
  pub allow_groups : Bool
  pub name_schema : Option String
  pub size_min : ℕ
  pub size_max : ℕ
  pub selfmanaged : Bool
  pub merge_groups_on_assignment_started : Bool

pub record CourseWithGroupSettings : Type 0 where
  pub course : Course
  pub group_settings : GroupSettings

-- `course.with(CourseWithGroupSettings, settings)`, which builds a new model of the same entity.
unfoldable pub with_settings : Course → GroupSettings → CourseWithGroupSettings
unfolding new_course
with_settings course settings = record {
  course = new_course course.entity;
  group_settings = settings;
}

-- A participant of a course, with the group's id if there is one.
pub record Participant : Type 0 where
  pub id : ℕ
  pub user_id : String
  pub group_id : Option String
  pub role : CourseRole

pub record Group : Type 0 where
  pub id : String
  pub name : String
  pub members : List Participant
  pub password : Option String
  pub is_closed : Bool

pub record GroupUpdateDto : Type 0 where
  pub name : Option String
  pub password : Option String
  pub is_closed : Option Bool

-- The checks of a course.
unfoldable pub course_is_not_closed : Course → Outcome (Unit {0})
unfolding throw_if
course_is_not_closed c =
    throw_if (elim c.is_closed [ none ↦ false | some closed ↦ closed ])
      (Exception.course_closed c.id)

module _ (c : CourseWithGroupSettings) where
  unfoldable pub has_group_name_schema : Bool
  unfolding is_set
  has_group_name_schema = is_set c.group_settings.name_schema

  unfoldable pub allows_group_creation : Outcome (Unit {0})
  unfolding throw_if
  allows_group_creation =
      throw_if (not c.group_settings.allow_groups) (Exception.groups_forbidden c.course.id)

  unfoldable pub allows_self_managed_groups : Outcome (Unit {0})
  unfolding throw_if
  allows_self_managed_groups = throw_if (not c.group_settings.selfmanaged) Exception.bad_request

  unfoldable pub allows_group_to_rename : Outcome (Unit {0})
  unfolding throw_if is_set
  allows_group_to_rename = throw_if (is_set c.group_settings.name_schema) Exception.bad_request

  unfoldable pub allows_group_to_close : Group → Outcome (Unit {0})
  unfolding throw_if
  allows_group_to_close g =
      throw_if (ltb (length g.members) c.group_settings.size_min) Exception.bad_request

-- The checks of a group.
module _ (g : Group) where
  unfoldable pub is_open : Bool
  unfolding is_set
  is_open = not (g.is_closed || is_set g.password)

  unfoldable pub group_is_not_closed : Outcome (Unit {0})
  unfolding throw_if
  group_is_not_closed = throw_if g.is_closed (Exception.group_closed g.id)

  unfoldable pub wants_to_close : GroupUpdateDto → Bool
  wants_to_close update = (update.is_closed === some true) && not g.is_closed

  unfoldable pub wants_to_change_name : GroupUpdateDto → Bool
  unfolding is_set
  wants_to_change_name update = is_set update.name && not (update.name === some g.name)

  unfoldable pub is_too_small : ℕ → Bool
  is_too_small size_min = ltb (length g.members) size_min

  unfoldable pub is_joinable : ℕ → Bool
  unfolding is_open
  is_joinable size_max = is_open && ltb (length g.members) size_max

  unfoldable pub has_capacity : ℕ → Outcome (Unit {0})
  unfolding throw_if
  has_capacity size_max = throw_if (leb size_max (length g.members)) (Exception.group_full g.id)

  unfoldable pub has_at_least_min_size : ℕ → Outcome (Unit {0})
  unfolding throw_if
  has_at_least_min_size size_min = throw_if (leb size_min (length g.members)) Exception.bad_request

  unfoldable pub accepts_password : Option String → Outcome (Unit {0})
  unfolding throw_if is_set
  accepts_password password =
      throw_if (is_set g.password && not (g.password === password)) Exception.invalid_password

-- The checks of a participant.
module _ (p : Participant) where
  unfoldable pub is_student : Bool
  is_student = elim p.role [ CourseRole.student ↦ true | _ ↦ false ]

  unfoldable pub has_no_group : Outcome (Unit {0})
  unfolding throw_if is_set
  has_no_group = throw_if (is_set p.group_id) (Exception.already_in_group p.user_id)

  unfoldable pub is_member_of_group : Group → Outcome (Unit {0})
  unfolding throw_if
  is_member_of_group g =
      throw_if (not (some g.id === p.group_id)) (Exception.not_a_group_member g.id p.user_id)

  unfoldable pub is_allowed_to_remove_group_member : Participant → Outcome (Unit {0})
  unfolding throw_if
  is_allowed_to_remove_group_member other = throw_if (not (p.id === other.id)) Exception.forbidden
