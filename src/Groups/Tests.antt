-- ===== src/Groups/Tests.antt =====
-- Runs of the operations on groups on small data, and each theorem at a concrete input.
use stu_mgmt_service.Prelude.{
  ◌==◌, to_set, ℕ, ◌≡◌, refl, inl, String, string_eq, option_eq, nat_eq, Bool, true, false, List,
  [], ◌∷◌, Option, some, none, arith, map_get, ◌∈◌, sort,
}
use stu_mgmt_service.Groups.Models.{
  Exception, Outcome, CourseRole, CourseEntity, Course, new_course, GroupSettings, Group,
  Participant, GroupUpdateDto, is_set, is_student, has_no_group, course_is_not_closed,
  with_settings, group_is_not_closed, has_capacity, accepts_password,
}
use stu_mgmt_service.Groups.Store.{Relation, GroupRow, ParticipantRow, Event, Database, continue}
use stu_mgmt_service.Groups.Repository.{GroupDto, create_group, clashes}
use stu_mgmt_service.Groups.Repository
use stu_mgmt_service.Groups.Names.{try_find_available_name, get_available_group_name_for_schema}
use stu_mgmt_service.Groups.Names.Free.{
  IsFirstFree, name_in, names_in, try_find_available_name_first,
  get_available_group_name_for_schema_free,
}
use stu_mgmt_service.Groups.Service.{
  get_group_settings_of_course, add_user_to_group, add_user_to_group_force, remove_user,
  update_group,
}
use stu_mgmt_service.Groups.Invariant.{IsWellFormed}
use stu_mgmt_service.Groups.Invariant.Calls.{Call, after_all, after_all-IsWellFormed}
use stu_mgmt_service.Groups.Joining.{
  MayJoin, add_user_to_group-MayJoin, add_user_to_group_joins, add_user_to_group_force_swallows,
  new_course_forgets_closed,
}
use stu_mgmt_service.Groups.Bulk.{GroupCreateBulkDto, create_multiple_groups}
use stu_mgmt_service.Groups.Bulk.Names.{IsBulk, create_multiple_groups-IsBulk}
use stu_mgmt_service.Groups.Random.{GroupView, get_open_groups, try_get_joinable_group}
use stu_mgmt_service.Groups.Random.Choice.{IsChoice, try_get_joinable_group-IsChoice}

abbrev entity : CourseEntity
entity = record { id = "java"; shortname = "java"; semester = "wise1920"; is_closed = false }

abbrev course : Course
course = new_course entity

abbrev settings : GroupSettings
settings = record {
  allow_groups = true;
  name_schema = some "JP";
  size_min = 2;
  size_max = 3;
  selfmanaged = true;
  merge_groups_on_assignment_started = false;
}

abbrev participant_row : ℕ → String → ParticipantRow
participant_row id user = record {
  id = id;
  course_id = "java";
  user_id = user;
  role = CourseRole.student;
}

abbrev participant : ℕ → String → Option String → Participant
participant id user group = record {
  id = id;
  user_id = user;
  group_id = group;
  role = CourseRole.student;
}

abbrev group_row : String → String → GroupRow
group_row id name = record {
  id = id;
  course_id = "java";
  name = name;
  password = some "secret";
  is_closed = false;
}

abbrev bulk_row : String → String → GroupRow
bulk_row id name = record {
  id = id;
  course_id = "java";
  name = name;
  password = none;
  is_closed = false;
}

abbrev ada_relation : Relation
ada_relation = record { user_id = "ada"; participant_id = 1; group_id = "g1" }

-- One group with one member, and a participant who has no group.
abbrev database : Database
database = record {
  groups = group_row "g1" "JP001" ∷ [];
  relations = ada_relation ∷ [];
  participants = participant_row 1 "ada" ∷ participant_row 2 "bob" ∷ [];
  settings = ("java", settings) ∷ [];
  events = [];
}

abbrev first_group : Group
first_group = record {
  id = "g1";
  name = "JP001";
  members = participant 1 "ada" (some "g1") ∷ [];
  password = some "secret";
  is_closed = false;
}

abbrev bob : Participant
bob = participant 2 "bob" none

abbrev bob_row : ParticipantRow
bob_row = participant_row 2 "bob"

abbrev contains_schema : String → String → Bool
contains_schema name schema = true

-- The tables with bob in the group.
abbrev joined : Database
joined = record {
  groups = group_row "g1" "JP001" ∷ [];
  relations = ada_relation ∷ record { user_id = "bob"; participant_id = 2; group_id = "g1" } ∷ [];
  participants = participant_row 1 "ada" ∷ participant_row 2 "bob" ∷ [];
  settings = ("java", settings) ∷ [];
  events = Event.user_joined_group "java" "g1" "bob" ∷ [];
}

join_run :
    add_user_to_group course first_group bob bob (some "secret") database ≡ (Outcome.ok tt, joined)
unfolding add_user_to_group continue has_no_group get_group_settings_of_course map_get new_course
    course_is_not_closed with_settings is_student group_is_not_closed has_capacity accepts_password
    Repository.add_user_to_group
join_run = refl

wrong_password_run :
    add_user_to_group course first_group bob bob (some "guess") database
    ≡ (Outcome.throws Exception.invalid_password, database)
unfolding add_user_to_group continue has_no_group get_group_settings_of_course map_get new_course
    course_is_not_closed with_settings is_student group_is_not_closed has_capacity accepts_password
wrong_password_run = refl

name_run : try_find_available_name (group_row "g1" "JP001" ∷ []) "JP" ≡ Outcome.ok "JP002"
unfolding try_find_available_name
name_run = refl

database-IsWellFormed : IsWellFormed database
database-IsWellFormed = record {
  one_group = ((λ i. i), tt);
  groups_exist = (inl refl, tt);
  ids_apart = ((λ i. i), tt);
  names_apart = ((λ i. i), tt);
}

abbrev new_ids : ℕ → String
new_ids i = elim (i == 0) [ true ↦ "g3" | false ↦ "g4" ]

abbrev bulk : GroupCreateBulkDto
bulk = record { names = "red" ∷ "blue" ∷ []; name_schema = none; count = 0 }

create_multiple_groups-IsBulk_example :
    IsBulk ("red" ∷ "blue" ∷ []) database (create_multiple_groups new_ids "java" bulk database)
create_multiple_groups-IsBulk_example =
    create_multiple_groups-IsBulk new_ids "java" bulk database (omega arith)

bulk_rows_run :
    (create_multiple_groups new_ids "java" bulk database).0
    ≡ Outcome.ok (bulk_row "g3" "red" ∷ bulk_row "g4" "blue" ∷ [])
unfolding create_multiple_groups continue create_group to_set
bulk_rows_run = refl

abbrev session : List Call
session =
    Call.joining course first_group bob bob (some "secret")
    ∷ Call.creation "g2" course (participant 3 "cem" none)
        (record { name = "any"; password = none; is_closed = none })
    ∷ Call.removal course first_group bob bob none
    ∷ Call.deletion course first_group bob
    ∷ Call.bulk_creation new_ids "java" bulk
    ∷ []

after_all-IsWellFormed_example : IsWellFormed (after_all contains_schema session database)
after_all-IsWellFormed_example =
    after_all-IsWellFormed contains_schema session database database-IsWellFormed

add_user_to_group-MayJoin_example :
    (is_set none ≡ false)
    × (s : GroupSettings) × (map_get "java" database.settings ≡ some s)
    × MayJoin course first_group bob bob (some "secret") s
unfolding is_student new_course
add_user_to_group-MayJoin_example =
    add_user_to_group-MayJoin course first_group bob bob (some "secret") database joined refl
      join_run

bob-MayJoin : MayJoin course first_group bob bob (some "secret") settings
unfolding is_set
bob-MayJoin = record { not_closed = refl; has_room = omega arith; password_known = refl }

add_user_to_group_joins_example :
    add_user_to_group course first_group bob bob (some "secret") database ≡ (Outcome.ok tt, joined)
unfolding is_student is_set map_get clashes new_course
add_user_to_group_joins_example =
    add_user_to_group_joins course first_group bob bob (some "secret") database settings bob_row
      refl refl refl bob-MayJoin refl refl refl refl

add_user_to_group_force_swallows_example :
    add_user_to_group_force "java" "gone" "bob" database
    ≡ (Outcome.ok tt, record database { events = Event.user_joined_group "java" "gone" "bob" ∷ [] })
unfolding clashes
add_user_to_group_force_swallows_example =
    add_user_to_group_force_swallows "java" "gone" "bob" database bob_row refl refl refl

abbrev renaming : GroupUpdateDto
renaming = record { name = some "new"; password = none; is_closed = none }

abbrev closed_course : Course
closed_course = new_course (record entity { is_closed = true })

new_course_forgets_closed_example :
    (add_user_to_group course first_group bob bob none database
      ≡ add_user_to_group closed_course first_group bob bob none database)
    × (remove_user course first_group bob bob none database
        ≡ remove_user closed_course first_group bob bob none database)
    × (update_group course first_group renaming database
        ≡ update_group closed_course first_group renaming database)
new_course_forgets_closed_example =
    new_course_forgets_closed entity first_group bob bob none renaming database

try_find_available_name_first_example :
    IsFirstFree
      (group_row "g1" "JP001" ∷ [])
      "JP"
      9999
      1
      (try_find_available_name (group_row "g1" "JP001" ∷ []) "JP")
try_find_available_name_first_example =
    try_find_available_name_first (group_row "g1" "JP001" ∷ []) "JP"

schema_run :
    get_available_group_name_for_schema contains_schema "java" "JP" database
    ≡ (Outcome.ok "JP002", database)
unfolding get_available_group_name_for_schema continue
schema_run = refl

get_available_group_name_for_schema_free_example :
    ¬ (name_in "java" "JP002" ∈ names_in database.groups) × (database ≡ database)
get_available_group_name_for_schema_free_example =
    get_available_group_name_for_schema_free contains_schema "java" "JP" "JP002" database database
      (λ k. refl) schema_run

abbrev view : String → Bool → List String → GroupView
view id closed members = record {
  id = id;
  has_password = false;
  is_closed = closed;
  members = members;
}

-- A group with too few members is chosen before a larger one, and a closed group never.
abbrev views : List GroupView
views =
    view "full" false ("a" ∷ "b" ∷ "c" ∷ [])
    ∷ view "enough" false ("d" ∷ "e" ∷ [])
    ∷ view "closed" true ("f" ∷ [])
    ∷ view "small" false ("g" ∷ [])
    ∷ view "empty" false []
    ∷ []

choice_run : try_get_joinable_group 2 3 views ≡ some (view "small" false ("g" ∷ []))
unfolding try_get_joinable_group sort
choice_run = refl

try_get_joinable_group-IsChoice_example :
    IsChoice 2 (get_open_groups 2 3 views) (try_get_joinable_group 2 3 views)
try_get_joinable_group-IsChoice_example = try_get_joinable_group-IsChoice 2 3 views
