-- ===== src/Groups/Random.antt =====
-- JoinRandomGroupHandler of course/commands/join-random-group.handler.ts. The random name and the
-- order of the names in the database come from outside: they are parameters.
pub mod Choice
use stu_mgmt_service.Prelude.{
  ℕ, ◌-◌, compare, Ordering, String, string_eq, Bool, not, ◌&&◌, ◌===◌, ltb, leb, List, map, Option,
  none, some, if◌then◌else◌, length, get_elem?, filter_by, sort, ◌==◌,
}
use stu_mgmt_service.Groups.Models.{Exception, Outcome, Course, GroupSettings, Participant, is_set}
use stu_mgmt_service.Groups.Store.{
  Relation, GroupRow, Database, Action, continue, ◌>>=◌, return, throw, read_db,
}
use stu_mgmt_service.Groups.Repository.{GroupDto}
use stu_mgmt_service.Groups.Service.{
  get_group_settings_of_course, add_user_to_group_force, create_group,
}

-- The part of a `GroupDto` that the handler reads; of the members, the user ids.
pub record GroupView : Type 0 where
  pub id : String
  pub has_password : Bool
  pub is_closed : Bool
  pub members : List String

-- `createGroupDto` of a group with its relations.
unfoldable pub group_view : List Relation → GroupRow → GroupView
unfolding is_set
group_view relations g = record {
  id = g.id;
  has_password = is_set g.password;
  is_closed = g.is_closed;
  members = map (λ r. r.user_id) (filter_by (λ r. r.group_id === g.id) relations);
}

unfoldable pub is_open : GroupView → Bool
is_open g = not g.has_password && not g.is_closed

module _ (size_min size_max : ℕ) where
  unfoldable pub get_open_groups : List GroupView → List GroupView
  unfolding is_open
  get_open_groups = filter_by (λ g. is_open g && ltb (length g.members) size_max)

  unfoldable pub biggest_group_that_is_too_small : List GroupView → Option GroupView
  biggest_group_that_is_too_small groups =
      let under_minimum = filter_by (λ g. ltb (length g.members) size_min) groups in
      if ltb 0 (length under_minimum)
      then get_elem? under_minimum (length under_minimum - 1)
      else none

  unfoldable pub smallest_group_that_has_enough_members : List GroupView → Option GroupView
  smallest_group_that_has_enough_members groups =
      let enough_members = filter_by (λ g. leb size_min (length g.members)) groups in
      if ltb 0 (length enough_members) then get_elem? enough_members 0 else none

  -- `(a, b) => a.members.length - b.members.length`
  abbrev pub by_size : GroupView → GroupView → Ordering
  by_size a b = compare (length a.members) (length b.members)

  unfoldable pub try_get_joinable_group : List GroupView → Option GroupView
  unfolding get_open_groups biggest_group_that_is_too_small smallest_group_that_has_enough_members
  try_get_joinable_group groups =
      let initial_candidates = sort by_size (get_open_groups groups) in
      elim (biggest_group_that_is_too_small initial_candidates) [
        | some g ↦ some g
        | none ↦ smallest_group_that_has_enough_members initial_candidates
      ]

module _ (ilike : String → String → Bool) (compare_names : String → String → Ordering)
    (random_name new_id : String) where
  -- `getGroupsOfCourse`, without a filter.
  unfoldable pub get_groups_of_course : String → Action (List GroupView)
  unfolding read_db group_view
  get_groups_of_course course_id = read_db (λ db. map (group_view db.relations) (
      sort (λ g h. compare_names g.name h.name)
        (filter_by (λ g. g.course_id === course_id) db.groups)))

  -- `execute`: the id of the group that was joined or created.
  unfoldable pub join_random_group : Course → Participant → Action String
  unfolding try_get_joinable_group throw return
  join_random_group course participant = do
    settings ← get_group_settings_of_course course.id
    if not settings.allow_groups then throw (Exception.groups_forbidden course.id) else (do
      groups ← get_groups_of_course course.id
      elim (try_get_joinable_group settings.size_min settings.size_max groups) [
        | some g ↦ (do
          joined ← add_user_to_group_force course.id g.id participant.user_id
          return g.id)
        | none ↦ (do
          group ←
              create_group ilike new_id course participant
                (record { name = random_name; password = none; is_closed = none })
          return group.id)
      ])
