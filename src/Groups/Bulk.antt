-- ===== src/Groups/Bulk.antt =====
-- `createMultipleGroups` of GroupService and GroupRepository: many groups at once, by names or by
-- a schema and a count. `save` of an array runs in one transaction. The uuids are given.
pub mod Names
use stu_mgmt_service.Prelude.{
  ℕ, zero, suc, ◌+◌, String, string_eq, Bool, false, not, ◌&&◌, List, [], ◌∷◌, ◌++◌, map, Option,
  none, some, if◌then◌else◌, length, to_set, ◌==◌, ltb,
}
use Prim.Native.String.{◌++◌ as join}
use stu_mgmt_service.Groups.Models.{Exception, Outcome, is_set}
use stu_mgmt_service.Groups.Store.{
  GroupRow, Database, Action, continue, ◌>>=◌, roll_back, return, throw, check,
}
use stu_mgmt_service.Groups.Repository.{GroupDto, create_group}
use stu_mgmt_service.Groups.Names.{to_string}

pub record GroupCreateBulkDto : Type 0 where
  pub names : List String
  pub name_schema : Option String
  pub count : ℕ

unfoldable pub named_group : String → GroupDto
named_group name = record { name = name; password = none; is_closed = some false }

-- The loop of `createGroupsWithSchemaAndCount`, `count` rounds from `i` on.
unfoldable pub groups_from : String → (count i : ℕ) → List GroupDto
unfolding named_group to_string
groups_from schema zero i = []
groups_from schema (suc count) i =
    named_group (join schema (to_string (suc i) i)) ∷ groups_from schema count (suc i)

unfoldable pub create_groups_with_schema_and_count : String → ℕ → List GroupDto
unfolding groups_from
create_groups_with_schema_and_count schema count = groups_from schema count 1

-- Throws if a name stands twice in the list.
unfoldable pub create_groups_from_name_list : List String → Outcome (List GroupDto)
unfolding named_group
create_groups_from_name_list names =
    if not (length (to_set names) == length names)
    then Outcome.throws Exception.bad_request
    else Outcome.ok (map named_group names)

-- The inserts, one after the other; the number of the groups before picks the uuid.
unfoldable pub insert_each : (ℕ → String) → ℕ → String → List GroupDto → Action (List GroupRow)
unfolding return
insert_each new_ids i course_id [] = return []
insert_each new_ids i course_id (dto ∷ dtos) = do
  group ← create_group (new_ids i) course_id dto
  groups ← insert_each new_ids (suc i) course_id dtos
  return (group ∷ groups)

unfoldable pub save_groups : (ℕ → String) → String → List GroupDto → Action (List GroupRow)
unfolding insert_each roll_back
save_groups new_ids course_id dtos = λ db. roll_back db (insert_each new_ids 0 course_id dtos db)

unfoldable pub create_multiple_groups :
    (ℕ → String) → String → GroupCreateBulkDto → Action (List GroupRow)
unfolding create_groups_from_name_list create_groups_with_schema_and_count save_groups check is_set
create_multiple_groups new_ids course_id bulk = do
  groups ← check (
      if ltb 0 (length bulk.names)
      then create_groups_from_name_list bulk.names
      else elim bulk.name_schema [
        | none ↦ Outcome.throws Exception.bad_request
        | some schema ↦
            if is_set (some schema) && not (bulk.count == 0)
            then Outcome.ok (create_groups_with_schema_and_count schema bulk.count)
            else Outcome.throws Exception.bad_request
      ])
  save_groups new_ids course_id groups
