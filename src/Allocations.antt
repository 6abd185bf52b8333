-- ===== src/Allocations.antt =====
-- Which evaluator assesses which group or student: src/assessment/services/
-- assessment-allocation.service.ts and the repository and the entity that it uses.
pub mod Copied
pub mod Created
mod Tests
use stu_mgmt_service.Prelude.{
  ℕ, suc, nat_eq, String, string_eq, Bool, true, false, not, ◌&&◌, ◌||◌, ◌==◌, ◌===◌, option_eq,
  List, [], ◌∷◌, ◌++◌, map, Option, none, some, if◌then◌else◌, length, filter_by, any, find_by,
  update_by,
}
use stu_mgmt_service.Groups.Models.{Exception, Outcome}
use stu_mgmt_service.Groups.Store.{
  Query, ◌>>=◌, continue, return, throw, read_db, write_db, roll_back,
}

pub record AssessmentAllocation : Type 0 where
  pub id : ℕ
  pub assignment_id : String
  pub user_id : Option String
  pub group_id : Option String
  pub assigned_evaluator_id : String

pub record AssessmentAllocationDto : Type 0 where
  pub assignment_id : String
  pub assigned_evaluator_id : String
  pub group_id : Option String
  pub user_id : Option String

-- The table, and the next id that the database generates.
pub record Allocations : Type 0 where
  pub rows : List AssessmentAllocation
  pub next_id : ℕ

abbrev pub Task : Type 0 → Type 0
Task A = Query Allocations A

unfoldable pub to_dto : AssessmentAllocation → AssessmentAllocationDto
to_dto a = record {
  assignment_id = a.assignment_id;
  assigned_evaluator_id = a.assigned_evaluator_id;
  group_id = a.group_id;
  user_id = a.user_id;
}

-- A test `if (id)` is false for the empty text.
unfoldable pub if_given : Option String → Option String
if_given none = none
if_given (some id) = if id === "" then none else some id

-- The conditions of `where`: a group, else a user, else the assignment only.
unfoldable pub is_for : Option String → Option String → AssessmentAllocation → Bool
is_for (some group_id) user_id a = a.group_id === some group_id
is_for none (some user_id) a = a.user_id === some user_id
is_for none none a = true

unfoldable pub is_allocation_of : AssessmentAllocationDto → AssessmentAllocation → Bool
unfolding if_given is_for
is_allocation_of dto a =
    (a.assignment_id === dto.assignment_id)
    && is_for (if_given dto.group_id) (if_given dto.user_id) a

unfoldable pub get_allocation : AssessmentAllocationDto → Task (Option AssessmentAllocation)
unfolding is_allocation_of read_db
get_allocation dto = read_db (λ db. find_by (is_allocation_of dto) db.rows)

-- Both ids are given and are the same: an empty column is in no conflict.
unfoldable pub same_id : Option String → Option String → Bool
same_id none id = false
same_id (some id) other = other === some id

-- The unique constraints of the entity.
unfoldable pub conflicts : AssessmentAllocationDto → AssessmentAllocation → Bool
unfolding same_id
conflicts dto a =
    (a.assignment_id === dto.assignment_id)
    && (same_id dto.group_id a.group_id || same_id dto.user_id a.user_id)

unfoldable pub new_allocation : ℕ → AssessmentAllocationDto → AssessmentAllocation
new_allocation id dto = record {
  id = id;
  assignment_id = dto.assignment_id;
  user_id = dto.user_id;
  group_id = dto.group_id;
  assigned_evaluator_id = dto.assigned_evaluator_id;
}

-- Whether an id is one of an assignment, a group or a user, in their tables.
module _ (is_assignment is_group is_user : String → Bool) where
  unfoldable pub is_empty_or : (String → Bool) → Option String → Bool
  is_empty_or p none = true
  is_empty_or p (some id) = p id

  unfoldable pub ids_exist : AssessmentAllocationDto → Bool
  unfolding is_empty_or
  ids_exist dto =
      is_assignment dto.assignment_id
      && (is_user dto.assigned_evaluator_id
          && (is_empty_or is_group dto.group_id && is_empty_or is_user dto.user_id))

  -- `save` of a new entity
  unfoldable pub insert_allocation : AssessmentAllocationDto → Task AssessmentAllocation
  unfolding conflicts ids_exist new_allocation
  insert_allocation dto db =
      if any (conflicts dto) db.rows
      then (Outcome.throws Exception.query_failed, db)
      else (if ids_exist dto
          then (
            Outcome.ok (new_allocation db.next_id dto),
            record {
              rows = db.rows ++ new_allocation db.next_id dto ∷ [];
              next_id = suc db.next_id;
            },
          )
          else (Outcome.throws Exception.constraint_failed, db))

  -- `save` of an entity that was read
  unfoldable pub save_allocation : AssessmentAllocation → Task AssessmentAllocation
  save_allocation a db =
      if is_user a.assigned_evaluator_id
      then (Outcome.ok a, record db { rows = update_by (λ b. b.id === a.id) a db.rows })
      else (Outcome.throws Exception.constraint_failed, db)

  unfoldable pub update_or_insert :
      AssessmentAllocationDto → Option AssessmentAllocation → Task AssessmentAllocation
  unfolding insert_allocation save_allocation
  update_or_insert dto none = insert_allocation dto
  update_or_insert dto (some existing) =
      save_allocation (record existing { assigned_evaluator_id = dto.assigned_evaluator_id })

  unfoldable pub create_allocation : AssessmentAllocationDto → Task AssessmentAllocationDto
  unfolding get_allocation update_or_insert return
  create_allocation dto = do
    existing ← get_allocation dto
    saved ← update_or_insert dto existing
    return (to_dto saved)

  unfoldable pub insert_allocations :
      List AssessmentAllocationDto → Task (List AssessmentAllocation)
  unfolding insert_allocation return
  insert_allocations [] = return []
  insert_allocations (dto ∷ rest) = do
    a ← insert_allocation dto
    others ← insert_allocations rest
    return (a ∷ others)

  -- `save` of several entities is one transaction.
  unfoldable pub create_allocations :
      List AssessmentAllocationDto → Task (List AssessmentAllocation)
  unfolding insert_allocations roll_back
  create_allocations dtos db = roll_back db (insert_allocations dtos db)

  unfoldable pub get_allocations_of_assignment : String → Task (List AssessmentAllocation)
  unfolding read_db
  get_allocations_of_assignment assignment_id =
      read_db (λ db. filter_by (λ a. a.assignment_id === assignment_id) db.rows)

  unfoldable pub get_allocations : String → Task (List AssessmentAllocationDto)
  unfolding get_allocations_of_assignment to_dto return
  get_allocations assignment_id = do
    allocations ← get_allocations_of_assignment assignment_id
    return (map to_dto allocations)

  -- What follows once the allocations of the existing assignment are read.
  unfoldable pub copy_allocations :
      String → List AssessmentAllocation → Task (List AssessmentAllocationDto)
  unfolding create_allocations to_dto return
  copy_allocations new_id allocations = if length allocations == 0 then return [] else (do
    created ←
        create_allocations (map (λ a. record (to_dto a) { assignment_id = new_id }) allocations)
    return (map to_dto created))

  unfoldable pub add_allocations_from_existing_assignment :
      String → String → Task (List AssessmentAllocationDto)
  unfolding get_allocations_of_assignment copy_allocations
  add_allocations_from_existing_assignment new_id existing_id = do
    allocations ← get_allocations_of_assignment existing_id
    copy_allocations new_id allocations

  unfoldable pub remove_all_allocations_of_assignment : String → Task (Unit {0})
  unfolding write_db
  remove_all_allocations_of_assignment assignment_id =
      write_db (λ db. record db {
        rows = filter_by (λ a. not (a.assignment_id === assignment_id)) db.rows;
      })

-- The criteria of `removeAllocation`, which never get an id.
pub record Criteria : Type 0 where
  pub id : Option ℕ
  pub assignment_id : String
  pub group_id : Option String
  pub user_id : Option String

unfoldable pub with_target : Option String → Option String → Criteria → Criteria
with_target (some group_id) user_id criteria = record criteria { group_id = some group_id }
with_target none (some user_id) criteria = record criteria { user_id = some user_id }
with_target none none criteria = criteria

unfoldable pub criteria_of : AssessmentAllocationDto → Criteria
unfolding if_given with_target
criteria_of allocation =
    with_target (if_given allocation.group_id) (if_given allocation.user_id) (record {
      id = none;
      assignment_id = allocation.assignment_id;
      group_id = none;
      user_id = none;
    })

-- `delete` is the repository's own, of TypeORM, and gives the number of rows that it deleted.
module _ (delete : Option ℕ → Task ℕ) where
  unfoldable pub remove_allocation : AssessmentAllocationDto → Task (Unit {0})
  unfolding criteria_of return throw
  remove_allocation allocation = do
    affected ← delete (criteria_of allocation).id
    if affected == 1 then return tt else throw Exception.bad_request
