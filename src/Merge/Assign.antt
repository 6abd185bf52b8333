-- ===== src/Merge/Assign.antt =====
-- `mergeInvalidGroups` of merge-by-activity.strategy.ts. Reading `rankedStudents` past its end,
-- which the program lets pass, stops the model with `none`.
pub mod Placement
pub mod Ids
pub mod Naming
use stu_mgmt_service.Prelude.{
  ℕ, zero, suc, ◌+◌, Bool, false, not, ◌||◌, ◌===◌, string_eq, option_eq, List, [], ◌∷◌, map,
  Option, none, some, get_elem?, filter_by, ◌>>=◌, has, delete, to_set, if◌then◌else◌,
}
use stu_mgmt_service.Merge.Groups.{GroupId, Member, SimpleGroup}

-- The sentinel `REQUIRES_ID`.
abbrev pub requires_id : GroupId
requires_id = some "REQUIRES-ID"

module _ (ranked_students : List Member) where
  -- "Find available group name": the id, and the ids that stay available.
  pub find_id : (count i : ℕ) → List GroupId → Option (GroupId × List GroupId)
  find_id zero i available = some (requires_id, available)
  find_id (suc count) i available = do
    student ← get_elem? ranked_students i
    let rest = find_id count (suc i) available
    if has student.group_id available
        then some (student.group_id, delete student.group_id available)
        else rest

  -- "Add members to group"
  pub pick_members : (count i : ℕ) → Option (List Member)
  pick_members zero i = some []
  pick_members (suc count) i = do
    student ← get_elem? ranked_students i
    rest ← pick_members count (suc i)
    some (student ∷ rest)

  -- The loop over `idealGroupSizes`: the groups, and the ids left over.
  pub place : List ℕ → ℕ → List GroupId → Option (List SimpleGroup × List GroupId)
  place [] first available = some ([], available)
  place (group_size ∷ sizes) first available = do
    (group_id, left) ← find_id group_size first available
    picked ← pick_members group_size first
    (groups, rest) ← place sizes (first + group_size) left
    some (record { id = group_id; members = picked } ∷ groups, rest)

-- `remainingGroupIds.pop()`
unfoldable pub pop : List GroupId → Option (GroupId × List GroupId)
pop [] = none
pop (x ∷ []) = some (x, [])
pop (x ∷ y ∷ ys) = do (last, rest) ← pop (y ∷ ys); some (last, x ∷ rest)

-- A group that still has the sentinel takes the last of the remaining ids, if there is one.
unfoldable pub name_group : SimpleGroup → List GroupId → SimpleGroup × List GroupId
name_group g remaining =
    if g.id === requires_id
    then elim (pop remaining) [
      | none ↦ (g, remaining)
      | some (last, rest) ↦ (record g { id = last }, rest)
    ]
    else (g, remaining)

unfoldable pub name_groups : List SimpleGroup → List GroupId → List SimpleGroup
name_groups [] remaining = []
name_groups (g ∷ gs) remaining =
    let (named, rest) = name_group g remaining in named ∷ name_groups gs rest

unfoldable pub merge_invalid_groups : List ℕ → List Member → Option (List SimpleGroup)
unfolding has to_set find_id pick_members place pop name_group name_groups
merge_invalid_groups ideal_group_sizes ranked_students = do
  let available = to_set (map (λ s. s.group_id) ranked_students)
  (groups, remaining) ← place ranked_students ideal_group_sizes 0 available
  some (name_groups groups remaining)
