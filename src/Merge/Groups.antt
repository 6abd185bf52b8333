-- ===== src/Merge/Groups.antt =====
-- `SimpleGroup` of group-merge.strategy.ts, and `splitGroupsByValidity`.
use stu_mgmt_service.Prelude.{
  ℕ, String, List, [], ◌∷◌, ◌++◌, Option, ◌==◌, ltb, if◌then◌else◌, length,
}

-- An id that may be `undefined`.
abbrev pub GroupId : Type 0
GroupId = Option String

pub record Member : Type 0 where
  pub user_id : String
  pub group_id : GroupId

pub record SimpleGroup : Type 0 where
  pub id : GroupId
  pub members : List Member

-- `groups.flatMap(g => g.members)`
unfoldable pub members_of : List SimpleGroup → List Member
members_of [] = []
members_of (g ∷ gs) = g.members ++ members_of gs

pub record GroupsByValidity : Type 0 where
  pub valid_groups : List SimpleGroup
  pub invalid_groups : List SimpleGroup
  pub empty_groups : List SimpleGroup

-- One round of the loop, on the lists that the later rounds fill.
unfoldable pub classify : ℕ → SimpleGroup → GroupsByValidity → GroupsByValidity
classify min_size g r =
    if length g.members == 0
    then record r { empty_groups = g ∷ r.empty_groups }
    else (if ltb (length g.members) min_size
        then record r { invalid_groups = g ∷ r.invalid_groups }
        else record r { valid_groups = g ∷ r.valid_groups })

unfoldable pub split_groups_by_validity : List SimpleGroup → ℕ → GroupsByValidity
unfolding classify
split_groups_by_validity [] min_size = record {
  valid_groups = [];
  invalid_groups = [];
  empty_groups = [];
}
split_groups_by_validity (g ∷ gs) min_size =
    classify min_size g (split_groups_by_validity gs min_size)
