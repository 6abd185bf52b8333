-- ===== src/Merge/Activity.antt =====
-- `mergeByActivity` of merge-by-activity.strategy.ts.
pub mod Split
pub mod Tags
pub mod Merged
pub mod Correct
use stu_mgmt_service.Prelude.{
  ℕ, String, string_eq, Bool, List, [], ◌∷◌, ◌++◌, map, Option, some, ◌==◌, if◌then◌else◌, length,
  has, to_set, filter_by, ◌>>=◌,
}
use stu_mgmt_service.Merge.Groups.{
  GroupId, Member, SimpleGroup, members_of, GroupsByValidity, split_groups_by_validity,
}
use stu_mgmt_service.Merge.Sizes.{ideal_group_sizes}
use stu_mgmt_service.Merge.Assign.{merge_invalid_groups}
use stu_mgmt_service.Merge.Ranking.{
  ActivityDto, SubmissionDto, count_active_weeks, count_submitted_assignment,
  sort_students_by_activity,
}

-- `member.groupId = group.id`
unfoldable pub set_group_id : GroupId → Member → Member
set_group_id id m = record m { group_id = id }

unfoldable pub set_group_ids : SimpleGroup → SimpleGroup
unfolding set_group_id
set_group_ids g = record g { members = map (set_group_id g.id) g.members }

module _ {Date : Type 0} (is_same_week : Date → Date → Bool) where
  -- The students of the invalid groups, ranked.
  unfoldable pub rank_students :
      List Member → List (ActivityDto Date) → List SubmissionDto → Option (List Member)
  rank_students students activity submissions = do
    let user_ids = to_set (map (λ s. s.user_id) students)
    active_weeks ←
        count_active_weeks is_same_week (filter_by (λ a. has a.user_id user_ids) activity)
    let submitted = count_submitted_assignment submissions user_ids
    some (sort_students_by_activity submitted active_weeks students)

  -- What is left to do once there are invalid groups; the group ids of all members are set first.
  unfoldable pub merge_groups :
      ℕ
      → ℕ
      → List SimpleGroup
      → List SimpleGroup
      → List (ActivityDto Date)
      → List SubmissionDto
      → Option (List SimpleGroup)
  unfolding rank_students
  merge_groups min_size max_size valid_groups invalid_groups activity submissions = do
    ranked ← rank_students (members_of invalid_groups) activity submissions
    sizes ← ideal_group_sizes (length ranked) min_size max_size
    let merged = merge_invalid_groups sizes ranked
    if length sizes == 0
        then some (valid_groups ++ invalid_groups)
        else (do groups ← merged; some (valid_groups ++ groups))

  unfoldable pub merge_by_activity :
      ℕ
      → ℕ
      → List SimpleGroup
      → List (ActivityDto Date)
      → List SubmissionDto
      → Option (List SimpleGroup)
  unfolding merge_groups set_group_ids
  merge_by_activity min_size max_size groups activity submissions =
      let split = split_groups_by_validity groups min_size in
      if length split.invalid_groups == 0
      then some split.valid_groups
      else (merge_groups min_size max_size (map set_group_ids split.valid_groups)
          (map set_group_ids split.invalid_groups) activity submissions)
