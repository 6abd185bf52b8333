-- ===== src/Merge/Tests.antt =====
-- Runs of the merge on small data, and each theorem at a concrete input.
use stu_mgmt_service.Prelude.{
  IsSorted, ℕ, ◌/◌, ◌≡◌, refl, inl, inr, String, string_eq, option_eq, Bool, false, List, [], ◌∷◌,
  map, some, arith, ◌==◌, sum, length, to_set, has, has-false, map_get, map_set, set_add, nat_eq,
  sort, ◌≤◌, ◌∈◌, Distinct, All, Perm,
}
use stu_mgmt_service.Merge.Groups.{
  GroupId, Member, SimpleGroup, members_of, split_groups_by_validity,
}
use stu_mgmt_service.Merge.Sizes.{best_sum, descending, ideal_group_sizes}
use stu_mgmt_service.Merge.Sizes.Best.{best_sum_optimal}
use stu_mgmt_service.Merge.Sizes.Ideal.{Fits, ideal_group_sizes_optimal}
use stu_mgmt_service.Merge.Sizes.Partition.{IsSplit, ideal_group_sizes-IsSplit}
use stu_mgmt_service.Merge.Assign.{merge_invalid_groups, requires_id}
use stu_mgmt_service.Merge.Assign.Ids.{ids_of}
use stu_mgmt_service.Merge.Assign.Placement.{sizes_of, merge_invalid_groups_places}
use stu_mgmt_service.Merge.Assign.Naming.{merge_invalid_groups_names}
use stu_mgmt_service.Merge.Ranking.{
  ActivityDto, SubmissionDto, count_active_weeks, count_unique_weeks, count_submitted_assignment,
  sort_students_by_activity,
}
use stu_mgmt_service.Merge.Ranking.Weeks.{count_unique_weeks_counts}
use stu_mgmt_service.Merge.Ranking.Submissions.{assignments_of, count_submitted_assignment_counts}
use stu_mgmt_service.Merge.Ranking.Order.{IsRanked, sort_students_by_activity_ranks}
use stu_mgmt_service.Merge.Activity.{merge_by_activity}
use stu_mgmt_service.Merge.Activity.Split.{IsSplitBy, split_groups_by_validity-IsSplitBy}
use stu_mgmt_service.Merge.Activity.Correct.{IsRegrouping, merge_by_activity_correct}

-- Days since a Sunday stand for the dates.
abbrev same_week : ℕ → ℕ → Bool
same_week d e = d / 7 == e / 7

abbrev student : String → String → Member
student user group = record { user_id = user; group_id = some group }

abbrev group : String → List String → SimpleGroup
group id users = record { id = some id; members = map (λ u. student u id) users }

-- A full group, two that are too small, and an empty one.
abbrev course_groups : List SimpleGroup
course_groups =
    group "A" ("ada" ∷ "bob" ∷ "cem" ∷ [])
    ∷ group "B" ("dan" ∷ "eve" ∷ [])
    ∷ group "C" ("fay" ∷ [])
    ∷ group "D" []
    ∷ []

abbrev activities : List (ActivityDto ℕ)
activities =
    record { user_id = "dan"; dates = 1 ∷ 2 ∷ 9 ∷ [] }
    ∷ record { user_id = "eve"; dates = 3 ∷ [] }
    ∷ record { user_id = "fay"; dates = 1 ∷ 8 ∷ 15 ∷ [] }
    ∷ []

abbrev submission : String → String → SubmissionDto
submission user assignment = record { user_id = user; assignment_id = assignment }

abbrev all_submissions : List SubmissionDto
all_submissions =
    submission "eve" "sheet 1"
    ∷ submission "fay" "sheet 1"
    ∷ submission "fay" "sheet 1"
    ∷ submission "ada" "sheet 2"
    ∷ []

abbrev ranked : List Member
ranked = student "fay" "C" ∷ student "eve" "B" ∷ student "dan" "B" ∷ []

-- The two small groups become one, which is named after its first student's group.
merge_run :
    merge_by_activity same_week 3 4 course_groups activities all_submissions
    ≡ some
        (group "A" ("ada" ∷ "bob" ∷ "cem" ∷ []) ∷ record { id = some "C"; members = ranked } ∷ [])
unfolding merge_by_activity sort count_active_weeks count_submitted_assignment
    sort_students_by_activity map_get map_set set_add ideal_group_sizes best_sum
    merge_invalid_groups split_groups_by_validity members_of count_unique_weeks
merge_run = refl

sizes_run : ideal_group_sizes 7 3 4 ≡ some (4 ∷ 3 ∷ [])
unfolding ideal_group_sizes best_sum sort
sizes_run = refl

fallback_run : ideal_group_sizes 5 3 3 ≡ some (3 ∷ 2 ∷ [])
unfolding ideal_group_sizes best_sum sort
fallback_run = refl

best_sum_run : best_sum 8 (5 ∷ 3 ∷ 2 ∷ []) ≡ some (5 ∷ 3 ∷ [])
unfolding best_sum sort
best_sum_run = refl

weeks_run : count_unique_weeks same_week (1 ∷ 2 ∷ 9 ∷ 15 ∷ []) ≡ some 3
unfolding count_unique_weeks
weeks_run = refl

merged_run :
    merge_invalid_groups (2 ∷ 1 ∷ []) ranked
    ≡ some (
        record { id = some "C"; members = student "fay" "C" ∷ student "eve" "B" ∷ [] }
        ∷ record { id = some "B"; members = student "dan" "B" ∷ [] }
        ∷ [])
unfolding merge_invalid_groups
merged_run = refl

course_ids-Distinct : Distinct (ids_of course_groups)
unfolding has
course_ids-Distinct = (
  absent "A" ("B" ∷ "C" ∷ "D" ∷ []) refl,
  (absent "B" ("C" ∷ "D" ∷ []) refl, (absent "C" ("D" ∷ []) refl, ((λ i. i), tt))),
)
  where
    absent :
        (x : String) (xs : List String)
        → has {A = GroupId} (some x) (map some xs) ≡ false
        → ¬ (◌∈◌ {A = GroupId} (some x) (map some xs))
    absent x xs = has-false {A = GroupId} (some x) (map some xs)

course_ids_named : ¬ (requires_id ∈ ids_of course_groups)
unfolding has
course_ids_named = has-false requires_id (ids_of course_groups) refl

merge_by_activity_correct_example :
    (result : List SimpleGroup) × (merge_by_activity same_week 3 4 course_groups activities
        all_submissions
      ≡ some result)
    × IsRegrouping 3 course_groups result
merge_by_activity_correct_example =
    merge_by_activity_correct same_week (λ d. d / 7) (λ d e. refl) activities all_submissions 3 4
      course_groups (omega arith) (omega arith) course_ids-Distinct course_ids_named

split_groups_by_validity-IsSplitBy_example :
    IsSplitBy 3 course_groups (split_groups_by_validity course_groups 3)
split_groups_by_validity-IsSplitBy_example = split_groups_by_validity-IsSplitBy course_groups 3

ideal_group_sizes_optimal_example :
    (sizes : List ℕ) × (ideal_group_sizes 7 3 4 ≡ some sizes)
    × All (Fits 3 4) sizes
    × (sum sizes ≡ 7)
    × (length sizes ≤ 2)
unfolding sum
ideal_group_sizes_optimal_example =
    ideal_group_sizes_optimal 3 4 7 (3 ∷ 4 ∷ [])
      ((omega arith, omega arith), ((omega arith, omega arith), tt)) refl

ideal_group_sizes-IsSplit_example :
    (sizes : List ℕ) × (ideal_group_sizes 5 3 3 ≡ some sizes) × IsSplit 3 3 5 sizes
ideal_group_sizes-IsSplit_example = ideal_group_sizes-IsSplit 5 3 3 (omega arith) (omega arith)

merge_invalid_groups_places_example :
    (groups : List SimpleGroup) × (merge_invalid_groups (2 ∷ 1 ∷ []) ranked ≡ some groups)
    × (members_of groups ≡ ranked)
    × (sizes_of groups ≡ 2 ∷ 1 ∷ [])
unfolding sum
merge_invalid_groups_places_example = merge_invalid_groups_places (2 ∷ 1 ∷ []) ranked refl

ranked_ids_named : ¬ (requires_id ∈ map (λ s. s.group_id) ranked)
unfolding has
ranked_ids_named = has-false requires_id (map (λ s. s.group_id) ranked) refl

ranked_ids_many : 2 ≤ length (to_set (map (λ s. s.group_id) ranked))
unfolding to_set
ranked_ids_many = omega arith

merge_invalid_groups_names_example :
    Distinct (
      ids_of (
        record { id = some "C"; members = student "fay" "C" ∷ student "eve" "B" ∷ [] }
        ∷ record { id = some "B"; members = student "dan" "B" ∷ [] }
        ∷ []))
    × All (λ x. x ∈ map (λ s. s.group_id) ranked) (some "C" ∷ some "B" ∷ [])
    × ¬ (requires_id ∈ (some "C" ∷ some "B" ∷ []))
merge_invalid_groups_names_example =
    merge_invalid_groups_names (2 ∷ 1 ∷ []) ranked _ merged_run ranked_ids_named ranked_ids_many

abbrev number_choice : List ℕ
number_choice = 5 ∷ 3 ∷ 2 ∷ []

two : 2 ∈ number_choice
two = inr (inr (inl refl))

best_sum_optimal_example :
    (c : List ℕ) × (best_sum 8 (5 ∷ 3 ∷ 2 ∷ []) ≡ some c)
    × All (λ x. x ∈ number_choice) c
    × (sum c ≡ 8)
    × IsSorted descending c
    × (length c ≤ 4)
unfolding sum
best_sum_optimal_example =
    best_sum_optimal (5 ∷ 3 ∷ 2 ∷ []) 8 (2 ∷ 2 ∷ 2 ∷ 2 ∷ []) ((two, (two, (two, (two, tt)))), refl)

count_unique_weeks_counts_example :
    count_unique_weeks same_week (1 ∷ 2 ∷ 9 ∷ 15 ∷ [])
    ≡ some (length (to_set (map (λ d. d / 7) (1 ∷ 2 ∷ 9 ∷ 15 ∷ []))))
count_unique_weeks_counts_example =
    count_unique_weeks_counts same_week (λ d. d / 7) (λ d e. refl) (1 ∷ 2 ∷ 9 ∷ 15 ∷ [])
      (
        (omega arith, (omega arith, (omega arith, tt))),
        ((omega arith, (omega arith, tt)), ((omega arith, tt), (tt, tt))),
      )

count_submitted_assignment_counts_example :
    map_get "fay" (count_submitted_assignment all_submissions ("eve" ∷ "fay" ∷ []))
    ≡ some (length (to_set (assignments_of "fay" all_submissions)))
count_submitted_assignment_counts_example =
    count_submitted_assignment_counts all_submissions ("eve" ∷ "fay" ∷ []) "fay" (inr (inl refl))

abbrev submitted : List (String × ℕ)
submitted = ("dan", 0) ∷ ("eve", 1) ∷ ("fay", 1) ∷ []

abbrev weeks : List (String × ℕ)
weeks = ("dan", 2) ∷ ("eve", 1) ∷ ("fay", 3) ∷ []

sort_students_by_activity_ranks_example :
    IsRanked submitted weeks (sort_students_by_activity submitted weeks ranked)
    × Perm (sort_students_by_activity submitted weeks ranked) ranked
unfolding map_get
sort_students_by_activity_ranks_example =
    sort_students_by_activity_ranks submitted weeks ranked
      (((1, refl), (3, refl)), (((1, refl), (1, refl)), (((0, refl), (2, refl)), tt)))
