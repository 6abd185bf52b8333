-- ===== src/Merge/Activity/Merged.antt =====
-- What `mergeByActivity` does once there are invalid groups.
use mathlib.Core.List.{append_assoc, map-append}
use mathlib.Core.List.Perm
use stu_mgmt_service.Prelude.{
  Ordering, false, ∈-append_left, Distinct-right, All-map, ℕ, ◌≤◌, ◌<◌, ◌≡◌, refl, sym, ap, ◌∙◌,
  String, string_eq, option_eq, Bool, List, [], ◌∷◌, ◌++◌, map, some, arith, length, length-append,
  length-map, ltb, ◌==◌, ◌∈◌, Distinct, All, All-append, All-mono, All-∈, All-self, Perm, sum,
  sum-nil, filter_by, to_set, has, sort, sort-perm, sort-All, length-sort, mem-map-sort,
  ∈-append_right, Distinct-length, Distinct-replace, to_set-Distinct, mem-to_set,
}
use stu_mgmt_service.Merge.Groups.{GroupId, Member, SimpleGroup, members_of}
use stu_mgmt_service.Merge.Sizes.Partition.{too_small, ideal_group_sizes-IsSplit}
use stu_mgmt_service.Merge.Assign.{requires_id}
use stu_mgmt_service.Merge.Assign.Placement.{sizes_of, merge_invalid_groups_places}
use stu_mgmt_service.Merge.Assign.Ids.{ids_of}
use stu_mgmt_service.Merge.Assign.Naming.{merge_invalid_groups_names}
use stu_mgmt_service.Merge.Ranking.{
  ActivityDto, SubmissionDto, count_submitted_assignment, compare_students,
  sort_students_by_activity,
}
use stu_mgmt_service.Merge.Ranking.Weeks.{count_active_weeks_total}
use stu_mgmt_service.Merge.Activity.Tags.{
  IsTagged, IsInvalid, group_ids, tagged_members, tagged_ids, members_few, sizes_many,
  groups_enough,
}
use stu_mgmt_service.Merge.Activity.{rank_students, merge_groups}

-- The groups that are still too small.
abbrev pub small_groups : ℕ → List SimpleGroup → List SimpleGroup
small_groups min_size = filter_by (λ g. ltb (length g.members) min_size)

pub small_groups-append :
    (min_size : ℕ) (gs hs : List SimpleGroup)
    → small_groups min_size (gs ++ hs) ≡ small_groups min_size gs ++ small_groups min_size hs
small_groups-append min_size [] hs = refl
small_groups-append min_size (g ∷ gs) hs = ground (arith, small_groups-append min_size gs hs)

pub small_groups_none :
    (min_size : ℕ) (gs : List SimpleGroup)
    → All (λ g. min_size ≤ length g.members) gs
    → small_groups min_size gs ≡ []
small_groups_none min_size [] a = refl
small_groups_none min_size (g ∷ gs) a = ground (arith, small_groups_none min_size gs a.1)

length-small_groups :
    (min_size max_size : ℕ) (gs : List SimpleGroup)
    → length (small_groups min_size gs) ≡ length (too_small min_size max_size (sizes_of gs))
length-small_groups min_size max_size [] = refl
length-small_groups min_size max_size (g ∷ gs) =
    ground (arith, length-small_groups min_size max_size gs)

-- The result of a merge, with the groups that went in.
pub record IsMerged (min_size : ℕ) (valid_groups invalid_groups result : List SimpleGroup)
    : Type 0 where
  pub students : Perm (members_of result) (members_of valid_groups ++ members_of invalid_groups)
  pub apart : Distinct (ids_of result)
  pub taken : All (λ x. x ∈ (ids_of valid_groups ++ ids_of invalid_groups)) (ids_of result)
  pub few_small : length (small_groups min_size result) ≤ 1

pub members_of-append :
    (gs hs : List SimpleGroup) → members_of (gs ++ hs) ≡ members_of gs ++ members_of hs
unfolding members_of
members_of-append [] hs = refl
members_of-append (g ∷ gs) hs =
    ap (◌++◌ g.members) (members_of-append gs hs) ∙ sym (append_assoc g.members (members_of gs) _)

-- The ids of ranked students are those of the groups they come from, and as many.
sorted_ids :
    (cmp : Member → Member → Ordering) (min_size : ℕ) (invalid : List SimpleGroup)
    → All (IsInvalid min_size) invalid
    → All IsTagged invalid
    → Distinct (ids_of invalid)
    → All (λ x. x ∈ ids_of invalid) (group_ids (sort cmp (members_of invalid)))
      × (length invalid ≤ length (to_set (group_ids (sort cmp (members_of invalid)))))
sorted_ids cmp min_size invalid small tagged apart =
    let students = members_of invalid in
    let ids = ids_of invalid in
    let have = tagged_members invalid ids tagged (All-self ids) in
    let all = sort-All cmp (λ m. m.group_id ∈ ids) students have in
    let spent =
      All-mono (λ x. x ∈ group_ids students) _ ids
        (λ x i. mem-to_set x _ (mem-map-sort (λ (m : Member). m.group_id) cmp x students i))
        (tagged_ids min_size invalid tagged small) in
    let many =
      Distinct-length ids (to_set (group_ids (sort cmp students))) apart (to_set-Distinct _)
        spent in
    (
      All-map (λ (m : Member). m.group_id) (λ x. x ∈ ids) _ all,
      omega (arith, many, length-map (λ (g : SimpleGroup). g.id) invalid),
    )

-- What the ids of the new groups are.
abbrev IdsFrom : List SimpleGroup → List SimpleGroup → Type 0
IdsFrom invalid groups = Distinct (ids_of groups) × All (λ x. x ∈ ids_of invalid) (ids_of groups)

IdsFrom-of :
    (invalid groups : List SimpleGroup) (ids : List GroupId) {R : Type 0}
    → Distinct (ids_of groups) × All (λ x. x ∈ ids) (ids_of groups) × R
    → All (λ x. x ∈ ids_of invalid) ids
    → IdsFrom invalid groups
IdsFrom-of invalid groups ids (d, a, r) b = (
  d,
  All-mono (λ x. x ∈ ids) _ (ids_of groups) (λ x i. All-∈ (λ y. y ∈ ids_of invalid) ids x b i) a,
)

some_students :
    (min_size : ℕ) (gs : List SimpleGroup)
    → All (IsInvalid min_size) gs
    → 1 ≤ length gs
    → 0 < length (members_of gs)
unfolding members_of
some_students min_size [] a h = absurd (omega arith)
some_students min_size (g ∷ gs) a h = omega (arith, length-append g.members (members_of gs), a.0.0)

some_sizes : (sizes : List ℕ) → 0 < sum sizes → (length sizes == 0) ≡ false
some_sizes [] h = absurd (omega (arith, sum-nil))
some_sizes (x ∷ sizes) h = ground arith

-- The valid groups, and new groups that share out the members and ids of the invalid ones.
joined :
    (min_size max_size : ℕ) (valid invalid groups : List SimpleGroup) (sizes : List ℕ)
    → All (λ g. min_size ≤ length g.members) valid
    → Distinct (ids_of valid ++ ids_of invalid)
    → Perm (members_of groups) (members_of invalid)
    → IdsFrom invalid groups
    → sizes_of groups ≡ sizes
    → length (too_small min_size max_size sizes) ≤ 1
    → IsMerged min_size valid invalid (valid ++ groups)
joined min_size max_size valid invalid groups sizes big apart same (d, a) kept few =
    let ids = map-append (λ (g : SimpleGroup). g.id) valid groups in
    record {
      students = rw (members_of-append valid groups) (Perm.append_left (members_of valid) same);
      apart = rw ids (Distinct-replace (ids_of valid) (ids_of invalid) (ids_of groups) apart d a);
      taken = rw ids (
          All-append (λ x. x ∈ (ids_of valid ++ ids_of invalid)) (ids_of valid) (ids_of groups)
            (All-mono (λ x. x ∈ ids_of valid) _ (ids_of valid)
              (λ x i. ∈-append_left (ids_of valid) (ids_of invalid) x i) (All-self (ids_of valid)))
            (All-mono (λ x. x ∈ ids_of invalid) _ (ids_of groups)
              (λ x i. ∈-append_right (ids_of valid) (ids_of invalid) x i) a));
      few_small =
          rw (small_groups-append min_size valid groups, small_groups_none min_size valid big)
            (rw (length-small_groups min_size max_size groups, kept) few);
    }

module _ {Date : Type 0} (is_same_week : Date → Date → Bool) (week : Date → ℕ)
    (same_iff : (d e : Date) → is_same_week d e ≡ (week d == week e))
    (activity : List (ActivityDto Date)) (submissions : List SubmissionDto) where
  -- Ranking ends, and is a sort.
  rank_students_total :
      (students : List Member)
      → (submitted weeks : List (String × ℕ)) × (rank_students is_same_week students activity
            submissions
          ≡ some (sort (compare_students submitted weeks) students))
  unfolding rank_students sort_students_by_activity
  rank_students_total students =
      let user_ids = to_set (map (λ (s : Member). s.user_id) students) in
      let (weeks, e, _) =
        count_active_weeks_total is_same_week week same_iff
          (filter_by (λ (a : ActivityDto Date). has a.user_id user_ids) activity) in
      (count_submitted_assignment submissions user_ids, weeks, rw e)

  pub merge_groups_total :
      (min_size max_size : ℕ) (valid_groups invalid_groups : List SimpleGroup)
      → 1 ≤ min_size
      → min_size ≤ max_size
      → All (λ g. min_size ≤ length g.members) valid_groups
      → All (IsInvalid min_size) invalid_groups
      → All IsTagged invalid_groups
      → Distinct (ids_of valid_groups ++ ids_of invalid_groups)
      → ¬ (requires_id ∈ ids_of invalid_groups)
      → 1 ≤ length invalid_groups
      → (result : List SimpleGroup) × (merge_groups is_same_week min_size max_size valid_groups
            invalid_groups activity submissions
          ≡ some result)
        × IsMerged min_size valid_groups invalid_groups result
  unfolding merge_groups
  merge_groups_total min_size max_size valid invalid one_le min_le_max big small tagged apart no_req
        some_invalid =
      let students = members_of invalid in
      let (submitted, weeks, ranks) = rank_students_total students in
      let cmp = compare_students submitted weeks in
      let ranked = sort cmp students in
      let (sizes, found, split) =
        ideal_group_sizes-IsSplit (length ranked) min_size max_size one_le min_le_max in
      let (groups, merged, placed, kept) = merge_invalid_groups_places sizes ranked split.total in
      let (from, many) =
        sorted_ids cmp min_size invalid small tagged (Distinct-right (ids_of valid) _ apart) in
      let few = members_few min_size invalid small in
      let enough =
        groups_enough (length sizes) (length invalid) (length ranked) _ min_size
          (rw split.total at (sizes_many min_size max_size sizes split.sizes_ok)) split.few_small
          (rw (length-sort cmp students) few) one_le some_invalid in
      let ids : IdsFrom invalid groups =
        IdsFrom-of invalid groups _
          (merge_invalid_groups_names sizes ranked groups merged
            (λ i. no_req (All-∈ (λ x. x ∈ ids_of invalid) _ requires_id from i))
            (omega (arith, enough, many)))
          from in
      let some_size : (length sizes == 0) ≡ false = some_sizes sizes (
        rw split.total
          (rw (length-sort cmp students) (some_students min_size invalid small some_invalid))) in
      (
        valid ++ groups,
        rw (ranks, found, merged, some_size),
        joined min_size max_size valid invalid groups sizes big apart
            (rw placed (sort-perm cmp students)) ids kept split.few_small,
      )
