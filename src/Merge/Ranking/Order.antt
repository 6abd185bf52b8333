-- ===== src/Merge/Ranking/Order.antt =====
-- `sortStudentsByActivity` ranks by submissions, then by active weeks.
use stu_mgmt_service.Prelude.{
  ℕ, ◌≤◌, ◌<◌, ◌≡◌, ◌⊎◌, ◌↔◌, String, string_eq, option_eq, nat_eq, true, false, List, [], ◌∷◌,
  none, some, arith, compare, All, if◌then◌else◌, Perm, map_get, sort, sort-perm, sort-IsSorted,
  sort-All, IsSorted, IsConsistent, MayPrecede, is_gt, ◌==◌,
}
use stu_mgmt_service.Merge.Groups.{Member}
use stu_mgmt_service.Merge.Ranking.{compare_students, sort_students_by_activity}
use stu_mgmt_service.Merge.Ranking.Weeks.{HasEntry}

ranks_iff :
    (a b c d : ℕ)
    → (is_gt (if a == b then compare d c else compare b a) ≡ false)
      ↔ ((b < a) ⊎ ((b ≡ a) × (d ≤ c)))
ranks_iff a b c d = ground arith

ranks_flip :
    (a b c d : ℕ)
    → is_gt (if a == b then compare d c else compare b a) ≡ true
    → (a < b) ⊎ ((a ≡ b) × (c ≤ d))
ranks_flip a b c d h = ground arith

-- The number under a student's id.
abbrev pub count_of : List (String × ℕ) → Member → ℕ
count_of m s = elim (map_get s.user_id m) [ none ↦ 0 | some n ↦ n ]

module _ (submitted weeks : List (String × ℕ)) where
  -- More submissions, or as many and at least as many active weeks.
  abbrev pub RanksBefore : Member → Member → Type 0
  RanksBefore x y =
      (count_of submitted y < count_of submitted x)
      ⊎ ((count_of submitted y ≡ count_of submitted x) × (count_of weeks y ≤ count_of weeks x))

  abbrev pub IsRanked : List Member → Type 0
  IsRanked [] = Unit
  IsRanked (x ∷ xs) = All (RanksBefore x) xs × IsRanked xs

  abbrev pub IsCounted : Member → Type 0
  IsCounted s = HasEntry s.user_id submitted × HasEntry s.user_id weeks

  compare_counted :
      (x y : Member)
      → IsCounted x
      → IsCounted y
      → compare_students submitted weeks x y ≡ (
          if count_of submitted x == count_of submitted y
          then compare (count_of weeks y) (count_of weeks x)
          else compare (count_of submitted y) (count_of submitted x))
  unfolding compare_students
  compare_counted x y ((a, p), (b, q)) ((c, r), (d, t)) = rw (p, q, r, t, count_of)

  -- The comparator lets `x` stand before `y` exactly if `x` ranks before `y`.
  MayPrecede-iff :
      (x y : Member)
      → IsCounted x
      → IsCounted y
      → MayPrecede (compare_students submitted weeks) x y ↔ RanksBefore x y
  MayPrecede-iff x y cx cy = rw (compare_counted x y cx cy) (
      ranks_iff (count_of submitted x) (count_of submitted y) (count_of weeks x) (count_of weeks y))

  compare_students-IsConsistent : IsConsistent (compare_students submitted weeks) IsCounted
  compare_students-IsConsistent = record {
    antisymm = λ x y cx cy h. (MayPrecede-iff y x cy cx).1 (
        ranks_flip (count_of submitted x) (count_of submitted y) (count_of weeks x)
          (count_of weeks y) (rw (compare_counted x y cx cy) at h));
    trans = λ x y z cx cy cz h k.
        let p = (MayPrecede-iff x y cx cy).0 h in
        let q = (MayPrecede-iff y z cy cz).0 k in (MayPrecede-iff x z cx cz).1 (ground arith);
  }

  IsRanked-of_IsSorted :
      (xs : List Member)
      → All IsCounted xs
      → IsSorted (compare_students submitted weeks) xs
      → IsRanked xs
  IsRanked-of_IsSorted [] c s = tt
  IsRanked-of_IsSorted (x ∷ xs) c s = (ranked xs c.1 s.0, IsRanked-of_IsSorted xs c.1 s.1)
    where
      ranked :
          (ys : List Member)
          → All IsCounted ys
          → All (MayPrecede (compare_students submitted weeks) x) ys
          → All (RanksBefore x) ys
      ranked [] cs h = tt
      ranked (y ∷ ys) cs h = ((MayPrecede-iff x y c.0 cs.0).0 h.0, ranked ys cs.1 h.1)

  -- Where both numbers are known of every student, the students are only rearranged, and come in
  -- the order of their submissions and then of their active weeks, the most active first.
  pub sort_students_by_activity_ranks :
      (students : List Member)
      → All IsCounted students
      → IsRanked (sort_students_by_activity submitted weeks students)
        × Perm (sort_students_by_activity submitted weeks students) students
  unfolding sort_students_by_activity
  sort_students_by_activity_ranks students c = (
    IsRanked-of_IsSorted (sort (compare_students submitted weeks) students)
        (sort-All (compare_students submitted weeks) IsCounted students c)
        (sort-IsSorted compare_students-IsConsistent students c),
    sort-perm (compare_students submitted weeks) students,
  )
