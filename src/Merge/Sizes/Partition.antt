-- ===== src/Merge/Sizes/Partition.antt =====
-- `calculateIdealGroupSizes` leaves no student over and at most one group too small.
use native.Mathlib.Nat.{div-add-mod', div-eq_of_lt-le, mod-lt}
use stu_mgmt_service.Prelude.{
  ℕ, zero, suc, ◌+◌, ◌-◌, ◌*◌, ◌/◌, ◌%◌, ◌≤◌, ◌<◌, ◌≡◌, refl, inl, inr, List, [], ◌∷◌, ◌++◌, none,
  some, arith, length, sum, sum-nil, sum-cons, sum-append, sum-replicate, All, All-append, All-mono,
  All-replicate, replicate, Option-cases, Bool-cases, ◌==◌, ==_iff, leb, ltb, leb→le, ltb→lt,
  ltb→le, filter_by, false,
}
use stu_mgmt_service.Merge.Sizes.{
  best_sum, possible_sizes, fallback_sizes, sizes_of_best, ideal_group_sizes,
}
use stu_mgmt_service.Merge.Sizes.Best.{shortest_entry}
use stu_mgmt_service.Merge.Sizes.Ideal.{Fits, Combination-of_Fits, best_sum-Fits}

module _ (min_size max_size : ℕ) where
  -- A size that a group may have, though it may be too small.
  abbrev pub IsSize : ℕ → Type 0
  IsSize x = (1 ≤ x) × (x ≤ max_size)

  abbrev pub too_small : List ℕ → List ℕ
  too_small = filter_by (λ x. ltb x min_size)

  too_small-Fits : (d : List ℕ) → All (Fits min_size max_size) d → too_small d ≡ []
  too_small-Fits [] f = refl
  too_small-Fits (x ∷ d) f = ground (arith, too_small-Fits d f.1)

  too_small-append : (xs ys : List ℕ) → too_small (xs ++ ys) ≡ too_small xs ++ too_small ys
  too_small-append [] ys = refl
  too_small-append (x ∷ xs) ys = ground (arith, too_small-append xs ys)

  too_small-replicate : (n x : ℕ) → min_size ≤ x → too_small (replicate n x) ≡ []
  too_small-replicate zero x h = refl
  too_small-replicate (suc n) x h = ground (arith, too_small-replicate n x h)

  -- The sizes add up to `n`, each may be taken, and at most one group stays too small.
  pub record IsSplit (n : ℕ) (sizes : List ℕ) : Type 0 where
    pub total : sum sizes ≡ n
    pub sizes_ok : All IsSize sizes
    pub few_small : length (too_small sizes) ≤ 1

fallback_count : (n m : ℕ) → 0 < m → 0 < n % m → (n + m - 1) / m - 1 ≡ n / m
fallback_count n m pos h =
    let d : n / m * m + n % m ≡ n = div-add-mod' n m in
    let below : n % m < m = mod-lt n pos in
    let e : (n + m - 1) / m ≡ n / m + 1 = div-eq_of_lt-le m (grind arith) (grind arith) in
    omega (arith, e)

module _ (n min_size max_size : ℕ) (one_le : 1 ≤ min_size) (min_le_max : min_size ≤ max_size) where
  full_groups : List ℕ
  full_groups = replicate (n / max_size) max_size

  full_groups-Fits : All (Fits min_size max_size) full_groups
  unfolding full_groups
  full_groups-Fits = All-replicate (Fits min_size max_size) _ max_size (min_le_max, omega arith)

  sum-full_groups : sum full_groups + n % max_size ≡ n
  unfolding full_groups
  sum-full_groups = omega (arith, sum-replicate (n / max_size) max_size, div-add-mod' n max_size)

  not_found :
      best_sum n (possible_sizes min_size max_size) ≡ none
      → (d : List ℕ) → All (Fits min_size max_size) d
      → sum d ≡ n
      → ⊥
  not_found e d fits total =
      let (c, found, _) =
        shortest_entry (possible_sizes min_size max_size) n d
          (Combination-of_Fits min_size max_size n d fits total) in
      cc

  rest_pos : best_sum n (possible_sizes min_size max_size) ≡ none → 0 < n % max_size
  rest_pos e = elim (Bool-cases (n % max_size == 0)) [
    | inl z ↦ absurd (
        not_found e full_groups full_groups-Fits
          (omega (arith, sum-full_groups, (==_iff (n % max_size) 0).0 z)))
    | inr z ↦ ground arith
  ]

  rest_small : best_sum n (possible_sizes min_size max_size) ≡ none → n % max_size < min_size
  rest_small e = elim (Bool-cases (ltb (n % max_size) min_size)) [
    | inl l ↦ ltb→lt (n % max_size) min_size l
    | inr l ↦
        let big = ltb→le (n % max_size) min_size l in
        let below : n % max_size < max_size = mod-lt n (omega arith) in
        absurd (
          not_found e (full_groups ++ n % max_size ∷ [])
            (All-append (Fits min_size max_size) full_groups (n % max_size ∷ []) full_groups-Fits
              ((big, omega arith), tt))
            (omega (
              arith,
              sum-append full_groups (n % max_size ∷ []),
              sum-cons (n % max_size) [],
              sum-nil,
              sum-full_groups,
            )))
  ]

  Fits-IsSize : (x : ℕ) → Fits min_size max_size x → IsSize min_size max_size x
  Fits-IsSize x (l, h) = omega arith

  IsSplit-of_Fits :
      (d : List ℕ) → All (Fits min_size max_size) d → sum d ≡ n → IsSplit min_size max_size n d
  IsSplit-of_Fits d fits total = record {
    total = total;
    sizes_ok = All-mono (Fits min_size max_size) _ d Fits-IsSize fits;
    few_small = rw (too_small-Fits min_size max_size d fits) (omega arith);
  }

  fallback-IsSplit :
      best_sum n (possible_sizes min_size max_size) ≡ none
      → IsSplit min_size max_size n (full_groups ++ n % max_size ∷ [])
  unfolding full_groups
  fallback-IsSplit e =
      let pos = rest_pos e in
      let small = rest_small e in
      record {
        total = omega (
          arith,
          sum-append full_groups (n % max_size ∷ []),
          sum-cons (n % max_size) [],
          sum-nil,
          sum-full_groups,
        );
        sizes_ok =
            All-append (IsSize min_size max_size) full_groups (n % max_size ∷ [])
              (All-mono (Fits min_size max_size) _ full_groups Fits-IsSize full_groups-Fits)
              ((pos, omega arith), tt);
        few_small =
            rw
              (
                too_small-append min_size max_size full_groups (n % max_size ∷ []),
                too_small-Fits min_size max_size full_groups full_groups-Fits,
              )
              (ground arith);
      }

  fallback-full_groups :
      best_sum n (possible_sizes min_size max_size) ≡ none
      → sizes_of_best n max_size none ≡ some (full_groups ++ n % max_size ∷ [])
  unfolding sizes_of_best fallback_sizes full_groups
  fallback-full_groups missing =
      let not_zero : (max_size == 0) ≡ false = ground arith in
      rw (not_zero, fallback_count n max_size (omega arith) (rest_pos missing))

  -- For any number of students, a minimum size from one up and a maximum that is not less, the
  -- sizes are found, are from one to the maximum, add up to that number, and at most one of them
  -- is below the minimum.
  pub ideal_group_sizes-IsSplit :
      (sizes : List ℕ) × (ideal_group_sizes n min_size max_size ≡ some sizes)
      × IsSplit min_size max_size n sizes
  unfolding ideal_group_sizes
  ideal_group_sizes-IsSplit = elim (Bool-cases (n == 0)) [
    | inl e ↦ (
      [],
      rw e,
      record {
        total = omega (arith, (==_iff n 0).0 e, sum-nil);
        sizes_ok = tt;
        few_small = omega arith;
      },
    )
    | inr e ↦ elim (Bool-cases (leb n min_size)) [
      | inl l ↦ (
        n ∷ [],
        rw (e, l),
        record {
          total = omega (arith, sum-cons n [], sum-nil);
          sizes_ok = (ground (arith, leb→le n min_size l), tt);
          few_small = ground arith;
        },
      )
      | inr l ↦ elim (Option-cases (best_sum n (possible_sizes min_size max_size))) [
        | inl missing ↦ (
          full_groups ++ n % max_size ∷ [],
          rw (e, l, missing) (fallback-full_groups missing),
          fallback-IsSplit missing,
        )
        | inr (c, found) ↦
            let (fits, total) = best_sum-Fits min_size max_size n c found in
            (c, rw (e, l, found), IsSplit-of_Fits c fits total)
      ]
    ]
  ]
