-- ===== src/Merge/Sizes/Ideal.antt =====
-- `calculateIdealGroupSizes` splits the students up without rest.
use stu_mgmt_service.Prelude.{
  ℕ, zero, suc, ◌+◌, ◌≤◌, ◌<◌, ◌≡◌, inl, inr, List, [], ◌∷◌, some, arith, length, sum, sum-nil,
  sum-cons, All, All-mono, ◌∈◌, Bool-cases, ◌==◌, leb, leb→le, ==_iff,
}
use stu_mgmt_service.Merge.Sizes.{best_sum, sizes_from, possible_sizes, ideal_group_sizes}
use stu_mgmt_service.Merge.Sizes.Table.{Combination}
use stu_mgmt_service.Merge.Sizes.Best.{shortest_entry, best_sum_sound}

mem-sizes_from : (count from x : ℕ) → from ≤ x → x < from + count → x ∈ sizes_from count from
unfolding sizes_from
mem-sizes_from zero from x h k = absurd (omega arith)
mem-sizes_from (suc count) from x h k = elim (Bool-cases (x == from)) [
  | inl e ↦ inl (ground arith)
  | inr e ↦ inr (mem-sizes_from count (suc from) x (ground arith) (omega arith))
]

sizes_from_mem : (count from x : ℕ) → x ∈ sizes_from count from → (from ≤ x) × (x < from + count)
unfolding sizes_from
sizes_from_mem zero from x i = absurd i
sizes_from_mem (suc count) from x (inl e) = omega arith
sizes_from_mem (suc count) from x (inr i) = omega (arith, sizes_from_mem count (suc from) x i)

-- The sizes of the groups that a course allows.
abbrev pub Fits : ℕ → ℕ → ℕ → Type 0
Fits min_size max_size x = (min_size ≤ x) × (x ≤ max_size)

module _ (min_size max_size : ℕ) where
  possible_of_Fits : (x : ℕ) → Fits min_size max_size x → x ∈ possible_sizes min_size max_size
  unfolding possible_sizes
  possible_of_Fits x (l, h) = mem-sizes_from _ min_size x l (omega arith)

  Fits-of_possible : (x : ℕ) → x ∈ possible_sizes min_size max_size → Fits min_size max_size x
  unfolding possible_sizes
  Fits-of_possible x i = omega (arith, sizes_from_mem _ min_size x i)

  -- A partition into groups of allowed sizes is what `bestSum` looks for.
  pub Combination-of_Fits :
      (n : ℕ) (d : List ℕ)
      → All (Fits min_size max_size) d
      → sum d ≡ n
      → Combination (possible_sizes min_size max_size) n d
  Combination-of_Fits n d fits total =
      (All-mono (Fits min_size max_size) _ d possible_of_Fits fits, total)

  pub best_sum-Fits :
      (n : ℕ) (c : List ℕ)
      → best_sum n (possible_sizes min_size max_size) ≡ some c
      → All (Fits min_size max_size) c × (sum c ≡ n)
  best_sum-Fits n c e =
      let s = best_sum_sound (possible_sizes min_size max_size) n c e in
      (All-mono (λ x. x ∈ possible_sizes min_size max_size) _ c Fits-of_possible s.0, s.1)

  length-pos : (d : List ℕ) → 0 < sum d → 1 ≤ length d
  length-pos [] h = absurd (omega (arith, sum-nil))
  length-pos (x ∷ d) h = omega arith

  sum-ge-min : (d : List ℕ) → All (Fits min_size max_size) d → 0 < sum d → min_size ≤ sum d
  sum-ge-min [] f h = absurd (omega (arith, sum-nil))
  sum-ge-min (x ∷ d) f h = omega (arith, sum-cons x d)

  All-sum-le : (d : List ℕ) → All (Fits min_size max_size) d → 0 < sum d → min_size ≤ max_size
  All-sum-le [] f h = absurd (omega (arith, sum-nil))
  All-sum-le (x ∷ d) f h = omega arith

  -- Where the students can be split into groups of allowed sizes, the result is such a split, and
  -- no other has fewer groups.
  pub ideal_group_sizes_optimal :
      (n : ℕ) (d : List ℕ)
      → All (Fits min_size max_size) d
      → sum d ≡ n
      → (sizes : List ℕ) × (ideal_group_sizes n min_size max_size ≡ some sizes)
        × All (Fits min_size max_size) sizes
        × (sum sizes ≡ n)
        × (length sizes ≤ length d)
  unfolding ideal_group_sizes
  ideal_group_sizes_optimal n d fits total = elim (Bool-cases (n == 0)) [
    | inl e ↦ ([], rw e, tt, omega (arith, (==_iff n 0).0 e, sum-nil), omega arith)
    | inr e ↦ elim (Bool-cases (leb n min_size)) [
      | inl l ↦
          let pos : 0 < n = ground arith in
          let low = sum-ge-min d fits (omega arith) in
          let high = All-sum-le d fits (omega arith) in
          (
            n ∷ [],
            rw (e, l),
            ((omega arith, omega (arith, leb→le n min_size l)), tt),
            omega (arith, sum-cons n [], sum-nil),
            length-pos d (omega arith),
          )
      | inr l ↦
          let (c, found, shorter) =
            shortest_entry (possible_sizes min_size max_size) n d
              (Combination-of_Fits n d fits total) in
          let (c_fits, c_total) = best_sum-Fits n c found in
          (c, rw (e, l, found), c_fits, c_total, shorter)
    ]
  ]
