-- ===== src/Merge/Sizes.antt =====
-- `bestSum` and `calculateIdealGroupSizes` of merge-by-activity.strategy.ts.
pub mod Table
pub mod Best
pub mod Ideal
pub mod Partition
use stu_mgmt_service.Prelude.{
  ℕ, zero, suc, ◌+◌, ◌-◌, ◌/◌, ◌%◌, compare, Ordering, Bool, true, List, [], ◌∷◌, ◌++◌, Option,
  none, some, ltb, leb, ◌==◌, if◌then◌else◌, length, replicate, sort,
}
use mathlib.Core.Option

-- `table`: an entry that is `null`, and one past the end, read as `none`.
abbrev pub Table : Type 0
Table = List (Option (List ℕ))

pub read : Table → ℕ → Option (List ℕ)
read [] i = none
read (x ∷ t) zero = x
read (x ∷ t) (suc i) = read t i

-- `table[i] = v`, which extends a table that is too short.
pub write : Table → ℕ → List ℕ → Table
write [] zero v = some v ∷ []
write [] (suc i) v = none ∷ write [] i v
write (x ∷ t) zero v = some v ∷ t
write (x ∷ t) (suc i) v = x ∷ write t i v

-- `!table[i + num] || combinationLength < table[i + num].length`
pub improves : ℕ → Option (List ℕ) → Bool
improves n none = true
improves n (some old) = ltb n (length old)

-- The body of the loop over `numbers`.
pub try_number : ℕ → Table → ℕ → Table
try_number i t num = elim (read t i) [
  | none ↦ t
  | some row ↦
      if improves (length row + 1) (read t (i + num))
      then write t (i + num) (row ++ num ∷ [])
      else t
]

pub try_numbers : ℕ → Table → List ℕ → Table
try_numbers i t [] = t
try_numbers i t (num ∷ numbers) = try_numbers i (try_number i t num) numbers

-- One round of the outer loop: nothing where `table[i]` is `null`.
pub round : List ℕ → Table → ℕ → Table
round numbers t i = elim (read t i) [ none ↦ t | some row ↦ try_numbers i t numbers ]

-- `rounds` rounds, the first at `i`.
pub fill : List ℕ → ℕ → ℕ → Table → Table
fill numbers zero i t = t
fill numbers (suc rounds) i t = fill numbers rounds (suc i) (round numbers t i)

-- `(a, b) => b - a`
abbrev pub descending : ℕ → ℕ → Ordering
descending a b = compare b a

unfoldable pub best_sum : ℕ → List ℕ → Option (List ℕ)
unfolding read write improves try_number try_numbers round fill
best_sum target_sum numbers =
    let table = fill numbers target_sum 0 (write (replicate (target_sum + 1) none) 0 []) in
    Option.map (sort descending) (read table target_sum)

-- `size` from `from`, `count` times: the loop that fills `possibleGroupSizes`.
pub sizes_from : ℕ → ℕ → List ℕ
sizes_from zero from = []
sizes_from (suc count) from = from ∷ sizes_from count (suc from)

-- `for (let size = minSize; size <= maxSize; size++)`
pub possible_sizes : ℕ → ℕ → List ℕ
possible_sizes min_size max_size = sizes_from (suc max_size - min_size) min_size

-- The sizes where no combination exists. `none` is the `RangeError` of `Array(Infinity)`.
pub fallback_sizes : ℕ → ℕ → Option (List ℕ)
fallback_sizes n max_size =
    if max_size == 0
    then none
    else some (replicate ((n + max_size - 1) / max_size - 1) max_size ++ n % max_size ∷ [])

pub sizes_of_best : ℕ → ℕ → Option (List ℕ) → Option (List ℕ)
sizes_of_best n max_size (some combination) = some combination
sizes_of_best n max_size none = fallback_sizes n max_size

unfoldable pub ideal_group_sizes : ℕ → ℕ → ℕ → Option (List ℕ)
unfolding possible_sizes sizes_from fallback_sizes sizes_of_best
ideal_group_sizes n min_size max_size =
    if n == 0
    then some []
    else (if leb n min_size
        then some (n ∷ [])
        else sizes_of_best n max_size (best_sum n (possible_sizes min_size max_size)))
