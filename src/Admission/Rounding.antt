-- ===== src/Admission/Rounding.antt =====
-- utils/math.ts. A percentage is a fraction, or what a division by zero gives: fractions stand
-- for the floating-point numbers of the source, and are exact. Points are counted in a unit that
-- all of them are multiples of, a tenth of a point, say: percentages are ratios of points.
pub mod Order
use stu_mgmt_service.Prelude.{
  ℕ, suc, ◌+◌, ◌-◌, ◌*◌, ◌/◌, Bool, true, false, List, [], ◌∷◌, Option, none, some, if◌then◌else◌,
  ltb, leb, ◌==◌, map, sum,
}
use Prim.Native.Nat.{◌^◌}

pub data RoundingType : Type 0 where
  unrounded : RoundingType
  to_decimals : RoundingType
  down_nearest_integer : RoundingType
  up_nearest_integer : RoundingType

-- A whole number.
pub data ℤ : Type 0 where
  pos : ℕ → ℤ
  negsuc : ℕ → ℤ

pub record RoundingBehavior : Type 0 where
  pub kind : RoundingType
  pub decimals : Option ℤ

-- A number such as a required percentage. No denominator is zero.
pub record Fraction : Type 0 where
  pub numerator : ℕ
  pub denominator : ℕ

pub data Number : Type 0 where
  fraction : (numerator denominator : ℕ) → Number
  infinite : Number
  not_a_number : Number

-- `(numerator / denominator) * 100`
unfoldable pub percent : ℕ → ℕ → Number
percent numerator denominator =
    if denominator == 0
    then (if numerator == 0 then Number.not_a_number else Number.infinite)
    else Number.fraction (numerator * 100) denominator

-- `Math.round` rounds a half up; `Math.pow(10, undefined)` is `NaN`.
unfoldable pub round_decimals : Option ℤ → ℕ → ℕ → Number
round_decimals none n d = Number.not_a_number
round_decimals (some (ℤ.pos k)) n d = Number.fraction ((2 * (n * 10 ^ k) + d) / (2 * d)) (10 ^ k)
round_decimals (some (ℤ.negsuc k)) n d =
    Number.fraction ((2 * n + d * 10 ^ suc k) / (2 * (d * 10 ^ suc k)) * 10 ^ suc k) 1

unfoldable pub round_fraction : RoundingBehavior → ℕ → ℕ → Number
unfolding round_decimals
round_fraction b n d = elim b.kind [
  | RoundingType.unrounded ↦ Number.fraction n d
  | RoundingType.to_decimals ↦ round_decimals b.decimals n d
  | RoundingType.down_nearest_integer ↦ Number.fraction (n / d) 1
  | RoundingType.up_nearest_integer ↦ Number.fraction ((n + d - 1) / d) 1
]

unfoldable pub rounds_to_nan : RoundingBehavior → Bool
rounds_to_nan b = elim b.kind [
  | RoundingType.to_decimals ↦ elim b.decimals [ none ↦ true | some k ↦ false ]
  | _ ↦ false
]

-- `RoundingMethod(type, decimals)`
unfoldable pub rounding_method : RoundingBehavior → Number → Number
unfolding round_fraction rounds_to_nan
rounding_method b (Number.fraction n d) = round_fraction b n d
rounding_method b Number.infinite = if rounds_to_nan b then Number.not_a_number else Number.infinite
rounding_method b Number.not_a_number = Number.not_a_number

-- `value >= r` and `value < r`, which are both false of `NaN`.
unfoldable pub at_least : Number → Fraction → Bool
at_least (Number.fraction n d) r = leb (r.numerator * d) (n * r.denominator)
at_least Number.infinite r = true
at_least Number.not_a_number r = false

unfoldable pub less_than : Number → Fraction → Bool
less_than (Number.fraction n d) r = ltb (n * r.denominator) (r.numerator * d)
less_than Number.infinite r = false
less_than Number.not_a_number r = false

unfoldable pub sum_of : {T : Type 0} → List T → (T → ℕ) → ℕ
unfolding sum
sum_of items property = sum (map property items)
