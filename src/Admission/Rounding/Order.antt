-- ===== src/Admission/Rounding/Order.antt =====
-- When a rounded percentage is at least a number.
use native.Mathlib.Nat.{
  le-div_iff_mul-le, div-mul-le_self, mul-le-mul_right, one-le-mul, one-le-pow,
}
use stu_mgmt_service.Prelude.{
  ℕ, suc, ◌+◌, ◌-◌, ◌*◌, ◌/◌, ◌≤◌, ◌<◌, ◌≡◌, refl, subst, ◌↔◌, Bool-cases, inl, inr, ◌&&◌, true,
  false, not, Option, none, some, ◌==◌, arith,
}
use Prim.Native.Nat.{◌^◌}
use stu_mgmt_service.Admission.Rounding.{
  RoundingType, RoundingBehavior, ℤ, Fraction, Number, percent, round_decimals, round_fraction,
  rounds_to_nan, rounding_method, at_least, less_than,
}

-- Some multiple of the unit `u / v` is at least `r`, and at most the fraction `x / y` of units.
abbrev pub IsBelowUnits : (x y u v : ℕ) → Fraction → Type 0
IsBelowUnits x y u v r = (i : ℕ) × (r.numerator * v ≤ i * u * r.denominator) × (i * y ≤ x)

-- The percentage `n / d` is at least `r` once it is rounded: exactly, to the nearest multiple of
-- a power of ten (half a unit up), down to a whole number, or up to one.
abbrev pub MeetsDecimals : Option ℤ → (n d : ℕ) → Fraction → Type 0
MeetsDecimals none n d r = ⊥
MeetsDecimals (some (ℤ.pos k)) n d r = IsBelowUnits (2 * (n * 10 ^ k) + d) (2 * d) 1 (10 ^ k) r
MeetsDecimals (some (ℤ.negsuc k)) n d r =
    IsBelowUnits (2 * n + d * 10 ^ suc k) (2 * (d * 10 ^ suc k)) (10 ^ suc k) 1 r

abbrev pub MeetsKind : RoundingType → Option ℤ → (n d : ℕ) → Fraction → Type 0
MeetsKind RoundingType.unrounded o n d r = r.numerator * d ≤ n * r.denominator
MeetsKind RoundingType.to_decimals o n d r = MeetsDecimals o n d r
MeetsKind RoundingType.down_nearest_integer o n d r = IsBelowUnits n d 1 1 r
MeetsKind RoundingType.up_nearest_integer o n d r =
    (i : ℕ) × (r.numerator ≤ i * r.denominator) × (i * d < n + d)

abbrev pub Meets : RoundingBehavior → (n d : ℕ) → Fraction → Type 0
Meets b n d r = MeetsKind b.kind b.decimals n d r

-- A quotient, rounded down, of units.
units_iff :
    (x y u v : ℕ) (r : Fraction)
    → 0 < y
    → (at_least (Number.fraction (x / y * u) v) r ≡ true) ↔ IsBelowUnits x y u v r
unfolding at_least
units_iff x y u v r p = (
  (λ h. (x / y, ground arith, div-mul-le_self x y)),
  (λ h.
      let below : h.0 ≤ x / y = (le-div_iff_mul-le {k = y} {x = h.0} {y = x} p).1 h.2 in
      let bound : h.0 * u * r.denominator ≤ x / y * u * r.denominator =
        mul-le-mul_right r.denominator (mul-le-mul_right u below) in
      ground (arith, bound, h.1)),
)

-- The same for single units.
ones_iff :
    (x y v : ℕ) (r : Fraction)
    → 0 < y
    → (at_least (Number.fraction (x / y) v) r ≡ true) ↔ IsBelowUnits x y 1 v r
ones_iff x y v r p =
    let one : x / y * 1 ≡ x / y = omega arith in
    subst (λ q. (at_least (Number.fraction q v) r ≡ true) ↔ IsBelowUnits x y 1 v r) one
      (units_iff x y 1 v r p)

up_iff :
    (n d : ℕ) (r : Fraction)
    → 0 < d
    → IsBelowUnits (n + d - 1) d 1 1 r
      ↔ ((i : ℕ) × (r.numerator ≤ i * r.denominator) × (i * d < n + d))
up_iff n d r p = (
  (λ h. (h.0, grind (arith, h.1), omega (arith, h.2))),
  (λ h. (h.0, grind (arith, h.1), omega (arith, h.2))),
)

decimals_iff :
    (o : Option ℤ) (n d : ℕ) (r : Fraction)
    → 0 < d
    → (at_least (round_decimals o n d) r ≡ true) ↔ MeetsDecimals o n d r
unfolding round_decimals at_least
decimals_iff none n d r p = ground arith
decimals_iff (some (ℤ.pos k)) n d r p =
    ones_iff (2 * (n * 10 ^ k) + d) (2 * d) (10 ^ k) r (omega arith)
decimals_iff (some (ℤ.negsuc k)) n d r p =
    let unit : 0 < d * 10 ^ suc k = one-le-mul p (one-le-pow (suc k) 10 (omega arith)) in
    units_iff (2 * n + d * 10 ^ suc k) (2 * (d * 10 ^ suc k)) (10 ^ suc k) 1 r (omega arith)

fraction_iff :
    (kind : RoundingType) (b : RoundingBehavior) (n d : ℕ) (r : Fraction)
    → b.kind ≡ kind
    → 0 < d
    → (at_least (round_fraction b n d) r ≡ true) ↔ MeetsKind kind b.decimals n d r
unfolding round_fraction at_least
fraction_iff RoundingType.unrounded b n d r q p = rw q (ground arith)
fraction_iff RoundingType.to_decimals b n d r q p = rw q (decimals_iff b.decimals n d r p)
fraction_iff RoundingType.down_nearest_integer b n d r q p = rw q (ones_iff n d 1 r p)
fraction_iff RoundingType.up_nearest_integer b n d r q p =
    let (to, from) = ones_iff (n + d - 1) d 1 r p in
    let (out, back) = up_iff n d r p in rw q ((λ h. out (to h)), (λ h. from (back h)))

-- The percentage of `n` in `d`, rounded, is at least `r`.
pub percent_iff :
    (b : RoundingBehavior) (n d : ℕ) (r : Fraction)
    → (d == 0) ≡ false
    → (at_least (rounding_method b (percent n d)) r ≡ true) ↔ Meets b (n * 100) d r
unfolding percent rounding_method
percent_iff b n d r z = rw z (fraction_iff b.kind b (n * 100) d r refl (ground arith))

-- Rounding down to a whole number changes no comparison with a whole number.
pub round_down-at_least :
    (b : RoundingBehavior) (n d : ℕ) (r : Fraction)
    → r.denominator ≡ 1
    → b.kind ≡ RoundingType.down_nearest_integer
    → (d == 0) ≡ false
    → at_least (rounding_method b (percent n d)) r ≡ at_least (percent n d) r
unfolding percent rounding_method round_fraction at_least
round_down-at_least b n d r w q z =
    let p : 0 < d = ground arith in
    let iff = le-div_iff_mul-le {k = d} {x = r.numerator} {y = n * 100} p in
    rw (z, q, w) (ground (arith, iff))

-- What is not rounded stays.
pub rounding_method-unrounded :
    (b : RoundingBehavior) (v : Number) → b.kind ≡ RoundingType.unrounded → rounding_method b v ≡ v
unfolding rounding_method round_fraction rounds_to_nan
rounding_method-unrounded b (Number.fraction n d) q = rw q refl
rounding_method-unrounded b Number.infinite q = rw q refl
rounding_method-unrounded b Number.not_a_number q = refl

less_than-fraction :
    (n d : ℕ) (r : Fraction)
    → less_than (Number.fraction n d) r ≡ not (at_least (Number.fraction n d) r)
unfolding less_than at_least
less_than-fraction n d r = ground arith

decimals_less :
    (o : Option ℤ) (n d : ℕ) (r : Fraction)
    → less_than (round_decimals o n d) r
      ≡ (not (elim o [ none ↦ true | some k ↦ false ]) && not (at_least (round_decimals o n d) r))
unfolding round_decimals less_than
decimals_less none n d r = refl
decimals_less (some (ℤ.pos k)) n d r = less_than-fraction _ _ r
decimals_less (some (ℤ.negsuc k)) n d r = less_than-fraction _ _ r

fraction_less :
    (kind : RoundingType) (b : RoundingBehavior) (n d : ℕ) (r : Fraction)
    → b.kind ≡ kind
    → less_than (round_fraction b n d) r
      ≡ (not (rounds_to_nan b) && not (at_least (round_fraction b n d) r))
unfolding round_fraction rounds_to_nan
fraction_less RoundingType.unrounded b n d r q = rw q (less_than-fraction _ _ r)
fraction_less RoundingType.to_decimals b n d r q = rw q (decimals_less b.decimals n d r)
fraction_less RoundingType.down_nearest_integer b n d r q = rw q (less_than-fraction _ _ r)
fraction_less RoundingType.up_nearest_integer b n d r q = rw q (less_than-fraction _ _ r)

-- A rounded percentage is less than `r` where it is a number, is not infinite, and is not at least
-- `r`.
pub percent_less :
    (b : RoundingBehavior) (n d : ℕ) (r : Fraction)
    → less_than (rounding_method b (percent n d)) r ≡ (
        not (rounds_to_nan b)
        && (not (d == 0) && not (at_least (rounding_method b (percent n d)) r)))
unfolding percent rounding_method
percent_less b n d r = elim (Bool-cases (d == 0)) [
  | inl z ↦ elim (Bool-cases (n == 0)) [
    | inl e ↦ rw (z, e) (unfold less_than in ground arith)
    | inr e ↦ elim (Bool-cases (rounds_to_nan b)) [
      | inl f ↦ rw (z, e, f) (unfold less_than in ground arith)
      | inr f ↦ rw (z, e, f) (unfold less_than in ground arith)
    ]
  ]
  | inr z ↦ rw z (fraction_less b.kind b (n * 100) d r refl)
]
