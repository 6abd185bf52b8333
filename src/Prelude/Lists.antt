-- ===== src/Prelude/Lists.antt =====
-- Lists measured and indexed by native numbers, under the library's names.
use Prim.Native.Nat.{ℕ, zero, suc, ◌+◌, ◌-◌, ◌*◌, ◌≤◌}
use mathlib.Core.Path.{◌≡◌, refl, sym, ap}
use mathlib.Core.Logic.{◌⊎◌, inl, inr}
use mathlib.Core.Bool.{Bool, false, ◌||◌}
use mathlib.Core.List.{List, [], ◌∷◌, ◌++◌, map}
use mathlib.Core.Option.{Option, none, some}
use native.Mathlib.Omega.{arith}
use stu_mgmt_service.Prelude.Tests.{if◌then◌else◌}

module _ {ℓ} {A : Type ℓ} where
  abbrev pub length : List A → ℕ
  length [] = 0
  length (x ∷ xs) = suc (length xs)

  -- `xs[i]`, where an index past the end reads `undefined`.
  abbrev pub get_elem? : List A → ℕ → Option A
  get_elem? [] i = none
  get_elem? (x ∷ xs) zero = some x
  get_elem? (x ∷ xs) (suc i) = get_elem? xs i

  abbrev pub take : ℕ → List A → List A
  take zero xs = []
  take (suc n) [] = []
  take (suc n) (x ∷ xs) = x ∷ take n xs

  abbrev pub drop : ℕ → List A → List A
  drop zero xs = xs
  drop (suc n) [] = []
  drop (suc n) (x ∷ xs) = drop n xs

  abbrev pub replicate : ℕ → A → List A
  replicate zero a = []
  replicate (suc n) a = a ∷ replicate n a

  -- `xs.filter(p)`
  abbrev pub filter_by : (A → Bool) → List A → List A
  filter_by p [] = []
  filter_by p (x ∷ xs) = let rest = filter_by p xs in if p x then x ∷ rest else rest

  abbrev pub any : (A → Bool) → List A → Bool
  any p [] = false
  any p (x ∷ xs) = p x || any p xs

  -- `xs.find(p)`
  abbrev pub find_by : (A → Bool) → List A → Option A
  find_by p [] = none
  find_by p (x ∷ xs) = let rest = find_by p xs in if p x then some x else rest

  -- The entries that satisfy `p` replaced.
  abbrev pub update_by : (A → Bool) → A → List A → List A
  update_by p y [] = []
  update_by p y (x ∷ xs) = (if p x then y else x) ∷ update_by p y xs

  abbrev pub All {κ} : (A → Type κ) → List A → Type κ
  All P [] = Unit
  All P (x ∷ xs) = P x × All P xs

module _ {A : Type 0} where
  infix 50 ◌∈◌
  abbrev pub ◌∈◌ : A → List A → Type 0
  x ∈ [] = ⊥
  x ∈ (y ∷ ys) = (x ≡ y) ⊎ (x ∈ ys)

  -- No two entries are equal.
  abbrev pub Distinct : List A → Type 0
  Distinct [] = Unit
  Distinct (x ∷ xs) = ¬ (x ∈ xs) × Distinct xs

module _ {ℓ} {A : Type ℓ} where
  pub length-append : (xs ys : List A) → length (xs ++ ys) ≡ length xs + length ys
  length-append [] ys = omega arith
  length-append (x ∷ xs) ys = omega (arith, length-append xs ys)

  pub length-map {κ} : {B : Type κ} (f : A → B) (xs : List A) → length (map f xs) ≡ length xs
  length-map f [] = refl
  length-map f (x ∷ xs) = ap suc (length-map f xs)

  pub length-replicate : (n : ℕ) (a : A) → length (replicate n a) ≡ n
  length-replicate zero a = refl
  length-replicate (suc n) a = ap suc (length-replicate n a)

  pub take-append-drop : (n : ℕ) (xs : List A) → take n xs ++ drop n xs ≡ xs
  take-append-drop zero xs = refl
  take-append-drop (suc n) [] = refl
  take-append-drop (suc n) (x ∷ xs) = ap (◌∷◌ x) (take-append-drop n xs)

  pub drop-drop : (m n : ℕ) (xs : List A) → drop n (drop m xs) ≡ drop (m + n) xs
  drop-drop zero n xs = let e : 0 + n ≡ n = omega arith in rw e
  drop-drop (suc m) zero [] = let e : suc m + 0 ≡ suc m = omega arith in rw e
  drop-drop (suc m) (suc n) [] = let e : suc m + suc n ≡ suc (m + suc n) = omega arith in rw e
  drop-drop (suc m) n (x ∷ xs) =
      let e : suc m + n ≡ suc (m + n) = omega arith in rw e (drop-drop m n xs)

  pub drop-length : (xs : List A) → drop (length xs) xs ≡ []
  drop-length [] = refl
  drop-length (x ∷ xs) = drop-length xs

  pub length-take : (n : ℕ) (xs : List A) → n ≤ length xs → length (take n xs) ≡ n
  length-take zero xs h = refl
  length-take (suc n) [] h = absurd (omega arith)
  length-take (suc n) (x ∷ xs) h = ap suc (length-take n xs (omega arith))

  pub length-drop : (n : ℕ) (xs : List A) → length (drop n xs) ≡ length xs - n
  length-drop zero xs = omega arith
  length-drop (suc n) [] = omega arith
  length-drop (suc n) (x ∷ xs) = omega (arith, length-drop n xs)

  pub All-append {κ} : (P : A → Type κ) (xs ys : List A) → All P xs → All P ys → All P (xs ++ ys)
  All-append P [] ys p q = q
  All-append P (x ∷ xs) ys p q = (p.0, All-append P xs ys p.1 q)

  pub All-mono {κ κ'} :
      (P : A → Type κ) (Q : A → Type κ') (xs : List A) → ((x : A) → P x → Q x) → All P xs → All Q xs
  All-mono P Q [] f p = tt
  All-mono P Q (x ∷ xs) f p = (f x p.0, All-mono P Q xs f p.1)

  pub All-map {κ μ} :
      {B : Type κ} (f : A → B) (P : B → Type μ) (xs : List A)
      → All (λ x. P (f x)) xs
      → All P (map f xs)
  All-map f P [] p = tt
  All-map f P (x ∷ xs) p = (p.0, All-map f P xs p.1)

  pub All-Unit : (xs : List A) → All (λ x. Unit {0}) xs
  All-Unit [] = tt
  All-Unit (x ∷ xs) = (tt, All-Unit xs)

  pub All-replicate {κ} : (P : A → Type κ) (n : ℕ) (a : A) → P a → All P (replicate n a)
  All-replicate P zero a p = tt
  All-replicate P (suc n) a p = (p, All-replicate P n a p)

module _ {A : Type 0} where
  pub All-∈ {κ} : (P : A → Type κ) (xs : List A) (x : A) → All P xs → x ∈ xs → P x
  All-∈ P (y ∷ ys) x p (inl e) = rw e p.0
  All-∈ P (y ∷ ys) x p (inr i) = All-∈ P ys x p.1 i
  All-∈ P [] x p i = absurd i

  pub ∈-append_left : (xs ys : List A) (x : A) → x ∈ xs → x ∈ (xs ++ ys)
  ∈-append_left (y ∷ xs) ys x (inl e) = inl e
  ∈-append_left (y ∷ xs) ys x (inr i) = inr (∈-append_left xs ys x i)
  ∈-append_left [] ys x i = absurd i

  pub ∈-append_right : (xs ys : List A) (x : A) → x ∈ ys → x ∈ (xs ++ ys)
  ∈-append_right [] ys x i = i
  ∈-append_right (y ∷ xs) ys x i = inr (∈-append_right xs ys x i)

  pub ∈-append_cases : (xs ys : List A) (x : A) → x ∈ (xs ++ ys) → (x ∈ xs) ⊎ (x ∈ ys)
  ∈-append_cases [] ys x i = inr i
  ∈-append_cases (y ∷ xs) ys x (inl e) = inl (inl e)
  ∈-append_cases (y ∷ xs) ys x (inr i) = elim (∈-append_cases xs ys x i) [
    | inl l ↦ inl (inr l)
    | inr r ↦ inr r
  ]

  pub Distinct-snoc : (xs : List A) (x : A) → Distinct xs → ¬ (x ∈ xs) → Distinct (xs ++ x ∷ [])
  Distinct-snoc [] x d n = ((λ i. i), tt)
  Distinct-snoc (y ∷ ys) x d n = (fresh, Distinct-snoc ys x d.1 (λ i. n (inr i)))
    where
      fresh : ¬ (y ∈ (ys ++ x ∷ []))
      fresh i = elim (∈-append_cases ys (x ∷ []) y i) [
        | inl j ↦ d.0 j
        | inr (inl p) ↦ n (inl (sym p))
        | inr (inr j) ↦ j
      ]

  All-weaken : (y : A) (xs ys : List A) → All (λ x. x ∈ ys) xs → All (λ x. x ∈ (y ∷ ys)) xs
  All-weaken y xs ys = All-mono (λ x. x ∈ ys) _ xs (λ x i. inr i)

  pub All-self : (xs : List A) → All (λ x. x ∈ xs) xs
  All-self [] = tt
  All-self (x ∷ xs) = (inl refl, All-weaken x xs xs (All-self xs))

-- The sum of the numbers in a list.
unfoldable pub sum : List ℕ → ℕ
sum [] = 0
sum (x ∷ xs) = x + sum xs

pub sum-cons : (x : ℕ) (xs : List ℕ) → sum (x ∷ xs) ≡ x + sum xs
unfolding sum
sum-cons x xs = refl

pub sum-nil : sum [] ≡ 0
unfolding sum
sum-nil = refl

pub sum-append : (xs ys : List ℕ) → sum (xs ++ ys) ≡ sum xs + sum ys
unfolding sum
sum-append [] ys = omega arith
sum-append (x ∷ xs) ys = omega (arith, sum-append xs ys)

pub sum-replicate : (n a : ℕ) → sum (replicate n a) ≡ n * a
unfolding sum
sum-replicate zero a = omega arith
sum-replicate (suc n) a = omega (arith, sum-replicate n a)
