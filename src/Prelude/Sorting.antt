-- ===== src/Prelude/Sorting.antt =====
-- `Array.prototype.sort` with a comparator: a stable sort, here by insertion.
-- A comparator's negative, zero and positive numbers are `lt`, `eq` and `gt`.
use Prim.Native.Nat.{ℕ, suc, ◌+◌, Ordering}
use mathlib.Core.Path.{◌≡◌, refl}
use mathlib.Core.Logic.{inl, inr}
use mathlib.Core.List.{List, [], ◌∷◌, Perm, map}
use mathlib.Core.List.Perm
use mathlib.Core.Bool.{Bool, true, false}
use native.Mathlib.Omega.{arith}
use stu_mgmt_service.Prelude.Tests.{Bool-cases, if◌then◌else◌}
use stu_mgmt_service.Prelude.Lists.{length, sum, sum-cons, All, ◌∈◌}

abbrev pub is_gt : Ordering → Bool
is_gt o = elim o [ Ordering.gt ↦ true | _ ↦ false ]

module _ {ℓ} {A : Type ℓ} (cmp : A → A → Ordering) where
  insert_sorted : A → List A → List A
  insert_sorted x [] = x ∷ []
  insert_sorted x (y ∷ ys) =
      let later = y ∷ insert_sorted x ys in if is_gt (cmp x y) then later else x ∷ y ∷ ys

  unfoldable pub sort : List A → List A
  unfolding insert_sorted
  sort [] = []
  sort (x ∷ xs) = insert_sorted x (sort xs)

  insert_sorted-perm : (x : A) (xs : List A) → Perm (insert_sorted x xs) (x ∷ xs)
  unfolding insert_sorted
  insert_sorted-perm x [] = Perm.rfl
  insert_sorted-perm x (y ∷ ys) = elim (Bool-cases (is_gt (cmp x y))) [
    | inl e ↦ rw e (Perm.trans (Perm.cons y (insert_sorted-perm x ys)) (Perm.swap x y ys))
    | inr e ↦ rw e Perm.rfl
  ]

  pub sort-perm : (xs : List A) → Perm (sort xs) xs
  unfolding sort
  sort-perm [] = Perm.rfl
  sort-perm (x ∷ xs) = Perm.trans (insert_sorted-perm x (sort xs)) (Perm.cons x (sort-perm xs))

  -- `x` may stand before `y`.
  abbrev pub MayPrecede : A → A → Type 0
  MayPrecede x y = is_gt (cmp x y) ≡ false

  -- Each entry may stand before all the later ones.
  abbrev pub IsSorted : List A → Type 0
  IsSorted [] = Unit
  IsSorted (x ∷ xs) = All (MayPrecede x) xs × IsSorted xs

  insert_sorted-All :
      (P : A → Type 0) (x : A) (xs : List A) → P x → All P xs → All P (insert_sorted x xs)
  unfolding insert_sorted
  insert_sorted-All P x [] p q = (p, tt)
  insert_sorted-All P x (y ∷ ys) p q = elim (Bool-cases (is_gt (cmp x y))) [
    | inl e ↦ rw e (q.0, insert_sorted-All P x ys p q.1)
    | inr e ↦ rw e (p, q)
  ]

  pub sort-All : (P : A → Type 0) (xs : List A) → All P xs → All P (sort xs)
  unfolding sort
  sort-All P [] q = tt
  sort-All P (x ∷ xs) q = insert_sorted-All P x (sort xs) q.0 (sort-All P xs q.1)

  All-insert_sorted :
      (P : A → Type 0) (x : A) (xs : List A) → All P (insert_sorted x xs) → P x × All P xs
  unfolding insert_sorted
  All-insert_sorted P x [] q = q
  All-insert_sorted P x (y ∷ ys) q = elim (Bool-cases (is_gt (cmp x y))) [
    | inl e ↦ let r = rw e at q in let (p, rest) = All-insert_sorted P x ys r.1 in (p, (r.0, rest))
    | inr e ↦ rw e at q
  ]

  pub All-sort : (P : A → Type 0) (xs : List A) → All P (sort xs) → All P xs
  unfolding sort
  All-sort P [] q = tt
  All-sort P (x ∷ xs) q =
      let (p, rest) = All-insert_sorted P x (sort xs) q in (p, All-sort P xs rest)

  -- What the language asks of a comparator, on the entries that satisfy `P`: the order is total
  -- and transitive.
  pub record IsConsistent (P : A → Type 0) : Type ℓ where
    pub antisymm : (x y : A) → P x → P y → is_gt (cmp x y) ≡ true → MayPrecede y x
    pub trans : (x y z : A) → P x → P y → P z → MayPrecede x y → MayPrecede y z → MayPrecede x z

module _ {ℓ} {A : Type ℓ} {cmp : A → A → Ordering} {P : A → Type 0} (c : IsConsistent cmp P) where
  MayPrecede-All :
      (x y : A) (ys : List A)
      → P x
      → P y
      → All P ys
      → MayPrecede cmp x y
      → All (MayPrecede cmp y) ys
      → All (MayPrecede cmp x) ys
  MayPrecede-All x y [] px py ps h a = tt
  MayPrecede-All x y (z ∷ zs) px py ps h a =
      (c.trans x y z px py ps.0 h a.0, MayPrecede-All x y zs px py ps.1 h a.1)

  insert_sorted-IsSorted :
      (x : A) (xs : List A)
      → P x
      → All P xs
      → IsSorted cmp xs
      → IsSorted cmp (insert_sorted cmp x xs)
  unfolding insert_sorted
  insert_sorted-IsSorted x [] px ps s = (tt, tt)
  insert_sorted-IsSorted x (y ∷ ys) px ps s = elim (Bool-cases (is_gt (cmp x y))) [
    | inl e ↦ rw e (
      insert_sorted-All cmp (MayPrecede cmp y) x ys (c.antisymm x y px ps.0 e) s.0,
      insert_sorted-IsSorted x ys px ps.1 s.1,
    )
    | inr e ↦ rw e ((e, MayPrecede-All x y ys px ps.0 ps.1 e s.0), s)
  ]

  -- Under a consistent comparator the result is in order.
  pub sort-IsSorted : (xs : List A) → All P xs → IsSorted cmp (sort cmp xs)
  unfolding sort
  sort-IsSorted [] ps = tt
  sort-IsSorted (x ∷ xs) ps =
      insert_sorted-IsSorted x (sort cmp xs) ps.0 (sort-All cmp P xs ps.1) (sort-IsSorted xs ps.1)

module _ {ℓ} {A : Type ℓ} (cmp : A → A → Ordering) where
  length-insert_sorted : (x : A) (xs : List A) → length (insert_sorted cmp x xs) ≡ suc (length xs)
  unfolding insert_sorted
  length-insert_sorted x [] = refl
  length-insert_sorted x (y ∷ ys) = ground (arith, length-insert_sorted x ys)

  pub length-sort : (xs : List A) → length (sort cmp xs) ≡ length xs
  unfolding sort
  length-sort [] = refl
  length-sort (x ∷ xs) = omega (arith, length-insert_sorted x (sort cmp xs), length-sort xs)

module _ {ℓ} {A : Type ℓ} {B : Type 0} (f : A → B) (cmp : A → A → Ordering) where
  mem-map-insert_sorted :
      (b : B) (x : A) (xs : List A) → b ∈ map f (x ∷ xs) → b ∈ map f (insert_sorted cmp x xs)
  unfolding insert_sorted
  mem-map-insert_sorted b x [] i = i
  mem-map-insert_sorted b x (y ∷ ys) i = elim (Bool-cases (is_gt (cmp x y))) [
    | inl e ↦ rw e (later i (mem-map-insert_sorted b x ys))
    | inr e ↦ rw e i
  ]
    where
      later :
          b ∈ map f (x ∷ y ∷ ys)
          → (b ∈ map f (x ∷ ys) → b ∈ map f (insert_sorted cmp x ys))
          → b ∈ map f (y ∷ insert_sorted cmp x ys)
      later (inl p) rest = inr (rest (inl p))
      later (inr (inl p)) rest = inl p
      later (inr (inr j)) rest = inr (rest (inr j))

  -- Sorting loses no value.
  pub mem-map-sort : (b : B) (xs : List A) → b ∈ map f xs → b ∈ map f (sort cmp xs)
  unfolding sort
  mem-map-sort b [] i = i
  mem-map-sort b (x ∷ xs) i = mem-map-insert_sorted b x (sort cmp xs) (inside i (mem-map-sort b xs))
    where
      inside :
          b ∈ map f (x ∷ xs)
          → (b ∈ map f xs → b ∈ map f (sort cmp xs))
          → b ∈ map f (x ∷ sort cmp xs)
      inside (inl p) rest = inl p
      inside (inr j) rest = inr (rest j)

sum-insert_sorted :
    (cmp : ℕ → ℕ → Ordering) (x : ℕ) (xs : List ℕ) → sum (insert_sorted cmp x xs) ≡ x + sum xs
unfolding insert_sorted
sum-insert_sorted cmp x [] = sum-cons x []
sum-insert_sorted cmp x (y ∷ ys) = ground (
  arith,
  sum-insert_sorted cmp x ys,
  sum-cons y ys,
  sum-cons y (insert_sorted cmp x ys),
  sum-cons x (y ∷ ys),
)

pub sum-sort : (cmp : ℕ → ℕ → Ordering) (xs : List ℕ) → sum (sort cmp xs) ≡ sum xs
unfolding sort
sum-sort cmp [] = refl
sum-sort cmp (x ∷ xs) =
    omega (arith, sum-insert_sorted cmp x (sort cmp xs), sum-sort cmp xs, sum-cons x xs)
