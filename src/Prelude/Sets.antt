-- ===== src/Prelude/Sets.antt =====
-- A JavaScript `Set`: its values in the order of insertion, compared with `===`.
use mathlib.Core.Path.{◌≡◌, refl, sym, ap, ◌∙◌}
use mathlib.Core.Logic.{◌⊎◌, inl, inr}
use mathlib.Core.Bool.{Bool, true, false, not, ◌||◌}
use mathlib.Core.List.{List, [], ◌∷◌, ◌++◌}
use Prim.Native.Nat.{suc, ◌≤◌}
use native.Mathlib.Omega.{arith}
use stu_mgmt_service.Prelude.Tests.{Eq, ◌===◌, ===_eq, ===_ne, ===_refl, Bool-cases, if◌then◌else◌}
use stu_mgmt_service.Prelude.Lists.{
  length, ◌∈◌, Distinct, Distinct-snoc, All, filter_by, ∈-append_left, ∈-append_right,
  ∈-append_cases, All-∈,
}

module _ {A : Type 0} ⦃eq : Eq A⦄ where
  unfoldable pub has : A → List A → Bool
  has x [] = false
  has x (y ∷ ys) = x === y || has x ys

  unfoldable pub delete : A → List A → List A
  delete x xs = filter_by (λ y. not (x === y)) xs

  -- `new Set(xs)`
  unfoldable pub to_set : List A → List A
  unfolding delete
  to_set [] = []
  to_set (x ∷ xs) = x ∷ delete x (to_set xs)

  -- `set.add(x)`
  unfoldable pub set_add : A → List A → List A
  unfolding has
  set_add x xs = if has x xs then xs else xs ++ x ∷ []

  pub delete-cons :
      (x y : A) (ys : List A)
      → delete x (y ∷ ys) ≡ (if x === y then delete x ys else y ∷ delete x ys)
  unfolding delete
  delete-cons x y ys = elim (Bool-cases (x === y)) [ inl e ↦ rw e | inr e ↦ rw e ]

  pub delete-to_set-nil : (x : A) → delete x (to_set []) ≡ []
  unfolding delete to_set
  delete-to_set-nil x = refl

  pub to_set-cons : (x : A) (xs : List A) → to_set (x ∷ xs) ≡ x ∷ delete x (to_set xs)
  unfolding to_set
  to_set-cons x xs = refl

  pub has→∈ : (x : A) (xs : List A) → has x xs ≡ true → x ∈ xs
  unfolding has
  has→∈ x [] h = cc
  has→∈ x (y ∷ ys) h = elim (Bool-cases (x === y)) [
    | inl e ↦ inl (===_eq x y e)
    | inr e ↦ inr (has→∈ x ys (rw e at h))
  ]

  pub has-false : (x : A) (xs : List A) → has x xs ≡ false → ¬ (x ∈ xs)
  unfolding has
  has-false x [] h i = i
  has-false x (y ∷ ys) h (inl e) = ground (arith, ===_ne x y)
  has-false x (y ∷ ys) h (inr i) = has-false x ys (ground arith) i

  pub delete_mem : (x y : A) (xs : List A) → y ∈ delete x xs → (y ∈ xs) × ¬ (x ≡ y)
  unfolding delete
  delete_mem x y [] i = absurd i
  delete_mem x y (z ∷ zs) i = elim (Bool-cases (x === z)) [
    | inl e ↦ let (m, n) = delete_mem x y zs (rw e at i) in (inr m, n)
    | inr e ↦ in_tail e (delete_mem x y zs) (rw e at i)
  ]
    where
      in_tail :
          (x === z) ≡ false
          → (y ∈ delete x zs → (y ∈ zs) × ¬ (x ≡ y))
          → y ∈ (z ∷ delete x zs)
          → (y ∈ (z ∷ zs)) × ¬ (x ≡ y)
      in_tail e rest (inl p) = (inl p, λ q. ===_ne x z e (q ∙ p))
      in_tail e rest (inr j) = let (m, n) = rest j in (inr m, n)

  pub mem-delete : (x y : A) (xs : List A) → y ∈ xs → ¬ (x ≡ y) → y ∈ delete x xs
  unfolding delete
  mem-delete x y [] i n = absurd i
  mem-delete x y (z ∷ zs) (inl p) n = elim (Bool-cases (x === z)) [
    | inl e ↦ absurd (n (===_eq x z e ∙ sym p))
    | inr e ↦ rw e (inl p)
  ]
  mem-delete x y (z ∷ zs) (inr j) n = elim (Bool-cases (x === z)) [
    | inl e ↦ rw e (mem-delete x y zs j n)
    | inr e ↦ rw e (inr (mem-delete x y zs j n))
  ]

  pub delete-Distinct : (x : A) (xs : List A) → Distinct xs → Distinct (delete x xs)
  unfolding delete
  delete-Distinct x [] d = tt
  delete-Distinct x (z ∷ zs) d = elim (Bool-cases (x === z)) [
    | inl e ↦ rw e (delete-Distinct x zs d.1)
    | inr e ↦ rw e ((λ i. d.0 (delete_mem x z zs i).0), delete-Distinct x zs d.1)
  ]

  pub delete_absent : (x : A) (xs : List A) → ¬ (x ∈ xs) → delete x xs ≡ xs
  unfolding delete
  delete_absent x [] n = refl
  delete_absent x (z ∷ zs) n = elim (Bool-cases (x === z)) [
    | inl e ↦ absurd (n (inl (===_eq x z e)))
    | inr e ↦ rw (e, delete_absent x zs (λ i. n (inr i)))
  ]

  pub length-delete :
      (x : A) (xs : List A) → Distinct xs → x ∈ xs → suc (length (delete x xs)) ≡ length xs
  unfolding delete
  length-delete x [] d i = absurd i
  length-delete x (z ∷ zs) d (inl e) =
      let same : (x === z) ≡ true = rw e (===_refl z) in
      rw (same, delete_absent x zs (λ i. d.0 (rw e at i)))
  length-delete x (z ∷ zs) d (inr i) = elim (Bool-cases (x === z)) [
    | inl e ↦ absurd (d.0 (rw (===_eq x z e) at i))
    | inr e ↦ rw e (ap suc (length-delete x zs d.1 i))
  ]

  pub to_set-Distinct : (xs : List A) → Distinct (to_set xs)
  unfolding to_set
  to_set-Distinct [] = tt
  to_set-Distinct (x ∷ xs) = (
    (λ i. (delete_mem x x (to_set xs) i).1 refl),
    delete-Distinct x (to_set xs) (to_set-Distinct xs),
  )

  pub to_set_mem : (x : A) (xs : List A) → x ∈ to_set xs → x ∈ xs
  unfolding to_set
  to_set_mem x [] i = i
  to_set_mem x (y ∷ ys) (inl e) = inl e
  to_set_mem x (y ∷ ys) (inr i) = inr (to_set_mem x ys (delete_mem y x (to_set ys) i).0)

  pub mem-to_set : (x : A) (xs : List A) → x ∈ xs → x ∈ to_set xs
  unfolding to_set
  mem-to_set x [] i = i
  mem-to_set x (y ∷ ys) (inl e) = inl e
  mem-to_set x (y ∷ ys) (inr i) = elim (Bool-cases (y === x)) [
    | inl e ↦ inl (sym (===_eq y x e))
    | inr e ↦ inr (mem-delete y x (to_set ys) (mem-to_set x ys i) (===_ne y x e))
  ]

  -- Different ids that all stand in a set are at most as many as the set has.
  pub Distinct-length :
      (xs ys : List A) → Distinct xs → Distinct ys → All (λ x. x ∈ ys) xs → length xs ≤ length ys
  Distinct-length [] ys d e s = omega arith
  Distinct-length (x ∷ xs) ys d e s =
      let rest =
        Distinct-length xs (delete x ys) d.1 (delete-Distinct x ys e) (All-keep xs d.0 s.1) in
      omega (arith, rest, length-delete x ys e s.0)
    where
      All-keep : (zs : List A) → ¬ (x ∈ zs) → All (λ z. z ∈ ys) zs → All (λ z. z ∈ delete x ys) zs
      All-keep [] n a = tt
      All-keep (z ∷ zs) n a =
          (mem-delete x z ys a.0 (λ p. n (inl p)), All-keep zs (λ i. n (inr i)) a.1)

  pub set_add_mem : (x y : A) (xs : List A) → y ∈ set_add x xs → (y ≡ x) ⊎ (y ∈ xs)
  unfolding set_add
  set_add_mem x y xs i = elim (Bool-cases (has x xs)) [
    | inl h ↦ inr (rw h at i)
    | inr h ↦ last (∈-append_cases xs (x ∷ []) y (rw h at i))
  ]
    where
      last : (y ∈ xs) ⊎ (y ∈ (x ∷ [])) → (y ≡ x) ⊎ (y ∈ xs)
      last (inl j) = inr j
      last (inr (inl p)) = inl p
      last (inr (inr j)) = absurd j

  pub mem-set_add_self : (x : A) (xs : List A) → x ∈ set_add x xs
  unfolding set_add
  mem-set_add_self x xs = elim (Bool-cases (has x xs)) [
    | inl h ↦ rw h (has→∈ x xs h)
    | inr h ↦ rw h (∈-append_right xs (x ∷ []) x (inl refl))
  ]

  pub mem-set_add : (x y : A) (xs : List A) → y ∈ xs → y ∈ set_add x xs
  unfolding set_add
  mem-set_add x y xs i = elim (Bool-cases (has x xs)) [
    | inl h ↦ rw h i
    | inr h ↦ rw h (∈-append_left xs (x ∷ []) y i)
  ]

  -- A new value may stand anywhere.
  pub Distinct-middle :
      (xs ys : List A) (x : A) → Distinct (xs ++ ys) → ¬ (x ∈ (xs ++ ys)) → Distinct (xs ++ x ∷ ys)
  Distinct-middle [] ys x d n = (n, d)
  Distinct-middle (z ∷ zs) ys x d n = (fresh, Distinct-middle zs ys x d.1 (λ i. n (inr i)))
    where
      fresh : ¬ (z ∈ (zs ++ x ∷ ys))
      fresh i = elim (∈-append_cases zs (x ∷ ys) z i) [
        | inl j ↦ d.0 (∈-append_left zs ys z j)
        | inr (inl p) ↦ n (inl (sym p))
        | inr (inr j) ↦ d.0 (∈-append_right zs ys z j)
      ]

  pub Distinct-left : (xs ys : List A) → Distinct (xs ++ ys) → Distinct xs
  Distinct-left [] ys d = tt
  Distinct-left (x ∷ xs) ys d = ((λ i. d.0 (∈-append_left xs ys x i)), Distinct-left xs ys d.1)

  pub Distinct-right : (xs ys : List A) → Distinct (xs ++ ys) → Distinct ys
  Distinct-right [] ys d = d
  Distinct-right (x ∷ xs) ys d = Distinct-right xs ys d.1

  -- The right half may be replaced by other values from it.
  pub Distinct-replace :
      (xs ys zs : List A)
      → Distinct (xs ++ ys)
      → Distinct zs
      → All (λ z. z ∈ ys) zs
      → Distinct (xs ++ zs)
  Distinct-replace [] ys zs d e a = e
  Distinct-replace (x ∷ xs) ys zs d e a = (fresh, Distinct-replace xs ys zs d.1 e a)
    where
      fresh : ¬ (x ∈ (xs ++ zs))
      fresh i = elim (∈-append_cases xs zs x i) [
        | inl j ↦ d.0 (∈-append_left xs ys x j)
        | inr j ↦ d.0 (∈-append_right xs ys x (All-∈ (λ z. z ∈ ys) zs x a j))
      ]

  pub set_add-Distinct : (x : A) (xs : List A) → Distinct xs → Distinct (set_add x xs)
  unfolding set_add
  set_add-Distinct x xs d = elim (Bool-cases (has x xs)) [
    | inl h ↦ rw h d
    | inr h ↦ rw h (Distinct-snoc xs x d (has-false x xs h))
  ]

  All-mem : (xs ys : List A) → ((x : A) → x ∈ xs → x ∈ ys) → All (λ x. x ∈ ys) xs
  All-mem [] ys f = tt
  All-mem (x ∷ xs) ys f = (f x (inl refl), All-mem xs ys (λ y i. f y (inr i)))

  -- Two sets with the same values have the same size.
  pub same_size :
      (xs ys : List A)
      → Distinct xs
      → Distinct ys
      → ((x : A) → x ∈ xs → x ∈ ys)
      → ((x : A) → x ∈ ys → x ∈ xs)
      → length xs ≡ length ys
  same_size xs ys d e f g = omega (
    arith,
    Distinct-length xs ys d e (All-mem xs ys f),
    Distinct-length ys xs e d (All-mem ys xs g),
  )
