-- ===== src/Prelude/Filters.antt =====
-- Lists that are filtered, searched and updated, seen through a key of their entries.
use mathlib.Core.Path.{◌≡◌, refl, sym, ap, ◌∙◌}
use mathlib.Core.Logic.{inl, inr}
use mathlib.Core.Bool.{Bool, true, false}
use mathlib.Core.List.{List, [], ◌∷◌, map}
use native.Mathlib.Omega.{arith}
use stu_mgmt_service.Prelude.Tests.{Bool-cases}
use stu_mgmt_service.Prelude.Lists.{◌∈◌, Distinct, All, any, filter_by, update_by}

module _ {A B : Type 0} (f : A → B) (p : A → Bool) where
  -- A key that every entry with it would have been found by is nowhere.
  pub any-false :
      (b : B) (xs : List A) → ((x : A) → b ≡ f x → p x ≡ true) → any p xs ≡ false → ¬ (b ∈ map f xs)
  any-false b [] hit e i = i
  any-false b (x ∷ xs) hit e (inl q) = let h = hit x q in ground arith
  any-false b (x ∷ xs) hit e (inr i) = any-false b xs hit (ground arith) i

  pub filter_mem : (b : B) (xs : List A) → b ∈ map f (filter_by p xs) → b ∈ map f xs
  filter_mem b [] i = i
  filter_mem b (x ∷ xs) i = elim (Bool-cases (p x)) [
    | inl e ↦ inside (filter_mem b xs) (rw e at i)
    | inr e ↦ inr (filter_mem b xs (rw e at i))
  ]
    where
      inside :
          (b ∈ map f (filter_by p xs) → b ∈ map f xs)
          → b ∈ (f x ∷ map f (filter_by p xs))
          → b ∈ (f x ∷ map f xs)
      inside rest (inl q) = inl q
      inside rest (inr j) = inr (rest j)

  pub Distinct-filter : (xs : List A) → Distinct (map f xs) → Distinct (map f (filter_by p xs))
  Distinct-filter [] d = tt
  Distinct-filter (x ∷ xs) d = elim (Bool-cases (p x)) [
    | inl e ↦ rw e ((λ i. d.0 (filter_mem (f x) xs i)), Distinct-filter xs d.1)
    | inr e ↦ rw e (Distinct-filter xs d.1)
  ]

  pub mem-filter :
      (b : B) (xs : List A)
      → ((x : A) → b ≡ f x → p x ≡ true)
      → b ∈ map f xs
      → b ∈ map f (filter_by p xs)
  mem-filter b [] hit i = i
  mem-filter b (x ∷ xs) hit (inl q) = rw (hit x q) (inl q)
  mem-filter b (x ∷ xs) hit (inr i) = elim (Bool-cases (p x)) [
    | inl e ↦ rw e (inr (mem-filter b xs hit i))
    | inr e ↦ rw e (mem-filter b xs hit i)
  ]

module _ {A : Type 0} (p : A → Bool) where
  pub any-All : (xs : List A) → any p xs ≡ false → All (λ x. p x ≡ false) xs
  any-All [] e = tt
  any-All (x ∷ xs) e = (ground arith, any-All xs (ground arith))

  pub All-filter :
      (P : A → Type 0) (xs : List A) → All P xs → All (λ x. P x × (p x ≡ true)) (filter_by p xs)
  All-filter P [] a = tt
  All-filter P (x ∷ xs) a = elim (Bool-cases (p x)) [
    | inl e ↦ rw e ((a.0, e), All-filter P xs a.1)
    | inr e ↦ rw e (All-filter P xs a.1)
  ]

module _ {A B C : Type 0} (id : A → B) (key : A → C) (p : A → Bool) (y : A) where
  -- An update that keeps a key of every entry it replaces.
  pub map-update_by :
      (xs : List A) → ((x : A) → p x ≡ true → id x ≡ id y) → map id (update_by p y xs) ≡ map id xs
  map-update_by [] same = refl
  map-update_by (x ∷ xs) same = elim (Bool-cases (p x)) [
    | inl e ↦ rw (e, same x e, map-update_by xs same)
    | inr e ↦ rw (e, map-update_by xs same)
  ]

  pub update_absent :
      (xs : List A)
      → ((x : A) → p x ≡ true → id x ≡ id y)
      → ¬ (id y ∈ map id xs)
      → update_by p y xs ≡ xs
  update_absent [] same n = refl
  update_absent (x ∷ xs) same n = elim (Bool-cases (p x)) [
    | inl e ↦ absurd (n (inl (sym (same x e))))
    | inr e ↦ rw (e, update_absent xs same (λ i. n (inr i)))
  ]

  update_mem :
      (c : C) (xs : List A) → c ∈ map key (update_by p y xs) → ¬ (c ≡ key y) → c ∈ map key xs
  update_mem c [] i n = i
  update_mem c (x ∷ xs) (inl q) n = elim (Bool-cases (p x)) [
    | inl e ↦ absurd (n (rw e at q))
    | inr e ↦ inl (rw e at q)
  ]
  update_mem c (x ∷ xs) (inr i) n = inr (update_mem c xs i n)

  -- Where no other entry has the new entry's second key, the second keys stay different.
  pub Distinct-update_by :
      (xs : List A)
      → ((x : A) → p x ≡ true → id x ≡ id y)
      → Distinct (map id xs)
      → Distinct (map key xs)
      → All (λ x. p x ≡ false → ¬ (key x ≡ key y)) xs
      → Distinct (map key (update_by p y xs))
  Distinct-update_by [] same d k a = tt
  Distinct-update_by (x ∷ xs) same d k a = elim (Bool-cases (p x)) [
    | inl e ↦
        let gone = update_absent xs same (λ i. d.0 (rw (same x e) i)) in
        rw (e, gone) (fresh xs (λ i. d.0 (rw (same x e) i)) a.1, k.1)
    | inr e ↦
        rw e ((λ i. k.0 (update_mem (key x) xs i (a.0 e))), Distinct-update_by xs same d.1 k.1 a.1)
  ]
    where
      fresh :
          (zs : List A)
          → ¬ (id y ∈ map id zs)
          → All (λ z. p z ≡ false → ¬ (key z ≡ key y)) zs
          → ¬ (key y ∈ map key zs)
      fresh [] n b i = i
      fresh (z ∷ zs) n b (inr i) = fresh zs (λ j. n (inr j)) b.1 i
      fresh (z ∷ zs) n b (inl q) = elim (Bool-cases (p z)) [
        | inl e ↦ n (inl (sym (same z e)))
        | inr e ↦ b.0 e (sym q)
      ]

-- Where keys are different, a key has one value.
module _ {A K V : Type 0} (key : A → K) (value : A → V) where
  key_of :
      (k : K) (v : V) (y : A) (xs : List A)
      → k ≡ key y
      → ◌∈◌ {A = K × V} (k, v) (map (λ x. (key x, value x)) xs)
      → key y ∈ map key xs
  key_of k v y [] e i = i
  key_of k v y (x ∷ xs) e (inl f) = inl (sym e ∙ ap (λ p. p.0) f)
  key_of k v y (x ∷ xs) e (inr i) = inr (key_of k v y xs e i)

  pub one_value :
      (k : K) (v w : V) (xs : List A)
      → Distinct (map key xs)
      → ◌∈◌ {A = K × V} (k, v) (map (λ x. (key x, value x)) xs)
      → ◌∈◌ {A = K × V} (k, w) (map (λ x. (key x, value x)) xs)
      → v ≡ w
  one_value k v w [] d i j = absurd i
  one_value k v w (x ∷ xs) d (inl e) (inl f) = ap (λ p. p.1) e ∙ sym (ap (λ p. p.1) f)
  one_value k v w (x ∷ xs) d (inl e) (inr j) = absurd (d.0 (key_of k w x xs (ap (λ p. p.0) e) j))
  one_value k v w (x ∷ xs) d (inr i) (inl f) = absurd (d.0 (key_of k v x xs (ap (λ p. p.0) f) i))
  one_value k v w (x ∷ xs) d (inr i) (inr j) = one_value k v w xs d.1 i j
