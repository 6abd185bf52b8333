-- ===== src/Prelude/Perms.antt =====
-- What rearranging a list keeps.
use mathlib.Core.Path.{sym, subst, ◌∙◌}
use mathlib.Core.Logic.{inl, inr, ∥∥₁_elim}
use mathlib.Core.HLevel.{⊥_prop}
use mathlib.Core.HLevel.{Unit-prop, ¬_prop, ×_prop}
use mathlib.Core.List.{List, [], ◌∷◌, Perm, Permᴰ}
use mathlib.Core.List.Perm
use stu_mgmt_service.Prelude.Lists.{◌∈◌, Distinct}
use stu_mgmt_service.Prelude.Tests.{Eq, Bool-cases}
use stu_mgmt_service.Prelude.Sets.{has, has→∈, has-false}

module _ {A : Type 0} where
  Distinct-prop : (xs : List A) → IsProp (Distinct xs)
  Distinct-prop [] = Unit-prop
  Distinct-prop (x ∷ xs) = ×_prop ¬_prop (Distinct-prop xs)

  ∈-Permᴰ : (x : A) {xs ys : List A} → Permᴰ ys xs → x ∈ xs → x ∈ ys
  ∈-Permᴰ x Permᴰ.nil i = i
  ∈-Permᴰ x (Permᴰ.cons e p) (inl q) = inl (q ∙ sym e)
  ∈-Permᴰ x (Permᴰ.cons e p) (inr i) = inr (∈-Permᴰ x p i)
  ∈-Permᴰ x (Permᴰ.swap e f) (inl q) = inr (inl (q ∙ sym f))
  ∈-Permᴰ x (Permᴰ.swap e f) (inr (inl q)) = inl (q ∙ sym e)
  ∈-Permᴰ x (Permᴰ.swap e f) (inr (inr i)) = inr (inr i)
  ∈-Permᴰ x (Permᴰ.trans p q) i = ∈-Permᴰ x p (∈-Permᴰ x q i)

  Distinct-Permᴰ : {xs ys : List A} → Permᴰ xs ys → Distinct xs → Distinct ys
  Distinct-Permᴰ Permᴰ.nil d = d
  Distinct-Permᴰ (Permᴰ.cons {b} e p) d = ((λ i. d.0 (rw e (∈-Permᴰ b p i))), Distinct-Permᴰ p d.1)
  Distinct-Permᴰ (Permᴰ.swap {a} {b} {a'} {b'} {l} e f) d =
      (fresh, ((λ i. d.0 (inr (subst (λ x. x ∈ l) (sym e) i))), d.1.1))
    where
      fresh : ¬ (a' ∈ (b' ∷ l))
      fresh (inl q) = d.0 (inl (e ∙ sym q ∙ sym f))
      fresh (inr i) = d.1.0 (subst (λ x. x ∈ l) (sym f) i)
  Distinct-Permᴰ (Permᴰ.trans p q) d = Distinct-Permᴰ q (Distinct-Permᴰ p d)

  pub Distinct-perm : (xs ys : List A) → Perm xs ys → Distinct xs → Distinct ys
  Distinct-perm xs ys p d = ∥∥₁_elim p (Distinct-prop ys) (λ q. Distinct-Permᴰ q d)

module _ {A : Type 0} ⦃eq : Eq A⦄ where
  pub ∈-perm : (x : A) (xs ys : List A) → Perm xs ys → x ∈ xs → x ∈ ys
  ∈-perm x xs ys p i = elim (Bool-cases (has x ys)) [
    | inl h ↦ has→∈ x ys h
    | inr h ↦ absurd (∥∥₁_elim (Perm.symm p) ⊥_prop (λ q. has-false x ys h (∈-Permᴰ x q i)))
  ]
