-- ===== src/Merge/Activity/Split.antt =====
-- `splitGroupsByValidity` puts each group into one list, and loses only empty groups.
use mathlib.Core.List.{perm_middle, append_assoc}
use mathlib.Core.List.Perm
use stu_mgmt_service.Prelude.{
  ℕ, ◌≤◌, ◌<◌, ◌≡◌, sym, inl, inr, List, [], ◌∷◌, ◌++◌, arith, length, ltb, ◌==◌, ltb→lt, ltb→le,
  ==_iff, Bool-cases, All, Perm,
}
use stu_mgmt_service.Merge.Groups.{
  SimpleGroup, GroupsByValidity, classify, split_groups_by_validity,
}

-- The three ways in which the loop treats a group.
data Kind (min_size : ℕ) (g : SimpleGroup) (r : GroupsByValidity) : Type 0 where
  empty :
      length g.members ≡ 0
      → classify min_size g r ≡ record r { empty_groups = g ∷ r.empty_groups }
      → Kind min_size g r
  invalid :
      0 < length g.members
      → length g.members < min_size
      → classify min_size g r ≡ record r { invalid_groups = g ∷ r.invalid_groups }
      → Kind min_size g r
  valid :
      0 < length g.members
      → min_size ≤ length g.members
      → classify min_size g r ≡ record r { valid_groups = g ∷ r.valid_groups }
      → Kind min_size g r

kind : (min_size : ℕ) (g : SimpleGroup) (r : GroupsByValidity) → Kind min_size g r
unfolding classify
kind min_size g r = elim (Bool-cases (length g.members == 0)) [
  | inl e ↦ empty ((==_iff _ 0).0 e) (rw e)
  | inr e ↦ elim (Bool-cases (ltb (length g.members) min_size)) [
    | inl l ↦ invalid (ground arith) (ltb→lt _ _ l) (rw (e, l))
    | inr l ↦ valid (ground arith) (ltb→le _ _ l) (rw (e, l))
  ]
]

-- What the lists hold.
pub record IsSplitBy (min_size : ℕ) (groups : List SimpleGroup) (r : GroupsByValidity)
    : Type 0 where
  pub all_placed : Perm (r.valid_groups ++ (r.invalid_groups ++ r.empty_groups)) groups
  pub valid_ok : All (λ g. min_size ≤ length g.members) r.valid_groups
  pub invalid_ok :
      All (λ g. (0 < length g.members) × (length g.members < min_size)) r.invalid_groups
  pub empty_ok : All (λ g. length g.members ≡ 0) r.empty_groups

classify-IsSplitBy :
    (min_size : ℕ) (g : SimpleGroup) (gs : List SimpleGroup) (r : GroupsByValidity)
    → IsSplitBy min_size gs r
    → IsSplitBy min_size (g ∷ gs) (classify min_size g r)
classify-IsSplitBy min_size g gs r s = elim (kind min_size g r) [
  | empty z e ↦ rw e (record {
    all_placed =
        Perm.trans (perm_in r.valid_groups r.invalid_groups r.empty_groups g)
          (Perm.cons g s.all_placed);
    valid_ok = s.valid_ok;
    invalid_ok = s.invalid_ok;
    empty_ok = (z, s.empty_ok);
  })
  | invalid p l e ↦ rw e (record {
    all_placed =
        Perm.trans (perm_middle r.valid_groups (r.invalid_groups ++ r.empty_groups))
          (Perm.cons g s.all_placed);
    valid_ok = s.valid_ok;
    invalid_ok = ((p, l), s.invalid_ok);
    empty_ok = s.empty_ok;
  })
  | valid p l e ↦ rw e (record {
    all_placed = Perm.cons g s.all_placed;
    valid_ok = (l, s.valid_ok);
    invalid_ok = s.invalid_ok;
    empty_ok = s.empty_ok;
  })
]
  where
    perm_in :
        (xs ys zs : List SimpleGroup) (x : SimpleGroup)
        → Perm (xs ++ (ys ++ x ∷ zs)) (x ∷ xs ++ (ys ++ zs))
    perm_in xs ys zs x =
        rw (sym (append_assoc xs ys (x ∷ zs)), sym (append_assoc xs ys zs))
          (perm_middle (xs ++ ys) zs)

-- Each group goes into exactly one of the lists, by its size: none is lost or taken twice.
pub split_groups_by_validity-IsSplitBy :
    (groups : List SimpleGroup) (min_size : ℕ)
    → IsSplitBy min_size groups (split_groups_by_validity groups min_size)
unfolding split_groups_by_validity
split_groups_by_validity-IsSplitBy [] min_size = record {
  all_placed = Perm.nil;
  valid_ok = tt;
  invalid_ok = tt;
  empty_ok = tt;
}
split_groups_by_validity-IsSplitBy (g ∷ gs) min_size =
    classify-IsSplitBy min_size g gs (split_groups_by_validity gs min_size)
      (split_groups_by_validity-IsSplitBy gs min_size)
