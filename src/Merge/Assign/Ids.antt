-- ===== src/Merge/Assign/Ids.antt =====
-- How the loop of `mergeInvalidGroups` spends the ids of the students.
use mathlib.Core.Option.{some-injective}
use stu_mgmt_service.Prelude.{
  has, delete, has→∈, delete_mem, delete-Distinct, length-delete, ℕ, zero, suc, ◌+◌, ◌≡◌, refl, ap,
  ◌⊎◌, inl, inr, true, List, [], ◌∷◌, ◌++◌, map, some, arith, length, get_elem?, ◌===◌, ===_eq,
  string_eq, option_eq, ◌∈◌, Distinct, All, All-mono, Bool-cases, Option-cases, if◌then◌else◌,
  >>=-eq-some, none-ne-some, All-∈, All-self,
}
use stu_mgmt_service.Merge.Groups.{GroupId, Member, SimpleGroup}
use stu_mgmt_service.Merge.Assign.{requires_id, find_id, pick_members, place}

abbrev pub ids_of : List SimpleGroup → List GroupId
ids_of = map (λ g. g.id)

-- The ids that are not the sentinel.
pub named_ids : List SimpleGroup → List GroupId
named_ids [] = []
named_ids (g ∷ gs) = let rest = named_ids gs in if g.id === requires_id then rest else g.id ∷ rest

pub unnamed : List SimpleGroup → ℕ
unnamed [] = 0
unnamed (g ∷ gs) = let rest = unnamed gs in if g.id === requires_id then suc rest else rest

pub unnamed-named : (gs : List SimpleGroup) → length (named_ids gs) + unnamed gs ≡ length gs
unfolding named_ids unnamed
unnamed-named [] = omega arith
unnamed-named (g ∷ gs) = ground (arith, unnamed-named gs)

module _ (g : SimpleGroup) (gs : List SimpleGroup) where
  pub named_ids_skip : g.id ≡ requires_id → named_ids (g ∷ gs) ≡ named_ids gs
  unfolding named_ids
  named_ids_skip e =
      let same : (g.id === requires_id) ≡ true = (option_eq.beq_iff g.id requires_id).1 e in rw same

  pub named_ids_keep : ¬ (g.id ≡ requires_id) → named_ids (g ∷ gs) ≡ g.id ∷ named_ids gs
  unfolding named_ids
  named_ids_keep n = elim (Bool-cases (g.id === requires_id)) [
    | inl e ↦ absurd (n (===_eq g.id requires_id e))
    | inr e ↦ rw e
  ]

-- What a search for an id leaves.
abbrev Found : List GroupId → GroupId × List GroupId → Type 0
Found available r =
    ((r.0 ≡ requires_id) × (r.1 ≡ available)) ⊎ ((r.0 ∈ available) × (r.1 ≡ delete r.0 available))

-- How `place` spends the ids that are available.
pub record Allotment (available : List GroupId) (r : List SimpleGroup × List GroupId) : Type 0 where
  pub apart : Distinct (named_ids r.0 ++ r.1)
  pub taken : All (λ x. x ∈ available) (named_ids r.0 ++ r.1)
  pub count : length (named_ids r.0) + length r.1 ≡ length available

cons-Allotment :
    (available : List GroupId) (g : SimpleGroup) (r : List SimpleGroup × List GroupId)
    (left : List GroupId)
    → Distinct available
    → ¬ (requires_id ∈ available)
    → Found available (g.id, left)
    → Allotment left r
    → Allotment available (g ∷ r.0, r.1)
cons-Allotment available g r left d n (inl (e, same)) a =
    let skip = named_ids_skip g r.0 e in
    record {
      apart = rw skip a.apart;
      taken = rw (skip, ← same) a.taken;
      count = rw (skip, ← same) a.count;
    }
cons-Allotment available g r left d n (inr (i, same)) a =
    let keep = named_ids_keep g r.0 (λ e. n (rw e at i)) in
    let taken' : All (λ x. x ∈ delete g.id available) (named_ids r.0 ++ r.1) = rw same at a.taken in
    record {
      apart = rw keep (fresh, a.apart);
      taken = rw keep (
        i,
        All-mono (λ x. x ∈ delete g.id available) _ (named_ids r.0 ++ r.1)
            (λ x j. (delete_mem g.id x available j).0) taken',
      );
      count = rw keep (omega (arith, a.count, ap length same, length-delete g.id available d i));
    }
  where
    fresh : ¬ (g.id ∈ (named_ids r.0 ++ r.1))
    fresh j =
        (delete_mem g.id g.id available (rw same at (All-∈ (λ x. x ∈ left) _ g.id a.taken j))).1
          refl

module _ (students : List Member) where
  find_id-Found :
      (count i : ℕ) (available : List GroupId) (r : GroupId × List GroupId)
      → find_id students count i available ≡ some r
      → Found available r
  unfolding find_id
  find_id-Found zero i available r e = inl (ground arith)
  find_id-Found (suc count) i available r e = elim (Option-cases (get_elem? students i)) [
    | inl p ↦ absurd (none-ne-some (rw p at e))
    | inr (student, p) ↦ elim (Bool-cases (has student.group_id available)) [
      | inl h ↦ rw (← some-injective _ _ (rw (p, h) at e)) (inr (has→∈ _ available h, refl))
      | inr h ↦ find_id-Found count (suc i) available r (rw (p, h) at e)
    ]
  ]

  Found-left :
      (available : List GroupId) (r : GroupId × List GroupId)
      → Distinct available
      → ¬ (requires_id ∈ available)
      → Found available r
      → Distinct r.1 × ¬ (requires_id ∈ r.1)
  Found-left available r d n (inl (e, same)) = rw same (d, n)
  Found-left available r d n (inr (i, same)) =
      rw same (delete-Distinct r.0 available d, (λ j. n (delete_mem r.0 requires_id available j).0))

  pub place-Allotment :
      (sizes : List ℕ) (first : ℕ) (available : List GroupId) (r : List SimpleGroup × List GroupId)
      → place students sizes first available ≡ some r
      → Distinct available
      → ¬ (requires_id ∈ available)
      → Allotment available r × (length r.0 ≡ length sizes)
  unfolding place named_ids
  place-Allotment [] first available r e d n =
      let same = some-injective _ _ e in
      rw (← same) (record { apart = d; taken = All-self available; count = omega arith }, refl)
  place-Allotment (size ∷ sizes) first available r e d n =
      let (found, p, e₁) = >>=-eq-some (find_id students size first available) _ e in
      let (picked, q, e₂) = >>=-eq-some (pick_members students size first) _ e₁ in
      let (rest, t, e₃) = >>=-eq-some (place students sizes (first + size) found.1) _ e₂ in
      let f = find_id-Found size first available found p in
      let (d', n') = Found-left available found d n f in
      let (a, l) = place-Allotment sizes (first + size) found.1 rest t d' n' in
      let g : SimpleGroup = record { id = found.0; members = picked } in
      rw (← some-injective _ _ e₃) (cons-Allotment available g rest found.1 d n f a, ap suc l)
