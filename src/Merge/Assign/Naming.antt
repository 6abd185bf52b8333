-- ===== src/Merge/Assign/Naming.antt =====
-- `mergeInvalidGroups` names the groups: the sentinel never stays, and no id is used twice.
use mathlib.Core.List.{append_assoc}
use mathlib.Core.Option.{some-injective}
use stu_mgmt_service.Prelude.{
  to_set, to_set-Distinct, to_set_mem, ℕ, suc, ◌≤◌, ◌≡◌, refl, sym, ap, ◌∙◌, subst, inl, inr, true,
  false, List, [], ◌∷◌, ◌++◌, map, none, some, arith, length, length-append, ◌===◌, ===_eq, ===_ne,
  string_eq, option_eq, ◌∈◌, Distinct, All, All-mono, Bool-cases, Option-cases, >>=-eq-some,
  none-ne-some, ∈-append_left, ∈-append_right, All-∈,
}
use stu_mgmt_service.Merge.Groups.{GroupId, Member, SimpleGroup}
use stu_mgmt_service.Merge.Assign.{
  requires_id, place, pop, name_group, name_groups, merge_invalid_groups,
}
use stu_mgmt_service.Merge.Assign.Ids.{
  ids_of, named_ids, unnamed, unnamed-named, named_ids_skip, named_ids_keep, place-Allotment,
}

pop-some : (xs : List GroupId) (r : GroupId × List GroupId) → pop xs ≡ some r → xs ≡ r.1 ++ r.0 ∷ []
unfolding pop
pop-some [] r e = absurd (none-ne-some e)
pop-some (x ∷ []) r e = rw (← some-injective _ _ e)
pop-some (x ∷ y ∷ ys) r e =
    let (q, p, e') = >>=-eq-some (pop (y ∷ ys)) _ e in
    rw (← some-injective _ _ e') (ap (◌∷◌ x) (pop-some (y ∷ ys) q p))

pop-none : (xs : List GroupId) → pop xs ≡ none → length xs ≡ 0
unfolding pop
pop-none [] e = refl
pop-none (x ∷ []) e = cc
pop-none (x ∷ y ∷ ys) e = elim (Option-cases (pop (y ∷ ys))) [
  | inl p ↦ omega (arith, pop-none (y ∷ ys) p)
  | inr (q, p) ↦ absurd (none-ne-some (sym (rw p at e)))
]

Distinct-snoc :
    (xs : List GroupId) (x : GroupId) → Distinct (xs ++ x ∷ []) → Distinct xs × ¬ (x ∈ xs)
Distinct-snoc [] x d = (tt, λ i. i)
Distinct-snoc (y ∷ ys) x d =
    let (e, n) = Distinct-snoc ys x d.1 in
    ((λ i. d.0 (∈-append_left ys (x ∷ []) y i), e), not_mem n)
  where
    not_mem : ¬ (x ∈ ys) → ¬ (x ∈ (y ∷ ys))
    not_mem n (inl p) = d.0 (∈-append_right ys (x ∷ []) y (inl (sym p)))
    not_mem n (inr j) = n j

name_group_unnamed :
    (g : SimpleGroup) (remaining : List GroupId) (r : GroupId × List GroupId)
    → g.id ≡ requires_id
    → pop remaining ≡ some r
    → name_group g remaining ≡ (record g { id = r.0 }, r.1)
unfolding name_group
name_group_unnamed g remaining r e p =
    let same : (g.id === requires_id) ≡ true = (option_eq.beq_iff g.id requires_id).1 e in
    rw (same, p, name_group)

name_group_named :
    (g : SimpleGroup) (remaining : List GroupId)
    → (g.id === requires_id) ≡ false
    → name_group g remaining ≡ (g, remaining)
unfolding name_group
name_group_named g remaining e = rw e

-- Different ids, all from a list.
abbrev Named : List GroupId → List SimpleGroup → Type 0
Named allowed groups = Distinct (ids_of groups) × All (λ x. x ∈ allowed) (ids_of groups)

Named-cons :
    (g : SimpleGroup) (allowed : List GroupId) (groups : List SimpleGroup)
    → ¬ (g.id ∈ allowed)
    → Named allowed groups
    → Named (g.id ∷ allowed) (g ∷ groups)
Named-cons g allowed groups fresh (apart, taken) = (
  ((λ i. fresh (All-∈ (λ x. x ∈ allowed) (ids_of groups) g.id taken i)), apart),
  (inl refl, All-mono (λ x. x ∈ allowed) _ (ids_of groups) (λ x i. inr i) taken),
)

Named-snoc :
    (g : SimpleGroup) (allowed : List GroupId) (groups : List SimpleGroup)
    → ¬ (g.id ∈ allowed)
    → Named allowed groups
    → Named (allowed ++ g.id ∷ []) (g ∷ groups)
Named-snoc g allowed groups fresh (apart, taken) = (
  ((λ i. fresh (All-∈ (λ x. x ∈ allowed) (ids_of groups) g.id taken i)), apart),
  (
    ∈-append_right allowed (g.id ∷ []) g.id (inl refl),
    All-mono (λ x. x ∈ allowed) _ (ids_of groups) (λ x. ∈-append_left allowed _ x) taken,
  ),
)

name_groups-Named :
    (gs : List SimpleGroup) (remaining : List GroupId)
    → Distinct (named_ids gs ++ remaining)
    → unnamed gs ≤ length remaining
    → Named (named_ids gs ++ remaining) (name_groups gs remaining)
unfolding name_groups
name_groups-Named [] remaining d h = (tt, tt)
name_groups-Named (g ∷ gs) remaining d h = elim (Bool-cases (g.id === requires_id)) [
  | inl e ↦
      let skip = named_ids_skip g gs (===_eq g.id requires_id e) in
      let fewer = ap length skip in
      elim (Option-cases (pop remaining)) [
        | inl p ↦ absurd (
            omega (arith, pop-none remaining p, unnamed-named gs, unnamed-named (g ∷ gs), h, fewer))
        | inr (r, p) ↦
            let last = pop-some remaining r p in
            let all = ap (◌++◌ (named_ids gs)) last ∙ sym (append_assoc (named_ids gs) r.1 _) in
            let d' : Distinct ((named_ids gs ++ r.1) ++ r.0 ∷ []) =
              subst Distinct all (rw skip at d) in
            let (apart, fresh) = Distinct-snoc (named_ids gs ++ r.1) r.0 d' in
            let size = ap length last ∙ length-append r.1 (r.0 ∷ []) in
            let room : unnamed gs ≤ length r.1 =
              omega (arith, unnamed-named gs, unnamed-named (g ∷ gs), fewer, size) in
            let rest = name_groups-Named gs r.1 apart room in
            rw (name_group_unnamed g remaining r (===_eq g.id requires_id e) p) (
              subst (λ l. Named l (record g { id = r.0 } ∷ name_groups gs r.1))
                (sym (ap (λ l. l ++ remaining) skip ∙ all))
                (Named-snoc (record g { id = r.0 }) (named_ids gs ++ r.1) (name_groups gs r.1) fresh
                  rest))
      ]
  | inr e ↦
      let keep = named_ids_keep g gs (===_ne g.id requires_id e) in
      let more = ap length keep in
      let d' : Distinct (g.id ∷ named_ids gs ++ remaining) = rw keep at d in
      let room : unnamed gs ≤ length remaining =
        omega (arith, unnamed-named gs, unnamed-named (g ∷ gs), more) in
      let rest = name_groups-Named gs remaining d'.1 room in
      rw (name_group_named g remaining e) (
        subst (λ l. Named (l ++ remaining) (g ∷ name_groups gs remaining)) (sym keep)
          (Named-cons g (named_ids gs ++ remaining) (name_groups gs remaining) d'.0 rest))
]

length-name_groups :
    (gs : List SimpleGroup) (remaining : List GroupId)
    → length (name_groups gs remaining) ≡ length gs
unfolding name_groups
length-name_groups [] remaining = refl
length-name_groups (g ∷ gs) remaining = ap suc (length-name_groups gs (name_group g remaining).1)

-- Where the merge gives groups, no student has the sentinel as the group id, and there are no
-- more sizes than the students have different ids: the groups get different ids, all of them ids
-- of the students, and none keeps the sentinel.
pub merge_invalid_groups_names :
    (ideal_group_sizes : List ℕ) (ranked_students : List Member) (groups : List SimpleGroup)
    → merge_invalid_groups ideal_group_sizes ranked_students ≡ some groups
    → ¬ (requires_id ∈ map (λ s. s.group_id) ranked_students)
    → length ideal_group_sizes ≤ length (to_set (map (λ s. s.group_id) ranked_students))
    → Distinct (ids_of groups)
      × All (λ x. x ∈ map (λ s. s.group_id) ranked_students) (ids_of groups)
      × ¬ (requires_id ∈ ids_of groups)
unfolding merge_invalid_groups
merge_invalid_groups_names sizes students groups e n h =
    let ids = map (λ (s : Member). s.group_id) students in
    let (r, p, q) = >>=-eq-some (place students sizes 0 (to_set ids)) _ e in
    let (a, l) =
      place-Allotment students sizes 0 (to_set ids) r p (to_set-Distinct ids)
        (λ i. n (to_set_mem requires_id ids i)) in
    let (apart, taken) =
      name_groups-Named r.0 r.1 a.apart (omega (arith, unnamed-named r.0, a.count, l)) in
    let from_set =
      All-mono (λ x. x ∈ (named_ids r.0 ++ r.1)) (λ x. x ∈ ids) (ids_of (name_groups r.0 r.1))
        (λ x i. to_set_mem x ids (All-∈ (λ y. y ∈ to_set ids) _ x a.taken i)) taken in
    rw (← some-injective _ _ q)
      (apart, from_set, λ i. n (All-∈ (λ x. x ∈ ids) _ requires_id from_set i))
