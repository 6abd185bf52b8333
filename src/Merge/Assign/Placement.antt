-- ===== src/Merge/Assign/Placement.antt =====
-- `mergeInvalidGroups` gives each student exactly one place, in the ranked order.
use mathlib.Core.List.{append-nil, append_assoc}
use stu_mgmt_service.Prelude.{
  string_eq, option_eq, has, delete, to_set, ℕ, zero, suc, ◌+◌, ◌≤◌, ◌≡◌, refl, sym, ap, ◌∙◌, List,
  [], ◌∷◌, ◌++◌, map, some, arith, length, get_elem?, take, drop, take-append-drop, drop-drop,
  drop-length, length-take, length-drop, sum, sum-nil, sum-cons, Bool-cases, inl, inr,
}
use stu_mgmt_service.Merge.Groups.{GroupId, Member, SimpleGroup, members_of}
use stu_mgmt_service.Merge.Assign.{
  find_id, pick_members, place, name_group, name_groups, merge_invalid_groups,
}

-- The sizes of the groups.
abbrev pub sizes_of : List SimpleGroup → List ℕ
sizes_of = map (λ g. length g.members)

get_elem?_total :
    (xs : List Member) (i : ℕ)
    → suc i ≤ length xs
    → (x : Member) × (get_elem? xs i ≡ some x) × (drop i xs ≡ x ∷ drop (suc i) xs)
get_elem?_total [] i h = absurd (omega arith)
get_elem?_total (x ∷ xs) zero h = (x, refl, refl)
get_elem?_total (x ∷ xs) (suc i) h = get_elem?_total xs i (omega arith)

module _ (students : List Member) where
  find_id_total :
      (count i : ℕ) (available : List GroupId)
      → i + count ≤ length students
      → (r : GroupId × List GroupId) × (find_id students count i available ≡ some r)
  unfolding find_id
  find_id_total zero i available h = (_, refl)
  find_id_total (suc count) i available h =
      let (student, read, _) = get_elem?_total students i (omega arith) in
      elim (Bool-cases (has student.group_id available)) [
        | inl e ↦ ((student.group_id, delete student.group_id available), rw (read, e))
        | inr e ↦
            let (r, p) = find_id_total count (suc i) available (omega arith) in (r, rw (read, e) p)
      ]

  pick_members-eq-take :
      (count i : ℕ)
      → i + count ≤ length students
      → pick_members students count i ≡ some (take count (drop i students))
  unfolding pick_members
  pick_members-eq-take zero i h = refl
  pick_members-eq-take (suc count) i h =
      let (student, read, split) = get_elem?_total students i (omega arith) in
      rw (read, split, pick_members-eq-take count (suc i) (omega arith))

  place_total :
      (sizes : List ℕ) (first : ℕ) (available : List GroupId)
      → first + sum sizes ≤ length students
      → (r : List SimpleGroup × List GroupId) × (place students sizes first available ≡ some r)
        × (drop first students ≡ members_of r.0 ++ drop (first + sum sizes) students)
        × (sizes_of r.0 ≡ sizes)
  unfolding place members_of
  place_total [] first available h =
      let e : first + sum [] ≡ first = omega (arith, sum-nil) in
      (([], available), refl, rw e refl, refl)
  place_total (size ∷ sizes) first available h =
      let room : first + size + sum sizes ≤ length students = omega (arith, sum-cons size sizes) in
      let (found, p) = find_id_total size first available (omega arith) in
      let (r, q, kept, same) = place_total sizes (first + size) found.1 room in
      let here = drop first students in
      let picked = pick_members-eq-take size first (omega arith) in
      let e : first + sum (size ∷ sizes) ≡ first + size + sum sizes =
        omega (arith, sum-cons size sizes) in
      (
        (record { id = found.0; members = take size (drop first students) } ∷ r.0, r.1),
        rw (p, picked, q),
        sym (take-append-drop size here)
            ∙ ap (◌++◌ (take size here)) (drop-drop first size students ∙ rw e kept)
            ∙ sym (append_assoc (take size here) (members_of r.0) _),
        rw (length-take size here (omega (arith, length-drop first students)), same),
      )

members-name_group :
    (g : SimpleGroup) (remaining : List GroupId) → (name_group g remaining).0.members ≡ g.members
unfolding name_group
members-name_group g remaining = ground arith

members_of-name_groups :
    (gs : List SimpleGroup) (remaining : List GroupId)
    → members_of (name_groups gs remaining) ≡ members_of gs
unfolding members_of name_groups
members_of-name_groups [] remaining = refl
members_of-name_groups (g ∷ gs) remaining =
    rw (members-name_group g remaining, members_of-name_groups gs (name_group g remaining).1)

sizes_of-name_groups :
    (gs : List SimpleGroup) (remaining : List GroupId)
    → sizes_of (name_groups gs remaining) ≡ sizes_of gs
unfolding name_groups
sizes_of-name_groups [] remaining = refl
sizes_of-name_groups (g ∷ gs) remaining =
    rw (members-name_group g remaining, sizes_of-name_groups gs (name_group g remaining).1)

-- Where the sizes add up to the number of the students, the merge gives groups of these sizes, in
-- which every student is placed exactly once, in the ranked order.
pub merge_invalid_groups_places :
    (ideal_group_sizes : List ℕ) (ranked_students : List Member)
    → sum ideal_group_sizes ≡ length ranked_students
    → (groups : List SimpleGroup) × (merge_invalid_groups ideal_group_sizes ranked_students
        ≡ some groups)
      × (members_of groups ≡ ranked_students)
      × (sizes_of groups ≡ ideal_group_sizes)
unfolding merge_invalid_groups
merge_invalid_groups_places sizes students total =
    let available = to_set (map (λ (s : Member). s.group_id) students) in
    let (r, placed, kept, same) = place_total students sizes 0 available (omega arith) in
    let e : 0 + sum sizes ≡ length students = omega arith in
    let all_kept = kept ∙ rw (e, drop-length students) (append-nil (members_of r.0)) in
    (
      name_groups r.0 r.1,
      rw placed,
      members_of-name_groups r.0 r.1 ∙ sym all_kept,
      sizes_of-name_groups r.0 r.1 ∙ same,
    )
