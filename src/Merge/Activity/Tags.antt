-- ===== src/Merge/Activity/Tags.antt =====
-- The members of invalid groups, who carry their groups' ids, and how many there can be.
use mathlib.Core.List.{map-append}
use stu_mgmt_service.Prelude.{
  ℕ, ◌+◌, ◌*◌, ◌≤◌, ◌<◌, ◌≡◌, sym, inl, inr, string_eq, option_eq, List, [], ◌∷◌, ◌++◌, map, arith,
  length, length-append, ltb, Bool-cases, ◌∈◌, All, All-append, All-mono, sum, sum-cons,
  ∈-append_right,
}
use stu_mgmt_service.Merge.Groups.{GroupId, Member, SimpleGroup, members_of}
use stu_mgmt_service.Merge.Sizes.Partition.{IsSize, too_small}
use stu_mgmt_service.Merge.Assign.Ids.{ids_of}

-- Each member carries the id of the group.
abbrev pub IsTagged : SimpleGroup → Type 0
IsTagged g = All (λ m. m.group_id ≡ g.id) g.members

-- A group that has members, and too few of them.
abbrev pub IsInvalid : ℕ → SimpleGroup → Type 0
IsInvalid min_size g = (0 < length g.members) × (length g.members < min_size)

abbrev pub group_ids : List Member → List GroupId
group_ids = map (λ m. m.group_id)

-- The ids of the members are ids of the groups.
pub tagged_members :
    (gs : List SimpleGroup) (ids : List GroupId)
    → All IsTagged gs
    → All (λ x. x ∈ ids) (ids_of gs)
    → All (λ m. m.group_id ∈ ids) (members_of gs)
unfolding members_of
tagged_members [] ids t a = tt
tagged_members (g ∷ gs) ids t a =
    All-append (λ m. m.group_id ∈ ids) g.members (members_of gs)
      (All-mono (λ m. m.group_id ≡ g.id) _ g.members (λ m e. rw e a.0) t.0)
      (tagged_members gs ids t.1 a.1)

first_member :
    (g : SimpleGroup) (rest : List Member)
    → 0 < length g.members
    → IsTagged g
    → g.id ∈ group_ids (g.members ++ rest)
first_member g rest h t = from g.members h t
  where
    from :
        (ms : List Member)
        → 0 < length ms
        → All (λ m. m.group_id ≡ g.id) ms
        → g.id ∈ group_ids (ms ++ rest)
    from [] h t = absurd (omega arith)
    from (m ∷ ms) h t = inl (sym t.0)

-- Each group that is not empty has its id among those of the members.
pub tagged_ids :
    (min_size : ℕ) (gs : List SimpleGroup)
    → All IsTagged gs
    → All (IsInvalid min_size) gs
    → All (λ x. x ∈ group_ids (members_of gs)) (ids_of gs)
unfolding members_of
tagged_ids min_size [] t a = tt
tagged_ids min_size (g ∷ gs) t a = (
  first_member g (members_of gs) a.0.0 t.0,
  All-mono (λ x. x ∈ group_ids (members_of gs)) _ (ids_of gs)
      (λ x i.
        rw (map-append (λ (m : Member). m.group_id) g.members (members_of gs))
          (∈-append_right (group_ids g.members) _ x i))
      (tagged_ids min_size gs t.1 a.1),
)

-- So many students are too few for more groups than there are invalid ones.
pub members_few :
    (min_size : ℕ) (gs : List SimpleGroup)
    → All (IsInvalid min_size) gs
    → length (members_of gs) + length gs ≤ length gs * min_size
unfolding members_of
members_few min_size [] a = omega arith
members_few min_size (g ∷ gs) a =
    omega (arith, length-append g.members (members_of gs), members_few min_size gs a.1, a.0.1)

pub sizes_many :
    (min_size max_size : ℕ) (sizes : List ℕ)
    → All (IsSize min_size max_size) sizes
    → length sizes * min_size + length (too_small min_size max_size sizes)
      ≤ sum sizes + length (too_small min_size max_size sizes) * min_size
sizes_many min_size max_size [] a = omega arith
sizes_many min_size max_size (x ∷ sizes) a = elim (Bool-cases (ltb x min_size)) [
  | inl e ↦ rw e (grind (arith, sizes_many min_size max_size sizes a.1, sum-cons x sizes))
  | inr e ↦ rw e (grind (arith, sizes_many min_size max_size sizes a.1, sum-cons x sizes))
]

pub groups_enough :
    (l m n s min_size : ℕ)
    → l * min_size + s ≤ n + s * min_size
    → s ≤ 1
    → n + m ≤ m * min_size
    → 1 ≤ min_size
    → 1 ≤ m
    → l ≤ m
groups_enough l m n s min_size h k j o p = grind arith
