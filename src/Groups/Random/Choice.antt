-- ===== src/Groups/Random/Choice.antt =====
-- Which group the handler chooses.
use stu_mgmt_service.Prelude.{
  ℕ, suc, ◌-◌, ◌≤◌, ◌<◌, ◌≡◌, refl, ◌⊎◌, inl, inr, Ordering, Bool, true, false, ltb, leb, arith,
  Bool-cases, List, [], ◌∷◌, Option, none, some, length, get_elem?, filter_by, All, All-mono, All-∈,
  All-self, All-filter, All-Unit, ◌∈◌, sort, sort-All, All-sort, IsSorted, MayPrecede, IsConsistent,
  sort-IsSorted,
}
use stu_mgmt_service.Groups.Random.{
  GroupView, get_open_groups, by_size, biggest_group_that_is_too_small,
  smallest_group_that_has_enough_members, try_get_joinable_group,
}

abbrev pub size_of : GroupView → ℕ
size_of g = length g.members

-- The choice among the groups that can be joined.
pub data IsChoice (size_min : ℕ) (candidates : List GroupView) : Option GroupView → Type 0 where
  nothing : candidates ≡ [] → IsChoice size_min candidates none
  fills_up :
      (g : GroupView)
      → g ∈ candidates
      → size_of g < size_min
      → All (λ h. size_of h < size_min → size_of h ≤ size_of g) candidates
      → IsChoice size_min candidates (some g)
  spreads :
      (g : GroupView)
      → g ∈ candidates
      → All (λ h. (size_min ≤ size_of h) × (size_of g ≤ size_of h)) candidates
      → IsChoice size_min candidates (some g)

abbrev IsAscending : List GroupView → Type 0
IsAscending [] = Unit
IsAscending (g ∷ gs) = All (λ h. size_of g ≤ size_of h) gs × IsAscending gs

filter-IsAscending :
    (p : GroupView → Bool) (gs : List GroupView) → IsAscending gs → IsAscending (filter_by p gs)
filter-IsAscending p [] a = tt
filter-IsAscending p (g ∷ gs) a = elim (Bool-cases (p g)) [
  | inl e ↦ rw e (
    All-mono (λ h. (size_of g ≤ size_of h) × (p h ≡ true)) _ _ (λ h i. i.0) (All-filter p _ gs a.0),
    filter-IsAscending p gs a.1,
  )
  | inr e ↦ rw e (filter-IsAscending p gs a.1)
]

-- The last of an ascending list is a biggest one.
last_biggest :
    (g : GroupView) (gs : List GroupView)
    → IsAscending (g ∷ gs)
    → (l : GroupView) × (get_elem? (g ∷ gs) (length gs) ≡ some l)
      × (l ∈ (g ∷ gs))
      × All (λ h. size_of h ≤ size_of l) (g ∷ gs)
last_biggest g [] a = (g, refl, inl refl, (omega arith, tt))
last_biggest g (h ∷ gs) a =
    let (l, e, i, big) = last_biggest h gs a.1 in (l, e, inr i, (omega (arith, a.0.0, big.0), big))

-- What holds of the entries that pass a filter.
filtered-All :
    (p : GroupView → Bool) (P : GroupView → Type 0) (gs : List GroupView)
    → All P (filter_by p gs)
    → All (λ g. p g ≡ true → P g) gs
filtered-All p P [] a = tt
filtered-All p P (g ∷ gs) a = elim (Bool-cases (p g)) [
  | inl e ↦ let b = rw e at a in ((λ h. b.0), filtered-All p P gs b.1)
  | inr e ↦ ((λ h. absurd (clash (p g) h e)), filtered-All p P gs (rw e at a))
]
  where
    clash : (b : Bool) → b ≡ true → b ≡ false → ⊥
    clash b h k = ground arith

filter-members :
    (p : GroupView → Bool) (gs : List GroupView) (g : GroupView)
    → g ∈ filter_by p gs
    → (g ∈ gs) × (p g ≡ true)
filter-members p gs g =
    All-∈ (λ h. (h ∈ gs) × (p h ≡ true)) (filter_by p gs) g
      (All-filter p (λ h. h ∈ gs) gs (All-self gs))

List-cases :
    (gs : List GroupView)
    → (gs ≡ []) ⊎ ((g : GroupView) × (rest : List GroupView) × (gs ≡ g ∷ rest))
List-cases [] = inl refl
List-cases (g ∷ gs) = inr (g, gs, refl)

module _ (size_min size_max : ℕ) (gs : List GroupView) (ascending : IsAscending gs) where
  abbrev small : GroupView → Bool
  small g = ltb (length g.members) size_min

  abbrev large : GroupView → Bool
  large g = leb size_min (length g.members)

  none-small :
      filter_by small gs ≡ []
      → (biggest_group_that_is_too_small size_min size_max gs ≡ none)
        × All (λ h. size_min ≤ size_of h) gs
  unfolding biggest_group_that_is_too_small
  none-small e = (
    rw e,
    All-mono (λ h. small h ≡ true → ⊥) _ gs (λ h n. ground arith)
        (filtered-All small (λ h. ⊥) gs (rw e tt)),
  )

  some-small :
      (g : GroupView) (rest : List GroupView)
      → filter_by small gs ≡ g ∷ rest
      → (l : GroupView) × (biggest_group_that_is_too_small size_min size_max gs ≡ some l)
        × (l ∈ gs)
        × (size_of l < size_min)
        × All (λ h. size_of h < size_min → size_of h ≤ size_of l) gs
  unfolding biggest_group_that_is_too_small
  some-small g rest e =
      let (l, read, i, big) =
        last_biggest g rest (rw e at (filter-IsAscending small gs ascending)) in
      let (j, low) = filter-members small gs l (rw e i) in
      let last : suc (length rest) - 1 ≡ length rest = omega arith in
      let pos : ltb 0 (suc (length rest)) ≡ true = ground arith in
      (
        l,
        rw (e, pos, last) read,
        j,
        ground arith,
        All-mono (λ h. small h ≡ true → size_of h ≤ size_of l) _ gs (λ h f k. f (ground arith))
            (filtered-All small (λ h. size_of h ≤ size_of l) gs (rw e big)),
      )

  All-large : (hs : List GroupView) → All (λ h. size_min ≤ size_of h) hs → filter_by large hs ≡ hs
  All-large [] a = refl
  All-large (h ∷ hs) a = let e : large h ≡ true = ground arith in rw (e, All-large hs a.1)

  smallest :
      (hs : List GroupView)
      → IsAscending hs
      → All (λ h. size_min ≤ size_of h) hs
      → IsChoice size_min hs (smallest_group_that_has_enough_members size_min size_max hs)
  unfolding smallest_group_that_has_enough_members
  smallest [] a enough = IsChoice.nothing refl
  smallest (h ∷ hs) a enough =
      let pos : ltb 0 (suc (length hs)) ≡ true = ground arith in
      rw (All-large (h ∷ hs) enough, pos)
        (IsChoice.spreads h (inl refl) ((enough.0, omega arith), both hs enough.1 a.0))
    where
      both :
          (ks : List GroupView)
          → All (λ k. size_min ≤ size_of k) ks
          → All (λ k. size_of h ≤ size_of k) ks
          → All (λ k. (size_min ≤ size_of k) × (size_of h ≤ size_of k)) ks
      both [] b c = tt
      both (k ∷ ks) b c = ((b.0, c.0), both ks b.1 c.1)

  choose_ascending :
      IsChoice size_min gs (elim (biggest_group_that_is_too_small size_min size_max gs) [
        | some g ↦ some g
        | none ↦ smallest_group_that_has_enough_members size_min size_max gs
      ])
  choose_ascending = elim (List-cases (filter_by small gs)) [
    | inl e ↦ let (n, enough) = none-small e in rw n (smallest gs ascending enough)
    | inr (g, rest, e) ↦
        let (l, found, i, low, big) = some-small g rest e in
        rw found (IsChoice.fills_up l i low big)
  ]

by_size-IsConsistent :
    (size_min size_max : ℕ) → IsConsistent (by_size size_min size_max) (λ g. Unit {0})
by_size-IsConsistent size_min size_max = record {
  antisymm = λ g h u v e. ground arith;
  trans = λ g h k u v w e f. ground arith;
}

sorted-IsAscending :
    (size_min size_max : ℕ) (gs : List GroupView)
    → IsSorted (by_size size_min size_max) gs
    → IsAscending gs
sorted-IsAscending size_min size_max [] s = tt
sorted-IsAscending size_min size_max (g ∷ gs) s = (
  All-mono (MayPrecede (by_size size_min size_max) g) _ gs (λ h e. ground arith) s.0,
  sorted-IsAscending size_min size_max gs s.1,
)

module _ (size_min size_max : ℕ) where
  unsorted :
      (gs : List GroupView) (o : Option GroupView)
      → IsChoice size_min (sort (by_size size_min size_max) gs) o
      → IsChoice size_min gs o
  unsorted gs _ (IsChoice.nothing e) =
      IsChoice.nothing (none_left gs (All-sort cmp (λ g. ⊥) gs (rw e tt)))
    where
      cmp : GroupView → GroupView → Ordering
      cmp = by_size size_min size_max

      none_left : (hs : List GroupView) → All (λ g. ⊥) hs → hs ≡ []
      none_left [] a = refl
      none_left (h ∷ hs) a = absurd a.0
  unsorted gs _ (IsChoice.fills_up g i low big) =
      let cmp = by_size size_min size_max in
      IsChoice.fills_up g (All-∈ (λ h. h ∈ gs) _ g (sort-All cmp (λ h. h ∈ gs) gs (All-self gs)) i)
        low (All-sort cmp (λ h. size_of h < size_min → size_of h ≤ size_of g) gs big)
  unsorted gs _ (IsChoice.spreads g i enough) =
      let cmp = by_size size_min size_max in
      IsChoice.spreads g (All-∈ (λ h. h ∈ gs) _ g (sort-All cmp (λ h. h ∈ gs) gs (All-self gs)) i)
        (All-sort cmp (λ h. (size_min ≤ size_of h) × (size_of g ≤ size_of h)) gs enough)

  -- The choice is among the open groups that have room: a biggest one of those below the minimum,
  -- if there are any, else a smallest one, and no group only if none is open with room.
  pub try_get_joinable_group-IsChoice :
      (groups : List GroupView)
      → IsChoice size_min
          (get_open_groups size_min size_max groups)
          (try_get_joinable_group size_min size_max groups)
  unfolding try_get_joinable_group
  try_get_joinable_group-IsChoice groups =
      let candidates = get_open_groups size_min size_max groups in
      let cmp = by_size size_min size_max in
      unsorted candidates _ (
        choose_ascending size_min size_max (sort cmp candidates) (
          sorted-IsAscending size_min size_max _ (
            sort-IsSorted (by_size-IsConsistent size_min size_max) candidates
              (All-Unit candidates))))
