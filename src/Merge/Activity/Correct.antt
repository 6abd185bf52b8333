-- ===== src/Merge/Activity/Correct.antt =====
-- `mergeByActivity` as a whole: everybody keeps exactly one place, and groups keep one id each.
use mathlib.Core.List.{append_assoc, append-nil, map-append, Permᴰ, Perm-prop, perm_append_comm}
use mathlib.Core.List.Perm
use mathlib.Core.Logic.{∥∥₁_elim}
use stu_mgmt_service.Prelude.{
  ℕ, ◌≤◌, ◌<◌, ◌≡◌, refl, sym, ap, inl, inr, String, Bool, List, [], ◌∷◌, ◌++◌, map, ◌==◌, ==_iff,
  some, arith, length, length-map, Bool-cases, ◌∈◌, Distinct, All, All-mono, All-∈, All-self, Perm,
  Distinct-perm, ∈-perm, option_eq, string_eq, Distinct-left, ∈-append_left, ∈-append_right,
}
use stu_mgmt_service.Merge.Groups.{
  GroupId, Member, SimpleGroup, members_of, split_groups_by_validity,
}
use stu_mgmt_service.Merge.Assign.{requires_id}
use stu_mgmt_service.Merge.Assign.Ids.{ids_of}
use stu_mgmt_service.Merge.Ranking.{ActivityDto, SubmissionDto}
use stu_mgmt_service.Merge.Activity.Tags.{IsTagged}
use stu_mgmt_service.Merge.Activity.Merged.{
  IsMerged, small_groups, small_groups_none, members_of-append, merge_groups_total,
}
use stu_mgmt_service.Merge.Activity.Split.{split_groups_by_validity-IsSplitBy}
use stu_mgmt_service.Merge.Activity.{set_group_id, set_group_ids, merge_by_activity}

abbrev pub user_ids : List Member → List String
user_ids = map (λ m. m.user_id)

user_ids-append : (ms ns : List Member) → user_ids (ms ++ ns) ≡ user_ids ms ++ user_ids ns
user_ids-append ms ns = map-append (λ (m : Member). m.user_id) ms ns

user_ids-set_group_id :
    (id : GroupId) (ms : List Member) → user_ids (map (set_group_id id) ms) ≡ user_ids ms
unfolding set_group_id
user_ids-set_group_id id [] = refl
user_ids-set_group_id id (m ∷ ms) = ap (◌∷◌ m.user_id) (user_ids-set_group_id id ms)

user_ids-set_group_ids :
    (gs : List SimpleGroup)
    → user_ids (members_of (map set_group_ids gs)) ≡ user_ids (members_of gs)
unfolding set_group_ids members_of
user_ids-set_group_ids [] = refl
user_ids-set_group_ids (g ∷ gs) = rw (
  map-append (λ (m : Member). m.user_id) (map (set_group_id g.id) g.members)
      (members_of (map set_group_ids gs)),
  map-append (λ (m : Member). m.user_id) g.members (members_of gs),
  user_ids-set_group_id g.id g.members,
  user_ids-set_group_ids gs,
)

ids_of-set_group_ids : (gs : List SimpleGroup) → ids_of (map set_group_ids gs) ≡ ids_of gs
unfolding set_group_ids
ids_of-set_group_ids [] = refl
ids_of-set_group_ids (g ∷ gs) = ap (◌∷◌ g.id) (ids_of-set_group_ids gs)

set_group_id-All :
    (id : GroupId) (ms : List Member) → All (λ m. m.group_id ≡ id) (map (set_group_id id) ms)
unfolding set_group_id
set_group_id-All id [] = tt
set_group_id-All id (m ∷ ms) = (refl, set_group_id-All id ms)

set_group_ids-IsTagged : (gs : List SimpleGroup) → All IsTagged (map set_group_ids gs)
unfolding set_group_ids
set_group_ids-IsTagged [] = tt
set_group_ids-IsTagged (g ∷ gs) = (set_group_id-All g.id g.members, set_group_ids-IsTagged gs)

-- What holds of a group's size holds of it with its members' ids set.
All-set_group_ids :
    (P : ℕ → Type 0) (gs : List SimpleGroup)
    → All (λ g. P (length g.members)) gs
    → All (λ g. P (length g.members)) (map set_group_ids gs)
unfolding set_group_ids
All-set_group_ids P [] a = tt
All-set_group_ids P (g ∷ gs) a =
    (rw (length-map (set_group_id g.id) g.members) a.0, All-set_group_ids P gs a.1)

members_of_empty : (gs : List SimpleGroup) → All (λ g. length g.members ≡ 0) gs → members_of gs ≡ []
unfolding members_of
members_of_empty [] a = refl
members_of_empty (g ∷ gs) a = rw (none_left g.members a.0) (members_of_empty gs a.1)
  where
    none_left : (ms : List Member) → length ms ≡ 0 → ms ≡ []
    none_left [] h = refl
    none_left (m ∷ ms) h = absurd (omega arith)

members_of-Permᴰ : {gs hs : List SimpleGroup} → Permᴰ gs hs → Perm (members_of gs) (members_of hs)
unfolding members_of
members_of-Permᴰ Permᴰ.nil = Perm.rfl
members_of-Permᴰ (Permᴰ.cons {a} e p) = rw e (Perm.append_left _ (members_of-Permᴰ p))
members_of-Permᴰ (Permᴰ.trans p q) = Perm.trans (members_of-Permᴰ p) (members_of-Permᴰ q)
members_of-Permᴰ (Permᴰ.swap {a} {b} {a'} {b'} {l} e f) =
    rw
      (
        e,
        f,
        sym (append_assoc b'.members a'.members (members_of l)),
        sym (append_assoc a'.members b'.members (members_of l)),
      )
      (Perm.append_right (members_of l) (perm_append_comm b'.members a'.members))

members_of-perm : (gs hs : List SimpleGroup) → Perm gs hs → Perm (members_of gs) (members_of hs)
members_of-perm gs hs p = ∥∥₁_elim p Perm-prop (λ q. members_of-Permᴰ q)

-- Before and after a merge.
pub record IsRegrouping (min_size : ℕ) (groups result : List SimpleGroup) : Type 0 where
  pub students : Perm (user_ids (members_of result)) (user_ids (members_of groups))
  pub apart : Distinct (ids_of result)
  pub taken : All (λ x. x ∈ ids_of groups) (ids_of result)
  pub few_small : length (small_groups min_size result) ≤ 1

module _ (min_size : ℕ) (groups : List SimpleGroup) where
  abbrev valid : List SimpleGroup
  valid = (split_groups_by_validity groups min_size).valid_groups

  abbrev invalid : List SimpleGroup
  invalid = (split_groups_by_validity groups min_size).invalid_groups

  -- Empty groups hold nobody.
  split_students : Perm (members_of valid ++ members_of invalid) (members_of groups)
  split_students =
      let s = split_groups_by_validity-IsSplitBy groups min_size in
      let r = split_groups_by_validity groups min_size in
      let e : members_of (r.valid_groups ++ (r.invalid_groups ++ r.empty_groups))
          ≡ members_of valid ++ members_of invalid =
        rw (
          members_of-append r.valid_groups (r.invalid_groups ++ r.empty_groups),
          members_of-append r.invalid_groups r.empty_groups,
          members_of_empty r.empty_groups s.empty_ok,
          append-nil (members_of r.invalid_groups),
        ) in
      rw e at (members_of-perm _ groups s.all_placed)

  split_ids :
      Perm
        (ids_of valid
          ++ (ids_of invalid ++ ids_of (split_groups_by_validity groups min_size).empty_groups))
        (ids_of groups)
  split_ids =
      let s = split_groups_by_validity-IsSplitBy groups min_size in
      let r = split_groups_by_validity groups min_size in
      let e : ids_of (r.valid_groups ++ (r.invalid_groups ++ r.empty_groups))
          ≡ ids_of r.valid_groups ++ (ids_of r.invalid_groups ++ ids_of r.empty_groups) =
        rw (
          map-append (λ (g : SimpleGroup). g.id) r.valid_groups
              (r.invalid_groups ++ r.empty_groups),
          map-append (λ (g : SimpleGroup). g.id) r.invalid_groups r.empty_groups,
        ) in
      rw e at (Perm.map (λ (g : SimpleGroup). g.id) s.all_placed)

  -- The ids of the groups that are not empty stay different.
  kept_ids :
      Distinct (ids_of groups)
      → Distinct (ids_of valid ++ ids_of invalid)
        × All (λ x. x ∈ ids_of groups) (ids_of valid ++ ids_of invalid)
  kept_ids d =
      let empty = ids_of (split_groups_by_validity groups min_size).empty_groups in
      let all = ids_of valid ++ ids_of invalid in
      let same : Perm (all ++ empty) (ids_of groups) =
        rw (append_assoc (ids_of valid) (ids_of invalid) empty) split_ids in
      (
        Distinct-left all empty (Distinct-perm _ _ (Perm.symm same) d),
        All-mono (λ x. x ∈ all) _ all
            (λ x i. ∈-perm x (all ++ empty) (ids_of groups) same (∈-append_left all empty x i))
            (All-self all),
      )

  -- With nothing to merge, the valid groups stay.
  unmerged-IsRegrouping :
      length invalid ≡ 0 → Distinct (ids_of groups) → IsRegrouping min_size groups valid
  unmerged-IsRegrouping z d =
      let s = split_groups_by_validity-IsSplitBy groups min_size in
      let none_left = no_groups invalid z in
      let (apart, taken) = kept_ids d in
      let one : ids_of valid ++ ids_of invalid ≡ ids_of valid =
        rw none_left (append-nil (ids_of valid)) in
      let all : members_of valid ++ members_of invalid ≡ members_of valid =
        rw (none_left, members_of_empty [] tt) (append-nil (members_of valid)) in
      record {
        students = Perm.map (λ (m : Member). m.user_id) (rw all at split_students);
        apart = rw one at apart;
        taken = rw one at taken;
        few_small = rw (small_groups_none min_size valid s.valid_ok) (omega arith);
      }
    where
      no_groups : (gs : List SimpleGroup) → length gs ≡ 0 → gs ≡ []
      no_groups [] h = refl
      no_groups (g ∷ gs) h = absurd (omega arith)

  merged-IsRegrouping :
      (result : List SimpleGroup)
      → IsMerged min_size (map set_group_ids valid) (map set_group_ids invalid) result
      → Distinct (ids_of groups)
      → IsRegrouping min_size groups result
  merged-IsRegrouping result m d =
      let (apart, taken) = kept_ids d in
      let ids : ids_of (map set_group_ids valid) ++ ids_of (map set_group_ids invalid)
          ≡ ids_of valid ++ ids_of invalid =
        rw (ids_of-set_group_ids valid, ids_of-set_group_ids invalid) in
      let users = Perm.map (λ (m : Member). m.user_id) m.students in
      let here : user_ids
            (members_of (map set_group_ids valid) ++ members_of (map set_group_ids invalid))
          ≡ user_ids (members_of valid ++ members_of invalid) =
        rw (
          user_ids-append (members_of (map set_group_ids valid))
              (members_of (map set_group_ids invalid)),
          user_ids-append (members_of valid) (members_of invalid),
          user_ids-set_group_ids valid,
          user_ids-set_group_ids invalid,
        ) in
      record {
        students =
            Perm.trans (rw here at users) (Perm.map (λ (m : Member). m.user_id) split_students);
        apart = m.apart;
        taken =
            All-mono
              (λ x. x ∈ (ids_of (map set_group_ids valid) ++ ids_of (map set_group_ids invalid))) _
              (ids_of result) (λ x i. All-∈ (λ y. y ∈ ids_of groups) _ x taken (rw ids at i))
              m.taken;
        few_small = m.few_small;
      }

module _ {Date : Type 0} (is_same_week : Date → Date → Bool) (week : Date → ℕ)
    (same_iff : (d e : Date) → is_same_week d e ≡ (week d == week e))
    (activity : List (ActivityDto Date)) (submissions : List SubmissionDto) (min_size max_size : ℕ)
    (groups : List SimpleGroup) where
  -- Where `is_same_week` compares the numbers that `week` gives the dates, for a minimum size
  -- from one up and a maximum that is not less, and groups under different ids, none of them the
  -- sentinel: a merge ends, places the same students, gives the groups different ids, which are
  -- ids of groups that were there before, and leaves at most one group that is too small.
  pub merge_by_activity_correct :
      1 ≤ min_size
      → min_size ≤ max_size
      → Distinct (ids_of groups)
      → ¬ (requires_id ∈ ids_of groups)
      → (result : List SimpleGroup) × (merge_by_activity is_same_week min_size max_size groups
            activity submissions
          ≡ some result)
        × IsRegrouping min_size groups result
  unfolding merge_by_activity
  merge_by_activity_correct one_le min_le_max d no_req =
      let v = valid min_size groups in
      let i = invalid min_size groups in
      elim (Bool-cases (length i == 0)) [
        | inl e ↦ (v, rw e, unmerged-IsRegrouping min_size groups ((==_iff (length i) 0).0 e) d)
        | inr e ↦
            let s = split_groups_by_validity-IsSplitBy groups min_size in
            let (apart, taken) = kept_ids min_size groups d in
            let ids : ids_of v ++ ids_of i
                ≡ ids_of (map set_group_ids v) ++ ids_of (map set_group_ids i) =
              rw (ids_of-set_group_ids v, ids_of-set_group_ids i) in
            let (result, merged, m) =
              merge_groups_total is_same_week week same_iff activity submissions min_size max_size
                (map set_group_ids v) (map set_group_ids i) one_le min_le_max
                (All-set_group_ids (λ n. min_size ≤ n) v s.valid_ok)
                (All-set_group_ids (λ n. (0 < n) × (n < min_size)) i s.invalid_ok)
                (set_group_ids-IsTagged i) (rw ids at apart)
                (λ j. no_req (
                  All-∈ (λ x. x ∈ ids_of groups) _ requires_id taken
                    (∈-append_right (ids_of v) (ids_of i) requires_id
                      (rw (ids_of-set_group_ids i) at j))))
                (rw (length-map set_group_ids i) (ground arith)) in
            (result, rw (e, merged), merged-IsRegrouping min_size groups result m d)
      ]
