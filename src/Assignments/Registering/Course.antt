-- ===== src/Assignments/Registering/Course.antt =====
-- The groups of a course, and their members, are all registered for an assignment that has no
-- registration yet.
use stu_mgmt_service.Prelude.{
  ℕ, String, string_eq, nat_eq, ◌===◌, ===_eq, ◌≡◌, refl, ap, inl, inr, Bool-cases, List, [], ◌∷◌,
  ◌++◌, map, filter_by, All, All-append, All-mono, All-map, All-self, ◌∈◌, ∈-append_cases, Distinct,
  Distinct-filter, one_value,
}
use stu_mgmt_service.Groups.Store.{Relation, GroupRow, Database}
use stu_mgmt_service.Groups.Invariant.{group_ids, member_ids}
use stu_mgmt_service.Assignments.Registrations.{
  GroupMember, build_registration, build_registrations,
}
use stu_mgmt_service.Assignments.Registrations.Complete.Groups.{new_registration, participants}
use stu_mgmt_service.Assignments.Registering.{members_of_group, group_with_members}
use stu_mgmt_service.Assignments.Invariant.Rows.{kept}

module _ (ct : Database) where
  -- The ids of the participants of a group's relations.
  abbrev pub participants_of_group : String → List ℕ
  participants_of_group id =
      map (λ r. r.participant_id) (filter_by (λ r. r.group_id === id) ct.relations)

  abbrev pub entry : GroupRow → String × List ℕ
  entry g = (g.id, participants_of_group g.id)

  twice :
      (rs : List Relation)
      → map
          (λ (m : GroupMember). m.participant_id)
          (map (λ r. record { participant_id = r.participant_id; user_id = r.user_id }) rs)
        ≡ map (λ r. r.participant_id) rs
  twice [] = refl
  twice (r ∷ rs) = ap (◌∷◌ r.participant_id) (twice rs)

  pub built :
      (gs : List GroupRow)
      → build_registrations (map (group_with_members ct) gs) ≡ map new_registration (map entry gs)
  unfolding build_registrations build_registration group_with_members members_of_group
  built [] = refl
  built (g ∷ gs) = rw (built gs, twice (filter_by (λ r. r.group_id === g.id) ct.relations)) refl

  in_group :
      (x : ℕ) (id : String) (rs : List Relation)
      → x ∈ map (λ r. r.participant_id) (filter_by (λ r. r.group_id === id) rs)
      → ◌∈◌ {A = ℕ × String} (x, id) (map (λ r. (r.participant_id, r.group_id)) rs)
  in_group x id [] i = i
  in_group x id (r ∷ rs) i = elim (Bool-cases (r.group_id === id)) [
    | inl e ↦ own (===_eq r.group_id id e) (in_group x id rs) (rw e at i)
    | inr e ↦ inr (in_group x id rs (rw e at i))
  ]
    where
      own :
          r.group_id ≡ id
          → (x ∈ map (λ r. r.participant_id) (filter_by (λ r. r.group_id === id) rs)
              → ◌∈◌ {A = ℕ × String} (x, id) (map (λ r. (r.participant_id, r.group_id)) rs))
          → x ∈ (
              r.participant_id
              ∷ map (λ r. r.participant_id) (filter_by (λ r. r.group_id === id) rs))
          → ◌∈◌ {A = ℕ × String} (x, id) (map (λ r. (r.participant_id, r.group_id)) (r ∷ rs))
      own e rest (inl q) = inl (cc)
      own e rest (inr j) = inr (rest j)

  module _ (d : Distinct (member_ids ct.relations)) where
    elsewhere :
        (x : ℕ) (id : String) (gs : List GroupRow)
        → ◌∈◌ {A = ℕ × String} (x, id) (map (λ r. (r.participant_id, r.group_id)) ct.relations)
        → ¬ (id ∈ group_ids gs)
        → ¬ (x ∈ participants (map entry gs))
    elsewhere x id [] h n i = i
    elsewhere x id (g ∷ gs) h n i =
        elim (∈-append_cases (participants_of_group g.id) (participants (map entry gs)) x i) [
          | inl j ↦ n (
              inl (
                one_value (λ (r : Relation). r.participant_id) (λ r. r.group_id) x id g.id
                  ct.relations d h (in_group x g.id ct.relations j)))
          | inr j ↦ elsewhere x id gs h (λ k. n (inr k)) j
        ]

    pub participants-Distinct :
        (gs : List GroupRow) → Distinct (group_ids gs) → Distinct (participants (map entry gs))
    participants-Distinct [] e = tt
    participants-Distinct (g ∷ gs) e =
        joined (participants_of_group g.id)
          (Distinct-filter (λ (r : Relation). r.participant_id) (λ r. r.group_id === g.id)
            ct.relations d)
          (All-mono (λ x. x ∈ participants_of_group g.id) _ (participants_of_group g.id)
            (λ x i. elsewhere x g.id gs (in_group x g.id ct.relations i) e.0)
            (All-self (participants_of_group g.id)))
          (participants-Distinct gs e.1)
      where
        joined :
            (xs : List ℕ)
            → Distinct xs
            → All (λ x. ¬ (x ∈ participants (map entry gs))) xs
            → Distinct (participants (map entry gs))
            → Distinct (xs ++ participants (map entry gs))
        joined [] p n q = q
        joined (x ∷ xs) p n q = (
          (λ i. elim (∈-append_cases xs (participants (map entry gs)) x i) [
            | inl j ↦ p.0 j
            | inr j ↦ n.0 j
          ]),
          joined xs p.1 n.1 q,
        )

  -- What holds of the participants of all relations holds of those of the groups.
  pub participants-All :
      (P : ℕ → Type 0) (gs : List GroupRow)
      → All (λ r. P r.participant_id) ct.relations
      → All P (participants (map entry gs))
  participants-All P [] a = tt
  participants-All P (g ∷ gs) a =
      All-append P (participants_of_group g.id) (participants (map entry gs))
        (All-map (λ r. r.participant_id) P (filter_by (λ r. r.group_id === g.id) ct.relations)
          (kept (λ (r : Relation). P r.participant_id) (λ r. r.group_id === g.id) ct.relations a))
        (participants-All P gs a)
