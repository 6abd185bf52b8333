-- ===== src/Allocations/Copied.antt =====
-- What copying the allocations of an assignment to another one adds.
use stu_mgmt_service.Prelude.{
  ℕ, suc, ◌≡◌, refl, sym, ap, inl, inr, String, string_eq, ===_refl, Bool, true, false, Bool-cases,
  ◌||◌, ◌===◌, List, [], ◌∷◌, ◌++◌, map, any, filter_by, All, length, ◌==◌, arith,
}
use mathlib.Core.List.{append-nil}
use stu_mgmt_service.Groups.Models.{Outcome}
use stu_mgmt_service.Groups.Store.{continue, return, read_db, roll_back}
use stu_mgmt_service.Allocations.{
  AssessmentAllocation, AssessmentAllocationDto, Allocations, to_dto, same_id, conflicts,
  new_allocation, ids_exist, insert_allocation, insert_allocations, create_allocations,
  get_allocations_of_assignment, add_allocations_from_existing_assignment, copy_allocations,
}

-- No two allocations are for the same group, or for the same user.
abbrev pub AreApart : List AssessmentAllocation → Type 0
AreApart [] = Unit
AreApart (a ∷ rest) =
    All (λ b. (same_id b.group_id a.group_id || same_id b.user_id a.user_id) ≡ false) rest
    × AreApart rest

-- The request for an allocation as the given one, for another assignment.
abbrev pub copy : String → AssessmentAllocation → AssessmentAllocationDto
copy id a = record {
  assignment_id = id;
  assigned_evaluator_id = a.assigned_evaluator_id;
  group_id = a.group_id;
  user_id = a.user_id;
}

any-snoc :
    {A : Type 0} (p : A → Bool) (xs : List A) (x : A)
    → any p xs ≡ false
    → p x ≡ false
    → any p (xs ++ x ∷ []) ≡ false
any-snoc p [] x h k = rw k refl
any-snoc p (y ∷ xs) x h k = elim (Bool-cases (p y)) [
  | inl e ↦ grind (arith, e, h)
  | inr e ↦ rw e (any-snoc p xs x (rw e at h) k)
]

no_conflict :
    (id : String) (a : AssessmentAllocation) (rows : List AssessmentAllocation)
    → any (λ b. b.assignment_id === id) rows ≡ false
    → any (conflicts (copy id a)) rows ≡ false
no_conflict id a [] h = refl
no_conflict id a (b ∷ rows) h = elim (Bool-cases (b.assignment_id === id)) [
  | inl e ↦ grind (arith, e, h)
  | inr e ↦
      let here : conflicts (copy id a) b ≡ false = unfold conflicts in rw e refl in
      rw here (no_conflict id a rows (rw e at h))
]

rows_append :
    (rows : List AssessmentAllocation) (y : AssessmentAllocation)
    (created : List AssessmentAllocation)
    → (rows ++ y ∷ []) ++ created ≡ rows ++ y ∷ created
rows_append [] y created = refl
rows_append (x ∷ rows) y created = rw (rows_append rows y created) refl

apart_conflict :
    (id : String) (n : ℕ) (a b : AssessmentAllocation)
    → (same_id b.group_id a.group_id || same_id b.user_id a.user_id) ≡ false
    → conflicts (copy id b) (new_allocation n (copy id a)) ≡ false
unfolding conflicts new_allocation
apart_conflict id n a b h = rw (===_refl id) h

module _ (is_assignment is_group is_user : String → Bool) (id : String) where
  still_free :
      (n : ℕ) (a : AssessmentAllocation) (olds rows : List AssessmentAllocation)
      → All (λ b. (same_id b.group_id a.group_id || same_id b.user_id a.user_id) ≡ false) olds
      → All (λ b. any (conflicts (copy id b)) rows ≡ false) olds
      → All
          (λ b. any (conflicts (copy id b)) (rows ++ new_allocation n (copy id a) ∷ []) ≡ false)
          olds
  still_free n a [] rows apart free = tt
  still_free n a (b ∷ olds) rows apart free = (
    any-snoc (conflicts (copy id b)) rows (new_allocation n (copy id a)) free.0
        (apart_conflict id n a b apart.0),
    still_free n a olds rows apart.1 free.1,
  )

  insert_one :
      (dto : AssessmentAllocationDto) (db : Allocations)
      → any (conflicts dto) db.rows ≡ false
      → ids_exist is_assignment is_group is_user dto ≡ true
      → insert_allocation is_assignment is_group is_user dto db ≡ (
        Outcome.ok (new_allocation db.next_id dto),
        record { rows = db.rows ++ new_allocation db.next_id dto ∷ []; next_id = suc db.next_id },
      )
  unfolding insert_allocation
  insert_one dto db free exist = rw (free, exist) refl

  -- Copies that are in no conflict with the rows, nor with each other, are all inserted.
  insert_copies :
      (olds : List AssessmentAllocation) (db : Allocations)
      → AreApart olds
      → All (λ a. any (conflicts (copy id a)) db.rows ≡ false) olds
      → All (λ a. ids_exist is_assignment is_group is_user (copy id a) ≡ true) olds
      → (created : List AssessmentAllocation) × (n : ℕ) × (insert_allocations is_assignment is_group
            is_user
            (map (copy id) olds)
            db
          ≡ (Outcome.ok created, record { rows = db.rows ++ created; next_id = n }))
        × (map to_dto created ≡ map (copy id) olds)
  unfolding insert_allocations return continue to_dto new_allocation
  insert_copies [] db apart free exist = ([], db.next_id, rw (append-nil db.rows) refl, refl)
  insert_copies (a ∷ olds) db apart free exist =
      let y = new_allocation db.next_id (copy id a) in
      let next : Allocations = record { rows = db.rows ++ y ∷ []; next_id = suc db.next_id } in
      let one = insert_one (copy id a) db free.0 exist.0 in
      let (created, n, inserted, same) =
        insert_copies olds next apart.1 (still_free db.next_id a olds db.rows apart.0 free.1)
          exist.1 in
      (y ∷ created, n, rw one (rw inserted (rw (rows_append db.rows y created) refl)), rw same refl)

  no_conflicts :
      (olds rows : List AssessmentAllocation)
      → any (λ b. b.assignment_id === id) rows ≡ false
      → All (λ a. any (conflicts (copy id a)) rows ≡ false) olds
  no_conflicts [] rows h = tt
  no_conflicts (a ∷ olds) rows h = (no_conflict id a rows h, no_conflicts olds rows h)

  copied :
      (olds : List AssessmentAllocation) (db : Allocations)
      → AreApart olds
      → All (λ a. any (conflicts (copy id a)) db.rows ≡ false) olds
      → All (λ a. ids_exist is_assignment is_group is_user (copy id a) ≡ true) olds
      → let (result, after) = copy_allocations is_assignment is_group is_user id olds db in
        (result ≡ Outcome.ok (map (copy id) olds))
        × ((created : List AssessmentAllocation) × (after.rows ≡ db.rows ++ created)
            × (map to_dto created ≡ map (copy id) olds))
  unfolding copy_allocations create_allocations roll_back continue return to_dto
  copied [] db apart free exist = (refl, ([], sym (append-nil db.rows), refl))
  copied (a ∷ olds) db apart free exist =
      let (created, n, inserted, same) = insert_copies (a ∷ olds) db apart free exist in
      let some_left : (length (a ∷ olds) == 0) ≡ false = ground arith in
      rw (some_left, inserted) (ap Outcome.ok same, (created, refl, same))

  -- Where the new assignment has no allocation, no two of the existing one's are for the same group
  -- or the same user, and what the copies refer to exists: copying returns a copy of each
  -- allocation of the existing assignment, in their order, and the table has these rows after the
  -- ones before.
  pub add_allocations_from_existing_assignment-copies :
      (existing_id : String) (db : Allocations)
      → any (λ b. b.assignment_id === id) db.rows ≡ false
      → AreApart (filter_by (λ a. a.assignment_id === existing_id) db.rows)
      → All
          (λ a. ids_exist is_assignment is_group is_user (copy id a) ≡ true)
          (filter_by (λ a. a.assignment_id === existing_id) db.rows)
      → let (result, after) =
          add_allocations_from_existing_assignment is_assignment is_group is_user id existing_id
            db in
        let copies = map (copy id) (filter_by (λ a. a.assignment_id === existing_id) db.rows) in
        (result ≡ Outcome.ok copies)
        × ((created : List AssessmentAllocation) × (after.rows ≡ db.rows ++ created)
            × (map to_dto created ≡ copies))
  unfolding add_allocations_from_existing_assignment get_allocations_of_assignment read_db continue
  add_allocations_from_existing_assignment-copies existing_id db none_yet apart exist =
      let olds = filter_by (λ a. a.assignment_id === existing_id) db.rows in
      copied olds db apart (no_conflicts olds db.rows none_yet) exist
