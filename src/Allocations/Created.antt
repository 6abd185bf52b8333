-- ===== src/Allocations/Created.antt =====
-- What a created allocation leaves in the table.
use stu_mgmt_service.Prelude.{
  ℕ, ◌≡◌, refl, inl, inr, String, string_eq, Bool, true, false, Bool-cases, ◌===◌, option_eq, List,
  [], ◌∷◌, ◌++◌, Option, none, some, any, find_by, update_by, arith, nat_eq, ap, ◌∙◌, ===_refl,
  both_left, both_right,
}
use stu_mgmt_service.Groups.Models.{Outcome}
use stu_mgmt_service.Allocations.{
  AssessmentAllocation, AssessmentAllocationDto, Allocations, if_given, is_for, same_id,
  is_allocation_of, conflicts, new_allocation, ids_exist, create_allocation, update_or_insert,
  save_allocation, insert_allocation, to_dto, get_allocation,
}
use stu_mgmt_service.Groups.Store.{continue, return, read_db}

module _ {A : Type 0} (p q : A → Bool) (y : A) (py : p y ≡ true) where
  find-update_by :
      (x : A) (xs : List A)
      → find_by p xs ≡ some x
      → q x ≡ true
      → find_by p (update_by q y xs) ≡ some y
  find-update_by x [] h k = grind (arith, h)
  find-update_by x (z ∷ xs) h k = elim (Bool-cases (q z)) [
    | inl e ↦ rw (e, py) refl
    | inr e ↦ rw e (elim (Bool-cases (p z)) [
      | inl f ↦ grind (arith, h, k, e, f)
      | inr f ↦ rw f (find-update_by x xs (rw f at h) k)
    ])
  ]

  find-append : (xs : List A) → find_by p xs ≡ none → find_by p (xs ++ y ∷ []) ≡ some y
  find-append [] h = rw py refl
  find-append (z ∷ xs) h = elim (Bool-cases (p z)) [
    | inl f ↦ grind (arith, h, f)
    | inr f ↦ rw f (find-append xs (rw f at h))
  ]

any-none :
    {A : Type 0} (p r : A → Bool)
    → ((x : A) → r x ≡ true → p x ≡ true)
    → (xs : List A) → find_by p xs ≡ none
    → any r xs ≡ false
any-none p r imp [] h = refl
any-none p r imp (z ∷ xs) h = elim (Bool-cases (p z)) [
  | inl f ↦ grind (arith, h, f)
  | inr f ↦ elim (Bool-cases (r z)) [
    | inl e ↦ grind (arith, imp z e, f)
    | inr e ↦ rw e (any-none p r imp xs (rw f at h))
  ]
]

find_true : {A : Type 0} (p : A → Bool) (x : A) (xs : List A) → find_by p xs ≡ some x → p x ≡ true
find_true p x [] h = grind (arith, h)
find_true p x (z ∷ xs) h = elim (Bool-cases (p z)) [
  | inl f ↦ grind (arith, h, f)
  | inr f ↦ find_true p x xs (rw f at h)
]

-- What an allocation is for, and the request to allocate it.
pub data Target : Type 0 where
  for_group : String → Target
  for_user : String → Target

abbrev pub target_id : Target → String
target_id (Target.for_group id) = id
target_id (Target.for_user id) = id

abbrev pub request : Target → String → String → AssessmentAllocationDto
request (Target.for_group id) assignment_id evaluator_id = record {
  assignment_id = assignment_id;
  assigned_evaluator_id = evaluator_id;
  group_id = some id;
  user_id = none;
}
request (Target.for_user id) assignment_id evaluator_id = record {
  assignment_id = assignment_id;
  assigned_evaluator_id = evaluator_id;
  group_id = none;
  user_id = some id;
}

conflicts-is_allocation_of :
    (t : Target) (id evaluator : String) (a : AssessmentAllocation)
    → (target_id t === "") ≡ false
    → conflicts (request t id evaluator) a ≡ true
    → is_allocation_of (request t id evaluator) a ≡ true
unfolding conflicts is_allocation_of same_id is_for if_given
conflicts-is_allocation_of (Target.for_group g) id ev a h k = rw h (ground (arith, k))
conflicts-is_allocation_of (Target.for_user u) id ev a h k = rw h k

new_allocation-is_allocation_of :
    (t : Target) (id evaluator : String) (n : ℕ)
    → (target_id t === "") ≡ false
    → is_allocation_of (request t id evaluator) (new_allocation n (request t id evaluator)) ≡ true
unfolding is_allocation_of is_for if_given new_allocation
new_allocation-is_allocation_of (Target.for_group g) id ev n h =
    rw (h, ===_refl id) (===_refl (some g))
new_allocation-is_allocation_of (Target.for_user u) id ev n h =
    rw (h, ===_refl id) (===_refl (some u))

is_for-evaluator :
    (group user : Option String) (a : AssessmentAllocation) (evaluator : String)
    → is_for group user (record a { assigned_evaluator_id = evaluator }) ≡ is_for group user a
unfolding is_for
is_for-evaluator (some g) user a ev = refl
is_for-evaluator none (some u) a ev = refl
is_for-evaluator none none a ev = refl

is_allocation_of-evaluator :
    (dto : AssessmentAllocationDto) (a : AssessmentAllocation) (evaluator : String)
    → is_allocation_of dto (record a { assigned_evaluator_id = evaluator }) ≡ is_allocation_of dto a
unfolding is_allocation_of
is_allocation_of-evaluator dto a ev =
    rw (is_for-evaluator (if_given dto.group_id) (if_given dto.user_id) a ev) refl

request_evaluator : (t : Target) (id ev : String) → (request t id ev).assigned_evaluator_id ≡ ev
request_evaluator (Target.for_group g) id ev = refl
request_evaluator (Target.for_user u) id ev = refl

-- What the two results say of the evaluator.
abbrev pub evaluator_of : Option AssessmentAllocation → Option String
evaluator_of none = none
evaluator_of (some a) = some a.assigned_evaluator_id

abbrev pub evaluator_in : Outcome AssessmentAllocationDto → Option String
evaluator_in (Outcome.ok dto) = some dto.assigned_evaluator_id
evaluator_in (Outcome.throws e) = none

module _ (is_assignment is_group is_user : String → Bool) where
  evaluator_exists :
      (t : Target) (id ev : String)
      → ids_exist is_assignment is_group is_user (request t id ev) ≡ true
      → is_user ev ≡ true
  unfolding ids_exist
  evaluator_exists (Target.for_group g) id ev r =
      both_left (is_user ev) _ (both_right (is_assignment id) _ r)
  evaluator_exists (Target.for_user u) id ev r =
      both_left (is_user ev) _ (both_right (is_assignment id) _ r)

  update_or_insert_assigns :
      (t : Target) (id ev : String) (db : Allocations) (existing : Option AssessmentAllocation)
      → (target_id t === "") ≡ false
      → ids_exist is_assignment is_group is_user (request t id ev) ≡ true
      → find_by (is_allocation_of (request t id ev)) db.rows ≡ existing
      → let dto = request t id ev in
        let (result, after) =
          continue
            (λ saved. return (to_dto saved))
            (update_or_insert is_assignment is_group is_user dto existing db) in
        (evaluator_in result ≡ some ev)
        × (evaluator_of (find_by (is_allocation_of dto) after.rows) ≡ some ev)
  unfolding continue return to_dto update_or_insert save_allocation insert_allocation
  update_or_insert_assigns t id ev db none h r f =
      let p = is_allocation_of (request t id ev) in
      let y = new_allocation db.next_id (request t id ev) in
      let free =
        any-none p (conflicts (request t id ev)) (λ a. conflicts-is_allocation_of t id ev a h)
          db.rows f in
      let py = new_allocation-is_allocation_of t id ev db.next_id h in
      rw (free, r, find-append p p y py db.rows f)
        (ap some (request_evaluator t id ev), ap some (request_evaluator t id ev))
  update_or_insert_assigns t id ev db (some x) h r f =
      let dto = request t id ev in
      let y : AssessmentAllocation = record x { assigned_evaluator_id = ev } in
      let kept =
        is_allocation_of-evaluator dto x ev ∙ find_true (is_allocation_of dto) x db.rows f in
      rw (request_evaluator t id ev, evaluator_exists t id ev r)
        (
          refl,
          ap evaluator_of (
              find-update_by (is_allocation_of dto) (λ b. b.id === x.id) y kept x db.rows f
                (===_refl x.id)),
        )

  -- Where the references of a request for a group or a user exist, creating the allocation
  -- returns the requested evaluator, and the table has that evaluator for the group or user
  -- afterwards, whether there was an allocation before or not.
  pub create_allocation_assigns :
      (t : Target) (assignment_id evaluator_id : String) (db : Allocations)
      → (target_id t === "") ≡ false
      → ids_exist is_assignment is_group is_user (request t assignment_id evaluator_id) ≡ true
      → let dto = request t assignment_id evaluator_id in
        let (result, after) = create_allocation is_assignment is_group is_user dto db in
        (evaluator_in result ≡ some evaluator_id)
        × (evaluator_of (find_by (is_allocation_of dto) after.rows) ≡ some evaluator_id)
  unfolding create_allocation get_allocation read_db continue
  create_allocation_assigns t id ev db h r =
      update_or_insert_assigns t id ev db (find_by (is_allocation_of (request t id ev)) db.rows) h r
        refl
