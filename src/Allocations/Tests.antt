-- ===== src/Allocations/Tests.antt =====
-- Runs of the allocations on small data, and each theorem at a concrete input.
use stu_mgmt_service.Prelude.{
  List, ◌++◌, map, All, filter_by, ◌≡◌, refl, String, string_eq, Bool, true, not, ◌===◌, [], ◌∷◌,
  some, none, find_by,
}
use stu_mgmt_service.Groups.Models.{Exception, Outcome}
use stu_mgmt_service.Groups.Store.{continue}
use stu_mgmt_service.Allocations.{
  to_dto, AssessmentAllocation, Allocations, is_allocation_of, create_allocation,
  add_allocations_from_existing_assignment, remove_allocation, ids_exist,
}
use stu_mgmt_service.Allocations.Copied.{copy, add_allocations_from_existing_assignment-copies}
use stu_mgmt_service.Allocations.Created.{
  Target, request, evaluator_in, evaluator_of, create_allocation_assigns,
}

abbrev to_tom : AssessmentAllocation
to_tom = record {
  id = 1;
  assignment_id = "s1";
  user_id = none;
  group_id = some "g1";
  assigned_evaluator_id = "tom";
}

abbrev one_allocation : Allocations
one_allocation = record { rows = to_tom ∷ []; next_id = 2 }

abbrev exists : String → Bool
exists id = not (id === "nobody")

copy_test :
    (add_allocations_from_existing_assignment exists exists exists "s2" "s1" one_allocation).1
    ≡ record { rows = to_tom ∷ record to_tom { id = 2; assignment_id = "s2" } ∷ []; next_id = 3 }
unfolding add_allocations_from_existing_assignment continue
copy_test = refl

copy_twice_test :
    (add_allocations_from_existing_assignment exists exists exists "s1" "s1" one_allocation).0
    ≡ Outcome.throws Exception.query_failed
unfolding add_allocations_from_existing_assignment continue
copy_twice_test = refl

all_exist : ids_exist exists exists exists (request (Target.for_group "g1") "s1" "eve") ≡ true
unfolding ids_exist
all_exist = refl

create_allocation_assigns_example :
    let dto = request (Target.for_group "g1") "s1" "eve" in
    let (result, after) = create_allocation exists exists exists dto one_allocation in
    (evaluator_in result ≡ some "eve")
    × (evaluator_of (find_by (is_allocation_of dto) after.rows) ≡ some "eve")
create_allocation_assigns_example =
    create_allocation_assigns exists exists exists (Target.for_group "g1") "s1" "eve" one_allocation
      refl all_exist

-- A deletion that is refused without an id, as it is of an allocation that exists.
remove_test :
    remove_allocation
      (λ id db. elim id [
        | none ↦ (Outcome.throws Exception.plain_error, db)
        | some i ↦ (Outcome.ok 1, db)
      ])
      (request (Target.for_group "g1") "s1" "tom")
      one_allocation
    ≡ (Outcome.throws Exception.plain_error, one_allocation)
unfolding remove_allocation continue
remove_test = refl

copies_exist :
    All
      (λ a. ids_exist exists exists exists (copy "s2" a) ≡ true)
      (filter_by (λ (a : AssessmentAllocation). a.assignment_id === "s1") one_allocation.rows)
unfolding ids_exist
copies_exist = (refl, tt)

add_allocations_from_existing_assignment-copies_example :
    let (result, after) =
      add_allocations_from_existing_assignment exists exists exists "s2" "s1" one_allocation in
    let copies = copy "s2" to_tom ∷ [] in
    (result ≡ Outcome.ok copies)
    × ((created : List AssessmentAllocation) × (after.rows ≡ one_allocation.rows ++ created)
        × (map to_dto created ≡ copies))
add_allocations_from_existing_assignment-copies_example =
    add_allocations_from_existing_assignment-copies exists exists exists "s2" "s1" one_allocation
      refl (tt, tt) copies_exist
