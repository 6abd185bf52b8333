-- ===== src/Admission/Status/Overview.antt =====
-- What the status and the overview of points say of a student.
use stu_mgmt_service.Prelude.{
  ℕ, nat_eq, String, string_eq, ◌===◌, ◌≡◌, refl, ◌↔◌, ◌⊎◌, inl, inr, Bool, true, false, Bool-cases,
  ◌||◌, List, [], ◌∷◌, map, Option, none, some, if◌then◌else◌, has, has→∈, has-false, ◌∈◌, All,
  map_get, map_set, map_get-map_set, both_left, both_right, arith, ◌∙◌,
}
use stu_mgmt_service.Assignments.Models.{AssignmentRow}
use stu_mgmt_service.Admission.Rules.{Assessment, RuleCheckResult}
use stu_mgmt_service.Admission.Rules.Last.{last_assessment, points_of_assessment}
use stu_mgmt_service.Admission.Status.{
  Student, every_passed, is_from_previous, compute_admission_status, AchievedPoints,
  map_achieved_points_to_assignment, points_in, assessment_in, get_student_results,
}

abbrev pub id_of_assessment : Option Assessment → Option String
id_of_assessment none = none
id_of_assessment (some a) = some a.id

abbrev as_achieved : Option Assessment → Option AchievedPoints
as_achieved none = none
as_achieved (some a) = some (record { achieved_points = a.achieved_points; assessment_id = a.id })

achieved_last :
    (id : String) (assessments : List Assessment) (m : List (String × AchievedPoints))
    (found : Option Assessment)
    → map_get id m ≡ as_achieved found
    → map_get id (map_achieved_points_to_assignment assessments m)
      ≡ as_achieved (last_assessment id assessments found)
unfolding map_achieved_points_to_assignment
achieved_last id [] m found h = h
achieved_last id (a ∷ rest) m found h =
    let entry : AchievedPoints = record {
      achieved_points = a.achieved_points;
      assessment_id = a.id;
    } in
    achieved_last id rest (map_set a.assignment_id entry m)
      (if a.assignment_id === id then some a else found)
      (map_get-map_set a.assignment_id id entry m ∙ chosen (a.assignment_id === id))
  where
    chosen :
        (b : Bool)
        → (if b
            then some (record { achieved_points = a.achieved_points; assessment_id = a.id })
            else map_get id m)
          ≡ as_achieved (if b then some a else found)
    chosen true = refl
    chosen false = h

-- For each assignment of the overview, in its order, a student's results have the points and the
-- id of the student's last assessment for it, and nothing where there is none.
pub get_student_results-last :
    (student : Student) (assignments : List AssignmentRow)
    → let results = get_student_results student assignments in
      (results.achieved_points
        ≡ map
            (λ a. points_of_assessment (last_assessment a.id student.assessments none))
            assignments)
      × (results.assessment_ids
          ≡ map (λ a. id_of_assessment (last_assessment a.id student.assessments none)) assignments)
unfolding get_student_results
get_student_results-last student assignments = (points assignments, ids assignments)
  where
    achieved : List (String × AchievedPoints)
    achieved = map_achieved_points_to_assignment student.assessments []

    last :
        (a : AssignmentRow)
        → map_get a.id achieved ≡ as_achieved (last_assessment a.id student.assessments none)
    last a = achieved_last a.id student.assessments [] none (unfold map_get in refl)

    of_points : (o : Option Assessment) → points_in (as_achieved o) ≡ points_of_assessment o
    of_points none = unfold points_in in refl
    of_points (some a) = unfold points_in in refl

    of_ids : (o : Option Assessment) → assessment_in (as_achieved o) ≡ id_of_assessment o
    of_ids none = unfold assessment_in in refl
    of_ids (some a) = unfold assessment_in in refl

    points :
        (rows : List AssignmentRow)
        → map (λ a. points_in (map_get a.id achieved)) rows
          ≡ map (λ a. points_of_assessment (last_assessment a.id student.assessments none)) rows
    points [] = refl
    points (a ∷ rows) =
        rw (last a, of_points (last_assessment a.id student.assessments none), points rows) refl

    ids :
        (rows : List AssignmentRow)
        → map (λ a. assessment_in (map_get a.id achieved)) rows
          ≡ map (λ a. id_of_assessment (last_assessment a.id student.assessments none)) rows
    ids [] = refl
    ids (a ∷ rows) =
        rw (last a, of_ids (last_assessment a.id student.assessments none), ids rows) refl

-- The student is one of those that were admitted in a previous semester.
abbrev pub IsPrevious : Option ℕ → List ℕ → Type 0
IsPrevious none numbers = ⊥
IsPrevious (some number) numbers = number ∈ numbers

every_passed_iff :
    (assessments : List Assessment) (criteria : List (List Assessment → RuleCheckResult))
    → (every_passed (map (λ check. check assessments) criteria) ≡ true)
      ↔ All (λ check. (check assessments).passed ≡ true) criteria
unfolding every_passed
every_passed_iff assessments [] = ((λ h. tt), (λ h. refl))
every_passed_iff assessments (check ∷ criteria) =
    let (to, from) = every_passed_iff assessments criteria in
    (
      (λ h. (
        both_left (check assessments).passed _ h,
        to (both_right (check assessments).passed _ h),
      )),
      (λ h. rw (h.0, from h.1) refl),
    )

is_from_previous_iff :
    (number : Option ℕ) (numbers : List ℕ)
    → (is_from_previous number numbers ≡ true) ↔ IsPrevious number numbers
unfolding is_from_previous
is_from_previous_iff none numbers = ground arith
is_from_previous_iff (some number) numbers = (has→∈ number numbers, present)
  where
    present : number ∈ numbers → has number numbers ≡ true
    present i = elim (Bool-cases (has number numbers)) [
      | inl e ↦ e
      | inr e ↦ absurd (has-false number numbers e i)
    ]

-- A student has admission exactly if all rules are passed with the student's assessments or the
-- student was admitted in a previous semester.
pub compute_admission_status_iff :
    (student : Student) (criteria : List (List Assessment → RuleCheckResult)) (previous : List ℕ)
    → ((compute_admission_status student criteria previous).has_admission ≡ true) ↔ (
        All (λ check. (check student.assessments).passed ≡ true) criteria
        ⊎ IsPrevious student.matr_nr previous)
unfolding compute_admission_status
compute_admission_status_iff student criteria previous = (to, from)
  where
    rules : Bool
    rules = every_passed (map (λ check. check student.assessments) criteria)

    to :
        (rules || is_from_previous student.matr_nr previous) ≡ true
        → All (λ check. (check student.assessments).passed ≡ true) criteria
          ⊎ IsPrevious student.matr_nr previous
    to h = elim (Bool-cases rules) [
      | inl e ↦ inl ((every_passed_iff student.assessments criteria).0 e)
      | inr e ↦ inr ((is_from_previous_iff student.matr_nr previous).0 (rw e at h))
    ]

    from :
        All (λ check. (check student.assessments).passed ≡ true) criteria
          ⊎ IsPrevious student.matr_nr previous
        → (rules || is_from_previous student.matr_nr previous) ≡ true
    from (inl a) = rw ((every_passed_iff student.assessments criteria).1 a) refl
    from (inr p) = rw ((is_from_previous_iff student.matr_nr previous).1 p) (ground arith)
