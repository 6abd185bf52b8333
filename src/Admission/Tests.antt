-- ===== src/Admission/Tests.antt =====
-- The rules and the status of admission on small data, and each theorem at a concrete input.
use text.Mathlib.TextEquality.{eq_iff}
use stu_mgmt_service.Prelude.{
  inl, inr, false, Distinct, filter_by, ℕ, ◌≤◌, ◌≡◌, refl, ◌↔◌, ◌⊎◌, String, string_eq, true, List,
  [], ◌∷◌, map, some, none, All, length, map_set, map_get, nat_eq, arith,
}
use stu_mgmt_service.Groups.Models.{Exception, Outcome}
use stu_mgmt_service.Assignments.Models.{
  AssignmentState, AssignmentType, CollaborationType, state_eq, AssignmentRow,
}
use stu_mgmt_service.Admission.Rounding.{RoundingType, RoundingBehavior, ℤ, Number, rounding_method}
use stu_mgmt_service.Admission.Rules.{
  RuleType, AdmissionRuleDto, Assessment, filter_assignments_by_type, filter_assessments_by_type,
  check_overall, check_individual,
}
use stu_mgmt_service.Admission.Rules.Outcomes.{check_overall-rounds_down}
use stu_mgmt_service.Admission.Rules.Failures.{fails, check_individual_counts}
use stu_mgmt_service.Admission.Rules.Last.{last_assessment, points_of_assessment}
use stu_mgmt_service.Admission.Status.{
  Student, compute_admission_status, get_student_results, get_admission_status_of_participants,
}
use stu_mgmt_service.Admission.Status.Overview.{
  id_of_assessment, get_student_results-last, IsPrevious, compute_admission_status_iff,
}

abbrev sheet : String → AssignmentRow
sheet id = record {
  id = id;
  name = id;
  state = AssignmentState.evaluated;
  start_date = none;
  end_date = none;
  comment = none;
  links = none;
  configs = none;
  kind = AssignmentType.homework;
  points = 3;
  bonus_points = none;
  collaboration = CollaborationType.single;
  course_id = "java";
}

abbrev sheets : List AssignmentRow
sheets = sheet "s1" ∷ sheet "s2" ∷ []

abbrev assessed : String → String → ℕ → Assessment
assessed id assignment_id points = record {
  id = id;
  assignment_id = assignment_id;
  assignment_type = AssignmentType.homework;
  assignment_state = AssignmentState.evaluated;
  achieved_points = some points;
}

abbrev two_of_three : List Assessment
two_of_three = assessed "a1" "s1" 2 ∷ assessed "a2" "s2" 2 ∷ []

abbrev rounding : RoundingType → RoundingBehavior
rounding kind = record { kind = kind; decimals = none }

abbrev half : AdmissionRuleDto
half = record {
  kind = some RuleType.required_percent_overall;
  assignment_type = AssignmentType.homework;
  required_percent = record { numerator = 101; denominator = 2 };
  achieved_percent_rounding = rounding RoundingType.down_nearest_integer;
  allowed_failures = 1;
}

abbrev one_failure : AdmissionRuleDto
one_failure = record half {
  kind = some RuleType.individual_percent_with_allowed_failures;
  required_percent = record { numerator = 70; denominator = 1 };
}

abbrev ada : Student
ada = record { user_id = "ada"; matr_nr = some 7; assessments = two_of_three }

round_up_test :
    rounding_method (rounding RoundingType.up_nearest_integer) (Number.fraction 200 3)
    ≡ Number.fraction 67 1
unfolding rounding_method
round_up_test = refl

round_without_decimals_test :
    rounding_method (rounding RoundingType.to_decimals) (Number.fraction 200 3)
    ≡ Number.not_a_number
unfolding rounding_method
round_without_decimals_test = refl

failures_test : (check_individual one_failure sheets two_of_three).achieved_points ≡ 2
unfolding check_individual map_set map_get
failures_test = refl

no_criteria_test :
    get_admission_status_of_participants sheets none [] (ada ∷ [])
    ≡ Outcome.throws Exception.not_found
unfolding get_admission_status_of_participants
no_criteria_test = refl

-- 125 is rounded to tens.
round_tens_test :
    rounding_method
      (record { kind = RoundingType.to_decimals; decimals = some (ℤ.negsuc 0) })
      (Number.fraction 125 1)
    ≡ Number.fraction 130 1
unfolding rounding_method
round_tens_test = refl

abbrev two_thirds : AdmissionRuleDto
two_thirds = record half { required_percent = record { numerator = 66; denominator = 1 } }

check_overall-rounds_down_example :
    (check_overall two_thirds sheets two_of_three).passed
    ≡ (check_overall
        (record two_thirds { achieved_percent_rounding = rounding RoundingType.unrounded })
        sheets
        two_of_three).passed
check_overall-rounds_down_example =
    check_overall-rounds_down two_thirds (rounding RoundingType.unrounded) sheets two_of_three refl
      refl refl

-- With a required percentage that is no whole number, rounding down to one matters.
abbrev two_thirds_exactly : AdmissionRuleDto
two_thirds_exactly = record half { required_percent = record { numerator = 133; denominator = 2 } }

rounded_down_test : (check_overall two_thirds_exactly sheets two_of_three).passed ≡ false
unfolding check_overall
rounded_down_test = refl

not_rounded_test :
    (check_overall
      (record two_thirds_exactly { achieved_percent_rounding = rounding RoundingType.unrounded })
      sheets
      two_of_three).passed
    ≡ true
unfolding check_overall
not_rounded_test = refl

sheets_apart : Distinct (map (λ (a : AssignmentRow). a.id) sheets)
sheets_apart = ((λ i. elim i [ inl e ↦ apart e | inr j ↦ j ]), ((λ i. i), tt))
  where
    apart : ◌≡◌ {A = String} "s1" "s2" → ⊥
    apart e = ground (arith, eq_iff "s1" "s2")

check_individual_counts_example :
    let result = check_individual one_failure sheets two_of_three in
    let failed = length (
      filter_by
        (fails one_failure (filter_assessments_by_type one_failure two_of_three))
        (filter_assignments_by_type one_failure sheets)) in
    (result.achieved_points ≡ failed)
    × ((result.passed ≡ true) ↔ (failed ≤ one_failure.allowed_failures))
check_individual_counts_example =
    check_individual_counts one_failure sheets two_of_three sheets_apart

get_student_results-last_example :
    let results = get_student_results ada sheets in
    (results.achieved_points
      ≡ map (λ a. points_of_assessment (last_assessment a.id ada.assessments none)) sheets)
    × (results.assessment_ids
        ≡ map (λ a. id_of_assessment (last_assessment a.id ada.assessments none)) sheets)
get_student_results-last_example = get_student_results-last ada sheets

compute_admission_status_iff_example :
    let criteria = check_overall half sheets ∷ check_individual one_failure sheets ∷ [] in
    ((compute_admission_status ada criteria (7 ∷ [])).has_admission ≡ true) ↔ (
      All (λ check. (check ada.assessments).passed ≡ true) criteria
      ⊎ IsPrevious ada.matr_nr (7 ∷ []))
compute_admission_status_iff_example =
    compute_admission_status_iff ada
      (check_overall half sheets ∷ check_individual one_failure sheets ∷ []) (7 ∷ [])
