-- ===== src/Admission/Rules.antt =====
-- The rules of src/admission-status/rules.
pub mod Outcomes
pub mod Last
pub mod Failures
use stu_mgmt_service.Prelude.{
  ℕ, suc, String, string_eq, Bool, true, false, ◌&&◌, ◌==◌, ◌===◌, List, [], ◌∷◌, map, Option, none,
  some, if◌then◌else◌, leb, filter_by, map_get, map_set, Eq, ◌↔◌, ◌≡◌, arith,
}
use stu_mgmt_service.Groups.Models.{Exception, Outcome}
use stu_mgmt_service.Assignments.Models.{AssignmentState, AssignmentType, state_eq, AssignmentRow}
use stu_mgmt_service.Admission.Rounding.{
  RoundingBehavior, Fraction, Number, percent, rounding_method, at_least, less_than, sum_of,
}

pub data RuleType : Type 0 where
  individual_percent_with_allowed_failures : RuleType
  required_percent_overall : RuleType

-- `AdmissionRuleDto`, whose type may be some other text.
pub record AdmissionRuleDto : Type 0 where
  pub kind : Option RuleType
  pub assignment_type : AssignmentType
  pub required_percent : Fraction
  pub achieved_percent_rounding : RoundingBehavior
  pub allowed_failures : ℕ

-- What is read of an assessment, and of its assignment.
pub record Assessment : Type 0 where
  pub id : String
  pub assignment_id : String
  pub assignment_type : AssignmentType
  pub assignment_state : AssignmentState
  pub achieved_points : Option ℕ

pub record RuleCheckResult : Type 0 where
  pub passed : Bool
  pub achieved_points : ℕ
  pub achieved_percent : Number
  pub rule : RuleType
  pub assignment_type : AssignmentType

abbrev pub type_number : AssignmentType → ℕ
type_number AssignmentType.homework = 0
type_number AssignmentType.testat = 1
type_number AssignmentType.seminar = 2
type_number AssignmentType.project = 3
type_number AssignmentType.other = 4

-- `===` on types of assignments.
unfoldable pub same_type : AssignmentType → AssignmentType → Bool
same_type s t = type_number s == type_number t

-- `a.achievedPoints ?? 0`
unfoldable pub points_or_zero : Option ℕ → ℕ
points_or_zero none = 0
points_or_zero (some points) = points

module _ (rule : AdmissionRuleDto) where
  unfoldable pub filter_assignments_by_type : List AssignmentRow → List AssignmentRow
  unfolding same_type
  filter_assignments_by_type =
      filter_by
        (λ a. same_type a.kind rule.assignment_type && (a.state === AssignmentState.evaluated))

  unfoldable pub filter_assessments_by_type : List Assessment → List Assessment
  unfolding same_type
  filter_assessments_by_type = filter_by (λ a.
      same_type a.assignment_type rule.assignment_type
      && (a.assignment_state === AssignmentState.evaluated))

  -- OverallPercentRuleImpl, of the assignments that its constructor gets.
  unfoldable pub overall_points : List AssignmentRow → ℕ
  unfolding filter_assignments_by_type sum_of
  overall_points assignments = sum_of (filter_assignments_by_type assignments) (λ a. a.points)

  unfoldable pub sum_of_achieved : List Assessment → ℕ
  unfolding filter_assessments_by_type sum_of points_or_zero
  sum_of_achieved assessments =
      sum_of (filter_assessments_by_type assessments) (λ a. points_or_zero a.achieved_points)

  unfoldable pub achieved_percent : ℕ → ℕ → Number
  unfolding rounding_method percent
  achieved_percent achieved overall =
      rounding_method rule.achieved_percent_rounding (percent achieved overall)

  unfoldable pub check_overall : List AssignmentRow → List Assessment → RuleCheckResult
  unfolding overall_points sum_of_achieved achieved_percent at_least
  check_overall assignments assessments =
      let overall = overall_points assignments in
      let achieved = sum_of_achieved assessments in
      if overall == 0
      then record {
        passed = true;
        achieved_points = 0;
        achieved_percent = Number.fraction 100 1;
        rule = RuleType.required_percent_overall;
        assignment_type = rule.assignment_type;
      }
      else record {
        passed = at_least (achieved_percent achieved overall) rule.required_percent;
        achieved_points = achieved;
        achieved_percent = achieved_percent achieved overall;
        rule = RuleType.required_percent_overall;
        assignment_type = rule.assignment_type;
      }

  -- IndividualPercentWithAllowedFailuresImpl, and the map that its constructor fills.
  unfoldable pub fill_required : List AssignmentRow → List (String × ℕ) → List (String × ℕ)
  fill_required [] m = m
  fill_required (a ∷ rest) m = fill_required rest (map_set a.id a.points m)

  unfoldable pub required_points_to_pass : List AssignmentRow → List (String × ℕ)
  unfolding fill_required filter_assignments_by_type
  required_points_to_pass assignments = fill_required (filter_assignments_by_type assignments) []

  unfoldable pub fill_achieved :
      List Assessment → List (String × Option ℕ) → List (String × Option ℕ)
  fill_achieved [] m = m
  fill_achieved (a ∷ rest) m = fill_achieved rest (map_set a.assignment_id a.achieved_points m)

  -- `achievedPoints.get(assignmentId) ?? 0`
  unfoldable pub points_of : Option (Option ℕ) → ℕ
  unfolding points_or_zero
  points_of none = 0
  points_of (some points) = points_or_zero points

  unfoldable pub student_failed_assignment : List (String × Option ℕ) → String × ℕ → Bool
  unfolding points_of achieved_percent less_than
  student_failed_assignment achieved (assignment_id, required) =
      less_than (achieved_percent (points_of (map_get assignment_id achieved)) required)
        rule.required_percent

  unfoldable pub count_failed_assignments : List (String × Option ℕ) → List (String × ℕ) → ℕ
  unfolding student_failed_assignment
  count_failed_assignments achieved [] = 0
  count_failed_assignments achieved (entry ∷ entries) =
      let failures = count_failed_assignments achieved entries in
      if student_failed_assignment achieved entry then suc failures else failures

  unfoldable pub check_individual : List AssignmentRow → List Assessment → RuleCheckResult
  unfolding required_points_to_pass fill_achieved filter_assessments_by_type
      count_failed_assignments percent
  check_individual assignments assessments =
      let failed =
        count_failed_assignments (fill_achieved (filter_assessments_by_type assessments) [])
          (required_points_to_pass assignments) in
      record {
        passed = leb failed rule.allowed_failures;
        achieved_points = failed;
        achieved_percent = percent failed rule.allowed_failures;
        rule = RuleType.individual_percent_with_allowed_failures;
        assignment_type = rule.assignment_type;
      }

-- `AdmissionRuleFactory.create`, and the rule's check.
unfoldable pub create_rule :
    AdmissionRuleDto → List AssignmentRow → Outcome (List Assessment → RuleCheckResult)
unfolding check_overall check_individual
create_rule rule assignments = elim rule.kind [
  | none ↦ Outcome.throws Exception.plain_error
  | some RuleType.required_percent_overall ↦ Outcome.ok (check_overall rule assignments)
  | some RuleType.individual_percent_with_allowed_failures ↦
      Outcome.ok (check_individual rule assignments)
]
