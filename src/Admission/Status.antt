-- ===== src/Admission/Status.antt =====
-- AdmissionStatusService, on the students, assignments and criteria that were loaded.
pub mod Overview
use stu_mgmt_service.Prelude.{
  ℕ, nat_eq, String, string_eq, Bool, true, false, not, ◌&&◌, ◌||◌, ◌===◌, List, [], ◌∷◌, map,
  Option, none, some, if◌then◌else◌, ltb, length, filter_by, has, to_set, map_get, map_set,
}
use stu_mgmt_service.Groups.Models.{Exception, Outcome}
use stu_mgmt_service.Assignments.Models.{AssignmentState, state_eq, AssignmentRow}
use stu_mgmt_service.Assignments.Registering.{cons_outcome}
use stu_mgmt_service.Admission.Rules.{AdmissionRuleDto, Assessment, RuleCheckResult, create_rule}

-- A student with assessments.
pub record Student : Type 0 where
  pub user_id : String
  pub matr_nr : Option ℕ
  pub assessments : List Assessment

pub record AdmissionStatus : Type 0 where
  pub participant : Student
  pub has_admission : Bool
  pub has_admission_from_previous_semester : Bool
  pub fulfills_admission_criteria : Bool
  pub results : List RuleCheckResult

-- `rules?.length > 0`
unfoldable pub rules_of : Option (List AdmissionRuleDto) → List AdmissionRuleDto
rules_of none = []
rules_of (some rules) = rules

unfoldable pub course_has_no_admission_criteria : Option (List AdmissionRuleDto) → Bool
unfolding rules_of
course_has_no_admission_criteria rules = not (ltb 0 (length (rules_of rules)))

unfoldable pub filter_evaluated_assignments : List AssignmentRow → List AssignmentRow
filter_evaluated_assignments = filter_by (λ a. a.state === AssignmentState.evaluated)

-- `results.every(rule => rule.passed)`
unfoldable pub every_passed : List RuleCheckResult → Bool
every_passed [] = true
every_passed (r ∷ results) = r.passed && every_passed results

-- `fromPreviousSemester.has(studentDto.matrNr)`
unfoldable pub is_from_previous : Option ℕ → List ℕ → Bool
is_from_previous none numbers = false
is_from_previous (some number) numbers = has number numbers

unfoldable pub compute_admission_status :
    Student → List (List Assessment → RuleCheckResult) → List ℕ → AdmissionStatus
unfolding every_passed is_from_previous
compute_admission_status student criteria from_previous =
    let results = map (λ check. check student.assessments) criteria in
    let fulfills = every_passed results in
    let previous = is_from_previous student.matr_nr from_previous in
    record {
      participant = student;
      has_admission = fulfills || previous;
      has_admission_from_previous_semester = previous;
      fulfills_admission_criteria = fulfills;
      results = results;
    }

-- `rules.map(rule => AdmissionRuleFactory.create(rule, evaluated))`
unfoldable pub create_rules :
    List AdmissionRuleDto → List AssignmentRow → Outcome (List (List Assessment → RuleCheckResult))
unfolding create_rule cons_outcome
create_rules [] evaluated = Outcome.ok []
create_rules (rule ∷ rules) evaluated =
    cons_outcome (create_rule rule evaluated) (create_rules rules evaluated)

unfoldable pub status_of_each :
    List Student
    → List ℕ
    → Outcome (List (List Assessment → RuleCheckResult))
    → Outcome (List AdmissionStatus)
unfolding compute_admission_status to_set
status_of_each students previous (Outcome.throws e) = Outcome.throws e
status_of_each students previous (Outcome.ok criteria) =
    Outcome.ok (map (λ s. compute_admission_status s criteria (to_set previous)) students)

unfoldable pub get_admission_status_of_participants :
    List AssignmentRow
    → Option (List AdmissionRuleDto)
    → List ℕ
    → List Student
    → Outcome (List AdmissionStatus)
unfolding course_has_no_admission_criteria rules_of create_rules filter_evaluated_assignments
    status_of_each
get_admission_status_of_participants assignments rules previous students =
    if course_has_no_admission_criteria rules
    then Outcome.throws Exception.not_found
    else status_of_each students previous
        (create_rules (rules_of rules) (filter_evaluated_assignments assignments))

-- `results[0]`
unfoldable pub first_status : Outcome (List AdmissionStatus) → Outcome (Option AdmissionStatus)
first_status (Outcome.throws e) = Outcome.throws e
first_status (Outcome.ok []) = Outcome.ok none
first_status (Outcome.ok (status ∷ rest)) = Outcome.ok (some status)

unfoldable pub get_admission_status_of_participant :
    List AssignmentRow
    → Option (List AdmissionRuleDto)
    → List ℕ
    → Student
    → Outcome (Option AdmissionStatus)
unfolding get_admission_status_of_participants first_status
get_admission_status_of_participant assignments rules previous student =
    first_status (get_admission_status_of_participants assignments rules previous (student ∷ []))

-- The points and the assessment that a student has for an assignment.
pub record AchievedPoints : Type 0 where
  pub achieved_points : Option ℕ
  pub assessment_id : String

pub record StudentResults : Type 0 where
  pub student : Student
  pub achieved_points : List (Option ℕ)
  pub assessment_ids : List (Option String)

unfoldable pub map_achieved_points_to_assignment :
    List Assessment → List (String × AchievedPoints) → List (String × AchievedPoints)
map_achieved_points_to_assignment [] m = m
map_achieved_points_to_assignment (a ∷ rest) m = map_achieved_points_to_assignment rest (
    map_set a.assignment_id (record { achieved_points = a.achieved_points; assessment_id = a.id })
      m)

-- `achievedPointsMap.get(assignment.id)?.achievedPoints` and `?.assessmentId`
unfoldable pub points_in : Option AchievedPoints → Option ℕ
points_in none = none
points_in (some a) = a.achieved_points

unfoldable pub assessment_in : Option AchievedPoints → Option String
assessment_in none = none
assessment_in (some a) = some a.assessment_id

unfoldable pub get_student_results : Student → List AssignmentRow → StudentResults
unfolding map_achieved_points_to_assignment points_in assessment_in
get_student_results student assignments =
    let achieved = map_achieved_points_to_assignment student.assessments [] in
    record {
      student = student;
      achieved_points = map (λ a. points_in (map_get a.id achieved)) assignments;
      assessment_ids = map (λ a. assessment_in (map_get a.id achieved)) assignments;
    }

pub record PointsOverview : Type 0 where
  pub assignments : List AssignmentRow
  pub results : List StudentResults

unfoldable pub get_points_overview : List AssignmentRow → List Student → PointsOverview
unfolding filter_evaluated_assignments get_student_results
get_points_overview assignments students =
    let evaluated = filter_evaluated_assignments assignments in
    record {
      assignments = evaluated;
      results = map (λ s. get_student_results s evaluated) students;
    }

unfoldable pub get_points_overview_of_student : List AssignmentRow → Student → PointsOverview
unfolding filter_evaluated_assignments get_student_results
get_points_overview_of_student assignments student =
    let evaluated = filter_evaluated_assignments assignments in
    record { assignments = evaluated; results = get_student_results student evaluated ∷ [] }
