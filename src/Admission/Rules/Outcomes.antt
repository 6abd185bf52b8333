-- ===== src/Admission/Rules/Outcomes.antt =====
-- Who passes the overall rule.
use stu_mgmt_service.Prelude.{
  ℕ, ◌≡◌, refl, sym, ap, ◌∙◌, inl, inr, true, false, Bool-cases, List, if◌then◌else◌, ◌==◌,
}
use stu_mgmt_service.Assignments.Models.{AssignmentRow}
use stu_mgmt_service.Admission.Rounding.{RoundingType, RoundingBehavior, percent, at_least}
use stu_mgmt_service.Admission.Rounding.Order.{round_down-at_least, rounding_method-unrounded}
use stu_mgmt_service.Admission.Rules.{
  AdmissionRuleDto, Assessment, overall_points, sum_of_achieved, achieved_percent, check_overall,
}

check_overall-passed :
    (rule : AdmissionRuleDto) (assignments : List AssignmentRow) (assessments : List Assessment)
    → (check_overall rule assignments assessments).passed ≡ (
        if overall_points rule assignments == 0
        then true
        else at_least
            (achieved_percent rule
              (sum_of_achieved rule assessments)
              (overall_points rule assignments))
            rule.required_percent)
unfolding check_overall
check_overall-passed rule assignments assessments =
    elim (Bool-cases (overall_points rule assignments == 0)) [
      | inl e ↦ rw e refl
      | inr e ↦ rw e refl
    ]

achieved_percent-down :
    (rule : AdmissionRuleDto) (exact : RoundingBehavior) (n d : ℕ)
    → (d == 0) ≡ false
    → rule.required_percent.denominator ≡ 1
    → rule.achieved_percent_rounding.kind ≡ RoundingType.down_nearest_integer
    → exact.kind ≡ RoundingType.unrounded
    → at_least (achieved_percent rule n d) rule.required_percent
      ≡ at_least
          (achieved_percent (record rule { achieved_percent_rounding = exact }) n d)
          rule.required_percent
unfolding achieved_percent
achieved_percent-down rule exact n d z w q u =
    round_down-at_least rule.achieved_percent_rounding n d rule.required_percent w q z
    ∙ ap (λ v. at_least v rule.required_percent)
        (sym (rounding_method-unrounded exact (percent n d) u))

-- The points do not depend on the rounding.
overall_points-same :
    (rule : AdmissionRuleDto) (exact : RoundingBehavior) (assignments : List AssignmentRow)
    → overall_points (record rule { achieved_percent_rounding = exact }) assignments
      ≡ overall_points rule assignments
unfolding overall_points
overall_points-same rule exact assignments = refl

sum_of_achieved-same :
    (rule : AdmissionRuleDto) (exact : RoundingBehavior) (assessments : List Assessment)
    → sum_of_achieved (record rule { achieved_percent_rounding = exact }) assessments
      ≡ sum_of_achieved rule assessments
unfolding sum_of_achieved
sum_of_achieved-same rule exact assessments = refl

-- Where the required percentage is a whole number and the rounding is down to one, the overall
-- rule is passed exactly when it would be with no rounding.
pub check_overall-rounds_down :
    (rule : AdmissionRuleDto) (exact : RoundingBehavior) (assignments : List AssignmentRow)
    (assessments : List Assessment)
    → rule.required_percent.denominator ≡ 1
    → rule.achieved_percent_rounding.kind ≡ RoundingType.down_nearest_integer
    → exact.kind ≡ RoundingType.unrounded
    → (check_overall rule assignments assessments).passed
      ≡ (check_overall
          (record rule { achieved_percent_rounding = exact })
          assignments
          assessments).passed
check_overall-rounds_down rule exact assignments assessments w q u =
    let other = record rule { achieved_percent_rounding = exact } in
    check_overall-passed rule assignments assessments
    ∙ rounds
    ∙ sym (check_overall-passed other assignments assessments)
  where
    rounds :
        (if overall_points rule assignments == 0
          then true
          else at_least
              (achieved_percent rule
                (sum_of_achieved rule assessments)
                (overall_points rule assignments))
              rule.required_percent)
        ≡ (if overall_points (record rule { achieved_percent_rounding = exact }) assignments == 0
            then true
            else at_least
                (achieved_percent
                  (record rule { achieved_percent_rounding = exact })
                  (sum_of_achieved (record rule { achieved_percent_rounding = exact }) assessments)
                  (overall_points (record rule { achieved_percent_rounding = exact }) assignments))
                rule.required_percent)
    rounds =
        rw (overall_points-same rule exact assignments, sum_of_achieved-same rule exact assessments)
          (elim (Bool-cases (overall_points rule assignments == 0)) [
            | inl e ↦ rw e refl
            | inr e ↦ rw e (
                achieved_percent-down rule exact (sum_of_achieved rule assessments)
                  (overall_points rule assignments) e w q u)
          ])
