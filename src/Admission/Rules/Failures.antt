-- ===== src/Admission/Rules/Failures.antt =====
-- What the rule on single assignments counts.
use stu_mgmt_service.Prelude.{
  ℕ, ◌≤◌, ◌≡◌, refl, sym, subst, ◌⊎◌, ◌∙◌, ◌↔◌, inl, inr, String, string_eq, ◌===◌, ===_eq, Bool,
  true, not, ◌&&◌, Bool-cases, List, [], ◌∷◌, ◌++◌, none, ◌==◌, length, map, map_set, filter_by,
  Distinct, Distinct-filter, ◌∈◌, arith,
}
use stu_mgmt_service.Assignments.Models.{AssignmentRow}
use stu_mgmt_service.Admission.Rounding.{rounds_to_nan, at_least}
use stu_mgmt_service.Admission.Rounding.Order.{percent_less}
use stu_mgmt_service.Admission.Rules.{
  AdmissionRuleDto, Assessment, filter_assignments_by_type, achieved_percent, fill_required,
  required_points_to_pass, points_or_zero, student_failed_assignment, count_failed_assignments,
  check_individual, fill_achieved, filter_assessments_by_type,
}
use stu_mgmt_service.Admission.Rules.Last.{last_assessment, points_of_assessment, points_of-last}

abbrev required_entry : AssignmentRow → String × ℕ
required_entry a = (a.id, a.points)

map_set_new :
    (k : String) (v : ℕ) (m : List (String × ℕ))
    → ¬ (k ∈ map (λ e. e.0) m)
    → map_set k v m ≡ m ++ (k, v) ∷ []
unfolding map_set
map_set_new k v [] n = refl
map_set_new k v ((j, w) ∷ m) n = elim (Bool-cases (j === k)) [
  | inl e ↦ absurd (n (inl (sym (===_eq j k e))))
  | inr e ↦ rw (e, map_set_new k v m (λ i. n (inr i))) refl
]

key_cases :
    (x : String) (m : List (String × ℕ)) (e : String × ℕ)
    → x ∈ map (λ f. f.0) (m ++ e ∷ [])
    → (x ∈ map (λ f. f.0) m) ⊎ (x ≡ e.0)
key_cases x [] e (inl p) = inr p
key_cases x [] e (inr i) = elim i [ ]
key_cases x (f ∷ m) e (inl p) = inl (inl p)
key_cases x (f ∷ m) e (inr i) = elim (key_cases x m e i) [ inl j ↦ inl (inr j) | inr p ↦ inr p ]

snoc_append :
    (m : List (String × ℕ)) (e : String × ℕ) (n : List (String × ℕ))
    → (m ++ e ∷ []) ++ n ≡ m ++ e ∷ n
snoc_append [] e n = refl
snoc_append (f ∷ m) e n = rw (snoc_append m e n) refl

-- Where the ids are different, the map has an entry for each assignment.
fill_required_all :
    (rule : AdmissionRuleDto) (rows : List AssignmentRow) (m : List (String × ℕ))
    → Distinct (map (λ a. a.id) rows)
    → ((x : String) → x ∈ map (λ a. a.id) rows → ¬ (x ∈ map (λ e. e.0) m))
    → fill_required rule rows m ≡ m ++ map required_entry rows
unfolding fill_required
fill_required_all rule [] m d fresh = sym (append_nil m)
  where
    append_nil : (n : List (String × ℕ)) → n ++ [] ≡ n
    append_nil [] = refl
    append_nil (e ∷ n) = rw (append_nil n) refl
fill_required_all rule (a ∷ rows) m d fresh =
    rw (map_set_new a.id a.points m (fresh a.id (inl refl))) (
      fill_required_all rule rows (m ++ required_entry a ∷ []) d.1 new
      ∙ snoc_append m (required_entry a) (map required_entry rows))
  where
    new :
        (x : String)
        → x ∈ map (λ b. b.id) rows
        → ¬ (x ∈ map (λ e. e.0) (m ++ required_entry a ∷ []))
    new x i j = elim (key_cases x m (required_entry a) j) [
      | inl k ↦ fresh x (inr i) k
      | inr p ↦ d.0 (subst (λ y. y ∈ map (λ b. b.id) rows) p i)
    ]

-- Whether a student fails an assignment: it has points, and the rounded percentage of the points
-- of the student's last assessment for it is a number that is not at least the required one.
abbrev pub fails : AdmissionRuleDto → List Assessment → AssignmentRow → Bool
fails rule assessments a =
    not (rounds_to_nan rule.achieved_percent_rounding)
    && (not (a.points == 0)
        && not (
            at_least
              (achieved_percent rule
                (points_or_zero (points_of_assessment (last_assessment a.id assessments none)))
                a.points)
              rule.required_percent))

student_failed_assignment-fails :
    (rule : AdmissionRuleDto) (assessments : List Assessment) (a : AssignmentRow)
    → student_failed_assignment rule (fill_achieved rule assessments []) (required_entry a)
      ≡ fails rule assessments a
unfolding student_failed_assignment achieved_percent
student_failed_assignment-fails rule assessments a = rw (points_of-last rule a.id assessments) (
    percent_less rule.achieved_percent_rounding
      (points_or_zero (points_of_assessment (last_assessment a.id assessments none))) a.points
      rule.required_percent)

count_failed_assignments-fails :
    (rule : AdmissionRuleDto) (assessments : List Assessment) (rows : List AssignmentRow)
    → count_failed_assignments rule (fill_achieved rule assessments []) (map required_entry rows)
      ≡ length (filter_by (fails rule assessments) rows)
unfolding count_failed_assignments
count_failed_assignments-fails rule assessments [] = refl
count_failed_assignments-fails rule assessments (a ∷ rows) =
    rw
      (
        student_failed_assignment-fails rule assessments a,
        count_failed_assignments-fails rule assessments rows,
      )
      (elim (Bool-cases (fails rule assessments a)) [ inl e ↦ rw e refl | inr e ↦ rw e refl ])

-- In a list of assignments with different ids, the rule on single assignments counts those of its
-- type that are evaluated and that the student fails by the last assessment for them, and it is
-- passed exactly if these are not more than the allowed failures.
pub check_individual_counts :
    (rule : AdmissionRuleDto) (assignments : List AssignmentRow) (assessments : List Assessment)
    → Distinct (map (λ a. a.id) assignments)
    → let result = check_individual rule assignments assessments in
      let failed = length (
        filter_by
          (fails rule (filter_assessments_by_type rule assessments))
          (filter_assignments_by_type rule assignments)) in
      (result.achieved_points ≡ failed)
      × ((result.passed ≡ true) ↔ (failed ≤ rule.allowed_failures))
unfolding check_individual required_points_to_pass
check_individual_counts rule assignments assessments d =
    let relevant = filter_assignments_by_type rule assignments in
    let assessed = filter_assessments_by_type rule assessments in
    let apart : Distinct (map (λ a. a.id) relevant) =
      unfold filter_assignments_by_type in Distinct-filter (λ a. a.id) _ assignments d in
    rw
      (
        fill_required_all rule relevant [] apart (λ x i j. j),
        count_failed_assignments-fails rule assessed relevant,
      )
      (refl, ((λ h. ground arith), (λ h. ground arith)))
