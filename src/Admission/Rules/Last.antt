-- ===== src/Admission/Rules/Last.antt =====
-- The last of a student's assessments for an assignment.
use stu_mgmt_service.Prelude.{
  ℕ, ◌≡◌, refl, ◌∙◌, String, string_eq, ◌===◌, Bool, true, false, List, [], ◌∷◌, Option, none, some,
  if◌then◌else◌, map_get, map_set, map_get-map_set,
}
use stu_mgmt_service.Admission.Rules.{
  Assessment, fill_achieved, AdmissionRuleDto, points_or_zero, points_of,
}

-- The last one in the order of the list.
abbrev pub last_assessment : String → List Assessment → Option Assessment → Option Assessment
last_assessment id [] found = found
last_assessment id (a ∷ rest) found =
    last_assessment id rest (if a.assignment_id === id then some a else found)

abbrev pub points_of_assessment : Option Assessment → Option ℕ
points_of_assessment none = none
points_of_assessment (some a) = a.achieved_points

abbrev points_entry : Option Assessment → Option (Option ℕ)
points_entry none = none
points_entry (some a) = some a.achieved_points

entry_last :
    (rule : AdmissionRuleDto) (id : String) (assessments : List Assessment)
    (m : List (String × Option ℕ)) (found : Option Assessment)
    → map_get id m ≡ points_entry found
    → map_get id (fill_achieved rule assessments m)
      ≡ points_entry (last_assessment id assessments found)
unfolding fill_achieved
entry_last rule id [] m found h = h
entry_last rule id (a ∷ rest) m found h =
    entry_last rule id rest (map_set a.assignment_id a.achieved_points m)
      (if a.assignment_id === id then some a else found)
      (map_get-map_set a.assignment_id id a.achieved_points m ∙ chosen (a.assignment_id === id))
  where
    chosen :
        (b : Bool)
        → (if b then some a.achieved_points else map_get id m)
          ≡ points_entry (if b then some a else found)
    chosen true = refl
    chosen false = h

-- The points that a rule reads for an assignment are those of the last assessment, or zero.
pub points_of-last :
    (rule : AdmissionRuleDto) (id : String) (assessments : List Assessment)
    → points_of rule (map_get id (fill_achieved rule assessments []))
      ≡ points_or_zero (points_of_assessment (last_assessment id assessments none))
unfolding points_of points_or_zero
points_of-last rule id assessments =
    rw (entry_last rule id assessments [] none (unfold map_get in refl))
      (read (last_assessment id assessments none))
  where
    read :
        (o : Option Assessment)
        → points_of rule (points_entry o) ≡ points_or_zero (points_of_assessment o)
    read none = refl
    read (some a) = refl
