-- ===== src/Merge/Ranking.antt =====
-- The statistics and the order of the students in merge-by-activity.strategy.ts:
-- `countUniqueWeeks`, `countActiveWeeks`, `countSubmittedAssignment`, `sortStudentsByActivity`.
-- `isSameWeek` is `dayjs`'s, which is a parameter.
pub mod Weeks
pub mod Submissions
pub mod Order
use stu_mgmt_service.Prelude.{
  ℕ, zero, suc, ◌+◌, ◌*◌, compare, Ordering, String, string_eq, option_eq, nat_eq, ◌===◌, Bool,
  true, false, List, [], ◌∷◌, map, Option, none, some, leb, if◌then◌else◌, length, map_get, map_set,
  has, set_add, sort, ◌>>=◌,
}
use stu_mgmt_service.Merge.Groups.{Member}

-- `ActivityDto`, of whose user only the id is read.
pub record ActivityDto (Date : Type 0) : Type 0 where
  pub user_id : String
  pub dates : List Date

pub record SubmissionDto : Type 0 where
  pub user_id : String
  pub assignment_id : String

module _ {Date : Type 0} (is_same_week : Date → Date → Bool) where
  -- The `while` loop: `dates[current]`, the dates from `next` on, and `count`. Without fuel it
  -- gives `none`.
  pub count_weeks_from : ℕ → Date → List Date → ℕ → Option ℕ
  count_weeks_from zero current rest count = none
  count_weeks_from (suc fuel) current [] count = some count
  count_weeks_from (suc fuel) current (next ∷ rest) count = elim (is_same_week current next) [
    | true ↦ count_weeks_from fuel current rest count
    | false ↦ count_weeks_from fuel next (next ∷ rest) (count + 1)
  ]

  unfoldable pub count_unique_weeks : List Date → Option ℕ
  unfolding count_weeks_from
  count_unique_weeks [] = some 0
  count_unique_weeks (date ∷ []) = some 1
  count_unique_weeks (date ∷ next ∷ rest) =
      count_weeks_from (2 * length (next ∷ rest) + 1) date (next ∷ rest) 1

  -- The loop of `countActiveWeeks`.
  pub count_active_weeks_from :
      List (ActivityDto Date) → List (String × ℕ) → Option (List (String × ℕ))
  count_active_weeks_from [] counts = some counts
  count_active_weeks_from (act ∷ acts) counts = do
    weeks ← count_unique_weeks act.dates
    count_active_weeks_from acts (map_set act.user_id weeks counts)

  unfoldable pub count_active_weeks : List (ActivityDto Date) → Option (List (String × ℕ))
  unfolding count_active_weeks_from
  count_active_weeks activity = count_active_weeks_from activity []

-- The assignments that each student has submitted: first none, `set(id, {})`.
unfoldable pub no_submissions :
    List String → List (String × List String) → List (String × List String)
no_submissions [] students = students
no_submissions (id ∷ ids) students = no_submissions ids (map_set id [] students)

-- One round of the loop over the submissions.
unfoldable pub add_submission :
    SubmissionDto → List (String × List String) → List (String × List String)
add_submission submission students = elim (map_get submission.user_id students) [
  | none ↦ students
  | some submitted ↦
      map_set submission.user_id (set_add submission.assignment_id submitted) students
]

unfoldable pub add_submissions :
    List SubmissionDto → List (String × List String) → List (String × List String)
add_submissions [] students = students
add_submissions (submission ∷ rest) students =
    add_submissions rest (add_submission submission students)

unfoldable pub count_submitted_assignment : List SubmissionDto → List String → List (String × ℕ)
unfolding no_submissions add_submission add_submissions
count_submitted_assignment submissions user_ids =
    map (λ (user_id, submitted). (user_id, length submitted))
      (add_submissions submissions (no_submissions user_ids []))

-- The sign of `b - a`, where `undefined` makes the difference `NaN`, which sorts as zero.
unfoldable pub difference : Option ℕ → Option ℕ → Ordering
difference (some b) (some a) = compare b a
difference none a = Ordering.eq
difference (some b) none = Ordering.eq

module _ (submitted_assignments active_weeks : List (String × ℕ)) where
  -- The comparator of `sortStudentsByActivity`.
  unfoldable pub compare_students : Member → Member → Ordering
  unfolding difference
  compare_students a b =
      if map_get a.user_id submitted_assignments === map_get b.user_id submitted_assignments
      then difference (map_get b.user_id active_weeks) (map_get a.user_id active_weeks)
      else difference (map_get b.user_id submitted_assignments)
          (map_get a.user_id submitted_assignments)

  unfoldable pub sort_students_by_activity : List Member → List Member
  unfolding compare_students
  sort_students_by_activity students = sort compare_students students
