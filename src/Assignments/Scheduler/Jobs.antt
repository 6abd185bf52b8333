-- ===== src/Assignments/Scheduler/Jobs.antt =====
-- What the two jobs of the scheduler do to the assignments.
use mathlib.Core.List.{map-append, append_assoc}
use stu_mgmt_service.Prelude.{
  ℕ, String, string_eq, option_eq, ◌===◌, ===_eq, ===_true, ===_refl, ◌≡◌, refl, sym, ◌∙◌, subst,
  inl, inr, Bool, true, Bool-cases, List, [], ◌∷◌, ◌++◌, map, some, if◌then◌else◌, filter_by,
  find_by, any, update_by, update_absent, All, All-mono, ◌∈◌, ∈-append_right, Distinct, arith,
}
use stu_mgmt_service.Groups.Models.{Outcome}
use stu_mgmt_service.Groups.Store.{continue, return, read_db, write_db}
use stu_mgmt_service.Groups.Preserve.{continue-Preserves}
use stu_mgmt_service.Assignments.Models.{AssignmentState, state_eq, AssignmentRow, new_assignment}
use stu_mgmt_service.Assignments.Store.{Tables, found}
use stu_mgmt_service.Assignments.Registrations.{add_relation, add_registration}
use stu_mgmt_service.Assignments.Removal.{delete_registrations}
use stu_mgmt_service.Assignments.Registering.{Services}
use stu_mgmt_service.Assignments.Service.{
  put, save, get_assignment_by_id, spread, save_update, finish_update, update_assignment,
}
use stu_mgmt_service.Assignments.Scheduler.{
  is_to_be_started, is_to_be_stopped, find_assignments_that_should_be_started,
  find_assignments_that_should_be_stopped, state_update, try_update_assignment, update_each,
  start_assignments, stop_assignments,
}
use stu_mgmt_service.Assignments.Invariant.{assignment_ids, IsConsistent}
use stu_mgmt_service.Assignments.Invariant.Writes.{KeptByWrites}
use stu_mgmt_service.Assignments.Invariant.Calls.{finish_update-Preserves}

-- The assignments that a test picks get a new state.
abbrev pub mark : (AssignmentRow → Bool) → AssignmentState → List AssignmentRow → List AssignmentRow
mark p state = map (λ a. if p a then record a { state = state } else a)

-- The rows of the assignments and the courses.
abbrev HasRows : List AssignmentRow → List String → Tables → Type 0
HasRows rows courses db = (db.assignments ≡ rows) × (db.courses ≡ courses)

HasRows-KeptByWrites :
    (rows : List AssignmentRow) (courses : List String) → KeptByWrites (HasRows rows courses)
unfolding add_relation add_registration delete_registrations
HasRows-KeptByWrites rows courses = record {
  relation = λ r a p db e f k. k;
  registration = λ a g db e f k. k;
  deletion = λ p db k. k;
  unregistration = λ p db k. k;
  event = λ e db k. k;
  course = λ c db k. k;
}

abbrev marked : AssignmentRow → AssignmentState → AssignmentRow
marked a state = record a { state = state }

-- Rows of which one has the id, and none of the others.
module _ (before rest : List AssignmentRow) (a : AssignmentRow) (state : AssignmentState) where
  find_by-middle :
      ¬ (a.id ∈ assignment_ids before) → find_by (λ b. b.id === a.id) (before ++ a ∷ rest) ≡ some a
  find_by-middle n = earlier before n
    where
      earlier :
          (bs : List AssignmentRow)
          → ¬ (a.id ∈ assignment_ids bs)
          → find_by (λ b. b.id === a.id) (bs ++ a ∷ rest) ≡ some a
      earlier [] m = rw (===_refl a.id) refl
      earlier (b ∷ bs) m = elim (Bool-cases (b.id === a.id)) [
        | inl e ↦ absurd (m (inl (sym (===_eq b.id a.id e))))
        | inr e ↦ rw e (earlier bs (λ i. m (inr i)))
      ]

  put-middle :
      ¬ (a.id ∈ assignment_ids before)
      → ¬ (a.id ∈ assignment_ids rest)
      → put (marked a state) (before ++ a ∷ rest) ≡ before ++ marked a state ∷ rest
  unfolding put
  put-middle n m = rw (there before) (earlier before n)
    where
      there : (bs : List AssignmentRow) → any (λ b. b.id === a.id) (bs ++ a ∷ rest) ≡ true
      there [] = rw (===_refl a.id) refl
      there (b ∷ bs) = rw (there bs) (ground arith)

      earlier :
          (bs : List AssignmentRow)
          → ¬ (a.id ∈ assignment_ids bs)
          → update_by (λ b. b.id === a.id) (marked a state) (bs ++ a ∷ rest)
            ≡ bs ++ marked a state ∷ rest
      earlier [] k =
          let gone =
            update_absent (λ (b : AssignmentRow). b.id) (λ b. b.id) (λ b. b.id === a.id)
              (marked a state) rest (λ b. ===_eq b.id a.id) m in
          rw (===_refl a.id, gone) refl
      earlier (b ∷ bs) k = elim (Bool-cases (b.id === a.id)) [
        | inl e ↦ absurd (k (inl (sym (===_eq b.id a.id e))))
        | inr e ↦ rw (e, earlier bs (λ i. k (inr i))) refl
      ]

saved_update :
    (a : AssignmentRow) (state : AssignmentState) (db : Tables)
    → find_by (λ b. b.id === a.id) db.assignments ≡ some a
    → any (λ c. c === a.course_id) db.courses ≡ true
    → save_update a.id (state_update state) db ≡ (
      Outcome.ok (marked a state),
      record db { assignments = put (marked a state) db.assignments },
    )
unfolding save_update get_assignment_by_id found save spread state_update continue read_db write_db
    return
saved_update a state db f c = rw (f, c) refl

-- One update of a job: the row has the new state, and the others stay.
updated_row :
    (services : Services) (before rest : List AssignmentRow) (a : AssignmentRow)
    (state : AssignmentState) (db : Tables)
    → db.assignments ≡ before ++ a ∷ rest
    → any (λ c. c === a.course_id) db.courses ≡ true
    → ¬ (a.id ∈ assignment_ids before)
    → ¬ (a.id ∈ assignment_ids rest)
    → HasRows
        (before ++ marked a state ∷ rest)
        db.courses
        (try_update_assignment services a state db)
unfolding try_update_assignment update_assignment new_assignment
updated_row services before rest a state db e c n m =
    let rows = before ++ marked a state ∷ rest in
    let f : find_by (λ b. b.id === a.id) db.assignments ≡ some a =
      subst (λ l. find_by (λ b. b.id === a.id) l ≡ some a) (sym e)
        (find_by-middle before rest a state n) in
    let p : put (marked a state) db.assignments ≡ rows =
      subst (λ l. put (marked a state) l ≡ rows) (sym e) (put-middle before rest a state n m) in
    continue-Preserves (HasRows rows db.courses) (finish_update services a.course_id a.state)
      (save_update a.id (state_update state) db)
      (finish_update-Preserves (HasRows rows db.courses) (HasRows-KeptByWrites rows db.courses)
        services a.course_id a.state)
      (rw (saved_update a state db f c) (p, refl))

Distinct-middle :
    (bs : List String) (a : String) (cs : List String)
    → Distinct (bs ++ a ∷ cs)
    → ¬ (a ∈ bs) × ¬ (a ∈ cs)
Distinct-middle [] a cs d = ((λ i. i), d.0)
Distinct-middle (b ∷ bs) a cs d =
    let (n, m) = Distinct-middle bs a cs d.1 in
    (λ i. elim i [ inl e ↦ d.0 (∈-append_right bs (a ∷ cs) b (inl (sym e))) | inr j ↦ n j ], m)

-- The rounds of a job, of which those on `before` are done.
update_each-mark :
    (services : Services) (p : AssignmentRow → Bool) (state : AssignmentState)
    (before rest : List AssignmentRow) (db : Tables)
    → db.assignments ≡ before ++ rest
    → Distinct (assignment_ids (before ++ rest))
    → All (λ a. any (λ c. c === a.course_id) db.courses ≡ true) rest
    → (update_each services state (filter_by p rest) db).assignments ≡ before ++ mark p state rest
unfolding update_each
update_each-mark services p state before [] db e d c = e
update_each-mark services p state before (a ∷ rest) db e d c = elim (Bool-cases (p a)) [
  | inl h ↦
      let ids = map-append (λ (b : AssignmentRow). b.id) before (a ∷ rest) in
      let (n, m) =
        Distinct-middle (assignment_ids before) a.id (assignment_ids rest) (rw ids at d) in
      let (done, same) = updated_row services before rest a state db e c.0 n m in
      let y = marked a state in
      rw h (
        update_each-mark services p state (before ++ y ∷ []) rest
          (try_update_assignment services a state db)
          (done ∙ sym (append_assoc before (y ∷ []) rest))
          (rw (append_assoc before (y ∷ []) rest) (
            subst Distinct (ids ∙ sym (map-append (λ (b : AssignmentRow). b.id) before (y ∷ rest)))
              d))
          (subst (λ l. All (λ b. any (λ c. c === b.course_id) l ≡ true) rest) (sym same) c.1)
        ∙ append_assoc before (y ∷ []) (mark p state rest))
  | inr h ↦ rw h (
      update_each-mark services p state (before ++ a ∷ []) rest db
        (e ∙ sym (append_assoc before (a ∷ []) rest)) (rw (append_assoc before (a ∷ []) rest) d) c.1
      ∙ append_assoc before (a ∷ []) (mark p state rest))
]

∈-any : (c : String) (cs : List String) → c ∈ cs → any (λ d. d === c) cs ≡ true
∈-any c [] i = absurd i
∈-any c (d ∷ cs) (inl e) = rw (===_true d c (sym e)) refl
∈-any c (d ∷ cs) (inr i) = rw (∈-any c cs i) (ground arith)

marks :
    (services : Services) (p : AssignmentRow → Bool) (state : AssignmentState) (db : Tables)
    → IsConsistent db
    → (update_each services state (filter_by p db.assignments) db).assignments
      ≡ mark p state db.assignments
marks services p state db w =
    update_each-mark services p state [] db.assignments db refl w.assignments_apart (
      All-mono (λ (a : AssignmentRow). a.course_id ∈ db.courses) _ db.assignments
        (λ a i. ∈-any a.course_id db.courses i) w.courses_exist)

-- Of consistent tables, the job that starts assignments sets those to IN_PROGRESS that are
-- INVISIBLE and whose start date is reached, whatever the registration of groups throws, and
-- changes nothing else about assignments.
pub start_assignments-mark :
    (services : Services) (now : ℕ) (db : Tables)
    → IsConsistent db
    → (start_assignments services now db).assignments
      ≡ mark (is_to_be_started now) AssignmentState.in_progress db.assignments
unfolding start_assignments find_assignments_that_should_be_started
start_assignments-mark services now db =
    marks services (is_to_be_started now) AssignmentState.in_progress db

-- Of consistent tables, the job that stops assignments sets those to IN_REVIEW that are
-- IN_PROGRESS and whose end date is reached, and changes nothing else about assignments.
pub stop_assignments-mark :
    (services : Services) (now : ℕ) (db : Tables)
    → IsConsistent db
    → (stop_assignments services now db).assignments
      ≡ mark (is_to_be_stopped now) AssignmentState.in_review db.assignments
unfolding stop_assignments find_assignments_that_should_be_stopped
stop_assignments-mark services now db =
    marks services (is_to_be_stopped now) AssignmentState.in_review db
