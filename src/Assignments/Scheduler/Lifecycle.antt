-- ===== src/Assignments/Scheduler/Lifecycle.antt =====
-- The states that the scheduler's jobs lead an assignment through.
use mathlib.Core.Option.{some-injective}
use stu_mgmt_service.Prelude.{
  ℕ, ◌≤◌, ===_eq, ===_true, ◌≡◌, refl, ◌↔◌, Bool, true, false, if◌then◌else◌, both_left, both_right,
  List, [], ◌∷◌, Option, none, some, none-ne-some, arith,
}
use stu_mgmt_service.Assignments.Models.{AssignmentState, state_eq, AssignmentRow}
use stu_mgmt_service.Assignments.Store.{Tables}
use stu_mgmt_service.Assignments.Registering.{Services}
use stu_mgmt_service.Assignments.Scheduler.{
  reached, is_to_be_started, is_to_be_stopped, start_assignments, stop_assignments,
}
use stu_mgmt_service.Assignments.Scheduler.Jobs.{
  mark, start_assignments-mark, stop_assignments-mark,
}
use stu_mgmt_service.Assignments.Invariant.{IsConsistent}
use stu_mgmt_service.Assignments.Invariant.Calls.{
  AssignmentCall, run_call, run_calls, run_calls-IsConsistent,
}

-- A run of one of the two jobs at a time.
pub data Job : Type 0 where
  starting : (now : ℕ) → Job
  stopping : (now : ℕ) → Job

module _ (services : Services) where
  unfoldable pub run_job : Job → Tables → Tables
  unfolding start_assignments stop_assignments
  run_job (Job.starting now) db = start_assignments services now db
  run_job (Job.stopping now) db = stop_assignments services now db

  unfoldable pub run_jobs : List Job → Tables → Tables
  unfolding run_job
  run_jobs [] db = db
  run_jobs (job ∷ jobs) db = run_jobs jobs (run_job job db)

-- The assignment is due for the job: in the job's state, and the date is not after its time.
abbrev pub IsDue : Job → AssignmentRow → Type 0
IsDue (Job.starting now) a =
    (a.state ≡ AssignmentState.invisible) × ((date : ℕ) × (a.start_date ≡ some date) × (date ≤ now))
IsDue (Job.stopping now) a =
    (a.state ≡ AssignmentState.in_progress) × ((date : ℕ) × (a.end_date ≡ some date) × (date ≤ now))

abbrev pub moved : Job → AssignmentRow → AssignmentRow
moved (Job.starting now) a = record a { state = AssignmentState.in_progress }
moved (Job.stopping now) a = record a { state = AssignmentState.in_review }

-- What one job does to an assignment, and what a list of jobs does, one after the other.
pub data Step : Job → AssignmentRow → AssignmentRow → Type 0 where
  moves : {job : Job} {a : AssignmentRow} → IsDue job a → Step job a (moved job a)
  stays : {job : Job} {a : AssignmentRow} → ¬ IsDue job a → Step job a a

pub data Trace : List Job → AssignmentRow → AssignmentRow → Type 0 where
  ended : {a : AssignmentRow} → Trace [] a a
  stepped :
      {job : Job} {jobs : List Job} {a b c : AssignmentRow}
      → Step job a b
      → Trace jobs b c
      → Trace (job ∷ jobs) a c

-- Row by row.
pub data Follows : List Job → List AssignmentRow → List AssignmentRow → Type 0 where
  none_left : {jobs : List Job} → Follows jobs [] []
  each :
      {jobs : List Job} {a b : AssignmentRow} {xs ys : List AssignmentRow}
      → Trace jobs a b
      → Follows jobs xs ys
      → Follows jobs (a ∷ xs) (b ∷ ys)

Follows-nil : (rows : List AssignmentRow) → Follows [] rows rows
Follows-nil [] = none_left
Follows-nil (a ∷ rows) = each ended (Follows-nil rows)

Follows-mark :
    (job : Job) (jobs : List Job) (p : AssignmentRow → Bool) (state : AssignmentState)
    (rows ends : List AssignmentRow)
    → ((a : AssignmentRow) → Step job a (if p a then record a { state = state } else a))
    → Follows jobs (mark p state rows) ends
    → Follows (job ∷ jobs) rows ends
Follows-mark job jobs p state [] [] step none_left = none_left
Follows-mark job jobs p state [] (b ∷ ends) step f = elim f [ ]
Follows-mark job jobs p state (a ∷ rows) [] step f = elim f [ ]
Follows-mark job jobs p state (a ∷ rows) (b ∷ ends) step (each t f) =
    each (stepped (step a) t) (Follows-mark job jobs p state rows ends step f)

reached_iff :
    (now : ℕ) (o : Option ℕ)
    → (reached now o ≡ true) ↔ ((date : ℕ) × (o ≡ some date) × (date ≤ now))
unfolding reached
reached_iff now none = ((λ h. absurd (no_date h)), (λ h. absurd (none-ne-some h.1)))
  where
    no_date : false ≡ true → ⊥
    no_date h = cc
reached_iff now (some d) = (
  (λ h. (d, refl, ground arith)),
  (λ h. let e = some-injective d h.0 h.1 in let l = h.2 in ground arith),
)

starts_iff :
    (now : ℕ) (a : AssignmentRow) → (is_to_be_started now a ≡ true) ↔ IsDue (Job.starting now) a
unfolding is_to_be_started
starts_iff now a = (
  (λ h. (
    ===_eq a.state AssignmentState.invisible (both_left _ _ h),
    (reached_iff now a.start_date).0 (both_right _ _ h),
  )),
  (λ h. rw (===_true a.state AssignmentState.invisible h.0) ((reached_iff now a.start_date).1 h.1)),
)

stops_iff :
    (now : ℕ) (a : AssignmentRow) → (is_to_be_stopped now a ≡ true) ↔ IsDue (Job.stopping now) a
unfolding is_to_be_stopped
stops_iff now a = (
  (λ h. (
    ===_eq a.state AssignmentState.in_progress (both_left _ _ h),
    (reached_iff now a.end_date).0 (both_right _ _ h),
  )),
  (λ h. rw (===_true a.state AssignmentState.in_progress h.0) ((reached_iff now a.end_date).1 h.1)),
)

Step-of_test :
    (job : Job) (a : AssignmentRow) (b : Bool)
    → ((b ≡ true) ↔ IsDue job a)
    → Step job a (if b then moved job a else a)
Step-of_test job a true iff = moves (iff.0 refl)
Step-of_test job a false iff = stays (λ due. absurd (unlike (iff.1 due)))
  where
    unlike : false ≡ true → ⊥
    unlike h = cc

module _ (services : Services) where
  run_job-IsConsistent :
      (job : Job) (db : Tables) → IsConsistent db → IsConsistent (run_job services job db)
  unfolding run_job run_calls run_call
  run_job-IsConsistent (Job.starting now) =
      run_calls-IsConsistent services (AssignmentCall.starting now ∷ [])
  run_job-IsConsistent (Job.stopping now) =
      run_calls-IsConsistent services (AssignmentCall.stopping now ∷ [])

  run_job-Follows :
      (job : Job) (jobs : List Job) (db : Tables) (ends : List AssignmentRow)
      → IsConsistent db
      → Follows jobs (run_job services job db).assignments ends
      → Follows (job ∷ jobs) db.assignments ends
  unfolding run_job
  run_job-Follows (Job.starting now) jobs db ends w f =
      Follows-mark (Job.starting now) jobs (is_to_be_started now) AssignmentState.in_progress
        db.assignments ends
        (λ a. Step-of_test (Job.starting now) a (is_to_be_started now a) (starts_iff now a))
        (rw (start_assignments-mark services now db w) at f)
  run_job-Follows (Job.stopping now) jobs db ends w f =
      Follows-mark (Job.stopping now) jobs (is_to_be_stopped now) AssignmentState.in_review
        db.assignments ends
        (λ a. Step-of_test (Job.stopping now) a (is_to_be_stopped now a) (stops_iff now a))
        (rw (stop_assignments-mark services now db w) at f)

  -- However often the two jobs run and at whatever times, in consistent tables: each row takes one
  -- step for each job, in their order. A starting job puts it IN_PROGRESS if it is INVISIBLE and has
  -- a start date that is not after the job's time, a stopping job puts it IN_REVIEW if it is
  -- IN_PROGRESS and has an end date that is not after the job's time. Otherwise, and in all else,
  -- the row stays as it is.
  pub run_jobs-Follows :
      (jobs : List Job) (db : Tables)
      → IsConsistent db
      → Follows jobs db.assignments (run_jobs services jobs db).assignments
  unfolding run_jobs
  run_jobs-Follows [] db w = Follows-nil db.assignments
  run_jobs-Follows (job ∷ jobs) db w =
      run_job-Follows job jobs db _ w
        (run_jobs-Follows jobs (run_job services job db) (run_job-IsConsistent job db w))
