-- ===== src/Assignments/Scheduler.antt =====
-- AssignmentSchedulerService of task-scheduling/assignment-scheduler.service.ts. The updates of
-- one job run one after the other, and dates are read at the time `now` of the job.
pub mod Jobs
pub mod Lifecycle
pub mod Next
pub mod Timeouts
use Prim.Native.Nat.{Ordering, compare}
use stu_mgmt_service.Prelude.{
  ℕ, ◌+◌, ◌-◌, String, ◌===◌, Bool, true, false, ◌&&◌, List, [], ◌∷◌, Option, none, some,
  if◌then◌else◌, leb, length, drop, filter_by, any, sort,
}
use stu_mgmt_service.Groups.Models.{Outcome}
use stu_mgmt_service.Assignments.Models.{
  AssignmentState, state_eq, AssignmentRow, Assignment, new_assignment,
}
use stu_mgmt_service.Assignments.Store.{AssignmentEvent, Tables, Task}
use stu_mgmt_service.Assignments.Registering.{Services}
use stu_mgmt_service.Assignments.Service.{AssignmentUpdateDto, update_assignment}

-- `LessThanOrEqual(new Date())` and `MoreThanOrEqual(new Date())`: `NULL` is neither.
unfoldable pub reached : ℕ → Option ℕ → Bool
reached now none = false
reached now (some date) = leb date now

unfoldable pub ahead : ℕ → Option ℕ → Bool
ahead now none = false
ahead now (some date) = leb now date

unfoldable pub is_to_be_started : ℕ → AssignmentRow → Bool
unfolding reached
is_to_be_started now a = (a.state === AssignmentState.invisible) && reached now a.start_date

unfoldable pub is_to_be_stopped : ℕ → AssignmentRow → Bool
unfolding reached
is_to_be_stopped now a = (a.state === AssignmentState.in_progress) && reached now a.end_date

unfoldable pub find_assignments_that_should_be_started : ℕ → Tables → List AssignmentRow
unfolding is_to_be_started
find_assignments_that_should_be_started now db = filter_by (is_to_be_started now) db.assignments

unfoldable pub find_assignments_that_should_be_stopped : ℕ → Tables → List AssignmentRow
unfolding is_to_be_stopped
find_assignments_that_should_be_stopped now db = filter_by (is_to_be_stopped now) db.assignments

-- `{ state }`
unfoldable pub state_update : AssignmentState → AssignmentUpdateDto
state_update state = record {
  id = none;
  course_id = none;
  name = none;
  state = some state;
  start_date = none;
  end_date = none;
  comment = none;
  links = none;
  configs = none;
  kind = none;
  points = none;
  bonus_points = none;
  collaboration = none;
}

module _ (services : Services) where
  -- What was thrown is logged only.
  unfoldable pub try_update_assignment : AssignmentRow → AssignmentState → Tables → Tables
  unfolding state_update
  try_update_assignment a state db =
      (update_assignment services a.course_id (new_assignment a) (state_update state) db).1

  unfoldable pub update_each : AssignmentState → List AssignmentRow → Tables → Tables
  unfolding try_update_assignment
  update_each state [] db = db
  update_each state (a ∷ rows) db = update_each state rows (try_update_assignment a state db)

  unfoldable pub start_assignments : ℕ → Tables → Tables
  unfolding update_each find_assignments_that_should_be_started
  start_assignments now db =
      update_each AssignmentState.in_progress (find_assignments_that_should_be_started now db) db

  unfoldable pub stop_assignments : ℕ → Tables → Tables
  unfolding update_each find_assignments_that_should_be_stopped
  stop_assignments now db =
      update_each AssignmentState.in_review (find_assignments_that_should_be_stopped now db) db

-- The order by a date, ascending.
unfoldable pub earlier_first : Option ℕ → Option ℕ → Ordering
earlier_first none none = Ordering.eq
earlier_first none (some b) = Ordering.gt
earlier_first (some a) none = Ordering.lt
earlier_first (some a) (some b) = compare a b

abbrev pub first : {A : Type 0} → List A → Option A
first [] = none
first (a ∷ rest) = some a

-- The rows by a date, the date ahead, and those of a state where one is given.
unfoldable pub is_ahead :
    (AssignmentRow → Option ℕ) → Option AssignmentState → ℕ → AssignmentRow → Bool
unfolding ahead
is_ahead date none now a = ahead now (date a)
is_ahead date (some state) now a = (a.state === state) && ahead now (date a)

unfoldable pub find_next_assignment :
    (AssignmentRow → Option ℕ) → Option AssignmentState → ℕ → Tables → Option AssignmentRow
unfolding is_ahead earlier_first
find_next_assignment date state now db = first (
    sort (λ a b. earlier_first (date a) (date b))
      (filter_by (is_ahead date state now) db.assignments))

unfoldable pub get_next_starting_assignment : ℕ → Tables → Option AssignmentRow
unfolding find_next_assignment
get_next_starting_assignment =
    find_next_assignment (λ a. a.start_date) (some AssignmentState.invisible)

unfoldable pub get_next_stopping_assignment : ℕ → Tables → Option AssignmentRow
unfolding find_next_assignment
get_next_stopping_assignment = find_next_assignment (λ a. a.end_date) none

-- The times that the two timeouts are set for, where they wait: they fire then or later.
pub record Timers : Type 0 where
  pub start : Option ℕ
  pub stop : Option ℕ

pub record World : Type 0 where
  pub tables : Tables
  pub timers : Timers

-- `AssignmentCreated`, `AssignmentUpdated` and `AssignmentRemoved`
unfoldable pub reschedules : AssignmentEvent → Bool
reschedules (AssignmentEvent.assignment_created c a) = true
reschedules (AssignmentEvent.assignment_updated c a) = true
reschedules (AssignmentEvent.assignment_removed c a) = true
reschedules _ = false

-- `setTimeout` makes its delay of the one it is given. A callback gets the time at which it runs.
module _ (services : Services) (wait : ℕ → ℕ) where
  -- What a job's timeout becomes: `removeTimeout`, and `addTimeout` where there is a date.
  unfoldable pub update_job : ℕ → Option ℕ → Option ℕ
  update_job now none = none
  update_job now (some date) = some (now + wait (date - now))

  unfoldable pub date_of : (AssignmentRow → Option ℕ) → Option AssignmentRow → Option ℕ
  date_of date none = none
  date_of date (some a) = date a

  unfoldable pub schedule_next_start_and_stop : ℕ → Tables → Timers
  unfolding get_next_starting_assignment get_next_stopping_assignment update_job date_of
  schedule_next_start_and_stop now db = record {
    start = update_job now (date_of (λ a. a.start_date) (get_next_starting_assignment now db));
    stop = update_job now (date_of (λ a. a.end_date) (get_next_stopping_assignment now db));
  }

  -- The saga, once the tables were changed: it acts on the new events.
  unfoldable pub saga : ℕ → Tables → Tables → Timers → World
  unfolding reschedules schedule_next_start_and_stop
  saga now before after timers =
      if any reschedules (drop (length before.events) after.events)
      then record { tables = after; timers = schedule_next_start_and_stop now after }
      else record { tables = after; timers = timers }

  -- A request at a time.
  unfoldable pub handle : {A : Type 0} → ℕ → Task A → World → World
  unfolding saga
  handle now task world = saga now world.tables (task world.tables).1 world.timers

  -- The callbacks: a timeout that has fired waits no more.
  unfoldable pub fire_start : ℕ → World → World
  unfolding start_assignments saga
  fire_start now world =
      saga now world.tables (start_assignments services now world.tables)
        (record world.timers { start = none })

  unfoldable pub fire_stop : ℕ → World → World
  unfolding stop_assignments saga
  fire_stop now world =
      saga now world.tables (stop_assignments services now world.tables)
        (record world.timers { stop = none })

  -- The three calls of `onInit`, one after the other.
  unfoldable pub on_init : ℕ → Tables → World
  unfolding start_assignments stop_assignments schedule_next_start_and_stop
  on_init now db =
      let after = stop_assignments services now (start_assignments services now db) in
      record { tables = after; timers = schedule_next_start_and_stop now after }
