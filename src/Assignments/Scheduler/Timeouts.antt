-- ===== src/Assignments/Scheduler/Timeouts.antt =====
-- When the timeout of the next start fires, and what it then does.
use stu_mgmt_service.Prelude.{
  ℕ, ◌+◌, ◌-◌, ◌≤◌, ◌<◌, leb, ◌≡◌, refl, sym, subst, inl, inr, ◌===◌, ===_eq, ===_true, ◌==◌, Bool,
  true, false, Bool-cases, List, [], ◌∷◌, none, some, if◌then◌else◌, filter_by, All, drop-length,
  Option-cases, ◌∈◌, any, drop, length, arith,
}
use stu_mgmt_service.Assignments.Models.{AssignmentState, state_eq, AssignmentRow}
use stu_mgmt_service.Assignments.Store.{Tables}
use stu_mgmt_service.Assignments.Registering.{Services}
use stu_mgmt_service.Assignments.Scheduler.{
  reached, is_to_be_started, find_assignments_that_should_be_started, start_assignments,
  update_each, get_next_starting_assignment, Timers, World, reschedules, update_job, date_of,
  schedule_next_start_and_stop, saga, fire_start,
}
use stu_mgmt_service.Assignments.Scheduler.Jobs.{mark, start_assignments-mark}
use stu_mgmt_service.Assignments.Scheduler.Next.{
  IsNext, IsAheadOf, IsCandidate, IsNoLater, find_next_assignment-IsNext,
}
use stu_mgmt_service.Assignments.Invariant.{IsConsistent}

abbrev pub longest_delay : ℕ
longest_delay = 2147483647

-- The delay that `setTimeout` sets: Node.js documents that a delay that is less than 1 or more than
-- 2147483647 is set to 1. How much later the callback runs is left open.
pub record IsSetTimeout (wait : ℕ → ℕ) : Type 0 where
  pub exact : (delay : ℕ) → 1 ≤ delay → delay ≤ longest_delay → wait delay ≡ delay
  pub at_once : wait 0 ≡ 1
  pub too_long : (delay : ℕ) → longest_delay < delay → wait delay ≡ 1

-- The world in which the two timeouts were just scheduled.
abbrev pub scheduled : Services → (ℕ → ℕ) → ℕ → Tables → World
scheduled services wait now db = record {
  tables = db;
  timers = schedule_next_start_and_stop services wait now db;
}

saga-tables :
    (services : Services) (wait : ℕ → ℕ) (now : ℕ) (before after : Tables) (timers : Timers)
    → (saga services wait now before after timers).tables ≡ after
unfolding saga
saga-tables services wait now before after timers =
    elim (Bool-cases (any reschedules (drop (length before.events) after.events))) [
      | inl e ↦ rw e refl
      | inr e ↦ rw e refl
    ]

mark-∈ :
    (p : AssignmentRow → Bool) (state : AssignmentState) (a : AssignmentRow)
    (rows : List AssignmentRow)
    → a ∈ rows
    → p a ≡ true
    → record a { state = state } ∈ mark p state rows
mark-∈ p state a [] i h = i
mark-∈ p state a (b ∷ rows) (inl e) h = inl (
    subst (λ c. record a { state = state } ≡ (if p c then record c { state = state } else c)) e
      (rw h refl))
mark-∈ p state a (b ∷ rows) (inr i) h = inr (mark-∈ p state a rows i h)

module _ (services : Services) (wait : ℕ → ℕ) (k : IsSetTimeout wait) where
  fires_on_time :
      (now d : ℕ)
      → now ≤ d
      → d ≤ now + longest_delay
      → (d ≤ now + wait (d - now)) × (now + wait (d - now) ≤ d + 1)
  fires_on_time now d h l = elim (Bool-cases (d - now == 0)) [
    | inl e ↦
        let z : d - now ≡ 0 = ground arith in
        let one : wait (d - now) ≡ 1 = subst (λ x. wait x ≡ 1) (sym z) k.at_once in
        (omega arith, omega arith)
    | inr e ↦
        let p : 1 ≤ d - now = ground arith in
        let same = k.exact (d - now) p (omega arith) in (omega arith, omega arith)
  ]

  -- What is known of the assignment that is found as the next to start.
  IsNext-start :
      (now : ℕ) (db : Tables) (a : AssignmentRow)
      → get_next_starting_assignment now db ≡ some a
      → IsNext (λ b. b.start_date) (some AssignmentState.invisible) now db.assignments (some a)
  unfolding get_next_starting_assignment
  IsNext-start now db a n =
      subst (IsNext (λ b. b.start_date) (some AssignmentState.invisible) now db.assignments) n
        (find_next_assignment-IsNext (λ b. b.start_date) (some AssignmentState.invisible) now db)

  due_start :
      (a : AssignmentRow) (d t : ℕ)
      → a.state ≡ AssignmentState.invisible
      → a.start_date ≡ some d
      → d ≤ t
      → is_to_be_started t a ≡ true
  unfolding is_to_be_started reached
  due_start a d t i s l = rw (===_true a.state AssignmentState.invisible i, s) (ground arith)

  -- In consistent tables, where the next assignment to start is at most the longest delay ahead: the
  -- timeout is scheduled for its start date, or a millisecond after it, and however late it then
  -- fires, in tables that did not change meanwhile, the assignment is IN_PROGRESS.
  pub fire_start-starts :
      (now : ℕ) (db : Tables) (a : AssignmentRow) (d late : ℕ)
      → IsConsistent db
      → get_next_starting_assignment now db ≡ some a
      → a.start_date ≡ some d
      → d ≤ now + longest_delay
      → (due : ℕ) × ((scheduled services wait now db).timers.start ≡ some due)
        × (d ≤ due)
        × (due ≤ d + 1)
        × (record a { state = AssignmentState.in_progress }
            ∈ (fire_start services wait
                (due + late)
                (scheduled services wait now db)).tables.assignments)
  unfolding schedule_next_start_and_stop update_job date_of fire_start
  fire_start-starts now db a d late w n s l =
      let (there, candidate, earliest) = IsNext-start now db a n in
      let (not_before, soon) = fires_on_time now d (rw s at candidate.1) l in
      let due = now + wait (d - now) in
      let t = due + late in
      (
        due,
        rw (n, s) refl,
        not_before,
        soon,
        rw
            (
              saga-tables services wait t db (start_assignments services t db)
                  (record (schedule_next_start_and_stop services wait now db) { start = none }),
              start_assignments-mark services t db w,
            )
            (mark-∈ (is_to_be_started t) AssignmentState.in_progress a db.assignments there
              (due_start a d t candidate.0 s (omega arith))),
      )

  filter_by-none :
      (p : AssignmentRow → Bool) (rows : List AssignmentRow)
      → All (λ b. p b ≡ false) rows
      → filter_by p rows ≡ []
  filter_by-none p [] h = refl
  filter_by-none p (b ∷ rows) h = rw (h.0, filter_by-none p rows h.1) refl

  not_due :
      (b : AssignmentRow) (now d t : ℕ)
      → is_to_be_started now b ≡ false
      → (IsCandidate (λ c. c.start_date) (some AssignmentState.invisible) now b
          → IsNoLater (some d) b.start_date)
      → t < d
      → is_to_be_started t b ≡ false
  unfolding is_to_be_started reached
  not_due b now d t n c l = elim (Bool-cases (b.state === AssignmentState.invisible)) [
    | inr e ↦ rw e refl
    | inl e ↦ elim (Option-cases b.start_date) [
      | inl q ↦ rw (e, q) refl
      | inr (x, q) ↦ elim (Bool-cases (leb x now)) [
        | inl f ↦ absurd (true-ne-false (rw (e, q, f) at n))
        | inr f ↦
            let later : d ≤ x = rw q at (
              c (
                ===_eq b.state AssignmentState.invisible e,
                subst (IsAheadOf now) (sym q) (ground arith),
              )) in
            rw (e, q) (ground arith)
      ]
    ]
  ]
    where
      true-ne-false : true ≡ false → ⊥
      true-ne-false h = cc

  -- Where it is further ahead, and no assignment is due, the timeout is scheduled for one
  -- millisecond later. Fired then or later, but before the start date, in tables that did not change
  -- meanwhile, it finds nothing to start, changes no table, and no timeout is scheduled in its place.
  pub fire_start-forgets :
      (now : ℕ) (db : Tables) (a : AssignmentRow) (d late : ℕ)
      → find_assignments_that_should_be_started now db ≡ []
      → get_next_starting_assignment now db ≡ some a
      → a.start_date ≡ some d
      → now + longest_delay < d
      → now + 1 + late < d
      → ((scheduled services wait now db).timers.start ≡ some (now + 1))
        × (fire_start services wait (now + 1 + late) (scheduled services wait now db) ≡ record {
          tables = db;
          timers = record (schedule_next_start_and_stop services wait now db) { start = none };
        })
  unfolding schedule_next_start_and_stop update_job date_of fire_start saga start_assignments
      update_each find_assignments_that_should_be_started
  fire_start-forgets now db a d late z n s l before =
      let (there, candidate, earliest) = IsNext-start now db a n in
      let wait_one : wait (d - now) ≡ 1 = k.too_long (d - now) (omega arith) in
      let none_due : filter_by (is_to_be_started (now + 1 + late)) db.assignments ≡ [] =
        filter_by-none (is_to_be_started (now + 1 + late)) db.assignments
          (undue db.assignments (any_of db.assignments z) earliest) in
      (rw (n, s, wait_one) refl, rw (none_due, drop-length db.events) refl)
    where
      any_of :
          (rows : List AssignmentRow)
          → filter_by (is_to_be_started now) rows ≡ []
          → All (λ b. is_to_be_started now b ≡ false) rows
      any_of [] e = tt
      any_of (b ∷ rows) e = elim (Bool-cases (is_to_be_started now b)) [
        | inl f ↦ absurd (cons_ne (rw f at e))
        | inr f ↦ (f, any_of rows (rw f at e))
      ]
        where
          cons_ne :
              {b : AssignmentRow} {r : List AssignmentRow}
              → ◌≡◌ {A = List AssignmentRow} (b ∷ r) []
              → ⊥
          cons_ne h = cc

      undue :
          (rows : List AssignmentRow)
          → All (λ b. is_to_be_started now b ≡ false) rows
          → All
              (λ b.
                IsCandidate (λ c. c.start_date) (some AssignmentState.invisible) now b
                → IsNoLater a.start_date b.start_date)
              rows
          → All (λ b. is_to_be_started (now + 1 + late) b ≡ false) rows
      undue [] f g = tt
      undue (b ∷ rows) f g = (
        not_due b now d (now + 1 + late) f.0 (λ c. subst (λ o. IsNoLater o b.start_date) s (g.0 c))
            before,
        undue rows f.1 g.1,
      )
