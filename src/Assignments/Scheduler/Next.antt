-- ===== src/Assignments/Scheduler/Next.antt =====
-- The assignment that the scheduler waits for.
use Prim.Native.Nat.{Ordering}
use stu_mgmt_service.Prelude.{
  ℕ, ◌≤◌, ◌≡◌, refl, inl, inr, ◌===◌, ===_eq, ===_true, ◌↔◌, Bool, true, false, Bool-cases,
  both_left, both_right, List, [], ◌∷◌, Option, none, some, filter_by, All, All-self, All-mono,
  All-filter, ◌∈◌, sort, sort-All, All-sort, sort-IsSorted, IsSorted, IsConsistent, MayPrecede,
  is_gt, arith,
}
use stu_mgmt_service.Assignments.Models.{AssignmentState, state_eq, AssignmentRow}
use stu_mgmt_service.Assignments.Store.{Tables}
use stu_mgmt_service.Assignments.Scheduler.{
  ahead, earlier_first, first, is_ahead, find_next_assignment,
}

abbrev pub HasState : Option AssignmentState → AssignmentRow → Type 0
HasState none a = Unit
HasState (some state) a = a.state ≡ state

abbrev pub IsAheadOf : ℕ → Option ℕ → Type 0
IsAheadOf now none = ⊥
IsAheadOf now (some d) = now ≤ d

abbrev pub IsNoLater : Option ℕ → Option ℕ → Type 0
IsNoLater none e = ⊥
IsNoLater (some d) none = ⊥
IsNoLater (some d) (some e) = d ≤ e

module _ (date : AssignmentRow → Option ℕ) (state : Option AssignmentState) (now : ℕ) where
  -- The assignment is in the state, where one is given, and its date is not before now.
  abbrev pub IsCandidate : AssignmentRow → Type 0
  IsCandidate a = HasState state a × IsAheadOf now (date a)

  -- No row is a candidate, or this one is, and no candidate has an earlier date.
  abbrev pub IsNext : List AssignmentRow → Option AssignmentRow → Type 0
  IsNext rows none = All (λ b. ¬ IsCandidate b) rows
  IsNext rows (some a) =
      (a ∈ rows) × IsCandidate a × All (λ b. IsCandidate b → IsNoLater (date a) (date b)) rows

ahead_iff : (now : ℕ) (d : Option ℕ) → (ahead now d ≡ true) ↔ IsAheadOf now d
unfolding ahead
ahead_iff now none = ground arith
ahead_iff now (some d) = ground arith

is_ahead_iff :
    (date : AssignmentRow → Option ℕ) (state : Option AssignmentState) (now : ℕ) (a : AssignmentRow)
    → (is_ahead date state now a ≡ true) ↔ IsCandidate date state now a
unfolding is_ahead
is_ahead_iff date none now a =
    ((λ h. (tt, (ahead_iff now (date a)).0 h)), (λ c. (ahead_iff now (date a)).1 c.1))
is_ahead_iff date (some s) now a = (
  (λ h.
      let e = both_left (a.state === s) _ h in
      (===_eq a.state s e, (ahead_iff now (date a)).0 (both_right _ _ h))),
  (λ c. rw (===_true a.state s c.0, (ahead_iff now (date a)).1 c.1) refl),
)

IsNoLater-iff :
    (d e : Option ℕ) (now : ℕ)
    → IsAheadOf now d
    → IsAheadOf now e
    → (is_gt (earlier_first d e) ≡ false) ↔ IsNoLater d e
unfolding earlier_first
IsNoLater-iff none e now h k = absurd h
IsNoLater-iff (some d) none now h k = absurd k
IsNoLater-iff (some d) (some e) now h k = ground arith

-- What holds of the rows that pass a test holds of each row that would pass.
All-of_filter :
    (P : AssignmentRow → Type 0) (p : AssignmentRow → Bool) (rows : List AssignmentRow)
    → All P (filter_by p rows)
    → All (λ a. p a ≡ true → P a) rows
All-of_filter P p [] h = tt
All-of_filter P p (a ∷ rows) h = elim (Bool-cases (p a)) [
  | inl e ↦ let k = rw e at h in ((λ q. k.0), All-of_filter P p rows k.1)
  | inr e ↦ let k = rw e at h in ((λ q. cc), All-of_filter P p rows k)
]

module _ (date : AssignmentRow → Option ℕ) (state : Option AssignmentState) (now : ℕ) where
  abbrev by_date : AssignmentRow → AssignmentRow → Ordering
  by_date a b = earlier_first (date a) (date b)

  by_date-IsConsistent : IsConsistent by_date (IsCandidate date state now)
  by_date-IsConsistent = record {
    antisymm = λ x y cx cy h.
        (IsNoLater-iff (date y) (date x) now cy.1 cx.1).1 (later (date x) (date y) cx.1 cy.1 h);
    trans = λ x y z cx cy cz h k. (IsNoLater-iff (date x) (date z) now cx.1 cz.1).1 (
        onward (date x) (date y) (date z) ((IsNoLater-iff (date x) (date y) now cx.1 cy.1).0 h)
          ((IsNoLater-iff (date y) (date z) now cy.1 cz.1).0 k));
  }
    where
      later :
          (d e : Option ℕ)
          → IsAheadOf now d
          → IsAheadOf now e
          → is_gt (earlier_first d e) ≡ true
          → IsNoLater e d
      later none e h k g = absurd h
      later (some d) none h k g = absurd k
      later (some d) (some e) h k g = unfold earlier_first in ground arith

      onward : (d e f : Option ℕ) → IsNoLater d e → IsNoLater e f → IsNoLater d f
      onward none e f h k = h
      onward (some d) none f h k = absurd h
      onward (some d) (some e) none h k = k
      onward (some d) (some e) (some f) h k = omega arith

  -- The rows that pass the test, in order, decide about all rows.
  first-IsNext :
      (rows s : List AssignmentRow)
      → All (λ a. IsCandidate date state now a × (a ∈ rows)) s
      → IsSorted by_date s
      → ((Q : AssignmentRow → Type 0) → All Q s → All Q (filter_by (is_ahead date state now) rows))
      → IsNext date state now rows (first s)
  first-IsNext rows [] c o back =
      All-mono (λ (b : AssignmentRow). is_ahead date state now b ≡ true → ⊥) _ rows
        (λ b n k. n ((is_ahead_iff date state now b).1 k))
        (All-of_filter (λ b. ⊥) (is_ahead date state now) rows (back (λ b. ⊥) tt))
  first-IsNext rows (a ∷ s) c o back = (
    c.0.1,
    c.0.0,
    All-mono (λ (b : AssignmentRow). is_ahead date state now b ≡ true → MayPrecede by_date a b) _
        rows
        (λ b before k.
          (IsNoLater-iff (date a) (date b) now c.0.0.1 k.1).0
            (before ((is_ahead_iff date state now b).1 k)))
        (All-of_filter (MayPrecede by_date a) (is_ahead date state now) rows (
          back (MayPrecede by_date a) (
            (IsNoLater-iff (date a) (date a) now c.0.0.1 c.0.0.1).1 (itself (date a) c.0.0.1),
            o.0,
          ))),
  )
    where
      itself : (d : Option ℕ) → IsAheadOf now d → IsNoLater d d
      itself none h = h
      itself (some d) h = omega arith

  -- The assignment that is found is one that is in the state, where one is asked for, with a date
  -- not before now, and none of those has an earlier date; where none is found there is none.
  pub find_next_assignment-IsNext :
      (db : Tables) → IsNext date state now db.assignments (find_next_assignment date state now db)
  unfolding find_next_assignment
  find_next_assignment-IsNext db =
      let p = is_ahead date state now in
      let passed = filter_by p db.assignments in
      let both : All (λ a. IsCandidate date state now a × (a ∈ db.assignments)) passed =
        All-mono (λ (a : AssignmentRow). (a ∈ db.assignments) × (p a ≡ true)) _ passed
          (λ a h. ((is_ahead_iff date state now a).0 h.1, h.0))
          (All-filter p (λ a. a ∈ db.assignments) db.assignments (All-self db.assignments)) in
      first-IsNext db.assignments (sort by_date passed) (sort-All by_date _ passed both)
        (sort-IsSorted by_date-IsConsistent passed (All-mono _ _ passed (λ a h. h.0) both))
        (λ Q. All-sort by_date Q passed)
