-- ===== src/Assignments/Models.antt =====
-- The assignment of course/models/assignment.model.ts, its row, and the enumerations of
-- shared/enums.ts. Dates are milliseconds; points are whole numbers; links and configs are texts.
use stu_mgmt_service.Prelude.{
  ℕ, String, ◌≡◌, ◌↔◌, Bool, true, not, ◌&&◌, ◌==◌, ◌===◌, Eq, option_eq, List, Option, some, arith,
}

pub data AssignmentState : Type 0 where
  invisible : AssignmentState
  closed : AssignmentState
  in_progress : AssignmentState
  in_review : AssignmentState
  evaluated : AssignmentState

pub data AssignmentType : Type 0 where
  homework : AssignmentType
  testat : AssignmentType
  seminar : AssignmentType
  project : AssignmentType
  other : AssignmentType

pub data CollaborationType : Type 0 where
  group : CollaborationType
  single : CollaborationType
  group_or_single : CollaborationType

-- `===` on states compares their names.
abbrev pub state_number : AssignmentState → ℕ
state_number AssignmentState.invisible = 0
state_number AssignmentState.closed = 1
state_number AssignmentState.in_progress = 2
state_number AssignmentState.in_review = 3
state_number AssignmentState.evaluated = 4

abbrev pub state_beq : AssignmentState → AssignmentState → Bool
state_beq s t = state_number s == state_number t

pub state_beq_iff : (s t : AssignmentState) → (state_beq s t ≡ true) ↔ (s ≡ t)
state_beq_iff s t = ground arith

instance abbrev pub state_eq : Eq AssignmentState
state_eq = record { beq = state_beq; beq_iff = state_beq_iff }

-- A row of `assignments`.
pub record AssignmentRow : Type 0 where
  pub id : String
  pub name : String
  pub state : AssignmentState
  pub start_date : Option ℕ
  pub end_date : Option ℕ
  pub comment : Option String
  pub links : Option (List String)
  pub configs : Option (List String)
  pub kind : AssignmentType
  pub points : ℕ
  pub bonus_points : Option ℕ
  pub collaboration : CollaborationType
  pub course_id : String

-- The model, which leaves the comment, the links and the configs out.
pub record Assignment : Type 0 where
  pub id : String
  pub course_id : String
  pub name : String
  pub collaboration : CollaborationType
  pub state : AssignmentState
  pub kind : AssignmentType
  pub points : ℕ
  pub bonus_points : Option ℕ
  pub start_date : Option ℕ
  pub end_date : Option ℕ

-- `new Assignment(assignment)`
unfoldable pub new_assignment : AssignmentRow → Assignment
new_assignment a = record {
  id = a.id;
  course_id = a.course_id;
  name = a.name;
  collaboration = a.collaboration;
  state = a.state;
  kind = a.kind;
  points = a.points;
  bonus_points = a.bonus_points;
  start_date = a.start_date;
  end_date = a.end_date;
}

module _ (a : Assignment) where
  unfoldable pub allows_groups : Bool
  allows_groups = elim a.collaboration [
    | CollaborationType.group ↦ true
    | CollaborationType.group_or_single ↦ true
    | CollaborationType.single ↦ not true
  ]

  unfoldable pub allows_submissions : Bool
  allows_submissions = a.state === AssignmentState.in_progress

  unfoldable pub has_changed_state : AssignmentState → Bool
  has_changed_state old_state = not (old_state === a.state)

  -- A state that is not given is not `IN_PROGRESS`.
  unfoldable pub was_started : Option AssignmentState → Bool
  was_started old_state =
      (a.state === AssignmentState.in_progress)
      && not (old_state === some AssignmentState.in_progress)
