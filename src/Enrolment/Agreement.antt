-- ===== src/Enrolment/Agreement.antt =====
-- The query and the operation agree on who can join a course.
use stu_mgmt_service.Prelude.{
  ◌⊎◌, ℕ, suc, ◌≤◌, ◌≡◌, refl, sym, ap, ◌∙◌, inl, inr, String, string_eq, option_eq, Bool, true,
  false, not, ◌&&◌, ◌===◌, ===_true, ===_eq, ===_refl, none-ne-some, ◌==◌, arith, Bool-cases,
  Option-cases, List, [], ◌∷◌, ◌++◌, Option, none, some, length, filter_by, find_by, any,
}
use mathlib.Core.Option.{some-injective}
use stu_mgmt_service.Groups.Models.{Exception, Outcome, CourseRole, is_set}
use stu_mgmt_service.Groups.Store.{ParticipantRow}
use stu_mgmt_service.Enrolment.{
  UserDto, CourseRow, Enrolment, is_lecturer, is_admin, is_row_of,
  check_if_user_can_add_participant, check_course, create_participant, save_participant,
  read_created, get_participant, publish_joined, row_or_error, enrol, enrol_in, enrol_checked,
  answer, find_course, add_participant, CanJoin, can_join_course,
}

-- With no match, nothing is found.
no_match :
    (p : ParticipantRow → Bool) (xs : List ParticipantRow)
    → length (filter_by p xs) ≡ 0
    → (find_by p xs ≡ none) × (any p xs ≡ false)
no_match p [] e = (refl, refl)
no_match p (x ∷ xs) e = elim (Bool-cases (p x)) [
  | inl h ↦ absurd (some_left (length (filter_by p xs)) (rw h at e))
  | inr h ↦ rw h (no_match p xs (rw h at e))
]
  where
    some_left : (n : ℕ) → suc n ≡ 0 → ⊥
    some_left n q = omega arith

found_id :
    (course_id : String) (cs : List CourseRow) (c : CourseRow)
    → find_by (λ d. d.id === course_id) cs ≡ some c
    → c.id ≡ course_id
found_id course_id [] c e = absurd (none-ne-some e)
found_id course_id (d ∷ ds) c e = elim (Bool-cases (d.id === course_id)) [
  | inl h ↦ let same = some-injective _ _ (rw h at e) in rw same at (===_eq d.id course_id h)
  | inr h ↦ found_id course_id ds c (rw h at e)
]

-- A password that is either not required or known passes the check.
password_passes :
    (required given : Option String)
    → (is_set required ≡ true → required ≡ given)
    → (is_set required && not (required === given)) ≡ false
password_passes required given known = elim (Bool-cases (is_set required)) [
  | inl h ↦ rw (h, ===_true required given (known h))
  | inr h ↦ rw h
]

different : (c d : CanJoin) → ◌≡◌ {A = Outcome CanJoin} (Outcome.ok c) (Outcome.ok d) → c ≡ d
different c d e = cc

same_answer : (a b : Bool) → CanJoin.can_join a ≡ CanJoin.can_join b → a ≡ b
same_answer a b e = cc

module _ (new_id : ℕ) (requesting : UserDto) (course_id : String) (password : Option String)
    (db : Enrolment) where
  abbrev new_student : ParticipantRow
  new_student = record {
    id = new_id;
    course_id = course_id;
    user_id = requesting.id;
    role = CourseRole.student;
  }

  -- The tables with the user as a student of the course.
  abbrev pub enrolled : Enrolment
  enrolled = record db {
    participants =
        db.participants
        ++ record {
          id = new_id;
          course_id = course_id;
          user_id = requesting.id;
          role = CourseRole.student;
        }
          ∷ [];
    joined = db.joined ++ (course_id, requesting.id) ∷ [];
  }

  found_course :
      (course : CourseRow) → find_course course_id db ≡ some course → course.id ≡ course_id
  unfolding find_course
  found_course course = found_id course_id db.courses course

  found_new :
      (rows : List ParticipantRow)
      → find_by (is_row_of course_id requesting.id) rows ≡ none
      → find_by (is_row_of course_id requesting.id) (rows ++ new_student ∷ []) ≡ some new_student
  unfolding is_row_of
  found_new [] h = rw (===_refl requesting.id, ===_refl course_id) refl
  found_new (r ∷ rows) h = elim (Bool-cases (is_row_of course_id requesting.id r)) [
    | inl e ↦ absurd (none-ne-some (sym (rw e at h)))
    | inr e ↦ rw e (found_new rows (rw e at h))
  ]

  -- A user who has a row as a user, and none in the course, becomes a participant.
  create_participant_new :
      find_by (is_row_of course_id requesting.id) db.participants ≡ none
      → any (is_row_of course_id requesting.id) db.participants ≡ false
      → any (λ u. u === requesting.id) db.users ≡ true
      → create_participant new_id course_id requesting.id db ≡ (Outcome.ok tt, enrolled)
  unfolding create_participant save_participant read_created get_participant publish_joined
      row_or_error
  create_participant_new absent free known_user =
      ap (read_created course_id requesting.id) saved
      ∙ ap (λ o. publish_joined course_id (row_or_error o) added) (found_new db.participants absent)
    where
      added : Enrolment
      added = record db { participants = db.participants ++ new_student ∷ [] }

      saved : save_participant new_student db ≡ (Outcome.ok tt, added)
      saved = rw (free, known_user) refl

  -- Where a user who is no admin has a row as a user, and at most one in the course, and the query answers that the
  -- user can join: adding oneself returns, given the course's password if the query said that one
  -- is required, and adds one participant, a student, and the event.
  pub can_join_course_joins :
      (course : CourseRow) (requires_password : Bool)
      → is_admin requesting.role ≡ false
      → any (λ u. u === requesting.id) db.users ≡ true
      → find_course course_id db ≡ some course
      → length (filter_by (is_row_of course_id requesting.id) db.participants) ≤ 1
      → can_join_course course_id requesting.id db ≡ Outcome.ok (CanJoin.can_join requires_password)
      → (requires_password ≡ true → course.password ≡ password)
      → add_participant new_id requesting course_id requesting.id password db
        ≡ (Outcome.ok tt, enrolled)
  unfolding add_participant check_if_user_can_add_participant enrol_in enrol enrol_checked
      check_course can_join_course answer
  can_join_course_joins course required plain known_user found unique says known =
      let n = length (filter_by (is_row_of course_id requesting.id) db.participants) in
      elim (Bool-cases (n == 1)) [
        | inl one ↦ absurd (not_member (different _ _ (rw (found, one) at says)))
        | inr few ↦ elim (Bool-cases course.is_closed) [
          | inl c ↦ absurd (not_closed (different _ _ (rw (found, few, c) at says)))
          | inr c ↦
              let answer = same_answer _ _ (different _ _ (rw (found, few, c) at says)) in
              let (absent, free) =
                no_match (is_row_of course_id requesting.id) db.participants (ground arith) in
              let passes = password_passes course.password password (λ h. known (sym answer ∙ h)) in
              let id = found_course course found in
              rw (absent, ===_refl requesting.id, plain, found, c, passes, id)
                (create_participant_new absent free known_user)
        ]
      ]
    where
      not_member : CanJoin.is_member ≡ CanJoin.can_join required → ⊥
      not_member e = cc

      not_closed : CanJoin.closed ≡ CanJoin.can_join required → ⊥
      not_closed e = cc

throws-ne-ok :
    (x : Exception) (db after : Enrolment)
    → ◌≡◌ {A = Outcome (Unit {0}) × Enrolment} (Outcome.throws x, db) (Outcome.ok tt, after)
    → ⊥
throws-ne-ok x db after e = unlike (ap (λ p. p.0) e)
  where
    unlike : ◌≡◌ {A = Outcome (Unit {0})} (Outcome.throws x) (Outcome.ok tt) → ⊥
    unlike k = cc

-- Where a call of `addParticipant` returns, the requesting user was added, or is an admin, or has a
-- row as a lecturer of the course.
pub add_participant_allowed :
    (new_id : ℕ) (requesting : UserDto) (course_id target : String) (password : Option String)
    (db after : Enrolment)
    → add_participant new_id requesting course_id target password db ≡ (Outcome.ok tt, after)
    → (requesting.id ≡ target)
      ⊎ ((is_admin requesting.role ≡ true)
          ⊎ ((row : ParticipantRow) × (find_by (is_row_of course_id requesting.id) db.participants
                ≡ some row)
              × (is_lecturer row ≡ true)))
unfolding add_participant check_if_user_can_add_participant enrol_in
add_participant_allowed new_id requesting course_id target password db after h =
    elim (Bool-cases (is_admin requesting.role)) [
      | inl a ↦ inr (inl a)
      | inr a ↦ elim (Option-cases (find_by (is_row_of course_id requesting.id) db.participants)) [
        | inl f ↦ elim (Bool-cases (requesting.id === target)) [
          | inl s ↦ inl (===_eq requesting.id target s)
          | inr s ↦ absurd (throws-ne-ok _ db after (rw (f, s, a) at h))
        ]
        | inr (row, f) ↦ elim (Bool-cases (is_lecturer row)) [
          | inl l ↦ inr (inr (row, f, l))
          | inr l ↦ elim (Bool-cases (row.user_id === target)) [
            | inl s ↦ absurd (throws-ne-ok _ db after (rw (f, s) at h))
            | inr s ↦ absurd (throws-ne-ok _ db after (rw (f, s, a, l) at h))
          ]
        ]
      ]
    ]
