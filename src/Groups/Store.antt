-- ===== src/Groups/Store.antt =====
-- The tables that the operations on groups read and write, the events they publish, and calls
-- that may throw. A call that throws keeps what it wrote before: the code opens no transaction.
use stu_mgmt_service.Prelude.{ℕ, String, Bool, List, [], ◌∷◌, ◌++◌, Option}
use stu_mgmt_service.Groups.Models.{Exception, Outcome, CourseRole, GroupSettings}

-- A row of `user_group_relations`.
pub record Relation : Type 0 where
  pub user_id : String
  pub participant_id : ℕ
  pub group_id : String

pub record GroupRow : Type 0 where
  pub id : String
  pub course_id : String
  pub name : String
  pub password : Option String
  pub is_closed : Bool

pub record ParticipantRow : Type 0 where
  pub id : ℕ
  pub course_id : String
  pub user_id : String
  pub role : CourseRole

pub data Event : Type 0 where
  user_joined_group : (course_id group_id user_id : String) → Event
  user_left_group : (course_id group_id user_id : String) → Option String → Event

pub record Database : Type 0 where
  pub groups : List GroupRow
  pub relations : List Relation
  pub participants : List ParticipantRow
  pub settings : List (String × GroupSettings)
  pub events : List Event

-- A call on tables of any kind, and what runs after it.
abbrev pub Query : Type 0 → Type 0 → Type 0
Query S A = S → Outcome A × S

abbrev pub Action : Type 0 → Type 0
Action A = Query Database A

unfoldable pub continue : {S A B : Type 0} → (A → Query S B) → Outcome A × S → Outcome B × S
continue f (Outcome.ok a, db) = f a db
continue f (Outcome.throws e, db) = (Outcome.throws e, db)

infixl 1 ◌>>=◌
abbrev pub ◌>>=◌ : {S A B : Type 0} → Query S A → (A → Query S B) → Query S B
m >>= f = λ db. continue f (m db)

unfoldable pub return : {S A : Type 0} → A → Query S A
return a = λ db. (Outcome.ok a, db)

unfoldable pub throw : {S A : Type 0} → Exception → Query S A
throw e = λ db. (Outcome.throws e, db)

-- A check that reads no table.
unfoldable pub check : {S A : Type 0} → Outcome A → Query S A
check o = λ db. (o, db)

-- A transaction: an exception takes back what it wrote.
unfoldable pub roll_back : {S A : Type 0} → S → Outcome A × S → Outcome A × S
roll_back db (Outcome.ok a, after) = (Outcome.ok a, after)
roll_back db (Outcome.throws e, after) = (Outcome.throws e, db)

-- Read the tables, and write them.
unfoldable pub read_db : {S A : Type 0} → (S → A) → Query S A
read_db f = λ db. (Outcome.ok (f db), db)

unfoldable pub write_db : {S : Type 0} → (S → S) → Query S (Unit {0})
write_db f = λ db. (Outcome.ok tt, f db)

-- `this.events.publish(event)`
unfoldable pub publish : Event → Action (Unit {0})
unfolding write_db
publish event = write_db (λ db. record db { events = db.events ++ event ∷ [] })
