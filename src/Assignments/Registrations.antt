-- ===== src/Assignments/Registrations.antt =====
-- AssignmentRegistrationRepository of course/repositories/assignment-registration.repository.ts,
-- with the constraints that the entities declare. Rows are inserted one after the other.
pub mod Complete
use stu_mgmt_service.Prelude.{
  ℕ, suc, String, string_eq, nat_eq, Bool, true, false, not, ◌&&◌, ◌||◌, ◌==◌, ◌===◌, List, [], ◌∷◌,
  ◌++◌, map, Option, none, some, if◌then◌else◌, length, filter_by, any, find_by,
}
use stu_mgmt_service.Merge.Groups.{GroupId}
use stu_mgmt_service.Groups.Models.{Exception, Outcome}
use stu_mgmt_service.Groups.Store.{
  GroupRow, ParticipantRow, continue, ◌>>=◌, roll_back, return, throw, check, read_db, write_db,
}
use stu_mgmt_service.Assignments.Store.{Registration, RegistrationRelation, Tables, Task, found}

-- A group and its members, as `createRegistrations` takes them.
pub record GroupMember : Type 0 where
  pub participant_id : ℕ
  pub user_id : String

pub record GroupWithMembers : Type 0 where
  pub id : GroupId
  pub members : List GroupMember

-- A registration that is not saved yet, with the participants of its relations.
pub record NewRegistration : Type 0 where
  pub group_id : GroupId
  pub participant_ids : List ℕ

unfoldable pub build_registration : GroupWithMembers → NewRegistration
build_registration g = record {
  group_id = g.id;
  participant_ids = map (λ m. m.participant_id) g.members;
}

unfoldable pub build_registrations : List GroupWithMembers → List NewRegistration
unfolding build_registration
build_registrations groups = map build_registration groups

-- `IDX_ASSIGNMENT_GROUP`
unfoldable pub is_registration_of : String → String → Registration → Bool
is_registration_of assignment_id group_id r =
    (r.assignment_id === assignment_id) && (r.group_id === group_id)

-- `IDX_AssignmentRegistration_Participant`, `IDX_Assignment_Participant`
unfoldable pub occupies : ℕ → String → ℕ → RegistrationRelation → Bool
occupies registration_id assignment_id participant_id r =
    (r.participant_id === participant_id)
    && ((r.assignment_registration_id === registration_id) || (r.assignment_id === assignment_id))

-- The foreign keys of a relation. Its assignment is that of its registration, which exists.
unfoldable pub references_exist : ℕ → String → ℕ → Tables → Bool
references_exist registration_id assignment_id participant_id db =
    any (λ r. (r.id === registration_id) && (r.assignment_id === assignment_id)) db.registrations
    && any (λ p. p.id === participant_id) db.course_tables.participants

unfoldable pub add_relation : ℕ → String → ℕ → Tables → Tables
add_relation registration_id assignment_id participant_id db = record db {
  relations =
      db.relations
      ++ record {
        id = db.next_id;
        assignment_registration_id = registration_id;
        assignment_id = assignment_id;
        participant_id = participant_id;
      }
        ∷ [];
  next_id = suc db.next_id;
}

unfoldable pub insert_relation : ℕ → String → ℕ → Task (Unit {0})
unfolding occupies references_exist add_relation read_db write_db throw
insert_relation registration_id assignment_id participant_id = do
  db ← read_db (λ db. db)
  if any (occupies registration_id assignment_id participant_id) db.relations
      then throw Exception.query_failed
      else (if references_exist registration_id assignment_id participant_id db
          then write_db (add_relation registration_id assignment_id participant_id)
          else throw Exception.constraint_failed)

unfoldable pub insert_relations : ℕ → String → List ℕ → Task (Unit {0})
unfolding insert_relation return
insert_relations registration_id assignment_id [] = return tt
insert_relations registration_id assignment_id (p ∷ ps) = do
  done ← insert_relation registration_id assignment_id p
  insert_relations registration_id assignment_id ps

unfoldable pub add_registration : String → String → Tables → Tables
add_registration assignment_id group_id db = record db {
  registrations =
      db.registrations
      ++ record { id = db.next_id; assignment_id = assignment_id; group_id = group_id } ∷ [];
  next_id = suc db.next_id;
}

-- The row of a registration; a group without an id breaks the column's constraint.
unfoldable pub insert_registration_row : String → GroupId → Task ℕ
unfolding is_registration_of add_registration read_db write_db throw return
insert_registration_row assignment_id none = throw Exception.constraint_failed
insert_registration_row assignment_id (some group_id) = do
  db ← read_db (λ db. db)
  if any (is_registration_of assignment_id group_id) db.registrations
      then throw Exception.query_failed
      else (if any (λ a. a.id === assignment_id) db.assignments
            && any (λ g. g.id === group_id) db.course_tables.groups
          then (do done ← write_db (add_registration assignment_id group_id); return db.next_id)
          else throw Exception.constraint_failed)

-- A registration and, by `cascade: ["insert"]`, its relations.
unfoldable pub insert_registration : String → NewRegistration → Task (Unit {0})
unfolding insert_registration_row insert_relations
insert_registration assignment_id r = do
  id ← insert_registration_row assignment_id r.group_id
  insert_relations id assignment_id r.participant_ids

unfoldable pub insert_registrations : String → List NewRegistration → Task (Unit {0})
unfolding insert_registration return
insert_registrations assignment_id [] = return tt
insert_registrations assignment_id (r ∷ rs) = do
  done ← insert_registration assignment_id r
  insert_registrations assignment_id rs

-- `save` runs in one transaction.
unfoldable pub create_registrations : String → List GroupWithMembers → Task (Unit {0})
unfolding build_registrations insert_registrations roll_back return
create_registrations assignment_id groups =
    let registrations = build_registrations groups in
    if length registrations == 0
    then return tt
    else (λ db. roll_back db (insert_registrations assignment_id registrations db))

-- The `catch` throws on a unique violation and swallows every other error.
unfoldable pub catch_unique_violation : Outcome (Unit {0}) × Tables → Outcome (Unit {0}) × Tables
catch_unique_violation (Outcome.ok a, db) = (Outcome.ok a, db)
catch_unique_violation (Outcome.throws Exception.query_failed, db) =
    (Outcome.throws Exception.entity_already_exists, db)
catch_unique_violation (Outcome.throws e, db) = (Outcome.ok tt, db)

unfoldable pub create_group_registration : String → String → List ℕ → Task (Unit {0})
unfolding insert_registration roll_back catch_unique_violation
create_group_registration assignment_id group_id participant_ids = λ db. catch_unique_violation (
    roll_back db (
      insert_registration assignment_id
        (record { group_id = some group_id; participant_ids = participant_ids }) db))

-- With the group's registration where there is one, with a new one else.
unfoldable pub register_participant : Option Registration → String → String → ℕ → Task (Unit {0})
unfolding insert_registration insert_relation roll_back
register_participant none assignment_id group_id participant_id = λ db. roll_back db (
    insert_registration assignment_id
      (record { group_id = some group_id; participant_ids = participant_id ∷ [] }) db)
register_participant (some r) assignment_id group_id participant_id =
    insert_relation r.id assignment_id participant_id

unfoldable pub create_registration : String → String → ℕ → Task (Unit {0})
unfolding register_participant is_registration_of read_db
create_registration assignment_id group_id participant_id = do
  registration ←
      read_db (λ db. find_by (is_registration_of assignment_id group_id) db.registrations)
  register_participant registration assignment_id group_id participant_id

-- A registered group, with the participants of its registration.
pub record RegisteredGroup : Type 0 where
  pub group : GroupRow
  pub members : List ParticipantRow

-- The participants that a join with a relation finds.
unfoldable pub participants_of : Tables → ℕ → List ParticipantRow
participants_of db registration_id =
    filter_by
      (λ p.
        any (λ r. (r.participant_id === p.id) && (r.assignment_registration_id === registration_id))
          db.relations)
      db.course_tables.participants

unfoldable pub with_members : Tables → ℕ → Option GroupRow → Option RegisteredGroup
unfolding participants_of
with_members db registration_id none = none
with_members db registration_id (some g) =
    some (record { group = g; members = participants_of db registration_id })

-- `_buildGroupDto` of the registration that was joined with its group.
unfoldable pub build_group : Tables → Registration → Option RegisteredGroup
unfolding with_members
build_group db r = with_members db r.id (find_by (λ g. g.id === r.group_id) db.course_tables.groups)

unfoldable pub has_user : Tables → String → Registration → Bool
unfolding participants_of
has_user db user_id r = any (λ p. p.user_id === user_id) (participants_of db r.id)

unfoldable pub joined_group : Tables → Option Registration → Option RegisteredGroup
unfolding build_group
joined_group db none = none
joined_group db (some r) = build_group db r

-- The joins of a registration with its group and the user.
unfoldable pub is_joined : Tables → String → String → Registration → Bool
unfolding has_user
is_joined db assignment_id user_id r =
    (r.assignment_id === assignment_id)
    && (any (λ g. g.id === r.group_id) db.course_tables.groups && has_user db user_id r)

unfoldable pub try_get_registered_group_of_user : String → String → Task (Option RegisteredGroup)
unfolding joined_group is_joined read_db
try_get_registered_group_of_user assignment_id user_id =
    read_db (λ db. joined_group db (find_by (is_joined db assignment_id user_id) db.registrations))

unfoldable pub get_registered_group_of_user : String → String → Task RegisteredGroup
unfolding try_get_registered_group_of_user found
get_registered_group_of_user assignment_id user_id = do
  group ← try_get_registered_group_of_user assignment_id user_id
  found Exception.entity_not_found group

unfoldable pub get_registered_group_with_members : String → String → Task RegisteredGroup
unfolding joined_group is_registration_of read_db found
get_registered_group_with_members assignment_id group_id = do
  group ←
      read_db (λ db.
        joined_group db (find_by (is_registration_of assignment_id group_id) db.registrations))
  found Exception.entity_not_found group

unfoldable pub has_registrations : String → Task Bool
unfolding read_db
has_registrations assignment_id =
    read_db (λ db. any (λ r. r.assignment_id === assignment_id) db.registrations)
