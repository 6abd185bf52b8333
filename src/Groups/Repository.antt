-- ===== src/Groups/Repository.antt =====
-- GroupRepository of course/repositories/group.repository.ts, with the constraints that the
-- entities declare on their tables.
use stu_mgmt_service.Prelude.{
  String, string_eq, nat_eq, option_eq, Bool, true, false, not, ◌&&◌, ◌||◌, ◌===◌, ◌==◌, [], ◌∷◌,
  ◌++◌, Option, none, some, if◌then◌else◌, length, filter_by, any, find_by, update_by,
}
use stu_mgmt_service.Groups.Models.{Exception, Outcome, GroupUpdateDto, is_set}
use stu_mgmt_service.Groups.Store.{
  Relation, GroupRow, ParticipantRow, Action, ◌>>=◌, return, throw, check, read_db, write_db,
}

-- What a caller gives to create a group.
pub record GroupDto : Type 0 where
  pub name : String
  pub password : Option String
  pub is_closed : Option Bool

-- The uuid is the one that the database generates.
unfoldable pub create_entity_from_dto : String → String → GroupDto → GroupRow
unfolding is_set
create_entity_from_dto new_id course_id dto = record {
  id = new_id;
  course_id = course_id;
  name = dto.name;
  password = if is_set dto.password then dto.password else none;
  is_closed = elim dto.is_closed [ none ↦ false | some closed ↦ closed ];
}

-- `Unique_Name_CourseId`
unfoldable pub same_name : GroupRow → GroupRow → Bool
same_name g h = (g.name === h.name) && (g.course_id === h.course_id)

-- `save` of a new group: the key and the name in the course are unique.
unfoldable pub insert_group : GroupRow → Action GroupRow
unfolding same_name read_db write_db throw return
insert_group g = do
  groups ← read_db (λ db. db.groups)
  if any (λ h. h.id === g.id || same_name h g) groups
      then throw Exception.query_failed
      else (do done ← write_db (λ db. record db { groups = db.groups ++ g ∷ [] }); return g)

unfoldable pub create_group : String → String → GroupDto → Action GroupRow
unfolding create_entity_from_dto insert_group
create_group new_id course_id dto = insert_group (create_entity_from_dto new_id course_id dto)

-- `ParticipantRepository.getParticipant`
unfoldable pub get_participant : String → String → Action ParticipantRow
unfolding read_db check
get_participant course_id user_id = do
  participants ← read_db (λ db. db.participants)
  check (elim (find_by (λ p. (p.user_id === user_id) && (p.course_id === course_id)) participants) [
    | none ↦ Outcome.throws Exception.entity_not_found
    | some p ↦ Outcome.ok p
  ])

-- How saving a relation ends: the unique columns are checked (error 23505), and the foreign keys.
pub data Saved : Type 0 where
  saved : Saved
  unique_violation : Saved
  other_error : Saved

unfoldable pub clashes : Relation → Relation → Bool
clashes r s =
    r.participant_id === s.participant_id
    || ((r.user_id === s.user_id) && (r.group_id === s.group_id))

unfoldable pub save_relation : Relation → Action Saved
unfolding clashes read_db write_db return
save_relation r = do
  db ← read_db (λ db. db)
  if any (clashes r) db.relations
      then return Saved.unique_violation
      else (if any (λ g. g.id === r.group_id) db.groups
            && any (λ p. p.id === r.participant_id) db.participants
          then (do
            done ← write_db (λ db. record db { relations = db.relations ++ r ∷ [] })
            return Saved.saved)
          else return Saved.other_error)

-- Only a unique violation is thrown on: the `catch` swallows every other error.
unfoldable pub add_user_to_group : String → String → String → Action Bool
unfolding get_participant save_relation throw return
add_user_to_group course_id group_id user_id = do
  participant ← get_participant course_id user_id
  result ←
      save_relation
        (record { user_id = user_id; participant_id = participant.id; group_id = group_id })
  elim result [
    | Saved.unique_violation ↦ throw Exception.conflict
    | Saved.saved ↦ return true
    | Saved.other_error ↦ return true
  ]

unfoldable pub get_group_by_id : String → Action GroupRow
unfolding read_db check
get_group_by_id group_id = do
  groups ← read_db (λ db. db.groups)
  check (elim (find_by (λ g. g.id === group_id) groups) [
    | none ↦ Outcome.throws Exception.entity_not_found
    | some g ↦ Outcome.ok g
  ])

-- The row with the update's values.
unfoldable pub updated_group : GroupUpdateDto → GroupRow → GroupRow
unfolding is_set
updated_group update g = record g {
  password =
      if update.password === some ""
      then none
      else (if is_set update.password then update.password else g.password);
  name = elim update.name [ none ↦ g.name | some name ↦ name ];
  is_closed = elim update.is_closed [ none ↦ g.is_closed | some closed ↦ closed ];
}

-- `save` of a group that exists: its name stays unique in the course.
unfoldable pub save_group : GroupRow → Action GroupRow
unfolding same_name read_db write_db throw return
save_group g = do
  groups ← read_db (λ db. db.groups)
  if any (λ h. not (h.id === g.id) && same_name h g) groups
      then throw Exception.query_failed
      else (do
        done ← write_db (λ db. record db { groups = update_by (λ h. h.id === g.id) g db.groups })
        return g)

unfoldable pub update_group : String → GroupUpdateDto → Action GroupRow
unfolding get_group_by_id updated_group save_group
update_group group_id update = do
  group ← get_group_by_id group_id
  save_group (updated_group update group)

unfoldable pub is_relation : String → String → Relation → Bool
is_relation group_id user_id r = (r.group_id === group_id) && (r.user_id === user_id)

-- `delete({ groupId, userId })`, `affected == 1`
unfoldable pub remove_user : String → String → Action Bool
unfolding is_relation read_db write_db return
remove_user group_id user_id = do
  relations ← read_db (λ db. db.relations)
  done ← write_db (λ db. record db {
    relations = filter_by (λ r. not (is_relation group_id user_id r)) db.relations;
  })
  return (length (filter_by (is_relation group_id user_id) relations) == 1)

-- The relations of a group are deleted with it (`onDelete: "CASCADE"`).
unfoldable pub delete_group : String → Action Bool
unfolding read_db write_db return
delete_group group_id = do
  groups ← read_db (λ db. db.groups)
  done ← write_db (λ db. record db {
    groups = filter_by (λ g. not (g.id === group_id)) db.groups;
    relations = filter_by (λ r. not (r.group_id === group_id)) db.relations;
  })
  return (length (filter_by (λ g. g.id === group_id) groups) == 1)
