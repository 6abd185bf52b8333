-- ===== src/Groups/Invariant/Calls.antt =====
-- Sequences of calls of GroupService, in any order and by anybody, keep the tables well formed.
use stu_mgmt_service.Prelude.{
  ℕ, suc, String, string_eq, Bool, Option, none, some, List, [], ◌∷◌, ◌===◌, if◌then◌else◌,
}
use stu_mgmt_service.Groups.Models.{
  Outcome, Exception, Course, GroupSettings, Group, Participant, GroupUpdateDto, is_student,
}
use stu_mgmt_service.Groups.Store.{
  roll_back, GroupRow, Event, Database, continue, return, throw, check, read_db, publish,
}
use stu_mgmt_service.Groups.Repository.{GroupDto}
use stu_mgmt_service.Groups.Bulk.{
  GroupCreateBulkDto, insert_each, save_groups, create_multiple_groups,
}
use stu_mgmt_service.Groups.Names.{get_available_group_name_for_schema}
use stu_mgmt_service.Groups.Service.{
  get_group_settings_of_course, add_user_to_group_force, check_group, add_user_to_group,
  remove_user, delete_group, update_group, determine_name, create_group_as_student, create_group,
}
use stu_mgmt_service.Groups.Invariant.{
  IsWellFormed, Keeps, return-Keeps, throw-Keeps, bind-Keeps, if-Keeps, publish-Keeps, when-Keeps,
}
use stu_mgmt_service.Groups.Invariant.Rows.{
  create_group-Keeps, add_user_to_group-Keeps, remove_user-Keeps, delete_group-Keeps,
  update_group-Keeps,
}

-- A call, with what the guards hand to it and the uuid that the database generates.
pub data Call : Type 0 where
  creation : (new_id : String) → Course → Participant → GroupDto → Call
  joining : Course → Group → Participant → Participant → Option String → Call
  forced_joining : (course_id group_id user_id : String) → Call
  removal : Course → Group → Participant → Participant → Option String → Call
  deletion : Course → Group → Participant → Call
  update : Course → Group → GroupUpdateDto → Call
  bulk_creation : (new_ids : ℕ → String) (course_id : String) → GroupCreateBulkDto → Call

settings-Keeps : (course_id : String) → Keeps (get_group_settings_of_course course_id)
unfolding get_group_settings_of_course read_db check continue
settings-Keeps course_id db w = w

-- What follows a change of the relations: an event, or an exception.
published-Keeps :
    (b : Bool) (event : Event) → Keeps (if b then publish event else throw Exception.bad_request)
published-Keeps b event =
    if-Keeps b (publish event) (throw Exception.bad_request) (publish-Keeps event)
      (throw-Keeps (Unit {0}) Exception.bad_request)

force-Keeps :
    (course_id group_id user_id : String)
    → Keeps (add_user_to_group_force course_id group_id user_id)
unfolding add_user_to_group_force
force-Keeps course_id group_id user_id =
    bind-Keeps _ _ (add_user_to_group-Keeps course_id group_id user_id) (λ b. published-Keeps b _)

check_group-Keeps :
    (group : Group) (settings : GroupSettings) (password : Option String)
    → Keeps (check_group group settings password)
unfolding check_group check
check_group-Keeps group settings password =
    bind-Keeps _ _ (λ e w. w) (λ a. bind-Keeps _ _ (λ e w. w) (λ b. λ e w. w))

joining-Keeps :
    (course : Course) (group : Group) (participant selected : Participant)
    (password : Option String)
    → Keeps (add_user_to_group course group participant selected password)
unfolding add_user_to_group check
joining-Keeps course group participant selected password =
    bind-Keeps _ _ (λ e w. w)
      (λ a. bind-Keeps _ _ (settings-Keeps course.id) (λ settings.
        bind-Keeps _ _ (λ e w. w)
          (λ b.
            bind-Keeps _ _
              (when-Keeps (is_student participant) _ (check_group-Keeps group settings password))
              (λ c.
                bind-Keeps _ _ (add_user_to_group-Keeps course.id group.id selected.user_id)
                  (λ d. published-Keeps d _)))))

removal-Keeps :
    (course : Course) (group : Group) (participant selected : Participant) (reason : Option String)
    → Keeps (remove_user course group participant selected reason)
unfolding remove_user check
removal-Keeps course group participant selected reason =
    bind-Keeps _ _ (λ e w. w)
      (λ a.
        bind-Keeps _ _
          (when-Keeps (is_student participant) _ (
            bind-Keeps _ _ (λ e w. w)
              (λ b.
                bind-Keeps _ _ (λ e w. w)
                  (λ c. bind-Keeps _ _ (settings-Keeps course.id) (λ d. λ e w. w)))))
          (λ e.
            bind-Keeps _ _ (remove_user-Keeps group.id selected.user_id)
              (λ f. published-Keeps f _)))

deletion-Keeps :
    (course : Course) (group : Group) (participant : Participant)
    → Keeps (delete_group course group participant)
unfolding delete_group check
deletion-Keeps course group participant =
    bind-Keeps _ _ (λ e w. w)
      (λ a.
        bind-Keeps _ _
          (when-Keeps (is_student participant) _
            (bind-Keeps _ _ (settings-Keeps course.id) (λ b. λ e w. w)))
          (λ c. delete_group-Keeps group.id))

updating-Keeps :
    (course : Course) (group : Group) (dto : GroupUpdateDto) → Keeps (update_group course group dto)
unfolding update_group check
updating-Keeps course group dto = bind-Keeps _ _ (settings-Keeps course.id) (λ a.
    bind-Keeps _ _ (λ e w. w)
      (λ b.
        bind-Keeps _ _ (when-Keeps _ _ (bind-Keeps _ _ (λ e w. w) (λ c. λ e w. w)))
          (λ d. bind-Keeps _ _ (when-Keeps _ _ (λ e w. w)) (λ e. update_group-Keeps group.id dto))))

insert_each-Keeps :
    (new_ids : ℕ → String) (i : ℕ) (course_id : String) (dtos : List GroupDto)
    → Keeps (insert_each new_ids i course_id dtos)
unfolding insert_each
insert_each-Keeps new_ids i course_id [] = return-Keeps {A = List GroupRow} []
insert_each-Keeps new_ids i course_id (dto ∷ dtos) =
    bind-Keeps _ _ (create_group-Keeps (new_ids i) course_id dto) (λ g.
      bind-Keeps _ _ (insert_each-Keeps new_ids (suc i) course_id dtos)
        (λ gs. return-Keeps (g ∷ gs)))

bulk-Keeps :
    (new_ids : ℕ → String) (course_id : String) (bulk : GroupCreateBulkDto)
    → Keeps (create_multiple_groups new_ids course_id bulk)
unfolding create_multiple_groups save_groups check roll_back
bulk-Keeps new_ids course_id bulk =
    bind-Keeps _ _ (λ e w. w)
      (λ dtos db w.
        taken_back db (insert_each new_ids 0 course_id dtos db) w
          (insert_each-Keeps new_ids 0 course_id dtos db w))
  where
    taken_back :
        (db : Database) (r : Outcome (List GroupRow) × Database)
        → IsWellFormed db
        → IsWellFormed r.1
        → IsWellFormed (roll_back db r).1
    taken_back db (Outcome.ok a, after) w v = v
    taken_back db (Outcome.throws e, after) w v = w

module _ (ilike : String → String → Bool) where
  name-Keeps :
      (course_id schema : String)
      → Keeps (get_available_group_name_for_schema ilike course_id schema)
  unfolding get_available_group_name_for_schema read_db check continue
  name-Keeps course_id schema db w = w

  determine_name-Keeps :
      (course : Course) (settings : GroupSettings) (dto : GroupDto)
      → Keeps (determine_name ilike course settings dto)
  unfolding determine_name
  determine_name-Keeps course settings dto = bind-Keeps _ _ (chosen settings.name_schema) (λ name.
      if-Keeps (name === "") _ _ (throw-Keeps String Exception.plain_error) (return-Keeps name))
    where
      chosen :
          (o : Option String)
          → Keeps (elim o [
            | none ↦ return dto.name
            | some schema ↦
                if schema === ""
                then return dto.name
                else get_available_group_name_for_schema ilike course.id schema
          ])
      chosen none = return-Keeps dto.name
      chosen (some schema) =
          if-Keeps (schema === "") _ _ (return-Keeps dto.name) (name-Keeps course.id schema)

  creation-Keeps :
      (new_id : String) (course : Course) (participant : Participant) (dto : GroupDto)
      → Keeps (create_group ilike new_id course participant dto)
  unfolding create_group create_group_as_student check
  creation-Keeps new_id course participant dto =
      bind-Keeps _ _ (settings-Keeps course.id) (λ settings.
        bind-Keeps _ _ (λ e w. w)
          (λ a.
            bind-Keeps _ _ (λ e w. w)
              (λ b. bind-Keeps _ _ (when-Keeps _ _ (λ e w. w)) (λ c.
                if-Keeps (is_student participant) _ _
                  (bind-Keeps _ _ (determine_name-Keeps course settings dto) (λ name.
                    bind-Keeps _ _ (create_group-Keeps new_id course.id _) (λ group.
                      bind-Keeps _ _ (force-Keeps course.id group.id participant.user_id)
                        (λ d. return-Keeps group))))
                  (create_group-Keeps new_id course.id dto)))))

  -- The tables after a call, whether it returned or threw.
  unfoldable pub after : Call → Database → Database
  after (Call.creation new_id course participant dto) db =
      (create_group ilike new_id course participant dto db).1
  after (Call.joining course group participant selected password) db =
      (add_user_to_group course group participant selected password db).1
  after (Call.forced_joining course_id group_id user_id) db =
      (add_user_to_group_force course_id group_id user_id db).1
  after (Call.removal course group participant selected reason) db =
      (remove_user course group participant selected reason db).1
  after (Call.deletion course group participant) db = (delete_group course group participant db).1
  after (Call.update course group dto) db = (update_group course group dto db).1
  after (Call.bulk_creation new_ids course_id bulk) db =
      (create_multiple_groups new_ids course_id bulk db).1

  -- One call after the other, the first of the list first.
  unfoldable pub after_all : List Call → Database → Database
  unfolding after
  after_all [] db = db
  after_all (call ∷ calls) db = after_all calls (after call db)

  after-IsWellFormed :
      (call : Call) (db : Database) → IsWellFormed db → IsWellFormed (after call db)
  unfolding after
  after-IsWellFormed (Call.creation new_id course participant dto) =
      creation-Keeps new_id course participant dto
  after-IsWellFormed (Call.joining course group participant selected password) =
      joining-Keeps course group participant selected password
  after-IsWellFormed (Call.forced_joining course_id group_id user_id) =
      force-Keeps course_id group_id user_id
  after-IsWellFormed (Call.removal course group participant selected reason) =
      removal-Keeps course group participant selected reason
  after-IsWellFormed (Call.deletion course group participant) =
      deletion-Keeps course group participant
  after-IsWellFormed (Call.update course group dto) = updating-Keeps course group dto
  after-IsWellFormed (Call.bulk_creation new_ids course_id bulk) = bulk-Keeps new_ids course_id bulk

  -- Whatever is called in whatever order, and whether the calls return or throw: in tables that
  -- were well formed before, a participant has at most one group, members belong to groups that
  -- exist, group ids are different, and so are the names of groups in one course.
  pub after_all-IsWellFormed :
      (calls : List Call) (db : Database) → IsWellFormed db → IsWellFormed (after_all calls db)
  unfolding after_all
  after_all-IsWellFormed [] db w = w
  after_all-IsWellFormed (call ∷ calls) db w =
      after_all-IsWellFormed calls (after call db) (after-IsWellFormed call db w)
