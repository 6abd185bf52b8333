-- ===== src/Assignments/Registering.antt =====
-- AssignmentRegistrationService of course/services/assignment-registration.service.ts.
pub mod Course
pub mod First
pub mod User
use Prim.Native.Nat.{Ordering}
use stu_mgmt_service.Prelude.{
  ℕ, String, string_eq, ◌===◌, Bool, true, false, List, [], ◌∷◌, map, Option, none, some,
  if◌then◌else◌, filter_by, sort, map_get, map_set,
}
use stu_mgmt_service.Merge.Groups.{Member, SimpleGroup}
use stu_mgmt_service.Groups.Models.{Exception, Outcome, Participant, GroupSettings}
use stu_mgmt_service.Groups.Store.{
  GroupRow, ParticipantRow, Database, Action, continue, ◌>>=◌, return, throw, check, read_db,
}
use stu_mgmt_service.Groups.Repository.{get_group_by_id}
use stu_mgmt_service.Groups.Service.{get_group_settings_of_course}
use stu_mgmt_service.Assignments.Store.{AssignmentEvent, Task, in_course, publish_event}
use stu_mgmt_service.Assignments.Registrations.{
  GroupMember, GroupWithMembers, RegisteredGroup, create_registrations, create_group_registration,
  create_registration, try_get_registered_group_of_user,
}
use stu_mgmt_service.Assignments.Removal.{
  remove_registration_for_user, remove_registration_for_group, remove_registrations,
}

-- The order in which the database sorts texts, and the `GroupMergeStrategy` that is injected.
pub record Services : Type 0 where
  pub collate : String → String → Ordering
  pub merge : String → ℕ → ℕ → List SimpleGroup → Outcome (List SimpleGroup)

-- The participants of the relations of a group.
unfoldable pub members_of_group : Database → String → List GroupMember
members_of_group db group_id =
    map (λ r. record { participant_id = r.participant_id; user_id = r.user_id })
      (filter_by (λ r. r.group_id === group_id) db.relations)

unfoldable pub group_with_members : Database → GroupRow → GroupWithMembers
unfolding members_of_group
group_with_members db g = record { id = some g.id; members = members_of_group db g.id }

-- A group as the strategy takes it: no member has a group id.
unfoldable pub simple_group : GroupWithMembers → SimpleGroup
simple_group g = record {
  id = g.id;
  members = map (λ m. record { user_id = m.user_id; group_id = none }) g.members;
}

-- `participantsMap`
unfoldable pub participants_by_user :
    List ParticipantRow → List (String × ParticipantRow) → List (String × ParticipantRow)
participants_by_user [] m = m
participants_by_user (p ∷ ps) m = participants_by_user ps (map_set p.user_id p m)

-- A user that the map does not know has no `id` to be read.
unfoldable pub read_participant : String → Option ParticipantRow → Outcome GroupMember
read_participant user_id none = Outcome.throws Exception.type_error
read_participant user_id (some p) = Outcome.ok (record { participant_id = p.id; user_id = user_id })

unfoldable pub cons_outcome : {A : Type 0} → Outcome A → Outcome (List A) → Outcome (List A)
cons_outcome (Outcome.ok a) (Outcome.ok rest) = Outcome.ok (a ∷ rest)
cons_outcome (Outcome.ok a) (Outcome.throws e) = Outcome.throws e
cons_outcome (Outcome.throws e) r = Outcome.throws e

unfoldable pub read_members :
    List (String × ParticipantRow) → List Member → Outcome (List GroupMember)
unfolding read_participant cons_outcome
read_members participants [] = Outcome.ok []
read_members participants (m ∷ ms) =
    cons_outcome (read_participant m.user_id (map_get m.user_id participants))
      (read_members participants ms)

unfoldable pub named_members : SimpleGroup → Outcome (List GroupMember) → Outcome GroupWithMembers
named_members g (Outcome.ok members) = Outcome.ok (record { id = g.id; members = members })
named_members g (Outcome.throws e) = Outcome.throws e

unfoldable pub read_groups :
    List (String × ParticipantRow) → List SimpleGroup → Outcome (List GroupWithMembers)
unfolding read_members named_members cons_outcome
read_groups participants [] = Outcome.ok []
read_groups participants (g ∷ gs) =
    cons_outcome (named_members g (read_members participants g.members))
      (read_groups participants gs)

module _ (services : Services) where
  -- `GroupRepository.getGroupsOfCourse`, with no filter
  unfoldable pub get_groups_of_course : String → Action (List GroupWithMembers)
  unfolding group_with_members read_db
  get_groups_of_course course_id = read_db (λ db. map (group_with_members db) (
      sort (λ g h. services.collate g.name h.name)
        (filter_by (λ g. g.course_id === course_id) db.groups)))

  unfoldable pub merge_groups_of_course :
      String → GroupSettings → List GroupWithMembers → Action (List GroupWithMembers)
  unfolding simple_group participants_by_user read_groups read_db check
  merge_groups_of_course course_id settings groups = do
    merged ←
        check
          (services.merge course_id settings.size_min settings.size_max (map simple_group groups))
    participants ← read_db (λ db. filter_by (λ p. p.course_id === course_id) db.participants)
    check (read_groups (participants_by_user participants []) merged)

  -- The groups that are registered: those of the course, or what the strategy makes of them.
  unfoldable pub groups_to_register : String → Action (List GroupWithMembers)
  unfolding get_groups_of_course merge_groups_of_course return
  groups_to_register course_id = do
    groups ← get_groups_of_course course_id
    settings ← get_group_settings_of_course course_id
    if settings.merge_groups_on_assignment_started
        then merge_groups_of_course course_id settings groups
        else return groups

  unfoldable pub register_groups_for_assignment : String → String → Task (Unit {0})
  unfolding groups_to_register in_course publish_event
  register_groups_for_assignment course_id assignment_id = do
    groups ← in_course (groups_to_register course_id)
    done ← create_registrations assignment_id groups
    publish_event (AssignmentEvent.registrations_created course_id assignment_id)

-- `getGroupWithUsers`, of which the participants' ids are used.
unfoldable pub get_group_with_users : String → Action (List ℕ)
unfolding members_of_group read_db
get_group_with_users group_id = do
  group ← get_group_by_id group_id
  read_db (λ db. map (λ m. m.participant_id) (members_of_group db group.id))

unfoldable pub register_group : String → String → String → Task (Unit {0})
unfolding get_group_with_users in_course publish_event
register_group course_id assignment_id group_id = do
  members ← in_course (get_group_with_users group_id)
  done ← create_group_registration assignment_id group_id members
  publish_event (AssignmentEvent.group_registered course_id assignment_id group_id)

-- `if (isAlreadyRegistered) throw`
unfoldable pub check_not_registered : String → Option RegisteredGroup → Task (Unit {0})
unfolding throw return
check_not_registered user_id none = return tt
check_not_registered user_id (some g) = throw (Exception.already_in_group user_id)

unfoldable pub register_user_to_group : String → String → String → Participant → Task (Unit {0})
unfolding check_not_registered publish_event
register_user_to_group course_id assignment_id group_id selected = do
  registered ← try_get_registered_group_of_user assignment_id selected.user_id
  free ← check_not_registered selected.user_id registered
  done ← create_registration assignment_id group_id selected.id
  publish_event (AssignmentEvent.user_registered course_id assignment_id selected.user_id group_id)

unfoldable pub publish_if : Bool → AssignmentEvent → Task (Unit {0})
unfolding publish_event return
publish_if b event = if b then publish_event event else return tt

unfoldable pub unregister_user : String → String → String → Task (Unit {0})
unfolding publish_if
unregister_user course_id assignment_id user_id = do
  removed ← remove_registration_for_user assignment_id user_id
  publish_if removed (AssignmentEvent.user_unregistered course_id assignment_id user_id)

unfoldable pub unregister_group : String → String → String → Task (Unit {0})
unfolding publish_if
unregister_group course_id assignment_id group_id = do
  removed ← remove_registration_for_group assignment_id group_id
  publish_if removed (AssignmentEvent.group_unregistered course_id assignment_id group_id)

unfoldable pub remove_all_registrations : String → String → Task (Unit {0})
unfolding publish_event
remove_all_registrations course_id assignment_id = do
  done ← remove_registrations assignment_id
  publish_event (AssignmentEvent.registrations_removed course_id assignment_id)
