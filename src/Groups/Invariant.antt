-- ===== src/Groups/Invariant.antt =====
-- The well-formedness of the tables, which every operation keeps, whether it returns or throws.
pub mod Rows
pub mod Calls
use stu_mgmt_service.Prelude.{
  ℕ, String, ◌≡◌, Bool, true, false, if◌then◌else◌, List, map, ◌∈◌, Distinct, All, Option, none,
  some,
}
use stu_mgmt_service.Groups.Models.{Exception, Outcome}
use stu_mgmt_service.Groups.Store.{
  Relation, GroupRow, Event, Database, Action, continue, ◌>>=◌, return, throw, check, read_db,
  write_db, publish,
}
use stu_mgmt_service.Groups.Preserve.{
  Preserves, throw-Preserves, return-Preserves, bind-Preserves, if-Preserves,
}
use stu_mgmt_service.Groups.Service.{when}

abbrev pub group_ids : List GroupRow → List String
group_ids = map (λ g. g.id)

-- The course and the name of a group.
abbrev pub name_key : GroupRow → String × String
name_key g = (g.course_id, g.name)

abbrev pub group_names : List GroupRow → List (String × String)
group_names = map name_key

abbrev pub member_ids : List Relation → List ℕ
member_ids = map (λ r. r.participant_id)

-- A participant is in at most one group, relations belong to groups that exist, and groups have
-- different ids and, in one course, different names.
pub record IsWellFormed (db : Database) : Type 0 where
  pub one_group : Distinct (member_ids db.relations)
  pub groups_exist : All (λ r. r.group_id ∈ group_ids db.groups) db.relations
  pub ids_apart : Distinct (group_ids db.groups)
  pub names_apart : Distinct (group_names db.groups)

-- The call ends, in either way, with tables that are well formed if they were before.
abbrev pub Keeps : {A : Type 0} → Action A → Type 0
Keeps = Preserves IsWellFormed

pub throw-Keeps : (A : Type 0) (e : Exception) → Keeps {A = A} (throw e)
throw-Keeps = throw-Preserves IsWellFormed

module _ {A : Type 0} where
  pub return-Keeps : (a : A) → Keeps (return a)
  return-Keeps = return-Preserves IsWellFormed

  pub bind-Keeps :
      {B : Type 0} (m : Action A) (f : A → Action B)
      → Keeps m
      → ((a : A) → Keeps (f a))
      → Keeps (m >>= f)
  bind-Keeps = bind-Preserves IsWellFormed

  pub if-Keeps : (b : Bool) (m n : Action A) → Keeps m → Keeps n → Keeps (if b then m else n)
  if-Keeps = if-Preserves IsWellFormed

pub publish-Keeps : (e : Event) → Keeps (publish e)
unfolding publish write_db
publish-Keeps e db w = record {
  one_group = w.one_group;
  groups_exist = w.groups_exist;
  ids_apart = w.ids_apart;
  names_apart = w.names_apart;
}

pub when-Keeps : (b : Bool) (m : Action (Unit {0})) → Keeps m → Keeps (when b m)
unfolding when
when-Keeps b m k = if-Keeps b m (return tt) k (return-Keeps tt)
