-- ===== src/Groups/Bulk/Names.antt =====
-- What the creation of many groups writes.
use stu_mgmt_service.Prelude.{
  ◌⊎◌, subst, ℕ, suc, ◌≤◌, ◌≡◌, refl, sym, inl, inr, String, string_eq, true, List, [], ◌∷◌, ◌++◌,
  map, arith, Bool-cases, length, to_set, delete, ◌==◌, ==_iff, ltb, any, Distinct, length-delete,
  mem-to_set, to_set-Distinct, ◌===◌, ◌||◌,
}
use mathlib.Core.List.{append_assoc, append-nil}
use stu_mgmt_service.Groups.Models.{Exception, Outcome}
use stu_mgmt_service.Groups.Store.{
  roll_back, GroupRow, Database, continue, return, throw, check, read_db, write_db,
}
use stu_mgmt_service.Groups.Repository.{
  create_entity_from_dto, same_name, insert_group, create_group,
}
use stu_mgmt_service.Groups.Bulk.{
  GroupCreateBulkDto, named_group, create_groups_from_name_list, insert_each, save_groups,
  create_multiple_groups,
}

length-delete_le : (x : String) (xs : List String) → length (delete x xs) ≤ length xs
unfolding delete
length-delete_le x [] = omega arith
length-delete_le x (y ∷ ys) = ground (arith, length-delete_le x ys)

length-to_set_le : (xs : List String) → length (to_set xs) ≤ length xs
unfolding to_set
length-to_set_le [] = omega arith
length-to_set_le (x ∷ xs) = omega (arith, length-delete_le x (to_set xs), length-to_set_le xs)

-- A list as long as its set has no value twice.
same_length-Distinct : (xs : List String) → length (to_set xs) ≡ length xs → Distinct xs
unfolding to_set
same_length-Distinct [] e = tt
same_length-Distinct (x ∷ xs) e =
    let shorter = length-delete_le x (to_set xs) in
    let short = length-to_set_le xs in
    (
      (λ i.
          let one = length-delete x (to_set xs) (to_set-Distinct xs) (mem-to_set x xs i) in
          absurd (omega (arith, one, short, e))),
      same_length-Distinct xs (omega (arith, e, shorter, short)),
    )

-- How the inserts end: with an exception, or with a row for each of the groups.
pub data IsInserted (names : List String) (db : Database)
    : Outcome (List GroupRow) × Database → Type 0 where
  failed : (e : Exception) (after : Database) → IsInserted names db (Outcome.throws e, after)
  inserted :
      (rows : List GroupRow)
      → map (λ g. g.name) rows ≡ names
      → IsInserted names db (Outcome.ok rows, record db { groups = db.groups ++ rows })

-- One insert: an exception, or one more row.
create_one :
    (new_id course_id name : String) (db : Database)
    → ((e : Exception) × (create_group new_id course_id (named_group name) db
          ≡ (Outcome.throws e, db)))
      ⊎ ((row : GroupRow) × (create_group new_id course_id (named_group name) db
            ≡ (Outcome.ok row, record db { groups = db.groups ++ row ∷ [] }))
          × (row.name ≡ name))
unfolding named_group create_group insert_group create_entity_from_dto read_db write_db return throw
    continue
create_one new_id course_id name db =
    let row = create_entity_from_dto new_id course_id (named_group name) in
    elim (Bool-cases (any (λ h. h.id === row.id || same_name h row) db.groups)) [
      | inl e ↦ inl (Exception.query_failed, rw e)
      | inr e ↦ inr (row, rw e, refl)
    ]

insert_each-IsInserted :
    (new_ids : ℕ → String) (i : ℕ) (course_id : String) (names : List String) (db : Database)
    → IsInserted names db (insert_each new_ids i course_id (map named_group names) db)
unfolding insert_each return continue
insert_each-IsInserted new_ids i course_id [] db =
    subst (λ gs. IsInserted [] db (Outcome.ok [], record db { groups = gs })) (append-nil db.groups)
      (IsInserted.inserted [] refl)
insert_each-IsInserted new_ids i course_id (name ∷ names) db =
    elim (create_one (new_ids i) course_id name db) [
      | inl (e, p) ↦ rw p (IsInserted.failed e db)
      | inr (row, p, n) ↦ rw p (
          extend row n _ (
            insert_each-IsInserted new_ids (suc i) course_id names
              (record db { groups = db.groups ++ row ∷ [] })))
    ]
  where
    extend :
        (row : GroupRow)
        → row.name ≡ name
        → (r : Outcome (List GroupRow) × Database)
        → IsInserted names (record db { groups = db.groups ++ row ∷ [] }) r
        → IsInserted (name ∷ names) db (continue (λ groups. return (row ∷ groups)) r)
    extend row n _ (IsInserted.failed e after) = IsInserted.failed e after
    extend row n _ (IsInserted.inserted rows same) =
        subst
          (λ gs. IsInserted (name ∷ names) db (Outcome.ok (row ∷ rows), record db { groups = gs }))
          (sym (append_assoc db.groups (row ∷ []) rows))
          (IsInserted.inserted (row ∷ rows) (rw (n, same)))

-- What creating groups by names ends with.
pub data IsBulk (names : List String) (db : Database)
    : Outcome (List GroupRow) × Database → Type 0 where
  refused : (e : Exception) → IsBulk names db (Outcome.throws e, db)
  created :
      (rows : List GroupRow)
      → Distinct names
      → map (λ g. g.name) rows ≡ names
      → IsBulk names db (Outcome.ok rows, record db { groups = db.groups ++ rows })

saved-IsBulk :
    (names : List String) (db : Database) (r : Outcome (List GroupRow) × Database)
    → Distinct names
    → IsInserted names db r
    → IsBulk names db (roll_back db r)
unfolding roll_back
saved-IsBulk names db _ d (IsInserted.failed e after) = IsBulk.refused e
saved-IsBulk names db _ d (IsInserted.inserted rows same) = IsBulk.created rows d same

-- With a list of names that is not empty, either an exception is thrown and the tables stay as
-- they were, or the names are all different and one group of each name is added, in their order.
pub create_multiple_groups-IsBulk :
    (new_ids : ℕ → String) (course_id : String) (bulk : GroupCreateBulkDto) (db : Database)
    → 1 ≤ length bulk.names
    → IsBulk bulk.names db (create_multiple_groups new_ids course_id bulk db)
unfolding create_multiple_groups create_groups_from_name_list save_groups check continue
create_multiple_groups-IsBulk new_ids course_id bulk db some_names =
    let names = bulk.names in
    let given : ltb 0 (length names) ≡ true = ground arith in
    elim (Bool-cases (length (to_set names) == length names)) [
      | inl e ↦
          rw (given, e)
            (saved-IsBulk names db _ (same_length-Distinct names ((==_iff _ _).0 e))
              (insert_each-IsInserted new_ids 0 course_id names db))
      | inr e ↦ rw (given, e) (IsBulk.refused Exception.bad_request)
    ]
