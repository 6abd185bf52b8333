-- ===== src/Groups/Names.antt =====
-- The names of groups: `tryFindAvailableName` and `getAvailableGroupNameForSchema` of
-- group.repository.ts. `ILIKE` is the database's, a parameter.
pub mod Free
use stu_mgmt_service.Prelude.{
  ℕ, zero, suc, ◌+◌, ◌/◌, ◌%◌, String, string_eq, Bool, ◌&&◌, ◌===◌, ltb, List, [], ◌∷◌, Option,
  none, some, if◌then◌else◌, filter_by, any, get_elem?,
}
use Prim.Native.String.{◌++◌}
use stu_mgmt_service.Groups.Models.{Exception, Outcome}
use stu_mgmt_service.Groups.Store.{GroupRow, Database, Action, continue, ◌>>=◌, check, read_db}

abbrev digits : List String
digits = "0" ∷ "1" ∷ "2" ∷ "3" ∷ "4" ∷ "5" ∷ "6" ∷ "7" ∷ "8" ∷ "9" ∷ []

unfoldable pub digit : ℕ → String
digit n = elim (get_elem? digits n) [ none ↦ "" | some d ↦ d ]

-- `i.toString()`, for a number of at most as many digits as the fuel.
unfoldable pub to_string : ℕ → ℕ → String
unfolding digit
to_string zero n = ""
to_string (suc fuel) n =
    let front = to_string fuel (n / 10) in if ltb n 10 then digit n else front ++ digit (n % 10)

unfoldable pub suggestion : String → ℕ → String
unfolding to_string
suggestion schema i =
    schema
    ++ (if ltb i 10
        then "00" ++ to_string 4 i
        else (if ltb i 100 then "0" ++ to_string 4 i else to_string 4 i))

-- The loop, `count` rounds from `i` on.
unfoldable pub find_available_name : List GroupRow → String → (count i : ℕ) → Outcome String
unfolding suggestion
find_available_name groups schema zero i = Outcome.throws Exception.plain_error
find_available_name groups schema (suc count) i =
    let rest = find_available_name groups schema count (suc i) in
    if any (λ g. g.name === suggestion schema i) groups
    then rest
    else Outcome.ok (suggestion schema i)

unfoldable pub try_find_available_name : List GroupRow → String → Outcome String
unfolding find_available_name
try_find_available_name groups schema = find_available_name groups schema 9999 1

module _ (ilike : String → String → Bool) where
  unfoldable pub get_available_group_name_for_schema : String → String → Action String
  unfolding try_find_available_name read_db check
  get_available_group_name_for_schema course_id schema = do
    groups ← read_db (λ db. db.groups)
    check (
        try_find_available_name
          (filter_by (λ g. (g.course_id === course_id) && ilike g.name schema) groups) schema)
