-- ===== src/Groups/Names/Free.antt =====
-- The name that is found is free.
use stu_mgmt_service.Prelude.{
  ℕ, zero, suc, ◌+◌, ◌<◌, ◌≡◌, String, string_eq, Bool, true, false, ◌&&◌, ◌===◌, ===_eq, ===_true,
  ap, ===_ne, sym, subst, List, [], ◌∷◌, map, arith, ◌∈◌, inl, inr, Bool-cases, filter_by, any,
}
use stu_mgmt_service.Groups.Models.{Exception, Outcome}
use stu_mgmt_service.Groups.Store.{GroupRow, Database, continue, read_db, check}
use stu_mgmt_service.Groups.Names.{
  suggestion, find_available_name, try_find_available_name, get_available_group_name_for_schema,
}

abbrev pub names_of : List GroupRow → List String
names_of = map (λ g. g.name)

any-name :
    (name : String) (gs : List GroupRow) → any (λ g. g.name === name) gs ≡ true → name ∈ names_of gs
any-name name [] h = cc
any-name name (g ∷ gs) h = elim (Bool-cases (g.name === name)) [
  | inl e ↦ inl (sym (===_eq g.name name e))
  | inr e ↦ inr (any-name name gs (rw e at h))
]

any_no_name :
    (name : String) (gs : List GroupRow)
    → any (λ g. g.name === name) gs ≡ false
    → ¬ (name ∈ names_of gs)
any_no_name name [] h i = i
any_no_name name (g ∷ gs) h (inl e) = ===_ne g.name name (ground arith) (sym e)
any_no_name name (g ∷ gs) h (inr i) = any_no_name name gs (ground arith) i

-- What a search through `count` numbers from `i` on ends with: the first free name, or an error.
pub data IsFirstFree (groups : List GroupRow) (schema : String) (count i : ℕ)
    : Outcome String → Type 0 where
  found :
      (k : ℕ)
      → k < count
      → ¬ (suggestion schema (i + k) ∈ names_of groups)
      → ((j : ℕ) → j < k → suggestion schema (i + j) ∈ names_of groups)
      → IsFirstFree groups schema count i (Outcome.ok (suggestion schema (i + k)))
  all_taken :
      ((j : ℕ) → j < count → suggestion schema (i + j) ∈ names_of groups)
      → IsFirstFree groups schema count i (Outcome.throws Exception.plain_error)

module _ (groups : List GroupRow) (schema : String) where
  one_more :
      (count i : ℕ)
      → suggestion schema i ∈ names_of groups
      → (n : ℕ) → ((j : ℕ) → j < n → suggestion schema (suc i + j) ∈ names_of groups)
      → (j : ℕ) → j < suc n
      → suggestion schema (i + j) ∈ names_of groups
  one_more count i taken n rest zero h = let e : i + 0 ≡ i = omega arith in rw e taken
  one_more count i taken n rest (suc j) h =
      let e : i + suc j ≡ suc i + j = omega arith in rw e (rest j (omega arith))

  later :
      (count i : ℕ) (o : Outcome String)
      → suggestion schema i ∈ names_of groups
      → IsFirstFree groups schema count (suc i) o
      → IsFirstFree groups schema (suc count) i o
  later count i _ taken (IsFirstFree.found k h free before) =
      let e : suc i + k ≡ i + suc k = omega arith in
      subst (λ n. IsFirstFree groups schema (suc count) i (Outcome.ok (suggestion schema n)))
        (sym e)
        (IsFirstFree.found (suc k) (omega arith) (rw e at free) (one_more count i taken k before))
  later count i _ taken (IsFirstFree.all_taken before) =
      IsFirstFree.all_taken (one_more count i taken count before)

  find_available_name-IsFirstFree :
      (count i : ℕ) → IsFirstFree groups schema count i (find_available_name groups schema count i)
  unfolding find_available_name
  find_available_name-IsFirstFree zero i = IsFirstFree.all_taken (λ j h. absurd (omega arith))
  find_available_name-IsFirstFree (suc count) i =
      elim (Bool-cases (any (λ g. g.name === suggestion schema i) groups)) [
        | inl e ↦
            rw e (
              later count i _ (any-name _ groups e) (find_available_name-IsFirstFree count (suc i)))
        | inr e ↦
            let z : i + 0 ≡ i = omega arith in
            rw e (
              subst
                (λ n. IsFirstFree groups schema (suc count) i (Outcome.ok (suggestion schema n))) z
                (IsFirstFree.found 0 (omega arith) (rw z (any_no_name _ groups e))
                  (λ j h. absurd (omega arith))))
      ]

  -- The name is the schema with the first number from 1 to 9999 that gives a name that no group
  -- has; if there is none, the search throws.
  pub try_find_available_name_first :
      IsFirstFree groups schema 9999 1 (try_find_available_name groups schema)
  unfolding try_find_available_name
  try_find_available_name_first = find_available_name-IsFirstFree 9999 1

  -- What a search that returns has found.
  found_name :
      (count i : ℕ) (o : Outcome String) (name : String)
      → IsFirstFree groups schema count i o
      → o ≡ Outcome.ok name
      → ¬ (name ∈ names_of groups) × (k : ℕ) × (name ≡ suggestion schema k)
  found_name count i _ name (IsFirstFree.found k h free before) e =
      let same : suggestion schema (i + k) ≡ name = cc in (rw same at free, i + k, sym same)
  found_name count i _ name (IsFirstFree.all_taken before) e = absurd (thrown e)
    where
      thrown : ◌≡◌ {A = Outcome String} (Outcome.throws Exception.plain_error) (Outcome.ok name) → ⊥
      thrown k = cc

-- The course and the name of a group.
abbrev pub name_in : String → String → String × String
name_in course_id name = (course_id, name)

abbrev pub names_in : List GroupRow → List (String × String)
names_in = map (λ g. name_in g.course_id g.name)

-- A name taken in the course is among those that the query returns, if it fits the schema.
taken_mem :
    (ilike : String → String → Bool) (course_id schema name : String) (gs : List GroupRow)
    → ilike name schema ≡ true
    → name_in course_id name ∈ names_in gs
    → name ∈ names_of (filter_by (λ g. (g.course_id === course_id) && ilike g.name schema) gs)
taken_mem ilike course_id schema name [] fits i = i
taken_mem ilike course_id schema name (g ∷ gs) fits (inl e) =
    let same : name ≡ g.name = ap (λ k. k.1) e in
    let here = ===_true g.course_id course_id (sym (ap (λ k. k.0) e)) in
    let fit : ilike g.name schema ≡ true = rw (← same) fits in rw (here, fit) (inl same)
taken_mem ilike course_id schema name (g ∷ gs) fits (inr i) =
    elim (Bool-cases ((g.course_id === course_id) && ilike g.name schema)) [
      | inl e ↦ rw e (inr (taken_mem ilike course_id schema name gs fits i))
      | inr e ↦ rw e (taken_mem ilike course_id schema name gs fits i)
    ]

-- Where `ILIKE` finds the names that start with the schema, a name that is determined by the
-- schema is that of no group of the course, and the tables stay as they were.
pub get_available_group_name_for_schema_free :
    (ilike : String → String → Bool) (course_id schema name : String) (db after : Database)
    → ((k : ℕ) → ilike (suggestion schema k) schema ≡ true)
    → get_available_group_name_for_schema ilike course_id schema db ≡ (Outcome.ok name, after)
    → ¬ (name_in course_id name ∈ names_in db.groups) × (after ≡ db)
unfolding get_available_group_name_for_schema read_db check continue
get_available_group_name_for_schema_free ilike course_id schema name db after finds h =
    let groups =
      filter_by (λ (g : GroupRow). (g.course_id === course_id) && ilike g.name schema) db.groups in
    let (free, k, e) =
      found_name groups schema 9999 1 _ name (try_find_available_name_first groups schema)
        (ap (λ p. p.0) h) in
    (
      (λ i. free (taken_mem ilike course_id schema name db.groups (rw e (finds k)) i)),
      sym (ap (λ p. p.1) h),
    )
