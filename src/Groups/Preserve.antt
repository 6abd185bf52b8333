-- ===== src/Groups/Preserve.antt =====
-- Calls that keep a property of the tables, whether they return or throw.
use stu_mgmt_service.Prelude.{Bool, true, false, if◌then◌else◌}
use stu_mgmt_service.Groups.Models.{Exception, Outcome}
use stu_mgmt_service.Groups.Store.{
  Query, continue, ◌>>=◌, roll_back, return, throw, check, read_db, write_db,
}

module _ {S : Type 0} (P : S → Type 0) where
  abbrev pub Preserves : {A : Type 0} → Query S A → Type 0
  Preserves m = (db : S) → P db → P (m db).1

  pub throw-Preserves : (A : Type 0) (e : Exception) → Preserves {A = A} (throw e)
  unfolding throw
  throw-Preserves A e db w = w

  pub write_db-Preserves : (f : S → S) → ((db : S) → P db → P (f db)) → Preserves (write_db f)
  unfolding write_db
  write_db-Preserves f k db w = k db w

  module _ {A : Type 0} where
    pub return-Preserves : (a : A) → Preserves (return a)
    unfolding return
    return-Preserves a db w = w

    pub check-Preserves : (o : Outcome A) → Preserves (check o)
    unfolding check
    check-Preserves o db w = w

    pub read_db-Preserves : (f : S → A) → Preserves (read_db f)
    unfolding read_db
    read_db-Preserves f db w = w

    pub continue-Preserves :
        {B : Type 0} (f : A → Query S B) (r : Outcome A × S)
        → ((a : A) → Preserves (f a))
        → P r.1
        → P (continue f r).1
    unfolding continue
    continue-Preserves f (Outcome.ok a, d) l v = l a d v
    continue-Preserves f (Outcome.throws e, d) l v = v

    pub bind-Preserves :
        {B : Type 0} (m : Query S A) (f : A → Query S B)
        → Preserves m
        → ((a : A) → Preserves (f a))
        → Preserves (m >>= f)
    bind-Preserves m f k l db w = continue-Preserves f (m db) l (k db w)

    pub if-Preserves :
        (b : Bool) (m n : Query S A) → Preserves m → Preserves n → Preserves (if b then m else n)
    if-Preserves true m n k l = k
    if-Preserves false m n k l = l

    pub roll_back-Preserves : (m : Query S A) → Preserves m → Preserves (λ db. roll_back db (m db))
    unfolding roll_back
    roll_back-Preserves m k db w = taken_back (m db) (k db w)
      where
        taken_back : (r : Outcome A × S) → P r.1 → P (roll_back db r).1
        taken_back (Outcome.ok a, after) v = v
        taken_back (Outcome.throws e, after) v = w
