-- ===== src/Assignments/Service/Update.antt =====
-- What an update of an assignment writes.
use stu_mgmt_service.Prelude.{
  String, string_eq, ◌===◌, ===_eq, ===_refl, ◌≡◌, refl, ◌∙◌, inl, inr, true, false, Bool-cases,
  List, [], ◌∷◌, some, any, find_by, update_by,
}
use stu_mgmt_service.Groups.Store.{continue, return, read_db, write_db}
use stu_mgmt_service.Assignments.Models.{AssignmentRow}
use stu_mgmt_service.Assignments.Store.{Tables, found}
use stu_mgmt_service.Assignments.Service.{
  AssignmentUpdateDto, or_else, put, save, get_assignment_by_id, spread, save_update,
}

module _ (v : AssignmentRow) where
  find_by-update_by :
      (rows : List AssignmentRow)
      → any (λ b. b.id === v.id) rows ≡ true
      → find_by (λ b. b.id === v.id) (update_by (λ b. b.id === v.id) v rows) ≡ some v
  find_by-update_by [] h = cc
  find_by-update_by (b ∷ rows) h = elim (Bool-cases (b.id === v.id)) [
    | inl e ↦ rw (e, ===_refl v.id) refl
    | inr e ↦ rw (e, e) (find_by-update_by rows (rw e at h))
  ]

  find_by-update_by_other :
      (x : String) (rows : List AssignmentRow)
      → (v.id === x) ≡ false
      → find_by (λ b. b.id === x) (update_by (λ b. b.id === v.id) v rows)
        ≡ find_by (λ b. b.id === x) rows
  find_by-update_by_other x [] n = refl
  find_by-update_by_other x (b ∷ rows) n = elim (Bool-cases (b.id === v.id)) [
    | inl e ↦
        let m : (b.id === x) ≡ false = rw (===_eq b.id v.id e) n in
        rw (e, n, m) (find_by-update_by_other x rows n)
    | inr e ↦ rw (e, find_by-update_by_other x rows n) refl
  ]

-- An update whose body has the id of another assignment, of whichever course, leaves the
-- assignment of the path as it was, and puts that assignment's values and the body's over the
-- other one.
pub save_update-other :
    (assignment_id other : String) (update : AssignmentUpdateDto) (a : AssignmentRow) (db : Tables)
    → find_by (λ b. b.id === assignment_id) db.assignments ≡ some a
    → any (λ b. b.id === other) db.assignments ≡ true
    → (other === assignment_id) ≡ false
    → any (λ c. c === or_else update.course_id a.course_id) db.courses ≡ true
    → let after = (save_update assignment_id (record update { id = some other }) db).1 in
      (find_by (λ b. b.id === assignment_id) after.assignments ≡ some a)
      × (find_by (λ b. b.id === other) after.assignments
          ≡ some (record (spread update a) { id = other }))
unfolding save_update get_assignment_by_id found save spread put read_db write_db return continue
save_update-other id other update a db f o n c =
    let v : AssignmentRow = spread (record update { id = some other }) a in
    rw (f, c, o)
      (find_by-update_by_other v id db.assignments n ∙ f, find_by-update_by v db.assignments o)
