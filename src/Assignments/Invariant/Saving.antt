-- ===== src/Assignments/Invariant/Saving.antt =====
-- Saving and removing an assignment keep the tables consistent.
use mathlib.Core.List.{map-append}
use stu_mgmt_service.Prelude.{
  String, string_eq, ◌===◌, ===_eq, ===_true, ◌≡◌, refl, sym, ap, subst, inl, inr, Bool, true,
  false, Bool-cases, not, List, [], ◌∷◌, map, if◌then◌else◌, filter_by, any, any-false, update_by,
  map-update_by, All, All-append, All-mono, All-filter, ◌∈◌, ∈-append_left, mem-filter, Distinct,
  Distinct-snoc, Distinct-filter,
}
use stu_mgmt_service.Assignments.Models.{AssignmentRow}
use stu_mgmt_service.Assignments.Store.{Registration, Tables}
use stu_mgmt_service.Assignments.Service.{put, remove_assignment}
use stu_mgmt_service.Assignments.Invariant.{assignment_ids, IsConsistent}
use stu_mgmt_service.Assignments.Invariant.Rows.{any-∈, kept, deleted-IsConsistent}

map_identity : (l : List String) → map (λ c. c) l ≡ l
map_identity [] = refl
map_identity (c ∷ l) = ap (◌∷◌ c) (map_identity l)

All-update_by :
    {A : Type 0} (P : A → Type 0) (p : A → Bool) (y : A) (xs : List A)
    → P y
    → All P xs
    → All P (update_by p y xs)
All-update_by P p y [] h a = tt
All-update_by P p y (x ∷ xs) h a = (chosen (p x), All-update_by P p y xs h a.1)
  where
    chosen : (b : Bool) → P (if b then y else x)
    chosen true = h
    chosen false = a.0

pub put-IsConsistent :
    (a : AssignmentRow) (db : Tables)
    → any (λ c. c === a.course_id) db.courses ≡ true
    → IsConsistent db
    → IsConsistent (record db { assignments = put a db.assignments })
unfolding put
put-IsConsistent a db e w = elim (Bool-cases (any (λ b. b.id === a.id) db.assignments)) [
  | inl f ↦
      let ids =
        map-update_by (λ (b : AssignmentRow). b.id) (λ b. b.id) (λ b. b.id === a.id) a
          db.assignments (λ b. ===_eq b.id a.id) in
      rw f (kept_ids _ (sym ids) (All-update_by _ _ a db.assignments course w.courses_exist))
  | inr f ↦
      let ids = map-append (λ (b : AssignmentRow). b.id) db.assignments (a ∷ []) in
      rw f (record {
        one_group = w.one_group;
        groups_once = w.groups_once;
        belong = w.belong;
        assignments_exist =
            All-mono (λ (r : Registration). r.assignment_id ∈ assignment_ids db.assignments) _
              db.registrations
              (λ r i. rw ids (∈-append_left (assignment_ids db.assignments) _ r.assignment_id i))
              w.assignments_exist;
        courses_exist = All-append _ db.assignments (a ∷ []) w.courses_exist (course, tt);
        assignments_apart = rw ids (
            Distinct-snoc (assignment_ids db.assignments) a.id w.assignments_apart (
              any-false (λ (b : AssignmentRow). b.id) (λ b. b.id === a.id) a.id db.assignments
                (λ b q. ===_true b.id a.id (sym q)) f));
        registrations_apart = w.registrations_apart;
        relations_apart = w.relations_apart;
        registrations_below = w.registrations_below;
        relations_below = w.relations_below;
      })
]
  where
    course : a.course_id ∈ db.courses
    course =
        subst (λ l. a.course_id ∈ l) (map_identity db.courses)
          (any-∈ (λ c. c) (λ c. c === a.course_id) a.course_id db.courses
            (λ c h. sym (===_eq c a.course_id h)) e)

    kept_ids :
        (rows : List AssignmentRow)
        → assignment_ids db.assignments ≡ assignment_ids rows
        → All (λ b. b.course_id ∈ db.courses) rows
        → IsConsistent (record db { assignments = rows })
    kept_ids rows q courses = record {
      one_group = w.one_group;
      groups_once = w.groups_once;
      belong = w.belong;
      assignments_exist =
          subst (λ l. All (λ (r : Registration). r.assignment_id ∈ l) db.registrations) q
            w.assignments_exist;
      courses_exist = courses;
      assignments_apart = subst Distinct q w.assignments_apart;
      registrations_apart = w.registrations_apart;
      relations_apart = w.relations_apart;
      registrations_below = w.registrations_below;
      relations_below = w.relations_below;
    }

-- An assignment is removed after its registrations.
pub removed-IsConsistent :
    (assignment_id : String) (db : Tables)
    → IsConsistent db
    → IsConsistent (remove_assignment assignment_id db)
unfolding remove_assignment
removed-IsConsistent a db w =
    let v = deleted-IsConsistent (λ r. r.assignment_id === a) db w in
    let stays : AssignmentRow → Bool = λ b. not (b.id === a) in
    record {
      one_group = v.one_group;
      groups_once = v.groups_once;
      belong = v.belong;
      assignments_exist =
          All-mono
            (λ (r : Registration).
              (r.assignment_id ∈ assignment_ids db.assignments)
              × (not (r.assignment_id === a) ≡ true))
            _ (filter_by (λ r. not (r.assignment_id === a)) db.registrations)
            (λ r i.
              mem-filter (λ (b : AssignmentRow). b.id) stays r.assignment_id db.assignments
                (λ b q. rw (← q) i.1) i.0)
            (All-filter (λ (r : Registration). not (r.assignment_id === a)) _ db.registrations
              w.assignments_exist);
      courses_exist = kept _ stays db.assignments w.courses_exist;
      assignments_apart =
          Distinct-filter (λ (b : AssignmentRow). b.id) stays db.assignments w.assignments_apart;
      registrations_apart = v.registrations_apart;
      relations_apart = v.relations_apart;
      registrations_below = v.registrations_below;
      relations_below = v.relations_below;
    }
