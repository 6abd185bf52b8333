-- ===== src/Groups/Invariant/Rows.antt =====
-- Each method of GroupRepository keeps the tables well formed.
use stu_mgmt_service.Prelude.{
  String, string_eq, nat_eq, option_eq, ◌≡◌, sym, ap, inl, inr, Bool, true, false, not, ◌&&◌, ◌||◌,
  ◌===◌, ===_eq, ===_true, any-All, arith, Bool-cases, List, [], ◌∷◌, ◌++◌, ◌∈◌, All-append,
  All-mono, any, update_by, any-false, Distinct-filter, mem-filter, All-filter, map-update_by,
  Distinct-update_by, Distinct-snoc, ∈-append_left,
}
use mathlib.Core.List.{map-append}
use stu_mgmt_service.Groups.Models.{Exception, GroupUpdateDto}
use stu_mgmt_service.Groups.Store.{
  Relation, GroupRow, Database, continue, return, throw, check, read_db, write_db,
}
use stu_mgmt_service.Groups.Repository.{
  GroupDto, same_name, create_entity_from_dto, insert_group, create_group, get_participant, Saved,
  clashes, save_relation, add_user_to_group, get_group_by_id, updated_group, save_group,
  update_group, is_relation, remove_user, delete_group,
}
use stu_mgmt_service.Groups.Invariant.{
  group_ids, name_key, group_names, member_ids, IsWellFormed, Keeps, return-Keeps, throw-Keeps,
  bind-Keeps,
}

either_true : (a b : Bool) → b ≡ true → (a || b) ≡ true
either_true a b h = ground arith

same_name-true : (g h : GroupRow) → name_key g ≡ name_key h → same_name g h ≡ true
unfolding same_name
same_name-true g h e =
    rw
      (===_true g.name h.name (ap (λ k. k.1) e), ===_true g.course_id h.course_id (ap (λ k. k.0) e))

added-IsWellFormed :
    (db : Database) (g : GroupRow)
    → any (λ h. h.id === g.id || same_name h g) db.groups ≡ false
    → IsWellFormed db
    → IsWellFormed (record db { groups = db.groups ++ g ∷ [] })
unfolding same_name
added-IsWellFormed db g e w = record {
  one_group = w.one_group;
  groups_exist =
      All-mono (λ (r : Relation). r.group_id ∈ group_ids db.groups) _ db.relations
        (λ r i.
          rw (map-append (λ (h : GroupRow). h.id) db.groups (g ∷ []))
            (∈-append_left (group_ids db.groups) _ r.group_id i))
        w.groups_exist;
  ids_apart = rw (map-append (λ (h : GroupRow). h.id) db.groups (g ∷ [])) (
      Distinct-snoc (group_ids db.groups) g.id w.ids_apart (
        any-false (λ (h : GroupRow). h.id) (λ h. h.id === g.id || same_name h g) g.id db.groups
          (λ h q. rw (===_true h.id g.id (sym q))) e));
  names_apart = rw (map-append name_key db.groups (g ∷ [])) (
      Distinct-snoc (group_names db.groups) (name_key g) w.names_apart (
        any-false name_key (λ h. h.id === g.id || same_name h g) (name_key g) db.groups
          (λ h q. either_true _ _ (same_name-true h g (sym q))) e));
}

pub insert_group-Keeps : (g : GroupRow) → Keeps (insert_group g)
unfolding insert_group read_db write_db throw return continue
insert_group-Keeps g db w =
    elim (Bool-cases (any (λ h. h.id === g.id || same_name h g) db.groups)) [
      | inl e ↦ rw e w
      | inr e ↦ rw e (added-IsWellFormed db g e w)
    ]

-- The place of a row is taken by one with its id and a name that no other row has.
saved-IsWellFormed :
    (db : Database) (g : GroupRow)
    → any (λ h. not (h.id === g.id) && same_name h g) db.groups ≡ false
    → IsWellFormed db
    → IsWellFormed (record db { groups = update_by (λ h. h.id === g.id) g db.groups })
saved-IsWellFormed db g e w =
    let same : (h : GroupRow) → (h.id === g.id) ≡ true → h.id ≡ g.id = λ h. ===_eq h.id g.id in
    let ids =
      map-update_by (λ (h : GroupRow). h.id) name_key (λ h. h.id === g.id) g db.groups same in
    record {
      one_group = w.one_group;
      groups_exist = rw ids w.groups_exist;
      ids_apart = rw ids w.ids_apart;
      names_apart =
          Distinct-update_by (λ (h : GroupRow). h.id) name_key (λ h. h.id === g.id) g db.groups same
            w.ids_apart w.names_apart
            (All-mono (λ (h : GroupRow). (not (h.id === g.id) && same_name h g) ≡ false) _ db.groups
              (λ h n other q.
                only_false (h.id === g.id) (same_name h g) n other (same_name-true h g q))
              (any-All (λ (h : GroupRow). not (h.id === g.id) && same_name h g) db.groups e));
    }
  where
    only_false : (a b : Bool) → (not a && b) ≡ false → a ≡ false → b ≡ true → ⊥
    only_false a b h k l = ground arith

save_group-Keeps : (g : GroupRow) → Keeps (save_group g)
unfolding save_group read_db write_db throw return continue
save_group-Keeps g db w =
    elim (Bool-cases (any (λ h. not (h.id === g.id) && same_name h g) db.groups)) [
      | inl e ↦ rw e w
      | inr e ↦ rw e (saved-IsWellFormed db g e w)
    ]

pub create_group-Keeps :
    (new_id course_id : String) (dto : GroupDto) → Keeps (create_group new_id course_id dto)
unfolding create_group
create_group-Keeps new_id course_id dto =
    insert_group-Keeps (create_entity_from_dto new_id course_id dto)

get_group_by_id-Keeps : (group_id : String) → Keeps (get_group_by_id group_id)
unfolding get_group_by_id read_db check continue
get_group_by_id-Keeps group_id db w = w

get_participant-Keeps : (course_id user_id : String) → Keeps (get_participant course_id user_id)
unfolding get_participant read_db check continue
get_participant-Keeps course_id user_id db w = w

pub update_group-Keeps :
    (group_id : String) (update : GroupUpdateDto) → Keeps (update_group group_id update)
unfolding update_group
update_group-Keeps group_id update =
    bind-Keeps _ _ (get_group_by_id-Keeps group_id) (λ g. save_group-Keeps (updated_group update g))

related-IsWellFormed :
    (db : Database) (r : Relation)
    → any (clashes r) db.relations ≡ false
    → any (λ g. g.id === r.group_id) db.groups ≡ true
    → IsWellFormed db
    → IsWellFormed (record db { relations = db.relations ++ r ∷ [] })
unfolding clashes
related-IsWellFormed db r e f w = record {
  one_group = rw (map-append (λ (s : Relation). s.participant_id) db.relations (r ∷ [])) (
      Distinct-snoc (member_ids db.relations) r.participant_id w.one_group (
        any-false (λ (s : Relation). s.participant_id) (clashes r) r.participant_id db.relations
          (λ s q. rw (===_true r.participant_id s.participant_id q)) e));
  groups_exist =
      All-append (λ (s : Relation). s.group_id ∈ group_ids db.groups) db.relations (r ∷ [])
        w.groups_exist (found db.groups f, tt);
  ids_apart = w.ids_apart;
  names_apart = w.names_apart;
}
  where
    found :
        (gs : List GroupRow) → any (λ g. g.id === r.group_id) gs ≡ true → r.group_id ∈ group_ids gs
    found [] h = cc
    found (g ∷ gs) h = elim (Bool-cases (g.id === r.group_id)) [
      | inl k ↦ inl (sym (===_eq g.id r.group_id k))
      | inr k ↦ inr (found gs (rw k at h))
    ]

pub save_relation-Keeps : (r : Relation) → Keeps (save_relation r)
unfolding save_relation read_db write_db return continue
save_relation-Keeps r db w = elim (Bool-cases (any (clashes r) db.relations)) [
  | inl e ↦ rw e w
  | inr e ↦ elim (Bool-cases (any (λ g. g.id === r.group_id) db.groups)) [
    | inl f ↦ elim (Bool-cases (any (λ p. p.id === r.participant_id) db.participants)) [
      | inl p ↦ rw (e, f, p) (related-IsWellFormed db r e f w)
      | inr p ↦ rw (e, f, p) w
    ]
    | inr f ↦ rw (e, f) w
  ]
]

pub add_user_to_group-Keeps :
    (course_id group_id user_id : String) → Keeps (add_user_to_group course_id group_id user_id)
unfolding add_user_to_group
add_user_to_group-Keeps course_id group_id user_id =
    bind-Keeps _ _ (get_participant-Keeps course_id user_id)
      (λ p. bind-Keeps _ _ (save_relation-Keeps _) ended)
  where
    ended :
        (s : Saved)
        → Keeps (elim s [
          | Saved.unique_violation ↦ throw {A = Bool} Exception.conflict
          | Saved.saved ↦ return true
          | Saved.other_error ↦ return true
        ])
    ended Saved.saved = return-Keeps true
    ended Saved.unique_violation = throw-Keeps Bool Exception.conflict
    ended Saved.other_error = return-Keeps true

pub remove_user-Keeps : (group_id user_id : String) → Keeps (remove_user group_id user_id)
unfolding remove_user read_db write_db return continue
remove_user-Keeps group_id user_id db w =
    let stays : Relation → Bool = λ r. not (is_relation group_id user_id r) in
    record {
      one_group =
          Distinct-filter (λ (r : Relation). r.participant_id) stays db.relations w.one_group;
      groups_exist =
          All-mono (λ (r : Relation). (r.group_id ∈ group_ids db.groups) × (stays r ≡ true)) _ _
            (λ r i. i.0)
            (All-filter stays (λ r. r.group_id ∈ group_ids db.groups) db.relations w.groups_exist);
      ids_apart = w.ids_apart;
      names_apart = w.names_apart;
    }

pub delete_group-Keeps : (group_id : String) → Keeps (delete_group group_id)
unfolding delete_group read_db write_db return continue
delete_group-Keeps group_id db w =
    let stays : GroupRow → Bool = λ g. not (g.id === group_id) in
    let kept : Relation → Bool = λ r. not (r.group_id === group_id) in
    record {
      one_group =
          Distinct-filter (λ (r : Relation). r.participant_id) kept db.relations w.one_group;
      groups_exist =
          All-mono (λ (r : Relation). (r.group_id ∈ group_ids db.groups) × (kept r ≡ true)) _ _
            (λ r i.
              mem-filter (λ (g : GroupRow). g.id) stays r.group_id db.groups (λ g q. rw (← q) i.1)
                i.0)
            (All-filter kept (λ r. r.group_id ∈ group_ids db.groups) db.relations w.groups_exist);
      ids_apart = Distinct-filter (λ (g : GroupRow). g.id) stays db.groups w.ids_apart;
      names_apart = Distinct-filter name_key stays db.groups w.names_apart;
    }
