-- ===== src/Assignments/Registering/First.antt =====
-- The first start of an assignment: `registerGroupsForAssignment` where nothing is registered.
use mathlib.Core.List.Perm
use stu_mgmt_service.Prelude.{
  ℕ, suc, String, string_eq, arith, nat_eq, ◌===◌, ◌==◌, ===_true, ◌≡◌, refl, sym, ap, subst, inl,
  inr, Bool, true, false, List, [], ◌∷◌, map, some, length, filter_by, any, All, All-mono, All-map,
  All-self, ◌∈◌, Distinct, Distinct-filter, Distinct-perm, sort, sort-perm, sort-All, map_get,
}
use stu_mgmt_service.Groups.Models.{Exception, Outcome, GroupSettings}
use stu_mgmt_service.Groups.Store.{
  GroupRow, Database, continue, roll_back, return, check, read_db, write_db,
}
use stu_mgmt_service.Groups.Service.{get_group_settings_of_course}
use stu_mgmt_service.Groups.Invariant.{group_ids, IsWellFormed}
use stu_mgmt_service.Assignments.Store.{
  Registration, RegistrationRelation, AssignmentEvent, Tables, in_course, publish_event,
}
use stu_mgmt_service.Assignments.Registrations.{
  GroupWithMembers, build_registration, build_registrations, insert_registrations,
  create_registrations,
}
use stu_mgmt_service.Assignments.Registrations.Complete.{
  ParticipantExists, IsRegistered, ∈-map, any-of_∈,
}
use stu_mgmt_service.Assignments.Registrations.Complete.Groups.{
  participants, seats, CanRegister, insert_registrations-adds,
}
use stu_mgmt_service.Assignments.Registering.{
  Services, group_with_members, get_groups_of_course, groups_to_register,
  register_groups_for_assignment,
}
use stu_mgmt_service.Assignments.Registering.Course.{
  entry, built, participants-Distinct, participants-All,
}
use stu_mgmt_service.Assignments.Invariant.{identity, IsConsistent}
use stu_mgmt_service.Assignments.Invariant.Rows.{kept, IsConsistent-KeptByWrites}

-- The groups of a course, in the order of their names.
abbrev pub groups_of : Services → String → Database → List GroupRow
groups_of services course_id ct =
    sort (λ g h. services.collate g.name h.name)
      (filter_by (λ g. g.course_id === course_id) ct.groups)

no_registration :
    (a : String) (A : Type 0) (f : A → String) (xs : List A)
    → any (λ x. f x === a) xs ≡ false
    → ¬ (a ∈ map f xs)
no_registration a A f xs h i =
    true-ne-false (any-of_∈ f (λ x. f x === a) a xs (λ x e. ===_true (f x) a (sym e)) i) h
  where
    true-ne-false : {b : Bool} → b ≡ true → b ≡ false → ⊥
    true-ne-false p q = cc

first_of :
    {A B C : Type 0} (f : A → B) (g : A → C) (b : B) (c : C) (xs : List A)
    → ◌∈◌ {A = B × C} (b, c) (map (λ x. (f x, g x)) xs)
    → b ∈ map f xs
first_of f g b c [] i = i
first_of f g b c (x ∷ xs) (inl e) = inl (ap (λ k. k.0) e)
first_of f g b c (x ∷ xs) (inr i) = inr (first_of f g b c xs i)

second_of :
    {A B C : Type 0} (f : A → B) (g : A → C) (b : B) (c : C) (xs : List A)
    → ◌∈◌ {A = B × C} (b, c) (map (λ x. (f x, g x)) xs)
    → c ∈ map g xs
second_of f g b c [] i = i
second_of f g b c (x ∷ xs) (inl e) = inl (ap (λ k. k.1) e)
second_of f g b c (x ∷ xs) (inr i) = inr (second_of f g b c xs i)

All-of : {A : Type 0} (P : A → Type 0) (xs : List A) → ((x : A) → P x) → All P xs
All-of P [] f = tt
All-of P (x ∷ xs) f = (f x, All-of P xs f)

module _ (services : Services) (course_id a : String) (db : Tables) where
  -- Tables in which the assignment exists and has no registration.
  pub record IsUnregistered : Type 0 where
    pub consistent : IsConsistent db
    pub well_formed : IsWellFormed db.course_tables
    pub members_exist : All (λ r. ParticipantExists db r.participant_id) db.course_tables.relations
    pub assignment_exists : any (λ b. b.id === a) db.assignments ≡ true
    pub unregistered : any (λ r. r.assignment_id === a) db.registrations ≡ false

  abbrev rows : List GroupRow
  rows = groups_of services course_id db.course_tables

  rows-Distinct : IsWellFormed db.course_tables → Distinct (group_ids rows)
  rows-Distinct w =
      let here = filter_by (λ g. g.course_id === course_id) db.course_tables.groups in
      Distinct-perm (group_ids here) (group_ids rows)
        (Perm.symm (Perm.map (λ g. g.id) (sort-perm (λ g h. services.collate g.name h.name) here)))
        (Distinct-filter (λ (g : GroupRow). g.id) (λ g. g.course_id === course_id)
          db.course_tables.groups w.ids_apart)

  course-CanRegister : IsUnregistered → CanRegister db a (map (entry db.course_tables) rows)
  course-CanRegister u =
      let w = u.well_formed in
      let no_group =
        no_registration a Registration (λ r. r.assignment_id) db.registrations u.unregistered in
      record {
        groups_exist =
            All-map (entry db.course_tables)
              (λ e. any (λ h. h.id === e.0) db.course_tables.groups ≡ true) rows
              (sort-All (λ g h. services.collate g.name h.name)
                (λ g. any (λ h. h.id === g.id) db.course_tables.groups ≡ true) _
                (kept (λ g. any (λ h. h.id === g.id) db.course_tables.groups ≡ true)
                  (λ g. g.course_id === course_id) db.course_tables.groups
                  (All-mono (λ (g : GroupRow). g.id ∈ group_ids db.course_tables.groups) _
                    db.course_tables.groups
                    (λ g i.
                      any-of_∈ (λ (h : GroupRow). h.id) (λ h. h.id === g.id) g.id
                        db.course_tables.groups (λ h e. ===_true h.id g.id (sym e)) i)
                    (own db.course_tables.groups))));
        groups_apart = subst Distinct (sym (ids rows)) (rows-Distinct w);
        groups_free = All-of _ (map (entry db.course_tables) rows) (λ e i. no_group (
            first_of (λ (r : Registration). r.assignment_id) (λ r. r.group_id) a e.0
              db.registrations i));
        participants_exist =
            participants-All db.course_tables (ParticipantExists db) rows u.members_exist;
        participants_apart =
            participants-Distinct db.course_tables w.one_group rows (rows-Distinct w);
        participants_free = All-of _ (participants (map (entry db.course_tables) rows)) (λ p i.
            no_seat p (
              first_of (λ (s : RegistrationRelation). s.assignment_id) (λ s. s.participant_id) a p
                db.relations i));
      }
    where
      own : (gs : List GroupRow) → All (λ g. g.id ∈ group_ids gs) gs
      own gs =
          All-mono (λ (g : GroupRow). g ∈ gs) _ gs (λ g i. ∈-map (λ (h : GroupRow). h.id) g gs i)
            (All-self gs)

      ids : (gs : List GroupRow) → map (λ e. e.0) (map (entry db.course_tables) gs) ≡ group_ids gs
      ids [] = refl
      ids (g ∷ gs) = ap (◌∷◌ g.id) (ids gs)

      no_seat : (p : ℕ) → ¬ (a ∈ map (λ (s : RegistrationRelation). s.assignment_id) db.relations)
      no_seat p i = found db.relations u.consistent.belong i
        where
          found :
              (ss : List RegistrationRelation)
              → All
                  (λ s.
                    (s.assignment_registration_id, s.assignment_id) ∈ map identity db.registrations)
                  ss
              → ¬ (a ∈ map (λ (s : RegistrationRelation). s.assignment_id) ss)
          found [] b i = i
          found (s ∷ ss) b (inl e) =
              no_registration a Registration (λ r. r.assignment_id) db.registrations u.unregistered
                (subst (λ x. x ∈ map (λ (r : Registration). r.assignment_id) db.registrations)
                  (sym e)
                  (second_of (λ (r : Registration). r.id) (λ r. r.assignment_id)
                    s.assignment_registration_id s.assignment_id db.registrations b.0))
          found (s ∷ ss) b (inr i) = found ss b.1 i

  insert_all :
      IsUnregistered
      → ((insert_registrations a
            (build_registrations (map (group_with_members db.course_tables) rows))
            db).0
          ≡ Outcome.ok tt)
        × IsRegistered db
            (insert_registrations a
              (build_registrations (map (group_with_members db.course_tables) rows))
              db).1
            (map (λ e. (a, e.0)) (map (entry db.course_tables) rows))
            (seats a (participants (map (entry db.course_tables) rows)))
  insert_all u = rw (built db.course_tables rows) (
      insert_registrations-adds a (map (entry db.course_tables) rows) db u.consistent
        u.assignment_exists (course-CanRegister u))

  -- The call that inserts the registrations, given how its transaction ends.
  created :
      (gs : List GroupWithMembers) (groups : List (String × String)) (taken : List (String × ℕ))
      → ((insert_registrations a (build_registrations gs) db).0 ≡ Outcome.ok tt)
        × IsRegistered db (insert_registrations a (build_registrations gs) db).1 groups taken
      → ((create_registrations a gs db).0 ≡ Outcome.ok tt)
        × IsRegistered db (create_registrations a gs db).1 groups taken
  unfolding create_registrations build_registrations insert_registrations return
  created [] groups taken h = h
  created (g ∷ gs) groups taken h =
      let filled : (suc (length (map build_registration gs)) == 0) ≡ false = ground arith in
      rw filled (committed (insert_registrations a (build_registrations (g ∷ gs)) db) h)
    where
      committed :
          (o : Outcome (Unit {0}) × Tables)
          → (o.0 ≡ Outcome.ok tt) × IsRegistered db o.1 groups taken
          → ((roll_back db o).0 ≡ Outcome.ok tt) × IsRegistered db (roll_back db o).1 groups taken
      committed (Outcome.ok x, after) h = unfold roll_back in h
      committed (Outcome.throws e, after) h = absurd (ne h.0)
        where
          ne : {e : Exception} → ◌≡◌ {A = Outcome (Unit {0})} (Outcome.throws e) (Outcome.ok tt) → ⊥
          ne h = cc

  read_groups :
      (settings : GroupSettings)
      → map_get course_id db.course_tables.settings ≡ some settings
      → settings.merge_groups_on_assignment_started ≡ false
      → groups_to_register services course_id db.course_tables
        ≡ (Outcome.ok (map (group_with_members db.course_tables) rows), db.course_tables)
  unfolding groups_to_register get_groups_of_course get_group_settings_of_course read_db check
      return continue
  read_groups settings s m = rw (s, m) refl

  -- What holds before the event is published holds after it.
  published :
      (e : AssignmentEvent) (groups : List (String × String)) (taken : List (String × ℕ))
      (o : Outcome (Unit {0}) × Tables)
      → (o.0 ≡ Outcome.ok tt) × IsRegistered db o.1 groups taken
      → ((continue (λ done. publish_event e) o).0 ≡ Outcome.ok tt)
        × IsRegistered db (continue (λ done. publish_event e) o).1 groups taken
  unfolding publish_event write_db continue
  published e groups taken (Outcome.ok x, after) h = (
    refl,
    record {
      groups_added = h.1.groups_added;
      seats_added = h.1.seats_added;
      same_course = h.1.same_course;
      same_assignments = h.1.same_assignments;
      consistent = IsConsistent-KeptByWrites.event e after h.1.consistent;
    },
  )
  published e groups taken (Outcome.throws x, after) h = absurd (throws-ne-ok h.0)
    where
      throws-ne-ok :
          {e : Exception} → ◌≡◌ {A = Outcome (Unit {0})} (Outcome.throws e) (Outcome.ok tt) → ⊥
      throws-ne-ok h = cc

  -- In consistent tables of groups and assignments, where the assignment exists and has no
  -- registration, the members of groups are participants, and the settings exist and do not ask
  -- for merging, `registerGroupsForAssignment` returns. Each group of the course is registered
  -- once, in the order of the names, and each member of those groups once, and nothing else.
  pub register_groups_for_assignment-registers :
      (settings : GroupSettings)
      → IsUnregistered
      → map_get course_id db.course_tables.settings ≡ some settings
      → settings.merge_groups_on_assignment_started ≡ false
      → ((register_groups_for_assignment services course_id a db).0 ≡ Outcome.ok tt)
        × IsRegistered db
            (register_groups_for_assignment services course_id a db).1
            (map (λ e. (a, e.0)) (map (entry db.course_tables) rows))
            (seats a (participants (map (entry db.course_tables) rows)))
  unfolding register_groups_for_assignment in_course continue
  register_groups_for_assignment-registers settings u s m =
      let groups = map (group_with_members db.course_tables) rows in
      rw (read_groups settings s m) (
        published (AssignmentEvent.registrations_created course_id a) _ _
          (create_registrations a groups db) (created groups _ _ (insert_all u)))
