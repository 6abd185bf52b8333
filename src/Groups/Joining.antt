-- ===== src/Groups/Joining.antt =====
-- What it takes to join a group, and what a call that returns has done.
use stu_mgmt_service.Prelude.{
  ◌<◌, ◌≡◌, refl, ap, inl, inr, String, string_eq, nat_eq, option_eq, true, false, not, ◌&&◌, ◌===◌,
  leb, arith, leb→lt, Bool-cases, Option-cases, [], ◌∷◌, ◌++◌, Option, some, length, any, find_by,
  map_get,
}
use stu_mgmt_service.Groups.Models.{
  Exception, Outcome, CourseEntity, Course, GroupSettings, Group, Participant, new_course,
  with_settings, throw_if, is_set, course_is_not_closed, GroupUpdateDto, allows_self_managed_groups,
  allows_group_to_close, allows_group_to_rename, has_no_group, group_is_not_closed, has_capacity,
  accepts_password, is_student,
}
use stu_mgmt_service.Groups.Store.{
  Relation, ParticipantRow, Event, Database, continue, return, check, read_db, write_db, publish,
}
use stu_mgmt_service.Groups.Repository.{clashes, get_participant, save_relation}
use stu_mgmt_service.Groups.Repository
use stu_mgmt_service.Groups.Service.{
  get_group_settings_of_course, when, check_group, add_user_to_group, add_user_to_group_force,
  remove_user, update_group,
}

throws-ne-ok :
    (x : Exception) (db after : Database)
    → ◌≡◌ {A = Outcome (Unit {0}) × Database} (Outcome.throws x, db) (Outcome.ok tt, after)
    → ⊥
throws-ne-ok x db after e = different (ap (λ p. p.0) e)
  where
    different : ◌≡◌ {A = Outcome (Unit {0})} (Outcome.throws x) (Outcome.ok tt) → ⊥
    different k = cc

module _ (course : Course) (group : Group) (participant selected : Participant)
    (password : Option String) where
  -- What a student must satisfy to join.
  pub record MayJoin (settings : GroupSettings) : Type 0 where
    pub not_closed : group.is_closed ≡ false
    pub has_room : length group.members < settings.size_max
    pub password_known : (is_set group.password && not (group.password === password)) ≡ false

  -- Where the requesting participant is a student and a call of `addUserToGroup` returns, the
  -- selected participant has no group, the settings of the course are found, the group is not
  -- closed and has fewer members than the course's maximum, and the password is the group's, if
  -- it has one.
  pub add_user_to_group-MayJoin :
      (db after : Database)
      → is_student participant ≡ true
      → add_user_to_group course group participant selected password db ≡ (Outcome.ok tt, after)
      → (is_set selected.group_id ≡ false)
        × (settings : GroupSettings) × (map_get course.id db.settings ≡ some settings)
        × MayJoin settings
  unfolding add_user_to_group check_group has_no_group group_is_not_closed has_capacity
      accepts_password when get_group_settings_of_course read_db check continue throw_if
      with_settings new_course course_is_not_closed
  add_user_to_group-MayJoin db after student h = elim (Bool-cases (is_set selected.group_id)) [
    | inl e ↦ absurd (throws-ne-ok _ db after (rw e at h))
    | inr e ↦ elim (Option-cases (map_get course.id db.settings)) [
      | inl n ↦ absurd (throws-ne-ok _ db after (rw (e, n) at h))
      | inr (settings, s) ↦ elim (Bool-cases group.is_closed) [
        | inl c ↦ absurd (throws-ne-ok _ db after (rw (e, s, student, c) at h))
        | inr c ↦ elim (Bool-cases (leb settings.size_max (length group.members))) [
          | inl l ↦ absurd (throws-ne-ok _ db after (rw (e, s, student, c, l) at h))
          | inr l ↦ elim (Bool-cases (is_set group.password && not (group.password === password))) [
            | inl p ↦ absurd (throws-ne-ok _ db after (rw (e, s, student, c, l, p) at h))
            | inr p ↦ (
              e,
              settings,
              s,
              record { not_closed = c; has_room = leb→lt _ _ l; password_known = p },
            )
          ]
        ]
      ]
    ]
  ]

  -- The relation that joins the selected participant to the group.
  abbrev pub membership : ParticipantRow → Relation
  membership row = record {
    user_id = selected.user_id;
    participant_id = row.id;
    group_id = group.id;
  }

  -- A student who passes the checks joins: where the selected participant has no group, the
  -- settings and the participant's row are found, the row and the group exist, and no relation
  -- has this participant or this user in this group, the call returns, adds the relation and
  -- publishes that the user joined, and changes nothing else.
  pub add_user_to_group_joins :
      (db : Database) (settings : GroupSettings) (row : ParticipantRow)
      → is_student participant ≡ true
      → is_set selected.group_id ≡ false
      → map_get course.id db.settings ≡ some settings
      → MayJoin settings
      → find_by
          (λ p. (p.user_id === selected.user_id) && (p.course_id === course.id))
          db.participants
        ≡ some row
      → any (λ p. p.id === row.id) db.participants ≡ true
      → any (λ g. g.id === group.id) db.groups ≡ true
      → any (clashes (membership row)) db.relations ≡ false
      → add_user_to_group course group participant selected password db ≡ (
        Outcome.ok tt,
        record db {
          relations = db.relations ++ membership row ∷ [];
          events = db.events ++ Event.user_joined_group course.id group.id selected.user_id ∷ [];
        },
      )
  unfolding add_user_to_group check_group has_no_group group_is_not_closed has_capacity
      accepts_password when get_group_settings_of_course read_db write_db check continue throw_if
      with_settings new_course course_is_not_closed Repository.add_user_to_group get_participant
      save_relation return publish
  add_user_to_group_joins db settings row student e s may f p g c =
      let l : leb settings.size_max (length group.members) ≡ false =
        let r = may.has_room in ground arith in
      rw (e, s, student, may.not_closed, l, may.password_known, f, c, g, p)

-- `addUserToGroup` of the repository swallows every error but a unique violation: for a group
-- that does not exist, where the participant's row is found and no relation has this participant
-- or this user in this group, the call returns and publishes that the user joined, although there
-- is no relation.
pub add_user_to_group_force_swallows :
    (course_id group_id user_id : String) (db : Database) (row : ParticipantRow)
    → find_by (λ p. (p.user_id === user_id) && (p.course_id === course_id)) db.participants
      ≡ some row
    → any
        (clashes (record { user_id = user_id; participant_id = row.id; group_id = group_id }))
        db.relations
      ≡ false
    → any (λ g. g.id === group_id) db.groups ≡ false
    → add_user_to_group_force course_id group_id user_id db ≡ (
      Outcome.ok tt,
      record db { events = db.events ++ Event.user_joined_group course_id group_id user_id ∷ [] },
    )
unfolding add_user_to_group_force read_db write_db check continue Repository.add_user_to_group
    get_participant save_relation return publish
add_user_to_group_force_swallows course_id group_id user_id db row f c g = rw (f, c, g)

-- The model of a course does not know whether the course is closed: for the model of any course,
-- joining, leaving and updating a group end the same way, and write the same, as for the model of
-- the course closed.
pub new_course_forgets_closed :
    (entity : CourseEntity) (group : Group) (participant selected : Participant)
    (text : Option String) (update : GroupUpdateDto) (db : Database)
    → let course = new_course entity in
      let closed = new_course (record entity { is_closed = true }) in
      (add_user_to_group course group participant selected text db
        ≡ add_user_to_group closed group participant selected text db)
      × (remove_user course group participant selected text db
          ≡ remove_user closed group participant selected text db)
      × (update_group course group update db ≡ update_group closed group update db)
unfolding new_course with_settings add_user_to_group remove_user update_group course_is_not_closed
    allows_self_managed_groups allows_group_to_close allows_group_to_rename
new_course_forgets_closed entity group participant selected text update db = (refl, refl, refl)
