-- ===== src/Access/Login.antt =====
-- `getOrCreateUser` of auth/services/auth.service.ts, on the users that are stored.
use stu_mgmt_service.Prelude.{
  ◌≡◌, refl, inl, inr, String, string_eq, option_eq, Bool, not, ◌||◌, ◌===◌, ===_eq, Bool-cases,
  Option-cases, List, [], ◌∷◌, ◌++◌, Option, none, some, if◌then◌else◌, find_by, update_by,
}
use mathlib.Core.Option.{some-injective}
use stu_mgmt_service.Groups.Models.{is_set}
use stu_mgmt_service.Enrolment.{UserRole}
use stu_mgmt_service.Access.{determine_role}

pub record User : Type 0 where
  pub id : String
  pub username : String
  pub email : String
  pub display_name : String
  pub role : UserRole

-- What the identity provider tells of a user.
pub record Identity : Type 0 where
  pub username : String
  pub full_name : Option String
  pub roles : List String
  pub email : String

unfoldable pub user_info_has_changed : User → Identity → Bool
user_info_has_changed user identity =
    not (user.email === identity.email) || not (some user.display_name === identity.full_name)

-- The user with the provider's email and name.
unfoldable pub updated_user : User → Identity → User
updated_user user identity = record user {
  email = identity.email;
  display_name = elim identity.full_name [ none ↦ user.username | some name ↦ name ];
}

-- The account of a user who is new here.
unfoldable pub new_user : String → Identity → User
unfolding is_set determine_role
new_user new_id identity = record {
  id = new_id;
  username = identity.username;
  email = identity.email;
  display_name = elim identity.full_name [
    | none ↦ identity.username
    | some name ↦ if is_set (some name) then name else identity.username
  ];
  role = determine_role identity.roles;
}

-- The user who logs in, and the users afterwards.
unfoldable pub look_up : String → Identity → List User → Option User → User × List User
unfolding user_info_has_changed updated_user new_user
look_up new_id identity users none =
    (new_user new_id identity, users ++ new_user new_id identity ∷ [])
look_up new_id identity users (some user) =
    if user_info_has_changed user identity
    then (
      updated_user user identity,
      update_by (λ u. u.id === user.id) (updated_user user identity) users,
    )
    else (user, users)

unfoldable pub find_user : String → List User → Option User
find_user username users = find_by (λ u. u.username === username) users

unfoldable pub get_or_create_user : String → Identity → List User → User × List User
unfolding look_up find_user
get_or_create_user new_id identity users =
    look_up new_id identity users (find_user identity.username users)

-- The role that a user has, or would get.
abbrev pub role_before : Identity → Option User → UserRole
role_before identity none = determine_role identity.roles
role_before identity (some user) = user.role

found_username :
    (username : String) (users : List User) (user : User)
    → find_user username users ≡ some user
    → user.username ≡ username
unfolding find_user
found_username username [] user e = absurd (missing e)
  where
    missing : ◌≡◌ {A = Option User} none (some user) → ⊥
    missing k = cc
found_username username (u ∷ us) user e = elim (Bool-cases (u.username === username)) [
  | inl h ↦ let same = some-injective _ _ (rw h at e) in rw same at (===_eq u.username username h)
  | inr h ↦ found_username username us user (rw h at e)
]

-- Whoever logs in is the user with the provider's username and email; the role of a user who is
-- known stays, whatever roles the provider names, and that of a new user is the one determined.
pub get_or_create_user-identity :
    (new_id : String) (identity : Identity) (users : List User)
    → let user = (get_or_create_user new_id identity users).0 in
      (user.username ≡ identity.username)
      × (user.email ≡ identity.email)
      × (user.role ≡ role_before identity (find_user identity.username users))
unfolding get_or_create_user look_up user_info_has_changed updated_user new_user
get_or_create_user-identity new_id identity users =
    elim (Option-cases (find_user identity.username users)) [
      | inl n ↦ rw n (refl, refl, refl)
      | inr (user, f) ↦
          let name = found_username identity.username users user f in
          elim (Bool-cases (user.email === identity.email)) [
            | inr e ↦ rw (f, e) (name, refl, refl)
            | inl e ↦ elim (Bool-cases (some user.display_name === identity.full_name)) [
              | inl d ↦ rw (f, e, d) (name, ===_eq user.email identity.email e, refl)
              | inr d ↦ rw (f, e, d) (name, refl, refl)
            ]
          ]
    ]
