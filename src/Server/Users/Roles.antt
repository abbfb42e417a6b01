-- ===== src/Server/Users/Roles.antt =====
-- Managing accounts keeps every stored role a known one.
use spark_db.Prelude.{
  ℕ, ◌≡◌, String, true, inl, inr, Bool-cases, Option-cases, Result-cases, Option, none, some, arith,
  [], ◌∷◌, All, All-append, All-filter, All-update_where, any, str_eq, ◌==◌,
}
use spark_db.Text.{Text}
use spark_db.Rbac.{parse_role}
use spark_db.Database.System.{SystemDb}
use spark_db.Database.System.Users
use spark_db.Database.System.Users.{has_id, has_name, new_user, is_taken}
use spark_db.Auth.Strength.{validate_password_strength}
use spark_db.Auth.Authenticator.{Services, AuthUser}
use spark_db.Auth.Accounts.{
  create_user, update_user_role, update_username, update_user_password, delete_user,
}
use spark_db.Server.Users.{
  UserRequest, create, list, set_role, set_username, set_password, delete, NewUser, may_manage,
  known_role, incomplete, handle_create, handle_set_role, handle_set_username, handle_set_password,
  handle_delete, run_user_request, handle_user_request,
}

-- Every stored role is one that `parse_role` knows.
abbrev pub RolesKnown : SystemDb → Type 0
RolesKnown db = All (λ u. parse_role u.role ≡ some u.role) db.users

known_role-parse_role : (role : String) → known_role role ≡ true → parse_role role ≡ some role
unfolding parse_role
known_role-parse_role role h = ground arith

create-RolesKnown :
    (now : ℕ) (name hash role : String) (db : SystemDb)
    → known_role role ≡ true
    → RolesKnown db
    → RolesKnown (Users.create_user now name hash role db).1
unfolding Users.create_user
create-RolesKnown now name hash role db k h = elim (Bool-cases (any (has_name name) db.users)) [
  | inl taken ↦ rw taken h
  | inr free ↦ rw free (
      All-append _ db.users (new_user now db.next_user name hash role ∷ []) h
        (known_role-parse_role role k, tt))
]

module _ (s : Services) where
  handle_create-RolesKnown :
      (now : ℕ) (req : Option NewUser) (db : SystemDb)
      → RolesKnown db
      → RolesKnown (handle_create s now req db).1
  unfolding handle_create create_user
  handle_create-RolesKnown now none db h = h
  handle_create-RolesKnown now (some req) db h = elim (Bool-cases (incomplete req)) [
    | inl e ↦ rw e h
    | inr e ↦ elim (Bool-cases (known_role req.role)) [
      | inr unknown ↦ rw (e, unknown) h
      | inl known ↦ elim (Option-cases (validate_password_strength req.password)) [
        | inr (m, weak) ↦ rw (e, known, weak) h
        | inl strong ↦ elim (Result-cases (s.hash_password req.password)) [
          | inl (hash, hashed) ↦
              rw (e, known, strong, hashed)
                (create-RolesKnown now req.username hash req.role db known h)
          | inr (failure, failed) ↦ rw (e, known, strong, failed) h
        ]
      ]
    ]
  ]

  set_role-RolesKnown :
      (id : ℕ) (role : String) (db : SystemDb)
      → known_role role ≡ true
      → RolesKnown db
      → RolesKnown (Users.update_user_role id role db)
  unfolding Users.update_user_role
  set_role-RolesKnown id role db k h =
      All-update_where _ (has_id id) _ db.users (λ u same. known_role-parse_role role k) h

  handle_set_role-RolesKnown :
      (id : Option ℕ) (role : Option String) (db : SystemDb)
      → RolesKnown db
      → RolesKnown (handle_set_role s id role db).1
  unfolding handle_set_role update_user_role
  handle_set_role-RolesKnown none role db h = h
  handle_set_role-RolesKnown (some id) none db h = h
  handle_set_role-RolesKnown (some id) (some role) db h = elim (Bool-cases (known_role role)) [
    | inl known ↦ rw known (set_role-RolesKnown id role db known h)
    | inr unknown ↦ rw unknown h
  ]

  handle_set_username-RolesKnown :
      (id : Option ℕ) (name : Option String) (db : SystemDb)
      → RolesKnown db
      → RolesKnown (handle_set_username s id name db).1
  unfolding handle_set_username update_username Users.update_username
  handle_set_username-RolesKnown none name db h = h
  handle_set_username-RolesKnown (some id) none db h = h
  handle_set_username-RolesKnown (some id) (some name) db h = elim (Bool-cases (str_eq name "")) [
    | inl e ↦ rw e h
    | inr e ↦ elim (Bool-cases (is_taken id name db.users)) [
      | inl taken ↦ rw (e, taken) h
      | inr free ↦ rw (e, free) (All-update_where _ (has_id id) _ db.users (λ u same. same) h)
    ]
  ]

  handle_set_password-RolesKnown :
      (id : Option ℕ) (password : Option Text) (db : SystemDb)
      → RolesKnown db
      → RolesKnown (handle_set_password s id password db).1
  unfolding handle_set_password update_user_password Users.update_user_password
      Users.set_password_change_required
  handle_set_password-RolesKnown none password db h = h
  handle_set_password-RolesKnown (some id) none db h = h
  handle_set_password-RolesKnown (some id) (some password) db h =
      elim (Option-cases (validate_password_strength password)) [
        | inr (m, weak) ↦ rw (handle_set_password, weak) h
        | inl strong ↦ elim (Result-cases (s.hash_password password)) [
          | inl (hash, hashed) ↦
              rw (handle_set_password, strong, hashed)
                (All-update_where _ (has_id id) _ _ (λ u same. same)
                  (All-update_where _ (has_id id) _ db.users (λ u same. same) h))
          | inr (failure, failed) ↦ rw (handle_set_password, strong, failed) h
        ]
      ]

  handle_delete-RolesKnown :
      (user : Option AuthUser) (id : Option ℕ) (db : SystemDb)
      → RolesKnown db
      → RolesKnown (handle_delete s user id db).1
  unfolding handle_delete delete_user Users.delete_user
  handle_delete-RolesKnown none id db h = h
  handle_delete-RolesKnown (some u) none db h = h
  handle_delete-RolesKnown (some u) (some id) db h = elim (Bool-cases (id == u.id)) [
    | inl self ↦ rw self h
    | inr other ↦ rw other (All-filter _ _ db.users h)
  ]

  run_user_request-RolesKnown :
      (now : ℕ) (user : Option AuthUser) (req : UserRequest) (db : SystemDb)
      → RolesKnown db
      → RolesKnown (run_user_request s now user req db).1
  unfolding run_user_request
  run_user_request-RolesKnown now user (create req) db h = handle_create-RolesKnown now req db h
  run_user_request-RolesKnown now user list db h = h
  run_user_request-RolesKnown now user (set_role id role) db h =
      handle_set_role-RolesKnown id role db h
  run_user_request-RolesKnown now user (set_username id name) db h =
      handle_set_username-RolesKnown id name db h
  run_user_request-RolesKnown now user (set_password id password) db h =
      handle_set_password-RolesKnown id password db h
  run_user_request-RolesKnown now user (delete id) db h = handle_delete-RolesKnown user id db h

  -- Where every stored user has one of the four roles, every stored user still has one of them
  -- after a request to manage accounts, whatever the request and whoever makes it.
  pub handle_user_request-RolesKnown :
      (now : ℕ) (user : Option AuthUser) (req : UserRequest) (db : SystemDb)
      → RolesKnown db
      → RolesKnown (handle_user_request s now user req db).1
  unfolding handle_user_request
  handle_user_request-RolesKnown now user req db h = elim (Bool-cases (may_manage user)) [
    | inl e ↦ rw e (run_user_request-RolesKnown now user req db h)
    | inr e ↦ rw e h
  ]
