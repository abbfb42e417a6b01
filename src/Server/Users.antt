-- ===== src/Server/Users.antt =====
-- internal/server/routes.go: the handlers of accounts, HandleCreateUser to HandleDeleteUser,
-- HandleChangePassword and HandleLogin. A body that does not decode is `none`, and so is an id in the
-- path that is no number; ids are not negative. A handler returns its answer and the system database.
pub mod Guards
pub mod Roles
mod Tests
use spark_db.Prelude.{
  ℕ, String, Bool, true, false, not, ◌||◌, List, [], ◌∷◌, map, Option, none, some, Error, errorf,
  Result, ok, err, str_eq, ◌==◌, if◌then◌else◌,
}
use spark_db.Text.{Text, is_empty}
use spark_db.Rbac.{has_permission, perm_create_user, parse_role}
use spark_db.Database.System.{User, SystemDb}
use spark_db.Database.System.Users.{list_users}
use spark_db.Auth.Strength.{validate_password_strength}
use spark_db.Auth.Authenticator.{
  Services, Authenticator, AuthUser, LoginRequest, LoginResponse, login,
}
use spark_db.Auth.Accounts.{
  create_user, update_user_role, update_username, update_user_password, change_own_password,
  delete_user,
}

pub record UserView : Type 0 where
  pub id : ℕ
  pub username : String
  pub role : String
  pub created_at : ℕ
  pub locked_until : Option ℕ

pub record CreateUserResponse : Type 0 where
  pub id : ℕ
  pub username : String
  pub role : String

pub data Body : Type 0 where
  error_body : Error → Body
  message_body : String → Body
  user_body : CreateUserResponse → Body
  users_body : List UserView → Body
  login_body : LoginResponse → Body

pub record Answer : Type 0 where
  pub status : ℕ
  pub body : Body

abbrev pub refuse : ℕ → String → Answer
refuse status message = record { status = status; body = Body.error_body (errorf message) }

abbrev pub fail : ℕ → Error → Answer
fail status e = record { status = status; body = Body.error_body e }

abbrev pub done : String → Answer
done message = record { status = 200; body = Body.message_body message }

abbrev pub view : User → UserView
view u = record {
  id = u.id;
  username = u.username;
  role = u.role;
  created_at = u.created_at;
  locked_until = u.locked_until;
}

-- the answer to a result that is a user, or to one that is none
abbrev pub user_answer : ℕ → Result User → Answer
user_answer status (ok u) = record {
  status = status;
  body = Body.user_body (record { id = u.id; username = u.username; role = u.role });
}
user_answer status (err e) = fail 500 e

abbrev pub done_answer : String → Result (Unit {0}) → Answer
done_answer message (ok _) = done message
done_answer message (err e) = fail 500 e

-- `user != nil && HasPermission(role, PermCreateUser)`
unfoldable pub may_manage : Option AuthUser → Bool
may_manage none = false
may_manage (some u) = has_permission u.role perm_create_user

abbrev pub known_role : String → Bool
known_role role = elim (parse_role role) [ none ↦ false | some r ↦ true ]

abbrev pub invalid_role : Answer
invalid_role = refuse 400 "invalid role; must be one of: admin, developer, readonly, auditor"

pub record NewUser : Type 0 where
  pub username : String
  pub password : Text
  pub role : String

abbrev pub incomplete : NewUser → Bool
incomplete req = str_eq req.username "" || (is_empty req.password || str_eq req.role "")

-- the handlers of administrators, with what they take from the path and the body
pub data UserRequest : Type 0 where
  create : Option NewUser → UserRequest
  list : UserRequest
  set_role : Option ℕ → Option String → UserRequest
  set_username : Option ℕ → Option String → UserRequest
  set_password : Option ℕ → Option Text → UserRequest
  delete : Option ℕ → UserRequest

-- whose accounts a request is about, in its refusal
abbrev pub forbidden : UserRequest → Answer
forbidden (create req) = refuse 403 "only admins can create users"
forbidden list = refuse 403 "only admins can list users"
forbidden (delete id) = refuse 403 "only admins can delete users"
forbidden _ = refuse 403 "only admins can modify users"

abbrev pub invalid_body : Answer
invalid_body = refuse 400 "invalid request body"

abbrev pub invalid_id : Answer
invalid_id = refuse 400 "invalid user id"

module _ (s : Services) where
  unfoldable pub handle_create : ℕ → Option NewUser → SystemDb → Answer × SystemDb
  handle_create now none db = (invalid_body, db)
  handle_create now (some req) db =
      let (r, db') = create_user s now req.username req.password req.role db in
      if incomplete req
      then (refuse 400 "username, password, and role are required", db)
      else if not (known_role req.role)
      then (invalid_role, db)
      else (user_answer 201 r, db')

  unfoldable pub handle_set_role : Option ℕ → Option String → SystemDb → Answer × SystemDb
  handle_set_role none body db = (invalid_id, db)
  handle_set_role (some id) none db = (invalid_body, db)
  handle_set_role (some id) (some role) db =
      let (r, db') = update_user_role s id role db in
      if known_role role then (user_answer 200 r, db') else (invalid_role, db)

  unfoldable pub handle_set_username : Option ℕ → Option String → SystemDb → Answer × SystemDb
  handle_set_username none body db = (invalid_id, db)
  handle_set_username (some id) none db = (invalid_body, db)
  handle_set_username (some id) (some username) db =
      let (r, db') = update_username s id username db in
      if str_eq username ""
      then (refuse 400 "username is required", db)
      else (user_answer 200 r, db')

  unfoldable pub handle_set_password : Option ℕ → Option Text → SystemDb → Answer × SystemDb
  handle_set_password none body db = (invalid_id, db)
  handle_set_password (some id) none db = (invalid_body, db)
  handle_set_password (some id) (some password) db = elim (validate_password_strength password) [
    | some e ↦ (refuse 400 e, db)
    | none ↦
        let (r, db') = update_user_password s id password db in
        (done_answer "password updated" r, db')
  ]

  unfoldable pub handle_delete : Option AuthUser → Option ℕ → SystemDb → Answer × SystemDb
  handle_delete none id db = (refuse 403 "only admins can delete users", db)
  handle_delete (some u) none db = (invalid_id, db)
  handle_delete (some u) (some id) db =
      let (r, db') = delete_user id db in
      if id == u.id
      then (refuse 400 "cannot delete yourself", db)
      else (done_answer "user deleted" r, db')

  unfoldable pub run_user_request : ℕ → Option AuthUser → UserRequest → SystemDb → Answer × SystemDb
  run_user_request now user (create req) db = handle_create now req db
  run_user_request now user list db =
      (record { status = 200; body = Body.users_body (map view (list_users db)) }, db)
  run_user_request now user (set_role id role) db = handle_set_role id role db
  run_user_request now user (set_username id username) db = handle_set_username id username db
  run_user_request now user (set_password id password) db = handle_set_password id password db
  run_user_request now user (delete id) db = handle_delete user id db

  unfoldable pub handle_user_request :
      ℕ → Option AuthUser → UserRequest → SystemDb → Answer × SystemDb
  handle_user_request now user req db =
      if may_manage user then run_user_request now user req db else (forbidden req, db)

  -- HandleChangePassword; the body holds the old and the new password
  unfoldable pub handle_change_password :
      Option AuthUser → Option (Text × Text) → SystemDb → Answer × SystemDb
  handle_change_password none body db = (refuse 401 "unauthorized", db)
  handle_change_password (some u) none db = (invalid_body, db)
  handle_change_password (some u) (some (old, password)) db =
      let (r, db') = change_own_password s u.id old password db in
      if is_empty old || is_empty password
      then (refuse 400 "old_password and new_password are required", db)
      else elim r [ ok _ ↦ (done "password changed", db') | err e ↦ (fail 400 e, db') ]

  -- HandleLogin
  unfoldable pub handle_login : ℕ → Option LoginRequest → Authenticator → Answer × Authenticator
  handle_login now none a = (invalid_body, a)
  handle_login now (some req) a =
      let (r, a') = login s now req a in
      if str_eq req.username "" || is_empty req.password
      then (refuse 400 "username and password are required", a)
      else elim r [
        | ok res ↦ (record { status = 200; body = Body.login_body res }, a')
        | err e ↦ (fail 401 e, a')
      ]
