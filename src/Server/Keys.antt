-- ===== src/Server/Keys.antt =====
-- internal/server/routes.go: the handlers of API keys, HandleListAPIKeys to HandleCreateAPIKey and
-- HandleRevealAPIKey. A body that does not decode is `none`; ids are not negative. `random` and
-- `nonce` are what crypto/rand returns.
pub mod Access
mod Tests
use spark_db.Prelude.{
  ℕ, String, Bool, true, false, not, List, [], ◌∷◌, map, Option, none, some, Error, errorf, Result,
  ok, err, str_eq, if◌then◌else◌,
}
use spark_db.Text.{Text, is_empty}
use spark_db.Disk.{Bytes}
use spark_db.Encryption.Cipher.{Aead}
use spark_db.Rbac.{has_permission, perm_backup}
use spark_db.Database.System.{ApiKey, SystemDb}
use spark_db.Database.System.Credentials.{list_api_keys, delete_api_key}
use spark_db.Auth.Authenticator.{Services, AuthUser}
use spark_db.Auth.ApiKeys.{generate_api_key, reveal_api_key}

-- the fields of `APIKey` that its JSON holds
pub record ApiKeyView : Type 0 where
  pub id : ℕ
  pub user_id : ℕ
  pub name : String
  pub prefix : Text
  pub created_at : ℕ
  pub expires_at : Option ℕ

abbrev pub view : ApiKey → ApiKeyView
view k = record {
  id = k.id;
  user_id = k.user_id;
  name = k.name;
  prefix = k.prefix;
  created_at = k.created_at;
  expires_at = k.expires_at;
}

pub data Body : Type 0 where
  error_body : Error → Body
  message_body : String → Body
  keys_body : List ApiKeyView → Body
  key_body : Text → String → Body

pub record Answer : Type 0 where
  pub status : ℕ
  pub body : Body

abbrev pub refuse : ℕ → String → Answer
refuse status message = record { status = status; body = Body.error_body (errorf message) }

-- `r.PathValue("id")`, scanned as a number
pub data PathId : Type 0 where
  missing : PathId
  malformed : PathId
  number : ℕ → PathId

pub data KeyRequest : Type 0 where
  list : KeyRequest
  delete : PathId → KeyRequest
  create : Option String → KeyRequest
  -- the body's password
  reveal : PathId → Option Text → KeyRequest

-- `user != nil && HasPermission(role, PermBackup)`
unfoldable pub may_manage_keys : Option AuthUser → Bool
may_manage_keys none = false
may_manage_keys (some u) = has_permission u.role perm_backup

abbrev pub user_id_of : Option AuthUser → ℕ
user_id_of none = 0
user_id_of (some u) = u.id

abbrev pub key_answer : Result Text × SystemDb → ℕ → String → ℕ → Answer × SystemDb
key_answer (ok raw, db) status name failure =
    (record { status = status; body = Body.key_body raw name }, db)
key_answer (err e, db) status name failure =
    (record { status = failure; body = Body.error_body e }, db)

unfoldable pub handle_delete_key : PathId → SystemDb → Answer × SystemDb
handle_delete_key missing db = (refuse 400 "id is required", db)
handle_delete_key malformed db = (refuse 400 "invalid id", db)
handle_delete_key (number id) db =
    (record { status = 200; body = Body.message_body "API key deleted" }, delete_api_key id db)

module _ (s : Services) (a : Aead) (sha256 : Text → Bytes) (secret : Text) where
  unfoldable pub handle_create_key :
      Result Bytes
      → Result Bytes
      → ℕ
      → Option AuthUser
      → Option String
      → SystemDb
      → Answer × SystemDb
  handle_create_key random nonce now user none db = (refuse 400 "invalid request body", db)
  handle_create_key random nonce now user (some name) db =
      if str_eq name ""
      then (refuse 400 "name is required", db)
      else key_answer
          (generate_api_key s a sha256 random nonce now secret (user_id_of user) name db) 201 name
          500

  unfoldable pub handle_reveal_key :
      Option AuthUser → PathId → Option Text → SystemDb → Answer × SystemDb
  handle_reveal_key none id password db = (refuse 401 "unauthorized", db)
  handle_reveal_key (some u) (number id) (some password) db =
      if is_empty password
      then (refuse 400 "password is required", db)
      else key_answer (reveal_api_key s a sha256 id password secret db, db) 200 "" 401
  handle_reveal_key (some u) (number id) none db = (refuse 400 "invalid request body", db)
  handle_reveal_key (some u) _ password db = (refuse 400 "invalid id", db)

  unfoldable pub handle_key_request :
      Result Bytes → Result Bytes → ℕ → Option AuthUser → KeyRequest → SystemDb → Answer × SystemDb
  handle_key_request random nonce now user list db =
      if may_manage_keys user
      then (record { status = 200; body = Body.keys_body (map view (list_api_keys db)) }, db)
      else (refuse 403 "only admins can list API keys", db)
  handle_key_request random nonce now user (delete id) db =
      if may_manage_keys user
      then handle_delete_key id db
      else (refuse 403 "only admins can delete API keys", db)
  handle_key_request random nonce now user (create name) db =
      if may_manage_keys user
      then handle_create_key random nonce now user name db
      else (refuse 403 "only admins can create API keys", db)
  handle_key_request random nonce now user (reveal id password) db =
      handle_reveal_key user id password db
