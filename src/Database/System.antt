-- ===== src/Database/System.antt =====
-- internal/database/system.go: the tables of the system database. A table is the list of its rows
-- in the order of their rowid; an AUTOINCREMENT counter is the next id to hand out. The statements
-- are run by SQLite, whose connection is taken to answer: the errors here are missing rows and
-- violated UNIQUE constraints.
pub mod Users
pub mod Examples
pub mod Credentials
pub mod ReplicationLog
pub mod AuditLog
use spark_db.Text.{Text}
use spark_db.Prelude.{ℕ, String, Bool, List, [], Option, none}

pub record User : Type 0 where
  pub id : ℕ
  pub username : String
  pub password_hash : String
  pub role : String
  pub created_at : ℕ
  pub locked_until : Option ℕ
  pub password_change_required : Bool

-- a row of `api_keys`: the fields of `APIKey`, and the hash that no query returns
pub record ApiKey : Type 0 where
  pub id : ℕ
  pub user_id : ℕ
  pub key_hash : String
  pub name : String
  pub prefix : Text
  pub created_at : ℕ
  pub expires_at : Option ℕ
  pub encrypted_key : Text

pub record Session : Type 0 where
  pub user_id : ℕ
  pub token : String
  pub expires_at : ℕ

pub record SystemDb : Type 0 where
  pub users : List User
  pub next_user : ℕ
  pub api_keys : List ApiKey
  pub next_key : ℕ
  pub sessions : List Session

abbrev pub empty_system_db : SystemDb
empty_system_db = record { users = []; next_user = 1; api_keys = []; next_key = 1; sessions = [] }
