-- ===== src/Database/System/Users.antt =====
-- internal/database/system.go: the statements over the table `users`.
pub mod Consistency
pub mod Rows
mod Tests
use spark_db.Prelude.{
  ℕ, ◌+◌, String, Bool, true, false, ◌&&◌, not, List, [], ◌∷◌, ◌++◌, map, Option, none, some, ◌==◌,
  str_eq, find, any, filter, update_where, Result, ok, err, wrap, no_rows, reported, if◌then◌else◌,
}
use spark_db.Database.System.{User, SystemDb}

abbrev pub has_id : ℕ → User → Bool
has_id id u = u.id == id

abbrev pub has_name : String → User → Bool
has_name name u = str_eq u.username name

-- `row.Scan`
abbrev pub scan {ℓ} : {A : Type ℓ} → Option A → Result A
scan none = err no_rows
scan (some a) = ok a

unfoldable pub get_user : ℕ → SystemDb → Result User
get_user id db = wrap "get user" (scan (find (has_id id) db.users))

unfoldable pub get_user_by_username : String → SystemDb → Result User
get_user_by_username username db = wrap "get user" (scan (find (has_name username) db.users))

abbrev pub without_hash : User → User
without_hash u = record u { password_hash = "" }

-- The query of `ListUsers` does not read the password hash.
unfoldable pub list_users : SystemDb → List User
list_users db = map without_hash db.users

abbrev pub new_user : ℕ → ℕ → String → String → String → User
new_user now id username hash role = record {
  id = id;
  username = username;
  password_hash = hash;
  role = role;
  created_at = now;
  locked_until = none;
  password_change_required = true;
}

unfoldable pub create_user : ℕ → String → String → String → SystemDb → Result User × SystemDb
create_user now username hash role db =
    let db' : SystemDb = record db {
      users = db.users ++ new_user now db.next_user username hash role ∷ [];
      next_user = db.next_user + 1;
    } in
    if any (has_name username) db.users
    then (wrap "create user" (err (reported "UNIQUE constraint failed: users.username")), db)
    else (get_user db.next_user db', db')

-- `UPDATE users SET … WHERE …`
abbrev pub set_users : (User → Bool) → (User → User) → SystemDb → SystemDb
set_users p f db = record db { users = update_where p f db.users }

unfoldable pub lock_user : ℕ → String → ℕ → SystemDb → SystemDb
lock_user now username duration =
    set_users (has_name username) (λ u. record u { locked_until = some (now + duration) })

unfoldable pub unlock_user : String → SystemDb → SystemDb
unlock_user username = set_users (has_name username) (λ u. record u { locked_until = none })

unfoldable pub update_user_role : ℕ → String → SystemDb → SystemDb
update_user_role id role = set_users (has_id id) (λ u. record u { role = role })

-- Another row with the new name violates the constraint, if there is a row to update.
abbrev pub is_taken : ℕ → String → List User → Bool
is_taken id username users =
    any (has_id id) users && any (λ u. has_name username u && not (has_id id u)) users

unfoldable pub update_username : ℕ → String → SystemDb → Result (Unit {0}) × SystemDb
update_username id username db =
    if is_taken id username db.users
    then (err (reported "UNIQUE constraint failed: users.username"), db)
    else (ok tt, set_users (has_id id) (λ u. record u { username = username }) db)

unfoldable pub update_user_password : ℕ → String → SystemDb → SystemDb
update_user_password id hash =
    set_users (has_id id) (λ u. record u { password_hash = hash; password_change_required = false })

unfoldable pub set_password_change_required : ℕ → Bool → SystemDb → SystemDb
set_password_change_required id required =
    set_users (has_id id) (λ u. record u { password_change_required = required })

unfoldable pub delete_user : ℕ → SystemDb → SystemDb
delete_user id db = record db { users = filter (λ u. not (has_id id u)) db.users }
