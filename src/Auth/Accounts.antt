-- ===== src/Auth/Accounts.antt =====
-- internal/auth/auth.go: the methods of `Authenticator` that change accounts. Each returns its
-- result and the system database that it leaves.
pub mod Passwords
mod Tests
use spark_db.Prelude.{
  ℕ, String, Bool, true, false, Option, none, some, Result, ok, err, ◌>>=◌, wrap, errorf,
  if◌then◌else◌,
}
use spark_db.Text.{Text, codes}
use spark_db.Database.System.{User, SystemDb}
use spark_db.Database.System.Users
use spark_db.Database.System.Users.{get_user, get_user_by_username}
use spark_db.Auth.Authenticator.{Services, verified}
use spark_db.Auth.Strength.{validate_password_strength}

-- A call that fails before it changes anything.
abbrev attempt {ℓ κ} :
    {A : Type ℓ} {B : Type κ}
    → Result A
    → (A → SystemDb → Result B × SystemDb)
    → SystemDb
    → Result B × SystemDb
attempt (ok a) f db = f a db
attempt (err e) f db = (err e, db)

-- the error of a check that gives a message, or none
abbrev checked : Option String → Result (Unit {0})
checked none = ok tt
checked (some e) = err (errorf e)

module _ (s : Services) where
  unfoldable pub create_user : ℕ → String → Text → String → SystemDb → Result User × SystemDb
  create_user now username password role =
      attempt (checked (validate_password_strength password)) λ _.
        attempt (wrap "hash password" (s.hash_password password))
          λ hash. Users.create_user now username hash role

  unfoldable pub update_user_role : ℕ → String → SystemDb → Result User × SystemDb
  update_user_role id role db =
      let db' = Users.update_user_role id role db in (get_user id db', db')

  unfoldable pub update_username : ℕ → String → SystemDb → Result User × SystemDb
  update_username id username db =
      let (r, db') = Users.update_username id username db in
      attempt (wrap "update username" r) (λ _ d. (get_user id d, d)) db'

  unfoldable pub update_user_password : ℕ → Text → SystemDb → Result (Unit {0}) × SystemDb
  update_user_password id password =
      attempt (wrap "hash password" (s.hash_password password)) λ hash db.
        (ok tt, Users.set_password_change_required id true (Users.update_user_password id hash db))

  unfoldable pub change_own_password : ℕ → Text → Text → SystemDb → Result (Unit {0}) × SystemDb
  change_own_password id old_password new_password db =
      attempt (wrap "get user" (get_user id db))
        (λ u d.
          if verified (s.verify_password old_password u.password_hash)
          then attempt (checked (validate_password_strength new_password))
              (λ _.
                attempt (wrap "hash password" (s.hash_password new_password))
                  λ hash d'. (ok tt, Users.update_user_password id hash d'))
              d
          else (err (errorf "current password is incorrect"), d))
        db

  unfoldable pub ensure_default_admin : ℕ → SystemDb → Result (Unit {0}) × SystemDb
  ensure_default_admin now db = elim (get_user_by_username "admin" db) [
    | ok u ↦ (ok tt, db)
    | err e ↦
        attempt (wrap "hash default password" (s.hash_password (codes "admin")))
          (λ hash d.
            let (r, d') = Users.create_user now "admin" hash "admin" d in ((do u ← r; ok tt), d'))
          db
  ]

unfoldable pub delete_user : ℕ → SystemDb → Result (Unit {0}) × SystemDb
delete_user id db = (ok tt, Users.delete_user id db)
