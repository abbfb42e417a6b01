-- ===== src/Auth/Accounts/Passwords.antt =====
-- Changing and resetting passwords, creating accounts, and the first administrator.
use spark_db.Prelude.{
  ℕ, String, ◌≡◌, refl, true, false, arith, none, ok, err, ◌>>=◌, Error, Result-cases, inl, inr,
  ◌==◌, if◌then◌else◌,
}
use spark_db.Text.{Text, codes}
use spark_db.Database.System.{User, SystemDb}
use spark_db.Database.System.Users
use spark_db.Database.System.Users.{get_user, get_user_by_username}
use spark_db.Database.System.Users.Consistency.{IsConsistent}
use spark_db.Database.System.Users.Rows.{get_user-password, create_user-found}
use spark_db.Auth.Authenticator.{Services, verified}
use spark_db.Auth.Strength.{validate_password_strength}
use spark_db.Auth.Accounts.{update_user_password, change_own_password, ensure_default_admin}

module _ (s : Services) where
  -- What a successful change of the own password says.
  pub record Changed (id : ℕ) (old new : Text) (db db' : SystemDb) : Type 0 where
    pub row : User
    pub hash : String
    pub found : get_user id db ≡ ok row
    pub right : verified (s.verify_password old row.password_hash) ≡ true
    pub strong : validate_password_strength new ≡ none
    pub hashed : s.hash_password new ≡ ok hash
    pub stored :
        get_user id db' ≡ ok (record row { password_hash = hash; password_change_required = false })

  at_user :
      (id : ℕ) (hash : String) (db : SystemDb) (u : User)
      → get_user id db ≡ ok u
      → get_user id (Users.update_user_password id hash db)
        ≡ ok (record u { password_hash = hash; password_change_required = false })
  at_user id hash db u found = ground (arith, (get_user-password id id hash false db).0)

  -- A user changes the own password only with the old one and to one that meets the policy, and then
  -- the new hash is stored and the flag is cleared.
  pub change_own_password-Changed :
      (id : ℕ) (old new : Text) (db : SystemDb)
      → (change_own_password s id old new db).0 ≡ ok tt
      → Changed id old new db (change_own_password s id old new db).1
  unfolding change_own_password
  change_own_password-Changed id old new db h = elim (Result-cases (get_user id db)) [
    | inl (u, found) ↦ elim (Result-cases (s.hash_password new)) [
      | inl (hash, hashed) ↦
          let right : verified (s.verify_password old u.password_hash) ≡ true = ground arith in
          let strong : validate_password_strength new ≡ none = ground arith in
          record {
            row = u;
            hash = hash;
            found = found;
            right = right;
            strong = strong;
            hashed = hashed;
            stored = rw (found, right, strong, hashed) (at_user id hash db u found);
          }
      | inr (e, failed) ↦ absurd (ground arith)
    ]
    | inr (e, missing) ↦ absurd (ground arith)
  ]

  -- A failed change of the own password leaves the database as it was.
  pub failed_changes_nothing :
      (id : ℕ) (old new : Text) (db : SystemDb) (e : Error)
      → (change_own_password s id old new db).0 ≡ err e
      → (change_own_password s id old new db).1 ≡ db
  unfolding change_own_password
  failed_changes_nothing id old new db e h = ground arith

  -- After an administrator's reset the stored hash is that of the new password and the user has to
  -- change it; every other user is as before.
  pub reset_password :
      (id j : ℕ) (password : Text) (db : SystemDb) (hash : String)
      → s.hash_password password ≡ ok hash
      → get_user j (update_user_password s id password db).1 ≡ (
          get_user j db >>= λ u. ok (
            if j == id
            then record u { password_hash = hash; password_change_required = true }
            else u))
  unfolding update_user_password
  reset_password id j password db hash hashed =
      let db' = Users.update_user_password id hash db in
      rw hashed (
        ground (
          arith,
          (get_user-password id j hash true db).0,
          (get_user-password id j hash true db').1,
        ))

  admin_kept :
      (now : ℕ) (db : SystemDb) (u : User)
      → get_user_by_username "admin" db ≡ ok u
      → ensure_default_admin s now db ≡ (ok tt, db)
  unfolding ensure_default_admin
  admin_kept now db u found = rw (found, ensure_default_admin) refl

  admin_created :
      (now : ℕ) (db : SystemDb)
      → IsConsistent db
      → (ensure_default_admin s now db).0 ≡ ok tt
      → (u : User) × (get_user_by_username "admin" (ensure_default_admin s now db).1 ≡ ok u)
  unfolding ensure_default_admin
  admin_created now db c h = elim (Result-cases (get_user_by_username "admin" db)) [
    | inl (u, found) ↦ (u, rw (admin_kept now db u found) found)
    | inr (e, missing) ↦ elim (Result-cases (s.hash_password (codes "admin"))) [
      | inl (hash, hashed) ↦ elim (Result-cases (Users.create_user now "admin" hash "admin" db).0) [
        | inl (u, made) ↦ (
          u,
          rw (missing, hashed, ensure_default_admin)
              (create_user-found now 0 "admin" hash "admin" db u c made).1,
        )
        | inr (e', failed) ↦ absurd (ground arith)
      ]
      | inr (e', failed) ↦ absurd (ground arith)
    ]
  ]

  -- After `ensure_default_admin` succeeds there is a user called admin; a second run, at any time,
  -- changes nothing.
  pub ensure_default_admin_idem :
      (now later : ℕ) (db : SystemDb)
      → IsConsistent db
      → (ensure_default_admin s now db).0 ≡ ok tt
      → ((u : User) × (get_user_by_username "admin" (ensure_default_admin s now db).1 ≡ ok u))
        × (ensure_default_admin s later (ensure_default_admin s now db).1
            ≡ (ok tt, (ensure_default_admin s now db).1))
  ensure_default_admin_idem now later db c h =
      let (u, found) = admin_created now db c h in
      ((u, found), admin_kept later (ensure_default_admin s now db).1 u found)
