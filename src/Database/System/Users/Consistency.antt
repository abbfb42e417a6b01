-- ===== src/Database/System/Users/Consistency.antt =====
-- The constraints of the table `users`: ids and names are distinct, and the counter is ahead.
use spark_db.Prelude.{
  ℕ, ◌<◌, String, ◌≡◌, ◌≢◌, refl, Bool, false, ◌&&◌, not, List, [], ◌∷◌, arith, ◌⊎◌, inl, inr,
  Bool-cases, eq_iff, ==_iff, any, update_where, All, All-append, All-map, All-filter,
  All-update_where, any-false, Apart, Apart-append, Apart-filter, Apart-update_where, if◌then◌else◌,
}
use spark_db.Database.System.{User, SystemDb}
use spark_db.Database.System.Users.{
  has_id, has_name, new_user, create_user, set_users, lock_user, unlock_user, update_user_role,
  is_taken, update_username, update_user_password, set_password_change_required, delete_user,
}

pub record IsConsistent (db : SystemDb) : Type 0 where
  pub ids_below : All (λ u. u.id < db.next_user) db.users
  pub ids_apart : Apart (λ (u : User). u.id) db.users
  pub names_apart : Apart (λ (u : User). u.username) db.users

-- A change of rows that keeps ids and names.
set_users-IsConsistent :
    (p : User → Bool) (f : User → User) (db : SystemDb)
    → ((u : User) → (f u).id ≡ u.id)
    → ((u : User) → (f u).username ≡ u.username)
    → IsConsistent db
    → IsConsistent (set_users p f db)
set_users-IsConsistent p f db ids names c = record {
  ids_below = All-update_where _ p f db.users (λ u h. rw (ids u) h) c.ids_below;
  ids_apart = Apart-update_where _ p f db.users ids c.ids_apart;
  names_apart = Apart-update_where _ p f db.users names c.names_apart;
}

create_user-IsConsistent :
    (now : ℕ) (name hash role : String) (db : SystemDb)
    → IsConsistent db
    → IsConsistent (create_user now name hash role db).1
unfolding create_user
create_user-IsConsistent now name hash role db c =
    elim (Bool-cases (any (has_name name) db.users)) [
      | inl taken ↦ rw taken c
      | inr free ↦
          let u = new_user now db.next_user name hash role in
          rw free (record {
            ids_below =
                All-append _ db.users (u ∷ [])
                  (All-map _ _ db.users (λ v h. omega arith) c.ids_below) (omega arith, tt);
            ids_apart =
                Apart-append _ db.users u c.ids_apart
                  (All-map _ _ db.users (λ v h. omega arith) c.ids_below);
            names_apart = Apart-append _ db.users u c.names_apart (
                All-map _ _ db.users (λ v h. ground (arith, eq_iff v.username name))
                  (any-false _ db.users free));
          })
    ]

delete_user-IsConsistent :
    (id : ℕ) (db : SystemDb) → IsConsistent db → IsConsistent (delete_user id db)
unfolding delete_user
delete_user-IsConsistent id db c = record {
  ids_below = All-filter _ _ db.users c.ids_below;
  ids_apart = Apart-filter _ _ db.users c.ids_apart;
  names_apart = Apart-filter _ _ db.users c.names_apart;
}

module _ (id : ℕ) (name : String) where
  abbrev rename : User → User
  rename u = record u { username = name }

  -- No row but that of `id` has the name.
  abbrev IsFree : List User → Type 0
  IsFree = All (λ u. (u.id ≡ id) ⊎ (u.username ≢ name))

  abbrev renamed : User → User
  renamed u = if has_id id u then rename u else u

  rename-All :
      (u : User) (users : List User)
      → (u.id ≡ id) ⊎ (u.username ≢ name)
      → All (λ y. y.id ≢ u.id) users
      → All (λ y. y.username ≢ u.username) users
      → IsFree users
      → All (λ y. y.username ≢ (renamed u).username) (update_where (has_id id) rename users)
  rename-All u [] free i n f = tt
  rename-All u (y ∷ users) free (i, is) (n, ns) (f, fs) =
      (ground (arith, ==_iff u.id id, ==_iff y.id id), rename-All u users free is ns fs)

  rename-Apart :
      (users : List User)
      → Apart (λ (u : User). u.id) users
      → Apart (λ (u : User). u.username) users
      → IsFree users
      → Apart (λ (u : User). u.username) (update_where (has_id id) rename users)
  rename-Apart [] i n f = tt
  rename-Apart (u ∷ users) (i, is) (n, ns) (f, fs) =
      (rename-All u users f i n fs, rename-Apart users is ns fs)

  update_where-none :
      (users : List User)
      → All (λ u. has_id id u ≡ false) users
      → update_where (has_id id) rename users ≡ users
  update_where-none [] h = refl
  update_where-none (u ∷ users) h = ground (arith, update_where-none users h.1)

  IsFree-of_any :
      (users : List User)
      → All (λ u. (has_name name u && not (has_id id u)) ≡ false) users
      → IsFree users
  IsFree-of_any users h =
      All-map _ _ users (λ u e. ground (arith, ==_iff u.id id, eq_iff u.username name)) h

  rename-names :
      (users : List User)
      → is_taken id name users ≡ false
      → Apart (λ (u : User). u.id) users
      → Apart (λ (u : User). u.username) users
      → Apart (λ (u : User). u.username) (update_where (has_id id) rename users)
  rename-names users free i n = elim (Bool-cases (any (has_id id) users)) [
    | inl e ↦ rename-Apart users i n (
        IsFree-of_any users
          (any-false (λ u. has_name name u && not (has_id id u)) users (ground arith)))
    | inr e ↦ rw (update_where-none users (any-false _ users e)) n
  ]

  update_username-IsConsistent :
      (db : SystemDb) → IsConsistent db → IsConsistent (update_username id name db).1
  unfolding update_username
  update_username-IsConsistent db c = elim (Bool-cases (is_taken id name db.users)) [
    | inl taken ↦ rw taken c
    | inr free ↦ rw free (record {
      ids_below = All-update_where _ (has_id id) rename db.users (λ u h. h) c.ids_below;
      ids_apart = Apart-update_where _ (has_id id) rename db.users (λ u. refl) c.ids_apart;
      names_apart = rename-names db.users free c.ids_apart c.names_apart;
    })
  ]

-- The statements that change the table.
pub data Statement : Type 0 where
  create : ℕ → String → String → String → Statement
  lock : ℕ → String → ℕ → Statement
  unlock : String → Statement
  set_role : ℕ → String → Statement
  set_username : ℕ → String → Statement
  set_password : ℕ → String → Statement
  require_change : ℕ → Bool → Statement
  delete : ℕ → Statement

pub run : Statement → SystemDb → SystemDb
run (create now name hash role) db = (create_user now name hash role db).1
run (lock now name duration) db = lock_user now name duration db
run (unlock name) db = unlock_user name db
run (set_role id role) db = update_user_role id role db
run (set_username id name) db = (update_username id name db).1
run (set_password id hash) db = update_user_password id hash db
run (require_change id required) db = set_password_change_required id required db
run (delete id) db = delete_user id db

-- Every statement of the program over `users`, failing or not, keeps ids and names distinct and the
-- counter ahead of every id.
pub run-IsConsistent : (s : Statement) (db : SystemDb) → IsConsistent db → IsConsistent (run s db)
unfolding run lock_user unlock_user update_user_role update_user_password
    set_password_change_required
run-IsConsistent (create now name hash role) db c = create_user-IsConsistent now name hash role db c
run-IsConsistent (lock now name duration) db c =
    set_users-IsConsistent _ _ db (λ u. refl) (λ u. refl) c
run-IsConsistent (unlock name) db c = set_users-IsConsistent _ _ db (λ u. refl) (λ u. refl) c
run-IsConsistent (set_role id role) db c = set_users-IsConsistent _ _ db (λ u. refl) (λ u. refl) c
run-IsConsistent (set_username id name) db c = update_username-IsConsistent id name db c
run-IsConsistent (set_password id hash) db c =
    set_users-IsConsistent _ _ db (λ u. refl) (λ u. refl) c
run-IsConsistent (require_change id required) db c =
    set_users-IsConsistent _ _ db (λ u. refl) (λ u. refl) c
run-IsConsistent (delete id) db c = delete_user-IsConsistent id db c
