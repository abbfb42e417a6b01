-- ===== src/Database/System/Users/Rows.antt =====
-- What the statements over `users` do to the rows that the queries return.
use spark_db.Prelude.{
  ℕ, ◌<◌, String, ◌≡◌, refl, ◌∙◌, eq_refl, Bool, false, not, List, [], ◌∷◌, arith, Bool-cases, inl,
  inr, ==_iff, ◌==◌, find, find-test, find-append_none, find-append_other, find-filter-none,
  find-filter_all, any, update_where, Result, ok, err, ◌>>=◌, wrap, no_rows, wrapf, All,
  if◌then◌else◌,
}
use spark_db.Database.System.{User, SystemDb}
use spark_db.Database.System.Users.{
  has_id, has_name, scan, new_user, get_user, get_user_by_username, create_user, set_users,
  update_user_password, set_password_change_required, delete_user,
}
use spark_db.Database.System.Users.Consistency.{IsConsistent}

module _ (q p : User → Bool) (f : User → User) (same : (u : User) → q (f u) ≡ q u) where
  find-update_where :
      (users : List User)
      → scan (find q (update_where p f users))
        ≡ (scan (find q users) >>= λ u. ok (if p u then f u else u))
  find-update_where [] = refl
  find-update_where (u ∷ users) = ground (arith, same u, find-update_where users)

wrap->>= :
    (s : String) (r : Result User) (g : User → User)
    → wrap s (r >>= λ u. ok (g u)) ≡ (wrap s r >>= λ u. ok (g u))
wrap->>= s (ok u) g = refl
wrap->>= s (err e) g = refl

-- An update that keeps ids is seen by `get_user` as a change of the row.
pub get_user-set_users :
    (j : ℕ) (p : User → Bool) (f : User → User) (db : SystemDb)
    → ((u : User) → (f u).id ≡ u.id)
    → get_user j (set_users p f db) ≡ (get_user j db >>= λ u. ok (if p u then f u else u))
unfolding get_user
get_user-set_users j p f db same =
    rw (find-update_where (has_id j) p f (λ u. rw (same u) refl) db.users)
      (wrap->>= "get user" (scan (find (has_id j) db.users)) (λ u. if p u then f u else u))

pub get_user-id : (j : ℕ) (db : SystemDb) (u : User) → get_user j db ≡ ok u → u.id ≡ j
unfolding get_user
get_user-id j db u h = (==_iff u.id j).0 (find-test (has_id j) db.users u (ground arith))

at_id :
    (id j : ℕ) (f : User → User) (r : Result User)
    → ((u : User) → r ≡ ok u → u.id ≡ j)
    → (r >>= λ u. ok (if has_id id u then f u else u))
      ≡ (r >>= λ u. ok (if j == id then f u else u))
at_id id j f (ok u) h = rw (h u refl) refl
at_id id j f (err e) h = refl

set_users-at_id :
    (id j : ℕ) (f : User → User) (db : SystemDb)
    → ((u : User) → (f u).id ≡ u.id)
    → get_user j (set_users (has_id id) f db)
      ≡ (get_user j db >>= λ u. ok (if j == id then f u else u))
set_users-at_id id j f db same =
    get_user-set_users j (has_id id) f db same ∙ at_id id j f (get_user j db) (get_user-id j db)

-- Changing a password stores the hash and clears the flag of that user alone; requiring a change
-- sets the flag of that user alone.
pub get_user-password :
    (id j : ℕ) (hash : String) (required : Bool) (db : SystemDb)
    → (get_user j (update_user_password id hash db) ≡ (
        get_user j db >>= λ u. ok (
          if j == id
          then record u { password_hash = hash; password_change_required = false }
          else u)))
      × (get_user j (set_password_change_required id required db) ≡ (
          get_user j db >>= λ u.
          ok (if j == id then record u { password_change_required = required } else u)))
unfolding update_user_password set_password_change_required
get_user-password id j hash required db =
    (set_users-at_id id j _ db (λ u. refl), set_users-at_id id j _ db (λ u. refl))

-- After a deletion the user is not found, and every other user is as before.
pub get_user-delete_user :
    (id j : ℕ) (db : SystemDb)
    → get_user j (delete_user id db)
      ≡ (if j == id then err (wrapf "get user" no_rows) else get_user j db)
unfolding get_user delete_user
get_user-delete_user id j db = elim (Bool-cases (j == id)) [
  | inl e ↦
      rw (e, find-filter-none (has_id j) (λ u. not (has_id id u)) db.users (λ u h. ground arith))
  | inr e ↦
      rw (e, find-filter_all (has_id j) (λ u. not (has_id id u)) db.users (λ u h. ground arith))
]

any-below : (n : ℕ) (users : List User) → All (λ u. u.id < n) users → any (has_id n) users ≡ false
any-below n [] h = refl
any-below n (u ∷ users) h = ground (arith, any-below n users h.1)

-- A user that is created is found by name and by id, with the given role, not locked, and has to
-- change the password; every user that was there is found as before.
pub create_user-found :
    (now j : ℕ) (name hash role : String) (db : SystemDb) (u : User)
    → IsConsistent db
    → (create_user now name hash role db).0 ≡ ok u
    → (u ≡ new_user now db.next_user name hash role)
      × (get_user_by_username name (create_user now name hash role db).1 ≡ ok u)
      × (get_user u.id (create_user now name hash role db).1 ≡ ok u)
      × (get_user j (create_user now name hash role db).1
          ≡ (if j == u.id then ok u else get_user j db))
unfolding create_user get_user get_user_by_username
create_user-found now j name hash role db u c h =
    let v = new_user now db.next_user name hash role in
    ground (
      arith,
      find-append_none (has_name name) db.users (v ∷ []),
      find-append_none (has_id db.next_user) db.users (v ∷ []),
      find-append_other (has_id j) db.users v,
      any-below db.next_user db.users c.ids_below,
      eq_refl name,
    )
