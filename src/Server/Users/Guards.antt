-- ===== src/Server/Users/Guards.antt =====
-- Who may manage accounts.
use spark_db.Prelude.{ℕ, ◌≡◌, refl, true, ◌⊎◌, inl, inr, Bool-cases, Option, none, some, arith}
use spark_db.Rbac.{role_admin, perm_create_user}
use spark_db.Rbac.Separation.{admin_only}
use spark_db.Database.System.{SystemDb}
use spark_db.Auth.Authenticator.{Services, AuthUser}
use spark_db.Server.Users.{UserRequest, may_manage, handle_user_request, forbidden}

-- The user's role is admin.
pub record IsAdmin (user : Option AuthUser) : Type 0 where
  pub who : AuthUser
  pub known : user ≡ some who
  pub admin : who.role ≡ role_admin

may_manage-IsAdmin : (user : Option AuthUser) → may_manage user ≡ true → IsAdmin user
unfolding may_manage
may_manage-IsAdmin none h = cc
may_manage-IsAdmin (some u) h = record {
  who = u;
  known = refl;
  admin = admin_only u.role perm_create_user (inr (inl refl)) h;
}

forbidden-status : (req : UserRequest) → (forbidden req).status ≡ 403
forbidden-status req = ground arith

module _ (s : Services) where
  -- A request to manage accounts is one of an administrator, or it is answered with 403 and changes
  -- nothing.
  pub handle_user_request_guard :
      (now : ℕ) (user : Option AuthUser) (req : UserRequest) (db : SystemDb)
      → IsAdmin user
        ⊎ (((handle_user_request s now user req db).0.status ≡ 403)
            × ((handle_user_request s now user req db).1 ≡ db))
  unfolding handle_user_request
  handle_user_request_guard now user req db = elim (Bool-cases (may_manage user)) [
    | inl e ↦ inl (may_manage-IsAdmin user e)
    | inr e ↦ inr (rw e (forbidden-status req, refl))
  ]
