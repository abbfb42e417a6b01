-- ===== src/Server/Administration/Access.antt =====
-- Who may manage accounts, from the request on.
use spark_db.Prelude.{
  ℕ, String, ◌≡◌, refl, sym, ap, ◌∙◌, true, ◌⊎◌, inl, inr, List, Option, none, some, arith,
}
use spark_db.Auth.Authenticator.{Services, Authenticator, AuthUser}
use spark_db.Rbac.{role_admin}
use spark_db.Server.Users.{Body}
use spark_db.Server.Users.Guards.{IsAdmin, handle_user_request_guard}
use spark_db.Server.Middleware.{Request, Reply, Outcome, World}
use spark_db.Server.Routes.{Route, Access, required, optional, open_to_all, access}
use spark_db.Server.Routes.Passage.{Known, Authenticates, admitted, Ran, serve_passage}
use spark_db.Server.Administration.{Decoders, is_account_route, manage, handlers, serve_accounts}

account_access : (route : Route) → is_account_route route ≡ true → access route ≡ required
account_access route h = ground arith

module _ (s : Services) (now : ℕ) where
  -- The headers authenticate a user with the role admin.
  pub record FromAdmin (r : Request) (a : Authenticator) : Type 0 where
    pub who : AuthUser
    pub authentic : Authenticates s (λ (x : Authenticator). x) now r a who
    pub admin : who.role ≡ role_admin

  Known-FromAdmin :
      (r : Request) (a : Authenticator) (x : Access) (user : Option AuthUser)
      → x ≡ required
      → Known s (λ (x : Authenticator). x) now x r a user
      → IsAdmin user
      → FromAdmin r a
  Known-FromAdmin r a required user e (u, same, authentic) admin = record {
    who = u;
    authentic = authentic;
    admin =
        let one : some admin.who ≡ some u = sym admin.known ∙ same in
        let equal : admin.who ≡ u = cc in ap (λ v. v.role) (sym equal) ∙ admin.admin;
  }
  Known-FromAdmin r a optional user e known admin = absurd (ground arith)
  Known-FromAdmin r a open_to_all user e known admin = absurd (ground arith)

module _ (s : Services) (decode : Decoders)
    (other : Route → Request → Authenticator → Outcome Body × Authenticator) (now : ℕ) where
  account_handler :
      (route : Route) (r : Request) (a : Authenticator)
      → is_account_route route ≡ true
      → handlers s decode other now route r a ≡ manage s decode other now route r a
  account_handler route r a h = ground arith

  manage-IsAdmin :
      (route : Route) (r : Request) (a : Authenticator)
      → IsAdmin r.user ⊎ ((manage s decode other now route r a).1 ≡ a)
  unfolding manage
  manage-IsAdmin route r a =
      elim (handle_user_request_guard s now r.user (decode.user_request route r) a.system_db) [
        | inl admin ↦ inl admin
        | inr (status, same) ↦ inr (rw same refl)
      ]

  Ran-guard :
      (r : Request) (a : Authenticator) {after : Authenticator}
      {mux : String → String → Option Route} {unmatched : Reply Body} (route : Route)
      → mux r.method r.path ≡ some route
      → is_account_route route ≡ true
      → Ran s (λ (x : Authenticator). x) mux unmatched (handlers s decode other now) now r a after
      → FromAdmin s now r a ⊎ (after ≡ a)
  Ran-guard r a route m h ran =
      let one : some route ≡ some ran.route = sym m ∙ ran.matched in
      let its : is_account_route ran.route ≡ true =
        let same : route ≡ ran.route = cc in rw (← same) h in
      elim (manage-IsAdmin ran.route (admitted r ran.user) a) [
        | inl admin ↦ inl (
            Known-FromAdmin s now r a (access ran.route) ran.user (account_access ran.route its)
              ran.known admin)
        | inr same ↦ inr (
            ran.effect
            ∙ ap (λ x. x.1) (account_handler ran.route (admitted r ran.user) a its)
            ∙ same)
      ]

  -- A request to a route of the administration of accounts changes nothing behind the server, neither
  -- the accounts nor the record of failed logins, unless its headers authenticate an administrator.
  pub serve_accounts_guard :
      (mux : String → String → Option Route) (unmatched : Reply Body) (origins : List String)
      (r : Request) (w : World Authenticator) (route : Route)
      → r.user ≡ none
      → mux r.method r.path ≡ some route
      → is_account_route route ≡ true
      → FromAdmin s now r w.state
        ⊎ ((serve_accounts s decode other now mux unmatched origins r w).1.state ≡ w.state)
  unfolding serve_accounts
  serve_accounts_guard mux unmatched origins r w route e m h =
      elim (serve_passage s (λ a. a) mux unmatched (handlers s decode other now) now origins r w
        e) [ inr away ↦ inr away.unchanged | inl ran ↦ Ran-guard r w.state route m h ran ]
