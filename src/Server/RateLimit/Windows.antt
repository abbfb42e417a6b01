-- ===== src/Server/RateLimit/Windows.antt =====
-- How many requests of an address pass in a window of the clock.
use spark_db.Prelude.{ℕ, ◌≤◌, String, Bool, List, [], ◌∷◌, arith, Option, Bool-cases, inl, inr}
use spark_db.Query.RateLimiter.{RateLimiter, allow, new_rate_limiter}
use spark_db.Query.RateLimiter.History.{Call, InOrder, answers}
use spark_db.Query.RateLimiter.Window.{kept, load, allow_window}
use spark_db.Auth.Authenticator.{AuthUser}
use spark_db.Server.RateLimit.{Limiters, rate_limit, limit_key}

pub record Visit : Type 0 where
  pub time : ℕ
  pub address : String
  pub user : Option AuthUser

-- Which requests are passed on, in turn.
unfoldable pub passes : Limiters → List Visit → List Bool
passes l [] = []
passes l (v ∷ vs) = let (b, l') = rate_limit v.time v.address v.user l in b ∷ passes l' vs

-- The calls of the limiter of addresses.
abbrev pub calls : List Visit → List Call
calls [] = []
calls (v ∷ vs) = record { time = v.time; key = v.address } ∷ calls vs

load-cons :
    (s w : ℕ) (k : String) (c : Call) (a b : List Call)
    → load s w k a ≤ load s w k b
    → (load s w k (c ∷ a) ≤ load s w k (c ∷ b)) × (load s w k a ≤ load s w k (c ∷ b))
load-cons s w k c a b le = ground arith

passes-answers :
    (s w : ℕ) (k : String) (l : Limiters) (vs : List Visit)
    → load s w k (kept (passes l vs) (calls vs))
      ≤ load s w k (kept (answers l.ip_limiter (calls vs)) (calls vs))
unfolding passes answers rate_limit
passes-answers s w k l [] = omega arith
passes-answers s w k l (v ∷ vs) =
    let c : Call = record { time = v.time; key = v.address } in
    let ip = (allow v.time v.address l.ip_limiter).0 in
    let users = (allow v.time (limit_key v.address v.user) l.user_limiter).0 in
    elim (Bool-cases (allow v.time v.address l.ip_limiter).1) [
      | inl e ↦
          let both : Limiters = record { user_limiter = users; ip_limiter = ip } in
          let ih = passes-answers s w k both vs in
          elim (Bool-cases (allow v.time (limit_key v.address v.user) l.user_limiter).1) [
            | inl f ↦ rw (e, f) (load-cons s w k c _ _ ih).0
            | inr f ↦ rw (e, f) (load-cons s w k c _ _ ih).1
          ]
      | inr e ↦ rw e (passes-answers s w k (record l { ip_limiter = ip }) vs)
    ]

-- Of the requests of one address that are passed on, in the order of the clock, no window of the
-- length of the limiter of addresses holds more than its limit, whoever the users are and whatever the
-- limiter of users holds.
pub rate_limit_window :
    (limit window : ℕ) (users : RateLimiter) (vs : List Visit) (address : String) (s : ℕ)
    → InOrder 0 (calls vs)
    → load s window address (
        kept
          (passes (record { user_limiter = users; ip_limiter = new_rate_limiter limit window }) vs)
          (calls vs))
      ≤ limit
rate_limit_window limit window users vs address s o =
    let l : Limiters = record {
      user_limiter = users;
      ip_limiter = new_rate_limiter limit window;
    } in
    omega (
      arith,
      passes-answers s window address l vs,
      allow_window limit window (calls vs) address s o,
    )
