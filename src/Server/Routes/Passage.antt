-- ===== src/Server/Routes/Passage.antt =====
-- What a request passes before a handler runs.
use spark_db.Prelude.{
  ℕ, String, ◌≡◌, refl, ◌∙◌, true, false, ◌⊎◌, inl, inr, Bool-cases, Option-cases, Result-cases,
  List, Option, none, some, errorf, ok, arith, str_eq,
}
use spark_db.Auth.Authenticator.{Services, Authenticator, AuthUser, authenticate_request}
use spark_db.Server.RateLimit.{rate_limit}
use spark_db.Server.Middleware.{
  Request, Reply, Outcome, Content, replied, panicked, World, error_reply, origin_for,
  rate_limiting, cors, body_limit, recovery, logging, require_auth, optional_auth, log_line,
  recovered, with_origin,
}
use spark_db.Server.Routes.{
  Route, Access, required, optional, open_to_all, access, run_handler, behind, dispatch, serve,
}

-- an answer with this status
abbrev pub Answers : {B : Type 0} → Outcome B → ℕ → Type 0
Answers {B} outcome status = (reply : Reply B) × (outcome ≡ replied reply) × (reply.status ≡ status)

-- the request as a handler gets it
abbrev pub admitted : Request → Option AuthUser → Request
admitted r user = record r { readable = some 1048576; user = user }

module _ {B S : Type 0} where
  -- What a layer around a handler keeps of its result.
  record Keeps (x y : Outcome B × World S) : Type 0 where
    state : y.1.state ≡ x.1.state
    status : (n : ℕ) → Answers x.0 n → Answers y.0 n

  log_line-Keeps : (r : Request) (x : Outcome B × World S) → Keeps x (log_line r x)
  log_line-Keeps r (replied reply, w) = record { state = refl; status = λ n h. h }
  log_line-Keeps r (panicked, w) = record { state = refl; status = λ n h. h }

  recovered-Keeps : (x : Outcome B × World S) → Keeps x (recovered x)
  recovered-Keeps (replied reply, w) = record { state = refl; status = λ n h. h }
  recovered-Keeps (panicked, w) = record {
    state = refl;
    status = λ n (reply, e, same). absurd (ground arith);
  }

  with_origin-Keeps : (o : String) (x : Outcome B × World S) → Keeps x (with_origin o x)
  with_origin-Keeps o (replied reply, w) = record {
    state = refl;
    status = λ n (reply', e, same). (record reply { allow_origin = some o }, refl, ground arith);
  }
  with_origin-Keeps o (panicked, w) = record { state = refl; status = λ n h. h }

  layers_reply :
      (r : Request) (o : String) (x : Outcome B × World S)
      → (reply : Reply B) × ((with_origin o (recovered (log_line r x))).0 ≡ replied reply)
        × (reply.allow_origin ≡ some o)
  layers_reply r o (replied reply, w) = (record reply { allow_origin = some o }, refl, refl)
  layers_reply r o (panicked, w) = (_, refl, refl)

  Keeps-trans : (x y z : Outcome B × World S) → Keeps x y → Keeps y z → Keeps x z
  Keeps-trans x y z h k = record {
    state = k.state ∙ h.state;
    status = λ n a. k.status n (h.status n a);
  }

module _ {S : Type 0} (s : Services) (authenticator : S → Authenticator) (now : ℕ) where
  abbrev pub Authenticates : Request → S → AuthUser → Type 0
  Authenticates r st u =
      authenticate_request s now r.api_key r.authorization (authenticator st) ≡ ok u

  -- The user that a handler finds in the context: whoever the headers authenticate; none only behind
  -- the routes that need no authentication.
  abbrev pub Known : Access → Request → S → Option AuthUser → Type 0
  Known required r st user = (u : AuthUser) × (user ≡ some u) × Authenticates r st u
  Known optional r st user =
      (user ≡ none) ⊎ ((u : AuthUser) × (user ≡ some u) × Authenticates r st u)
  Known open_to_all r st user = user ≡ none

module _ {B S : Type 0} (s : Services) (authenticator : S → Authenticator) (now : ℕ) where
  behind_state :
      (handle : Request → S → Outcome B × S) (a : Access) (r : Request) (w : World S)
      → r.user ≡ none
      → let x = behind s authenticator now a (run_handler handle) (admitted r r.user) w in
        ((user : Option AuthUser) × Known s authenticator now a r w.state user
          × (x.1.state ≡ (handle (admitted r user) w.state).1))
        ⊎ ((x.1.state ≡ w.state) × Answers x.0 401)
  unfolding require_auth optional_auth
  behind_state handle open_to_all r w e = inl (r.user, e, refl)
  behind_state handle required r w e =
      elim (Result-cases
        (authenticate_request s now r.api_key r.authorization (authenticator w.state))) [
          | inl (u, h) ↦ inl (some u, (u, refl, h), rw (h, require_auth) refl)
          | inr (f, h) ↦ inr (rw (h, require_auth) (refl, (_, refl, refl)))
        ]
  behind_state handle optional r w e =
      elim (Result-cases
        (authenticate_request s now r.api_key r.authorization (authenticator w.state))) [
          | inl (u, h) ↦ inl (some u, inr (u, refl, h), rw (h, optional_auth) refl)
          | inr (f, h) ↦ inl (r.user, inl e, rw (h, optional_auth) refl)
        ]

module _ {B S : Type 0} (s : Services) (authenticator : S → Authenticator)
    (mux : String → String → Option Route) (unmatched : Reply B)
    (handle : Route → Request → S → Outcome B × S) (now : ℕ) where
  -- the handler of a route has run, once, with a user that the route allows
  pub record Ran (r : Request) (before after : S) : Type 0 where
    pub route : Route
    pub matched : mux r.method r.path ≡ some route
    pub user : Option AuthUser
    pub known : Known s authenticator now (access route) r before user
    pub effect : after ≡ (handle route (admitted r user) before).1

  -- no handler has run: the state is as it was, and the answer says why
  pub record TurnedAway (before after : S) (outcome : Outcome B) : Type 0 where
    pub unchanged : after ≡ before
    pub status : ℕ
    pub answers : Answers outcome status
    pub reason : (status ≡ 429) ⊎ (status ≡ 204) ⊎ (status ≡ 401) ⊎ (status ≡ unmatched.status)

  dispatch_passage :
      (r : Request) (w : World S)
      → r.user ≡ none
      → let x = dispatch s authenticator now mux unmatched handle (admitted r r.user) w in
        Ran r w.state x.1.state ⊎ TurnedAway w.state x.1.state x.0
  unfolding dispatch
  dispatch_passage r w e = elim (Option-cases (mux r.method r.path)) [
    | inl h ↦ inr (
        rw (h, dispatch)
          (record {
            unchanged = refl;
            status = unmatched.status;
            answers = (unmatched, refl, refl);
            reason = inr (inr (inr refl));
          }))
    | inr (route, h) ↦ elim (behind_state s authenticator now (handle route) (access route) r w e) [
      | inl (user, known, effect) ↦ inl (record {
        route = route;
        matched = h;
        user = user;
        known = known;
        effect = rw (h, dispatch) effect;
      })
      | inr (same, answers) ↦ inr (
          rw (h, dispatch)
            (record {
              unchanged = same;
              status = 401;
              answers = answers;
              reason = inr (inr (inl refl));
            }))
    ]
  ]

  module _ (origins : List String) (r : Request) (w : World S) where
    abbrev counted : World S
    counted = record w { limiters = (rate_limit now r.address r.user w.limiters).1 }

    abbrev dispatched : Outcome B × World S
    dispatched = dispatch s authenticator now mux unmatched handle (admitted r r.user) counted

    abbrev pub answered : Outcome B × World S
    answered = serve s authenticator now mux unmatched handle origins r w

    serve-limited :
        (rate_limit now r.address r.user w.limiters).0 ≡ false
        → answered ≡ (error_reply 429 (errorf "rate limit exceeded"), counted)
    unfolding serve rate_limiting
    serve-limited h = rw h refl

    serve-preflight :
        (rate_limit now r.address r.user w.limiters).0 ≡ true
        → str_eq r.method "OPTIONS" ≡ true
        → answered
          ≡ with_origin (origin_for origins r.origin) (
            replied (record { status = 204; allow_origin = none; content = Content.no_content }),
            counted,
          )
    unfolding serve rate_limiting cors
    serve-preflight h e = rw (h, e) refl

    serve-dispatched :
        (rate_limit now r.address r.user w.limiters).0 ≡ true
        → str_eq r.method "OPTIONS" ≡ false
        → answered
          ≡ with_origin
              (origin_for origins r.origin)
              (recovered (log_line (admitted r r.user) dispatched))
    unfolding serve rate_limiting cors body_limit recovery logging
    serve-dispatched h e = rw (h, e) refl

    layers-Keeps : Keeps dispatched (
        with_origin
          (origin_for origins r.origin)
          (recovered (log_line (admitted r r.user) dispatched)))
    layers-Keeps =
        let logged = log_line (admitted r r.user) dispatched in
        let origin = origin_for origins r.origin in
        Keeps-trans dispatched logged (with_origin origin (recovered logged))
          (log_line-Keeps (admitted r r.user) dispatched)
          (Keeps-trans logged (recovered logged) (with_origin origin (recovered logged))
            (recovered-Keeps logged) (with_origin-Keeps origin (recovered logged)))

    -- A request is turned away with status 429, 204 or 401 or as the multiplexer answers, and nothing
    -- behind the server changes; or the handler of its route has run once, on the request with at most
    -- 1 MiB of its body, and with the user whom the headers authenticate: without one only where the
    -- route needs no authentication. The context of the request starts without a user.
    pub serve_passage :
        r.user ≡ none
        → Ran r w.state answered.1.state ⊎ TurnedAway w.state answered.1.state answered.0
    serve_passage e = elim (Bool-cases (rate_limit now r.address r.user w.limiters).0) [
      | inr full ↦ inr (
          rw (serve-limited full) (record {
            unchanged = refl;
            status = 429;
            answers = (_, refl, refl);
            reason = inl refl;
          }))
      | inl free ↦ elim (Bool-cases (str_eq r.method "OPTIONS")) [
        | inl preflight ↦ inr (
            rw (serve-preflight free preflight) (record {
              unchanged = refl;
              status = 204;
              answers = (_, refl, refl);
              reason = inr (inl refl);
            }))
        | inr other ↦ elim (dispatch_passage r counted e) [
          | inl ran ↦ inl (rw (serve-dispatched free other, layers-Keeps.state) ran)
          | inr away ↦ inr (
              rw (serve-dispatched free other) (record {
                unchanged = layers-Keeps.state ∙ away.unchanged;
                status = away.status;
                answers = layers-Keeps.status away.status away.answers;
                reason = away.reason;
              }))
        ]
      ]
    ]

  -- Every request is answered, also where a handler panics: with the origin that CORS allows, or with
  -- status 429 and without one.
  pub serve_answers :
      (origins : List String) (r : Request) (w : World S)
      → (reply : Reply B) × ((answered origins r w).0 ≡ replied reply)
        × ((reply.allow_origin ≡ some (origin_for origins r.origin)) ⊎ (reply.status ≡ 429))
  serve_answers origins r w = elim (Bool-cases (rate_limit now r.address r.user w.limiters).0) [
    | inr full ↦ rw (serve-limited origins r w full) (_, refl, inr refl)
    | inl free ↦ elim (Bool-cases (str_eq r.method "OPTIONS")) [
      | inl preflight ↦ rw (serve-preflight origins r w free preflight) (_, refl, inl refl)
      | inr other ↦
          let (reply, e, named) =
            layers_reply (admitted r r.user) (origin_for origins r.origin)
              (dispatched origins r w) in
          rw (serve-dispatched origins r w free other) (reply, e, inl named)
    ]
  ]
