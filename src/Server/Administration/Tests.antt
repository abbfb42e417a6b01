-- ===== src/Server/Administration/Tests.antt =====
-- The properties of the middleware and of the routes at concrete requests, and tests.
use spark_db.Prelude.{
  String, ◌≡◌, ◌⊎◌, refl, none, some, errorf, List, [], ◌∷◌, Option, str_eq, if◌then◌else◌, lookup,
  insert, remove,
}
use spark_db.Text.{codes, lower}
use spark_db.Query.RateLimiter.{new_rate_limiter, allow, entries}
use spark_db.Auth.Authenticator.{Authenticator, authenticate_jwt, authenticate_request}
use spark_db.Auth.Authenticator.Examples.{plain, server}
use spark_db.Server.RateLimit.{rate_limit}
use spark_db.Server.Users.{Body, UserRequest}
use spark_db.Server.Middleware.{
  Request, Reply, Content, Outcome, replied, panicked, World, origin_for, logging, recovery, cors,
  body_limit, rate_limiting, require_auth,
}
use spark_db.Server.Routes.{Route, set_user_role, stats, dispatch, serve}
use spark_db.Server.Routes.Passage.{Ran, TurnedAway, serve_passage, serve_answers}
use spark_db.Server.Administration.{Decoders, handlers, serve_accounts}
use spark_db.Server.Administration.Access.{FromAdmin, serve_accounts_guard}

abbrev origins : List String
origins = "https://a.example" ∷ "https://b.example" ∷ []

-- Only the first configured origin is read as the star.
late_star : origin_for ("https://a.example" ∷ "*" ∷ []) "https://c.example" ≡ "https://a.example"
unfolding origin_for
late_star = refl

abbrev put_role : Request
put_role = record {
  method = "PUT";
  path = "/admin/users/1/role";
  address = "10.0.0.1:80";
  origin = "https://b.example";
  api_key = [];
  authorization = codes "Bearer x";
  body = [];
  readable = none;
  user = none;
}

abbrev get_stats : Request
get_stats = record put_role { method = "GET"; path = "/stats" }

abbrev mux : String → String → Option Route
mux method path =
    if str_eq path "/admin/users/1/role"
    then some set_user_role
    else if str_eq path "/stats"
    then some stats
    else none

abbrev not_found : Reply Body
not_found = record {
  status = 404;
  allow_origin = none;
  content = Content.error_body (errorf "404 page not found");
}

abbrev decoders : Decoders
decoders = record {
  user_request = λ route r. UserRequest.set_role (some 1) (some "admin");
  login_request = λ r. none;
  passwords = λ r. none;
}

-- The other handlers panic.
abbrev world : World Authenticator
world = record {
  limiters = record { user_limiter = new_rate_limiter 60 60; ip_limiter = new_rate_limiter 100 60 };
  log = [];
  state = server;
}

abbrev other : Route → Request → Authenticator → Outcome Body × Authenticator
other route r a = (panicked, a)

abbrev whole : Authenticator → Authenticator
whole a = a

serve_accounts_guard_example :
    FromAdmin plain 10 put_role server
    ⊎ ((serve_accounts plain decoders other 10 mux not_found origins put_role world).1.state
        ≡ server)
serve_accounts_guard_example =
    serve_accounts_guard plain decoders other 10 mux not_found origins put_role world set_user_role
      refl refl refl

serve_passage_example :
    Ran plain whole mux not_found
      (handlers plain decoders other 10)
      10
      put_role
      server
      (serve plain whole 10 mux not_found
        (handlers plain decoders other 10)
        origins
        put_role
        world).1.state
    ⊎ TurnedAway plain whole mux not_found
        (handlers plain decoders other 10)
        10
        server
        (serve plain whole 10 mux not_found
          (handlers plain decoders other 10)
          origins
          put_role
          world).1.state
        (serve plain whole 10 mux not_found
          (handlers plain decoders other 10)
          origins
          put_role
          world).0
serve_passage_example =
    serve_passage plain whole mux not_found (handlers plain decoders other 10) 10 origins put_role
      world refl

serve_answers_example :
    (reply : Reply Body) × ((serve plain whole 10 mux not_found
        (handlers plain decoders other 10)
        origins
        get_stats
        world).0
      ≡ replied reply)
    × ((reply.allow_origin ≡ some (origin_for origins "https://b.example")) ⊎ (reply.status ≡ 429))
serve_answers_example =
    serve_answers plain whole mux not_found (handlers plain decoders other 10) 10 origins get_stats
      world

-- A handler that panics is answered for.
panic_answered :
    (serve plain whole 10 mux not_found
      (handlers plain decoders other 10)
      origins
      get_stats
      world).0
    ≡ replied (record {
      status = 500;
      allow_origin = some "https://b.example";
      content = Content.error_body (errorf "internal server error");
    })
unfolding serve dispatch cors recovery logging body_limit rate_limiting rate_limit require_auth
    origin_for allow entries new_rate_limiter lookup insert remove authenticate_request
    authenticate_jwt lower
panic_answered = refl
