-- ===== src/Client/Tests.antt =====
-- The property of the client's login at a concrete exchange, and tests.
use spark_db.Prelude.{◌≡◌, refl, true, arith, ok, err, errorf, [], ◌∷◌, lookup}
use spark_db.Text.{codes}
use spark_db.Database.System.{empty_system_db}
use spark_db.Database.System.Users.{get_user_by_username}
use spark_db.Auth.LoginLimiter.{is_locked}
use spark_db.Auth.Authenticator.{
  LoginRequest, LoginResponse, auth_user, check_password, respond, authenticate_request,
}
use spark_db.Auth.Authenticator as Auth
use spark_db.Auth.Authenticator.Examples.{plain, plain-SignsTokens, server}
use spark_db.Database.System.Examples.{alice}
use spark_db.Client.{Wire, login, auth, new}
use spark_db.Client.Access.{login-authenticates}

-- a server that answers a login with the token of the tests
abbrev wire : Wire (Unit {0})
wire = record {
  send = λ method path headers payload n. (ok (7 ∷ []), n);
  decode_login = λ bytes. ok (bytes, "");
  decode_query = λ bytes. err (errorf "EOF");
  decode_transaction = λ bytes. err (errorf "EOF");
  decode_databases = λ bytes. ok ([], "");
}

abbrev alice_in : LoginRequest
alice_in = record { username = "alice"; password = codes "secret" }

abbrev welcome : LoginResponse
welcome = record {
  token = 7 ∷ [];
  token_type = "bearer";
  user = auth_user "jwt" alice;
  password_change_required = true;
}

alice_logs_in : (Auth.login plain 10 alice_in server).0 ≡ ok welcome
unfolding Auth.login check_password respond Auth.generate is_locked get_user_by_username lookup
alice_logs_in = refl

login-authenticates_example :
    let answer = (login wire (codes "alice") (codes "secret") new tt).0 in
    (answer.0 ≡ ok tt)
    × (authenticate_request plain 20
          (auth answer.1).api_key
          (auth answer.1).authorization
          (record server { system_db = empty_system_db })
        ≡ ok (auth_user "jwt" alice))
login-authenticates_example =
    login-authenticates plain plain-SignsTokens wire 10 20 alice_in server welcome empty_system_db
      (codes "alice") new tt (7 ∷ []) alice_logs_in (omega arith) refl refl refl
