-- ===== src/Auth/Authenticator/Tests.antt =====
-- The properties of logging in and of authentication at concrete requests, and tests.
use spark_db.Prelude.{
  ◌≡◌, ◌≢◌, String, refl, true, false, arith, eq_iff, ok, err, errorf, [], ◌∷◌, lookup,
}
use spark_db.Text.{codes, lower}
use spark_db.Database.System.{empty_system_db}
use spark_db.Database.System.Examples.{alice, two_users}
use spark_db.Database.System.Users.{get_user, get_user_by_username}
use spark_db.Database.System.Credentials.{create_session, validate_session}
use spark_db.Auth.LoginLimiter.{is_locked}
use spark_db.Auth.Authenticator.{
  Authenticator, LoginRequest, LoginResponse, auth_user, lock_key, generate, respond,
  check_password, login, authenticate_session, authenticate_request,
}
use spark_db.Auth.Authenticator.Examples.{plain, plain-SignsTokens, server}
use spark_db.Auth.Authenticator.Login.{Admitted, login_sound}
use spark_db.Auth.Authenticator.Lockout.{Try}
use spark_db.Auth.Authenticator.Tokens.{bearer, Current, login_token, authenticate_request-Current}

abbrev alice_in : LoginRequest
alice_in = record { username = "alice"; password = codes "secret" }

abbrev welcome : LoginResponse
welcome = record {
  token = 7 ∷ [];
  token_type = "bearer";
  user = auth_user "jwt" alice;
  password_change_required = true;
}

alice_logs_in : (login plain 10 alice_in server).0 ≡ ok welcome
unfolding login check_password respond generate is_locked get_user_by_username lookup
alice_logs_in = refl

login_sound_example : Admitted plain 10 alice_in server welcome
login_sound_example = login_sound plain 10 alice_in server welcome alice_logs_in

-- The account of bob is locked until 50.
bob_waits :
    (login plain 10 (record { username = "bob"; password = codes "hunter" }) server).0
    ≡ err (errorf "account is locked")
unfolding login check_password is_locked get_user_by_username lookup
bob_waits = refl

abbrev mallory : LoginRequest
mallory = record { username = "mallory"; password = codes "guess" }

not_locked : (is_locked 10 (lock_key "mallory") server.login_limiter).1 ≡ false
unfolding is_locked lookup
not_locked = refl

abbrev guess : Try
guess = record { time = 10; password = codes "guess" }

abbrev second_guess : Try
second_guess = record { time = 20; password = codes "Secret" }

-- The token still opens the account when there are no users at all.
login_token_example :
    authenticate_request plain 109 []
      (bearer (7 ∷ []))
      (record server { system_db = empty_system_db })
    ≡ ok (auth_user "jwt" alice)
login_token_example =
    login_token plain plain-SignsTokens 10 109 alice_in server welcome empty_system_db alice_logs_in
      (omega arith)

abbrev with_session : Authenticator
with_session = record server { system_db = (create_session 1 "digest" 30 two_users).1 }

by_session :
    authenticate_request plain 20 [] (codes "Session token") with_session
    ≡ ok (auth_user "session" alice)
unfolding authenticate_request authenticate_session lower create_session validate_session get_user
by_session = refl

session_is_no_jwt : ◌≢◌ {A = String} "session" "jwt"
session_is_no_jwt = ground (arith, eq_iff "session" "jwt")

authenticate_request-Current_example :
    Current plain 20 with_session.system_db (auth_user "session" alice)
authenticate_request-Current_example =
    authenticate_request-Current plain 20 [] (codes "Session token") with_session
      (auth_user "session" alice) by_session session_is_no_jwt
