-- ===== src/Auth/Sessions/Tests.antt =====
-- The property of sessions at a concrete token, and tests.
use spark_db.Prelude.{◌≡◌, refl, err, wrapf, errorf}
use spark_db.Database.System.Examples.{two_users}
use spark_db.Auth.Authenticator.Examples.{plain}
use spark_db.Auth.Sessions.{generate, session_duration}

no_random_bytes :
    generate plain (err (errorf "EOF")) 10 24 1 two_users
    ≡ (err (wrapf "generate token" (errorf "EOF")), two_users)
unfolding generate
no_random_bytes = refl

-- Without a duration a session lasts a day.
default_duration : session_duration 24 0 ≡ 24
unfolding session_duration
default_duration = refl
