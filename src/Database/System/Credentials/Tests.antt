-- ===== src/Database/System/Credentials/Tests.antt =====
-- The properties of API keys and sessions at concrete rows, and tests.
use spark_db.Prelude.{[], ◌∷◌, ◌≡◌, refl, some, ok, err, wrapf, no_rows}
use spark_db.Database.System.Examples.{alice, two_users}
use spark_db.Database.System.Users.{get_user}
use spark_db.Database.System.Credentials.{find_user_by_api_key, create_api_key}
use spark_db.Database.System.Credentials.Validity.{api_key_lifetime}

alice_is_stored : get_user 1 two_users ≡ ok alice
unfolding get_user
alice_is_stored = refl

expired :
    find_user_by_api_key 6 "digest"
      (create_api_key 0 1 "digest" "ci" (118 ∷ 108 ∷ []) (some 6) [] two_users)
    ≡ err (wrapf "find by api key" no_rows)
expired =
    api_key_lifetime 0 6 1 "digest" "ci" (118 ∷ 108 ∷ []) [] (some 6) two_users alice refl
      alice_is_stored
