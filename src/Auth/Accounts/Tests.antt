-- ===== src/Auth/Accounts/Tests.antt =====
-- The properties of password changes and of the default administrator at concrete accounts, and
-- tests.
use spark_db.Prelude.{◌≡◌, refl, ok, err, errorf}
use spark_db.Text.{codes}
use spark_db.Database.System.Examples.{two_users}
use spark_db.Database.System.Users.{get_user, get_user_by_username}
use spark_db.Database.System.Users
use spark_db.Auth.Strength.{byte_len, note, scan, validate_password_strength}
use spark_db.Auth.Authenticator.Examples.{plain}
use spark_db.Auth.Accounts.{change_own_password, ensure_default_admin}
use spark_db.Auth.Accounts.Passwords.{Changed, change_own_password-Changed}

changes : (change_own_password plain 1 (codes "secret") (codes "Secret-1234") two_users).0 ≡ ok tt
unfolding change_own_password get_user validate_password_strength scan byte_len note
changes = refl

change_own_password-Changed_example :
    Changed plain 1
      (codes "secret")
      (codes "Secret-1234")
      two_users
      (change_own_password plain 1 (codes "secret") (codes "Secret-1234") two_users).1
change_own_password-Changed_example =
    change_own_password-Changed plain 1 (codes "secret") (codes "Secret-1234") two_users changes

wrong_password :
    (change_own_password plain 1 (codes "Secret") (codes "Secret-1234") two_users).0
    ≡ err (errorf "current password is incorrect")
unfolding change_own_password get_user
wrong_password = refl

made : (ensure_default_admin plain 5 two_users).0 ≡ ok tt
unfolding ensure_default_admin Users.create_user get_user get_user_by_username
made = refl
