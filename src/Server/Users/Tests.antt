-- ===== src/Server/Users/Tests.antt =====
-- The properties of the account handlers at concrete requests, and tests.
use spark_db.Prelude.{◌≡◌, refl, some}
use spark_db.Rbac.{parse_role, has_permission}
use spark_db.Database.System.Examples.{two_users}
use spark_db.Auth.Authenticator.{AuthUser}
use spark_db.Auth.Authenticator.Examples.{plain}
use spark_db.Server.Users.{
  UserRequest, set_role, delete, may_manage, handle_set_role, handle_delete, run_user_request,
  handle_user_request, refuse, invalid_role,
}
use spark_db.Server.Users.Roles.{RolesKnown, handle_user_request-RolesKnown}

abbrev developer : AuthUser
developer = record { id = 1; username = "alice"; role = "developer"; auth_type = "jwt" }

abbrev admin : AuthUser
admin = record { id = 2; username = "bob"; role = "admin"; auth_type = "jwt" }

abbrev promote : UserRequest
promote = set_role (some 1) (some "admin")

refused : (handle_user_request plain 5 (some developer) promote two_users).0.status ≡ 403
unfolding handle_user_request may_manage has_permission
refused = refl

unknown_role :
    handle_user_request plain 5 (some admin) (set_role (some 1) (some "root")) two_users
    ≡ (invalid_role, two_users)
unfolding handle_user_request run_user_request handle_set_role may_manage has_permission parse_role
unknown_role = refl

not_oneself :
    handle_user_request plain 5 (some admin) (delete (some 2)) two_users
    ≡ (refuse 400 "cannot delete yourself", two_users)
unfolding handle_user_request run_user_request handle_delete may_manage has_permission
not_oneself = refl

two_users-RolesKnown : RolesKnown two_users
unfolding parse_role
two_users-RolesKnown = (refl, (refl, tt))

handle_user_request-RolesKnown_example :
    RolesKnown (handle_user_request plain 5 (some admin) promote two_users).1
handle_user_request-RolesKnown_example =
    handle_user_request-RolesKnown plain 5 (some admin) promote two_users two_users-RolesKnown
