-- ===== src/Server/Keys/Tests.antt =====
-- Requests about API keys, of a developer.
use spark_db.Prelude.{◌≡◌, refl, ◌⊎◌, [], ◌∷◌, some, ok, String}
use spark_db.Text.{Text}
use spark_db.Disk.{Bytes}
use spark_db.Encryption.Cipher.Examples.{tagging}
use spark_db.Rbac.{has_permission, role_permissions}
use spark_db.Database.System.Examples.{alice, two_users}
use spark_db.Auth.Authenticator.{auth_user}
use spark_db.Auth.Authenticator.Examples.{plain}
use spark_db.Server.Users.Guards.{IsAdmin}
use spark_db.Server.Keys.{KeyRequest, Body, handle_key_request, refuse, may_manage_keys}
use spark_db.Server.Keys.Access.{Asked, handle_key_request_guard}

abbrev sha256 : Text → Bytes
sha256 t = 1 ∷ 2 ∷ []

refused_example :
    handle_key_request plain tagging sha256
      (115 ∷ [])
      (ok (16 ∷ []))
      (ok (40 ∷ 41 ∷ []))
      3
      (some (auth_user "jwt" alice))
      (KeyRequest.create (some "ci"))
      two_users
    ≡ (refuse 403 "only admins can create API keys", two_users)
unfolding handle_key_request may_manage_keys has_permission role_permissions
refused_example = refl

handle_key_request_guard_example :
    IsAdmin (some (auth_user "jwt" alice))
    ⊎ (((handle_key_request plain tagging sha256
            (115 ∷ [])
            (ok (16 ∷ []))
            (ok (40 ∷ 41 ∷ []))
            3
            (some (auth_user "jwt" alice))
            (KeyRequest.create (some "ci"))
            two_users).1
          ≡ two_users)
        × ((raw : Text) (name : String)
            → (handle_key_request plain tagging sha256
                (115 ∷ [])
                (ok (16 ∷ []))
                (ok (40 ∷ 41 ∷ []))
                3
                (some (auth_user "jwt" alice))
                (KeyRequest.create (some "ci"))
                two_users).0.body
              ≡ Body.key_body raw name
            → Asked plain tagging sha256 (115 ∷ []) (KeyRequest.create (some "ci")) raw two_users))
handle_key_request_guard_example =
    handle_key_request_guard plain tagging sha256 (115 ∷ []) (ok (16 ∷ [])) (ok (40 ∷ 41 ∷ [])) 3
      (some (auth_user "jwt" alice)) (KeyRequest.create (some "ci")) two_users
