-- ===== src/Commands/Admin/Tests.antt =====
-- Accounts and databases made from the command line.
use spark_db.Prelude.{◌≡◌, refl, [], true, ok, err, errorf, lookup}
use spark_db.Text.{codes}
use spark_db.Disk.{Disk}
use spark_db.Encryption.Cipher.Examples.{tagging}
use spark_db.Encryption.Cipher.{get_cipher}
use spark_db.Config.Examples.{local}
use spark_db.Database.Manager.Examples.{idle, join}
use spark_db.Database.System.{User}
use spark_db.Database.System.Examples.{two_users}
use spark_db.Database.System.Users
use spark_db.Database.System.Users.{get_user}
use spark_db.Database.Manager.{open_db, close_db, connect}
use spark_db.Auth.Accounts
use spark_db.Auth.Strength.{validate_password_strength, byte_len, scan, note}
use spark_db.Auth.Authenticator.Examples.{plain}
use spark_db.Commands.Admin.{command_cipher, command_manager, run_create_db, run_create_user}

-- The role is not looked at.
unknown_role :
    (u : User) × ((run_create_user plain
        (ok local)
        (ok tt)
        5
        "carol"
        (codes "Secret-1234")
        "owner"
        two_users).0
      ≡ ok u)
    × (u.role ≡ "owner")
unfolding run_create_user Accounts.create_user validate_password_strength byte_len scan note
    Users.create_user get_user
unknown_role = (_, refl, refl)

abbrev disk : Disk
disk = record { files = []; clock = 3; writable = λ path. true }

created :
    (run_create_db tagging idle join (λ d. ok local) (ok "/tmp") [] (ok []) "shop" disk).0 ≡ ok tt
unfolding run_create_db command_manager command_cipher open_db connect close_db lookup
created = refl

keyless :
    command_cipher tagging (record { enabled = true; key = []; key_file = "" }) [] disk
    ≡ err (errorf "no encryption key found")
unfolding command_cipher get_cipher
keyless = refl
