-- ===== src/Server/Maintenance/Tests.antt =====
-- A developer asks for a restore, and an administrator deletes a backup.
use spark_db.Prelude.{
  ◌≡◌, refl, ◌⊎◌, String, true, false, [], ◌∷◌, none, some, ok, Option, lookup, remove,
}
use spark_db.Disk.{remove_file}
use spark_db.Encryption.Cipher.Examples.{tagging}
use spark_db.Rbac.{has_permission, role_permissions}
use spark_db.Auth.Authenticator.{AuthUser}
use spark_db.Database.Manager.{new_manager}
use spark_db.Database.Manager.Examples.{idle, join}
use spark_db.Database.System.AuditLog.{new_audit_log}
use spark_db.Backup.{BackupManager, list_backups, delete_backup}
use spark_db.Server.Users.Guards.{IsAdmin}
use spark_db.Server.Maintenance.{
  MaintenanceRequest, System, allowed, run_maintenance, handle_maintenance, handle_delete_backup,
}
use spark_db.Server.Maintenance.Access.{Reads, handle_maintenance_guard}

abbrev backups : BackupManager
backups = record { backup_dir = "backups"; data_dir = "data"; cipher = none }

abbrev system : System String
system = record {
  manager = new_manager "data" false 10;
  disk = record {
    files = ("backups/a.backup", record { content = 1 ∷ []; modified = 1 }) ∷ [];
    clock = 5;
    writable = λ _. true;
  };
  audit = new_audit_log;
  tables = record { entries = []; next_entry = 1; state = none };
  logged = [];
}

abbrev carol : Option AuthUser
carol = some (record { id = 3; username = "carol"; role = "developer"; auth_type = "jwt" })

abbrev root : Option AuthUser
root = some (record { id = 1; username = "root"; role = "admin"; auth_type = "jwt" })

handle_maintenance_guard_example :
    let result =
      handle_maintenance idle tagging join backups
        (ok [])
        "1"
        []
        carol
        (MaintenanceRequest.restore (some ("a.backup", "shop.db")))
        system in
    IsAdmin carol
    ⊎ ((result.1 ≡ system)
        × ((result.0.status ≡ 403)
            ⊎ Reads carol (MaintenanceRequest.restore (some ("a.backup", "shop.db")))))
handle_maintenance_guard_example =
    handle_maintenance_guard idle tagging join backups (ok []) "1" [] carol
      (MaintenanceRequest.restore (some ("a.backup", "shop.db"))) system

deleted :
    (handle_maintenance idle tagging join backups
      (ok [])
      "1"
      ("a.backup" ∷ [])
      root
      (MaintenanceRequest.delete_one "a.backup")
      system).1.disk.files
    ≡ []
unfolding handle_maintenance run_maintenance handle_delete_backup allowed has_permission
    role_permissions list_backups delete_backup remove_file lookup remove
deleted = refl
