-- ===== src/Commands/Backups.antt =====
-- cmd/sparkdb/commands/backup.go: backups made, restored and listed from the command line, as in
-- internal/backup. What is printed is left out.
mod Tests
use spark_db.Prelude.{
  String, Bool, false, List, Option, none, some, Result, ok, err, ◌>>=◌, wrap, str_eq,
  if◌then◌else◌,
}
use spark_db.Text.{Text}
use spark_db.Disk.{Bytes, Disk}
use spark_db.Encryption.Cipher.{Aead, Cipher}
use spark_db.Config.{Config}
use spark_db.Database.Manager.{Driver, Manager}
use spark_db.Backup.{BackupInfo, BackupManager, create_backup, restore_backup, list_backups}
use spark_db.Server.Startup.{manager_of}
use spark_db.Commands.Admin.{command_cipher, command_manager}

-- backup.NewManager
abbrev pub backup_manager : Config → Option Cipher → BackupManager
backup_manager c key = record {
  backup_dir = c.backup.dir;
  data_dir = c.database.data_dir;
  cipher = key;
}

abbrev pub labelled : {A B : Type 0} → String → Result A × (B × Disk) → Result A × Disk
labelled label (r, (b, d)) = (wrap label r, d)

-- the database that is meant by no flag
abbrev pub target_of : String → String
target_of name = if str_eq name "" then "main" else name

-- the argument, if there is one
abbrev pub argument_or_main : Option String → String
argument_or_main none = "main"
argument_or_main (some name) = name

module _ (a : Aead) (s : Driver) (join : String → String → String) (load : Disk → Result Config)
    (temp : Result String) (env : Text) where
  unfoldable pub run_backup : Option String → String → Disk → Result BackupInfo × Disk
  unfolding command_manager create_backup
  run_backup name stamp d = elim (command_manager a s join load temp env d) [
    | err e ↦ (err e, d)
    | ok made ↦ labelled "backup failed" (
        create_backup s a join (backup_manager made.0 made.1.cipher) (argument_or_main name) stamp
          made.1 d)
  ]

  unfoldable pub run_restore : Result Bytes → String → String → Disk → Result (Unit {0}) × Disk
  unfolding command_manager restore_backup
  run_restore random file name d = elim (command_manager a s join load temp env d) [
    | err e ↦ (err e, d)
    | ok made ↦ labelled "restore failed" (
        restore_backup s a join (backup_manager made.0 made.1.cipher) random file (target_of name)
          made.1 d)
  ]

  -- the list, without a cipher; `names` is what the directory holds
  unfoldable pub run_list_backups : List String → Disk → Result (List BackupInfo)
  unfolding list_backups
  run_list_backups names d = do
    c ← load d
    ok (list_backups s a join (backup_manager c none) names d)
