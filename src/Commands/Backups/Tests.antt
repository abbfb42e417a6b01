-- ===== src/Commands/Backups/Tests.antt =====
-- Backups made, listed and restored from the command line.
use spark_db.Prelude.{◌≡◌, refl, [], ◌∷◌, true, ok, none, lookup, insert}
use spark_db.Disk.{Disk, read_file, write_file, rename_file}
use spark_db.Database.Manager.{open_db, close_db}
use spark_db.Encryption.Cipher.Examples.{tagging}
use spark_db.Config.Examples.{local}
use spark_db.Database.Manager.Examples.{idle, join}
use spark_db.Commands.Backups.{run_backup, run_restore}

abbrev disk : Disk
disk = record {
  files = ("data/main", record { content = 9 ∷ []; modified = 1 }) ∷ [];
  clock = 3;
  writable = λ path. true;
}

abbrev backed_up : Disk
backed_up = (run_backup tagging idle join (λ d. ok local) (ok "/tmp") [] none "now" disk).1

restored :
    (run_restore tagging idle join
      (λ d. ok local)
      (ok "/tmp")
      []
      (ok [])
      "main_now.db.backup"
      "copy"
      backed_up).0
    ≡ ok tt
unfolding run_restore lookup run_backup open_db read_file write_file rename_file insert close_db
restored = refl
