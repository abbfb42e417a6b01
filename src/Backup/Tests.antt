-- ===== src/Backup/Tests.antt =====
-- Backups of one small database, and pruning.
use spark_db.Prelude.{
  ◌≤◌, String, ◌≡◌, refl, true, false, List, [], ◌∷◌, none, ok, All, drop, take, lookup, str_eq,
  map, if◌then◌else◌,
}
use spark_db.Text.{codes, append_str}
use spark_db.Disk.{Disk, stat, read_file}
use spark_db.Encryption.Cipher.Examples.{tagging}
use spark_db.Database.Manager.{Manager, new_manager, open_db, connect}
use spark_db.Database.Manager.Examples.{idle, join}
use spark_db.Backup.{
  BackupManager, backup_name, backup_path, create_backup, list_backups, prune_old_backups,
}
use spark_db.Backup.Copies.{create_backup_lem}
use spark_db.Backup.Pruning.{named, prune_old_backups_lem}

abbrev backups : BackupManager
backups = record { backup_dir = "backups"; data_dir = "data"; cipher = none }

abbrev manager : Manager String
manager = new_manager "data" false 10

abbrev disk : Disk
disk = record {
  files =
      ("data/shop.db", record { content = 7 ∷ 8 ∷ []; modified = 3 })
      ∷ ("backups/a.backup", record { content = 1 ∷ []; modified = 1 })
      ∷ ("backups/my_db_2.backup", record { content = 2 ∷ []; modified = 2 })
      ∷ ("backups/notes", record { content = 3 ∷ []; modified = 9 })
      ∷ [];
  clock = 5;
  writable = λ _. true;
}

abbrev names : List String
names = "a.backup" ∷ "my_db_2.backup" ∷ "notes" ∷ []

create_backup_lem_example :
    let opened = open_db idle tagging join "shop.db" manager disk in
    let d2 = (idle.exec "PRAGMA wal_checkpoint(TRUNCATE)" "data/shop.db" opened.1.1).1 in
    let path = backup_path idle tagging join backups "shop.db" "1" in
    let after = create_backup idle tagging join backups "shop.db" "1" manager disk in
    (after.0
      ≡ ok (record {
        name = backup_name "shop.db" "1";
        path = path;
        size = 2;
        created_at = d2.clock;
        database = codes "shop.db";
      }))
    × (read_file path after.1.1 ≡ ok (7 ∷ 8 ∷ []))
    × (stat (append_str path ".tmp") after.1.1 ≡ none)
    × ((other : String)
        → str_eq path other ≡ false
        → str_eq (append_str path ".tmp") other ≡ false
        → stat other after.1.1 ≡ stat other d2)
create_backup_lem_example =
    create_backup_lem idle tagging join backups "shop.db" "1" manager disk "data/shop.db"
      (7 ∷ 8 ∷ []) (unfold open_db connect lookup in refl)
      (unfold open_db connect lookup read_file in refl) (unfold open_db connect lookup in refl)
      (unfold open_db connect lookup in refl)

prune_old_backups_lem_example :
    let all = list_backups idle tagging join backups names disk in
    All (λ kept. All (λ old. old.created_at ≤ kept.created_at) (drop 1 all)) (take 1 all)
    × ((path : String)
        → stat path (prune_old_backups idle tagging join backups 1 names disk)
          ≡ (if named path (drop 1 all) then none else stat path disk))
prune_old_backups_lem_example = prune_old_backups_lem idle tagging join backups 1 names disk

-- The database of a name with an underscore is cut short.
listed_example :
    map (λ b. b.database) (list_backups idle tagging join backups names disk)
    ≡ codes "my" ∷ codes "a.backup" ∷ []
unfolding list_backups lookup
listed_example = refl
