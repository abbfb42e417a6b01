-- ===== src/Backup.antt =====
-- internal/backup/backup.go, and the pruning and the scheduled run of internal/server/server.go. The
-- directories exist and no path is one; `stamp` is the time in the file's name, `random` what
-- crypto/rand returns when the database is closed. The rest is as in the database manager.
pub mod Copies
pub mod Pruning
mod Tests
use spark_db.Prelude.{
  ℕ, String, Bool, true, false, not, List, [], ◌∷◌, map, filter, length, drop, ltb, leb,
  newest_first, Option, none, some, Result, ok, err, Error, wrapf, wrap, reported, if◌then◌else◌,
}
use spark_db.Text.{Text, codes, append_str, split_2, has_suffix}
use spark_db.Disk.{Bytes, File, Disk, stat, read_file, write_file, remove_file, rename_file}
use spark_db.Encryption.Cipher.{Aead, Cipher}
use spark_db.Database.Manager.{Driver, Manager, open_db, close_db, active_path, is_present}

pub record BackupInfo : Type 0 where
  pub name : String
  pub path : String
  pub size : ℕ
  pub created_at : ℕ
  pub database : Text

pub record BackupManager : Type 0 where
  pub backup_dir : String
  pub data_dir : String
  pub cipher : Option Cipher

abbrev written_copy : String → Result Bytes → Disk → Result (Unit {0}) × Disk
written_copy dst (err e) d = (err (wrapf "open source" e), d)
written_copy dst (ok content) d =
    let (r, d') = write_file dst content d in (wrap "create destination" r, d')

unfoldable pub copy_file : String → String → Disk → Result (Unit {0}) × Disk
copy_file src dst d = written_copy dst (read_file src d) d

abbrev pub described : String → String → Text → Option File → Result BackupInfo
described name path database none = err (wrapf "stat backup" (reported "no such file or directory"))
described name path database (some f) = ok (record {
  name = name;
  path = path;
  size = length f.content;
  created_at = f.modified;
  database = database;
})

abbrev pub backup_name : String → String → String
backup_name name stamp = append_str name (append_str "_" (append_str stamp ".db.backup"))

-- the copy under the temporary name, and its renaming
unfoldable pub copy_then_rename : String → String → Text → String → Disk → Result BackupInfo × Disk
unfolding copy_file
copy_then_rename file_name path database src d =
    let tmp = append_str path ".tmp" in
    let (copied, d1) = copy_file src tmp d in
    elim copied [
      | err e ↦ (err (wrapf "copy backup" e), remove_file tmp d1)
      | ok _ ↦
          let (renamed, d2) = rename_file tmp path d1 in
          elim renamed [
            | err e ↦ (err (wrapf "atomic rename" e), remove_file tmp d2)
            | ok _ ↦ (described file_name path database (stat path d2), d2)
          ]
    ]

module _ (s : Driver) (a : Aead) (join : String → String → String) (bm : BackupManager) where
  abbrev pub backup_path : String → String → String
  backup_path name stamp = join bm.backup_dir (backup_name name stamp)

  abbrev pub data_path : String → String
  data_path name = append_str bm.data_dir (append_str "/" name)

  -- the file that is copied
  abbrev pub source_path : String → Manager s.Handle → Disk → String
  source_path name m d = elim bm.cipher [
    | none ↦ data_path name
    | some key ↦ active_path s a join name m d
  ]

  unfoldable pub create_backup :
      String → String → Manager s.Handle → Disk → Result BackupInfo × (Manager s.Handle × Disk)
  unfolding copy_then_rename
  create_backup name stamp m d =
      let (opened, (m1, d1)) = open_db s a join name m d in
      elim opened [
        | err e ↦ (err (wrapf "open database" e), (m1, d1))
        | ok h ↦
            let d2 = (s.exec "PRAGMA wal_checkpoint(TRUNCATE)" h d1).1 in
            let (info, d3) =
              copy_then_rename (backup_name name stamp) (backup_path name stamp) (codes name)
                (source_path name m1 d2) d2 in
            (info, (m1, d3))
      ]

  -- the backup's path as it is given, or in the directory of the backups
  abbrev pub backup_file : String → Disk → String
  backup_file file d =
      if is_present (stat file d)
      then file
      else if is_present (stat (join bm.backup_dir file) d)
      then join bm.backup_dir file
      else file

  -- the end of RestoreBackup: the database is closed, written over and opened
  unfoldable pub overwrite :
      Result Bytes
      → String
      → String
      → Manager s.Handle
      → Disk
      → Result (Unit {0}) × (Manager s.Handle × Disk)
  unfolding copy_file
  overwrite random file name m d =
      let (m1, d1) = (close_db s a join random name m d).1 in
      let (copied, d2) = copy_file file (data_path name) d1 in
      elim copied [
        | err e ↦ (err (wrapf "restore file" e), (m1, d2))
        | ok _ ↦
            let (opened, after) = open_db s a join name m1 d2 in
            elim opened [
              | err e ↦ (err (wrapf "reopen after restore" e), after)
              | ok h ↦ (ok tt, after)
            ]
      ]

  unfoldable pub restore_backup :
      Result Bytes
      → String
      → String
      → Manager s.Handle
      → Disk
      → Result (Unit {0}) × (Manager s.Handle × Disk)
  unfolding overwrite
  restore_backup random file name m d =
      if is_present (stat (backup_file file d) d)
      then overwrite random (backup_file file d) name m d
      else (err (wrapf "backup file not found" (reported "no such file or directory")), (m, d))

  -- the part of a name before the first underscore
  abbrev pub database_of_name : Text → Text
  database_of_name name = elim (split_2 b'_' name) [ none ↦ name | some (before, after) ↦ before ]

  -- the entries of the directory whose file is there, in the order of os.ReadDir
  abbrev pub found_backups : List String → Disk → List BackupInfo
  found_backups [] d = []
  found_backups (name ∷ names) d =
      let rest = found_backups names d in
      elim (stat (join bm.backup_dir name) d) [
        | none ↦ rest
        | some f ↦
            if has_suffix (codes name) (codes ".backup")
            then (record {
              name = name;
              path = join bm.backup_dir name;
              size = length f.content;
              created_at = f.modified;
              database = database_of_name (codes name);
            })
              ∷ rest
            else rest
      ]

  unfoldable pub list_backups : List String → Disk → List BackupInfo
  list_backups names d = newest_first (λ b. b.created_at) (found_backups names d)

  unfoldable pub delete_backup : String → Disk → Result (Unit {0}) × Disk
  delete_backup file d =
      if is_present (stat file d)
      then (ok tt, remove_file file d)
      else (err (reported "no such file or directory"), d)

  -- the loop of pruneOldBackups; its errors are logged only
  unfoldable pub delete_all : List BackupInfo → Disk → Disk
  unfolding delete_backup
  delete_all [] d = d
  delete_all (b ∷ bs) d = delete_all bs (delete_backup b.path d).1

  -- pruneOldBackups
  unfoldable pub prune_old_backups : ℕ → List String → Disk → Disk
  unfolding list_backups delete_all
  prune_old_backups keep_count names d =
      let all = list_backups names d in
      if leb (length all) keep_count then d else delete_all (drop keep_count all) d

  -- what a tick of scheduledBackupLoop does; `names` is what the directory then holds
  unfoldable pub scheduled_backup :
      ℕ
      → String
      → (Disk → List String)
      → Manager s.Handle
      → Disk
      → Result BackupInfo × (Manager s.Handle × Disk)
  unfolding create_backup prune_old_backups
  scheduled_backup keep_count stamp names m d =
      let (info, (m', d')) = create_backup "main" stamp m d in
      (info, (m', if ltb 0 keep_count then prune_old_backups keep_count (names d') d' else d'))
