-- ===== src/Backup/Copies.antt =====
-- What a backup holds, and what a restored database is opened on.
use Prim.Native.Char.{code}
use spark_db.Prelude.{
  insert, remove, String, ◌≡◌, refl, sym, ap, ◌∙◌, true, false, ◌∷◌, ◌++◌, length, length-append,
  arith, none, some, ok, Bool-cases, inl, inr, str_eq, eq_iff, eq_refl, lookup-insert,
  lookup-remove, if◌then◌else◌,
}
use spark_db.Text.{Text, codes, append_str}
use spark_db.Disk.{Bytes, File, Disk, stat, read_file, rename_file, stored}
use spark_db.Disk.Files.{write_file-writable, stat-stored}
use spark_db.Encryption.Cipher.{Aead}
use spark_db.Database.Manager.{Driver, Manager, open_db}
use spark_db.Backup.{
  BackupManager, copy_file, copy_then_rename, backup_name, backup_path, source_path, create_backup,
}

codes-append_str : (s t : String) → codes (append_str s t) ≡ codes s ++ codes t
codes-append_str String.[] t = refl
codes-append_str (String.◌∷◌ c s) t = ap (λ l. code c ∷ l) (codes-append_str s t)

-- The temporary file is another one.
differ : (path : String) → str_eq path (append_str path ".tmp") ≡ false
differ path = elim (Bool-cases (str_eq path (append_str path ".tmp"))) [
  | inr e ↦ e
  | inl e ↦
      let same : append_str path ".tmp" ≡ path = sym ((eq_iff path (append_str path ".tmp")).0 e) in
      let lengths : length (codes path ++ codes ".tmp") ≡ length (codes path) =
        ap length (sym (codes-append_str path ".tmp") ∙ ap codes same) in
      absurd (omega (arith, length-append (codes path) (codes ".tmp")))
]

copy_file-stored :
    (src dst : String) (content : Bytes) (d : Disk)
    → read_file src d ≡ ok content
    → d.writable dst ≡ true
    → copy_file src dst d ≡ (ok tt, stored dst content d)
unfolding copy_file
copy_file-stored src dst content d here free =
    rw (here, write_file-writable dst content d free) refl

-- the disk after the file `src` has been given the free name `dst`
abbrev renamed : File → String → String → Disk → Disk
renamed f src dst d = record d { files = insert dst f (remove src d.files) }

rename_file-present :
    (f : File) (src dst : String) (d : Disk)
    → stat src d ≡ some f
    → d.writable dst ≡ true
    → rename_file src dst d ≡ (ok tt, renamed f src dst d)
unfolding rename_file
rename_file-present f src dst d here free = rw (here, rename_file, free) refl

stat-renamed :
    (f : File) (src dst other : String) (d : Disk)
    → stat other (renamed f src dst d)
      ≡ (if str_eq dst other then some f else if str_eq src other then none else stat other d)
stat-renamed f src dst other d =
    ground (arith, lookup-insert dst other f (remove src d.files), lookup-remove src other d.files)

copy_then_rename_lem :
    (file_name path : String) (database : Text) (src : String) (content : Bytes) (d : Disk)
    → read_file src d ≡ ok content
    → d.writable (append_str path ".tmp") ≡ true
    → d.writable path ≡ true
    → let file : File = record { content = content; modified = d.clock } in
      copy_then_rename file_name path database src d ≡ (
        ok (record {
          name = file_name;
          path = path;
          size = length content;
          created_at = d.clock;
          database = database;
        }),
        renamed file (append_str path ".tmp") path (stored (append_str path ".tmp") content d),
      )
unfolding copy_then_rename
copy_then_rename_lem file_name path database src content d here free free' =
    let tmp = append_str path ".tmp" in
    let file : File = record { content = content; modified = d.clock } in
    let once = stored tmp content d in
    let there : stat tmp once ≡ some file = rw (stat-stored tmp tmp content d, eq_refl tmp) refl in
    let found : stat path (renamed file tmp path once) ≡ some file =
      rw (stat-renamed file tmp path path once, eq_refl path) refl in
    let copied = copy_file-stored src tmp content d here free in
    let moved =
      ap (λ r. rename_file tmp path r.1) copied
      ∙ rename_file-present file tmp path once there free' in
    rw (ap (λ r. r.0) copied, copy_then_rename, ap (λ r. r.0) moved, ap (λ r. r.1) moved, found)
      refl

module _ (s : Driver) (a : Aead) (join : String → String → String) (bm : BackupManager) where
  -- A backup of a database that opens, after the checkpoint of its journal, holds the bytes of the file
  -- that it is taken from and says so in its description; no other file changes, and no temporary file
  -- is left. The two paths that are written are writable.
  pub create_backup_lem :
      (name stamp : String) (m : Manager s.Handle) (d : Disk) (h : s.Handle) (content : Bytes)
      → let opened = open_db s a join name m d in
        let d2 = (s.exec "PRAGMA wal_checkpoint(TRUNCATE)" h opened.1.1).1 in
        let path = backup_path s a join bm name stamp in
        let after = create_backup s a join bm name stamp m d in
        opened.0 ≡ ok h
        → read_file (source_path s a join bm name opened.1.0 d2) d2 ≡ ok content
        → d2.writable (append_str path ".tmp") ≡ true
        → d2.writable path ≡ true
        → (after.0
            ≡ ok (record {
              name = backup_name name stamp;
              path = path;
              size = length content;
              created_at = d2.clock;
              database = codes name;
            }))
          × (read_file path after.1.1 ≡ ok content)
          × (stat (append_str path ".tmp") after.1.1 ≡ none)
          × ((other : String)
              → str_eq path other ≡ false
              → str_eq (append_str path ".tmp") other ≡ false
              → stat other after.1.1 ≡ stat other d2)
  unfolding create_backup
  create_backup_lem name stamp m d h content e here free free' =
      let opened = open_db s a join name m d in
      let d2 = (s.exec "PRAGMA wal_checkpoint(TRUNCATE)" h opened.1.1).1 in
      let path = backup_path s a join bm name stamp in
      let tmp = append_str path ".tmp" in
      let file : File = record { content = content; modified = d2.clock } in
      let result =
        copy_then_rename_lem (backup_name name stamp) path (codes name)
          (source_path s a join bm name opened.1.0 d2) content d2 here free free' in
      let once = stored tmp content d2 in
      let apart : str_eq path tmp ≡ false = differ path in
      rw (e, create_backup, ap (λ r. r.0) result, ap (λ r. r.1) result)
        (
          refl,
          (unfold read_file in rw (stat-renamed file tmp path path once, eq_refl path) refl),
          rw (stat-renamed file tmp path tmp once, apart, eq_refl tmp) refl,
          λ other not_path not_tmp.
              rw
                (
                  stat-renamed file tmp path other once,
                  not_path,
                  not_tmp,
                  stat-stored tmp other content d2,
                )
                (rw (not_tmp) refl),
        )
