-- ===== src/Database/Manager.antt =====
-- internal/database/sqlite.go: `Manager`, its open databases and their files. database/sql with the
-- SQLite driver is the parameter `Driver`, AES-GCM is `Aead`, filepath.Join is `join`; `random` is
-- what crypto/rand returns for each database.
pub mod Listing
pub mod Confinement
pub mod Reopening
pub mod Handles
pub mod Examples
mod Tests
use spark_db.Prelude.{
  ℕ, String, Bool, true, false, List, [], ◌∷◌, ◌++◌, map, length, ltb, Option, none, some, Assoc,
  lookup, insert, remove, Result, ok, err, Error, wrapf, wrap, str_eq, if◌then◌else◌,
}
use spark_db.Text.{append_str}
use spark_db.Disk.{Bytes, File, Disk, stat, remove_file, remove_all}
use spark_db.Encryption.Cipher.{Aead, Cipher, encrypt_copy, encrypt_file, decrypt_copy}

pub record Driver : Type 1 where
  pub Handle : Type 0
  -- sql.Open with the limits on connections, Exec of a pragma, and Close
  pub open_sql : String → ℕ → Disk → Result Handle × Disk
  pub exec : String → Handle → Disk → Result (Unit {0}) × Disk
  pub close_sql : Handle → Disk → Result (Unit {0}) × Disk

pub record Manager (Handle : Type 0) : Type 0 where
  pub dbs : Assoc Handle
  pub data_dir : String
  pub wal_mode : Bool
  pub max_conns : ℕ
  pub cipher : Option Cipher
  pub dec_dir : String

abbrev pub new_manager : {Handle : Type 0} → String → Bool → ℕ → Manager Handle
new_manager data_dir wal_mode max_conns = record {
  dbs = [];
  data_dir = data_dir;
  wal_mode = wal_mode;
  max_conns = max_conns;
  cipher = none;
  dec_dir = "";
}

-- the directory that os.MkdirTemp made, its error ignored
abbrev pub made : Result String → String
made (ok dir) = dir
made (err e) = ""

abbrev pub new_encrypted_manager :
    {Handle : Type 0} → Result String → String → Bool → ℕ → Cipher → Manager Handle
new_encrypted_manager temp data_dir wal_mode max_conns key = record {
  dbs = [];
  data_dir = data_dir;
  wal_mode = false;
  max_conns = max_conns;
  cipher = some key;
  dec_dir = made temp;
}

abbrev holds_bytes : Option File → Bool
holds_bytes none = false
holds_bytes (some f) = ltb 0 (length f.content)

unfoldable pub is_encrypted : String → Disk → Bool
is_encrypted path d = holds_bytes (stat path d)

abbrev pub is_present : Option File → Bool
is_present none = false
is_present (some f) = true

-- the pragmas that Open sets, each with the label of its error
abbrev pub pragmas : Bool → List (String × String)
pragmas wal_mode =
    let rest : List (String × String) =
      ("PRAGMA busy_timeout=5000", "set busy timeout")
      ∷ ("PRAGMA foreign_keys=ON", "enable foreign keys")
      ∷ ("PRAGMA synchronous=NORMAL", "set synchronous mode")
      ∷ [] in
    if wal_mode then ("PRAGMA journal_mode=WAL", "enable WAL") ∷ rest else rest

abbrev pub resolve_path : {Handle : Type 0} → String → Manager Handle → String
resolve_path name m = append_str m.data_dir (append_str "/" name)

abbrev pub dec_path :
    {Handle : Type 0} → (String → String → String) → String → Manager Handle → String
dec_path join name m = join m.dec_dir name

module _ (s : Driver) where
  -- Each pragma in order; the first error closes the database.
  abbrev pub set_pragmas : List (String × String) → s.Handle → Disk → Result s.Handle × Disk
  set_pragmas [] h d = (ok h, d)
  set_pragmas (p ∷ ps) h d =
      let (r, d') = s.exec p.0 h d in
      elim r [ ok _ ↦ set_pragmas ps h d' | err e ↦ (err (wrapf p.1 e), (s.close_sql h d').1) ]

  -- the part of Open from sql.Open on
  unfoldable pub connect : String → Manager s.Handle → Disk → Result s.Handle × Disk
  connect path m d =
      let (r, d') = s.open_sql path m.max_conns d in
      elim r [
        | ok h ↦ set_pragmas (pragmas m.wal_mode) h d'
        | err e ↦ (err (wrapf "open database" e), d')
      ]

module _ (s : Driver) (a : Aead) (join : String → String → String) where
  -- `defer os.Remove(path)`
  abbrev pub then_removed : {A : Type 0} → String → A × Disk → A × Disk
  then_removed path (r, d) = (r, remove_file path d)

  -- Open of an encrypted file: its decrypted copy is opened, and removed when Open returns.
  unfoldable pub connect_decrypted :
      Cipher → String → Manager s.Handle → Disk → Result s.Handle × Disk
  unfolding connect
  connect_decrypted key name m d =
      let (r, d') = decrypt_copy a key (resolve_path name m) (dec_path join name m) d in
      elim r [
        | ok _ ↦ then_removed (dec_path join name m) (connect s (dec_path join name m) m d')
        | err e ↦ (err (wrapf "decrypt database" e), d')
      ]

  abbrev pub connect_with :
      Option Cipher → String → Manager s.Handle → Disk → Result s.Handle × Disk
  connect_with none name m d = connect s (resolve_path name m) m d
  connect_with (some key) name m d =
      if is_encrypted (resolve_path name m) d
      then connect_decrypted key name m d
      else connect s (resolve_path name m) m d

  -- `m.dbs[name] = db` after a connection that succeeded
  abbrev pub registered :
      String
      → Manager s.Handle
      → Result s.Handle × Disk
      → Result s.Handle × (Manager s.Handle × Disk)
  registered name m (ok h, d) = (ok h, (record m { dbs = insert name h m.dbs }, d))
  registered name m (err e, d) = (err e, (m, d))

  unfoldable pub open_db :
      String → Manager s.Handle → Disk → Result s.Handle × (Manager s.Handle × Disk)
  unfolding connect is_encrypted connect_decrypted
  open_db name m d = elim (lookup name m.dbs) [
    | some h ↦ (ok h, (m, d))
    | none ↦ registered name m (connect_with m.cipher name m d)
  ]

  -- the errors are printed only
  unfoldable pub reencrypt : Result Bytes → String → Manager s.Handle → Disk → Disk
  unfolding is_encrypted
  reencrypt random name m d = elim (m.cipher) [
    | none ↦ d
    | some key ↦
        if is_present (stat (dec_path join name m) d)
        then (encrypt_copy a random key (dec_path join name m) (resolve_path name m) d).1
        else if is_encrypted (resolve_path name m) d
        then (encrypt_file a random key (resolve_path name m) d).1
        else d
  ]

  unfoldable pub cleanup_decrypted : String → Manager s.Handle → Disk → Disk
  cleanup_decrypted name m d =
      if str_eq m.dec_dir "" then d else remove_file (dec_path join name m) d

  unfoldable pub close_db :
      Result Bytes
      → String
      → Manager s.Handle
      → Disk
      → Result (Unit {0}) × (Manager s.Handle × Disk)
  unfolding reencrypt cleanup_decrypted
  close_db random name m d = elim (lookup name m.dbs) [
    | none ↦ (ok tt, (m, d))
    | some h ↦
        let (r, d') = s.close_sql h d in
        elim r [
          | err e ↦ (err e, (m, d'))
          | ok _ ↦
              let m' = record m { dbs = remove name m.dbs } in
              (ok tt, (m', cleanup_decrypted name m' (reencrypt random name m' d')))
        ]
  ]

  -- the last error of the loop
  abbrev pub latest : Result (Unit {0}) → Result (Unit {0}) → Result (Unit {0})
  latest earlier (ok _) = earlier
  latest earlier (err e) = err e

  -- the loop of CloseAll over the entries in the order that Go visits them
  unfoldable pub close_each :
      (String → Result Bytes)
      → Assoc s.Handle
      → Result (Unit {0})
      → Manager s.Handle
      → Disk
      → Result (Unit {0}) × (Manager s.Handle × Disk)
  unfolding reencrypt cleanup_decrypted
  close_each random [] last m d = (last, (m, d))
  close_each random ((name, h) ∷ rest) last m d =
      let (r, d') = s.close_sql h d in
      let m' = record m { dbs = remove name m.dbs } in
      close_each random rest (latest last r) m'
        (cleanup_decrypted name m' (reencrypt (random name) name m' d'))

  unfoldable pub close_all :
      (String → Result Bytes)
      → Manager s.Handle
      → Disk
      → Result (Unit {0}) × (Manager s.Handle × Disk)
  unfolding close_each
  close_all random m d =
      let (r, (m', d')) = close_each random m.dbs (ok tt) m d in
      (r, (m', if str_eq m'.dec_dir "" then d' else remove_all m'.dec_dir d'))

  unfoldable pub active_path : String → Manager s.Handle → Disk → String
  active_path name m d = elim (m.cipher) [
    | none ↦ resolve_path name m
    | some key ↦
        if str_eq m.dec_dir ""
        then resolve_path name m
        else if is_present (stat (dec_path join name m) d)
        then dec_path join name m
        else resolve_path name m
  ]
