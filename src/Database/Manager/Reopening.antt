-- ===== src/Database/Manager/Reopening.antt =====
-- What opening and closing a database leaves of its handle and of its file.
use spark_db.Prelude.{
  String, ◌≡◌, refl, ◌∙◌, ap, true, false, ◌++◌, length, ltb, none, some, lookup, insert, remove,
  insert, remove, lookup-insert, Result, ok, Bool-cases, inl, inr, str_eq, eq_refl, eq_iff,
}
use spark_db.Text.{codes, has_prefix}
use spark_db.Disk.{Bytes, File, Disk, stat, read_file, remove_file, stored}
use spark_db.Text.Search.{has_prefix_refl}
use spark_db.Encryption.Cipher.RoundTrip.{decrypt_copy-decrypt, encrypt_file-stored}
use spark_db.Disk.Files.{stat-remove_file, read_file-stored, read_file-remove_file}
use spark_db.Encryption.Cipher.{Aead, Cipher, decrypt, decrypt_copy}
use spark_db.Database.Manager.{
  Driver, Manager, registered, then_removed, connect_with, resolve_path, dec_path, connect,
  connect_decrypted, open_db, close_db, reencrypt, cleanup_decrypted, is_encrypted,
}
use spark_db.Database.Manager.Confinement.{Keeps, Confined, connect-opened_at}

-- Close of an open database that the driver closes.
close_db-open :
    (s : Driver) (a : Aead) (join : String → String → String) (random : Result Bytes)
    (name : String) (m : Manager s.Handle) (d : Disk) (h : s.Handle)
    → lookup name m.dbs ≡ some h
    → (s.close_sql h d).0 ≡ ok tt
    → let m' = record m { dbs = remove name m.dbs } in
      close_db s a join random name m d ≡ (
        ok tt,
        (
          m',
          cleanup_decrypted s a join name m'
              (reencrypt s a join random name m' (s.close_sql h d).1),
        ),
      )
unfolding close_db
close_db-open s a join random name m d h found closes = rw (found, close_db, closes) refl

-- Without a decrypted copy, the database's file is encrypted where it is.
reencrypt-in_place :
    (s : Driver) (a : Aead) (join : String → String → String) (key : Cipher) (nonce : Bytes)
    (name : String) (m : Manager s.Handle) (d : Disk) (f : File)
    → m.cipher ≡ some key
    → stat (dec_path join name m) d ≡ none
    → stat (resolve_path name m) d ≡ some f
    → ltb 0 (length f.content) ≡ true
    → d.writable (resolve_path name m) ≡ true
    → reencrypt s a join (ok nonce) name m d
      ≡ stored (resolve_path name m) (nonce ++ a.seal key nonce f.content) d
unfolding reencrypt is_encrypted
reencrypt-in_place s a join key nonce name m d f keyed copy present filled free =
    let here : read_file (resolve_path name m) d ≡ ok f.content =
      unfold read_file in rw (present) refl in
    rw (keyed, reencrypt, copy, present, filled)
      (ap (λ r. r.1) (encrypt_file-stored a key nonce (resolve_path name m) f.content d here free))

read_file-cleanup_decrypted :
    (s : Driver) (a : Aead) (join : String → String → String) (name path : String)
    (m : Manager s.Handle) (d : Disk)
    → str_eq (dec_path join name m) path ≡ false
    → read_file path (cleanup_decrypted s a join name m d) ≡ read_file path d
unfolding cleanup_decrypted
read_file-cleanup_decrypted s a join name path m d apart = elim (Bool-cases (str_eq m.dec_dir "")) [
  | inl e ↦ rw (e) refl
  | inr e ↦ rw (e, read_file-remove_file (dec_path join name m) path d, apart) refl
]

-- the manager with a key, and what it needs to open and close `name` once: the file is there, is
-- decrypted, the copy can be written, and it is no journal of the database
pub record Openable (s : Driver) (a : Aead) (join : String → String → String) (key : Cipher)
    (name : String) (m : Manager s.Handle) (d : Disk) : Type 0 where
  pub keyed : m.cipher ≡ some key
  pub unopened : lookup name m.dbs ≡ none
  pub file : File
  pub present : stat (resolve_path name m) d ≡ some file
  pub filled : ltb 0 (length file.content) ≡ true
  pub plaintext : Bytes
  pub decrypts : decrypt a key file.content ≡ ok plaintext
  pub copy-writable : d.writable (dec_path join name m) ≡ true
  pub apart : has_prefix (codes (resolve_path name m)) (codes (dec_path join name m)) ≡ false

module _ (s : Driver) (law : Confined s) (a : Aead) (join : String → String → String) (key : Cipher)
    (name : String) (m : Manager s.Handle) (d : Disk) (o : Openable s a join key name m d) where
  -- the disk with the decrypted copy, and what Open leaves
  abbrev pub copied : Disk
  copied = stored (dec_path join name m) o.plaintext d

  abbrev pub opened : Result s.Handle × Disk
  opened = connect s (dec_path join name m) m copied

  present_file : read_file (resolve_path name m) d ≡ ok o.file.content
  unfolding read_file
  present_file = rw (o.present) refl

  copying : decrypt_copy a key (resolve_path name m) (dec_path join name m) d ≡ (ok tt, copied)
  copying =
      decrypt_copy-decrypt a key (resolve_path name m) (dec_path join name m) o.file.content
        o.plaintext d present_file o.decrypts o.copy-writable

  connect_with-key :
      connect_with s a join (some key) name m d
      ≡ then_removed s a join (dec_path join name m) opened
  unfolding connect_decrypted is_encrypted
  connect_with-key =
      rw (o.present, o.filled, connect_decrypted, copying, ap (λ r. r.1) copying) refl

  open_db-connect :
      open_db s a join name m d
      ≡ registered s a join name m (then_removed s a join (dec_path join name m) opened)
  unfolding open_db
  open_db-connect =
      rw (o.unopened, open_db)
        (ap (λ c. registered s a join name m (connect_with s a join c name m d)) o.keyed
          ∙ ap (registered s a join name m) connect_with-key)

  differ : str_eq (dec_path join name m) (resolve_path name m) ≡ false
  differ = elim (Bool-cases (str_eq (dec_path join name m) (resolve_path name m))) [
    | inl e ↦
        (let looped : has_prefix (codes (resolve_path name m)) (codes (resolve_path name m))
              ≡ false =
            (let raw = o.apart in
              rw ((eq_iff (dec_path join name m) (resolve_path name m)).0 e) at raw) in
          cc (has_prefix_refl (codes (resolve_path name m)), looped))
    | inr e ↦ e
  ]

  -- The copy is gone when Open returns.
  opened-stat : stat (dec_path join name m) (remove_file (dec_path join name m) opened.1) ≡ none
  opened-stat =
      rw
        (
          stat-remove_file (dec_path join name m) (dec_path join name m) opened.1,
          eq_refl (dec_path join name m),
        )
        refl

  -- what the driver's Close leaves of the two files
  closed-stat :
      (h : s.Handle) (d' : Disk)
      → opened.0 ≡ ok h
      → stat (dec_path join name m) d' ≡ none
      → stat (resolve_path name m) d' ≡ some o.file
      → let after = (s.close_sql h d').1 in
        (stat (dec_path join name m) after ≡ none)
        × (stat (resolve_path name m) after ≡ some o.file)
        × (after.writable ≡ d'.writable)
  unfolding Keeps
  closed-stat h d' e gone stays =
      let dec = dec_path join name m in
      let at : law.opened_at h ≡ dec = connect-opened_at s law dec m copied h e in
      let raw = law.close_sql-Keeps h d' in
      let closing : Keeps dec d' (s.close_sql h d').1 = rw (at) at raw in
      let missing = law.close_sql-none h d' (rw (at) gone) in
      (rw (at) at missing, closing.0 (resolve_path name m) o.apart ∙ stays, closing.1)

  -- Open of an encrypted database leaves no decrypted copy under its name. Where the database is
  -- closed after any work that leaves its encrypted file as it was and brings no copy back under
  -- that name, Close encrypts the encrypted file a second time, with the key, and its content
  -- depends on nothing else: nothing of that work is stored. Here both files can be written, the
  -- driver opens and closes without an error and keeps to its own files, and crypto/rand gives the
  -- nonce.
  pub close_db-open_db :
      (h : s.Handle) (nonce : Bytes) (worked : Disk)
      → opened.0 ≡ ok h
      → stat (dec_path join name m) worked ≡ none
      → stat (resolve_path name m) worked ≡ some o.file
      → worked.writable (resolve_path name m) ≡ true
      → (s.close_sql h worked).0 ≡ ok tt
      → let first = open_db s a join name m d in
        let last = close_db s a join (ok nonce) name first.1.0 worked in
        (first.0 ≡ ok h)
        × (stat (dec_path join name m) first.1.1 ≡ none)
        × (last.0 ≡ ok tt)
        × (read_file (resolve_path name m) last.1.1 ≡ ok (nonce ++ a.seal key nonce o.file.content))
  close_db-open_db h nonce worked e gone_before stays_before writable closes =
      let path = resolve_path name m in
      let with_handle = record m { dbs = insert name h m.dbs } in
      let without = record with_handle { dbs = remove name with_handle.dbs } in
      let after = (s.close_sql h worked).1 in
      let found : lookup name with_handle.dbs ≡ some h =
        rw (lookup-insert name name h m.dbs, eq_refl name) refl in
      let (gone, stays, permissions) = closed-stat h worked e gone_before stays_before in
      let free : after.writable path ≡ true = rw (permissions) writable in
      let closing = close_db-open s a join (ok nonce) name with_handle worked h found closes in
      rw (open_db-connect, e)
        (
          refl,
          opened-stat,
          ap (λ r. r.0) closing,
          ap (λ r. read_file path r.1.1) closing
              ∙ read_file-cleanup_decrypted s a join name path without
                  (reencrypt s a join (ok nonce) name without after) differ
              ∙ ap (read_file path) (
                  reencrypt-in_place s a join key nonce name without after o.file o.keyed gone stays
                    o.filled free)
              ∙ rw
                  (
                    read_file-stored path path (nonce ++ a.seal key nonce o.file.content) after,
                    eq_refl path,
                  )
                  refl,
        )
