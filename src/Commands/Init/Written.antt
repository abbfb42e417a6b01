-- ===== src/Commands/Init/Written.antt =====
-- What `sparkdb init` writes, and that Load and GetCipher take it.
use spark_db.Prelude.{
  ◌<◌, String, [], ◌∷◌, ◌≡◌, refl, Bool, true, false, All, length, Option, some, none, Result, ok,
  str_eq, eq_refl, arith, Bool-cases, inl, inr, if◌then◌else◌,
}
use spark_db.Text.{Text, is_empty}
use spark_db.Disk.{Bytes, Disk, stored}
use spark_db.Disk.Files.{write_file-writable, read_file-stored}
use spark_db.Encryption.Hex.{encode_hex}
use spark_db.Encryption.Cipher.{Aead, valid_size, get_cipher, new_cipher_from_hex}
use spark_db.Encryption.Cipher.RoundTrip.{new_cipher_from_hex-encode_hex}
use spark_db.Config.{Config, is_port, load, load_file}
use spark_db.Server.Startup.{cipher_of}
use spark_db.Commands.Init.{
  InitOptions, InitConfig, Host, or_default, init_config, prepare_project, init_project,
  config_path, data_dir_of, backup_dir_of,
}

-- what viper documents: the fields of the file by their names, and the defaults of Load for the
-- others, where the environment sets none of them
abbrev pub configured : InitConfig → Config
configured c = record {
  server = record { host = c.host; port = c.port; read_only = false; allowed_origins = [] };
  database = c.database;
  auth = record { enabled = false; jwt_secret = c.jwt_secret };
  tls = c.tls;
  encryption = record { enabled = c.encryption_enabled; key = c.encryption_key; key_file = "" };
  backup = c.backup;
  replication = c.replication;
}

pub encode_hex-filled :
    (key : Bytes) → valid_size (length key) ≡ true → is_empty (encode_hex key) ≡ false
unfolding encode_hex
encode_hex-filled [] h = absurd (ground arith)
encode_hex-filled (b ∷ key) h = refl

-- the configuration that init writes
abbrev pub project : Host → InitOptions → String → Bytes → Bytes → InitConfig
project h o abs_dir secret key =
    init_config h o abs_dir secret (if o.gen_key then encode_hex key else [])

module _ (h : Host) (o : InitOptions) (abs_dir : String)
    (abs : h.abs (or_default o.dir ".") ≡ ok abs_dir)
    (makes : (path : String) → h.mkdir_all path ≡ ok tt) where
  prepare_project-project :
      (secret key : Bytes)
      → prepare_project h o (ok secret) (ok key) ≡ ok (abs_dir, project h o abs_dir secret key)
  unfolding prepare_project
  prepare_project-project secret key = elim (Bool-cases o.gen_key) [
    | inl e ↦
        rw
          (
            abs,
            makes abs_dir,
            makes (data_dir_of h o abs_dir),
            makes (backup_dir_of h o abs_dir),
            e,
          )
          refl
    | inr e ↦
        rw
          (
            abs,
            makes abs_dir,
            makes (data_dir_of h o abs_dir),
            makes (backup_dir_of h o abs_dir),
            e,
          )
          refl
  ]

  pub init_project-stored :
      (secret key : Bytes) (d : Disk)
      → d.writable (config_path h abs_dir) ≡ true
      → init_project h o (ok secret) (ok key) d ≡ (
        ok (config_path h abs_dir),
        stored (config_path h abs_dir) (h.encode (project h o abs_dir secret key)) d,
      )
  unfolding init_project
  init_project-stored secret key d free =
      rw
        (
          prepare_project-project secret key,
          init_project,
          write_file-writable (config_path h abs_dir) (h.encode (project h o abs_dir secret key)) d
              free,
        )
        refl

  -- the checks of Load
  pub load-project :
      (secret key : Bytes)
      → valid_size (length key) ≡ true
      → is_port o.port ≡ true
      → load (configured (project h o abs_dir secret key))
        ≡ ok (configured (project h o abs_dir secret key))
  unfolding load init_config
  load-project secret key size port = elim (Bool-cases o.gen_cert) [
    | inl c ↦ elim (Bool-cases o.gen_key) [
      | inl k ↦ rw (port, c, k, encode_hex-filled key size) refl
      | inr k ↦ rw (port, c, k) refl
    ]
    | inr c ↦ elim (Bool-cases o.gen_key) [
      | inl k ↦ rw (port, c, k, encode_hex-filled key size) refl
      | inr k ↦ rw (port, c, k) refl
    ]
  ]

get_cipher-given :
    (a : Aead) (key env : Text) (d : Disk)
    → is_empty key ≡ false
    → get_cipher a key "" env d ≡ new_cipher_from_hex a key
unfolding get_cipher
get_cipher-given a [] env d h = absurd (let wrong : true ≡ false = h in cc)
get_cipher-given a (c ∷ key) env d h = refl

module _ (a : Aead) (key : Bytes) (bytes : All (λ b. b < 256) key)
    (size : valid_size (length key) ≡ true) (accepts : a.new_gcm key ≡ ok tt) where
  cipher_of-key :
      (env : Text) (d : Disk)
      → cipher_of a (record { enabled = true; key = encode_hex key; key_file = "" }) env d
        ≡ ok (some key)
  unfolding cipher_of
  cipher_of-key env d =
      rw
        (
          get_cipher-given a (encode_hex key) env d (encode_hex-filled key size),
          new_cipher_from_hex-encode_hex a key bytes size accepts,
        )
        refl

  pub cipher_of-asked :
      (gen_key : Bool) (env : Text) (d : Disk)
      → cipher_of a
          (record {
            enabled = gen_key;
            key = if gen_key then encode_hex key else [];
            key_file = "";
          })
          env
          d
        ≡ ok (if gen_key then some key else none)
  unfolding cipher_of
  cipher_of-asked true env d = cipher_of-key env d
  cipher_of-asked false env d = refl

pub load_file-project :
    (h : Host) (viper : Option Bytes → Result Config) (find : Disk → Option Bytes) (c : InitConfig)
    (path : String) (d : Disk)
    → viper (some (h.encode c)) ≡ ok (configured c)
    → str_eq path "" ≡ false
    → load (configured c) ≡ ok (configured c)
    → load_file viper find path (stored path (h.encode c) d) ≡ ok (configured c)
unfolding load_file
load_file-project h viper find c path d reads named loads =
    rw (named, read_file-stored path path (h.encode c) d, eq_refl path, reads, loads) refl
