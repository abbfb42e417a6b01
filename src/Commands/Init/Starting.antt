-- ===== src/Commands/Init/Starting.antt =====
-- The server that starts from the configuration of `sparkdb init`.
use spark_db.Prelude.{
  ℕ, ◌<◌, String, ◌≡◌, refl, ap, true, false, All, length, Option, some, none, Result, ok, str_eq,
  if◌then◌else◌,
}
use spark_db.Text.{Text}
use spark_db.Disk.{Bytes, Disk}
use spark_db.Encryption.Cipher.{Aead, Cipher, valid_size}
use spark_db.Encryption.Certificates.{Issuer}
use spark_db.Config.{Config, is_port, load_file}
use spark_db.Auth.Authenticator.{Services}
use spark_db.Auth.Accounts.{ensure_default_admin}
use spark_db.Server.Startup.{Stored, Server, set_up_tls, server_of}
use spark_db.Commands.Init.{InitOptions, Host, or_default, init_config, init_project, config_path}
use spark_db.Server.Startup.Secured.{manager_of-cipher}
use spark_db.Server.Startup.Success.{new_server-ok}
use spark_db.Commands.Start.{run_start}
use spark_db.Commands.Init.Written.{
  configured, project, init_project-stored, load-project, cipher_of-asked, load_file-project,
}

module _ (h : Host) (o : InitOptions) (abs_dir : String)
    (abs : h.abs (or_default o.dir ".") ≡ ok abs_dir)
    (makes : (path : String) → h.mkdir_all path ≡ ok tt) (viper : Option Bytes → Result Config)
    (find : Disk → Option Bytes) (a : Aead) (s : Services) (i : Issuer) (Handle : Type 0)
    (minute now : ℕ) (temp : Result String) (env : Text) (random : Bytes) where
  -- After `sparkdb init`, with directories that can be made and a configuration that can be
  -- written, has a path and is read back by viper, `sparkdb start` on that configuration gives a
  -- server, where the port is one, the drawn key is one that AES accepts, the default account is
  -- there or can be made, and TLS can be set up if it was asked for: the server has TLS if it was
  -- asked for, and the manager of its databases has the very key that init drew as its cipher if
  -- one was asked for, and otherwise none.
  pub start-init_project :
      (secret key : Bytes) (st : Stored)
      → viper (some (h.encode (project h o abs_dir secret key)))
        ≡ ok (configured (project h o abs_dir secret key))
      → is_port o.port ≡ true
      → All (λ b. b < 256) key
      → valid_size (length key) ≡ true
      → a.new_gcm key ≡ ok tt
      → st.disk.writable (config_path h abs_dir) ≡ true
      → str_eq (config_path h abs_dir) "" ≡ false
      → (ensure_default_admin s now st.system_db).0 ≡ ok tt
      → (set_up_tls i
          (project h o abs_dir secret key).tls
          (init_project h o (ok secret) (ok key) st.disk).1).0
        ≡ ok o.gen_cert
      → let (made, d) = init_project h o (ok secret) (ok key) st.disk in
        (made ≡ ok (config_path h abs_dir))
        × ((server : Server Handle) × ((run_start viper find a s i Handle minute now
                (ok tt)
                temp
                env
                random
                (config_path h abs_dir)
                (record st { disk = d })).0
              ≡ ok server)
            × (server.tls_enabled ≡ o.gen_cert)
            × (server.db_manager.cipher ≡ (if o.gen_key then some key else none)))
  unfolding run_start init_config
  start-init_project secret key st reads port bytes size accepts free named admin tls =
      let c = project h o abs_dir secret key in
      let path = config_path h abs_dir in
      let used : Option Cipher = if o.gen_key then some key else none in
      let init = init_project-stored h o abs_dir abs makes secret key st.disk free in
      let d = (init_project h o (ok secret) (ok key) st.disk).1 in
      let loads : load_file viper find path d ≡ ok (configured c) = rw (init) (
        load_file-project h viper find c path st.disk reads named
          (load-project h o abs_dir abs makes secret key size port)) in
      let keyed = cipher_of-asked a key bytes size accepts o.gen_key env d in
      rw (loads, run_start)
        (
          ap (λ p. p.0) init,
          (
            server_of a s i Handle minute now (ok tt) temp env random (configured c) used
                (ensure_default_admin s now st.system_db).1 o.gen_cert,
            new_server-ok a s i Handle minute now temp env random (configured c) used o.gen_cert
                (record st { disk = d }) keyed admin tls,
            refl,
            manager_of-cipher Handle temp c.database used,
          ),
        )
