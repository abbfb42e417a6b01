-- ===== src/Server/Startup/Restart.antt =====
-- What a server that New returns is like, and that it can be started again.
use spark_db.Prelude.{
  ℕ, String, ◌≡◌, refl, sym, ap, ◌∙◌, true, false, not, ◌||◌, Result, ok, str_eq, Option-cases, inl,
  inr,
}
use spark_db.Text.{Text}
use spark_db.Disk.{Bytes, stat}
use spark_db.Encryption.Cipher.{Aead}
use spark_db.Encryption.Certificates.{Issuer, tls_server_config}
use spark_db.Config.{Config}
use spark_db.Database.System.{User}
use spark_db.Database.System.Users.{get_user_by_username}
use spark_db.Database.System.Users.Consistency.{IsConsistent}
use spark_db.Database.System.ReplicationLog.{
  ReplicationTables, get_replication_state, init_replication_state,
}
use spark_db.Auth.Authenticator.{Services}
use spark_db.Auth.Accounts.{ensure_default_admin}
use spark_db.Auth.Accounts.Passwords.{ensure_default_admin_idem}
use spark_db.Server.Startup.{Stored, Server, cipher_of, new_server}
use spark_db.Server.Startup.Secured.{
  is_ok, set_up_tls_idem, set_up_tls-other, cipher_of-kept, manager_of-cipher,
}
use spark_db.Server.Startup.Steps.{Started, new_server-Started}

module _ (a : Aead) (s : Services) (i : Issuer) (Handle : Type 0) (minute : ℕ)
    (opened : Result (Unit {0})) (temp : Result String) (env : Text) (random : Bytes) where
  -- what a server that New returned relies on
  pub record IsReady (c : Config) (st st' : Stored) (server : Server Handle) : Type 0 where
    pub admin : (u : User) × (get_user_by_username "admin" st'.system_db ≡ ok u)
    pub encrypts : cipher_of a c.encryption env st.disk ≡ ok server.db_manager.cipher
    pub encrypts_backups : server.backup_mgr.cipher ≡ server.db_manager.cipher
    pub certified : server.tls_enabled ≡ c.tls.enabled
    pub certificate_loads :
        not c.tls.enabled || is_ok (tls_server_config i c.tls.cert_file c.tls.key_file st'.disk)
        ≡ true
    pub role : (get_replication_state st'.replication).role ≡ c.replication.role
    pub resumes :
        (get_replication_state st'.replication).last_applied_id
        ≡ (get_replication_state st.replication).last_applied_id

  init_replication_state-kept :
      (role url : String) (t : ReplicationTables)
      → ((get_replication_state (init_replication_state role url t)).role ≡ role)
        × ((get_replication_state (init_replication_state role url t)).last_applied_id
            ≡ (get_replication_state t).last_applied_id)
        × (init_replication_state role url (init_replication_state role url t)
            ≡ init_replication_state role url t)
  unfolding init_replication_state get_replication_state
  init_replication_state-kept role url t = elim (Option-cases t.state) [
    | inl e ↦ rw (e) (refl, refl, refl)
    | inr (st, e) ↦ rw (e) (refl, refl, refl)
  ]

  Started-IsReady :
      (now : ℕ) (c : Config) (st st' : Stored) (server : Server Handle)
      → IsConsistent st.system_db
      → Started a s i Handle minute opened temp env random now c st st' server
      → IsReady c st st' server
  Started-IsReady now c st st' server ids b =
      let url = c.replication.primary_url in
      let admin_of = ap (λ p. p.1) b.admin in
      let (user, again) =
        ensure_default_admin_idem s now now st.system_db ids (ap (λ p. p.0) b.admin) in
      let (role, resumes, same) =
        init_replication_state-kept c.replication.role url st.replication in
      let (on, loads, set) = set_up_tls_idem i c.tls server.tls_enabled st.disk st'.disk b.tls in
      let manager : server.db_manager.cipher ≡ b.key =
        ap (λ x. x.db_manager.cipher) (sym b.built)
        ∙ manager_of-cipher Handle temp c.database b.key in
      let backups : server.backup_mgr.cipher ≡ b.key =
        ap (λ x. x.backup_mgr.cipher) (sym b.built) in
      record {
        admin = (user.0, rw (sym admin_of) user.1);
        encrypts = rw (manager) b.keyed;
        encrypts_backups = backups ∙ sym manager;
        certified = on;
        certificate_loads = loads;
        role = rw (sym b.replicates) role;
        resumes = rw (sym b.replicates) resumes;
      }

  Started-again :
      (now later : ℕ) (c : Config) (st st' : Stored) (server : Server Handle)
      → IsConsistent st.system_db
      → str_eq c.tls.cert_file c.encryption.key_file ≡ false
      → str_eq c.tls.key_file c.encryption.key_file ≡ false
      → Started a s i Handle minute opened temp env random now c st st' server
      → new_server a s i Handle minute later opened temp env random c st' ≡ (ok server, st')
  unfolding new_server
  Started-again now later c st st' server ids apart apart' b =
      let url = c.replication.primary_url in
      let admin_of = ap (λ p. p.1) b.admin in
      let idem = ensure_default_admin_idem s now later st.system_db ids (ap (λ p. p.0) b.admin) in
      let admin : ensure_default_admin s later st'.system_db ≡ (ok tt, st'.system_db) =
        rw (sym admin_of) idem.1 in
      let kept = init_replication_state-kept c.replication.role url st.replication in
      let replicates : init_replication_state c.replication.role url st'.replication
          ≡ st'.replication =
        rw (sym b.replicates) kept.2 in
      let tls = (set_up_tls_idem i c.tls server.tls_enabled st.disk st'.disk b.tls).2 in
      let file : stat c.encryption.key_file st'.disk ≡ stat c.encryption.key_file st.disk =
        ap (λ p. stat c.encryption.key_file p.1) (sym b.tls)
        ∙ set_up_tls-other i c.tls c.encryption.key_file st.disk apart apart' in
      let keyed : cipher_of a c.encryption env st'.disk ≡ ok b.key =
        cipher_of-kept a c.encryption env st.disk st'.disk file ∙ b.keyed in
      rw (keyed, b.opens, admin, replicates, tls, b.built, new_server) refl

  -- Where the ids and the names of the stored users are distinct and the file of the encryption key
  -- is neither that of the certificate nor that of its key: a server that New returns has an
  -- account called admin; the manager of its databases and that of its backups have the same
  -- cipher, that of the configured key, or none where the configuration does not ask for
  -- encryption; with TLS its certificate loads; it has the configured role, and replication goes on
  -- after the last applied entry; and New called again on what the first one left, at any time and
  -- with the same environment and random bytes, gives the same server and changes nothing.
  pub new_server-again :
      (now later : ℕ) (c : Config) (st st' : Stored) (server : Server Handle)
      → IsConsistent st.system_db
      → str_eq c.tls.cert_file c.encryption.key_file ≡ false
      → str_eq c.tls.key_file c.encryption.key_file ≡ false
      → new_server a s i Handle minute now opened temp env random c st ≡ (ok server, st')
      → IsReady c st st' server
        × (new_server a s i Handle minute later opened temp env random c st' ≡ (ok server, st'))
  new_server-again now later c st st' server ids apart apart' h =
      let b = new_server-Started a s i Handle minute opened temp env random now c st st' server h in
      (
        Started-IsReady now c st st' server ids b,
        Started-again now later c st st' server ids apart apart' b,
      )
