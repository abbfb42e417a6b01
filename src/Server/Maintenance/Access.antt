-- ===== src/Server/Maintenance/Access.antt =====
-- Who may back up, restore and read the logs.
use spark_db.Prelude.{
  String, ◌≡◌, refl, true, ◌⊎◌, inl, inr, Bool-cases, List, Option, none, some, Result, arith,
}
use spark_db.Disk.{Bytes}
use spark_db.Encryption.Cipher.{Aead}
use spark_db.Rbac.{
  Permission, perm_backup, perm_restore, perm_audit_log, perm_drop, perm_create_user,
}
use spark_db.Rbac.Separation.{admin_only}
use spark_db.Auth.Authenticator.{AuthUser}
use spark_db.Database.Manager.{Driver}
use spark_db.Backup.{BackupManager}
use spark_db.Server.Users.Guards.{IsAdmin}
use spark_db.Server.Maintenance.{
  MaintenanceRequest, Param, System, needed, forbidden, allowed, run_maintenance,
  handle_maintenance,
}

allowed-IsAdmin :
    (user : Option AuthUser) (perm : Permission)
    → (perm ≡ perm_drop) ⊎ (perm ≡ perm_create_user) ⊎ (perm ≡ perm_backup) ⊎ (perm ≡ perm_restore)
    → allowed user perm ≡ true
    → IsAdmin user
unfolding allowed
allowed-IsAdmin none perm which h = cc
allowed-IsAdmin (some u) perm which h = record {
  who = u;
  known = refl;
  admin = admin_only u.role perm which h;
}

-- a request to read the audit log, of a user who may
pub record Reads (user : Option AuthUser) (req : MaintenanceRequest) : Type 0 where
  pub limit : Param
  pub request : req ≡ MaintenanceRequest.audit_logs limit
  pub may : allowed user perm_audit_log ≡ true

forbidden-status : (req : MaintenanceRequest) → (forbidden req).status ≡ 403
forbidden-status req = ground arith

module _ (s : Driver) (a : Aead) (join : String → String → String) (bm : BackupManager) where
  -- what a user with the permission for a request may be
  permitted :
      (random : Result Bytes) (stamp : String) (names : List String) (user : Option AuthUser)
      (req : MaintenanceRequest) (sys : System s.Handle)
      → allowed user (needed req) ≡ true
      → IsAdmin user
        ⊎ (Reads user req × ((run_maintenance s a join bm random stamp names req sys).1 ≡ sys))
  unfolding run_maintenance
  permitted random stamp names user (MaintenanceRequest.audit_logs limit) sys h =
      inr (record { limit = limit; request = refl; may = h }, refl)
  permitted random stamp names user (MaintenanceRequest.backup database) sys h =
      inl (allowed-IsAdmin user perm_backup (inr (inr (inl refl))) h)
  permitted random stamp names user (MaintenanceRequest.restore body) sys h =
      inl (allowed-IsAdmin user perm_restore (inr (inr (inr refl))) h)
  permitted random stamp names user (MaintenanceRequest.delete_one name) sys h =
      inl (allowed-IsAdmin user perm_backup (inr (inr (inl refl))) h)
  permitted random stamp names user MaintenanceRequest.show_backups sys h =
      inl (allowed-IsAdmin user perm_backup (inr (inr (inl refl))) h)
  permitted random stamp names user (MaintenanceRequest.replication_log since limit) sys h =
      inl (allowed-IsAdmin user perm_backup (inr (inr (inl refl))) h)

  -- A request about backups, the audit log or the replication log is one of an administrator; or it
  -- changes nothing, and it is answered with 403 or reads the audit log for a user who may.
  pub handle_maintenance_guard :
      (random : Result Bytes) (stamp : String) (names : List String) (user : Option AuthUser)
      (req : MaintenanceRequest) (sys : System s.Handle)
      → IsAdmin user
        ⊎ (((handle_maintenance s a join bm random stamp names user req sys).1 ≡ sys)
            × (((handle_maintenance s a join bm random stamp names user req sys).0.status ≡ 403)
                ⊎ Reads user req))
  unfolding handle_maintenance
  handle_maintenance_guard random stamp names user req sys =
      elim (Bool-cases (allowed user (needed req))) [
        | inr e ↦ inr (rw (e) (refl, inl (forbidden-status req)))
        | inl e ↦ elim (permitted random stamp names user req sys e) [
          | inl admin ↦ inl admin
          | inr (reads, same) ↦ inr (rw (e) (same, inr reads))
        ]
      ]
