-- ===== src/Server/Maintenance.antt =====
-- internal/server/routes.go: the handlers of backups, of the audit log and of the replication log. The
-- numbers of a path or a query string are not negative; a body that does not decode is `none`, except
-- that HandleBackup goes on with an empty one. `names` is what the directory of the backups holds,
-- `logged` the entries that are handed to LogAudit, the last first.
pub mod Access
mod Tests
use Prim.Native.String
use spark_db.Prelude.{
  ℕ, String, Bool, true, false, not, ◌&&◌, ◌||◌, List, [], ◌∷◌, find, Option, none, some, Error,
  errorf, Result, ok, err, ltb, leb, str_eq, if◌then◌else◌,
}
use spark_db.Text.{Text, codes}
use spark_db.Disk.{Bytes, Disk}
use spark_db.Encryption.Cipher.{Aead}
use spark_db.Rbac.{Permission, has_permission, perm_backup, perm_restore, perm_audit_log}
use spark_db.Auth.Authenticator.{AuthUser}
use spark_db.Database.Manager.{Driver, Manager}
use spark_db.Database.System.AuditLog.{AuditEntry, AuditLog, get_audit_logs}
use spark_db.Database.System.ReplicationLog.{
  ReplicationEntry, ReplicationTables, get_replication_log,
}
use spark_db.Backup.{
  BackupInfo, BackupManager, create_backup, restore_backup, list_backups, delete_backup,
}

pub data Body : Type 0 where
  error_body : Error → Body
  message_body : String → Body
  backup_body : BackupInfo → Body
  backups_body : List BackupInfo → Body
  logs_body : List AuditEntry → Body
  entries_body : List ReplicationEntry → Body

pub record Answer : Type 0 where
  pub status : ℕ
  pub body : Body

abbrev pub refuse : ℕ → String → Answer
refuse status message = record { status = status; body = Body.error_body (errorf message) }

abbrev pub fail : Error → Answer
fail e = record { status = 500; body = Body.error_body e }

-- a number of a query string
pub data Param : Type 0 where
  absent : Param
  malformed : Param
  number : ℕ → Param

pub data MaintenanceRequest : Type 0 where
  audit_logs : Param → MaintenanceRequest
  backup : String → MaintenanceRequest
  -- the backup's file and the database
  restore : Option (String × String) → MaintenanceRequest
  delete_one : String → MaintenanceRequest
  show_backups : MaintenanceRequest
  replication_log : Param → Param → MaintenanceRequest

pub record System (Handle : Type 0) : Type 0 where
  pub manager : Manager Handle
  pub disk : Disk
  pub audit : AuditLog
  pub tables : ReplicationTables
  -- query, endpoint and status of the entries logged
  pub logged : List (String × (String × String))

abbrev pub needed : MaintenanceRequest → Permission
needed (audit_logs limit) = perm_audit_log
needed (restore body) = perm_restore
needed _ = perm_backup

abbrev pub forbidden : MaintenanceRequest → Answer
forbidden (audit_logs limit) = refuse 403 "only admins and auditors can view audit logs"
forbidden (backup database) = refuse 403 "only admins can perform backups"
forbidden (restore body) = refuse 403 "only admins can perform restores"
forbidden (delete_one name) = refuse 403 "only admins can delete backups"
forbidden show_backups = refuse 403 "only admins can list backups"
forbidden (replication_log since limit) = refuse 403 "only admins can access replication log"

-- `user != nil && HasPermission(role, perm)`
unfoldable pub allowed : Option AuthUser → Permission → Bool
allowed none perm = false
allowed (some u) perm = has_permission u.role perm

abbrev pub or_main : String → String
or_main database = if str_eq database "" then "main" else database

-- the limit of HandleAuditLogs
abbrev pub audit_limit : Param → ℕ
audit_limit (number n) = if ltb 0 n && leb n 5000 then n else 100
audit_limit _ = 100

-- the limit of HandleReplicationLog, and where it starts
abbrev pub page_limit : Param → Option ℕ
page_limit absent = some 500
page_limit malformed = none
page_limit (number n) = if leb 1 n && leb n 5000 then some n else none

abbrev pub page_start : Param → Option ℕ
page_start absent = some 0
page_start malformed = none
page_start (number n) = some n

unfoldable pub handle_replication_log : Param → Param → ReplicationTables → Answer
handle_replication_log since limit t = elim (page_start since) [
  | none ↦ refuse 400 "invalid since parameter"
  | some from ↦ elim (page_limit limit) [
    | none ↦ refuse 400 "invalid limit parameter (1-5000)"
    | some n ↦ record { status = 200; body = Body.entries_body (get_replication_log from n t) }
  ]
]

module _ (s : Driver) (a : Aead) (join : String → String → String) (bm : BackupManager) where
  abbrev pub with_entry : String → String → System s.Handle → System s.Handle
  with_entry query endpoint sys = record sys {
    logged = (query, (endpoint, "success")) ∷ sys.logged;
  }

  unfoldable pub handle_backup : String → String → System s.Handle → Answer × System s.Handle
  handle_backup stamp database sys =
      let name = or_main database in
      let (info, (m, d)) = create_backup s a join bm name stamp sys.manager sys.disk in
      let after : System s.Handle = record sys { manager = m; disk = d } in
      elim info [
        | err e ↦ (fail e, after)
        | ok b ↦ (
          record { status = 201; body = Body.backup_body b },
          with_entry (String.◌++◌ "backup:" name) "/backup" after,
        )
      ]

  unfoldable pub handle_restore :
      Result Bytes → Option (String × String) → System s.Handle → Answer × System s.Handle
  handle_restore random none sys = (refuse 400 "invalid request body", sys)
  handle_restore random (some (file, database)) sys =
      let (r, (m, d)) =
        restore_backup s a join bm random file (or_main database) sys.manager sys.disk in
      let after : System s.Handle = record sys { manager = m; disk = d } in
      if str_eq file "" then (refuse 400 "backup_file is required", sys) else (elim r [
        | err e ↦ (fail e, after)
        | ok _ ↦ (
          record { status = 200; body = Body.message_body "restore completed" },
          with_entry (String.◌++◌ "restore:" file) "/restore" after,
        )
      ])

  -- the first backup of the list with this name
  unfoldable pub handle_delete_backup :
      List String → String → System s.Handle → Answer × System s.Handle
  handle_delete_backup names name sys =
      if str_eq name ""
      then (refuse 400 "backup name is required", sys)
      else (elim (find (λ b. str_eq b.name name) (list_backups s a join bm names sys.disk)) [
        | none ↦ (refuse 404 "backup not found", sys)
        | some b ↦
            let (r, d) = delete_backup s a join bm b.path sys.disk in
            elim r [
              | err e ↦ (fail e, sys)
              | ok _ ↦ (
                record { status = 200; body = Body.message_body "backup deleted" },
                with_entry (String.◌++◌ "delete_backup:" name) (String.◌++◌ "/backups/" name)
                    (record sys { disk = d }),
              )
            ]
      ])

  unfoldable pub run_maintenance :
      Result Bytes
      → String
      → List String
      → MaintenanceRequest
      → System s.Handle
      → Answer × System s.Handle
  unfolding handle_backup handle_restore handle_delete_backup
  run_maintenance random stamp names (audit_logs limit) sys = (
    record { status = 200; body = Body.logs_body (get_audit_logs (audit_limit limit) sys.audit) },
    sys,
  )
  run_maintenance random stamp names (backup database) sys = handle_backup stamp database sys
  run_maintenance random stamp names (restore body) sys = handle_restore random body sys
  run_maintenance random stamp names (delete_one name) sys = handle_delete_backup names name sys
  run_maintenance random stamp names show_backups sys = (
    record { status = 200; body = Body.backups_body (list_backups s a join bm names sys.disk) },
    sys,
  )
  run_maintenance random stamp names (replication_log since limit) sys =
      (handle_replication_log since limit sys.tables, sys)

  unfoldable pub handle_maintenance :
      Result Bytes
      → String
      → List String
      → Option AuthUser
      → MaintenanceRequest
      → System s.Handle
      → Answer × System s.Handle
  unfolding run_maintenance
  handle_maintenance random stamp names user req sys =
      if allowed user (needed req)
      then run_maintenance random stamp names req sys
      else (forbidden req, sys)
