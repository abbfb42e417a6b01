-- ===== src/Database/System/AuditLog/Tests.antt =====
-- The audit log run on two entries.
use spark_db.Prelude.{◌≡◌, refl, true, none, some, [], ◌∷◌, ◌++◌, length}
use spark_db.Text.{codes}
use spark_db.Database.System.AuditLog.{
  AuditEntry, Message, AuditLog, Run, new_audit_log, sent, log_audit, receive, get_audit_logs,
}
use spark_db.Database.System.AuditLog.Order.{IsOrdered, Run-IsOrdered}
use spark_db.Database.System.AuditLog.Draining.{drain, flush_lem}

abbrev asked : AuditEntry
asked = record {
  user_id = some 1;
  username = "alice";
  ip = "10.0.0.1";
  query = codes "SELECT 1";
  endpoint = "/query";
  status = "success";
}

abbrev blocked : AuditEntry
blocked = record {
  user_id = none;
  username = "anonymous";
  ip = "10.0.0.2";
  query = codes "DROP TABLE users";
  endpoint = "dangerous_query";
  status = "blocked";
}

abbrev prepared : AuditLog
prepared = record new_audit_log { prepared = true }

abbrev two_logged : AuditLog
two_logged = log_audit blocked (log_audit asked prepared)

two_logged-Run : Run (asked ∷ blocked ∷ []) 0 two_logged
unfolding log_audit
two_logged-Run =
    Run.logged (Run.logged (Run.prepare_succeeded Run.start refl) asked refl) blocked refl

Run-IsOrdered_example : IsOrdered (asked ∷ blocked ∷ []) 0 two_logged
Run-IsOrdered_example = Run-IsOrdered two_logged-Run

flush_lem_example :
    let after =
      drain
        (length (two_logged.channel ++ Message.flusher 7 ∷ []))
        (sent (Message.flusher 7) two_logged) in
    Run (asked ∷ blocked ∷ []) 0 after
    × (after.channel ≡ [])
    × (after.rows ≡ asked ∷ blocked ∷ [])
    × (after.released ≡ 7 ∷ [])
unfolding log_audit
flush_lem_example = flush_lem two_logged 7 two_logged-Run refl refl refl refl

newest_first : get_audit_logs 0 (drain 2 two_logged) ≡ blocked ∷ asked ∷ []
unfolding drain log_audit receive get_audit_logs
newest_first = refl
