-- ===== src/Database/System/AuditLog.antt =====
-- internal/database/system.go: the audit log, a buffered channel between LogAudit and the worker that
-- inserts its entries. A goroutine's turn is a step; an entry handed over directly is one that waits
-- for no time. `released` lists the calls of FlushAuditLog whose channel the worker has closed, and
-- `passed` those that found auditDone closed: both have returned. A call whose message is sent waits
-- for its channel alone.
pub mod Order
pub mod Draining
mod Tests
use spark_db.Prelude.{
  ℕ, suc, ◌+◌, String, ◌≡◌, Bool, true, false, List, [], ◌∷◌, ◌++◌, length, take, ltb, leb, Option,
  none, if◌then◌else◌,
}
use spark_db.Text.{Text}

pub record AuditEntry : Type 0 where
  pub user_id : Option ℕ
  pub username : String
  pub ip : String
  pub query : Text
  pub endpoint : String
  pub status : String

-- what the channel carries: an entry, or the `done` channel of a flusher
pub data Message : Type 0 where
  entry : AuditEntry → Message
  flusher : ℕ → Message

pub record AuditLog : Type 0 where
  -- auditCh: its buffer, and whether it is closed
  pub channel : List Message
  pub closed : Bool
  -- the worker has its statement; auditDone is closed
  pub prepared : Bool
  pub finished : Bool
  -- the rows of audit_logs, the oldest first
  pub rows : List AuditEntry
  pub released : List ℕ
  pub passed : List ℕ

abbrev pub capacity : ℕ
capacity = 1024

-- what NewSystemDB starts with
abbrev pub new_audit_log : AuditLog
new_audit_log = record {
  channel = [];
  closed = false;
  prepared = false;
  finished = false;
  rows = [];
  released = [];
  passed = [];
}

abbrev pub has_room : AuditLog → Bool
has_room log = ltb (length log.channel) capacity

abbrev pub sent : Message → AuditLog → AuditLog
sent m log = record log { channel = log.channel ++ m ∷ [] }

unfoldable pub log_audit : AuditEntry → AuditLog → AuditLog
log_audit e log = if has_room log then sent (entry e) log else log

-- the body of the worker's loop; `stored` tells whether the INSERT succeeds
abbrev pub processed : Bool → Message → AuditLog → AuditLog
processed stored (entry e) log = if stored then record log { rows = log.rows ++ e ∷ [] } else log
processed stored (flusher n) log = record log { released = log.released ++ n ∷ [] }

-- the worker receives the oldest message
abbrev pub after_receive : Bool → List Message → AuditLog → AuditLog
after_receive stored [] log = log
after_receive stored (m ∷ rest) log = processed stored m (record log { channel = rest })

unfoldable pub receive : Bool → AuditLog → AuditLog
receive stored log = after_receive stored log.channel log

-- the count of lost entries after the oldest message is received
abbrev pub losing : Bool → List Message → ℕ → ℕ
losing false (entry e ∷ rest) lost = suc lost
losing _ _ lost = lost

-- the entries that a call of LogAudit puts in the channel
abbrev pub accepting : AuditEntry → AuditLog → List AuditEntry
accepting e log = if has_room log then e ∷ [] else []

-- The reachable states, with the entries accepted so far in their order, and how many of them an
-- INSERT lost.
pub data Run : List AuditEntry → ℕ → AuditLog → Type 0 where
  start : Run [] 0 new_audit_log
  logged :
      {acc : List AuditEntry} {lost : ℕ} {log : AuditLog}
      → Run acc lost log
      → (e : AuditEntry) → log.closed ≡ false
      → Run (acc ++ accepting e log) lost (log_audit e log)
  -- the case of FlushAuditLog's select that waits for room and sends, chosen also after the end of
  -- the worker
  flush_sent :
      {acc : List AuditEntry} {lost : ℕ} {log : AuditLog}
      → Run acc lost log
      → (n : ℕ) → log.closed ≡ false
      → has_room log ≡ true
      → Run acc lost (sent (flusher n) log)
  -- the other case of its select: auditDone is closed
  flush_passed :
      {acc : List AuditEntry} {lost : ℕ} {log : AuditLog}
      → Run acc lost log
      → (n : ℕ) → log.finished ≡ true
      → Run acc lost (record log { passed = log.passed ++ n ∷ [] })
  prepare_succeeded :
      {acc : List AuditEntry} {lost : ℕ} {log : AuditLog}
      → Run acc lost log
      → log.finished ≡ false
      → Run acc lost (record log { prepared = true })
  prepare_failed :
      {acc : List AuditEntry} {lost : ℕ} {log : AuditLog}
      → Run acc lost log
      → log.prepared ≡ false
      → Run acc lost (record log { finished = true })
  received :
      {acc : List AuditEntry} {lost : ℕ} {log : AuditLog}
      → Run acc lost log
      → (stored : Bool) → log.prepared ≡ true
      → log.finished ≡ false
      → Run acc (losing stored log.channel lost) (receive stored log)
  -- Close
  closing :
      {acc : List AuditEntry} {lost : ℕ} {log : AuditLog}
      → Run acc lost log
      → log.closed ≡ false
      → Run acc lost (record log { closed = true })
  -- the worker's loop ends when the channel is closed and empty
  loop_ended :
      {acc : List AuditEntry} {lost : ℕ} {log : AuditLog}
      → Run acc lost log
      → log.prepared ≡ true
      → log.closed ≡ true
      → log.channel ≡ []
      → Run acc lost (record log { finished = true })

-- `ORDER BY timestamp DESC LIMIT ?` with the default limit: the newest rows, the newest first
abbrev newest : List AuditEntry → List AuditEntry → List AuditEntry
newest [] later = later
newest (e ∷ rows) later = newest rows (e ∷ later)

unfoldable pub get_audit_logs : ℕ → AuditLog → List AuditEntry
get_audit_logs limit log = take (if leb limit 0 then 100 else limit) (newest log.rows [])
