-- ===== src/Database/System/AuditLog/Draining.antt =====
-- When FlushAuditLog and Close come back, and that every accepted entry is a row then.
use spark_db.Prelude.{
  ℕ, zero, suc, ◌≡◌, refl, sym, ap, ◌∙◌, Bool, true, false, Bool-cases, inl, inr, List, [], ◌∷◌,
  ◌++◌, length, append-nil, append_assoc,
}
use spark_db.Database.System.AuditLog.{
  AuditEntry, Message, AuditLog, Run, has_room, sent, log_audit, receive,
}
use spark_db.Database.System.AuditLog.Order.{waiting, Without-none, Run-IsOrdered}

-- `n` turns of the worker, where every INSERT succeeds
unfoldable pub drain : ℕ → AuditLog → AuditLog
drain zero log = log
drain (suc n) log = drain n (receive true log)

abbrev pub flushers : List Message → List ℕ
flushers [] = []
flushers (Message.entry e ∷ rest) = flushers rest
flushers (Message.flusher n ∷ rest) = n ∷ flushers rest

abbrev pub emptied : List Message → AuditLog → AuditLog
emptied ms log = record log {
  channel = [];
  rows = log.rows ++ waiting ms;
  released = log.released ++ flushers ms;
}

drain-length :
    (ms : List Message) (log : AuditLog)
    → drain (length ms) (record log { channel = ms }) ≡ emptied ms log
unfolding drain receive
drain-length [] log = rw (append-nil log.rows, append-nil log.released) refl
drain-length (Message.entry e ∷ ms) log =
    drain-length ms (record log { rows = log.rows ++ e ∷ [] })
    ∙ rw (append_assoc log.rows (e ∷ []) (waiting ms)) refl
drain-length (Message.flusher n ∷ ms) log =
    drain-length ms (record log { released = log.released ++ n ∷ [] })
    ∙ rw (append_assoc log.released (n ∷ []) (flushers ms)) refl

receive-running :
    (ms : List Message) (log : AuditLog)
    → ((receive true (record log { channel = ms })).prepared ≡ log.prepared)
      × ((receive true (record log { channel = ms })).finished ≡ log.finished)
unfolding receive
receive-running [] log = (refl, refl)
receive-running (Message.entry e ∷ ms) log = (refl, refl)
receive-running (Message.flusher n ∷ ms) log = (refl, refl)

Run-drain :
    {acc : List AuditEntry} {lost : ℕ} (n : ℕ) (log : AuditLog)
    → Run acc lost log
    → log.prepared ≡ true
    → log.finished ≡ false
    → Run acc lost (drain n log)
unfolding drain
Run-drain zero log r p f = r
Run-drain (suc n) log r p f =
    let same = receive-running log.channel log in
    Run-drain n (receive true log) (Run.received r true p f) (same.0 ∙ p) (same.1 ∙ f)

flushers-append :
    (ms : List Message) (n : ℕ) → flushers (ms ++ Message.flusher n ∷ []) ≡ flushers ms ++ n ∷ []
flushers-append [] n = refl
flushers-append (Message.entry e ∷ ms) n = flushers-append ms n
flushers-append (Message.flusher k ∷ ms) n = ap (λ l. k ∷ l) (flushers-append ms n)

-- Where the worker has its statement and has not ended, the channel is open and has room, and no
-- INSERT has failed or fails, FlushAuditLog returns: the worker comes to its message after as many
-- turns as messages then wait, and every entry that was accepted before is a row, in order.
pub flush_lem :
    {acc : List AuditEntry} (log : AuditLog) (n : ℕ)
    → Run acc 0 log
    → log.closed ≡ false
    → has_room log ≡ true
    → log.prepared ≡ true
    → log.finished ≡ false
    → let after =
        drain (length (log.channel ++ Message.flusher n ∷ [])) (sent (Message.flusher n) log) in
      Run acc 0 after
      × (after.channel ≡ [])
      × (after.rows ≡ acc)
      × (after.released ≡ log.released ++ (flushers log.channel ++ n ∷ []))
flush_lem {acc} log n r unclosed room p f =
    let ms = log.channel ++ Message.flusher n ∷ [] in
    let drained : drain (length ms) (sent (Message.flusher n) log) ≡ emptied ms log =
      drain-length ms log in
    let run : Run acc 0 (drain (length ms) (sent (Message.flusher n) log)) =
      Run-drain (length ms) (sent (Message.flusher n) log) (Run.flush_sent r n unclosed room) p f in
    let end : Run acc 0 (emptied ms log) = rw (drained) at run in
    let rows =
      Without-none (emptied ms log).rows acc
        (let h = (Run-IsOrdered end).ordered in rw (append-nil (emptied ms log).rows) at h) in
    (
      run,
      ap (λ l. l.channel) drained,
      ap (λ l. l.rows) drained ∙ rows,
      ap (λ l. l.released) drained ∙ ap (λ l. log.released ++ l) (flushers-append log.channel n),
    )

-- When Close has waited for a worker that had its statement, every accepted entry is a row, in order,
-- unless an INSERT failed.
pub closed_lem :
    {acc : List AuditEntry} {log : AuditLog}
    → Run acc 0 log
    → log.prepared ≡ true
    → log.finished ≡ true
    → log.rows ≡ acc
closed_lem {acc} {log} r p f =
    let h = Run-IsOrdered r in
    let empty = (h.emptied f p).1 in
    Without-none log.rows acc (let raw = h.ordered in rw (empty, append-nil log.rows) at raw)

log_audit-kept :
    (e : AuditEntry) (log : AuditLog)
    → ((log_audit e log).prepared ≡ log.prepared) × ((log_audit e log).released ≡ log.released)
unfolding log_audit
log_audit-kept e log = elim (Bool-cases (has_room log)) [
  | inl room ↦ rw (room) (refl, refl)
  | inr full ↦ rw (full) (refl, refl)
]

receive-prepared :
    (stored : Bool) (ms : List Message) (log : AuditLog)
    → (receive stored (record log { channel = ms })).prepared ≡ log.prepared
unfolding receive
receive-prepared stored [] log = refl
receive-prepared true (Message.entry e ∷ ms) log = refl
receive-prepared false (Message.entry e ∷ ms) log = refl
receive-prepared stored (Message.flusher n ∷ ms) log = refl

-- A worker without its statement has released no call of FlushAuditLog. When Prepare has failed it
-- never gets one, so a call whose message was sent waits for ever.
pub released_unprepared :
    {acc : List AuditEntry} {lost : ℕ} {log : AuditLog}
    → Run acc lost log
    → log.prepared ≡ false
    → log.released ≡ []
released_unprepared Run.start h = refl
released_unprepared (Run.logged {acc} {lost} {log} r e unclosed) h =
    let (same, kept) = log_audit-kept e log in kept ∙ released_unprepared r (sym same ∙ h)
released_unprepared (Run.flush_sent r n unclosed room) h = released_unprepared r h
released_unprepared (Run.flush_passed r n finished) h = released_unprepared r h
released_unprepared (Run.prepare_succeeded r running) h =
    absurd (let wrong : true ≡ false = h in cc)
released_unprepared (Run.prepare_failed r unprepared) h = released_unprepared r h
released_unprepared (Run.received {acc} {lost} {log} r stored prepared running) h =
    absurd (
      let wrong : true ≡ false = sym (receive-prepared stored log.channel log ∙ prepared) ∙ h in cc)
released_unprepared (Run.closing r unclosed) h = released_unprepared r h
released_unprepared (Run.loop_ended r prepared shut empty) h =
    absurd (let wrong : true ≡ false = sym prepared ∙ h in cc)
