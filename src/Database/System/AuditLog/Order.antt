-- ===== src/Database/System/AuditLog/Order.antt =====
-- The rows of the audit log are the accepted entries in their order.
use spark_db.Prelude.{
  ℕ, suc, ◌≤◌, ◌≡◌, refl, sym, ap, ◌∙◌, Bool, true, false, List, [], ◌∷◌, ◌++◌, length, append-nil,
  append_assoc, arith, ◌⊎◌, inl, inr, Bool-cases, length-append,
}
use spark_db.Database.System.AuditLog.{
  AuditEntry, Message, AuditLog, Run, capacity, has_room, sent, log_audit, after_receive, receive,
  losing, accepting,
}

-- the entries that wait in the channel
abbrev pub waiting : List Message → List AuditEntry
waiting [] = []
waiting (Message.entry e ∷ rest) = e ∷ waiting rest
waiting (Message.flusher n ∷ rest) = waiting rest

-- `xs` is `ys` without `k` of its elements.
abbrev pub Without : ℕ → List AuditEntry → List AuditEntry → Type 0
Without k xs [] = (k ≡ 0) × (xs ≡ [])
Without k xs (y ∷ ys) =
    ((rest : List AuditEntry) × (xs ≡ y ∷ rest) × Without k rest ys)
    ⊎ ((j : ℕ) × (k ≡ suc j) × Without j xs ys)

pub Without-none : (xs ys : List AuditEntry) → Without 0 xs ys → xs ≡ ys
Without-none xs [] (k, e) = e
Without-none xs (y ∷ ys) (inl (rest, e, h)) = e ∙ ap (λ zs. y ∷ zs) (Without-none rest ys h)
Without-none xs (y ∷ ys) (inr (j, e, h)) = absurd (omega arith)

Without-refl : (xs : List AuditEntry) → Without 0 xs xs
Without-refl [] = (refl, refl)
Without-refl (x ∷ xs) = inl (xs, refl, Without-refl xs)

Without-append :
    (k : ℕ) (xs ys zs : List AuditEntry) → Without k xs ys → Without k (xs ++ zs) (ys ++ zs)
Without-append k xs [] zs (none_lost, e) = rw (none_lost, e) (Without-refl zs)
Without-append k xs (y ∷ ys) zs (inl (rest, e, h)) =
    inl (rest ++ zs, ap (λ l. l ++ zs) e, Without-append k rest ys zs h)
Without-append k xs (y ∷ ys) zs (inr (j, e, h)) = inr (j, e, Without-append j xs ys zs h)

Without-drop :
    (k : ℕ) (xs : List AuditEntry) (e : AuditEntry) (zs ys : List AuditEntry)
    → Without k (xs ++ e ∷ zs) ys
    → Without (suc k) (xs ++ zs) ys
Without-drop k [] e zs [] (z, h) = absurd cc
Without-drop k (x ∷ xs) e zs [] (z, h) = absurd cc
Without-drop k [] e zs (y ∷ ys) (inl (rest, same, h)) =
    let tail : rest ≡ zs = cc in inr (k, refl, rw (tail) at h)
Without-drop k (x ∷ xs) e zs (y ∷ ys) (inl (rest, same, h)) =
    let head : x ≡ y = cc in
    let tail : rest ≡ xs ++ e ∷ zs = cc in
    inl (xs ++ zs, ap (λ z. z ∷ (xs ++ zs)) head, Without-drop k xs e zs ys (rw (tail) at h))
Without-drop k xs e zs (y ∷ ys) (inr (j, same, h)) =
    inr (suc j, ap suc same, Without-drop j xs e zs ys h)

waiting-append :
    (ms : List Message) (m : Message) → waiting (ms ++ m ∷ []) ≡ waiting ms ++ waiting (m ∷ [])
waiting-append [] m = refl
waiting-append (Message.entry e ∷ ms) m = ap (λ l. e ∷ l) (waiting-append ms m)
waiting-append (Message.flusher n ∷ ms) m = waiting-append ms m

-- The rows and the waiting entries are the accepted ones without those that an INSERT lost, and the
-- channel holds no more than its buffer.
pub record IsOrdered (acc : List AuditEntry) (lost : ℕ) (log : AuditLog) : Type 0 where
  pub ordered : Without lost (log.rows ++ waiting log.channel) acc
  pub bounded : length log.channel ≤ capacity
  -- a worker that has its statement ends only when nothing waits
  pub emptied : log.finished ≡ true → log.prepared ≡ true → (log.closed ≡ true) × (log.channel ≡ [])

-- A message that is sent before the channel is closed, where there is room.
sent-IsOrdered :
    (acc : List AuditEntry) (lost : ℕ) (log : AuditLog) (m : Message)
    → log.closed ≡ false
    → has_room log ≡ true
    → IsOrdered acc lost log
    → IsOrdered (acc ++ waiting (m ∷ [])) lost (sent m log)
sent-IsOrdered acc lost log m unclosed room h = record {
  ordered =
      rw
        (
          waiting-append log.channel m,
          sym (append_assoc log.rows (waiting log.channel) (waiting (m ∷ []))),
        )
        (Without-append lost (log.rows ++ waiting log.channel) acc (waiting (m ∷ [])) h.ordered);
  bounded = ground (arith, length-append log.channel (m ∷ []));
  emptied = λ f p. (let shut = (h.emptied f p).0 in cc);
}

log_audit-IsOrdered :
    (acc : List AuditEntry) (lost : ℕ) (log : AuditLog) (e : AuditEntry)
    → log.closed ≡ false
    → IsOrdered acc lost log
    → IsOrdered (acc ++ accepting e log) lost (log_audit e log)
unfolding log_audit
log_audit-IsOrdered acc lost log e unclosed h = elim (Bool-cases (has_room log)) [
  | inl room ↦ rw (room) (sent-IsOrdered acc lost log (Message.entry e) unclosed room h)
  | inr full ↦ rw (full, append-nil acc) h
]

after_receive-IsOrdered :
    (acc : List AuditEntry) (lost : ℕ) (stored : Bool) (ms : List Message) (log : AuditLog)
    → log.channel ≡ ms
    → log.finished ≡ false
    → IsOrdered acc lost log
    → IsOrdered acc (losing stored ms lost) (after_receive stored ms log)
after_receive-IsOrdered acc lost true [] log e running h = h
after_receive-IsOrdered acc lost false [] log e running h = h
after_receive-IsOrdered acc lost true (Message.entry x ∷ ms) log e running h = record {
  ordered = rw (append_assoc log.rows (x ∷ []) (waiting ms)) (let raw = h.ordered in rw (e) at raw);
  bounded =
      (let raw = h.bounded in let now : suc (length ms) ≤ capacity = rw (e) at raw in omega arith);
  emptied = λ f p. cc;
}
after_receive-IsOrdered acc lost false (Message.entry x ∷ ms) log e running h = record {
  ordered = Without-drop lost log.rows x (waiting ms) acc (let raw = h.ordered in rw (e) at raw);
  bounded =
      (let raw = h.bounded in let now : suc (length ms) ≤ capacity = rw (e) at raw in omega arith);
  emptied = λ f p. cc;
}
after_receive-IsOrdered acc lost true (Message.flusher n ∷ ms) log e running h = record {
  ordered = (let raw = h.ordered in rw (e) at raw);
  bounded =
      (let raw = h.bounded in let now : suc (length ms) ≤ capacity = rw (e) at raw in omega arith);
  emptied = λ f p. cc;
}
after_receive-IsOrdered acc lost false (Message.flusher n ∷ ms) log e running h = record {
  ordered = (let raw = h.ordered in rw (e) at raw);
  bounded =
      (let raw = h.bounded in let now : suc (length ms) ≤ capacity = rw (e) at raw in omega arith);
  emptied = λ f p. cc;
}

-- In every state that the steps of LogAudit, FlushAuditLog, Close and the worker reach, the rows
-- followed by the waiting entries are the accepted entries in their order, without as many as an
-- INSERT lost; at most 1024 messages wait; and a worker that ends with its statement leaves none.
pub Run-IsOrdered :
    {acc : List AuditEntry} {lost : ℕ} {log : AuditLog} → Run acc lost log → IsOrdered acc lost log
unfolding receive
Run-IsOrdered Run.start = record {
  ordered = (refl, refl);
  bounded = omega arith;
  emptied = λ f p. cc;
}
Run-IsOrdered (Run.logged {acc} {lost} {log} r e unclosed) =
    log_audit-IsOrdered acc lost log e unclosed (Run-IsOrdered r)
Run-IsOrdered (Run.flush_sent {acc} {lost} {log} r n unclosed room) =
    (let h = sent-IsOrdered acc lost log (Message.flusher n) unclosed room (Run-IsOrdered r) in
      rw (append-nil acc) at h)
Run-IsOrdered (Run.flush_passed r n finished) =
    (let h = Run-IsOrdered r in
      record { ordered = h.ordered; bounded = h.bounded; emptied = h.emptied })
Run-IsOrdered (Run.prepare_succeeded r running) =
    (let h = Run-IsOrdered r in
      record { ordered = h.ordered; bounded = h.bounded; emptied = λ f p. cc })
Run-IsOrdered (Run.prepare_failed r unprepared) =
    (let h = Run-IsOrdered r in
      record { ordered = h.ordered; bounded = h.bounded; emptied = λ f p. cc })
Run-IsOrdered (Run.received {acc} {lost} {log} r stored prepared running) =
    after_receive-IsOrdered acc lost stored log.channel log refl running (Run-IsOrdered r)
Run-IsOrdered (Run.closing r unclosed) =
    (let h = Run-IsOrdered r in
      record {
        ordered = h.ordered;
        bounded = h.bounded;
        emptied = λ f p. (refl, (h.emptied f p).1);
      })
Run-IsOrdered (Run.loop_ended r prepared shut empty) =
    (let h = Run-IsOrdered r in
      record { ordered = h.ordered; bounded = h.bounded; emptied = λ f p. (shut, empty) })
