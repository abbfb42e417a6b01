-- ===== src/Replication/Loop.antt =====
-- What a replica runs while the log of its primary grows.
use spark_db.Prelude.{
  ℕ, ◌<◌, ◌≡◌, refl, sym, ap, ◌∙◌, List, [], ◌∷◌, ◌++◌, map, arith, length, ltb, some, take, drop,
  append_assoc, append-nil, length-append, length-filter-le, filter-append, take-append_length,
  drop-append_length,
}
use spark_db.Database.System.ReplicationLog.{ReplicationEntry, ReplicationTables}
use spark_db.Database.Executor.{Engine}
use spark_db.Replication.{Replica, replica_loop}
use spark_db.Replication.Pages.{InOrder, after, last_of, after_page}
use spark_db.Replication.Poll.{
  replayed, replayed-append, AllOpen, answers, apply_entries-replayed, poll_once-some,
}

-- What follows the entries of a log that have been read, in a log that goes on.
after-last_of-append :
    (since : ℕ) (xs ys : List ReplicationEntry)
    → InOrder (xs ++ ys)
    → after (last_of since (after since xs)) (xs ++ ys) ≡ after since ys
after-last_of-append since xs ys o =
    let read = after since xs in
    let page : take (length read) (after since (xs ++ ys)) ≡ read =
      rw (filter-append (λ e. ltb since e.id) xs ys) (take-append_length read (after since ys)) in
    let left : drop (length read) (after since (xs ++ ys)) ≡ after since ys =
      rw (filter-append (λ e. ltb since e.id) xs ys) (drop-append_length read (after since ys)) in
    ap (λ p. after (last_of since p) (xs ++ ys)) (sym page)
    ∙ after_page (length read) since (xs ++ ys) o
    ∙ left

abbrev pub latest : ReplicationTables → List ReplicationTables → ReplicationTables
latest t [] = t
latest t (t' ∷ ts) = latest t' ts

-- The log of the primary from poll to poll: entries are only added, and the ids increase.
abbrev pub Grows : ReplicationTables → List ReplicationTables → Type 0
Grows t [] = InOrder t.entries
Grows t (t' ∷ ts) =
    InOrder t.entries
    × ((more : List ReplicationEntry) × (t'.entries ≡ t.entries ++ more))
    × Grows t' ts

latest-append :
    (t : ReplicationTables) (ts : List ReplicationTables)
    → Grows t ts
    → InOrder (latest t ts).entries
      × ((more : List ReplicationEntry) × ((latest t ts).entries ≡ t.entries ++ more))
latest-append t [] o = (o, ([], sym (append-nil t.entries)))
latest-append t (t' ∷ ts) (o, (more, e), g) =
    let (ordered, (later, e')) = latest-append t' ts g in
    (ordered, (more ++ later, e' ∙ ap (λ l. l ++ later) e ∙ append_assoc t.entries more later))

first-InOrder :
    (t : ReplicationTables) (ts : List ReplicationTables) → Grows t ts → InOrder t.entries
first-InOrder t [] o = o
first-InOrder t (t' ∷ ts) (o, more, g) = o

module _ (eng : Engine) (elapsed fuel : ℕ) where
  -- While the log of the primary grows, every poll of a replica comes to its end, and together they
  -- run every entry after the last applied one exactly once and in the order of the log, up to the
  -- log of the last poll. Every database has to open, and the fuel of a poll is more than the last
  -- log is long.
  pub replica_loop_replays :
      (ts : List ReplicationTables) (t : ReplicationTables) (r : Replica eng)
      → Grows t ts
      → AllOpen eng elapsed r.served
      → length (latest t ts).entries < fuel
      → (last : Replica eng) × (replica_loop eng elapsed fuel (map (answers eng elapsed) (t ∷ ts)) r
          ≡ some last)
        × (last.served ≡ replayed eng elapsed (after r.last_id (latest t ts).entries) r.served)
  unfolding replica_loop
  replica_loop_replays [] t r o open_all enough =
      let few : length (after r.last_id t.entries) < fuel =
        omega (arith, length-filter-le (λ e. ltb r.last_id e.id) t.entries) in
      let (polled, ends, done) = poll_once-some eng elapsed t fuel r o open_all few in
      (polled, rw (ends, replica_loop) refl, done.served)
  replica_loop_replays (t' ∷ ts) t r g open_all enough =
      let log = (latest t' ts).entries in
      let pending = after r.last_id t.entries in
      let (o, grown, g') = g in
      let (ordered, (more, e)) = latest-append t (t' ∷ ts) g in
      let few : length pending < fuel = omega (
        arith,
        length-filter-le (λ x. ltb r.last_id x.id) t.entries,
        length-append t.entries more,
        ap length e,
      ) in
      let (polled, ends, done) = poll_once-some eng elapsed t fuel r o open_all few in
      let open_after : AllOpen eng elapsed polled.served =
        rw (done.served)
          (apply_entries-replayed eng elapsed pending r.last_id r.served open_all).1 in
      let left : after (last_of r.last_id pending) log ≡ after r.last_id more =
        rw (e) (after-last_of-append r.last_id t.entries more (rw (e) at ordered)) in
      let all : pending ++ after r.last_id more ≡ after r.last_id log =
        rw (e) (sym (filter-append (λ x. ltb r.last_id x.id) t.entries more)) in
      let (last, rest, served) = replica_loop_replays ts t' polled g' open_after enough in
      (
        last,
        rw (ends, replica_loop) rest,
        served
            ∙ ap (λ l. replayed eng elapsed (after l log) polled.served) done.last_id
            ∙ ap (λ x. replayed eng elapsed (after (last_of r.last_id pending) log) x) done.served
            ∙ ap (λ l. replayed eng elapsed l (replayed eng elapsed pending r.served)) left
            ∙ sym (replayed-append eng elapsed pending (after r.last_id more) r.served)
            ∙ ap (λ l. replayed eng elapsed l r.served) all,
      )
