-- ===== src/Replication/Poll.antt =====
-- What a poll does to a replica.
use spark_db.Prelude.{
  append-take, length-take, short_page, ℕ, zero, suc, ◌+◌, ◌<◌, String, ◌≡◌, refl, sym, ap, ◌∙◌,
  true, false, List, [], ◌∷◌, ◌++◌, arith, Option, some, ok, length, take, drop, leb, str_eq,
  Bool-cases, inl, inr, append-nil, if◌then◌else◌,
}
use spark_db.Text.{Text, trim_space, to_upper, is_empty}
use spark_db.Monitor.{Monitor}
use spark_db.Database.System.ReplicationLog.{
  ReplicationEntry, ReplicationTables, get_replication_log, update_replication_applied_id,
}
use spark_db.Database.Executor.{Engine, QueryResponse, starts_read, execute}
use spark_db.Replication.{Served, Replica, apply_entry, apply_entries, no_entries, poll_once}
use spark_db.Replication.Pages.{InOrder, after, last_of, last_of-append, after_page}

pub fewer_left : {l : ℕ} (a b fuel : ℕ) → a + b ≡ l → leb 500 a ≡ true → l < suc fuel → b < fuel
fewer_left a b fuel e full lt = ground arith

below : (a : ℕ) → leb 500 a ≡ false → a < 500
below a h = ground arith

module _ (eng : Engine) (elapsed : ℕ) where
  -- Every entry is run, in turn.
  unfoldable pub replayed : List ReplicationEntry → Served eng → Served eng
  replayed [] s = s
  replayed (e ∷ entries) s = replayed entries (apply_entry eng elapsed e s).1

  pub replayed-append :
      (xs ys : List ReplicationEntry) (s : Served eng)
      → replayed (xs ++ ys) s ≡ replayed ys (replayed xs s)
  unfolding replayed
  replayed-append [] ys s = refl
  replayed-append (e ∷ xs) ys s = replayed-append xs ys (apply_entry eng elapsed e s).1

  -- `Manager.Open` answers for every database.
  abbrev pub AllOpen : Served eng → Type 0
  AllOpen s = (n : String) → (db : eng.Db) × (s.databases n ≡ ok db)

  execute-open :
      (q : Text) (db : eng.Db) (mon : Option Monitor)
      → ((res : QueryResponse eng.Value) × ((execute eng elapsed q [] (ok db) mon).0 ≡ ok res))
        × ((db' : eng.Db) × ((execute eng elapsed q [] (ok db) mon).1 ≡ ok db'))
  unfolding execute
  execute-open q db mon = elim (Bool-cases (is_empty (trim_space q))) [
    | inl e ↦ rw e ((_, refl), (_, refl))
    | inr e ↦ elim (Bool-cases (starts_read (to_upper (trim_space q)))) [
      | inl r ↦ rw (e, r) ((_, refl), (_, refl))
      | inr r ↦ rw (e, r) ((_, refl), (_, refl))
    ]
  ]

  apply_entry-open :
      (e : ReplicationEntry) (s : Served eng)
      → AllOpen s
      → ((apply_entry eng elapsed e s).0 ≡ ok tt) × AllOpen (apply_entry eng elapsed e s).1
  unfolding apply_entry
  apply_entry-open e s open_all =
      let (db, found) = open_all e.database_name in
      let ((res, answered), (db', left)) = execute-open e.query db s.mon in
      rw found (
        rw answered refl,
        λ n. elim (Bool-cases (str_eq n e.database_name)) [
          | inl same ↦ (db', rw same left)
          | inr other ↦ (let (db, is_open) = open_all n in (db, rw other is_open))
        ],
      )

  pub apply_entries-replayed :
      (entries : List ReplicationEntry) (since : ℕ) (s : Served eng)
      → AllOpen s
      → (apply_entries eng elapsed entries since s
          ≡ (true, last_of since entries, replayed entries s))
        × AllOpen (replayed entries s)
  unfolding apply_entries replayed
  apply_entries-replayed [] since s open_all = (refl, open_all)
  apply_entries-replayed (e ∷ entries) since s open_all =
      let (fine, still_open) = apply_entry-open e s open_all in
      rw (apply_entries, fine)
        (apply_entries-replayed entries e.id (apply_entry eng elapsed e s).1 still_open)

  replayed_none : (s : Served eng) → s ≡ replayed [] s
  unfolding replayed
  replayed_none s = refl

  no_page : (xs : List ReplicationEntry) → no_entries eng elapsed (take 500 xs) ≡ true → xs ≡ []
  no_page [] h = refl
  no_page (x ∷ xs) h = cc

  whole_page : (xs : List ReplicationEntry) → length (take 500 xs) < 500 → take 500 xs ≡ xs
  whole_page xs h =
      sym (append-nil (take 500 xs))
      ∙ ap (λ ys. take 500 xs ++ ys) (sym (short_page 500 xs h))
      ∙ append-take 500 xs

  whole :
      (xs : List ReplicationEntry) (s : Served eng)
      → replayed (drop 500 xs) (replayed (take 500 xs) s) ≡ replayed xs s
  whole xs s =
      sym (replayed-append (take 500 xs) (drop 500 xs) s)
      ∙ ap (λ ys. replayed ys s) (append-take 500 xs)

  last_of-page :
      (since : ℕ) (xs : List ReplicationEntry)
      → last_of (last_of since (take 500 xs)) (drop 500 xs) ≡ last_of since xs
  last_of-page since xs =
      sym (last_of-append since (take 500 xs) (drop 500 xs))
      ∙ ap (last_of since) (append-take 500 xs)

  module _ (t : ReplicationTables) where
    abbrev pub answers : ℕ → ℕ → Option (List ReplicationEntry)
    answers since limit = some (get_replication_log since limit t)

    -- the replica after one page
    abbrev pub paged : Replica eng → Replica eng
    paged r =
        let page = take 500 (after r.last_id t.entries) in
        let last_id = last_of r.last_id page in
        record {
          served = replayed page r.served;
          last_id = last_id;
          tables = update_replication_applied_id last_id r.tables;
        }

    pub poll_page :
        (fuel : ℕ) (r : Replica eng)
        → AllOpen r.served
        → poll_once eng elapsed answers (suc fuel) r ≡ (
            if no_entries eng elapsed (take 500 (after r.last_id t.entries))
            then some r
            else if leb 500 (length (take 500 (after r.last_id t.entries)))
            then poll_once eng elapsed answers fuel (paged r)
            else some (paged r))
    unfolding poll_once get_replication_log
    poll_page fuel r open_all =
        let page = take 500 (after r.last_id t.entries) in
        rw (apply_entries-replayed page r.last_id r.served open_all).0 refl

    -- what a poll leaves that has come to its end
    pub record Polled (r polled : Replica eng) : Type 0 where
      pub served : polled.served ≡ replayed (after r.last_id t.entries) r.served
      pub last_id : polled.last_id ≡ last_of r.last_id (after r.last_id t.entries)

    one_more :
        (bound more : ℕ) (r : Replica eng)
        → poll_once eng elapsed answers (suc bound + more) r
          ≡ poll_once eng elapsed answers (suc (bound + more)) r
    one_more bound more r =
        let e : suc bound + more ≡ suc (bound + more) = omega arith in
        ap (λ fuel. poll_once eng elapsed answers fuel r) e

    -- Whatever more fuel there is than `bound`, the poll ends in the same state.
    pub poll_once_settles :
        (bound : ℕ) (r : Replica eng)
        → InOrder t.entries
        → AllOpen r.served
        → length (after r.last_id t.entries) < bound
        → (polled : Replica eng) × ((more : ℕ)
            → poll_once eng elapsed answers (bound + more) r ≡ some polled)
          × Polled r polled
    poll_once_settles zero r o open_all lt = absurd (omega arith)
    poll_once_settles (suc bound) r o open_all lt =
        let pending = after r.last_id t.entries in
        let page = take 500 pending in
        let open_after = (apply_entries-replayed page r.last_id r.served open_all).1 in
        elim (Bool-cases (no_entries eng elapsed page)) [
          | inl e ↦ (
            r,
            λ more. one_more bound more r ∙ rw (poll_page (bound + more) r open_all, e) refl,
            record {
              served = rw (no_page pending e) (replayed_none r.served);
              last_id = rw (no_page pending e) refl;
            },
          )
          | inr e ↦ elim (Bool-cases (leb 500 (length page))) [
            | inl full ↦
                let left = after_page 500 r.last_id t.entries o in
                let (polled, ends, done) =
                  poll_once_settles bound (paged r) o open_after
                    (rw left (fewer_left _ _ bound (length-take 500 pending) full lt)) in
                (
                  polled,
                  λ more.
                      one_more bound more r
                      ∙ rw (poll_page (bound + more) r open_all, e, full) (ends more),
                  record {
                    served = done.served ∙ rw left (whole pending r.served);
                    last_id = done.last_id ∙ rw left (last_of-page r.last_id pending);
                  },
                )
            | inr short ↦
                let all = whole_page pending (below (length page) short) in
                (
                  paged r,
                  λ more.
                      one_more bound more r
                      ∙ rw (poll_page (bound + more) r open_all, e, short) refl,
                  record { served = rw (all) refl; last_id = rw (all) refl },
                )
          ]
        ]

    -- With more fuel than there are pending entries a poll ends.
    pub poll_once-some :
        (fuel : ℕ) (r : Replica eng)
        → InOrder t.entries
        → AllOpen r.served
        → length (after r.last_id t.entries) < fuel
        → (polled : Replica eng) × (poll_once eng elapsed answers fuel r ≡ some polled)
          × Polled r polled
    poll_once-some fuel r o open_all lt =
        let (polled, ends, done) = poll_once_settles fuel r o open_all lt in
        let e : fuel + 0 ≡ fuel = omega arith in
        (polled, ap (λ n. poll_once eng elapsed answers n r) (sym e) ∙ ends 0, done)
