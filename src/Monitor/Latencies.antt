-- ===== src/Monitor/Latencies.antt =====
-- Which latencies are kept, and which of them is reported.
use spark_db.Prelude.{
  drop-append, drop-drop, length-drop, ℕ, ◌+◌, ◌-◌, ◌*◌, ◌≤◌, ◌<◌, ◌≡◌, refl, ◌∙◌, ap, sym, List,
  [], ◌∷◌, ◌++◌, arith, length, length-append, drop, ltb, Bool-cases, inl, inr, append_assoc,
  append-nil,
}
use spark_db.Monitor.{Monitor, new, capped, record_query, p99_idx}

-- The last `cap` elements.
abbrev pub last : ℕ → List ℕ → List ℕ
last cap ds = drop (length ds - cap) ds

capped_lem : (cap : ℕ) (ds : List ℕ) → capped cap ds ≡ last cap ds
capped_lem cap ds = elim (Bool-cases (ltb cap (length ds))) [
  | inl e ↦ rw e
  | inr e ↦ let zero_left : length ds - cap ≡ 0 = ground arith in rw (e, zero_left) refl
]

capped-last :
    (cap d : ℕ) (ds : List ℕ) → capped cap (last cap ds ++ d ∷ []) ≡ last cap (ds ++ d ∷ [])
capped-last cap d ds =
    let k = length ds - cap in
    let longer = ds ++ d ∷ [] in
    let all = length-append ds (d ∷ []) in
    let len = length-drop k longer in
    ap (capped cap) (sym (drop-append k ds (d ∷ []) (omega arith)))
    ∙ capped_lem cap (drop k longer)
    ∙ drop-drop (length (drop k longer) - cap) k longer
    ∙ ap (λ n. drop n longer) (omega arith)

-- The queries that took these times, in turn.
unfoldable pub record_all : List ℕ → Monitor → Monitor
record_all [] m = m
record_all (d ∷ ds) m = record_all ds (record_query d m)

record_all-last :
    (ds before : List ℕ) (m : Monitor)
    → m.latencies ≡ last m.lat_cap before
    → ((record_all ds m).latencies ≡ last m.lat_cap (before ++ ds))
      × ((record_all ds m).total_queries ≡ m.total_queries + length ds)
unfolding record_all record_query
record_all-last [] before m h = (rw append-nil h, omega arith)
record_all-last (d ∷ ds) before m h =
    let (kept, total) =
      record_all-last ds (before ++ d ∷ []) (record_query d m)
        (rw h (capped-last m.lat_cap d before)) in
    (rw (append_assoc before (d ∷ [])) at kept, omega (arith, total))

-- A monitor counts every query and keeps the latencies of the last 10000.
pub record_all_lem :
    (ds : List ℕ)
    → ((record_all ds new).latencies ≡ last 10000 ds)
      × ((record_all ds new).total_queries ≡ length ds)
unfolding new
record_all_lem ds =
    let (kept, total) = record_all-last ds [] new refl in (kept, omega (arith, total))

-- The index of the 99th percentile is in range, and at most one in a hundred of the sorted latencies
-- lies behind it.
pub p99_idx-lt : (n : ℕ) → 0 < n → (p99_idx n < n) × (100 * (n - 1 - p99_idx n) ≤ n)
unfolding p99_idx
p99_idx-lt n h = ground arith
