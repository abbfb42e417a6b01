-- ===== src/Monitor/Stats/Percentile.antt =====
-- What the reported percentile says of the latencies.
use spark_db.Prelude.{
  ℕ, zero, suc, ◌+◌, ◌*◌, ◌/◌, ◌≤◌, ◌<◌, ◌≡◌, refl, ◌∙◌, Bool, false, Bool-cases, inl, inr, List,
  [], ◌∷◌, All, Elem, length, filter, length-filter-le, ltb, arith,
}
use spark_db.Monitor.{p99_idx}
use spark_db.Monitor.Latencies.{p99_idx-lt}
use spark_db.Monitor.Stats.{insert_sorted, ascending, at, slow_latency, p99_latency}

abbrev Ascending : List ℕ → Type 0
Ascending [] = Unit {0}
Ascending (d ∷ ds) = All (λ e. d ≤ e) ds × Ascending ds

All-le : (a b : ℕ) (ds : List ℕ) → a ≤ b → All (λ e. b ≤ e) ds → All (λ e. a ≤ e) ds
All-le a b [] le h = tt
All-le a b (d ∷ ds) le h = (omega (arith, h.0), All-le a b ds le h.1)

All-insert_sorted :
    (a d : ℕ) (ds : List ℕ) → a ≤ d → All (λ e. a ≤ e) ds → All (λ e. a ≤ e) (insert_sorted d ds)
All-insert_sorted a d [] le h = (le, tt)
All-insert_sorted a d (e ∷ es) le h = elim (Bool-cases (ltb e d)) [
  | inl t ↦ rw t (h.0, All-insert_sorted a d es le h.1)
  | inr t ↦ rw t (le, (h.0, h.1))
]

insert_sorted-Ascending : (d : ℕ) (ds : List ℕ) → Ascending ds → Ascending (insert_sorted d ds)
insert_sorted-Ascending d [] h = (tt, tt)
insert_sorted-Ascending d (e ∷ es) h = elim (Bool-cases (ltb e d)) [
  | inl t ↦ rw t (All-insert_sorted e d es (ground arith) h.0, insert_sorted-Ascending d es h.1)
  | inr t ↦ let le : d ≤ e = ground arith in rw t ((le, All-le d e es le h.0), (h.0, h.1))
]

ascending-Ascending : (ds : List ℕ) → Ascending (ascending ds)
ascending-Ascending [] = tt
ascending-Ascending (d ∷ ds) = insert_sorted-Ascending d (ascending ds) (ascending-Ascending ds)

-- sorting keeps how many pass a test
filter-insert_sorted :
    (p : ℕ → Bool) (d : ℕ) (ds : List ℕ)
    → length (filter p (insert_sorted d ds)) ≡ length (filter p (d ∷ ds))
filter-insert_sorted p d [] = refl
filter-insert_sorted p d (e ∷ es) = ground (arith, filter-insert_sorted p d es)

filter-ascending :
    (p : ℕ → Bool) (ds : List ℕ) → length (filter p (ascending ds)) ≡ length (filter p ds)
filter-ascending p [] = refl
filter-ascending p (d ∷ ds) =
    filter-insert_sorted p d (ascending ds) ∙ (let ih = filter-ascending p ds in ground arith)

length-insert_sorted : (d : ℕ) (ds : List ℕ) → length (insert_sorted d ds) ≡ suc (length ds)
length-insert_sorted d [] = refl
length-insert_sorted d (e ∷ es) = ground (arith, length-insert_sorted d es)

length-ascending : (ds : List ℕ) → length (ascending ds) ≡ length ds
length-ascending [] = refl
length-ascending (d ∷ ds) =
    omega (arith, length-insert_sorted d (ascending ds), length-ascending ds)

le-at : (a : ℕ) (ds : List ℕ) (i : ℕ) → i < length ds → All (λ e. a ≤ e) ds → a ≤ at ds i
le-at a [] i lt h = absurd (omega arith)
le-at a (d ∷ ds) zero lt h = h.0
le-at a (d ∷ ds) (suc i) lt h = le-at a ds i (omega arith) h.1

-- behind a place of a sorted list are all that are greater
greater-at :
    (ds : List ℕ) (i : ℕ)
    → Ascending ds
    → i < length ds
    → length (filter (λ e. ltb (at ds i) e) ds) + i + 1 ≤ length ds
greater-at [] i h lt = absurd (omega arith)
greater-at (d ∷ ds) zero h lt = ground (arith, length-filter-le (λ e. ltb d e) ds)
greater-at (d ∷ ds) (suc i) h lt =
    let le = le-at d ds i (omega arith) h.0 in
    let ih = greater-at ds i h.1 (omega arith) in
    let small : ltb (at ds i) d ≡ false = ground arith in rw small (omega (arith, ih))

Elem-insert_sorted : (x d : ℕ) (ds : List ℕ) → Elem x (insert_sorted d ds) → Elem x (d ∷ ds)
Elem-insert_sorted x d [] m = m
Elem-insert_sorted x d (e ∷ es) m = elim (Bool-cases (ltb e d)) [
  | inl t ↦ elim (rw t at m) [
    | inl first ↦ inr (inl first)
    | inr later ↦ elim (Elem-insert_sorted x d es later) [
      | inl new ↦ inl new
      | inr old ↦ inr (inr old)
    ]
  ]
  | inr t ↦ rw t at m
]

Elem-ascending : (x : ℕ) (ds : List ℕ) → Elem x (ascending ds) → Elem x ds
Elem-ascending x [] m = m
Elem-ascending x (d ∷ ds) m = elim (Elem-insert_sorted x d (ascending ds) m) [
  | inl new ↦ inl new
  | inr old ↦ inr (Elem-ascending x ds old)
]

Elem-at : (ds : List ℕ) (i : ℕ) → i < length ds → Elem (at ds i) ds
Elem-at [] i lt = absurd (omega arith)
Elem-at (d ∷ ds) zero lt = inl refl
Elem-at (d ∷ ds) (suc i) lt = inr (Elem-at ds i (omega arith))

-- The latency that Stats reports as the 99th percentile is one of those that are kept, cut to whole
-- microseconds, and at most one in a hundred of those that are kept is greater than that one. There
-- is a latency.
pub p99_latency_lem :
    (d : ℕ) (ds : List ℕ)
    → (slow : ℕ) × (p99_latency (d ∷ ds) ≡ slow / 1000)
      × Elem slow (d ∷ ds)
      × (100 * length (filter (λ e. ltb slow e) (d ∷ ds)) ≤ length (d ∷ ds))
unfolding p99_latency slow_latency
p99_latency_lem d ds =
    let all = d ∷ ds in
    let sorted = ascending all in
    let sized = length-ascending all in
    let (inside, behind) = p99_idx-lt (length sorted) (omega (arith, sized)) in
    let i = p99_idx (length sorted) in
    let p = at sorted i in
    let few = greater-at sorted i (ascending-Ascending all) inside in
    let same = filter-ascending (λ e. ltb p e) all in
    (
      p,
      refl,
      Elem-ascending p all (Elem-at sorted i inside),
      omega (arith, few, behind, same, sized),
    )
