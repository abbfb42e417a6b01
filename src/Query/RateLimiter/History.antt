-- ===== src/Query/RateLimiter/History.antt =====
-- The limiter against a specification that never forgets: the full list of accepted calls.
use spark_db.Prelude.{
  ℕ, ◌≤◌, String, ◌≡◌, refl, sym, ap, ◌∙◌, Bool, true, false, List, [], ◌∷◌, ◌++◌, arith, str_eq,
  eq_iff, leb, length, filter, filter-append, lookup, lookup-insert, if◌then◌else◌, Bool-cases, inl,
  inr, not, append-nil,
}
use spark_db.Query.RateLimiter.{RateLimiter, new_rate_limiter, is_recent, entries, allow}

pub record Call : Type 0 where
  pub time : ℕ
  pub key : String

-- The calls come in the order of the clock, none before `now`.
abbrev pub InOrder : ℕ → List Call → Type 0
InOrder now [] = Unit
InOrder now (c ∷ cs) = (now ≤ c.time) × InOrder c.time cs

-- The answers of `allow` to a sequence of calls.
unfoldable pub answers : RateLimiter → List Call → List Bool
answers r [] = []
answers r (c ∷ cs) = let (r', b) = allow c.time c.key r in b ∷ answers r' cs

-- The times of the accepted calls of one key.
abbrev pub times_of : String → List Call → List ℕ
times_of k [] = []
times_of k (c ∷ cs) = let rest = times_of k cs in if str_eq c.key k then c.time ∷ rest else rest

-- The specification: a call is accepted while fewer than `limit` accepted calls of its key lie less
-- than `window` before it; `past` holds all calls accepted so far.
abbrev pub accepts : ℕ → ℕ → List Call → Call → Bool
accepts limit window past c =
    not (leb limit (length (filter (is_recent window c.time) (times_of c.key past))))

unfoldable pub spec_answers : ℕ → ℕ → List Call → List Call → List Bool
spec_answers limit window past [] = []
spec_answers limit window past (c ∷ cs) =
    let b = accepts limit window past c in
    b ∷ spec_answers limit window (if b then past ++ c ∷ [] else past) cs

-- From `now` on the limiter and the full history have the same recent calls.
pub record Agrees (r : RateLimiter) (past : List Call) (now : ℕ) : Type 0 where
  pub recent :
      (k : String) (n : ℕ)
      → now ≤ n
      → filter (is_recent r.window n) (entries k r)
        ≡ filter (is_recent r.window n) (times_of k past)

filter_recent :
    (w now n : ℕ) (ts : List ℕ)
    → now ≤ n
    → filter (is_recent w n) (filter (is_recent w now) ts) ≡ filter (is_recent w n) ts
filter_recent w now n [] h = refl
filter_recent w now n (t ∷ ts) h = ground (arith, filter_recent w now n ts h)

pub times_of-append :
    (k : String) (xs ys : List Call) → times_of k (xs ++ ys) ≡ times_of k xs ++ times_of k ys
times_of-append k [] ys = refl
times_of-append k (c ∷ xs) ys = ground (arith, times_of-append k xs ys)

-- The calls of `now` that `allow` adds to the entries of the key.
abbrev added : ℕ → Bool → List ℕ
added now true = now ∷ []
added now false = []

allow-answer :
    (now : ℕ) (key : String) (r : RateLimiter)
    → (allow now key r).1
      ≡ not (leb r.limit (length (filter (is_recent r.window now) (entries key r))))
unfolding allow
allow-answer now key r = ground arith

allow-limit :
    (now : ℕ) (key : String) (r : RateLimiter)
    → ((allow now key r).0.limit ≡ r.limit) × ((allow now key r).0.window ≡ r.window)
unfolding allow
allow-limit now key r = ground arith

entries-allow :
    (now : ℕ) (key k : String) (r : RateLimiter)
    → entries k (allow now key r).0 ≡ (
        if str_eq key k
        then filter (is_recent r.window now) (entries key r) ++ added now (allow now key r).1
        else entries k r)
unfolding allow entries
entries-allow now key k r =
    let valid = filter (is_recent r.window now) (entries key r) in
    ground (
      arith,
      lookup-insert key k valid r.attempts,
      lookup-insert key k (valid ++ now ∷ []) r.attempts,
      append-nil valid,
    )

times_of-past :
    (k : String) (past : List Call) (c : Call) (b : Bool)
    → times_of k (if b then past ++ c ∷ [] else past)
      ≡ (if str_eq c.key k then times_of k past ++ added c.time b else times_of k past)
times_of-past k past c true =
    ground (arith, times_of-append k past (c ∷ []), append-nil (times_of k past))
times_of-past k past c false = ground (arith, append-nil (times_of k past))

module _ (r : RateLimiter) (past : List Call) (now : ℕ) (c : Call) where
  abbrev next : RateLimiter
  next = (allow c.time c.key r).0

  abbrev next_past : List Call
  next_past = if (allow c.time c.key r).1 then past ++ c ∷ [] else past

  recent-same :
      (n : ℕ) (x : List ℕ)
      → Agrees r past now
      → now ≤ c.time
      → c.time ≤ n
      → filter (is_recent r.window n) (filter (is_recent r.window c.time) (entries c.key r) ++ x)
        ≡ filter (is_recent r.window n) (times_of c.key past ++ x)
  recent-same n x a le h =
      let p = is_recent r.window n in
      filter-append p (filter (is_recent r.window c.time) (entries c.key r)) x
      ∙ ap (λ ts. ts ++ filter p x)
          (filter_recent r.window c.time n (entries c.key r) h ∙ a.recent c.key n (omega arith))
      ∙ sym (filter-append p (times_of c.key past) x)

  Agrees-allow : Agrees r past now → now ≤ c.time → Agrees next next_past c.time
  Agrees-allow a le = record {
    recent = λ k n h.
        rw
          (
            (allow-limit c.time c.key r).1,
            entries-allow c.time c.key k r,
            times_of-past k past c (allow c.time c.key r).1,
          )
          (elim (Bool-cases (str_eq c.key k)) [
            | inl e ↦
                rw (e, ← (eq_iff c.key k).0 e)
                  (recent-same n (added c.time (allow c.time c.key r).1) a le h)
            | inr e ↦ rw e (a.recent k n (omega arith))
          ]);
  }

  -- the answer of `allow` is that of the specification
  allow-accepts :
      Agrees r past now → now ≤ c.time → (allow c.time c.key r).1 ≡ accepts r.limit r.window past c
  allow-accepts a le = ground (arith, allow-answer c.time c.key r, a.recent c.key c.time le)

answers-agree :
    (r : RateLimiter) (past : List Call) (now : ℕ) (cs : List Call)
    → Agrees r past now
    → InOrder now cs
    → answers r cs ≡ spec_answers r.limit r.window past cs
unfolding answers spec_answers
answers-agree r past now [] a o = refl
answers-agree r past now (c ∷ cs) a (le, o) =
    let limits = allow-limit c.time c.key r in
    let rest =
      answers-agree (allow c.time c.key r).0
        (if (allow c.time c.key r).1 then past ++ c ∷ [] else past) c.time cs
        (Agrees-allow r past now c a le) o in
    rw (← allow-accepts r past now c a le)
      (ap (λ bs. (allow c.time c.key r).1 ∷ bs) (rw (limits.0, limits.1) at rest))

-- Over every sequence of calls in the order of the clock, a new limiter answers as the
-- specification with the full history does.
pub answers_refine :
    (limit window : ℕ) (cs : List Call)
    → InOrder 0 cs
    → answers (new_rate_limiter limit window) cs ≡ spec_answers limit window [] cs
unfolding new_rate_limiter entries lookup
answers_refine limit window cs =
    answers-agree (new_rate_limiter limit window) [] 0 cs (record { recent = λ k n h. refl })
