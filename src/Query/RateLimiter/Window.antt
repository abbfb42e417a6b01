-- ===== src/Query/RateLimiter/Window.antt =====
-- How many calls a window of the clock can hold.
use spark_db.Prelude.{
  ℕ, ◌+◌, ◌≤◌, ◌<◌, String, ◌≡◌, Bool, true, List, [], ◌∷◌, ◌++◌, arith, ltb, leb, eq_iff, length,
  length-append, filter, filter-append, ◌&&◌, append-nil, append_assoc, if◌then◌else◌, Bool-cases,
  inl, inr,
}
use spark_db.Query.RateLimiter.{new_rate_limiter, is_recent}
use spark_db.Query.RateLimiter.History.{
  Call, InOrder, answers, times_of, times_of-append, accepts, spec_answers, answers_refine,
}

-- The calls that were answered by `true`.
abbrev pub kept : List Bool → List Call → List Call
kept [] cs = []
kept (b ∷ bs) [] = []
kept (b ∷ bs) (c ∷ cs) = let rest = kept bs cs in if b then c ∷ rest else rest

-- The window of length `w` that starts at `s`.
abbrev pub in_window : ℕ → ℕ → ℕ → Bool
in_window s w t = leb s t && ltb t (s + w)

window-le-recent :
    (s w now : ℕ) (ts : List ℕ)
    → now < s + w
    → length (filter (in_window s w) ts) ≤ length (filter (is_recent w now) ts)
window-le-recent s w now [] h = omega arith
window-le-recent s w now (t ∷ ts) h = ground (arith, window-le-recent s w now ts h)

-- The number of calls of `k` in the window that starts at `s`.
abbrev pub load : ℕ → ℕ → String → List Call → ℕ
load s w k cs = length (filter (in_window s w) (times_of k cs))

load-append :
    (s w : ℕ) (k : String) (past : List Call) (c : Call)
    → load s w k (past ++ c ∷ []) ≡ load s w k past + load s w k (c ∷ [])
load-append s w k past c =
    rw (times_of-append k past (c ∷ []), filter-append (in_window s w))
      (length-append (filter (in_window s w) (times_of k past)) _)

module _ (limit w : ℕ) (k : String) (s : ℕ) where
  load-accepted :
      (past : List Call) (c : Call)
      → accepts limit w past c ≡ true
      → load s w k past ≤ limit
      → load s w k (past ++ c ∷ []) ≤ limit
  load-accepted past c a h = ground (
    arith,
    load-append s w k past c,
    window-le-recent s w c.time (times_of k past),
    eq_iff c.key k,
  )

  load-kept :
      (past cs : List Call)
      → load s w k past ≤ limit
      → load s w k (past ++ kept (spec_answers limit w past cs) cs) ≤ limit
  unfolding spec_answers
  load-kept past [] h = rw append-nil h
  load-kept past (c ∷ cs) h = elim (Bool-cases (accepts limit w past c)) [
    | inl e ↦
        rw (e, ← append_assoc past (c ∷ []))
          (load-kept (past ++ c ∷ []) cs (load-accepted past c e h))
    | inr e ↦ rw e (load-kept past cs h)
  ]

-- Of the calls that a limiter accepts, in the order of the clock, no window of its length holds more
-- than `limit` of one key, wherever the window starts.
pub allow_window :
    (limit window : ℕ) (cs : List Call) (k : String) (s : ℕ)
    → InOrder 0 cs
    → load s window k (kept (answers (new_rate_limiter limit window) cs) cs) ≤ limit
allow_window limit window cs k s o =
    rw (answers_refine limit window cs o) (load-kept limit window k s [] cs (omega arith))
