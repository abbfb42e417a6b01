-- ===== src/Auth/LoginLimiter/Lockout.antt =====
-- When a key is locked.
use spark_db.Prelude.{
  ℕ, ◌+◌, ◌≤◌, String, ◌≡◌, refl, ◌∙◌, Bool, false, List, [], ◌∷◌, arith, Option, none, some, leb,
  length, lookup, lookup-insert, lookup-remove, str_eq, eq_iff, if◌then◌else◌, ◌&&◌, not, All, ◌≢◌,
}
use spark_db.Auth.LoginLimiter.{
  LoginAttempt, LoginRateLimiter, is_over, is_locked, after_fail, record_fail, reset,
}

-- What the limiter knows of a key.
abbrev pub attempt : String → LoginRateLimiter → Option LoginAttempt
attempt k l = lookup k l.attempts

-- The failed logins of one key at these times, in turn.
unfoldable pub fails : List ℕ → String → LoginRateLimiter → LoginRateLimiter
fails [] key l = l
fails (t ∷ ts) key l = fails ts key (record_fail t key l)

-- All within the lockout time of `first`.
abbrev pub Within : ℕ → ℕ → List ℕ → Type 0
Within first lockout = All (λ t. t ≤ first + lockout)

pub attempt-record_fail :
    (now : ℕ) (key k : String) (l : LoginRateLimiter)
    → attempt k (record_fail now key l)
      ≡ (if str_eq key k then some (after_fail l.lockout now (attempt key l)) else attempt k l)
unfolding record_fail
attempt-record_fail now key k l = lookup-insert key k _ l.attempts

pub lockout-record_fail :
    (now : ℕ) (key : String) (l : LoginRateLimiter)
    → ((record_fail now key l).lockout ≡ l.lockout) × ((record_fail now key l).limit ≡ l.limit)
unfolding record_fail
lockout-record_fail now key l = (refl, refl)

-- One more failure in time adds one to the count and leaves the time of the first failure.
pub attempt-record_fail_within :
    (t first n : ℕ) (key : String) (l : LoginRateLimiter)
    → attempt key l ≡ some (record { count = n; first_fail = first })
    → t ≤ first + l.lockout
    → attempt key (record_fail t key l) ≡ some (record { count = n + 1; first_fail = first })
attempt-record_fail_within t first n key l e w =
    ground (arith, attempt-record_fail t key key l, eq_iff key key)

attempt-fails :
    (ts : List ℕ) (first n : ℕ) (key : String) (l : LoginRateLimiter)
    → attempt key l ≡ some (record { count = n; first_fail = first })
    → Within first l.lockout ts
    → (attempt key (fails ts key l) ≡ some (record { count = n + length ts; first_fail = first }))
      × ((fails ts key l).lockout ≡ l.lockout)
      × ((fails ts key l).limit ≡ l.limit)
unfolding fails
attempt-fails [] first n key l e w = ground arith
attempt-fails (t ∷ ts) first n key l e w = ground (
  arith,
  lockout-record_fail t key l,
  attempt-record_fail_within t first n key l e w.0,
  attempt-fails ts first (n + 1) key (record_fail t key l),
)

pub attempt-record_fail_first :
    (t : ℕ) (key : String) (l : LoginRateLimiter)
    → attempt key l ≡ none
    → attempt key (record_fail t key l) ≡ some (record { count = 1; first_fail = t })
attempt-record_fail_first t key l e =
    ground (arith, attempt-record_fail t key key l, eq_iff key key)

pub is_locked-answer :
    (now : ℕ) (key : String) (l : LoginRateLimiter) (a : LoginAttempt)
    → attempt key l ≡ some a
    → (is_locked now key l).1 ≡ (leb now (a.first_fail + l.lockout) && leb l.limit a.count)
unfolding is_locked
is_locked-answer now key l a e = ground arith

-- After failures at `first` and then at `ts`, all within the lockout time of `first`, a key without
-- earlier failures is locked exactly up to that time, and only if the failures reach the limit.
pub lockout_exact :
    (first now : ℕ) (ts : List ℕ) (key : String) (l : LoginRateLimiter)
    → attempt key l ≡ none
    → Within first l.lockout ts
    → (is_locked now key (fails (first ∷ ts) key l)).1
      ≡ (leb now (first + l.lockout) && leb l.limit (1 + length ts))
unfolding fails
lockout_exact first now ts key l e w =
    let (at, out, lim) =
      attempt-fails ts first 1 key (record_fail first key l)
        (attempt-record_fail_first first key l e) (rw (lockout-record_fail first key l).0 w) in
    is_locked-answer now key (fails ts key (record_fail first key l)) _ at
    ∙ rw (out, lim, (lockout-record_fail first key l).0, (lockout-record_fail first key l).1) refl

attempt-reset :
    (key k : String) (l : LoginRateLimiter)
    → attempt k (reset key l) ≡ (if str_eq key k then none else attempt k l)
unfolding reset
attempt-reset key k l = lookup-remove key k l.attempts

-- What is left of an attempt once the clock shows `now`.
abbrev pub live : ℕ → ℕ → Option LoginAttempt → Option LoginAttempt
live lockout now none = none
live lockout now (some a) = if is_over lockout now a then none else some a

pub attempt-is_locked :
    (now : ℕ) (key k : String) (l : LoginRateLimiter)
    → attempt k (is_locked now key l).0
      ≡ (if str_eq key k then live l.lockout now (attempt k l) else attempt k l)
unfolding is_locked
attempt-is_locked now key k l = ground (arith, lookup-remove key k l.attempts, eq_iff key k)

-- The three operations on one key leave what is known of every other key.
pub other_keys :
    (now : ℕ) (key k : String) (l : LoginRateLimiter)
    → key ≢ k
    → (attempt k (record_fail now key l) ≡ attempt k l)
      × (attempt k (reset key l) ≡ attempt k l)
      × (attempt k (is_locked now key l).0 ≡ attempt k l)
other_keys now key k l ne = ground (
  arith,
  attempt-record_fail now key k l,
  attempt-reset key k l,
  attempt-is_locked now key k l,
  eq_iff key k,
)

unfoldable pub locked : ℕ → ℕ → ℕ → Option LoginAttempt → Bool
locked limit lockout now none = false
locked limit lockout now (some a) = not (is_over lockout now a) && leb limit a.count

pub is_locked-locked :
    (now : ℕ) (key : String) (l : LoginRateLimiter)
    → (is_locked now key l).1 ≡ locked l.limit l.lockout now (attempt key l)
unfolding is_locked locked
is_locked-locked now key l = ground arith

pub lockout-is_locked :
    (now : ℕ) (key : String) (l : LoginRateLimiter)
    → ((is_locked now key l).0.lockout ≡ l.lockout) × ((is_locked now key l).0.limit ≡ l.limit)
unfolding is_locked
lockout-is_locked now key l = ground arith

-- Reading a lock, which may forget an attempt, changes no later answer for any key, neither of a
-- second reading nor of a reading after one more failure.
pub is_locked_unobservable :
    (now later : ℕ) (key k : String) (l : LoginRateLimiter)
    → now ≤ later
    → ((is_locked later k (is_locked now key l).0).1 ≡ (is_locked later k l).1)
      × ((is_locked later k (record_fail later k (is_locked now key l).0)).1
          ≡ (is_locked later k (record_fail later k l)).1)
unfolding locked
is_locked_unobservable now later key k l le = (
  ground (
    arith,
    is_locked-locked later k (is_locked now key l).0,
    is_locked-locked later k l,
    attempt-is_locked now key k l,
    lockout-is_locked now key l,
  ),
  ground (
    arith,
    is_locked-locked later k (record_fail later k (is_locked now key l).0),
    is_locked-locked later k (record_fail later k l),
    attempt-record_fail later k k (is_locked now key l).0,
    attempt-record_fail later k k l,
    lockout-record_fail later k (is_locked now key l).0,
    lockout-record_fail later k l,
    attempt-is_locked now key k l,
    lockout-is_locked now key l,
    eq_iff k k,
  ),
)
