-- ===== src/Replication/Pages.antt =====
-- Reading a log in pages: what is left after a page.
use spark_db.Prelude.{
  ℕ, zero, suc, ◌≤◌, ◌<◌, ◌≡◌, refl, sym, ◌∙◌, List, [], ◌∷◌, ◌++◌, arith, ltb, filter, take, drop,
  All, All-filter, Bool-cases, inl, inr,
}
use spark_db.Database.System.ReplicationLog.{ReplicationEntry}

-- The ids increase.
abbrev pub InOrder : List ReplicationEntry → Type 0
InOrder [] = Unit
InOrder (e ∷ entries) = All (λ x. e.id < x.id) entries × InOrder entries

abbrev pub after : ℕ → List ReplicationEntry → List ReplicationEntry
after since entries = filter (λ e. ltb since e.id) entries

-- the id of the last entry, `since` where there is none
abbrev pub last_of : ℕ → List ReplicationEntry → ℕ
last_of since [] = since
last_of since (e ∷ entries) = last_of e.id entries

pub last_of-append :
    (since : ℕ) (xs ys : List ReplicationEntry)
    → last_of since (xs ++ ys) ≡ last_of (last_of since xs) ys
last_of-append since [] ys = refl
last_of-append since (e ∷ xs) ys = last_of-append e.id xs ys

after-InOrder :
    (since : ℕ) (entries : List ReplicationEntry) → InOrder entries → InOrder (after since entries)
after-InOrder since [] o = tt
after-InOrder since (e ∷ entries) (h, o) = elim (Bool-cases (ltb since e.id)) [
  | inl p ↦ rw p (All-filter _ _ entries h, after-InOrder since entries o)
  | inr p ↦ rw p (after-InOrder since entries o)
]

after-All :
    (since : ℕ) (entries : List ReplicationEntry) → All (λ e. since < e.id) (after since entries)
after-All since [] = tt
after-All since (e ∷ entries) = elim (Bool-cases (ltb since e.id)) [
  | inl p ↦ rw p (ground arith, after-All since entries)
  | inr p ↦ rw p (after-All since entries)
]

after-above :
    (since : ℕ) (entries : List ReplicationEntry)
    → All (λ e. since < e.id) entries
    → after since entries ≡ entries
after-above since [] h = refl
after-above since (e ∷ entries) h = ground (arith, after-above since entries h.1)

after-after :
    (since later : ℕ) (entries : List ReplicationEntry)
    → since ≤ later
    → after later (after since entries) ≡ after later entries
after-after since later [] h = refl
after-after since later (e ∷ entries) h = ground (arith, after-after since later entries h)

last_of-le :
    (n since : ℕ) (entries : List ReplicationEntry)
    → InOrder entries
    → All (λ e. since < e.id) entries
    → since ≤ last_of since (take n entries)
last_of-le zero since entries o h = omega arith
last_of-le (suc n) since [] o h = omega arith
last_of-le (suc n) since (e ∷ entries) (s, o) (lt, h) =
    omega (arith, last_of-le n e.id entries o s, lt)

-- After the first `n` entries the rest is left.
after-last_of :
    (n since : ℕ) (entries : List ReplicationEntry)
    → InOrder entries
    → All (λ e. since < e.id) entries
    → after (last_of since (take n entries)) entries ≡ drop n entries
after-last_of zero since entries o h = after-above since entries h
after-last_of (suc n) since [] o h = refl
after-last_of (suc n) since (e ∷ entries) (s, o) (lt, h) =
    ground (arith, last_of-le n e.id entries o s, after-last_of n e.id entries o s)

-- The page that follows `since` ends at an id after which exactly the rest of the log is left.
pub after_page :
    (n since : ℕ) (entries : List ReplicationEntry)
    → InOrder entries
    → after (last_of since (take n (after since entries))) entries ≡ drop n (after since entries)
after_page n since entries o =
    let page = after since entries in
    let ordered = after-InOrder since entries o in
    let above = after-All since entries in
    sym (
      after-after since (last_of since (take n page)) entries
        (last_of-le n since page ordered above))
    ∙ after-last_of n since page ordered above
