-- ===== src/Query/Validator/Danger.antt =====
-- Which statements are blocked.
use spark_db.Prelude.{◌≡◌, true, ◌↔◌, ◌⊎◌, inl, inr, List, [], ◌∷◌, arith}
use spark_db.Text.{Text}
use spark_db.Text.Search.{Occurs, contains_iff}
use spark_db.Query.Validator.{
  DangerPattern, DangerLevel, danger_block, is_block, danger_patterns, first_danger,
  check_dangerous,
}
use spark_db.Query.Validator.Shape.{canonical}

-- A pattern of the list that blocks occurs in the text.
abbrev pub Blocked : List DangerPattern → Text → Type 0
Blocked [] q = ⊥
Blocked (dp ∷ dps) q = ((dp.level ≡ danger_block) × Occurs dp.pattern q) ⊎ Blocked dps q

is_block_iff : (l : DangerLevel) → (is_block l ≡ true) ↔ (l ≡ danger_block)
is_block_iff l = ground arith

first_danger_sound :
    (dps : List DangerPattern) (q : Text) → (first_danger dps q).0 ≡ true → Blocked dps q
unfolding first_danger
first_danger_sound [] q h = cc
first_danger_sound (dp ∷ dps) q h =
    ground (arith, first_danger_sound dps q, contains_iff q dp.pattern, is_block_iff dp.level)

first_danger_complete :
    (dps : List DangerPattern) (q : Text) → Blocked dps q → (first_danger dps q).0 ≡ true
unfolding first_danger
first_danger_complete [] q b = elim b [ ]
first_danger_complete (dp ∷ dps) q (inl (l, o)) = rw ((contains_iff q dp.pattern).1 o, l)
first_danger_complete (dp ∷ dps) q (inr b) = ground (arith, first_danger_complete dps q b)

-- A statement is blocked exactly when, trimmed and in upper case, it contains a pattern of level
-- `danger_block`.
pub check_dangerous_iff :
    (q : Text) → ((check_dangerous q).0 ≡ true) ↔ Blocked danger_patterns (canonical q)
unfolding check_dangerous
check_dangerous_iff q = (
  first_danger_sound danger_patterns (canonical q),
  first_danger_complete danger_patterns (canonical q),
)
