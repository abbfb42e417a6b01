-- ===== src/Text/Search.antt =====
-- `has_prefix` and `contains` decide how one text stands in another.
use spark_db.Prelude.{◌≡◌, refl, ap, true, [], ◌∷◌, ◌++◌, arith, ◌↔◌, Bool-cases, inl, inr}
use spark_db.Text.{Text, has_prefix, contains}

has_prefix-append : (p s : Text) → has_prefix (p ++ s) p ≡ true
has_prefix-append [] s = refl
has_prefix-append (c ∷ p) s = ground (arith, has_prefix-append p s)

pub has_prefix_refl : (s : Text) → has_prefix s s ≡ true
has_prefix_refl [] = refl
has_prefix_refl (c ∷ s) = ground (arith, has_prefix_refl s)

has_prefix_sound : (s p : Text) → has_prefix s p ≡ true → (rest : Text) × (s ≡ p ++ rest)
has_prefix_sound s [] h = (s, refl)
has_prefix_sound [] (d ∷ p) h = cc
has_prefix_sound (c ∷ s) (d ∷ p) h =
    let (rest, e) = has_prefix_sound s p (ground arith) in (rest, ground (arith, e))

-- `sub` stands somewhere in `s`.
abbrev pub Occurs : Text → Text → Type 0
Occurs sub s = (pre : Text) × (post : Text) × (s ≡ pre ++ (sub ++ post))

contains_of_prefix : (s sub : Text) → has_prefix s sub ≡ true → contains s sub ≡ true
contains_of_prefix [] sub h = h
contains_of_prefix (c ∷ s) sub h = rw h

contains-append : (pre sub post : Text) → contains (pre ++ (sub ++ post)) sub ≡ true
contains-append [] sub post = contains_of_prefix (sub ++ post) sub (has_prefix-append sub post)
contains-append (c ∷ pre) sub post = ground (arith, contains-append pre sub post)

contains_sound : (s sub : Text) → contains s sub ≡ true → Occurs sub s
contains_sound [] sub h = let (rest, e) = has_prefix_sound [] sub h in ([], rest, e)
contains_sound (c ∷ s) sub h = elim (Bool-cases (has_prefix (c ∷ s) sub)) [
  | inl here ↦ let (rest, e) = has_prefix_sound (c ∷ s) sub here in ([], rest, e)
  | inr there ↦
      let (pre, post, e) = contains_sound s sub (rw there at h) in (c ∷ pre, post, ap (◌∷◌ c) e)
]

pub contains_iff : (s sub : Text) → (contains s sub ≡ true) ↔ Occurs sub s
contains_iff s sub = (contains_sound s sub, λ o. rw o.2 (contains-append o.0 sub o.1))

pub has_prefix_iff : (s p : Text) → (has_prefix s p ≡ true) ↔ ((rest : Text) × (s ≡ p ++ rest))
has_prefix_iff s p = (has_prefix_sound s p, λ o. rw o.1 (has_prefix-append p o.0))
