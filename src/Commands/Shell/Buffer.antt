-- ===== src/Commands/Shell/Buffer.antt =====
-- The texts that the buffer of the shell holds: where they begin and end.
use spark_db.Prelude.{ℕ, ◌≡◌, refl, ap, ◌∙◌, Bool, true, false, not, [], ◌∷◌, ◌++◌, ◌==◌, arith}
use spark_db.Text.{
  Text, codes, is_space, upper, to_upper, trim_left, trim_right, trim_space, cons_trimmed,
  has_prefix, has_suffix, is_empty,
}
use spark_db.Commands.Shell.{trim_suffix_of}

-- the test of the last character
abbrev pub last_is : (ℕ → Bool) → Text → Bool
last_is p [] = false
last_is p (c ∷ []) = p c
last_is p (c ∷ d ∷ s) = last_is p (d ∷ s)

abbrev pub first_is : (ℕ → Bool) → Text → Bool
first_is p [] = false
first_is p (c ∷ s) = p c

abbrev pub no_space : ℕ → Bool
no_space c = not (is_space c)

pub last_is-append :
    (p : ℕ → Bool) (s : Text) (c : ℕ) (t : Text) → last_is p (s ++ c ∷ t) ≡ last_is p (c ∷ t)
last_is-append p [] c t = refl
last_is-append p (d ∷ []) c t = refl
last_is-append p (d ∷ e ∷ s) c t = last_is-append p (e ∷ s) c t

trim_right-last : (c : ℕ) (s : Text) → last_is no_space (c ∷ s) ≡ true → trim_right (c ∷ s) ≡ c ∷ s
trim_right-last c [] h = ground arith
trim_right-last c (d ∷ s) h = rw (trim_right-last d s h) refl

trim_right-space : (s : Text) → trim_right (s ++ b' ' ∷ []) ≡ trim_right s
unfolding is_space
trim_right-space [] = refl
trim_right-space (c ∷ s) = ap (cons_trimmed c) (trim_right-space s)

-- a text with no space at either end, and some text between
pub record IsTrimmed (t : Text) : Type 0 where
  pub first : first_is no_space t ≡ true
  pub last : last_is no_space t ≡ true

trim_left-first : (t : Text) → first_is no_space t ≡ true → trim_left t ≡ t
trim_left-first [] h = cc
trim_left-first (c ∷ t) h = ground arith

pub trim_space-trimmed : (t : Text) → IsTrimmed t → trim_space t ≡ t
unfolding trim_space
trim_space-trimmed [] h = refl
trim_space-trimmed (c ∷ t) h = rw (trim_left-first (c ∷ t) h.first) (trim_right-last c t h.last)

pub trim_space-spaced : (t : Text) → IsTrimmed t → trim_space (t ++ b' ' ∷ []) ≡ t
unfolding trim_space
trim_space-spaced [] h = let bad : false ≡ true = h.first in cc
trim_space-spaced (c ∷ t) h =
    rw (trim_left-first (c ∷ (t ++ b' ' ∷ [])) h.first)
      (trim_right-space (c ∷ t) ∙ trim_right-last c t h.last)

pub IsTrimmed-append : (s t : Text) → IsTrimmed s → IsTrimmed t → IsTrimmed (s ++ b' ' ∷ t)
IsTrimmed-append [] t h k = let bad : false ≡ true = h.first in cc
IsTrimmed-append (c ∷ s) [] h k = let bad : false ≡ true = k.first in cc
IsTrimmed-append (c ∷ s) (d ∷ t) h k = record {
  first = h.first;
  last = last_is-append no_space (c ∷ s) b' ' (d ∷ t) ∙ k.last;
}

abbrev pub is_semicolon : ℕ → Bool
is_semicolon c = c == b';'

pub has_suffix-last : (t : Text) → has_suffix t (codes ";") ≡ last_is is_semicolon t
has_suffix-last [] = refl
has_suffix-last (c ∷ []) = ground arith
has_suffix-last (c ∷ d ∷ t) = let ih = has_suffix-last (d ∷ t) in ground arith

-- a semicolon put at the end is taken away
pub trim_suffix_of-append : (t : Text) → trim_suffix_of b';' (t ++ b';' ∷ []) ≡ t
trim_suffix_of-append [] = refl
trim_suffix_of-append (c ∷ []) = refl
trim_suffix_of-append (c ∷ d ∷ t) = ap (λ s. c ∷ s) (trim_suffix_of-append (d ∷ t))

-- no text begins with a backslash in upper case but one that does
pub has_prefix-to_upper :
    (t : Text) → has_prefix t (codes "\\") ≡ false → has_prefix (to_upper t) (codes "\\") ≡ false
unfolding upper
has_prefix-to_upper [] h = refl
has_prefix-to_upper (c ∷ t) h = ground arith

pub has_prefix-append :
    (s t : Text) → is_empty s ≡ false → has_prefix (s ++ t) (codes "\\") ≡ has_prefix s (codes "\\")
has_prefix-append [] t h = cc
has_prefix-append (c ∷ s) t h = ground arith
