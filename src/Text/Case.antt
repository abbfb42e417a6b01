-- ===== src/Text/Case.antt =====
-- Trimming, and upper case against trimming.
use spark_db.Prelude.{
  ◌≡◌, refl, ◌∙◌, ap, true, false, [], ◌∷◌, ◌++◌, arith, Bool-cases, inl, inr, All, ◌↔◌, ℕ,
}
use spark_db.Text.{Text, is_space, upper, to_upper, trim_left, cons_trimmed, trim_right, trim_space}

is_space-upper : (c : ℕ) → is_space (upper c) ≡ is_space c
unfolding is_space upper
is_space-upper c = ground arith

upper_idem : (c : ℕ) → upper (upper c) ≡ upper c
unfolding upper
upper_idem c = ground arith

pub to_upper_idem : (s : Text) → to_upper (to_upper s) ≡ to_upper s
to_upper_idem [] = refl
to_upper_idem (c ∷ s) = cc (upper_idem c, to_upper_idem s)

trim_left-to_upper : (s : Text) → trim_left (to_upper s) ≡ to_upper (trim_left s)
trim_left-to_upper [] = refl
trim_left-to_upper (c ∷ s) = ground (arith, is_space-upper c, trim_left-to_upper s)

cons_trimmed-upper :
    (c : ℕ) (s : Text) → cons_trimmed (upper c) (to_upper s) ≡ to_upper (cons_trimmed c s)
cons_trimmed-upper c [] = ground (arith, is_space-upper c)
cons_trimmed-upper c (d ∷ s) = refl

trim_right-to_upper : (s : Text) → trim_right (to_upper s) ≡ to_upper (trim_right s)
trim_right-to_upper [] = refl
trim_right-to_upper (c ∷ s) =
    ap (cons_trimmed (upper c)) (trim_right-to_upper s) ∙ cons_trimmed-upper c (trim_right s)

-- Trimming and upper case can be done in either order.
pub trim_space-to_upper : (s : Text) → trim_space (to_upper s) ≡ to_upper (trim_space s)
unfolding trim_space
trim_space-to_upper s = ap trim_right (trim_left-to_upper s) ∙ trim_right-to_upper (trim_left s)

abbrev pub IsBlank : Text → Type 0
IsBlank = All (λ c. is_space c ≡ true)

trim_left-blank : (p s : Text) → IsBlank p → trim_left (p ++ s) ≡ trim_left s
trim_left-blank [] s h = refl
trim_left-blank (c ∷ p) s h = ground (arith, trim_left-blank p s h.1)

trim_right_of_blank : (p : Text) → IsBlank p → trim_right p ≡ []
trim_right_of_blank [] h = refl
trim_right_of_blank (c ∷ p) h = ground (arith, trim_right_of_blank p h.1)

trim_left_of_blank : (p : Text) → IsBlank p → trim_left p ≡ []
trim_left_of_blank [] h = refl
trim_left_of_blank (c ∷ p) h = ground (arith, trim_left_of_blank p h.1)

trim_right-append_blank : (s p : Text) → IsBlank p → trim_right (s ++ p) ≡ trim_right s
trim_right-append_blank [] p h = trim_right_of_blank p h
trim_right-append_blank (c ∷ s) p h = ap (cons_trimmed c) (trim_right-append_blank s p h)

trim-append_blank :
    (s p : Text) → IsBlank p → trim_right (trim_left (s ++ p)) ≡ trim_right (trim_left s)
trim-append_blank [] p h = ap trim_right (trim_left_of_blank p h)
trim-append_blank (c ∷ s) p h = elim (Bool-cases (is_space c)) [
  | inl e ↦ rw e (trim-append_blank s p h)
  | inr e ↦ rw e (trim_right-append_blank (c ∷ s) p h)
]

-- White space around a text does not change what is left of it.
pub trim_space-padded :
    (p s q : Text) → IsBlank p → IsBlank q → trim_space (p ++ (s ++ q)) ≡ trim_space s
unfolding trim_space
trim_space-padded p s q hp hq =
    ap trim_right (trim_left-blank p (s ++ q) hp) ∙ trim-append_blank s q hq

cons_trimmed_idem :
    (c : ℕ) (s : Text) → trim_right s ≡ s → trim_right (cons_trimmed c s) ≡ cons_trimmed c s
cons_trimmed_idem c [] h = ground arith
cons_trimmed_idem c (d ∷ s) h = ap (cons_trimmed c) h

trim_right_idem : (s : Text) → trim_right (trim_right s) ≡ trim_right s
trim_right_idem [] = refl
trim_right_idem (c ∷ s) = cons_trimmed_idem c (trim_right s) (trim_right_idem s)

-- A text that does not start with a space, or is empty.
abbrev IsLeftTrimmed : Text → Type 0
IsLeftTrimmed [] = Unit
IsLeftTrimmed (c ∷ s) = is_space c ≡ false

trim_left_of_trimmed : (s : Text) → IsLeftTrimmed s → trim_left s ≡ s
trim_left_of_trimmed [] h = refl
trim_left_of_trimmed (c ∷ s) h = rw h

trim_left-IsLeftTrimmed : (s : Text) → IsLeftTrimmed (trim_left s)
trim_left-IsLeftTrimmed [] = tt
trim_left-IsLeftTrimmed (c ∷ s) = elim (Bool-cases (is_space c)) [
  | inl e ↦ rw e (trim_left-IsLeftTrimmed s)
  | inr e ↦ rw e e
]

cons_trimmed-IsLeftTrimmed :
    (c : ℕ) (s : Text) → is_space c ≡ false → IsLeftTrimmed (cons_trimmed c s)
cons_trimmed-IsLeftTrimmed c [] h = rw h h
cons_trimmed-IsLeftTrimmed c (d ∷ s) h = h

trim_right-IsLeftTrimmed : (s : Text) → IsLeftTrimmed s → IsLeftTrimmed (trim_right s)
trim_right-IsLeftTrimmed [] h = tt
trim_right-IsLeftTrimmed (c ∷ s) h = cons_trimmed-IsLeftTrimmed c (trim_right s) h

pub trim_space_idem : (s : Text) → trim_space (trim_space s) ≡ trim_space s
unfolding trim_space
trim_space_idem s =
    ap trim_right
      (trim_left_of_trimmed _ (trim_right-IsLeftTrimmed (trim_left s) (trim_left-IsLeftTrimmed s)))
    ∙ trim_right_idem (trim_left s)

blank_of_cons_trimmed : (c : ℕ) (s : Text) → cons_trimmed c s ≡ [] → (is_space c ≡ true) × (s ≡ [])
blank_of_cons_trimmed c [] h = ground arith
blank_of_cons_trimmed c (d ∷ s) h = cc

IsBlank-of_trim_right : (s : Text) → trim_right s ≡ [] → IsBlank s
IsBlank-of_trim_right [] h = tt
IsBlank-of_trim_right (c ∷ s) h =
    let (space, rest) = blank_of_cons_trimmed c (trim_right s) h in
    (space, IsBlank-of_trim_right s rest)

IsBlank-of_trim_left : (s : Text) → IsBlank (trim_left s) → IsBlank s
IsBlank-of_trim_left [] h = tt
IsBlank-of_trim_left (c ∷ s) h = elim (Bool-cases (is_space c)) [
  | inl e ↦ (e, IsBlank-of_trim_left s (rw e at h))
  | inr e ↦ let k : IsBlank (c ∷ s) = rw e at h in k
]

-- Trimming leaves nothing exactly of the blank texts.
pub trim_space-eq-nil_iff : (s : Text) → (trim_space s ≡ []) ↔ IsBlank s
unfolding trim_space
trim_space-eq-nil_iff s = (
  λ h. IsBlank-of_trim_left s (IsBlank-of_trim_right (trim_left s) h),
  λ h. ap trim_right (trim_left_of_blank s h),
)
