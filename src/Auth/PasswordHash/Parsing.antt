-- ===== src/Auth/PasswordHash/Parsing.antt =====
-- The parts of an encoded hash are found again.
use spark_db.Prelude.{
  ℕ, zero, suc, ◌+◌, ◌-◌, ◌*◌, ◌/◌, ◌%◌, ◌^◌, ◌<◌, ◌≤◌, ◌≡◌, refl, ap, ◌∙◌, true, false, [], ◌∷◌,
  ◌++◌, All, All-append, ltb, lt→ltb, ◌==◌, arith, Bool-cases, inl, inr, ok,
}
use spark_db.Text.{Text, is_space, is_empty}
use spark_db.Disk.{Bytes}
use spark_db.Auth.Base64.{symbol, encode_base64}
use spark_db.Auth.PasswordHash.{
  decimal_from, decimal, is_decimal, digits_from, skip_spaces, after_sign, in_range, scan_int,
  split_on,
}

abbrev pub Digits : Text → Type 0
Digits = All (λ c. is_decimal c ≡ true)

-- without the separator
abbrev pub Without : ℕ → Text → Type 0
Without sep = All (λ c. (c == sep) ≡ false)

pub split_on-part :
    (sep : ℕ) (xs rest : Text)
    → Without sep xs
    → split_on sep (xs ++ sep ∷ rest) ≡ xs ∷ split_on sep rest
unfolding split_on
split_on-part sep [] rest h = let same : (sep == sep) ≡ true = ground arith in rw (same) refl
split_on-part sep (c ∷ xs) rest (hc, h) = rw (hc, split_on-part sep xs rest h) refl

pub split_on-last : (sep : ℕ) (xs : Text) → Without sep xs → split_on sep xs ≡ xs ∷ []
unfolding split_on
split_on-last sep [] h = refl
split_on-last sep (c ∷ xs) (hc, h) = rw (hc, split_on-last sep xs h) refl

decimal_from-small : (fuel n : ℕ) → ltb n 10 ≡ true → decimal_from (suc fuel) n ≡ (n + b'0') ∷ []
unfolding decimal_from
decimal_from-small fuel n e = rw (e, decimal_from) refl

decimal_from-large :
    (fuel n : ℕ)
    → ltb n 10 ≡ false
    → decimal_from (suc fuel) n ≡ decimal_from fuel (n / 10) ++ (n % 10 + b'0') ∷ []
unfolding decimal_from
decimal_from-large fuel n e = rw (e, decimal_from) refl

decimal_from-Digits : (fuel n : ℕ) → Digits (decimal_from fuel n)
unfolding decimal_from
decimal_from-Digits zero n = (ground arith, tt)
decimal_from-Digits (suc fuel) n = elim (Bool-cases (ltb n 10)) [
  | inl e ↦ rw (decimal_from-small fuel n e) (ground arith, tt)
  | inr e ↦ rw (decimal_from-large fuel n e) (
      All-append (λ c. is_decimal c ≡ true) (decimal_from fuel (n / 10)) ((n % 10 + b'0') ∷ [])
        (decimal_from-Digits fuel (n / 10)) (ground arith, tt))
]

is_empty-append : (xs ys : Text) → is_empty ys ≡ false → is_empty (xs ++ ys) ≡ false
is_empty-append [] ys h = h
is_empty-append (x ∷ xs) ys h = refl

decimal_from-filled : (fuel n : ℕ) → is_empty (decimal_from fuel n) ≡ false
unfolding decimal_from
decimal_from-filled zero n = refl
decimal_from-filled (suc fuel) n = elim (Bool-cases (ltb n 10)) [
  | inl e ↦ rw (decimal_from-small fuel n e) refl
  | inr e ↦
      rw (decimal_from-large fuel n e)
        (is_empty-append (decimal_from fuel (n / 10)) ((n % 10 + b'0') ∷ []) refl)
]

pub Digits-Without : (xs : Text) → Digits xs → Without b'$' xs
Digits-Without [] h = tt
Digits-Without (c ∷ xs) (hc, h) = (ground arith, Digits-Without xs h)

pub decimal-Digits : (n : ℕ) → Digits (decimal n)
decimal-Digits n = decimal_from-Digits n n

digits_from-digit :
    (m c : ℕ) (s : Text)
    → is_decimal c ≡ true
    → digits_from m (c ∷ s) ≡ digits_from (m * 10 + (c - b'0')) s
digits_from-digit m c s h = rw (h, digits_from) refl

digits_from-append :
    (m : ℕ) (xs ys : Text)
    → Digits xs
    → digits_from m (xs ++ ys) ≡ digits_from (digits_from m xs).0 ys
digits_from-append m [] ys h = refl
digits_from-append m (c ∷ xs) ys (hc, h) =
    rw (digits_from-digit m c (xs ++ ys) hc, digits_from-digit m c xs hc)
      (digits_from-append (m * 10 + (c - b'0')) xs ys h)

digits_from-decimal_from : (fuel n : ℕ) → n ≤ fuel → digits_from 0 (decimal_from fuel n) ≡ (n, [])
unfolding decimal_from
digits_from-decimal_from zero n h = let z : n ≡ 0 = omega arith in rw (z) refl
digits_from-decimal_from (suc fuel) n h = elim (Bool-cases (ltb n 10)) [
  | inl e ↦
      let digit : is_decimal (n + b'0') ≡ true = ground arith in
      let value : 0 * 10 + (n + b'0' - b'0') ≡ n = omega arith in
      rw (decimal_from-small fuel n e)
        (digits_from-digit 0 (n + b'0') [] digit ∙ ap (λ k. (k, [])) value)
  | inr e ↦
      let digit : is_decimal (n % 10 + b'0') ≡ true = ground arith in
      let value : n / 10 * 10 + (n % 10 + b'0' - b'0') ≡ n = omega arith in
      let before : digits_from 0 (decimal_from fuel (n / 10)) ≡ (n / 10, []) =
        digits_from-decimal_from fuel (n / 10) (ground arith) in
      rw (decimal_from-large fuel n e) (
        digits_from-append 0 (decimal_from fuel (n / 10)) ((n % 10 + b'0') ∷ [])
          (decimal_from-Digits fuel (n / 10))
        ∙ ap (λ r. digits_from r.0 ((n % 10 + b'0') ∷ [])) before
        ∙ digits_from-digit (n / 10) (n % 10 + b'0') [] digit
        ∙ ap (λ k. (k, [])) value)
]

is_space-digit : (c : ℕ) → is_decimal c ≡ true → is_space c ≡ false
unfolding is_space
is_space-digit c h = ground arith

scan_int-Digits :
    (s : Text) → Digits s → is_empty s ≡ false → scan_int s ≡ in_range (2 ^ 63) (digits_from 0 s)
unfolding scan_int
scan_int-Digits [] h filled = cc
scan_int-Digits (c ∷ s) (hc, h) filled =
    let plus : (c == b'+') ≡ false = ground arith in
    let minus : (c == b'-') ≡ false = ground arith in
    let here : skip_spaces (c ∷ s) ≡ c ∷ s = rw (is_space-digit c hc, skip_spaces) refl in
    ap after_sign here ∙ rw (plus, minus, hc) refl

-- A number that fits is scanned from its decimal form.
pub scan_int-decimal : (n : ℕ) → n < 2 ^ 63 → scan_int (decimal n) ≡ ok (n, [])
scan_int-decimal n h =
    scan_int-Digits (decimal n) (decimal-Digits n) (decimal_from-filled n n)
    ∙ ap (in_range (2 ^ 63)) (digits_from-decimal_from n n (omega arith))
    ∙ rw (lt→ltb n (2 ^ 63) h) refl

symbol-dollar : (n : ℕ) → n < 64 → (symbol n == b'$') ≡ false
unfolding symbol
symbol-dollar n h = ground arith

symbol-byte : (n : ℕ) → n < 64 → symbol n < 256
unfolding symbol
symbol-byte n h = ground arith

-- What holds of every symbol holds of a base64 text.
All-encode_base64 :
    (P : ℕ → Type 0)
    → ((n : ℕ) → n < 64 → P (symbol n))
    → (bs : Bytes) → All (λ b. b < 256) bs
    → All P (encode_base64 bs)
unfolding encode_base64
All-encode_base64 P of_symbol [] h = tt
All-encode_base64 P of_symbol (a ∷ []) (la, h) =
    (of_symbol (a / 4) (omega arith), (of_symbol (a % 4 * 16) (omega arith), tt))
All-encode_base64 P of_symbol (a ∷ b ∷ []) (la, (lb, h)) = (
  of_symbol (a / 4) (omega arith),
  (of_symbol (a % 4 * 16 + b / 16) (omega arith), (of_symbol (b % 16 * 4) (omega arith), tt)),
)
All-encode_base64 P of_symbol (a ∷ b ∷ c ∷ rest) (la, (lb, (lc, h))) = (
  of_symbol (a / 4) (omega arith),
  (
    of_symbol (a % 4 * 16 + b / 16) (omega arith),
    (
      of_symbol (b % 16 * 4 + c / 64) (omega arith),
      (of_symbol (c % 64) (omega arith), All-encode_base64 P of_symbol rest h),
    ),
  ),
)

pub encode_base64-Without : (bs : Bytes) → All (λ b. b < 256) bs → Without b'$' (encode_base64 bs)
encode_base64-Without = All-encode_base64 (λ c. (c == b'$') ≡ false) symbol-dollar

pub encode_base64-bytes :
    (bs : Bytes) → All (λ b. b < 256) bs → All (λ b. b < 256) (encode_base64 bs)
encode_base64-bytes = All-encode_base64 (λ b. b < 256) symbol-byte
