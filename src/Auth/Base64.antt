-- ===== src/Auth/Base64.antt =====
-- The package encoding/base64, as internal/auth uses it: RawStdEncoding, the standard alphabet
-- without padding.
use spark_db.Prelude.{
  ℕ, ◌+◌, ◌-◌, ◌*◌, ◌/◌, ◌%◌, ◌<◌, ◌≡◌, refl, Bool, false, not, ◌&&◌, ◌||◌, [], ◌∷◌, arith, leb,
  ◌==◌, Option, none, some, Result, ok, err, reported, All, if◌then◌else◌, filter,
}
use spark_db.Text.{Text}
use spark_db.Disk.{Bytes}

unfoldable pub symbol : ℕ → ℕ
symbol n =
    if leb n 25
    then n + b'A'
    else if leb n 51
    then n - 26 + b'a'
    else if leb n 61
    then n - 52 + b'0'
    else if n == 62
    then b'+'
    else b'/'

unfoldable pub symbol_value : ℕ → Option ℕ
symbol_value c =
    if leb b'A' c && leb c b'Z'
    then some (c - b'A')
    else if leb b'a' c && leb c b'z'
    then some (c - b'a' + 26)
    else if leb b'0' c && leb c b'9'
    then some (c - b'0' + 52)
    else if c == b'+'
    then some 62
    else if c == b'/'
    then some 63
    else none

-- EncodeToString: three bytes are four symbols
unfoldable pub encode_base64 : Bytes → Text
encode_base64 [] = []
encode_base64 (a ∷ []) = symbol (a / 4) ∷ symbol (a % 4 * 16) ∷ []
encode_base64 (a ∷ b ∷ []) =
    symbol (a / 4) ∷ symbol (a % 4 * 16 + b / 16) ∷ symbol (b % 16 * 4) ∷ []
encode_base64 (a ∷ b ∷ c ∷ rest) =
    symbol (a / 4)
    ∷ symbol (a % 4 * 16 + b / 16)
    ∷ symbol (b % 16 * 4 + c / 64)
    ∷ symbol (c % 64)
    ∷ encode_base64 rest

abbrev pub corrupt : Result Bytes
corrupt = err (reported "illegal base64 data")

abbrev pub two : Option ℕ → Option ℕ → Result Bytes
two (some p) (some q) = ok ((p * 4 + q / 16) ∷ [])
two _ _ = corrupt

abbrev pub three : Option ℕ → Option ℕ → Option ℕ → Result Bytes
three (some p) (some q) (some r) = ok ((p * 4 + q / 16) ∷ (q % 16 * 16 + r / 4) ∷ [])
three _ _ _ = corrupt

abbrev pub four : Option ℕ → Option ℕ → Option ℕ → Option ℕ → Result Bytes → Result Bytes
four (some p) (some q) (some r) (some s) (ok rest) =
    ok ((p * 4 + q / 16) ∷ (q % 16 * 16 + r / 4) ∷ (r % 4 * 64 + s) ∷ rest)
four (some p) (some q) (some r) (some s) (err e) = err e
four _ _ _ _ _ = corrupt

-- the groups of four symbols; the bits beyond the last byte are not looked at
unfoldable pub decode_groups : Text → Result Bytes
decode_groups [] = ok []
decode_groups (c ∷ []) = corrupt
decode_groups (c ∷ d ∷ []) = two (symbol_value c) (symbol_value d)
decode_groups (c ∷ d ∷ e ∷ []) = three (symbol_value c) (symbol_value d) (symbol_value e)
decode_groups (c ∷ d ∷ e ∷ f ∷ rest) =
    four (symbol_value c) (symbol_value d) (symbol_value e) (symbol_value f) (decode_groups rest)

abbrev pub is_line_end : ℕ → Bool
is_line_end c = c == 10 || c == 13

-- DecodeString, which passes over line ends
unfoldable pub decode_base64 : Text → Result Bytes
unfolding decode_groups
decode_base64 s = decode_groups (filter (λ c. not (is_line_end c)) s)

symbol_value-symbol : (n : ℕ) → n < 64 → symbol_value (symbol n) ≡ some n
unfolding symbol_value symbol
symbol_value-symbol n h = ground arith

symbol-is_line_end : (n : ℕ) → n < 64 → is_line_end (symbol n) ≡ false
unfolding symbol
symbol-is_line_end n h = ground arith

decode_groups-encode_base64 :
    (bs : Bytes) → All (λ b. b < 256) bs → decode_groups (encode_base64 bs) ≡ ok bs
unfolding decode_groups encode_base64
decode_groups-encode_base64 [] h = refl
decode_groups-encode_base64 (a ∷ []) (la, h) =
    let first : a / 4 * 4 + a % 4 * 16 / 16 ≡ a = omega arith in
    rw
      (
        symbol_value-symbol (a / 4) (omega arith),
        symbol_value-symbol (a % 4 * 16) (omega arith),
        first,
      )
      refl
decode_groups-encode_base64 (a ∷ b ∷ []) (la, (lb, h)) =
    let q = a % 4 * 16 + b / 16 in
    let first : a / 4 * 4 + q / 16 ≡ a = omega arith in
    let second : q % 16 * 16 + b % 16 * 4 / 4 ≡ b = omega arith in
    rw
      (
        symbol_value-symbol (a / 4) (omega arith),
        symbol_value-symbol q (omega arith),
        symbol_value-symbol (b % 16 * 4) (omega arith),
        first,
        second,
      )
      refl
decode_groups-encode_base64 (a ∷ b ∷ c ∷ rest) (la, (lb, (lc, h))) =
    let q = a % 4 * 16 + b / 16 in
    let r = b % 16 * 4 + c / 64 in
    let first : a / 4 * 4 + q / 16 ≡ a = omega arith in
    let second : q % 16 * 16 + r / 4 ≡ b = omega arith in
    let third : r % 4 * 64 + c % 64 ≡ c = omega arith in
    rw
      (
        symbol_value-symbol (a / 4) (omega arith),
        symbol_value-symbol q (omega arith),
        symbol_value-symbol r (omega arith),
        symbol_value-symbol (c % 64) (omega arith),
        decode_groups-encode_base64 rest h,
        first,
        second,
        third,
      )
      refl

filter-encode_base64 :
    (bs : Bytes)
    → All (λ b. b < 256) bs
    → filter (λ c. not (is_line_end c)) (encode_base64 bs) ≡ encode_base64 bs
unfolding encode_base64
filter-encode_base64 [] h = refl
filter-encode_base64 (a ∷ []) (la, h) =
    rw (symbol-is_line_end (a / 4) (omega arith), symbol-is_line_end (a % 4 * 16) (omega arith))
      refl
filter-encode_base64 (a ∷ b ∷ []) (la, (lb, h)) =
    rw
      (
        symbol-is_line_end (a / 4) (omega arith),
        symbol-is_line_end (a % 4 * 16 + b / 16) (omega arith),
        symbol-is_line_end (b % 16 * 4) (omega arith),
      )
      refl
filter-encode_base64 (a ∷ b ∷ c ∷ rest) (la, (lb, (lc, h))) =
    rw
      (
        symbol-is_line_end (a / 4) (omega arith),
        symbol-is_line_end (a % 4 * 16 + b / 16) (omega arith),
        symbol-is_line_end (b % 16 * 4 + c / 64) (omega arith),
        symbol-is_line_end (c % 64) (omega arith),
        filter-encode_base64 rest h,
      )
      refl

-- Bytes are read back from their base64 form.
pub decode_base64-encode_base64 :
    (bs : Bytes) → All (λ b. b < 256) bs → decode_base64 (encode_base64 bs) ≡ ok bs
unfolding decode_base64
decode_base64-encode_base64 bs h = rw (filter-encode_base64 bs h) (decode_groups-encode_base64 bs h)
