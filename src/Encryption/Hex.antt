-- ===== src/Encryption/Hex.antt =====
-- The package encoding/hex, as internal/encryption/cipher.go reads keys and the commands print them.
use spark_db.Prelude.{
  ℕ, ◌+◌, ◌-◌, ◌*◌, ◌/◌, ◌%◌, ◌<◌, ◌≡◌, refl, ◌&&◌, [], ◌∷◌, arith, leb, Option, none, some, Result,
  ok, err, reported, All, if◌then◌else◌,
}
use spark_db.Disk.{Bytes}
use spark_db.Text.{Text}

-- a hexadecimal digit of either case
unfoldable pub digit_value : ℕ → Option ℕ
digit_value c =
    if leb b'0' c && leb c b'9'
    then some (c - b'0')
    else if leb b'a' c && leb c b'f'
    then some (c - b'a' + 10)
    else if leb b'A' c && leb c b'F'
    then some (c - b'A' + 10)
    else none

unfoldable pub hex_digit : ℕ → ℕ
hex_digit n = if leb n 9 then n + b'0' else n - 10 + b'a'

-- hex.EncodeToString
unfoldable pub encode_hex : Bytes → Text
encode_hex [] = []
encode_hex (b ∷ bs) = hex_digit (b / 16) ∷ hex_digit (b % 16) ∷ encode_hex bs

-- the byte of two digits before the rest
abbrev pub join : Option ℕ → Option ℕ → Result Bytes → Result Bytes
join (some h) (some l) (ok bs) = ok ((h * 16 + l) ∷ bs)
join (some h) (some l) (err e) = err e
join _ _ rest = err (reported "encoding/hex: invalid byte")

-- hex.DecodeString
unfoldable pub decode_hex : Text → Result Bytes
decode_hex [] = ok []
decode_hex (c ∷ []) = err (reported "encoding/hex: odd length hex string")
decode_hex (c ∷ d ∷ s) = join (digit_value c) (digit_value d) (decode_hex s)

digit_value-hex_digit : (n : ℕ) → n < 16 → digit_value (hex_digit n) ≡ some n
unfolding digit_value hex_digit
digit_value-hex_digit n h = ground arith

-- Bytes are read back from their hexadecimal form.
pub decode_hex-encode_hex :
    (bs : Bytes) → All (λ b. b < 256) bs → decode_hex (encode_hex bs) ≡ ok bs
unfolding decode_hex encode_hex
decode_hex-encode_hex [] h = refl
decode_hex-encode_hex (b ∷ bs) (lt, h) =
    let e : (b / 16) * 16 + b % 16 ≡ b = omega arith in
    rw
      (
        digit_value-hex_digit (b / 16) (omega arith),
        digit_value-hex_digit (b % 16) (omega arith),
        decode_hex-encode_hex bs h,
        e,
      )
      refl
