-- ===== src/Auth/PasswordHash.antt =====
-- internal/auth/password.go: HashPassword and VerifyPassword, with the parts of the packages fmt and
-- strings that they call. Argon2 is the parameter `Argon2`; `random` is what crypto/rand returns. The
-- password is given by its code points.
pub mod Parsing
pub mod RoundTrip
mod Tests
use spark_db.Prelude.{
  ℕ, zero, suc, ◌+◌, ◌-◌, ◌*◌, ◌/◌, ◌%◌, ◌^◌, String, Bool, true, false, not, ◌&&◌, List, [], ◌∷◌,
  ◌++◌, length, ltb, leb, ◌==◌, Option, none, some, Result, ok, err, ◌>>=◌, wrap, errorf, reported,
  if◌then◌else◌,
}
use spark_db.Text.{Text, codes, text_eq, is_space}
use spark_db.Disk.{Bytes}
use spark_db.Auth.Base64.{encode_base64, decode_base64}

pub record Argon2 : Type 0 where
  pub version : ℕ
  -- IDKey(password, salt, time, memory, threads, length)
  pub id_key : Text → Bytes → ℕ → ℕ → ℕ → ℕ → Bytes

-- `%d`; `fuel` bounds the number of digits
unfoldable pub decimal_from : ℕ → ℕ → Text
decimal_from zero n = (n % 10 + b'0') ∷ []
decimal_from (suc fuel) n = elim (ltb n 10) [
  | true ↦ (n + b'0') ∷ []
  | false ↦ decimal_from fuel (n / 10) ++ (n % 10 + b'0') ∷ []
]

abbrev pub decimal : ℕ → Text
decimal n = decimal_from n n

abbrev pub is_decimal : ℕ → Bool
is_decimal c = leb b'0' c && leb c b'9'

-- the digits at the front of a text, as the number after `n`, and the rest
abbrev pub digits_from : ℕ → Text → ℕ × Text
digits_from n [] = (n, [])
digits_from n (c ∷ s) = elim (is_decimal c) [
  | true ↦ digits_from (n * 10 + (c - b'0')) s
  | false ↦ (n, c ∷ s)
]

abbrev pub in_range : ℕ → ℕ × Text → Result (ℕ × Text)
in_range bound (n, rest) =
    if ltb n bound then ok (n, rest) else err (reported "integer out of range")

abbrev pub scan_digits : ℕ → Text → Result (ℕ × Text)
scan_digits bound [] = err (reported "unexpected EOF")
scan_digits bound (c ∷ s) =
    if is_decimal c
    then in_range bound (digits_from 0 (c ∷ s))
    else err (reported "expected integer")

-- spaces before a number; a line end is none
abbrev pub skip_spaces : Text → Text
skip_spaces [] = []
skip_spaces (c ∷ s) = elim (is_space c && not (c == 10)) [ true ↦ skip_spaces s | false ↦ c ∷ s ]

abbrev pub after_sign : Text → Result (ℕ × Text)
after_sign [] = err (reported "unexpected EOF")
after_sign (c ∷ s) =
    if c == b'+'
    then scan_digits (2 ^ 63) s
    else if c == b'-'
    then scan_digits (2 ^ 63 + 1) s
    else scan_digits (2 ^ 63) (c ∷ s)

-- Sscanf's `%d` into an unsigned integer below `bound`, and into an int, whose absolute value this is
unfoldable pub scan_unsigned : ℕ → Text → Result (ℕ × Text)
scan_unsigned bound s = scan_digits bound (skip_spaces s)

unfoldable pub scan_int : Text → Result (ℕ × Text)
scan_int s = after_sign (skip_spaces s)

-- the literal characters of a format
abbrev pub expect : Text → Text → Result Text
expect [] s = ok s
expect (d ∷ format) [] = err (reported "unexpected EOF")
expect (d ∷ format) (c ∷ s) =
    if c == d then expect format s else err (reported "input does not match format")

-- strings.Split(s, "$")
abbrev pub onto_first : ℕ → List Text → List Text
onto_first c [] = (c ∷ []) ∷ []
onto_first c (part ∷ parts) = (c ∷ part) ∷ parts

unfoldable pub split_on : ℕ → Text → List Text
split_on sep [] = [] ∷ []
split_on sep (c ∷ s) =
    let rest = split_on sep s in if c == sep then [] ∷ rest else onto_first c rest

abbrev pub memory_default : ℕ
memory_default = 65536

unfoldable pub encoded : Argon2 → Bytes → Bytes → Text
encoded a salt hash =
    codes "$argon2id$v="
    ++ (decimal a.version
        ++ (codes "$m="
            ++ (decimal memory_default
                ++ (codes ",t=3,p=4$"
                    ++ (encode_base64 salt ++ (codes "$" ++ encode_base64 hash))))))

module _ (a : Argon2) where
  -- the salt is the text of the random bytes
  unfoldable pub hash_password : Result Bytes → Text → Result Text
  unfolding encoded
  hash_password random password = do
    bytes ← wrap "generate salt" random
    ok (
        encoded a (encode_base64 bytes)
          (a.id_key password (encode_base64 bytes) 3 memory_default 4 32))

  unfoldable pub scan_version : Text → Result (ℕ × Text)
  unfolding scan_int
  scan_version part = do rest ← expect (codes "v=") part; scan_int rest

  -- memory, time and threads
  unfoldable pub scan_params : Text → Result (ℕ × (ℕ × ℕ))
  unfolding scan_unsigned
  scan_params part = do
    at_memory ← expect (codes "m=") part
    memory ← scan_unsigned (2 ^ 32) at_memory
    at_time ← expect (codes ",t=") memory.1
    time ← scan_unsigned (2 ^ 32) at_time
    at_threads ← expect (codes ",p=") time.1
    threads ← scan_unsigned (2 ^ 8) at_threads
    ok (memory.0, (time.0, threads.0))

  unfoldable pub verify_parts : Text → List Text → Result Bool
  unfolding scan_version scan_params
  verify_parts password (_ ∷ _ ∷ version ∷ params ∷ salt ∷ hash ∷ []) = do
    _ ← wrap "parse version" (scan_version version)
    p ← wrap "parse params" (scan_params params)
    salt_bytes ← wrap "decode salt" (decode_base64 salt)
    hash_bytes ← wrap "decode hash" (decode_base64 hash)
    ok (text_eq hash_bytes (a.id_key password salt_bytes p.1.0 p.0 p.1.1 (length hash_bytes)))
  verify_parts password _ = err (errorf "invalid hash format")

  unfoldable pub verify_password : Text → Text → Result Bool
  unfolding verify_parts
  verify_password password encoded_hash = verify_parts password (split_on b'$' encoded_hash)
