-- ===== src/Auth/Authenticator/Examples.antt =====
-- Cryptographic services that accept the stored hash as the password and sign one token, and an
-- authenticator over them, for the tests.
use spark_db.Prelude.{
  ◌≡◌, ◌<◌, ℕ, Bool, true, ◌&&◌, ltb, ◌==◌, str_eq, eq_iff, ==_iff, arith, ok, err, errorf, [], ◌∷◌,
  if◌then◌else◌,
}
use spark_db.Text.{Text, codes, text_eq}
use spark_db.Database.System.Examples.{two_users}
use spark_db.Auth.LoginLimiter.{LoginRateLimiter}
use spark_db.Auth.Authenticator.{Services, Authenticator, Claims}
use spark_db.Auth.Authenticator.Tokens.{SignsTokens}

abbrev alice_claims : Claims
alice_claims = record {
  user_id = 1;
  username = "alice";
  role = "developer";
  expires_at = 110;
  issued_at = 10;
  issuer = "sparkdb";
}

abbrev is_alice : Claims → Bool
is_alice c =
    c.user_id == 1
    && str_eq c.username "alice"
    && str_eq c.role "developer"
    && c.expires_at == 110
    && c.issued_at == 10
    && str_eq c.issuer "sparkdb"

abbrev pub plain : Services
plain = record {
  hash_password = λ p. ok "hash";
  verify_password = λ p h. ok (text_eq p (codes h));
  sign = λ secret c. if is_alice c then ok (7 ∷ []) else err (errorf "not signed");
  parse = λ now secret t. if ltb now 110 then ok alice_claims else err (errorf "expired");
  sha256_hex = λ t. "digest";
}

is_alice_lem : (c : Claims) → is_alice c ≡ true → c ≡ alice_claims
is_alice_lem c h = ground (
  arith,
  ==_iff c.user_id 1,
  ==_iff c.expires_at 110,
  ==_iff c.issued_at 10,
  eq_iff c.username "alice",
  eq_iff c.role "developer",
  eq_iff c.issuer "sparkdb",
)

parse-sign_plain :
    (now : ℕ) (secret token : Text) (c : Claims)
    → plain.sign secret c ≡ ok token
    → now < c.expires_at
    → plain.parse now secret token ≡ ok c
parse-sign_plain now secret token c h lt =
    let e : is_alice c ≡ true = ground arith in
    let same : c ≡ alice_claims = is_alice_lem c e in ground arith

pub plain-SignsTokens : SignsTokens plain
plain-SignsTokens = record { parse-sign = parse-sign_plain }

abbrev pub limiter : LoginRateLimiter
limiter = record { attempts = []; limit = 2; lockout = 60 }

abbrev pub server : Authenticator
server = record {
  system_db = two_users;
  login_limiter = limiter;
  secret = 115 ∷ [];
  duration = 100;
}
