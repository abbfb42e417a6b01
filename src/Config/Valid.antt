-- ===== src/Config/Valid.antt =====
-- What a configuration that Load accepts is like.
use spark_db.Prelude.{
  ℕ, ◌≤◌, String, ◌≡◌, sym, refl, Bool, true, false, not, ◌&&◌, str_eq, arith, ◌>>=◌, Result, ok,
  err, Bool-cases, inl, inr, if◌then◌else◌,
}
use spark_db.Config.{
  ℤ, Config, is_port, below_one, is_negative, is_role, refuse_if, default_role, normalised, load,
  lacks_certificate, lacks_key, is_replica, pos,
}

-- what the server relies on
pub record IsValid (c : Config) : Type 0 where
  pub port : is_port c.server.port ≡ true
  pub conns : below_one c.database.max_conns ≡ false
  pub keeps : is_negative c.backup.keep_count ≡ false
  pub polls : below_one c.replication.poll_interval ≡ false
  pub certified : lacks_certificate c.tls ≡ false
  pub keyed : lacks_key c.encryption ≡ false
  pub known : is_role c.replication.role ≡ true
  pub replica_url :
      str_eq c.replication.role "replica" && str_eq c.replication.primary_url "" ≡ false
  pub replica_key : str_eq c.replication.role "replica" && str_eq c.replication.api_key "" ≡ false

refuse_if-ok :
    {A : Type 0} (b : Bool) (message : String) {r : Result A} {x : A}
    → (refuse_if b message >>= λ _. r) ≡ ok x
    → (b ≡ false) × (r ≡ ok x)
refuse_if-ok true message h = (let stuck : err _ ≡ ok _ = h in cc)
refuse_if-ok false message h = (refl, h)

at_least : (x : ℤ) (n : ℕ) → 1 ≤ n → below_one (if below_one x then pos n else x) ≡ false
at_least x n h = elim (Bool-cases (below_one x)) [
  | inl e ↦ rw (e) (ground arith)
  | inr e ↦ rw (e) e
]

not_negative : (x : ℤ) → is_negative (if is_negative x then pos 0 else x) ≡ false
not_negative x = elim (Bool-cases (is_negative x)) [ inl e ↦ rw (e) refl | inr e ↦ rw (e) e ]

not-false : (b : Bool) → not b ≡ false → b ≡ true
not-false b h = ground arith

default_role_idem : (role : String) → default_role (default_role role) ≡ default_role role
default_role_idem role = elim (Bool-cases (str_eq role "")) [
  | inl e ↦ rw (e) refl
  | inr e ↦ rw (e) (rw (e) refl)
]

-- the checks that an accepted configuration has passed
record Passed (c : Config) : Type 0 where
  port : is_port c.server.port ≡ true
  certified : lacks_certificate c.tls ≡ false
  keyed : lacks_key c.encryption ≡ false
  known : is_role (default_role c.replication.role) ≡ true
  replica_url : is_replica c.replication && str_eq c.replication.primary_url "" ≡ false
  replica_key : is_replica c.replication && str_eq c.replication.api_key "" ≡ false

load-Passed : (c c' : Config) → load c ≡ ok c' → Passed c × (normalised c ≡ c')
unfolding load
load-Passed c c' h =
    let (port, h1) = refuse_if-ok (not (is_port c.server.port)) _ h in
    let (certified, h2) = refuse_if-ok (lacks_certificate c.tls) _ h1 in
    let (keyed, h3) = refuse_if-ok (lacks_key c.encryption) _ h2 in
    let (known, h4) = refuse_if-ok (not (is_role (default_role c.replication.role))) _ h3 in
    let (url, h5) =
      refuse_if-ok (is_replica c.replication && str_eq c.replication.primary_url "") _ h4 in
    let (key, h6) =
      refuse_if-ok (is_replica c.replication && str_eq c.replication.api_key "") _ h5 in
    (
      record {
        port = not-false (is_port c.server.port) port;
        certified = certified;
        keyed = keyed;
        known = not-false (is_role (default_role c.replication.role)) known;
        replica_url = url;
        replica_key = key;
      },
      cc,
    )

normalised-IsValid : (c : Config) → Passed c → IsValid (normalised c)
normalised-IsValid c p = record {
  port = p.port;
  conns = at_least c.database.max_conns 1 (omega arith);
  keeps = not_negative c.backup.keep_count;
  polls = at_least c.replication.poll_interval 5 (omega arith);
  certified = p.certified;
  keyed = p.keyed;
  known = p.known;
  replica_url = p.replica_url;
  replica_key = p.replica_key;
}

load-normalised : (c : Config) → Passed c → load (normalised c) ≡ ok (normalised c)
unfolding load
load-normalised c p =
    rw
      (
        p.port,
        p.certified,
        p.keyed,
        default_role_idem c.replication.role,
        p.known,
        p.replica_url,
        p.replica_key,
        at_least c.database.max_conns 1 (omega arith),
        not_negative c.backup.keep_count,
        at_least c.replication.poll_interval 5 (omega arith),
      )
      refl

-- A configuration that Load returns has a port, at least one connection, a count of backups that is
-- not negative and a polling interval; a certificate where TLS has to have one, and a key where there
-- is encryption; one of the three roles, and for a replica the address and the key of its primary.
-- Load leaves it as it is when it is given once more.
pub load-IsValid : (c c' : Config) → load c ≡ ok c' → IsValid c' × (load c' ≡ ok c')
load-IsValid c c' h =
    let (p, same) = load-Passed c c' h in
    rw (sym same) (normalised-IsValid c p, load-normalised c p)
