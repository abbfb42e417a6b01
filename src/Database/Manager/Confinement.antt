-- ===== src/Database/Manager/Confinement.antt =====
-- The driver's calls reach no file but the one that they open.
use spark_db.Prelude.{
  ℕ, String, ◌≡◌, refl, ◌∙◌, ap, false, List, [], ◌∷◌, none, ok, err, Result-cases, inl, inr,
}
use spark_db.Text.{codes, has_prefix}
use spark_db.Disk.{Disk, stat}
use spark_db.Database.Manager.{Driver, Manager, set_pragmas, connect, pragmas}

-- A call on the file `path` changes no file but those whose path starts with it, which are the
-- file's journals, and no permission.
unfoldable pub Keeps : String → Disk → Disk → Type 0
Keeps path d d' =
    ((other : String)
      → has_prefix (codes other) (codes path) ≡ false
      → stat other d' ≡ stat other d)
    × (d'.writable ≡ d.writable)

-- what SQLite documents of the files that it uses
pub record Confined (s : Driver) : Type 0 where
  pub opened_at : s.Handle → String
  pub open_sql-opened_at :
      (path : String) (n : ℕ) (d : Disk) (h : s.Handle)
      → (s.open_sql path n d).0 ≡ ok h
      → opened_at h ≡ path
  pub open_sql-Keeps : (path : String) (n : ℕ) (d : Disk) → Keeps path d (s.open_sql path n d).1
  pub exec-Keeps :
      (statement : String) (h : s.Handle) (d : Disk)
      → Keeps (opened_at h) d (s.exec statement h d).1
  pub close_sql-Keeps : (h : s.Handle) (d : Disk) → Keeps (opened_at h) d (s.close_sql h d).1
  -- the file is not made again where it was removed
  pub close_sql-none :
      (h : s.Handle) (d : Disk)
      → stat (opened_at h) d ≡ none
      → stat (opened_at h) (s.close_sql h d).1 ≡ none

Keeps-trans : (path : String) (a b c : Disk) → Keeps path a b → Keeps path b c → Keeps path a c
unfolding Keeps
Keeps-trans path a b c (ab, w) (bc, w') = ((λ other apart. bc other apart ∙ ab other apart), w' ∙ w)

module _ (s : Driver) (law : Confined s) where
  set_pragmas-Keeps :
      (ps : List (String × String)) (h : s.Handle) (d : Disk)
      → Keeps (law.opened_at h) d (set_pragmas s ps h d).1
  unfolding Keeps
  set_pragmas-Keeps [] h d = ((λ other apart. refl), refl)
  set_pragmas-Keeps (p ∷ ps) h d =
      let after = (s.exec p.0 h d).1 in
      elim (Result-cases (s.exec p.0 h d).0) [
        | inl (u, e) ↦
            rw (e, set_pragmas)
              (Keeps-trans (law.opened_at h) d after (set_pragmas s ps h after).1
                (law.exec-Keeps p.0 h d) (set_pragmas-Keeps ps h after))
        | inr (x, e) ↦
            rw (e, set_pragmas)
              (Keeps-trans (law.opened_at h) d after (s.close_sql h after).1
                (law.exec-Keeps p.0 h d) (law.close_sql-Keeps h after))
      ]

  set_pragmas-same :
      (ps : List (String × String)) (h h' : s.Handle) (d : Disk)
      → (set_pragmas s ps h d).0 ≡ ok h'
      → h' ≡ h
  set_pragmas-same [] h h' d e = cc
  set_pragmas-same (p ∷ ps) h h' d e = elim (Result-cases (s.exec p.0 h d).0) [
    | inl (u, r) ↦ set_pragmas-same ps h h' (s.exec p.0 h d).1 (rw (r, set_pragmas) at e)
    | inr (x, r) ↦ (let stuck : err _ ≡ ok _ = rw (r, set_pragmas) at e in cc)
  ]

  pub connect-Keeps :
      (path : String) (m : Manager s.Handle) (d : Disk) → Keeps path d (connect s path m d).1
  unfolding connect
  connect-Keeps path m d =
      let after = (s.open_sql path m.max_conns d).1 in
      elim (Result-cases (s.open_sql path m.max_conns d).0) [
        | inl (h, e) ↦
            let same : law.opened_at h ≡ path = law.open_sql-opened_at path m.max_conns d h e in
            let later : Keeps path after (set_pragmas s (pragmas m.wal_mode) h after).1 =
              (let raw = set_pragmas-Keeps (pragmas m.wal_mode) h after in rw (same) at raw) in
            rw (e, connect)
              (Keeps-trans path d after (set_pragmas s (pragmas m.wal_mode) h after).1
                (law.open_sql-Keeps path m.max_conns d) later)
        | inr (x, e) ↦ rw (e, connect) (law.open_sql-Keeps path m.max_conns d)
      ]

  pub connect-opened_at :
      (path : String) (m : Manager s.Handle) (d : Disk) (h : s.Handle)
      → (connect s path m d).0 ≡ ok h
      → law.opened_at h ≡ path
  unfolding connect
  connect-opened_at path m d h e = elim (Result-cases (s.open_sql path m.max_conns d).0) [
    | inl (h', r) ↦
        let same : h ≡ h' =
          set_pragmas-same (pragmas m.wal_mode) h' h (s.open_sql path m.max_conns d).1
            (rw (r, connect) at e) in
        ap law.opened_at same ∙ law.open_sql-opened_at path m.max_conns d h' r
    | inr (x, r) ↦ (let stuck : err _ ≡ ok _ = rw (r, connect) at e in cc)
  ]
