-- ===== src/Database/Manager/Handles.antt =====
-- An open database keeps its handle.
use spark_db.Prelude.{
  String, ◌≡◌, refl, some, lookup, lookup-insert, Result, ok, err, Option-cases, inl, inr, eq_refl,
}
use spark_db.Disk.{Disk}
use spark_db.Encryption.Cipher.{Aead}
use spark_db.Database.Manager.{Driver, Manager, registered, connect_with, open_db}

lookup-registered :
    (s : Driver) (a : Aead) (join : String → String → String) (name : String) (m : Manager s.Handle)
    (r : Result s.Handle × Disk) (h : s.Handle)
    → (registered s a join name m r).0 ≡ ok h
    → lookup name (registered s a join name m r).1.0.dbs ≡ some h
lookup-registered s a join name m (ok h', d) h e =
    rw (lookup-insert name name h' m.dbs, eq_refl name) cc
lookup-registered s a join name m (err x, d) h e = (let stuck : err x ≡ ok h = e in cc)

lookup-open_db :
    (s : Driver) (a : Aead) (join : String → String → String) (name : String) (m : Manager s.Handle)
    (d : Disk) (h : s.Handle)
    → (open_db s a join name m d).0 ≡ ok h
    → lookup name (open_db s a join name m d).1.0.dbs ≡ some h
unfolding open_db
lookup-open_db s a join name m d h e = elim (Option-cases (lookup name m.dbs)) [
  | inl closed ↦
      rw (closed, open_db)
        (lookup-registered s a join name m (connect_with s a join m.cipher name m d) h
          (rw (closed, open_db) at e))
  | inr (h', found) ↦ rw (found, open_db) (let same : ok h' ≡ ok h = rw (found, open_db) at e in cc)
]

-- A second Open of a database gives the first one's handle and touches nothing.
pub open_db-again :
    (s : Driver) (a : Aead) (join : String → String → String) (name : String) (m : Manager s.Handle)
    (d : Disk) (h : s.Handle)
    → let first = open_db s a join name m d in
      first.0 ≡ ok h → open_db s a join name first.1.0 first.1.1 ≡ (ok h, first.1)
unfolding open_db
open_db-again s a join name m d h e = rw (lookup-open_db s a join name m d h e, open_db) refl
