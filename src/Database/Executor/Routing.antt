-- ===== src/Database/Executor/Routing.antt =====
-- Which statements are run as queries.
use spark_db.Prelude.{
  ℕ, ◌≡◌, ◌↔◌, refl, Bool, true, false, List, [], ◌∷◌, map, arith, some, eq_iff, Result, ok, err,
  not, ap, sym, ◌∙◌, if◌then◌else◌, Bool-cases, inl, inr,
}
use spark_db.Text.{Text, codes, trim_space, to_upper, has_prefix}
use spark_db.Rbac.{perm_query}
use spark_db.Query.Validator.{
  QueryType, type_of, type_select, type_pragma, type_explain, type_insert, type_update, type_delete,
  type_create, type_drop, type_alter, type_other, identify_type, required_permission,
}
use spark_db.Database.Executor.{starts_read, is_write_query, scan_rows}

abbrev first : Text → ℕ
first [] = 0
first (c ∷ s) = c

first-has_prefix : (s : Text) (d : ℕ) (p : Text) → has_prefix s (d ∷ p) ≡ true → first s ≡ d
first-has_prefix [] d p h = cc
first-has_prefix (c ∷ s) d p h = ground arith

module _ (s : Text) where
  type_of-pragma : has_prefix s (codes "PRAGMA") ≡ true → type_of s ≡ type_pragma
  type_of-pragma h = ground (
    arith,
    first-has_prefix s b'P' (codes "RAGMA") h,
    first-has_prefix s b'S' (codes "ELECT"),
    first-has_prefix s b'I' (codes "NSERT"),
    first-has_prefix s b'U' (codes "PDATE"),
    first-has_prefix s b'D' (codes "ELETE"),
    first-has_prefix s b'C' (codes "REATE"),
    first-has_prefix s b'D' (codes "ROP"),
    first-has_prefix s b'A' (codes "LTER"),
  )

  type_of-explain : has_prefix s (codes "EXPLAIN") ≡ true → type_of s ≡ type_explain
  type_of-explain h = ground (
    arith,
    first-has_prefix s b'E' (codes "XPLAIN") h,
    first-has_prefix s b'S' (codes "ELECT"),
    first-has_prefix s b'I' (codes "NSERT"),
    first-has_prefix s b'U' (codes "PDATE"),
    first-has_prefix s b'D' (codes "ELETE"),
    first-has_prefix s b'C' (codes "REATE"),
    first-has_prefix s b'D' (codes "ROP"),
    first-has_prefix s b'A' (codes "LTER"),
    first-has_prefix s b'P' (codes "RAGMA"),
  )

  abbrev reads : QueryType → Bool
  reads type_select = true
  reads type_pragma = true
  reads type_explain = true
  reads _ = false

  -- the six tests between `SELECT` and `PRAGMA`
  reads-changes :
      (i u d c r a : Bool)
      → reads (
          if i
          then type_insert
          else if u
          then type_update
          else if d
          then type_delete
          else if c
          then type_create
          else if r
          then type_drop
          else if a
          then type_alter
          else type_other)
        ≡ false
  reads-changes i u d c r a = ground arith

  required-reads : (t : QueryType) → (reads t ≡ true) ↔ (required_permission t ≡ some perm_query)
  unfolding required_permission
  required-reads t = ground (
    arith,
    eq_iff "write" "query",
    eq_iff "create" "query",
    eq_iff "alter" "query",
    eq_iff "drop" "query",
    eq_iff "delete" "query",
  )

  type_of-starts_read : reads (type_of s) ≡ starts_read s
  type_of-starts_read = elim (Bool-cases (has_prefix s (codes "SELECT"))) [
    | inl e ↦ rw e refl
    | inr e ↦ elim (Bool-cases (has_prefix s (codes "PRAGMA"))) [
      | inl p ↦ rw (type_of-pragma p, e, p) refl
      | inr p ↦ elim (Bool-cases (has_prefix s (codes "EXPLAIN"))) [
        | inl x ↦ rw (type_of-explain x, e, p, x) refl
        | inr x ↦ rw (e, p, x) (reads-changes _ _ _ _ _ _)
      ]
    ]
  ]

not-false : (b : Bool) → not b ≡ false → b ≡ true
not-false b h = ground arith

-- The statements that are run as queries, and that are not replicated, are exactly those that need
-- the permission `query`.
pub is_write_query_iff :
    (q : Text)
    → (is_write_query q ≡ false) ↔ (required_permission (identify_type q) ≡ some perm_query)
unfolding is_write_query identify_type
is_write_query_iff q =
    let s = to_upper (trim_space q) in
    let needs = required-reads s (type_of s) in
    (
      λ h. needs.0 (type_of-starts_read s ∙ not-false (starts_read s) h),
      λ h. ap not (sym (type_of-starts_read s) ∙ needs.1 h),
    )

-- The rows of a response are all rows, as scanned, exactly when no `Scan` fails.
pub scan_rows_iff :
    {Value : Type 0} (rows : List (Result (List Value))) (all : List (List Value))
    → (scan_rows rows ≡ ok all) ↔ (rows ≡ map ok all)
unfolding scan_rows
scan_rows_iff [] all = ground arith
scan_rows_iff (err e ∷ rows) [] = ground arith
scan_rows_iff (err e ∷ rows) (w ∷ all) = ground arith
scan_rows_iff (ok v ∷ rows) [] = ground arith
scan_rows_iff (ok v ∷ rows) (w ∷ all) = ground (arith, scan_rows_iff rows all)
