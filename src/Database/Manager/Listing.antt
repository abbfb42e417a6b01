-- ===== src/Database/Manager/Listing.antt =====
-- internal/database/sqlite.go: the databases that `Manager` lists. `entries` is what os.ReadDir of
-- the data directory returns: each name, and whether it is a directory.
use spark_db.Prelude.{
  String, ◌≡◌, refl, Bool, false, not, ◌&&◌, ◌||◌, List, [], ◌∷◌, ◌++◌, map, take, Option, none,
  some, Result, ok, err, str_eq, eq_iff, arith, if◌then◌else◌, ◌==◌,
}
use spark_db.Text.{Text, codes, has_prefix, has_suffix, text_eq, is_empty}
use spark_db.Disk.{Bytes, File, Disk, stat}
use spark_db.Database.Manager.{Manager, resolve_path}

-- filepath.Ext, for a name without a slash
abbrev pub ext : Text → Text
ext [] = []
ext (c ∷ s) = let rest = ext s in if is_empty rest then (if c == b'.' then c ∷ s else []) else rest

abbrev pub one_of : Text → List String → Bool
one_of t [] = false
one_of t (s ∷ ss) = text_eq t (codes s) || one_of t ss

abbrev pub skip_exts : List String
skip_exts =
    ".go" ∷ ".md" ∷ ".txt" ∷ ".json" ∷ ".yml" ∷ ".yaml" ∷ ".toml" ∷ ".mod" ∷ ".sum" ∷ ".crt"
    ∷ ".key" ∷ ".pem" ∷ ".js" ∷ ".css" ∷ ".html" ∷ ".xml" ∷ ".zip" ∷ ".tar" ∷ ".gz" ∷ ".png"
    ∷ ".jpg" ∷ ".jpeg" ∷ ".gif" ∷ ".svg" ∷ ".ico" ∷ ".pdf" ∷ ".log" ∷ ".bak" ∷ []

abbrev pub sqlite_magic : Bytes
sqlite_magic = codes "SQLite format 3" ++ 0 ∷ []

abbrev has_magic : Option File → Bool
has_magic none = false
has_magic (some f) = text_eq (take 16 f.content) sqlite_magic

unfoldable pub is_sqlite_file : String → Disk → Bool
is_sqlite_file path d = has_magic (stat path d)

-- the tests on a name that the loop of ListAll makes before it reads the file
unfoldable pub skipped : Text → Bool
skipped name =
    one_of name ("sparkdb_system.db" ∷ "sparkdb_system.db-wal" ∷ "sparkdb_system.db-shm" ∷ [])
    || has_prefix name (codes ".")
    || (has_suffix name (codes "-wal")
        || (has_suffix name (codes "-shm") || has_suffix name (codes "-journal")))
    || (not (is_empty (ext name))
        && (not (one_of (ext name) (".db" ∷ ".sqlite" ∷ ".sqlite3" ∷ []))
            && one_of (ext name) skip_exts))

abbrev pub listed : String → List String → Bool
listed name [] = false
listed name (n ∷ ns) = str_eq name n || listed name ns

-- `seen[name] = true`
abbrev pub seen_with : String → List String → List String
seen_with name names = if listed name names then names else name ∷ names

module _ {Handle : Type 0} (m : Manager Handle) (d : Disk) where
  -- List, in some order
  abbrev pub list_open : List String
  list_open = map (λ entry. entry.0) m.dbs

  unfoldable pub is_shown : String × Bool → Bool
  unfolding is_sqlite_file skipped
  is_shown entry =
      not entry.1 && (not (skipped (codes entry.0)) && is_sqlite_file (resolve_path entry.0 m) d)

  abbrev pub seen_entries : List (String × Bool) → List String
  seen_entries [] = list_open
  seen_entries (entry ∷ entries) =
      let rest = seen_entries entries in if is_shown entry then seen_with entry.0 rest else rest

  -- what an error of os.ReadDir leaves
  abbrev read_entries : Result (List (String × Bool)) → List (String × Bool)
  read_entries (ok entries) = entries
  read_entries (err e) = []

  -- ListAll, in some order
  unfoldable pub list_all : Result (List (String × Bool)) → List String
  unfolding is_shown
  list_all entries = seen_entries (read_entries entries)

  abbrev pub shown_in : String → List (String × Bool) → Bool
  shown_in name [] = false
  shown_in name (entry ∷ entries) = (str_eq name entry.0 && is_shown entry) || shown_in name entries

  listed-seen_with :
      (name other : String) (names : List String)
      → listed name (seen_with other names) ≡ (str_eq name other || listed name names)
  listed-seen_with name other names = ground (arith, eq_iff name other)

  listed-seen_entries :
      (name : String) (entries : List (String × Bool))
      → listed name (seen_entries entries) ≡ (shown_in name entries || listed name list_open)
  listed-seen_entries name [] = refl
  listed-seen_entries name (entry ∷ entries) = ground (
    arith,
    listed-seen_entries name entries,
    listed-seen_with name entry.0 (seen_entries entries),
  )

  listed-list_all :
      (name : String) (entries : List (String × Bool))
      → listed name (list_all (ok entries)) ≡ (shown_in name entries || listed name list_open)
  unfolding list_all
  listed-list_all name entries = listed-seen_entries name entries
