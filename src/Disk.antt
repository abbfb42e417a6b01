-- ===== src/Disk.antt =====
-- The file system as far as the code uses it: a file by its path, with its bytes and the time of its
-- last change. A write and a rename fail only where the target is not writable, and a file that is there
-- can be removed; `clock` is the reading that the next write takes.
pub mod Files
use spark_db.Prelude.{
  ℕ, List, [], ◌∷◌, ◌++◌, String, Bool, true, false, Option, none, some, Assoc, lookup, insert,
  remove, Result, ok, err, reported, if◌then◌else◌,
}
use spark_db.Text.{Text, codes, has_prefix}

-- bytes, each below 256
abbrev pub Bytes : Type 0
Bytes = Text

pub record File : Type 0 where
  pub content : Bytes
  pub modified : ℕ

pub record Disk : Type 0 where
  pub files : Assoc File
  pub clock : ℕ
  pub writable : String → Bool

-- os.Stat
abbrev pub stat : String → Disk → Option File
stat path d = lookup path d.files

abbrev pub content_of : Option File → Result Bytes
content_of none = err (reported "no such file or directory")
content_of (some f) = ok f.content

-- os.ReadFile
unfoldable pub read_file : String → Disk → Result Bytes
read_file path d = content_of (stat path d)

abbrev pub stored : String → Bytes → Disk → Disk
stored path content d = record d {
  files = insert path (record { content = content; modified = d.clock }) d.files;
}

-- os.WriteFile, with the disk it leaves
unfoldable pub write_file : String → Bytes → Disk → Result (Unit {0}) × Disk
write_file path content d =
    if d.writable path
    then (ok tt, stored path content d)
    else (err (reported "permission denied"), d)

-- os.Remove, its error ignored
unfoldable pub remove_file : String → Disk → Disk
remove_file path d = record d { files = remove path d.files }

-- os.Rename: the file keeps its content and its time
abbrev pub moved : Option File → String → String → Disk → Result (Unit {0}) × Disk
moved none src dst d = (err (reported "no such file or directory"), d)
moved (some f) src dst d =
    if d.writable dst
    then (ok tt, record d { files = insert dst f (remove src d.files) })
    else (err (reported "permission denied"), d)

unfoldable pub rename_file : String → String → Disk → Result (Unit {0}) × Disk
rename_file src dst d = moved (stat src d) src dst d

abbrev pub without_prefix : Text → Assoc File → Assoc File
without_prefix dir [] = []
without_prefix dir (entry ∷ rest) =
    let kept = without_prefix dir rest in
    if has_prefix (codes entry.0) dir then kept else entry ∷ kept

-- os.RemoveAll of a directory
unfoldable pub remove_all : String → Disk → Disk
remove_all dir d = record d { files = without_prefix (codes dir ++ codes "/") (remove dir d.files) }
