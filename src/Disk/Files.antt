-- ===== src/Disk/Files.antt =====
-- What reading finds after a write or a removal.
use spark_db.Prelude.{
  String, none, some, true, ◌≡◌, ok, lookup-insert, lookup-remove, str_eq, arith, if◌then◌else◌,
  err, reported, refl, eq_iff, Bool-cases, inl, inr, sym,
}
use spark_db.Disk.{Bytes, File, Disk, stat, read_file, write_file, remove_file, stored}

-- A write to a writable path succeeds.
pub write_file-writable :
    (path : String) (content : Bytes) (d : Disk)
    → d.writable path ≡ true
    → write_file path content d ≡ (ok tt, stored path content d)
unfolding write_file
write_file-writable path content d h = rw (h) refl

pub stat-stored :
    (path other : String) (content : Bytes) (d : Disk)
    → stat other (stored path content d) ≡ (
        if str_eq path other
        then some (record { content = content; modified = d.clock })
        else stat other d)
stat-stored path other content d =
    let file : File = record { content = content; modified = d.clock } in
    lookup-insert path other file d.files

pub stat-remove_file :
    (path other : String) (d : Disk)
    → stat other (remove_file path d) ≡ (if str_eq path other then none else stat other d)
unfolding remove_file
stat-remove_file path other d = lookup-remove path other d.files

pub read_file-stored :
    (path other : String) (content : Bytes) (d : Disk)
    → read_file other (stored path content d)
      ≡ (if str_eq path other then ok content else read_file other d)
unfolding read_file
read_file-stored path other content d = ground (arith, stat-stored path other content d)

-- A file that gets its content back after a change reads as before, and so does every other.
pub restored :
    (path other : String) (content changed : Bytes) (d : Disk)
    → read_file path d ≡ ok content
    → read_file other (stored path content (stored path changed d)) ≡ read_file other d
restored path other content changed d h =
    rw
      (
        read_file-stored path other content (stored path changed d),
        read_file-stored path other changed d,
      )
      (elim (Bool-cases (str_eq path other)) [
        | inl e ↦ rw (e, sym ((eq_iff path other).0 e), h) refl
        | inr e ↦ rw (e) refl
      ])

pub read_file-remove_file :
    (path other : String) (d : Disk)
    → read_file other (remove_file path d) ≡ (
        if str_eq path other then err (reported "no such file or directory") else read_file other d)
unfolding read_file remove_file
read_file-remove_file path other d = ground (arith, lookup-remove path other d.files)
