-- ===== src/Database/Manager/Tests.antt =====
-- The manager run with a driver that touches no file.
use spark_db.Prelude.{String, ◌≡◌, refl, true, false, [], ◌∷◌, lookup, insert, none, ok}
use spark_db.Disk.{Disk, stat, stored, read_file}
use spark_db.Encryption.Cipher.{decrypt}
use spark_db.Encryption.Cipher.Examples.{tagging}
use spark_db.Database.Manager.Examples.{idle, join}
use spark_db.Database.Manager.{Manager, new_encrypted_manager, open_db, close_db, connect}
use spark_db.Database.Manager.Confinement.{Keeps, Confined}
use spark_db.Database.Manager.Reopening.{Openable, close_db-open_db}
use spark_db.Database.Manager.Listing.{list_all, is_shown, skipped, is_sqlite_file, sqlite_magic}

idle-Confined : Confined idle
unfolding Keeps
idle-Confined = record {
  opened_at = λ h. h;
  open_sql-opened_at = λ path n d h e. (let raw : ok path ≡ ok h = e in cc);
  open_sql-Keeps = λ path n d. ((λ other apart. refl), refl);
  exec-Keeps = λ statement h d. ((λ other apart. refl), refl);
  close_sql-Keeps = λ h d. ((λ other apart. refl), refl);
  close_sql-none = λ h d e. e;
}

abbrev manager : Manager String
manager = new_encrypted_manager (ok "/tmp/dec") "data" false 10 (1 ∷ [])

abbrev disk : Disk
disk = record {
  files =
      ("data/shop.db", record { content = 40 ∷ 41 ∷ 99 ∷ 7 ∷ 8 ∷ []; modified = 3 })
      ∷ ("data/plain.db", record { content = sqlite_magic; modified = 4 })
      ∷ [];
  clock = 5;
  writable = λ _. true;
}

abbrev shop : Openable idle tagging join (1 ∷ []) "shop.db" manager disk
shop = record {
  keyed = refl;
  unopened = unfold lookup in refl;
  file = record { content = 40 ∷ 41 ∷ 99 ∷ 7 ∷ 8 ∷ []; modified = 3 };
  present = unfold lookup in refl;
  filled = refl;
  plaintext = 7 ∷ 8 ∷ [];
  decrypts = unfold decrypt in refl;
  copy-writable = refl;
  apart = refl;
}

-- what a statement that makes another file leaves
abbrev worked : Disk
worked = stored "data/other" (1 ∷ []) disk

-- The database is encrypted twice.
close_db-open_db_example :
    let first = open_db idle tagging join "shop.db" manager disk in
    let last = close_db idle tagging join (ok (50 ∷ 51 ∷ [])) "shop.db" first.1.0 worked in
    (first.0 ≡ ok "/tmp/dec/shop.db")
    × (stat "/tmp/dec/shop.db" first.1.1 ≡ none)
    × (last.0 ≡ ok tt)
    × (read_file "data/shop.db" last.1.1 ≡ ok (50 ∷ 51 ∷ 99 ∷ 40 ∷ 41 ∷ 99 ∷ 7 ∷ 8 ∷ []))
unfolding connect lookup insert
close_db-open_db_example =
    close_db-open_db idle idle-Confined tagging join (1 ∷ []) "shop.db" manager disk shop
      "/tmp/dec/shop.db" (50 ∷ 51 ∷ []) worked refl refl refl refl refl

shown_example :
    list_all manager disk
      (ok (("shop.db", false) ∷ ("plain.db", false) ∷ ("plain.db", true) ∷ ("a.md", false) ∷ []))
    ≡ "plain.db" ∷ []
unfolding list_all is_shown skipped is_sqlite_file lookup
shown_example = refl
