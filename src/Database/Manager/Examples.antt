-- ===== src/Database/Manager/Examples.antt =====
-- A driver that touches no file, and the joining of two names with a slash, for the tests.
use spark_db.Prelude.{String, ok}
use spark_db.Text.{append_str}
use spark_db.Database.Manager.{Driver}

abbrev pub idle : Driver
idle = record {
  Handle = String;
  open_sql = λ path n d. (ok path, d);
  exec = λ statement h d. (ok tt, d);
  close_sql = λ h d. (ok tt, d);
}

abbrev pub join : String → String → String
join a b = append_str a (append_str "/" b)
