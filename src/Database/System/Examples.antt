-- ===== src/Database/System/Examples.antt =====
-- A system database with two users, for the tests.
use spark_db.Prelude.{[], ◌∷◌, none, some, arith, true, false}
use spark_db.Database.System.{User, SystemDb}
use spark_db.Database.System.Users.Consistency.{IsConsistent}
use spark_db.Prelude.{eq_iff}

abbrev pub alice : User
alice = record {
  id = 1;
  username = "alice";
  password_hash = "secret";
  role = "developer";
  created_at = 0;
  locked_until = none;
  password_change_required = true;
}

abbrev pub bob : User
bob = record {
  id = 2;
  username = "bob";
  password_hash = "hunter";
  role = "admin";
  created_at = 0;
  locked_until = some 50;
  password_change_required = false;
}

abbrev pub two_users : SystemDb
two_users = record {
  users = alice ∷ bob ∷ [];
  next_user = 3;
  api_keys = [];
  next_key = 1;
  sessions = [];
}

pub two_users-IsConsistent : IsConsistent two_users
two_users-IsConsistent = record {
  ids_below = (omega arith, (omega arith, tt));
  ids_apart = ((omega arith, tt), (tt, tt));
  names_apart = ((ground (arith, eq_iff "alice" "bob"), tt), (tt, tt));
}
