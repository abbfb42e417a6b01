-- ===== src/Database/System/Users/Tests.antt =====
-- The properties of the table `users` at concrete rows, and tests.
use spark_db.Prelude.{◌≡◌, refl, ok, err, reported}
use spark_db.Database.System.Examples.{two_users, two_users-IsConsistent}
use spark_db.Database.System.Users.{new_user, get_user, create_user, update_username}
use spark_db.Database.System.Users.Consistency.{IsConsistent, Statement, run, run-IsConsistent}

run-IsConsistent_example : IsConsistent (run (Statement.set_username 1 "carol") two_users)
run-IsConsistent_example =
    run-IsConsistent (Statement.set_username 1 "carol") two_users two_users-IsConsistent

taken :
    (update_username 1 "bob" two_users
      ≡ (err (reported "UNIQUE constraint failed: users.username"), two_users))
    × (update_username 9 "bob" two_users ≡ (ok tt, two_users))
    × (update_username 1 "alice" two_users ≡ (ok tt, two_users))
unfolding update_username
taken = (refl, refl, refl)

created :
    (create_user 7 "carol" "hash" "readonly" two_users).0
    ≡ ok (new_user 7 3 "carol" "hash" "readonly")
unfolding create_user get_user
created = refl
