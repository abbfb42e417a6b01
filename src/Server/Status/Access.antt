-- ===== src/Server/Status/Access.antt =====
-- Who may see the statistics, and who creates databases.
use spark_db.Prelude.{
  ℕ, String, ◌≡◌, refl, inl, inr, [], Option, none, some, Bool-cases, Result-cases, str_eq,
}
use spark_db.Text.{codes}
use spark_db.Auth.Authenticator.{AuthUser}
use spark_db.Database.Executor.{Engine, execute}
use spark_db.Server.Queries.{State}
use spark_db.Server.Status.{handle_create_database}

-- The role of the user makes no difference to the creation of a database: two users, or none at all,
-- get the same answer to a request, and it leaves the same databases.
pub handle_create_database-user :
    (eng : Engine) (elapsed : ℕ) (u v : Option AuthUser) (name : Option String) (s : State eng)
    → ((handle_create_database eng elapsed u name s).0
        ≡ (handle_create_database eng elapsed v name s).0)
      × ((handle_create_database eng elapsed u name s).1.databases
          ≡ (handle_create_database eng elapsed v name s).1.databases)
unfolding handle_create_database
handle_create_database-user eng elapsed u v none s = (refl, refl)
handle_create_database-user eng elapsed u v (some name) s = elim (Bool-cases (str_eq name "")) [
  | inl e ↦ rw e (refl, refl)
  | inr e ↦
      elim (Result-cases (execute eng elapsed (codes "SELECT 1") [] (s.databases name) s.mon).0) [
        | inl (res, h) ↦ rw (e, h) (refl, refl)
        | inr (f, h) ↦ rw (e, h) (refl, refl)
      ]
]
