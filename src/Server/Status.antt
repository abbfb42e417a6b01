-- ===== src/Server/Status.antt =====
-- internal/server/routes.go: the handlers of databases, of the statistics and of the health, less
-- HandlePrometheus, which prints the statistics. `elapsed` is the time that a query takes.
pub mod Access
mod Tests
use Prim.Native.String
use spark_db.Prelude.{
  ℕ, String, Bool, true, false, List, [], ◌∷◌, Option, none, some, Error, errorf, Result, ok, err,
  str_eq, if◌then◌else◌,
}
use spark_db.Text.{codes}
use spark_db.Disk.{Disk}
use spark_db.Rbac.{perm_audit_log}
use spark_db.Monitor.{Monitor}
use spark_db.Monitor.Stats.{Stats, stats}
use spark_db.Auth.Authenticator.{AuthUser}
use spark_db.Database.Executor.{Engine, execute}
use spark_db.Server.Queries.{State, logged, set_database}
use spark_db.Server.Maintenance.{allowed}

pub data Body : Type 0 where
  error_body : Error → Body
  message_body : String → Body
  databases_body : List String → Body
  stats_body : Stats → Body
  -- the status, and the check of the database where there is one
  health_body : String → Option String → Body

pub record Answer : Type 0 where
  pub status : ℕ
  pub body : Body

abbrev pub refuse : ℕ → String → Answer
refuse status message = record { status = status; body = Body.error_body (errorf message) }

unfoldable pub handle_stats : Option AuthUser → String → Disk → List String → Monitor → Answer
handle_stats user data_dir d names m =
    if allowed user perm_audit_log
    then record { status = 200; body = Body.stats_body (stats data_dir d names m) }
    else refuse 403 "only admins and auditors can view stats"

-- `names` is what ListAll of the manager returns
unfoldable pub handle_list_databases : List String → Answer
handle_list_databases names = record { status = 200; body = Body.databases_body names }

-- `ping` is the answer of the system database, where there is one
unfoldable pub handle_health : Option (Result (Unit {0})) → Answer
handle_health none = record { status = 200; body = Body.health_body "ok" none }
handle_health (some (ok _)) = record { status = 200; body = Body.health_body "ok" (some "ok") }
handle_health (some (err e)) = record {
  status = 503;
  body = Body.health_body "degraded" (some "unreachable");
}

module _ (eng : Engine) where
  -- the body holds the name
  unfoldable pub handle_create_database :
      ℕ → Option AuthUser → Option String → State eng → Answer × State eng
  handle_create_database elapsed user none s = (refuse 400 "invalid request body", s)
  handle_create_database elapsed user (some name) s =
      let (r, db, mon) = execute eng elapsed (codes "SELECT 1") [] (s.databases name) s.mon in
      let ran = record (set_database eng name db s) { mon = mon } in
      if str_eq name "" then (refuse 400 "database name is required", s) else elim r [
        | err e ↦ (
          record { status = 500; body = Body.error_body e },
          logged eng user (codes name) "create_database" "failed" ran,
        )
        | ok res ↦ (
          record { status = 201; body = Body.message_body "database created" },
          logged eng user (codes name) "/databases" "success" ran,
        )
      ]
