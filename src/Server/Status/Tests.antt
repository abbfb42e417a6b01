-- ===== src/Server/Status/Tests.antt =====
-- Tests of the handlers of the health.
use spark_db.Prelude.{◌≡◌, refl, some, err, reported}
use spark_db.Server.Status.{Body, handle_health}

unreachable :
    handle_health (some (err (reported "sql: database is closed")))
    ≡ record { status = 503; body = Body.health_body "degraded" (some "unreachable") }
unfolding handle_health
unreachable = refl
