-- ===== src/Query/Validator/Tests.antt =====
-- The properties of the validator at concrete queries, and tests.
use spark_db.Prelude.{◌≡◌, refl, true, false, some, ◌↔◌}
use spark_db.Text.{codes, trim_space, is_space, upper, fields}
use spark_db.Query.Validator.{
  type_select, type_drop, type_other, QueryMapping, identify_type, check_dangerous, first_danger,
  danger_patterns, table_after, analyze,
}
use spark_db.Query.Validator.Shape.{canonical}
use spark_db.Query.Validator.Danger.{Blocked, check_dangerous_iff}

types :
    (identify_type (codes "  select * from t") ≡ type_select)
    × (identify_type (codes "WITH x AS (SELECT 1) DELETE FROM t") ≡ type_other)
    × (identify_type (codes "drop  table t") ≡ type_drop)
unfolding identify_type trim_space is_space upper
types = (refl, refl, refl)

dangers :
    (check_dangerous (codes "Drop Table t") ≡ (true, "dropping tables requires admin role"))
    × (check_dangerous (codes "drop index i") ≡ (false, ""))
    × (check_dangerous (codes "DROP  TABLE t") ≡ (false, ""))
unfolding check_dangerous first_danger danger_patterns trim_space is_space upper
dangers = (refl, refl, refl)

abbrev mapping : QueryMapping
mapping = record { query_type = type_select; table_name = codes "USERS" }

analyze_select : analyze (codes " select a from users; ") ≡ some mapping
unfolding analyze identify_type table_after fields trim_space is_space upper
analyze_select = refl

check_dangerous_iff_example :
    ((check_dangerous (codes "vacuum")).0 ≡ true)
    ↔ Blocked danger_patterns (canonical (codes "vacuum"))
check_dangerous_iff_example = check_dangerous_iff (codes "vacuum")
