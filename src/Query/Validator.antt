-- ===== src/Query/Validator.antt =====
-- internal/query/validator.go, the type `Validator`: what kind of statement a query is, which
-- permission it needs, and whether it is blocked for everybody. A query is a text (`Text`); the
-- second result of a Go pair `(x, bool)` is an `Option`, and `error` of `Analyze` is `none`.
pub mod Shape
pub mod Danger
mod Tests
use spark_db.Prelude.{
  String, Bool, true, false, ◌||◌, List, [], ◌∷◌, Option, none, some, if◌then◌else◌,
}
use spark_db.Text.{
  Text, codes, trim_space, to_upper, has_prefix, contains, text_eq, is_empty, fields, trim_right_of,
}
use spark_db.Rbac.{
  Permission, perm_query, perm_write, perm_create, perm_alter, perm_drop, perm_delete,
}

pub data QueryType : Type 0 where
  type_select type_insert type_update type_delete type_create type_drop : QueryType
  type_alter type_pragma type_explain type_other : QueryType

-- the `switch` over the trimmed query in upper case
abbrev pub type_of : Text → QueryType
type_of q =
    if has_prefix q (codes "SELECT")
    then type_select
    else if has_prefix q (codes "INSERT")
    then type_insert
    else if has_prefix q (codes "UPDATE")
    then type_update
    else if has_prefix q (codes "DELETE")
    then type_delete
    else if has_prefix q (codes "CREATE")
    then type_create
    else if has_prefix q (codes "DROP")
    then type_drop
    else if has_prefix q (codes "ALTER")
    then type_alter
    else if has_prefix q (codes "PRAGMA")
    then type_pragma
    else if has_prefix q (codes "EXPLAIN")
    then type_explain
    else type_other

unfoldable pub identify_type : Text → QueryType
identify_type query = type_of (to_upper (trim_space query))

unfoldable pub required_permission : QueryType → Option Permission
required_permission type_select = some perm_query
required_permission type_pragma = some perm_query
required_permission type_explain = some perm_query
required_permission type_insert = some perm_write
required_permission type_update = some perm_write
required_permission type_create = some perm_create
required_permission type_alter = some perm_alter
required_permission type_drop = some perm_drop
required_permission type_delete = some perm_delete
required_permission type_other = none

-- string(qt)
unfoldable pub type_name : QueryType → String
type_name type_select = "SELECT"
type_name type_insert = "INSERT"
type_name type_update = "UPDATE"
type_name type_delete = "DELETE"
type_name type_create = "CREATE"
type_name type_drop = "DROP"
type_name type_alter = "ALTER"
type_name type_pragma = "PRAGMA"
type_name type_explain = "EXPLAIN"
type_name type_other = "OTHER"

pub data DangerLevel : Type 0 where
  danger_none danger_warning danger_block : DangerLevel

pub record DangerPattern : Type 0 where
  pub pattern : Text
  pub level : DangerLevel
  pub description : String

abbrev pub danger : String → DangerLevel → String → DangerPattern
danger p l d = record { pattern = codes p; level = l; description = d }

unfoldable pub danger_patterns : List DangerPattern
danger_patterns =
    danger "DROP DATABASE" danger_block "dropping databases is not allowed"
    ∷ danger "DROP TABLE" danger_block "dropping tables requires admin role"
    ∷ danger "DELETE FROM SQLITE_MASTER" danger_block "modifying system tables is not allowed"
    ∷ danger "DROP INDEX" danger_warning "dropping indexes requires caution"
    ∷ danger "DROP VIEW" danger_warning "dropping views requires caution"
    ∷ danger "DROP TRIGGER" danger_warning "dropping triggers requires caution"
    ∷ danger "VACUUM" danger_warning "vacuum may lock the database"
    ∷ danger "ATTACH DATABASE" danger_block "attaching databases is not allowed"
    ∷ danger "DETACH DATABASE" danger_block "detaching databases is not allowed"
    ∷ []

abbrev pub is_block : DangerLevel → Bool
is_block danger_block = true
is_block _ = false

-- the loop of `CheckDangerous`
unfoldable pub first_danger : List DangerPattern → Text → Bool × String
first_danger [] q = (false, "")
first_danger (dp ∷ dps) q =
    if contains q dp.pattern
    then (if is_block dp.level then (true, dp.description) else first_danger dps q)
    else first_danger dps q

unfoldable pub check_dangerous : Text → Bool × String
check_dangerous query = first_danger danger_patterns (to_upper (trim_space query))

pub record QueryMapping : Type 0 where
  pub query_type : QueryType
  pub table_name : Text

abbrev pub is_table_keyword : Text → Bool
is_table_keyword p =
    text_eq p (codes "FROM")
    || text_eq p (codes "INTO")
    || text_eq p (codes "TABLE")
    || text_eq p (codes "UPDATE")

abbrev pub first_name : List Text → Text
first_name [] = []
first_name (p ∷ parts) = trim_right_of b';' p

-- the loop of `Analyze`
unfoldable pub table_after : List Text → Text
table_after [] = []
table_after (p ∷ parts) = if is_table_keyword p then first_name parts else table_after parts

abbrev pub has_table : QueryType → Bool
has_table type_delete = true
has_table type_insert = true
has_table type_select = true
has_table type_update = true
has_table _ = false

unfoldable pub analyze : Text → Option QueryMapping
analyze query =
    let q = trim_space query in
    let qt = identify_type q in
    if is_empty q
    then none
    else some (record {
      query_type = qt;
      table_name = if has_table qt then table_after (fields (to_upper q)) else [];
    })
