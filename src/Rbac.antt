-- ===== src/Rbac.antt =====
-- internal/rbac/rbac.go: roles, permissions and the table that joins them. Both are strings in the
-- source, and any string can stand for a role.
pub mod Separation
mod Tests
use spark_db.Prelude.{
  String, Bool, true, false, ◌||◌, List, [], ◌∷◌, Option, none, some, str_eq, if◌then◌else◌,
}

abbrev pub Role : Type 0
Role = String

abbrev pub Permission : Type 0
Permission = String

abbrev pub role_admin : Role
role_admin = "admin"

abbrev pub role_developer : Role
role_developer = "developer"

abbrev pub role_readonly : Role
role_readonly = "readonly"

abbrev pub role_auditor : Role
role_auditor = "auditor"

abbrev pub perm_query : Permission
perm_query = "query"

abbrev pub perm_write : Permission
perm_write = "write"

abbrev pub perm_create : Permission
perm_create = "create"

abbrev pub perm_alter : Permission
perm_alter = "alter"

abbrev pub perm_drop : Permission
perm_drop = "drop"

abbrev pub perm_delete : Permission
perm_delete = "delete"

abbrev pub perm_create_user : Permission
perm_create_user = "create_user"

abbrev pub perm_backup : Permission
perm_backup = "backup"

abbrev pub perm_restore : Permission
perm_restore = "restore"

abbrev pub perm_audit_log : Permission
perm_audit_log = "audit_log"

abbrev pub admin_permissions : List Permission
admin_permissions =
    perm_query ∷ perm_write ∷ perm_create ∷ perm_alter ∷ perm_drop ∷ perm_delete ∷ perm_create_user
    ∷ perm_backup ∷ perm_restore ∷ perm_audit_log ∷ []

abbrev pub developer_permissions : List Permission
developer_permissions = perm_query ∷ perm_write ∷ perm_create ∷ perm_alter ∷ perm_delete ∷ []

abbrev pub readonly_permissions : List Permission
readonly_permissions = perm_query ∷ []

abbrev pub auditor_permissions : List Permission
auditor_permissions = perm_audit_log ∷ []

-- the map `rolePermissions`
unfoldable pub role_permissions : Role → Option (List Permission)
role_permissions role =
    if str_eq role role_admin
    then some admin_permissions
    else if str_eq role role_developer
    then some developer_permissions
    else if str_eq role role_readonly
    then some readonly_permissions
    else if str_eq role role_auditor
    then some auditor_permissions
    else none

-- the loop of `HasPermission`
abbrev pub lists : List Permission → Permission → Bool
lists [] perm = false
lists (p ∷ perms) perm = str_eq p perm || lists perms perm

unfoldable pub has_permission : Role → Permission → Bool
unfolding role_permissions
has_permission role perm = elim (role_permissions role) [
  | none ↦ false
  | some perms ↦ lists perms perm
]

unfoldable pub parse_role : String → Option Role
parse_role s =
    if str_eq s role_admin
      || str_eq s role_developer
      || str_eq s role_readonly
      || str_eq s role_auditor
    then some s
    else none

unfoldable pub valid_roles : List Role
valid_roles = role_admin ∷ role_developer ∷ role_readonly ∷ role_auditor ∷ []
