-- ===== src/Rbac/Tests.antt =====
-- The properties of the role table at concrete roles, and tests.
use spark_db.Prelude.{◌≡◌, refl, true, false, none}
use spark_db.Rbac.{
  role_admin, role_developer, role_readonly, perm_write, perm_drop, perm_alter, has_permission,
  parse_role,
}

developer_alters :
    (has_permission role_developer perm_alter ≡ true)
    × (has_permission role_developer perm_drop ≡ false)
    × (has_permission role_readonly perm_write ≡ false)
    × (has_permission "root" perm_write ≡ false)
    × (parse_role "root" ≡ none)
unfolding has_permission parse_role
developer_alters = (refl, refl, refl, refl, refl)

admin_drops : has_permission role_admin perm_drop ≡ true
unfolding has_permission
admin_drops = refl
