-- ===== src/Rbac/Separation.antt =====
-- Who holds which permission: the duties that the table keeps apart.
use spark_db.Prelude.{
  Bool, false, ◌&&◌, List, [], ◌∷◌, refl, str_eq, Bool-cases, ◌≡◌, true, ◌⊎◌, inl, inr, some, arith,
  eq_iff,
}
use spark_db.Rbac.{
  admin_permissions, developer_permissions, readonly_permissions, auditor_permissions, Role,
  Permission, role_admin, role_developer, role_readonly, role_auditor, perm_drop, perm_create_user,
  perm_backup, perm_restore, has_permission, parse_role, lists,
}

-- Every permission of one list is on the other.
abbrev within : List Permission → List Permission → Bool
within [] qs = true
within (p ∷ ps) qs = lists qs p && within ps qs

lists-within :
    (ps qs : List Permission) (perm : Permission)
    → within ps qs ≡ true
    → lists ps perm ≡ true
    → lists qs perm ≡ true
lists-within [] qs perm w h = cc
lists-within (p ∷ ps) qs perm w h = elim (Bool-cases (str_eq p perm)) [
  | inl same ↦ rw (← (eq_iff p perm).0 same) (ground arith)
  | inr other ↦ lists-within ps qs perm (ground arith) (rw other at h)
]

module _ (role : Role) where
  admin_of_drop : has_permission role perm_drop ≡ true → role ≡ role_admin
  unfolding has_permission
  admin_of_drop h = ground (arith, eq_iff role role_admin)

  admin_of_create_user : has_permission role perm_create_user ≡ true → role ≡ role_admin
  unfolding has_permission
  admin_of_create_user h = ground (arith, eq_iff role role_admin)

  admin_of_backup : has_permission role perm_backup ≡ true → role ≡ role_admin
  unfolding has_permission
  admin_of_backup h = ground (arith, eq_iff role role_admin)

  admin_of_restore : has_permission role perm_restore ≡ true → role ≡ role_admin
  unfolding has_permission
  admin_of_restore h = ground (arith, eq_iff role role_admin)

  -- A role that may drop, manage users, back up or restore is the admin role.
  pub admin_only :
      (perm : Permission)
      → (perm ≡ perm_drop)
        ⊎ (perm ≡ perm_create_user)
        ⊎ (perm ≡ perm_backup)
        ⊎ (perm ≡ perm_restore)
      → has_permission role perm ≡ true
      → role ≡ role_admin
  admin_only perm (inl e) h = admin_of_drop (rw e at h)
  admin_only perm (inr (inl e)) h = admin_of_create_user (rw e at h)
  admin_only perm (inr (inr (inl e))) h = admin_of_backup (rw e at h)
  admin_only perm (inr (inr (inr e))) h = admin_of_restore (rw e at h)

  -- Only a role that `parse_role` accepts holds any permission.
  pub has_permission-known :
      (perm : Permission) → has_permission role perm ≡ true → parse_role role ≡ some role
  unfolding has_permission parse_role
  has_permission-known perm h = ground arith

readonly_below_admin :
    (perm : Permission)
    → has_permission role_readonly perm ≡ true
    → has_permission role_admin perm ≡ true
unfolding has_permission
readonly_below_admin perm h = lists-within readonly_permissions admin_permissions perm refl h

auditor_below_admin :
    (perm : Permission)
    → has_permission role_auditor perm ≡ true
    → has_permission role_admin perm ≡ true
unfolding has_permission
auditor_below_admin perm h = lists-within auditor_permissions admin_permissions perm refl h

developer_below_admin :
    (perm : Permission)
    → has_permission role_developer perm ≡ true
    → has_permission role_admin perm ≡ true
unfolding has_permission
developer_below_admin perm h = lists-within developer_permissions admin_permissions perm refl h

-- A role outside the four has no permission.
has_permission-unknown :
    (role : Role) (perm : Permission)
    → str_eq role role_admin ≡ false
    → str_eq role role_developer ≡ false
    → str_eq role role_readonly ≡ false
    → str_eq role role_auditor ≡ false
    → has_permission role perm ≡ false
unfolding has_permission
has_permission-unknown role perm a d r u = ground arith

-- A statement about a role follows from the four roles and from the roles without permissions.
role_cases :
    (role : Role) (perm : Permission)
    → has_permission role perm ≡ true
    → (role ≡ role_admin) ⊎ (role ≡ role_developer) ⊎ (role ≡ role_readonly) ⊎ (role ≡ role_auditor)
role_cases role perm h = ground (
  arith,
  has_permission-unknown role perm,
  eq_iff role role_admin,
  eq_iff role role_developer,
  eq_iff role role_readonly,
  eq_iff role role_auditor,
)

-- The admin role holds every permission that some role holds.
pub has_permission-admin :
    (role : Role) (perm : Permission)
    → has_permission role perm ≡ true
    → has_permission role_admin perm ≡ true
has_permission-admin role perm h = elim (role_cases role perm h) [
  | inl e ↦ rw e at h
  | inr (inl e) ↦ developer_below_admin perm (rw e at h)
  | inr (inr (inl e)) ↦ readonly_below_admin perm (rw e at h)
  | inr (inr (inr e)) ↦ auditor_below_admin perm (rw e at h)
]
