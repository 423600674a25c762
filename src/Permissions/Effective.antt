-- ===== src/Permissions/Effective.antt =====
-- frontend/src/lib/permissions.ts: `getDefaultPermissions`, `getEffectivePermissions` and
-- `hasPermission`. A `Set` is a list without repetition, in insertion order.
use agent_workflow_fast_api.Base.{
  String, Bool, ◌||◌, List, [], ◌∷◌, contains, set_add, set_delete, set_of, string_eq, starts_with,
  if◌then◌else◌,
}
use agent_workflow_fast_api.Permissions.Catalog.{
  WorkspaceRole, permission_catalog, default_permissions_by_role, restricted,
}

pub data Effect : Type 0 where
  grant deny : Effect

pub record PermissionOverride : Type 0 where
  pub effect : Effect
  pub permission : String

unfoldable pub get_default_permissions : WorkspaceRole → List String
get_default_permissions role = set_of (default_permissions_by_role role)

-- An override that is neither in the catalogue nor an agent tool is skipped.
unfoldable pub is_recognised : String → Bool
is_recognised permission =
    contains permission_catalog permission || starts_with permission "agent.tool."

unfoldable pub apply_effect : Effect → List String → String → List String
apply_effect grant permissions permission = set_add permissions permission
apply_effect deny permissions permission = set_delete permissions permission

unfoldable pub apply_override : List String → PermissionOverride → List String
apply_override permissions o =
    if is_recognised o.permission
    then apply_effect o.effect permissions o.permission
    else permissions

-- `for (const override of overrides)`
unfoldable pub apply_overrides : List String → List PermissionOverride → List String
apply_overrides permissions [] = permissions
apply_overrides permissions (o ∷ overrides) =
    apply_overrides (apply_override permissions o) overrides

-- `for (const permission of restrictedPermissionsByRole[role] ?? [])`
unfoldable pub delete_all : List String → List String → List String
delete_all permissions [] = permissions
delete_all permissions (permission ∷ rest) = delete_all (set_delete permissions permission) rest

unfoldable pub starting_permissions : WorkspaceRole → Bool → List String
starting_permissions role is_guest =
    if is_guest then set_add (set_add [] "chat.read") "chat.write" else get_default_permissions role

unfoldable pub get_effective_permissions :
    WorkspaceRole → List PermissionOverride → Bool → List String
get_effective_permissions role overrides is_guest =
    delete_all (apply_overrides (starting_permissions role is_guest) overrides) (restricted role)

unfoldable pub has_permission : WorkspaceRole → String → List PermissionOverride → Bool → Bool
has_permission role permission overrides is_guest =
    contains (get_effective_permissions role overrides is_guest) permission
