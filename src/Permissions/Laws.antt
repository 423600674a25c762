-- ===== src/Permissions/Laws.antt =====
-- frontend/src/lib/permissions.ts: what `getEffectivePermissions` decides, against a description
-- by the last override of a permission.
use agent_workflow_fast_api.Base.{
  String, Bool, true, false, not, ◌&&◌, ◌||◌, List, [], ◌∷◌, Option, none, some, ◌≡◌, refl, arith,
  contains, ◌==◌, ==_iff, string_eq, if◌then◌else◌, contains-set_add, contains-set_delete,
  contains-set_of, set_add, set_delete,
}
use agent_workflow_fast_api.Permissions.Catalog.{
  WorkspaceRole, default_permissions_by_role, restricted, role_allows_permission,
}
use agent_workflow_fast_api.Permissions.Effective.{
  Effect, grant, deny, PermissionOverride, get_default_permissions, is_recognised, apply_effect,
  apply_override, apply_overrides, delete_all, starting_permissions, get_effective_permissions,
  has_permission,
}

-- The effect of the last override that names the permission.
abbrev pub last_effect : String → List PermissionOverride → Option Effect
last_effect p [] = none
last_effect p (o ∷ os) = elim (last_effect p os) [
  | some e ↦ some e
  | none ↦ if o.permission == p then some o.effect else none
]

abbrev pub decide_by : Option Effect → Bool → Bool
decide_by (some grant) otherwise = true
decide_by (some deny) otherwise = false
decide_by none otherwise = otherwise

-- What holds before any override.
abbrev pub holds_by_default : WorkspaceRole → Bool → String → Bool
holds_by_default role true p = "chat.read" == p || "chat.write" == p
holds_by_default role false p = contains (default_permissions_by_role role) p

contains-apply_override :
    (s : List String) (o : PermissionOverride) (p : String)
    → contains (apply_override s o) p ≡ (
        if is_recognised p && (o.permission == p)
        then decide_by (some o.effect) false
        else contains s p)
unfolding apply_override apply_effect
contains-apply_override s o p = ground (
  arith,
  contains-set_add s o.permission p,
  contains-set_delete s o.permission p,
  ==_iff o.permission p,
)

contains-apply_overrides :
    (s : List String) (os : List PermissionOverride) (p : String)
    → contains (apply_overrides s os) p
      ≡ (if is_recognised p then decide_by (last_effect p os) (contains s p) else contains s p)
unfolding apply_overrides
contains-apply_overrides s [] p = ground arith
contains-apply_overrides s (o ∷ os) p =
    ground
      (arith, contains-apply_overrides (apply_override s o) os p, contains-apply_override s o p)

contains-delete_all :
    (s ps : List String) (p : String)
    → contains (delete_all s ps) p ≡ (not (contains ps p) && contains s p)
unfolding delete_all
contains-delete_all s [] p = refl
contains-delete_all s (q ∷ ps) p =
    ground (arith, contains-delete_all (set_delete s q) ps p, contains-set_delete s q p)

contains-starting_permissions :
    (role : WorkspaceRole) (is_guest : Bool) (p : String)
    → contains (starting_permissions role is_guest) p ≡ holds_by_default role is_guest p
unfolding starting_permissions get_default_permissions
contains-starting_permissions role true p = ground (
  arith,
  contains-set_add (set_add [] "chat.read") "chat.write" p,
  contains-set_add [] "chat.read" p,
)
contains-starting_permissions role false p = contains-set_of (default_permissions_by_role role) p

-- A permission is held exactly when the role is not barred from it and its last override grants
-- it, or it has no override that counts and is held by default. Overrides count only for names of
-- the catalogue and for agent tools.
pub has_permission_lem :
    (role : WorkspaceRole) (p : String) (overrides : List PermissionOverride) (is_guest : Bool)
    → has_permission role p overrides is_guest ≡ (
        role_allows_permission role p
        && decide_by
            (if is_recognised p then last_effect p overrides else none)
            (holds_by_default role is_guest p))
unfolding has_permission get_effective_permissions role_allows_permission
has_permission_lem role p overrides is_guest = ground (
  arith,
  contains-delete_all (apply_overrides (starting_permissions role is_guest) overrides)
      (restricted role) p,
  contains-apply_overrides (starting_permissions role is_guest) overrides p,
  contains-starting_permissions role is_guest p,
)
