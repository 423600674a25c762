-- ===== src/Workspace/Access/Overrides.antt =====
-- frontend/src/lib/db/workspaceQueries.ts: the overrides that `updateWorkspaceMemberAccess` computes
-- from a role and the wanted permissions.
use agent_workflow_fast_api.Base.{
  String, Bool, true, false, not, ◌&&◌, List, [], ◌∷◌, ◌++◌, map, none, some, ◌≡◌, refl, arith,
  ==_iff, string_eq, if◌then◌else◌, filter, all, contains, contains-set_of, contains-filter, set_of,
}
use agent_workflow_fast_api.Permissions.Catalog.{
  WorkspaceRole, owner, admin, editor, employee, viewer, default_permissions_by_role,
  role_allows_permission,
}
use agent_workflow_fast_api.Permissions.Effective.{
  PermissionOverride, Effect, grant, deny, is_recognised, has_permission,
}
use agent_workflow_fast_api.Permissions.Laws.{last_effect, has_permission_lem}
use agent_workflow_fast_api.Workspace.Access.Update.{
  custom_permissions, denied_permissions, overrides_for,
}

all_sound :
    (f : String → Bool) (l : List String) (p : String)
    → all f l ≡ true
    → contains l p ≡ true
    → f p ≡ true
all_sound f [] p h k = cc
all_sound f (x ∷ l) p h k = ground (arith, all_sound f l p, ==_iff x p)

all_recognised :
    (role : WorkspaceRole) → all is_recognised (default_permissions_by_role role) ≡ true
unfolding is_recognised default_permissions_by_role
all_recognised owner = refl
all_recognised admin = refl
all_recognised editor = refl
all_recognised employee = refl
all_recognised viewer = refl

-- Every default permission is one that overrides may name.
pub is_recognised_of_default :
    (role : WorkspaceRole) (p : String)
    → contains (default_permissions_by_role role) p ≡ true
    → is_recognised p ≡ true
is_recognised_of_default role p = all_sound is_recognised _ p (all_recognised role)

abbrev with_effect : Effect → String → PermissionOverride
with_effect e p = record { effect = e; permission = p }

last_effect-map :
    (e : Effect) (ps : List String) (p : String)
    → last_effect p (map (with_effect e) ps) ≡ (if contains ps p then some e else none)
last_effect-map e [] p = refl
last_effect-map e (q ∷ ps) p = ground (arith, last_effect-map e ps p)

last_effect-append :
    (p : String) (os rs : List PermissionOverride)
    → last_effect p (os ++ rs)
      ≡ elim (last_effect p rs) [ some e ↦ some e | none ↦ last_effect p os ]
last_effect-append p [] rs = ground arith
last_effect-append p (o ∷ os) rs = ground (arith, last_effect-append p os rs)

last_effect-overrides_for :
    (role : WorkspaceRole) (ps : List String) (p : String)
    → last_effect p (overrides_for role ps) ≡ (
        if contains ps p
        then if contains (default_permissions_by_role role) p then none else some grant
        else if contains (default_permissions_by_role role) p
        then some deny
        else none)
unfolding overrides_for custom_permissions denied_permissions
last_effect-overrides_for role ps p = ground (
  arith,
  last_effect-append p (custom_permissions role ps) (denied_permissions role ps),
  last_effect-map grant
      (filter (λ q. not (contains (set_of (default_permissions_by_role role)) q)) ps) p,
  last_effect-map deny
      (filter (λ q. not (contains ps q)) (set_of (default_permissions_by_role role))) p,
  contains-filter (λ q. not (contains (set_of (default_permissions_by_role role)) q)) ps p,
  contains-filter (λ q. not (contains ps q)) (set_of (default_permissions_by_role role)) p,
  contains-set_of (default_permissions_by_role role) p,
)

-- Under the overrides computed for a role and a list of permissions, a member holds exactly the
-- listed permissions that the system knows and that the role is not barred from.
pub has_permission-overrides_for :
    (role : WorkspaceRole) (ps : List String) (p : String)
    → has_permission role p (overrides_for role ps) false
      ≡ (role_allows_permission role p && (is_recognised p && contains ps p))
has_permission-overrides_for role ps p = ground (
  arith,
  has_permission_lem role p (overrides_for role ps) false,
  last_effect-overrides_for role ps p,
  is_recognised_of_default role p,
)
