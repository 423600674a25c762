-- ===== src/Examples/Members.antt =====
-- A workspace with two owners and an editor, and changes of access in it.
use agent_workflow_fast_api.Base.{
  ℕ, ◌≤◌, String, true, false, ◌&&◌, List, [], ◌∷◌, none, some, ◌≡◌, refl, arith, string_eq,
  if◌then◌else◌, ne_of_==, set_of, set_add, set_delete,
}
use agent_workflow_fast_api.Database.Sorting.{sorting}
use agent_workflow_fast_api.Permissions.Catalog.{
  admin, viewer, role_allows_permission, default_permissions_by_role,
  restricted_permissions_by_role,
}
use agent_workflow_fast_api.Permissions.Effective.{
  PermissionOverride, grant, deny, has_permission, is_recognised, get_effective_permissions,
  get_default_permissions, apply_overrides, apply_override, apply_effect, delete_all,
  starting_permissions,
}
use agent_workflow_fast_api.Permissions.Laws.{has_permission_lem, decide_by, holds_by_default}
use agent_workflow_fast_api.Workspace.Tables.{Db, WorkspaceMember, active}
use agent_workflow_fast_api.Workspace.Roles.{assert_role}
use agent_workflow_fast_api.Workspace.Membership.{
  get_permission_overrides, join_user, join_member, join_members, member_view, member_views,
  select_overrides, joined_members, list_workspace_members,
}
use agent_workflow_fast_api.Workspace.Access.Update.{
  AccessChange, find_actor, find_target, is_manager, owner_count, check_change, authorize,
  custom_permissions, denied_permissions, overrides_for, update_role, delete_overrides,
  insert_overrides, log_change, write_access, transaction, find_changed,
  update_workspace_member_access,
}
use agent_workflow_fast_api.Workspace.Access.Writes.{written}
use agent_workflow_fast_api.Workspace.Access.Laws.{
  owner_count-update, has_permission-update, update_by_owner, update_own_access, update_others,
}

abbrev member : String → String → String → ℕ → WorkspaceMember
member id user role at = record {
  id = id;
  created_at = at;
  role = role;
  status = active;
  user_id = user;
  workspace_id = "w";
}

abbrev pub team : Db
team = record {
  users =
      record { id = "ann"; email = "a@x"; name = none }
      ∷ record { id = "bob"; email = "b@x"; name = some "Bob" }
      ∷ record { id = "eve"; email = "e@x"; name = none }
      ∷ [];
  workspaces = record { id = "w"; name = "Work" } ∷ [];
  members =
      member "m1" "ann" "owner" 1 ∷ member "m2" "bob" "owner" 2 ∷ member "m3" "eve" "editor" 3 ∷ [];
  member_permissions =
      record { effect = deny; member_id = "m3"; permission = "chat.delete" }
      ∷ record { effect = grant; member_id = "m2"; permission = "audit.read" }
      ∷ [];
  audit_log = [];
}

-- Ann, an owner, makes Bob, the other owner, a viewer who may also read the audit log.
abbrev demote_bob : AccessChange
demote_bob = record {
  actor_user_id = "ann";
  member_id = "m2";
  permissions = "chat.read" ∷ "audit.read" ∷ [];
  role = viewer;
  workspace_id = "w";
}

abbrev keep_ann : AccessChange
keep_ann = record {
  actor_user_id = "ann";
  member_id = "m1";
  permissions = "members.manage" ∷ "chat.read" ∷ [];
  role = admin;
  workspace_id = "w";
}

-- Opens what a run of a change computes with.
runs : Unit {0}
unfolding set_of set_add set_delete sorting update_workspace_member_access transaction authorize
    check_change find_actor find_target owner_count assert_role write_access update_role
    delete_overrides insert_overrides log_change overrides_for custom_permissions denied_permissions
    default_permissions_by_role restricted_permissions_by_role find_changed list_workspace_members
    joined_members join_members join_member join_user member_views member_view select_overrides
    get_effective_permissions get_default_permissions apply_overrides apply_override apply_effect
    delete_all starting_permissions is_recognised
runs = tt

has_permission_lem_example :
    has_permission viewer "audit.read"
      (record { effect = grant; permission = "audit.read" } ∷ [])
      false
    ≡ (role_allows_permission viewer "audit.read"
        && decide_by
            (if is_recognised "audit.read" then some grant else none)
            (holds_by_default viewer false "audit.read"))
has_permission_lem_example =
    has_permission_lem viewer "audit.read"
      (record { effect = grant; permission = "audit.read" } ∷ []) false

abbrev two_overrides : List PermissionOverride
two_overrides =
    record { effect = grant; permission = "audit.read" }
    ∷ record { effect = deny; permission = "chat.read" }
    ∷ []

abbrev swapped : List PermissionOverride
swapped =
    record { effect = deny; permission = "chat.read" }
    ∷ record { effect = grant; permission = "audit.read" }
    ∷ []

owner_count-update_example :
    1 ≤ owner_count (update_workspace_member_access sorting false demote_bob team).1 "w"
unfolding owner_count
owner_count-update_example = owner_count-update sorting false demote_bob team "w" refl (omega arith)

abbrev demoted : Db
demoted = written demote_bob (member "m2" "bob" "owner" 2) team

has_permission-update_example :
    has_permission viewer "audit.read" (get_permission_overrides demoted "m2") false
    ≡ (role_allows_permission viewer "audit.read" && (is_recognised "audit.read" && true))
unfolding runs
has_permission-update_example =
    has_permission-update sorting demote_bob team demoted _ "audit.read" refl

update_by_owner_example :
    (actor : WorkspaceMember) × (find_actor team demote_bob ≡ some actor) × (actor.role ≡ "owner")
unfolding runs
update_by_owner_example =
    update_by_owner sorting demote_bob team demoted _ (member "m2" "bob" "owner" 2) refl refl refl

update_own_access_example :
    (is_manager admin ≡ true)
    × (has_permission admin "members.manage"
          (get_permission_overrides (written keep_ann (member "m1" "ann" "owner" 1) team) "m1")
          false
        ≡ true)
unfolding runs
update_own_access_example =
    update_own_access sorting keep_ann team _ _ (member "m1" "ann" "owner" 1) refl refl refl

update_others_example :
    get_permission_overrides (update_workspace_member_access sorting false demote_bob team).1 "m3"
    ≡ get_permission_overrides team "m3"
update_others_example =
    (update_others sorting false demote_bob team "m3" (ne_of_== "m3" "m2" refl)).0
