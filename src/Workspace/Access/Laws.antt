-- ===== src/Workspace/Access/Laws.antt =====
-- frontend/src/lib/db/workspaceQueries.ts: what `updateWorkspaceMemberAccess` guarantees.
pub mod Owners
use agent_workflow_fast_api.Base.{
  ℕ, ◌≤◌, String, Bool, true, false, not, ◌&&◌, ◌||◌, List, [], ◌∷◌, map, Option, none, some, ◌≡◌,
  ◌≢◌, refl, ap, ◌∙◌, subst, sym, arith, ◌==◌, ==_iff, ==_of_ne, ==-refl, string_eq, ◌⊎◌, inl, inr,
  if◌then◌else◌, filter, contains, contains-set_of, Bool-cases, Result, ok, err, distinct,
}
use agent_workflow_fast_api.Database.Engine.{Engine}
use agent_workflow_fast_api.Permissions.Catalog.{
  role_allows_permission, restricted_permissions_by_role, WorkspaceRole, owner, admin, editor,
  employee, viewer,
}
use agent_workflow_fast_api.Permissions.Effective.{is_recognised, has_permission}
use agent_workflow_fast_api.Workspace.Tables.{Db, WorkspaceMember, WorkspaceError}
use agent_workflow_fast_api.Workspace.Roles.{role_name, name_of_assert_role}
use agent_workflow_fast_api.Workspace.Membership.{
  get_permission_overrides, WorkspaceMemberView, list_workspace_members,
}
use agent_workflow_fast_api.Workspace.Access.Update.{
  AccessChange, find_actor, find_target, is_owner, is_manager, owner_count, overrides_for, set_role,
  update_workspace_member_access,
}
use agent_workflow_fast_api.Workspace.Access.Overrides.{has_permission-overrides_for}
use agent_workflow_fast_api.Workspace.Access.Checks.{Authorized}
use agent_workflow_fast_api.Workspace.Access.Writes.{
  written, update_sound, update-Outcome, get_permission_overrides-written,
}
use Owners.{ids, owner_acts, owner_count-written}

-- If member ids are unique, then however a call of `updateWorkspaceMemberAccess` ends, a workspace
-- that had an active owner still has one.
pub owner_count-update :
    (engine : Engine) (is_mock : Bool) (c : AccessChange) (db : Db) (ws : String)
    → distinct (ids db.members) ≡ true
    → 1 ≤ owner_count db ws
    → 1 ≤ owner_count (update_workspace_member_access engine is_mock c db).1 ws
owner_count-update engine is_mock c db ws unique h = elim (update-Outcome engine is_mock c db) [
  | inl same ↦ rw same h
  | inr (target, allowed, wrote) ↦ rw wrote (owner_count-written allowed unique ws h)
]

-- After a successful change the stored overrides give the member, under the new role, exactly the
-- requested permissions that the system knows and that the role is not barred from.
pub has_permission-update :
    (engine : Engine) (c : AccessChange) (db db' : Db) (view : Option WorkspaceMemberView)
    (p : String)
    → update_workspace_member_access engine false c db ≡ (ok view, db')
    → has_permission c.role p (get_permission_overrides db' c.member_id) false
      ≡ (role_allows_permission c.role p && (is_recognised p && contains c.permissions p))
has_permission-update engine c db db' view p h =
    let (target, allowed, wrote) = update_sound engine c db db' view h in
    let stored = get_permission_overrides-written c target db c.member_id in
    rw (wrote, stored, ==-refl c.member_id) (has_permission-overrides_for c.role c.permissions p)

-- A successful change that makes a member an owner, or changes a member who is one, was made by an
-- active member of the workspace whose own role is owner.
pub update_by_owner :
    (engine : Engine) (c : AccessChange) (db db' : Db) (view : Option WorkspaceMemberView)
    (target : WorkspaceMember)
    → update_workspace_member_access engine false c db ≡ (ok view, db')
    → find_target db c ≡ some target
    → (target.role == "owner" || is_owner c.role) ≡ true
    → (actor : WorkspaceMember) × (find_actor db c ≡ some actor) × (actor.role ≡ "owner")
update_by_owner engine c db db' view target h found owned =
    let (t, allowed, wrote) = update_sound engine c db db' view h in
    let same : t ≡ target = cc (found, allowed.found) in
    owner_acts c db target (subst (Authorized c db) same allowed) owned

own_access_kept :
    (c : AccessChange) (db : Db) (target : WorkspaceMember)
    → Authorized c db target
    → target.user_id ≡ c.actor_user_id
    → (is_manager c.role ≡ true) × (contains c.permissions "members.manage" ≡ true)
own_access_kept c db target allowed own =
    let access = allowed.keeps_access in
    ground
      (arith, ==_iff target.user_id c.actor_user_id, contains-set_of c.permissions "members.manage")

members_manage_allowed :
    (role : WorkspaceRole) (listed : Bool)
    → is_manager role ≡ true
    → listed ≡ true
    → (role_allows_permission role "members.manage" && (is_recognised "members.manage" && listed))
      ≡ true
unfolding role_allows_permission restricted_permissions_by_role is_recognised
members_manage_allowed owner listed m h = h
members_manage_allowed admin listed m h = h
members_manage_allowed _ listed m h = cc

-- A member who successfully changes the own access keeps it: the new role is owner or admin, and the
-- stored overrides grant `members.manage`.
pub update_own_access :
    (engine : Engine) (c : AccessChange) (db db' : Db) (view : Option WorkspaceMemberView)
    (target : WorkspaceMember)
    → update_workspace_member_access engine false c db ≡ (ok view, db')
    → find_target db c ≡ some target
    → target.user_id ≡ c.actor_user_id
    → (is_manager c.role ≡ true)
      × (has_permission c.role "members.manage" (get_permission_overrides db' c.member_id) false
          ≡ true)
update_own_access engine c db db' view target h found own =
    let (t, allowed, wrote) = update_sound engine c db db' view h in
    let same : t ≡ target = cc (found, allowed.found) in
    let (manages, holds) = own_access_kept c db target (subst (Authorized c db) same allowed) own in
    (
      manages,
      has_permission-update engine c db db' view "members.manage" h
          ∙ members_manage_allowed c.role (contains c.permissions "members.manage") manages holds,
    )

filter-set_role :
    (id role j : String) (ms : List WorkspaceMember)
    → j ≢ id
    → filter (λ m. m.id == j) (map (set_role id role) ms) ≡ filter (λ m. m.id == j) ms
filter-set_role id role j [] n = refl
filter-set_role id role j (m ∷ ms) n =
    ground (arith, filter-set_role id role j ms n, ==_iff m.id id, ==_iff m.id j)

-- However the call ends, the rows and overrides of every other member id, the users and the
-- workspaces are as before.
pub update_others :
    (engine : Engine) (is_mock : Bool) (c : AccessChange) (db : Db) (j : String)
    → j ≢ c.member_id
    → let db' = (update_workspace_member_access engine is_mock c db).1 in
      (get_permission_overrides db' j ≡ get_permission_overrides db j)
      × (filter (λ m. m.id == j) db'.members ≡ filter (λ m. m.id == j) db.members)
      × (db'.users ≡ db.users)
      × (db'.workspaces ≡ db.workspaces)
update_others engine is_mock c db j n = elim (update-Outcome engine is_mock c db) [
  | inl same ↦ rw same (refl, refl, refl, refl)
  | inr (target, allowed, wrote) ↦ rw wrote (
    rw (get_permission_overrides-written c target db j, ==_of_ne j c.member_id n) refl,
    filter-set_role c.member_id (role_name c.role) j db.members n,
    refl,
    refl,
  )
]
