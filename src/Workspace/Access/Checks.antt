-- ===== src/Workspace/Access/Checks.antt =====
-- frontend/src/lib/db/workspaceQueries.ts: what the checks of `updateWorkspaceMemberAccess` ensure.
use agent_workflow_fast_api.Base.{
  false, not, ◌&&◌, ◌||◌, some, ◌≡◌, ap, ◌∙◌, arith, ◌==◌, string_eq, contains, set_of, leb, inl,
  inr, Option-cases, ok, Result-cases,
}
use agent_workflow_fast_api.Permissions.Catalog.{WorkspaceRole}
use agent_workflow_fast_api.Workspace.Tables.{Db, WorkspaceMember}
use agent_workflow_fast_api.Workspace.Roles.{assert_role}
use agent_workflow_fast_api.Workspace.Access.Update.{
  AccessChange, find_actor, find_target, is_owner, is_manager, owner_count, check_change, authorize,
}

-- The facts that hold once every check has passed.
pub record Authorized (c : AccessChange) (db : Db) (target : WorkspaceMember) : Type 0 where
  pub actor : WorkspaceMember
  pub actor_role : WorkspaceRole
  pub target_role : WorkspaceRole
  pub acting : find_actor db c ≡ some actor
  pub found : find_target db c ≡ some target
  pub actor_named : assert_role actor.role ≡ ok actor_role
  pub target_named : assert_role target.role ≡ ok target_role
  pub edits : (is_owner target_role && not (is_owner actor_role)) ≡ false
  pub grants : (is_owner c.role && not (is_owner actor_role)) ≡ false
  pub keeps_access :
      (target.user_id == c.actor_user_id
        && (not (contains (set_of c.permissions) "members.manage") || not (is_manager c.role)))
      ≡ false
  pub keeps_owner :
      (is_owner target_role && (not (is_owner c.role) && leb (owner_count db c.workspace_id) 1))
      ≡ false

check_change_sound :
    (c : AccessChange) (t : WorkspaceMember) (actor_role target_role : WorkspaceRole) (db : Db)
    (target : WorkspaceMember) (db' : Db)
    → check_change c t actor_role target_role db ≡ (ok target, db')
    → (db' ≡ db)
      × (t ≡ target)
      × ((is_owner target_role && not (is_owner actor_role)) ≡ false)
      × ((is_owner c.role && not (is_owner actor_role)) ≡ false)
      × ((t.user_id == c.actor_user_id
            && (not (contains (set_of c.permissions) "members.manage") || not (is_manager c.role)))
          ≡ false)
      × ((is_owner target_role && (not (is_owner c.role) && leb (owner_count db c.workspace_id) 1))
          ≡ false)
unfolding check_change
check_change_sound c t actor_role target_role db target db' h = ground arith

pub authorize_sound :
    (c : AccessChange) (db : Db) (target : WorkspaceMember) (db' : Db)
    → authorize c db ≡ (ok target, db')
    → (db' ≡ db) × Authorized c db target
unfolding authorize
authorize_sound c db target db' h = elim (Option-cases (find_actor db c)) [
  | inl e ↦ absurd (ground arith)
  | inr (a, e) ↦ elim (Option-cases (find_target db c)) [
    | inl f ↦ absurd (ground arith)
    | inr (t, f) ↦ elim (Result-cases (assert_role a.role)) [
      | inr (x, g) ↦ absurd (ground arith)
      | inl (ar, g) ↦ elim (Result-cases (assert_role t.role)) [
        | inr (x, k) ↦ absurd (ground arith)
        | inl (r, k) ↦
            let (same, this, edits, grants, access, kept) =
              check_change_sound c t ar r db target db' (ground arith) in
            (
              same,
              record {
                actor = a;
                actor_role = ar;
                target_role = r;
                acting = e;
                found = f ∙ ap some this;
                actor_named = g;
                target_named = rw (← this) k;
                edits = edits;
                grants = grants;
                keeps_access = rw (← this) access;
                keeps_owner = kept;
              },
            )
      ]
    ]
  ]
]
