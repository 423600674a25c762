-- ===== src/Workspace/Access/Writes.antt =====
-- frontend/src/lib/db/workspaceQueries.ts: the tables after `updateWorkspaceMemberAccess`.
use agent_workflow_fast_api.Base.{
  String, Bool, true, false, not, List, [], ◌∷◌, ◌++◌, map, Option, ◌≡◌, refl, ap, ◌∙◌, arith, ◌==◌,
  ==_iff, string_eq, if◌then◌else◌, filter, filter-append, Bool-cases, inl, inr, Result, ok, err,
  Result-cases, >>=-eq-ok, sym, ◌⊎◌, after,
}
use mathlib.Core.List.{append-nil, map-append}
use agent_workflow_fast_api.Database.Engine.{Engine}
use agent_workflow_fast_api.Permissions.Effective.{PermissionOverride}
use agent_workflow_fast_api.Workspace.Tables.{
  Db, WorkspaceMember, WorkspaceMemberPermission, WorkspaceError,
}
use agent_workflow_fast_api.Workspace.Roles.{role_name}
use agent_workflow_fast_api.Workspace.Membership.{
  to_override, get_permission_overrides, WorkspaceMemberView, list_workspace_members,
}
use agent_workflow_fast_api.Workspace.Access.Update.{
  AccessChange, authorize, overrides_for, set_role, to_row, insert_overrides, update_role,
  delete_overrides, audit_entry, log_change, write_access, change_access, transaction, commit,
  find_changed, update_workspace_member_access,
}
use agent_workflow_fast_api.Workspace.Access.Checks.{Authorized, authorize_sound}

-- The tables after an accepted change.
abbrev pub written : AccessChange → WorkspaceMember → Db → Db
written c target db = record db {
  members = map (set_role c.member_id (role_name c.role)) db.members;
  member_permissions =
      filter (λ row. not (row.member_id == c.member_id)) db.member_permissions
      ++ map (to_row c.member_id) (overrides_for c.role c.permissions);
  audit_log = db.audit_log ++ (audit_entry c target ∷ []);
}

write_access_sound :
    (c : AccessChange) (target : WorkspaceMember) (db db' : Db)
    → write_access c target db ≡ (ok tt, db')
    → db' ≡ written c target db
unfolding write_access update_role delete_overrides insert_overrides log_change
write_access_sound c target db db' h = ground arith

change_access_sound :
    (c : AccessChange) (db db' : Db) (user_id : String)
    → change_access c db ≡ (ok user_id, db')
    → (target : WorkspaceMember) × Authorized c db target
      × (db' ≡ written c target db)
      × (target.user_id ≡ user_id)
change_access_sound c db db' user_id h =
    let (target, mid, checked, rest) = >>=-eq-ok (authorize c) _ db h in
    let (done, last, wrote, end) = >>=-eq-ok (write_access c target) _ mid rest in
    let (same, allowed) = authorize_sound c db target mid checked in
    (
      target,
      allowed,
      sym (ap (λ r. r.1) end)
          ∙ (write_access_sound c target mid last wrote ∙ ap (written c target) same),
      ground arith,
    )

commit-eq-ok :
    {A : Type 0} (before : Db) (r : Result WorkspaceError A × Db) {a : A} {db' : Db}
    → commit before r ≡ (ok a, db')
    → r ≡ (ok a, db')
commit-eq-ok before (ok a, changed) h = h
commit-eq-ok before (err e, changed) h = cc

find_changed_keeps :
    (engine : Engine) (workspace_id user_id : String) (db : Db)
    → (find_changed engine workspace_id user_id db).1 ≡ db
unfolding find_changed
find_changed_keeps engine workspace_id user_id db =
    elim (Result-cases (list_workspace_members engine false workspace_id db)) [
      | inl (views, e) ↦ rw (e, find_changed) refl
      | inr (x, e) ↦ rw (e, find_changed) refl
    ]

-- An accepted change passed every check and left the tables as `written` says.
pub update_sound :
    (engine : Engine) (c : AccessChange) (db db' : Db) (view : Option WorkspaceMemberView)
    → update_workspace_member_access engine false c db ≡ (ok view, db')
    → (target : WorkspaceMember) × Authorized c db target × (db' ≡ written c target db)
unfolding update_workspace_member_access transaction find_changed
update_sound engine c db db' view h =
    let (user_id, mid, done, rest) = >>=-eq-ok (transaction (change_access c)) _ db h in
    let (target, allowed, wrote, user) =
      change_access_sound c db mid user_id (commit-eq-ok db (change_access c db) done) in
    (
      target,
      allowed,
      sym (ap (λ r. r.1) rest) ∙ (find_changed_keeps engine c.workspace_id user_id mid ∙ wrote),
    )

abbrev pub Outcome :
    AccessChange → Db → Result WorkspaceError (Option WorkspaceMemberView) × Db → Type 0
Outcome c db (r, db') =
    (db' ≡ db) ⊎ ((target : WorkspaceMember) × Authorized c db target × (db' ≡ written c target db))

after_change :
    (engine : Engine) (c : AccessChange) (db : Db) (r : Result WorkspaceError String × Db)
    → change_access c db ≡ r
    → Outcome c db (after (commit db r) (find_changed engine c.workspace_id))
after_change engine c db (err x, mid) e = inl refl
after_change engine c db (ok user_id, mid) e =
    let (target, allowed, wrote, user) = change_access_sound c db mid user_id e in
    inr (target, allowed, find_changed_keeps engine c.workspace_id user_id mid ∙ wrote)

-- However the call ends, the tables are as before or as an authorized change leaves them.
pub update-Outcome :
    (engine : Engine) (is_mock : Bool) (c : AccessChange) (db : Db)
    → Outcome c db (update_workspace_member_access engine is_mock c db)
unfolding update_workspace_member_access transaction
update-Outcome engine true c db = inl refl
update-Outcome engine false c db = after_change engine c db (change_access c db) refl

select_kept :
    (id j : String) (rows : List WorkspaceMemberPermission)
    → filter (λ row. row.member_id == j) (filter (λ row. not (row.member_id == id)) rows)
      ≡ (if j == id then [] else filter (λ row. row.member_id == j) rows)
select_kept id j [] = ground arith
select_kept id j (row ∷ rows) =
    ground
      (arith, select_kept id j rows, ==_iff row.member_id id, ==_iff row.member_id j, ==_iff j id)

select_new :
    (id j : String) (os : List PermissionOverride)
    → map to_override (filter (λ row. row.member_id == j) (map (to_row id) os))
      ≡ (if j == id then os else [])
select_new id j [] = ground arith
select_new id j (o ∷ os) = ground (arith, select_new id j os, ==_iff id j, ==_iff j id)

-- After the change the member's overrides are the computed ones, and those of the others are as before.
pub get_permission_overrides-written :
    (c : AccessChange) (target : WorkspaceMember) (db : Db) (j : String)
    → get_permission_overrides (written c target db) j ≡ (
        if j == c.member_id
        then overrides_for c.role c.permissions
        else get_permission_overrides db j)
unfolding get_permission_overrides
get_permission_overrides-written c target db j =
    rw
      (
        filter-append (λ row. row.member_id == j)
            (filter (λ row. not (row.member_id == c.member_id)) db.member_permissions)
            (map (to_row c.member_id) (overrides_for c.role c.permissions)),
        map-append,
        select_kept c.member_id j db.member_permissions,
        select_new c.member_id j (overrides_for c.role c.permissions),
      )
      (elim (Bool-cases (j == c.member_id)) [ inl e ↦ rw e refl | inr e ↦ rw e (append-nil _) ])
