-- ===== src/Workspace/Access/Laws/Owners.antt =====
-- frontend/src/lib/db/workspaceQueries.ts: a change of access and the owners of a workspace.
use agent_workflow_fast_api.Base.{
  ℕ, ◌+◌, ◌≤◌, String, Bool, true, false, ◌&&◌, ◌||◌, List, [], ◌∷◌, map, none, some, ◌≡◌, refl,
  ◌∙◌, arith, ◌==◌, ==_iff, string_eq, if◌then◌else◌, filter, find?, length, contains, Bool-cases,
  inl, inr, distinct, find?_holds, subst,
}
use agent_workflow_fast_api.Workspace.Tables.{Db, WorkspaceMember}
use agent_workflow_fast_api.Permissions.Catalog.{
  WorkspaceRole, owner, admin, editor, employee, viewer,
}
use agent_workflow_fast_api.Workspace.Roles.{role_name, name_of_assert_role}
use agent_workflow_fast_api.Workspace.Access.Update.{
  AccessChange, find_actor, find_target, is_owner, is_active_owner, owner_count, set_role,
}
use agent_workflow_fast_api.Workspace.Access.Checks.{Authorized}
use agent_workflow_fast_api.Workspace.Access.Writes.{written}

abbrev pub ids : List WorkspaceMember → List String
ids = map (λ m. m.id)

abbrev owners : String → List WorkspaceMember → ℕ
owners ws ms = length (filter (is_active_owner ws) ms)

set_role_absent :
    (id role : String) (ms : List WorkspaceMember)
    → contains (ids ms) id ≡ false
    → map (set_role id role) ms ≡ ms
set_role_absent id role [] h = refl
set_role_absent id role (m ∷ ms) h = ground (arith, set_role_absent id role ms)

-- `ground` reads the head of a filtered list through these.
one_less :
    (b c : Bool) (m n : WorkspaceMember) (ms : List WorkspaceMember)
    → length (if b then m ∷ ms else ms) ≤ length (if c then n ∷ ms else ms) + 1
one_less b c m n ms = ground arith

none_less :
    (c : Bool) (n : WorkspaceMember) (ms : List WorkspaceMember)
    → length ms ≤ length (if c then n ∷ ms else ms)
none_less c n ms = ground arith

id_absent :
    (id : String) (m : WorkspaceMember) (ms : List WorkspaceMember)
    → distinct (ids (m ∷ ms)) ≡ true
    → (m.id == id) ≡ true
    → contains (ids ms) id ≡ false
id_absent id m ms d e = ground (arith, ==_iff m.id id)

not_found_of_absent :
    (id here : String) (ms : List WorkspaceMember)
    → contains (ids ms) id ≡ false
    → find? (λ m. m.id == id && m.workspace_id == here) ms ≡ none
not_found_of_absent id here [] h = refl
not_found_of_absent id here (m ∷ ms) h = ground (arith, not_found_of_absent id here ms)

-- A change of one member's role takes one owner away at most.
owners-set_role :
    (ws id role : String) (ms : List WorkspaceMember)
    → distinct (ids ms) ≡ true
    → owners ws ms ≤ owners ws (map (set_role id role) ms) + 1
owners-set_role ws id role [] d = omega arith
owners-set_role ws id role (m ∷ ms) d = elim (Bool-cases (m.id == id)) [
  | inl e ↦
      rw (e, set_role_absent id role ms (id_absent id m ms d e))
        (one_less _ _ m _ (filter (is_active_owner ws) ms))
  | inr e ↦ rw e (ground (arith, owners-set_role ws id role ms))
]

owners-set_role_owner :
    (ws id : String) (ms : List WorkspaceMember)
    → owners ws ms ≤ owners ws (map (set_role id "owner") ms)
owners-set_role_owner ws id [] = omega arith
owners-set_role_owner ws id (m ∷ ms) = elim (Bool-cases (m.id == id)) [
  | inl e ↦ rw e (ground (arith, owners-set_role_owner ws id ms))
  | inr e ↦ rw e (ground (arith, owners-set_role_owner ws id ms))
]

-- None if the member was no active owner of the workspace.
owners-set_role_other :
    (ws id here role : String) (ms : List WorkspaceMember) (t : WorkspaceMember)
    → distinct (ids ms) ≡ true
    → find? (λ m. m.id == id && m.workspace_id == here) ms ≡ some t
    → is_active_owner ws t ≡ false
    → owners ws ms ≤ owners ws (map (set_role id role) ms)
owners-set_role_other ws id here role [] t d f n = cc
owners-set_role_other ws id here role (m ∷ ms) t d f n = elim (Bool-cases (m.id == id)) [
  | inl e ↦
      let gone = id_absent id m ms d e in
      let same : m ≡ t = ground (arith, not_found_of_absent id here ms gone) in
      rw (e, set_role_absent id role ms gone, same, n)
        (none_less _ _ (filter (is_active_owner ws) ms))
  | inr e ↦ rw e (ground (arith, owners-set_role_other ws id here role ms t))
]

pub is_owner_of_name :
    (r : WorkspaceRole) (s : String) → s ≡ role_name r → (s == "owner") ≡ true → is_owner r ≡ true
unfolding role_name
is_owner_of_name owner s e h = refl
is_owner_of_name admin s e h = rw e at h
is_owner_of_name editor s e h = rw e at h
is_owner_of_name employee s e h = rw e at h
is_owner_of_name viewer s e h = rw e at h

name_of_is_owner : (r : WorkspaceRole) → is_owner r ≡ true → role_name r ≡ "owner"
unfolding role_name
name_of_is_owner owner h = refl
name_of_is_owner _ h = cc

-- What only an owner may do, an owner did.
pub owner_acts :
    (c : AccessChange) (db : Db) (target : WorkspaceMember)
    → Authorized c db target
    → (target.role == "owner" || is_owner c.role) ≡ true
    → (actor : WorkspaceMember) × (find_actor db c ≡ some actor) × (actor.role ≡ "owner")
owner_acts c db target allowed owned =
    let named =
      is_owner_of_name allowed.target_role target.role
        (name_of_assert_role target.role allowed.target_role allowed.target_named) in
    let acts : is_owner allowed.actor_role ≡ true = ground arith in
    (
      allowed.actor,
      allowed.acting,
      name_of_assert_role allowed.actor.role allowed.actor_role allowed.actor_named
          ∙ name_of_is_owner allowed.actor_role acts,
    )

owners-promoted :
    (ws id : String) (r : WorkspaceRole) (ms : List WorkspaceMember)
    → is_owner r ≡ true
    → owners ws ms ≤ owners ws (map (set_role id (role_name r)) ms)
unfolding role_name
owners-promoted ws id owner ms h = owners-set_role_owner ws id ms
owners-promoted ws id _ ms h = cc

module _ {c : AccessChange} {db : Db} {target : WorkspaceMember} (allowed : Authorized c db target)
    (unique : distinct (ids db.members) ≡ true) (ws : String) where
  open allowed use {target_role, found, target_named, keeps_owner}

  kept_of_other :
      is_active_owner ws target ≡ false → owner_count db ws ≤ owner_count (written c target db) ws
  unfolding owner_count find_target
  kept_of_other n =
      owners-set_role_other ws c.member_id c.workspace_id (role_name c.role) db.members target
        unique found n

  kept_of_promoted :
      is_owner c.role ≡ true → owner_count db ws ≤ owner_count (written c target db) ws
  unfolding owner_count
  kept_of_promoted h = owners-promoted ws c.member_id c.role db.members h

  one_left : owner_count db ws ≤ owner_count (written c target db) ws + 1
  unfolding owner_count
  one_left = owners-set_role ws c.member_id (role_name c.role) db.members unique

  same_workspace : is_active_owner ws target ≡ true → c.workspace_id ≡ ws
  unfolding find_target
  same_workspace h = ground (
    arith,
    find?_holds (λ m. m.id == c.member_id && m.workspace_id == c.workspace_id) db.members target
        found,
    ==_iff target.workspace_id ws,
    ==_iff target.workspace_id c.workspace_id,
  )

  two_before :
      is_active_owner ws target ≡ true → is_owner c.role ≡ false → 2 ≤ owner_count db c.workspace_id
  two_before h n =
      let named =
        is_owner_of_name target_role target.role
          (name_of_assert_role target.role target_role target_named) (ground arith) in
      ground arith

  -- An accepted change leaves every workspace that had an active owner with one.
  pub owner_count-written : 1 ≤ owner_count db ws → 1 ≤ owner_count (written c target db) ws
  owner_count-written h = elim (Bool-cases (is_active_owner ws target)) [
    | inr e ↦ omega (arith, kept_of_other e)
    | inl e ↦ elim (Bool-cases (is_owner c.role)) [
      | inl p ↦ omega (arith, kept_of_promoted p)
      | inr n ↦
          let two : 2 ≤ owner_count db ws =
            subst (λ w. 2 ≤ owner_count db w) (same_workspace e) (two_before e n) in
          omega (arith, two, one_left)
    ]
  ]
