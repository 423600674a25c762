-- ===== src/Http/Urls/Scope.antt =====
-- frontend/src/lib/backend/directClient.ts: which workspace a request addresses.
use agent_workflow_fast_api.Base.{
  String, true, [], ◌∷◌, ◌≡◌, ◌≢◌, subst, arith, ==_of_ne, string_eq, get_or,
}
use agent_workflow_fast_api.Http.Urls.Params.{
  truthy, params_set, params_get_all, params_get_all-params_set,
}
use agent_workflow_fast_api.Http.Urls.Mapping.{
  Mode, Address, is_workspace_scoped, chosen_workspace, append_workspace_id, legacy_target,
  map_legacy_api_path, target_address,
}

append_pinned :
    (mode : Mode) (url : Address)
    → mode.is_single_workspace ≡ true
    → mode.workspace_id ≢ ""
    → is_workspace_scoped url.pathname ≡ true
    → append_workspace_id mode url
      ≡ record url { query = params_set "workspace_id" mode.workspace_id url.query }
unfolding append_workspace_id chosen_workspace
append_pinned mode url single named scoped =
    let full = ==_of_ne mode.workspace_id "" named in rw (scoped, single, full)

pub append-pathname :
    (mode : Mode) (url : Address) → (append_workspace_id mode url).pathname ≡ url.pathname
unfolding append_workspace_id
append-pathname mode url = ground arith

pub append_others :
    (mode : Mode) (url : Address) (j : String)
    → j ≢ "workspace_id"
    → params_get_all j (append_workspace_id mode url).query ≡ params_get_all j url.query
unfolding append_workspace_id
append_others mode url j n = ground (
  arith,
  params_get_all-params_set "workspace_id" (get_or (truthy (chosen_workspace mode url.query)) "") j
      url.query,
  ==_of_ne j "workspace_id" n,
)

append_scoped :
    (mode : Mode) (url : Address)
    → mode.is_single_workspace ≡ true
    → mode.workspace_id ≢ ""
    → is_workspace_scoped (append_workspace_id mode url).pathname ≡ true
    → params_get_all "workspace_id" (append_workspace_id mode url).query ≡ mode.workspace_id ∷ []
append_scoped mode url single named scoped =
    let here = subst (λ p. is_workspace_scoped p ≡ true) (append-pathname mode url) scoped in
    rw (append_pinned mode url single named here)
      (params_get_all-params_set "workspace_id" mode.workspace_id "workspace_id" url.query)

-- In single-workspace mode, with a configured workspace that is not the empty text, every request to
-- a path that is scoped to a workspace carries that workspace's id and no other, whatever the caller
-- supplied.
pub map_legacy_api_path_pinned :
    (encode : String → String) (mode : Mode) (source : Address) (method : String)
    → mode.is_single_workspace ≡ true
    → mode.workspace_id ≢ ""
    → is_workspace_scoped (map_legacy_api_path encode mode source method).pathname ≡ true
    → params_get_all "workspace_id" (map_legacy_api_path encode mode source method).query
      ≡ mode.workspace_id ∷ []
unfolding map_legacy_api_path
map_legacy_api_path_pinned encode mode source method =
    append_scoped mode (target_address mode source (legacy_target encode mode source method))
