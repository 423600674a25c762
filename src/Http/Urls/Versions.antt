-- ===== src/Http/Urls/Versions.antt =====
-- frontend/src/lib/backend/directClient.ts: where `mapLegacyApiPath` leads, and what it keeps of a query.
use agent_workflow_fast_api.Base.{String, Option, none, some, ◌≡◌, ◌≢◌, ◌∙◌, ap, string_eq}
use agent_workflow_fast_api.Http.Urls.Params.{Params, params_get_all}
use agent_workflow_fast_api.Http.Urls.Mapping.{
  Mode, Address, legacy_target, map_legacy_api_path, target_address, path_without_base_path,
}
use agent_workflow_fast_api.Http.Urls.Routes.{Route}
use agent_workflow_fast_api.Http.Urls.Sound.{Routed, legacy-Routed}
use agent_workflow_fast_api.Http.Urls.Complete.{legacy-Route}
use agent_workflow_fast_api.Http.Urls.Scope.{append-pathname, append_others}

-- The address has a path, and a query but for the name of the workspace.
pub record Leads (mode : Mode) (path : String) (query : Params) (a : Address) : Type 0 where
  pub pathname : a.pathname ≡ mode.url_pathname path
  pub kept : (j : String) → j ≢ "workspace_id" → params_get_all j a.query ≡ params_get_all j query

module _ (encode : String → String) (mode : Mode) (source : Address) (method : String) where
  to_target :
      (target : String) (r : Params)
      → legacy_target encode mode source method ≡ (some target, r)
      → Leads mode target r (map_legacy_api_path encode mode source method)
  unfolding map_legacy_api_path
  to_target target r e =
      let a = target_address mode source (legacy_target encode mode source method) in
      let same = ap (target_address mode source) e in
      record {
        pathname = append-pathname mode a ∙ ap (λ b. b.pathname) same;
        kept = λ j n. append_others mode a j n ∙ ap (λ b. params_get_all j b.query) same;
      }

  to_source :
      legacy_target encode mode source method ≡ (none, source.query)
      → Leads mode source.pathname source.query (map_legacy_api_path encode mode source method)
  unfolding map_legacy_api_path
  to_source e =
      let a = target_address mode source (legacy_target encode mode source method) in
      let same = ap (target_address mode source) e in
      record {
        pathname = append-pathname mode a ∙ ap (λ b. b.pathname) same;
        kept = λ j n. append_others mode a j n ∙ ap (λ b. params_get_all j b.query) same;
      }

  unrouted :
      (t : Option String × Params)
      → Routed encode method source.query (path_without_base_path mode source.pathname) t
      → ((target : String) (r : Params)
          → ¬ Route encode method
              (path_without_base_path mode source.pathname)
              source.query
              target
              r)
      → t ≡ (none, source.query)
  unrouted (none, r) routed none_of = ap (λ x. (none, x)) routed
  unrouted (some target, r) routed none_of = absurd (none_of target r routed)

-- A request whose path, without the base path, is on one of the routes of the old API leads to the new
-- path of the route, with the query that the route leaves; a request on none of them leads to its own
-- path with its own query. The path is as `new URL` reads it, and of the query all names are meant but
-- the workspace's.
pub map_legacy_api_path_lem :
    (encode : String → String) (mode : Mode) (source : Address) (method : String)
    → ((target : String) (r : Params)
        → Route encode method (path_without_base_path mode source.pathname) source.query target r
        → Leads mode target r (map_legacy_api_path encode mode source method))
      × (((target : String) (r : Params)
            → ¬ Route encode method
                (path_without_base_path mode source.pathname)
                source.query
                target
                r)
          → Leads mode source.pathname source.query (map_legacy_api_path encode mode source method))
unfolding legacy_target
map_legacy_api_path_lem encode mode source method =
    let path = path_without_base_path mode source.pathname in
    (
      λ target r route.
          to_target encode mode source method target r
            (legacy-Route encode method source.query path target r route),
      λ none_of. to_source encode mode source method (
          unrouted encode mode source method _ (legacy-Routed encode method source.query path)
            none_of),
    )
