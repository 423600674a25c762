-- ===== src/Http/Urls/Params.antt =====
-- The query of an address (`URLSearchParams`) as a list of names and values: `get`, `set` and `delete`
-- as frontend/src/lib/backend/directClient.ts uses them.
use agent_workflow_fast_api.Base.{
  String, List, [], ◌∷◌, Option, none, some, ◌≡◌, arith, ◌==◌, ==_iff, string_eq, if◌then◌else◌,
}

abbrev pub Params : Type 0
Params = List (String × String)

-- `if (value)`: an empty text counts as absent.
abbrev pub truthy : Option String → Option String
truthy none = none
truthy (some s) = if s == "" then none else some s

unfoldable pub params_get : String → Params → Option String
params_get key [] = none
params_get key ((k, v) ∷ rest) = if k == key then some v else params_get key rest

unfoldable pub params_delete : String → Params → Params
params_delete key [] = []
params_delete key ((k, v) ∷ rest) =
    if k == key then params_delete key rest else (k, v) ∷ params_delete key rest

-- The first pair of the name gets the value and the others go, or a pair is added at the end.
unfoldable pub params_set : String → String → Params → Params
unfolding params_delete
params_set key value [] = (key, value) ∷ []
params_set key value ((k, v) ∷ rest) =
    if k == key then (key, value) ∷ params_delete key rest else (k, v) ∷ params_set key value rest

-- All the values of a name.
abbrev pub params_get_all : String → Params → List String
params_get_all key [] = []
params_get_all key ((k, v) ∷ rest) =
    if k == key then v ∷ params_get_all key rest else params_get_all key rest

pub params_get_all-params_delete :
    (key j : String) (q : Params)
    → params_get_all j (params_delete key q) ≡ (if j == key then [] else params_get_all j q)
unfolding params_delete
params_get_all-params_delete key j [] = ground arith
params_get_all-params_delete key j ((k, v) ∷ q) =
    ground (arith, params_get_all-params_delete key j q, ==_iff k key, ==_iff k j, ==_iff j key)

-- After `set` the name has the one value, and the other names have theirs.
pub params_get_all-params_set :
    (key value j : String) (q : Params)
    → params_get_all j (params_set key value q)
      ≡ (if j == key then value ∷ [] else params_get_all j q)
unfolding params_set
params_get_all-params_set key value j [] = ground (arith, ==_iff key j, ==_iff j key)
params_get_all-params_set key value j ((k, v) ∷ q) = ground (
  arith,
  params_get_all-params_set key value j q,
  params_get_all-params_delete key j q,
  ==_iff k key,
  ==_iff k j,
  ==_iff j key,
  ==_iff key j,
)
