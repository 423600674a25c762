-- ===== src/Permissions/Order.antt =====
-- frontend/src/lib/permissions.ts: overrides are read from a table in no particular order. With one
-- row for each permission the order makes no difference.
use mathlib.Core.Logic.{∥∥₁_elim}
use mathlib.Core.List.{Perm, Permᴰ}
use agent_workflow_fast_api.Base.{
  String, Bool, true, false, List, [], ◌∷◌, map, none, ◌≡◌, refl, ◌∙◌, arith, contains, distinct,
  ==_iff, string_eq,
}
use agent_workflow_fast_api.Permissions.Catalog.{WorkspaceRole}
use agent_workflow_fast_api.Permissions.Effective.{PermissionOverride, has_permission}
use agent_workflow_fast_api.Permissions.Laws.{last_effect, has_permission_lem}

abbrev pub named : List PermissionOverride → List String
named = map (λ o. o.permission)

last_effect_absent :
    (p : String) (os : List PermissionOverride)
    → contains (named os) p ≡ false
    → last_effect p os ≡ none
last_effect_absent p [] h = refl
last_effect_absent p (o ∷ os) h = ground (arith, last_effect_absent p os)

contains-perm :
    {os rs : List PermissionOverride} (p : String)
    → Permᴰ os rs
    → contains (named os) p ≡ contains (named rs) p
contains-perm p Permᴰ.nil = refl
contains-perm p (Permᴰ.cons e h) = ground (arith, contains-perm p h)
contains-perm p (Permᴰ.swap e f) = ground arith
contains-perm p (Permᴰ.trans h k) = contains-perm p h ∙ contains-perm p k

distinct-perm :
    {os rs : List PermissionOverride}
    → Permᴰ os rs
    → distinct (named os) ≡ true
    → distinct (named rs) ≡ true
distinct-perm Permᴰ.nil d = d
distinct-perm (Permᴰ.cons {a} e h) d = ground (arith, contains-perm a.permission h, distinct-perm h)
distinct-perm (Permᴰ.swap {a} {b} e f) d =
    ground (arith, ==_iff a.permission b.permission, ==_iff b.permission a.permission)
distinct-perm (Permᴰ.trans h k) d = distinct-perm k (distinct-perm h d)

last_effect-perm :
    {os rs : List PermissionOverride} (p : String)
    → Permᴰ os rs
    → distinct (named os) ≡ true
    → last_effect p os ≡ last_effect p rs
last_effect-perm p Permᴰ.nil d = refl
last_effect-perm p (Permᴰ.cons e h) d = ground (arith, last_effect-perm p h)
last_effect-perm p (Permᴰ.swap {a} {b} {l} e f) d = ground (
  arith,
  ==_iff a.permission p,
  ==_iff b.permission p,
  ==_iff b.permission a.permission,
  last_effect_absent p l,
)
last_effect-perm p (Permᴰ.trans h k) d =
    last_effect-perm p h d ∙ last_effect-perm p k (distinct-perm h d)

-- A member with one row for each permission has the same permissions in whatever order the
-- database returns the rows.
has_permission-perm :
    (role : WorkspaceRole) (p : String) (is_guest : Bool) (os rs : List PermissionOverride)
    → Perm os rs
    → distinct (named os) ≡ true
    → has_permission role p os is_guest ≡ has_permission role p rs is_guest
has_permission-perm role p is_guest os rs h d = ∥∥₁_elim h (Bool-set _ _) λ perm. ground (
  arith,
  has_permission_lem role p os is_guest,
  has_permission_lem role p rs is_guest,
  last_effect-perm p perm d,
)
  where
    Bool-set : IsSet Bool
    Bool-set = hlevel
