-- ===== src/Settings/Editing.antt =====
-- frontend/src/components/settings/memberPermissions.tsx: editing the access of a member, and what saving
-- shows.
use agent_workflow_fast_api.Base.{
  String, Bool, true, false, not, List, [], ◌∷◌, some, ◌≡◌, refl, ap, ◌∙◌, arith, ◌==◌, string_eq,
  ==_iff, ==-refl, if◌then◌else◌, find?, contains, contains-filter, contains-append, ok, Bool-cases,
  inl, inr,
}
use agent_workflow_fast_api.Permissions.Catalog.{WorkspaceRole, role_allows_permission}
use agent_workflow_fast_api.Settings.Members.{
  Member, MembersPage, have_same_permissions, get_default_permissions_for_role, selected_member,
  is_custom_role, change_role, toggled, toggle_permission, replace_member, save, on_selected_member,
  saved,
}
use agent_workflow_fast_api.Settings.Same.{have_same_permissions_iff}

-- A permission that is toggled is there just if it was not, and the others are as they were.
contains-toggled :
    (permission : String) (current : List String) (k : String)
    → contains (toggled permission current) k
      ≡ (if permission == k then not (contains current k) else contains current k)
contains-toggled permission current k = elim (Bool-cases (contains current permission)) [
  | inl e ↦ rw e (
      ground (
        arith,
        contains-filter (λ item. not (item == permission)) current k,
        ==_iff permission k,
        ==_iff k permission,
      ))
  | inr e ↦ rw e (ground (arith, contains-append current (permission ∷ []) k, ==_iff permission k))
]

module _ (s : MembersPage) (member : Member) (defaults : WorkspaceRole → List String)
    (role : WorkspaceRole) (permission : String) (selected : selected_member s ≡ some member)
    (manages : s.can_manage_members ≡ true) (catalog : s.defaults ≡ some defaults)
    (allowed : role_allows_permission role permission ≡ true) where
  -- The page while the permissions are edited.
  edited : List String → MembersPage
  edited permissions = record s { role = role; permissions = permissions; is_dirty = true }

  is_custom_role-edited :
      (permissions : List String)
      → is_custom_role (edited permissions)
        ≡ not (have_same_permissions permissions (defaults role))
  unfolding is_custom_role edited selected_member get_default_permissions_for_role
  is_custom_role-edited permissions = rw (selected, catalog) refl

  change_role-edited : change_role role s ≡ edited (defaults role)
  unfolding change_role edited get_default_permissions_for_role
  change_role-edited = rw (manages, catalog) refl

  toggle_permission-edited :
      (permissions : List String)
      → toggle_permission permission (edited permissions) ≡ edited (toggled permission permissions)
  unfolding toggle_permission edited
  toggle_permission-edited permissions = rw (manages, catalog, allowed) refl

flip_back :
    (b c : Bool) → (if b then not (if b then not c else c) else (if b then not c else c)) ≡ c
flip_back true true = refl
flip_back true false = refl
flip_back false c = refl

toggled-differs :
    (permission : String) (current : List String)
    → have_same_permissions (toggled permission current) current ≡ false
toggled-differs permission current =
    elim (Bool-cases (have_same_permissions (toggled permission current) current)) [
      | inl e ↦
          let same =
            (have_same_permissions_iff (toggled permission current) current).0 e permission in
          let flipped = contains-toggled permission current permission in
          absurd (ground (arith, ==-refl permission))
      | inr e ↦ e
    ]

toggled-twice :
    (permission : String) (current : List String)
    → have_same_permissions (toggled permission (toggled permission current)) current ≡ true
toggled-twice permission current =
    (have_same_permissions_iff (toggled permission (toggled permission current)) current).1 λ k.
      contains-toggled permission (toggled permission current) k
      ∙ rw (contains-toggled permission current k)
          (flip_back (permission == k) (contains current k))

-- If a member is selected, members may be managed, the catalogue is loaded and the new role allows the
-- permission, then a member whose role has just been changed has no custom role, has one after the
-- permission is toggled, and has none after it is toggled again.
pub editing_marks_custom_role :
    (s : MembersPage) (member : Member) (defaults : WorkspaceRole → List String)
    (role : WorkspaceRole) (permission : String)
    → selected_member s ≡ some member
    → s.can_manage_members ≡ true
    → s.defaults ≡ some defaults
    → role_allows_permission role permission ≡ true
    → (is_custom_role (change_role role s) ≡ false)
      × (is_custom_role (toggle_permission permission (change_role role s)) ≡ true)
      × (is_custom_role
            (toggle_permission permission (toggle_permission permission (change_role role s)))
          ≡ false)
editing_marks_custom_role s member defaults role permission selected manages catalog allowed =
    let page = edited s member defaults role permission selected manages catalog allowed in
    let custom =
      is_custom_role-edited s member defaults role permission selected manages catalog allowed in
    let step =
      toggle_permission-edited s member defaults role permission selected manages catalog allowed in
    let start : change_role role s ≡ page (defaults role) =
      change_role-edited s member defaults role permission selected manages catalog allowed in
    let one : toggle_permission permission (change_role role s)
        ≡ page (toggled permission (defaults role)) =
      ap (toggle_permission permission) start ∙ step (defaults role) in
    let two = ap (toggle_permission permission) one ∙ step (toggled permission (defaults role)) in
    let unchanged = (have_same_permissions_iff (defaults role) (defaults role)).1 (λ k. refl) in
    (
      ap is_custom_role start ∙ custom (defaults role) ∙ ap not unchanged,
      ap is_custom_role one ∙ custom _ ∙ ap not (toggled-differs permission (defaults role)),
      ap is_custom_role two ∙ custom _ ∙ ap not (toggled-twice permission (defaults role)),
    )

find?-replaced :
    (id : String) (given : Member) (members : List Member) (member : Member)
    → find? (λ m. m.id == id) members ≡ some member
    → given.id ≡ id
    → find? (λ m. m.id == id) (replace_member given members) ≡ some given
find?-replaced id given [] member found e = cc
find?-replaced id given (m ∷ ms) member found e = elim (Bool-cases (m.id == id)) [
  | inl k ↦
      let own : (m.id == given.id) ≡ true = ap (λ j. m.id == j) e ∙ k in
      let held : (given.id == id) ≡ true = ap (λ j. j == id) e ∙ ==-refl id in rw own (rw held refl)
  | inr k ↦
      let other : (m.id == given.id) ≡ false = ap (λ j. m.id == j) e ∙ k in
      rw other (rw k (find?-replaced id given ms member (rw k at found) e))
]

save-saved :
    (s : MembersPage) (member given : Member)
    → selected_member s ≡ some member
    → s.can_manage_members ≡ true
    → save (ok (some given)) s ≡ saved (ok (some given)) s
unfolding save
save-saved s member given found manages = rw (found, save) (by_flag s.can_manage_members manages)
  where
    by_flag :
        (b : Bool)
        → b ≡ true
        → (if b then saved (ok (some given)) s else s) ≡ saved (ok (some given)) s
    by_flag b e = rw e refl

selected_member-saved :
    (s : MembersPage) (id : String) (members : List Member) (member given : Member)
    → s.selected_id ≡ some id
    → s.members ≡ some members
    → selected_member s ≡ some member
    → given.id ≡ id
    → selected_member (saved (ok (some given)) s) ≡ some given
unfolding selected_member
selected_member-saved s id members member given chosen held found own =
    rw (chosen, held) (find?-replaced id given members member (rw (chosen, held) at found) own)

-- What the page has of a member that is selected.
abbrev pub IsShown : Member → MembersPage → Type 0
IsShown given s =
    (s.role ≡ given.role) × (s.permissions ≡ given.effective_permissions) × (s.is_dirty ≡ false)

on_selected_member-IsShown :
    (s : MembersPage) (given : Member)
    → selected_member s ≡ some given
    → IsShown given (on_selected_member s)
unfolding on_selected_member
on_selected_member-IsShown s given found = rw (found, on_selected_member) (refl, refl, refl)

-- If the backend answers a saved change with the selected member as it is now, then the page has the
-- role and the permissions of that answer, once the effect of the new data has run, and nothing unsaved.
save-IsShown :
    (s : MembersPage) (id : String) (members : List Member) (member given : Member)
    → s.selected_id ≡ some id
    → s.members ≡ some members
    → selected_member s ≡ some member
    → s.can_manage_members ≡ true
    → given.id ≡ id
    → (selected_member (save (ok (some given)) s) ≡ some given)
      × IsShown given (on_selected_member (save (ok (some given)) s))
save-IsShown s id members member given chosen held found manages own =
    let page = save-saved s member given found manages in
    let selected : selected_member (save (ok (some given)) s) ≡ some given =
      ap selected_member page
      ∙ selected_member-saved s id members member given chosen held found own in
    (selected, on_selected_member-IsShown (save (ok (some given)) s) given selected)
