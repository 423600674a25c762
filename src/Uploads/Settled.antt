-- ===== src/Uploads/Settled.antt =====
-- frontend/src/components/upload/uploadPage.tsx: the ids of the items, and the items that are ready.
use mathlib.Core.List.{append_assoc, append-nil}
use agent_workflow_fast_api.Base.{
  ℕ, String, true, false, ◌||◌, List, [], ◌∷◌, ◌++◌, ◌≡◌, inl, inr, refl, sym, ◌∙◌, subst, arith,
  ◌==◌, string_eq, number_eq, ==_iff, ==-refl, filter, any, any-append, contains, distinct,
  distinct-append-new, distinct-filter, contains-map-filter, All, Bool-cases,
}
use agent_workflow_fast_api.Uploads.Page.{
  File, UploadItem, UploadPage, is_ready, upload_item_id, new_item, next_items, add_files,
  remove_item, clear_uploaded,
}
use agent_workflow_fast_api.Uploads.Identities.{item_ids}

-- No two items have one id.
abbrev pub IsApart : List UploadItem → Type 0
IsApart items = distinct (item_ids items) ≡ true

any-ids :
    (k : String) (items : List UploadItem)
    → any (λ item. item.id == k) items ≡ contains (item_ids items) k
any-ids k [] = refl
any-ids k (x ∷ xs) = ground (arith, any-ids k xs)

module _ (lower : String → String) (decimal : ℕ → String) where
  new_item-id : (file : File) → (new_item lower decimal file).id ≡ upload_item_id lower decimal file
  unfolding new_item
  new_item-id file = ground arith

  next_items-IsApart :
      (items next : List UploadItem) (files : List File)
      → IsApart (items ++ next)
      → IsApart (items ++ next_items lower decimal (item_ids items) next files)
  unfolding next_items
  next_items-IsApart items next [] h = h
  next_items-IsApart items next (file ∷ files) h =
      let k = upload_item_id lower decimal file in
      let item = new_item lower decimal file in
      elim (Bool-cases (contains (item_ids items) k || any (λ x. x.id == k) next)) [
        | inl e ↦ rw e (next_items-IsApart items next files h)
        | inr e ↦ rw e (
            next_items-IsApart items (next ++ (item ∷ [])) files (
              subst IsApart (append_assoc items next (item ∷ [])) (
                distinct-append-new (λ x. x.id) item (items ++ next)
                  (rw (new_item-id file)
                    (ground (arith, any-append (λ x. x.id == k) items next, any-ids k items)))
                  h)))
      ]

  pub add_files-IsApart :
      (files : List File) (page : UploadPage)
      → IsApart page.items
      → IsApart (add_files lower decimal files page).items
  unfolding add_files
  add_files-IsApart files page h =
      next_items-IsApart page.items [] files (subst IsApart (sym (append-nil page.items)) h)

pub remove_item-IsApart :
    (id : String) (page : UploadPage) → IsApart page.items → IsApart (remove_item id page).items
unfolding remove_item
remove_item-IsApart id page h = distinct-filter (λ x. x.id) _ page.items h

pub clear_uploaded-IsApart :
    (page : UploadPage) → IsApart page.items → IsApart (clear_uploaded page).items
unfolding clear_uploaded
clear_uploaded-IsApart page h = distinct-filter (λ x. x.id) _ page.items h

abbrev pub ready_items : List UploadItem → List UploadItem
ready_items = filter (λ item. is_ready item.status)

pub All-map2 :
    {P Q R : UploadItem → Type 0} (items : List UploadItem)
    → ((x : UploadItem) → P x → Q x → R x)
    → All P items
    → All Q items
    → All R items
All-map2 [] f h k = tt
All-map2 (x ∷ xs) f h k = (f x h.0 k.0, All-map2 xs f h.1 k.1)

apart-ids :
    (k : String) (items : List UploadItem)
    → contains (item_ids items) k ≡ false
    → All (λ x. (k == x.id) ≡ false) items
apart-ids k [] h = tt
apart-ids k (x ∷ xs) h =
    (ground (arith, ==_iff k x.id, ==_iff x.id k), apart-ids k xs (ground arith))

-- An id is among those of the chosen items just if its item is ready.
abbrev pub Chosen : List UploadItem → List UploadItem → Type 0
Chosen items chosen = All (λ x. contains (item_ids chosen) x.id ≡ is_ready x.status) items

-- Where the ids are apart, an id is among those of the ready items just if its item is ready.
pub ready_items-ids : (items : List UploadItem) → IsApart items → Chosen items (ready_items items)
ready_items-ids [] h = tt
ready_items-ids (y ∷ ys) h =
    let alone : contains (item_ids ys) y.id ≡ false = ground arith in
    let rest : IsApart ys = ground arith in
    let gone = contains-map-filter (λ x. x.id) (λ x. is_ready x.status) y.id ys alone in
    let tail = ready_items-ids ys rest in
    elim (Bool-cases (is_ready y.status)) [
      | inl e ↦
          let whole : ready_items (y ∷ ys) ≡ y ∷ ready_items ys = rw e refl in
          subst (Chosen (y ∷ ys)) (sym whole) (
            ground (arith, ==-refl y.id),
            All-map2 ys
                (λ x (a : (y.id == x.id) ≡ false)
                    (b : contains (item_ids (ready_items ys)) x.id ≡ is_ready x.status).
                  rw a b)
                (apart-ids y.id ys alone) tail,
          )
      | inr e ↦
          let whole : ready_items (y ∷ ys) ≡ ready_items ys = rw e refl in
          subst (Chosen (y ∷ ys)) (sym whole) (gone ∙ sym e, tail)
    ]
