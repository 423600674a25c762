-- ===== src/Artifacts/Saving.antt =====
-- frontend/src/lib/artifacts/server.ts: what `onCreateDocument` and `onUpdateDocument` store, beside
-- what the panel of the browser shows.
use agent_workflow_fast_api.Base.{
  ℕ, suc, String, Bool, true, false, List, [], ◌∷◌, ◌++◌, Option, none, some, ◌≡◌, ◌⊎◌, inl, inr,
  refl, if◌then◌else◌, get_elem?, Result, ok, err, Io, after, Option-cases, Bool-cases,
}
use agent_workflow_fast_api.Http.Urls.Params.{truthy}
use agent_workflow_fast_api.Workspace.Tables.{Db}
use agent_workflow_fast_api.Workspace.Membership.{
  WorkspaceMembership, get_workspace_membership_for_user,
}
use agent_workflow_fast_api.Conversations.Tables.{Document, Tables, ArtifactKind}
use agent_workflow_fast_api.Conversations.Statements.{
  Server, Store, statement, insert_document, bad_request_database,
}
use agent_workflow_fast_api.Conversations.Queries.{save_document}
use agent_workflow_fast_api.Artifacts.Panel.{StreamPart, Panel, ActiveChat, handle_batches}
use agent_workflow_fast_api.Artifacts.Handlers.{
  ModelStream, DocumentHandler, document_handlers_by_artifact_kind, HandlerError, stream_broken,
  lookup_failed, refused, saved, save_as_member, look_up, with_overrides, save_draft,
  on_create_document, on_update_document,
}
use agent_workflow_fast_api.Artifacts.Batches.{joined}
use agent_workflow_fast_api.Artifacts.Streaming.{handle_batches-written}

if-either :
    {A : Type 0} (b : Bool) (x y : A) → ((if b then x else y) ≡ y) ⊎ ((if b then x else y) ≡ x)
if-either true x y = inr refl
if-either false x y = inl refl

module _ (p : Server) (db : Db) (kind : ArtifactKind) (id title content : String) where
  -- The row of the version that a user of a workspace saves at a time.
  abbrev pub version : ℕ → String → WorkspaceMembership → Document
  version now user_id membership = record {
    content = some content;
    created_at = now;
    id = id;
    kind = kind;
    title = title;
    user_id = user_id;
    workspace_id = membership.workspace_id;
  }

  -- The user that is signed in and active in a workspace.
  abbrev pub IsAuthor : Option String → String → WorkspaceMembership → Type 0
  IsAuthor user user_id membership =
      (truthy user ≡ some user_id)
      × (get_workspace_membership_for_user p.engine false user_id db ≡ some membership)

  -- Nobody is signed in, or the user is active in no workspace.
  abbrev pub IsStranger : Option String → Type 0
  IsStranger user =
      (truthy user ≡ none)
      ⊎ ((user_id : String) × (truthy user ≡ some user_id)
          × (get_workspace_membership_for_user p.engine false user_id db ≡ none))

  -- The two statements that look up the membership go before the one that stores.
  abbrev pub storing : Store → ℕ
  storing s = suc (suc s.statements)

  -- How a handler ends: the content is stored, there is nobody to store it for, or it fails and
  -- leaves the tables, since the stream broke, the membership could not be looked up, or the
  -- statement was refused or broke a key.
  abbrev pub Ending : Bool → Option String → Store → Result HandlerError (Unit {0}) × Store → Type 0
  Ending breaks user s (err stream_broken, t) = (breaks ≡ true) × (t ≡ s)
  Ending breaks user s (err lookup_failed, t) =
      (breaks ≡ false)
      × (t.tables ≡ s.tables)
      × (user_id : String) × (truthy user ≡ some user_id)
      × ((p.online s.statements ≡ false)
          ⊎ ((membership : WorkspaceMembership) × IsAuthor user user_id membership
              × (p.online (suc s.statements) ≡ false)))
  Ending breaks user s (err (refused e), t) =
      (breaks ≡ false)
      × (e ≡ bad_request_database)
      × (t.tables ≡ s.tables)
      × (user_id : String) × (membership : WorkspaceMembership) × IsAuthor user user_id membership
      × ((p.online (storing s) ≡ false)
          ⊎ (insert_document p (version (p.now (storing s)) user_id membership) s.tables ≡ none))
  Ending breaks user s (ok done, t) =
      (breaks ≡ false)
      × ((IsStranger user × (t.tables ≡ s.tables))
          ⊎ ((user_id : String) × (membership : WorkspaceMembership) × IsAuthor user user_id
                membership
              × (t.tables ≡ record s.tables {
                documents =
                    s.tables.documents ++ (version (p.now (storing s)) user_id membership ∷ []);
              })))

  inserted :
      (d : Document) (t : Tables)
      → (insert_document p d t ≡ none)
        ⊎ (insert_document p d t ≡ some (d ∷ [], record t { documents = t.documents ++ (d ∷ []) }))
  unfolding insert_document
  inserted d t = if-either _ _ _

  save-Ending :
      (user : Option String) (user_id : String) (membership : WorkspaceMembership) (s : Store)
      → IsAuthor user user_id membership
      → Ending false user s (
          saved (
            save_document p id title kind content user_id membership.workspace_id
              (record s { statements = storing s })))
  unfolding save_document statement
  save-Ending user user_id membership s author = elim (Bool-cases (p.online (storing s))) [
    | inr off ↦ rw off (refl, refl, refl, user_id, membership, author, inl off)
    | inl on ↦ elim (inserted (version (p.now (storing s)) user_id membership) s.tables) [
      | inl e ↦ rw on (rw e (refl, refl, refl, user_id, membership, author, inr e))
      | inr e ↦ rw on (rw e (refl, inr (user_id, membership, author, refl)))
    ]
  ]

  module _ (stream_text : Option Document → String → ModelStream) (user : Option String)
      (user_id : String) (s : Store) (u : truthy user ≡ some user_id) where
    -- What follows the lookup.
    abbrev follow : Option WorkspaceMembership → Io Store HandlerError (Unit {0})
    follow = save_as_member p db stream_text kind id title content user_id

    member-Ending :
        (membership : WorkspaceMembership)
        → IsAuthor user user_id membership
        → Ending false user s (
            after
              (with_overrides p db stream_text
                (p.online (suc s.statements))
                membership
                (record s { statements = storing s }))
              follow)
    member-Ending membership author = elim (Bool-cases (p.online (suc s.statements))) [
      | inr off ↦ rw off (refl, refl, user_id, u, inr (membership, author, off))
      | inl on ↦ rw on (save-Ending user user_id membership s author)
    ]

    look_up-Ending : Ending false user s (after (look_up p db stream_text user_id s) follow)
    look_up-Ending = elim (Bool-cases (p.online s.statements)) [
      | inr off ↦ rw off (refl, refl, user_id, u, inl off)
      | inl on ↦ elim (Option-cases (get_workspace_membership_for_user p.engine false user_id db)) [
        | inl e ↦ rw (on, e) (refl, inl (inr (user_id, u, e), refl))
        | inr (membership, m) ↦ rw (on, m) (member-Ending membership (u, m))
      ]
    ]

  save_draft-Ending :
      (stream_text : Option Document → String → ModelStream) (breaks : Bool) (user : Option String)
      (s : Store)
      → Ending breaks user s (save_draft p db stream_text breaks kind id title content user s)
  save_draft-Ending st true user s = (refl, refl)
  save_draft-Ending st false user s = elim (Option-cases (truthy user)) [
    | inl e ↦ rw e (refl, inl (inl e, refl))
    | inr (user_id, u) ↦ rw u (look_up-Ending st user user_id s u)
  ]

-- Whether a document is created or changed: if an empty panel of the handler's kind has taken, in
-- whatever batches, all the parts that the handler wrote, then the content that it shows is what is
-- stored, as a new version after the other documents, with the id and title given (of the document
-- that is changed) for the signed-in user and the workspace. Nothing is stored if the stream broke, if
-- nobody is signed in or a member, if the membership could not be looked up, or if the statement was
-- refused or broke a key; the handler fails in all these cases but the second.
pub document_calls_store_what_is_shown :
    (p : Server) (db : Db) (stream_text : Option Document → String → ModelStream)
    (chat : ActiveChat) (i : ℕ) (h : DocumentHandler) (id title : String) (document : Document)
    (description : String) (user : Option String) (s : Store)
    (created changed : List (List StreamPart)) (q : Panel)
    → get_elem? document_handlers_by_artifact_kind i ≡ some h
    → q.artifact.kind ≡ h.kind
    → q.artifact.content ≡ ""
    → joined created ≡ (on_create_document p db stream_text h id title user s).1
    → joined changed ≡ (on_update_document p db stream_text h document description user s).1
    → Ending p db h.kind id title
        (handle_batches chat created q).artifact.content
        (stream_text none title).breaks
        user
        s
        (on_create_document p db stream_text h id title user s).0
      × Ending p db h.kind document.id document.title
          (handle_batches chat changed q).artifact.content
          (stream_text (some document) description).breaks
          user
          s
          (on_update_document p db stream_text h document description user s).0
unfolding on_create_document on_update_document
document_calls_store_what_is_shown p db st chat i h id title document description user s created
      changed q found kind fresh cut cut2 =
    let new = st none title in
    let next = st (some document) description in
    let shown = handle_batches-written chat i h new.parts created q found kind fresh cut in
    let shown2 = handle_batches-written chat i h next.parts changed q found kind fresh cut2 in
    (
      rw shown (save_draft-Ending p db h.kind id title _ st new.breaks user s),
      rw shown2 (save_draft-Ending p db h.kind document.id document.title _ st next.breaks user s),
    )
