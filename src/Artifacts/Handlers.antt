-- ===== src/Artifacts/Handlers.antt =====
-- frontend/src/lib/artifacts/server.ts: `createDocumentHandler`, with the handlers of
-- frontend/src/artifacts/{text,code,sheet}/server.ts. What the language model streams for a prompt, on
-- the document to change if there is one, is a parameter.
use Prim.Native.String
use agent_workflow_fast_api.Base.{
  suc, String, Bool, true, false, List, [], ◌∷◌, Option, none, some, Result, ok, err, Io, ◌>>=◌,
}
use agent_workflow_fast_api.Http.Urls.Params.{truthy}
use agent_workflow_fast_api.Workspace.Tables.{Db}
use agent_workflow_fast_api.Workspace.Membership.{
  WorkspaceMembership, get_workspace_membership_for_user,
}
use agent_workflow_fast_api.Conversations.Tables.{ArtifactKind, text, code, sheet, Document}
use agent_workflow_fast_api.Conversations.Errors.{ChatbotError}
use agent_workflow_fast_api.Conversations.Statements.{Server, Store}
use agent_workflow_fast_api.Conversations.Queries.{save_document}
use agent_workflow_fast_api.Artifacts.Panel.{
  StreamPart, data_text_delta, data_code_delta, data_sheet_delta,
}
use agent_workflow_fast_api.Artifacts.Fences.{strip_fences}

pub data ModelPart : Type 0 where
  text_delta : String → ModelPart
  other_part : ModelPart

-- The parts of a stream, and whether it breaks off after them with an error.
pub record ModelStream : Type 0 where
  pub parts : List ModelPart
  pub breaks : Bool

-- What a handler writes for a delta and the draft with it, and what it returns of the whole draft.
pub record DocumentHandler : Type 0 where
  pub kind : ArtifactKind
  pub part : String → String → StreamPart
  pub returned : String → String

abbrev pub text_document_handler : DocumentHandler
text_document_handler = record {
  kind = text;
  part = λ delta draft. data_text_delta delta;
  returned = λ draft. draft;
}

abbrev pub code_document_handler : DocumentHandler
code_document_handler = record {
  kind = code;
  part = λ delta draft. data_code_delta (strip_fences draft);
  returned = strip_fences;
}

abbrev pub sheet_document_handler : DocumentHandler
sheet_document_handler = record {
  kind = sheet;
  part = λ delta draft. data_sheet_delta draft;
  returned = λ draft. draft;
}

abbrev pub document_handlers_by_artifact_kind : List DocumentHandler
document_handlers_by_artifact_kind =
    text_document_handler ∷ code_document_handler ∷ sheet_document_handler ∷ []

-- The loop over the stream, from the draft so far: what is returned, and the parts written.
unfoldable pub draft_document : DocumentHandler → String → List ModelPart → String × List StreamPart
draft_document h draft [] = (h.returned draft, [])
draft_document h draft (other_part ∷ parts) = draft_document h draft parts
draft_document h draft (text_delta delta ∷ parts) =
    let (content, written) = draft_document h (String.◌++◌ draft delta) parts in
    (content, h.part delta (String.◌++◌ draft delta) ∷ written)

pub data HandlerError : Type 0 where
  stream_broken lookup_failed : HandlerError
  refused : ChatbotError → HandlerError

abbrev pub saved :
    Result ChatbotError (List Document) × Store → Result HandlerError (Unit {0}) × Store
saved (ok documents, s) = (ok tt, s)
saved (err e, s) = (err (refused e), s)

module _ (p : Server) (db : Db) (stream_text : Option Document → String → ModelStream) where
  abbrev pub save_as_member :
      ArtifactKind
      → String
      → String
      → String
      → String
      → Option WorkspaceMembership
      → Io Store HandlerError (Unit {0})
  save_as_member kind id title content user_id none s = (ok tt, s)
  save_as_member kind id title content user_id (some membership) s =
      saved (save_document p id title kind content user_id membership.workspace_id s)

  -- The statements of `getWorkspaceMembershipForUser`: one for the member and one for its overrides,
  -- each of which the server may refuse.
  abbrev pub with_overrides :
      Bool → WorkspaceMembership → Io Store HandlerError (Option WorkspaceMembership)
  with_overrides true membership s = (ok (some membership), s)
  with_overrides false membership s = (err lookup_failed, s)

  abbrev pub with_member :
      Bool → Option WorkspaceMembership → Io Store HandlerError (Option WorkspaceMembership)
  with_member true none s = (ok none, s)
  with_member true (some membership) s =
      with_overrides (p.online s.statements) membership (record s { statements = suc s.statements })
  with_member false found s = (err lookup_failed, s)

  abbrev pub look_up : String → Io Store HandlerError (Option WorkspaceMembership)
  look_up user_id s =
      with_member (p.online s.statements)
        (get_workspace_membership_for_user p.engine false user_id db)
        (record s { statements = suc s.statements })

  -- `if (args.session?.user?.id)` and what stands in it.
  abbrev pub save_for :
      ArtifactKind → String → String → String → Option String → Io Store HandlerError (Unit {0})
  save_for kind id title content none s = (ok tt, s)
  save_for kind id title content (some user_id) s =
      (look_up user_id >>= save_as_member kind id title content user_id) s

  -- A stream that breaks ends the handler before anything is saved.
  abbrev pub save_draft :
      Bool
      → ArtifactKind
      → String
      → String
      → String
      → Option String
      → Io Store HandlerError (Unit {0})
  save_draft true kind id title content user s = (err stream_broken, s)
  save_draft false kind id title content user s = save_for kind id title content (truthy user) s

  -- How the handler ends, and what it has written.
  unfoldable pub on_create_document :
      DocumentHandler
      → String
      → String
      → Option String
      → Store
      → (Result HandlerError (Unit {0}) × Store) × List StreamPart
  on_create_document h id title user s =
      let stream = stream_text none title in
      let (content, written) = draft_document h "" stream.parts in
      (save_draft stream.breaks h.kind id title content user s, written)

  unfoldable pub on_update_document :
      DocumentHandler
      → Document
      → String
      → Option String
      → Store
      → (Result HandlerError (Unit {0}) × Store) × List StreamPart
  on_update_document h document description user s =
      let stream = stream_text (some document) description in
      let (content, written) = draft_document h "" stream.parts in
      (save_draft stream.breaks h.kind document.id document.title content user s, written)
