-- ===== src/Artifacts/Streaming.antt =====
-- What the panel of frontend/src/components/chat/dataStreamHandler.tsx shows of a document that a
-- handler of frontend/src/artifacts streams to it.
use Prim.Native.String
use agent_workflow_fast_api.Base.{
  ℕ, zero, suc, String, List, [], ◌∷◌, ◌++◌, ◌≡◌, refl, sym, ap, ◌∙◌, subst, some, get_elem?, All,
  All-append,
}
use agent_workflow_fast_api.Artifacts.Panel.{
  StreamPart, Panel, ActiveChat, idle, data_clear, data_finish, handle_delta, handle_deltas,
  handle_batches, on_stream_part, update_artifact, append_text, replace_code, replace_content,
}
use agent_workflow_fast_api.Artifacts.Handlers.{
  ModelPart, text_delta, other_part, DocumentHandler, text_document_handler, code_document_handler,
  sheet_document_handler, document_handlers_by_artifact_kind, draft_document,
}
use agent_workflow_fast_api.Artifacts.Fences.{
  strip_fences, strip_opening, strip_closing, trim_left, trim_right,
}
use agent_workflow_fast_api.Artifacts.Batches.{
  joined, Keeps, handle_deltas-append, handle_batches-joined,
}

-- The parts of a document: it is cleared, written and finished.
abbrev pub document_parts : DocumentHandler → List ModelPart → List StreamPart
document_parts h parts = data_clear ∷ ((draft_document h "" parts).1 ++ (data_finish ∷ []))

module _ (chat : ActiveChat) where
  -- A handler whose parts leave the kind, and show what it returns of the draft.
  record Agrees (h : DocumentHandler) : Type 0 where
    part-keeps : (delta draft : String) → Keeps chat h.kind (h.part delta draft)
    clear-keeps : Keeps chat h.kind data_clear
    finish-keeps : Keeps chat h.kind data_finish
    empty : h.returned "" ≡ ""
    clears :
        (id : String) (p : Panel) → (handle_delta chat h.kind id data_clear p).artifact.content ≡ ""
    finishes :
        (id : String) (p : Panel)
        → ((handle_delta chat h.kind id data_finish p).artifact.content ≡ p.artifact.content)
          × ((handle_delta chat h.kind id data_finish p).artifact.status ≡ idle)
    part-shows :
        (delta draft id : String) (p : Panel)
        → p.artifact.content ≡ h.returned draft
        → (handle_delta chat h.kind id (h.part delta (String.◌++◌ draft delta)) p).artifact.content
          ≡ h.returned (String.◌++◌ draft delta)

  text-Agrees : Agrees text_document_handler
  unfolding handle_delta on_stream_part update_artifact append_text
  text-Agrees = record {
    part-keeps = λ delta draft id p. (refl, refl);
    clear-keeps = λ id p. (refl, refl);
    finish-keeps = λ id p. (refl, refl);
    empty = refl;
    clears = λ id p. refl;
    finishes = λ id p. (refl, refl);
    part-shows = λ delta draft id p e. ap (λ s. String.◌++◌ s delta) e;
  }

  code-Agrees : Agrees code_document_handler
  unfolding handle_delta on_stream_part update_artifact replace_code strip_fences strip_opening
      strip_closing trim_left trim_right
  code-Agrees = record {
    part-keeps = λ delta draft id p. (refl, refl);
    clear-keeps = λ id p. (refl, refl);
    finish-keeps = λ id p. (refl, refl);
    empty = refl;
    clears = λ id p. refl;
    finishes = λ id p. (refl, refl);
    part-shows = λ delta draft id p e. refl;
  }

  sheet-Agrees : Agrees sheet_document_handler
  unfolding handle_delta on_stream_part update_artifact replace_content
  sheet-Agrees = record {
    part-keeps = λ delta draft id p. (refl, refl);
    clear-keeps = λ id p. (refl, refl);
    finish-keeps = λ id p. (refl, refl);
    empty = refl;
    clears = λ id p. refl;
    finishes = λ id p. (refl, refl);
    part-shows = λ delta draft id p e. refl;
  }

  handler-Agrees :
      (i : ℕ) (h : DocumentHandler)
      → get_elem? document_handlers_by_artifact_kind i ≡ some h
      → Agrees h
  handler-Agrees zero h e =
      let same : text_document_handler ≡ h = cc in subst Agrees same text-Agrees
  handler-Agrees (suc zero) h e =
      let same : code_document_handler ≡ h = cc in subst Agrees same code-Agrees
  handler-Agrees (suc (suc zero)) h e =
      let same : sheet_document_handler ≡ h = cc in subst Agrees same sheet-Agrees
  handler-Agrees (suc (suc (suc i))) h e = cc

  module _ (h : DocumentHandler) (a : Agrees h) where
    written-Keeps :
        (draft : String) (parts : List ModelPart)
        → All (Keeps chat h.kind) (draft_document h draft parts).1
    unfolding draft_document
    written-Keeps draft [] = tt
    written-Keeps draft (other_part ∷ parts) = written-Keeps draft parts
    written-Keeps draft (text_delta delta ∷ parts) =
        (a.part-keeps delta _, written-Keeps (String.◌++◌ draft delta) parts)

    written-shows :
        (id draft : String) (parts : List ModelPart) (p : Panel)
        → p.artifact.content ≡ h.returned draft
        → (handle_deltas chat h.kind id (draft_document h draft parts).1 p).artifact.content
          ≡ (draft_document h draft parts).0
    unfolding draft_document handle_deltas
    written-shows id draft [] p e = e
    written-shows id draft (other_part ∷ parts) p e = written-shows id draft parts p e
    written-shows id draft (text_delta delta ∷ parts) p e =
        written-shows id (String.◌++◌ draft delta) parts _ (a.part-shows delta draft id p e)

    document_parts-Keeps :
        (parts : List ModelPart) → All (Keeps chat h.kind) (document_parts h parts)
    document_parts-Keeps parts = (
      a.clear-keeps,
      All-append (Keeps chat h.kind) (draft_document h "" parts).1 (data_finish ∷ [])
          (written-Keeps "" parts) (a.finish-keeps, tt),
    )

    shown :
        (id : String) (parts : List ModelPart) (p : Panel)
        → ((handle_deltas chat h.kind id (document_parts h parts) p).artifact.content
            ≡ (draft_document h "" parts).0)
          × ((handle_deltas chat h.kind id (document_parts h parts) p).artifact.status ≡ idle)
    unfolding handle_deltas
    shown id parts p =
        let cleared = handle_delta chat h.kind id data_clear p in
        let written = (draft_document h "" parts).1 in
        let at_end = handle_deltas chat h.kind id written cleared in
        let split = handle_deltas-append chat h.kind id written (data_finish ∷ []) cleared in
        let (same, done) = a.finishes id at_end in
        (
          ap (λ q. q.artifact.content) split
              ∙ same
              ∙ written-shows id "" parts cleared (a.clears id p ∙ sym a.empty),
          ap (λ q. q.artifact.status) split ∙ done,
        )

-- However the parts of a document are cut into batches, the panel, if it shows an artifact of the
-- handler's kind, has at the end the content that the handler returns, and is idle.
pub handle_batches-draft :
    (chat : ActiveChat) (i : ℕ) (h : DocumentHandler) (parts : List ModelPart)
    (batches : List (List StreamPart)) (p : Panel)
    → get_elem? document_handlers_by_artifact_kind i ≡ some h
    → p.artifact.kind ≡ h.kind
    → joined batches ≡ document_parts h parts
    → ((handle_batches chat batches p).artifact.content ≡ (draft_document h "" parts).0)
      × ((handle_batches chat batches p).artifact.status ≡ idle)
handle_batches-draft chat i h parts batches p found kind cut =
    let a = handler-Agrees chat i h found in
    let id = p.artifact.document_id in
    let keeps = subst (All (Keeps chat h.kind)) (sym cut) (document_parts-Keeps chat h a parts) in
    let same =
      handle_batches-joined chat h.kind id batches p kind refl keeps
      ∙ ap (λ xs. handle_deltas chat h.kind id xs p) cut in
    let (content, status) = shown chat h a id parts p in
    (ap (λ q. q.artifact.content) same ∙ content, ap (λ q. q.artifact.status) same ∙ status)

-- The same for the parts alone that the handler writes, in a panel that was empty.
pub handle_batches-written :
    (chat : ActiveChat) (i : ℕ) (h : DocumentHandler) (parts : List ModelPart)
    (batches : List (List StreamPart)) (p : Panel)
    → get_elem? document_handlers_by_artifact_kind i ≡ some h
    → p.artifact.kind ≡ h.kind
    → p.artifact.content ≡ ""
    → joined batches ≡ (draft_document h "" parts).1
    → (handle_batches chat batches p).artifact.content ≡ (draft_document h "" parts).0
handle_batches-written chat i h parts batches p found kind fresh cut =
    let a = handler-Agrees chat i h found in
    let id = p.artifact.document_id in
    let keeps = subst (All (Keeps chat h.kind)) (sym cut) (written-Keeps chat h a "" parts) in
    let same =
      handle_batches-joined chat h.kind id batches p kind refl keeps
      ∙ ap (λ xs. handle_deltas chat h.kind id xs p) cut in
    ap (λ q. q.artifact.content) same ∙ written-shows chat h a id "" parts p (fresh ∙ sym a.empty)
