-- ===== src/Artifacts/Batches.antt =====
-- frontend/src/components/chat/dataStreamHandler.tsx: the cut of a stream into batches.
use agent_workflow_fast_api.Base.{String, List, [], ◌∷◌, ◌++◌, ◌≡◌, refl, sym, ap, ◌∙◌, All}
use agent_workflow_fast_api.Conversations.Tables.{ArtifactKind}
use agent_workflow_fast_api.Artifacts.Panel.{
  StreamPart, Panel, ActiveChat, handle_delta, handle_deltas, handle_batch, handle_batches,
}

-- The batches, one after the other.
abbrev pub joined : List (List StreamPart) → List StreamPart
joined [] = []
joined (deltas ∷ batches) = deltas ++ joined batches

module _ (chat : ActiveChat) where
  -- A part that leaves the kind and the document as they are.
  abbrev pub Keeps : ArtifactKind → StreamPart → Type 0
  Keeps kind delta =
      (id : String) (p : Panel)
      → ((handle_delta chat kind id delta p).artifact.kind ≡ p.artifact.kind)
        × ((handle_delta chat kind id delta p).artifact.document_id ≡ p.artifact.document_id)

  pub handle_deltas-append :
      (kind : ArtifactKind) (id : String) (xs ys : List StreamPart) (p : Panel)
      → handle_deltas chat kind id (xs ++ ys) p
        ≡ handle_deltas chat kind id ys (handle_deltas chat kind id xs p)
  unfolding handle_deltas
  handle_deltas-append kind id [] ys p = refl
  handle_deltas-append kind id (x ∷ xs) ys p =
      handle_deltas-append kind id xs ys (handle_delta chat kind id x p)

  handle_deltas-Keeps :
      (kind : ArtifactKind) (id : String) (xs : List StreamPart) (p : Panel)
      → All (Keeps kind) xs
      → ((handle_deltas chat kind id xs p).artifact.kind ≡ p.artifact.kind)
        × ((handle_deltas chat kind id xs p).artifact.document_id ≡ p.artifact.document_id)
  unfolding handle_deltas
  handle_deltas-Keeps kind id [] p h = (refl, refl)
  handle_deltas-Keeps kind id (x ∷ xs) p h =
      let (k, d) = handle_deltas-Keeps kind id xs (handle_delta chat kind id x p) h.1 in
      (k ∙ (h.0 id p).0, d ∙ (h.0 id p).1)

  All-left : (P : StreamPart → Type 0) (xs ys : List StreamPart) → All P (xs ++ ys) → All P xs
  All-left P [] ys h = tt
  All-left P (x ∷ xs) ys h = (h.0, All-left P xs ys h.1)

  All-right : (P : StreamPart → Type 0) (xs ys : List StreamPart) → All P (xs ++ ys) → All P ys
  All-right P [] ys h = h
  All-right P (x ∷ xs) ys h = All-right P xs ys h.1

  -- The cut into batches makes no difference.
  pub handle_batches-joined :
      (kind : ArtifactKind) (id : String) (batches : List (List StreamPart)) (p : Panel)
      → p.artifact.kind ≡ kind
      → p.artifact.document_id ≡ id
      → All (Keeps kind) (joined batches)
      → handle_batches chat batches p ≡ handle_deltas chat kind id (joined batches) p
  unfolding handle_batches handle_batch handle_deltas
  handle_batches-joined kind id [] p ek ed h = refl
  handle_batches-joined kind id (xs ∷ batches) p ek ed h =
      let (k, d) = handle_deltas-Keeps kind id xs p (All-left _ xs (joined batches) h) in
      let follow = handle_batches chat batches in
      ap (λ j. follow (handle_deltas chat j p.artifact.document_id xs p)) ek
      ∙ ap (λ j. follow (handle_deltas chat kind j xs p)) ed
      ∙ handle_batches-joined kind id batches (handle_deltas chat kind id xs p) (k ∙ ek) (d ∙ ed)
          (All-right _ xs (joined batches) h)
      ∙ sym (handle_deltas-append kind id xs (joined batches) p)
