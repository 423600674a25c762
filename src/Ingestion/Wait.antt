-- ===== src/Ingestion/Wait.antt =====
-- frontend/src/components/upload/automatedIngestion.mjs: `waitForAutomatedIngestion`. The service that
-- answers `request` and whether the caller aborts a sleep are parameters, which may depend on all that
-- was done before. The loop over the attempts is bounded by itself; the loop over the pages of chunks
-- is not, and takes fuel.
use agent_workflow_fast_api.Base.{
  ℕ, zero, suc, String, Bool, not, ◌&&◌, ◌||◌, List, ◌∷◌, ◌++◌, Option, none, some, ◌==◌, string_eq,
  number_eq, some_is, leb, length, find?, all, get_or, if◌then◌else◌, Result, ok, err, Io, resolve,
  throw, ◌>>=◌, ◌>>◌,
}
use agent_workflow_fast_api.Http.Urls.Params.{truthy}

pub record KnowledgeFile : Type 0 where
  pub file_id : String
  pub status : String
  pub error_message : Option String

pub record ParsedDocument : Type 0 where
  pub chunk_status : String
  pub chunk_error_message : Option String

pub record Chunk : Type 0 where
  pub chunk_id : String
  pub is_embedded : Bool

pub record ChunkPage : Type 0 where
  pub items : List Chunk
  pub next_offset : Option ℕ
  pub total : ℕ

pub data Stage : Type 0 where
  parsing chunking embedding complete : Stage

-- What the call does: requests, calls of `onStage` and sleeps.
pub data Effect : Type 0 where
  asked_files asked_document : Effect
  asked_chunks : Option ℕ → Effect
  entered : Stage → Effect
  slept : Effect

-- Newest first.
abbrev pub History : Type 0
History = List Effect

-- The errors that it throws; `unfinished` is the end of the fuel.
pub data IngestionError : Type 0 where
  file_missing aborted took_too_long unfinished : IngestionError
  not_parsed not_chunked : String → IngestionError
  refused : Option ℕ → IngestionError

-- A request gives its data, or rejects with an error that may have a status.
pub record Service : Type 0 where
  pub files : History → Result (Option ℕ) (List KnowledgeFile)
  pub document : History → Result (Option ℕ) ParsedDocument
  pub chunks : Option ℕ → History → Result (Option ℕ) ChunkPage
  pub aborts : History → Bool

pub record Ingested : Type 0 where
  pub file : KnowledgeFile
  pub document : ParsedDocument
  pub page : ChunkPage
  pub items : List Chunk

-- What an attempt comes to.
pub data Attempt : Type 0 where
  again : Attempt
  ended : Ingested → Attempt

abbrev pub Wait : Type 0 → Type 0
Wait = Io History IngestionError

abbrev pub or_refused {ℓ} : {A : Type ℓ} → Result (Option ℕ) A → Result IngestionError A
or_refused (ok a) = ok a
or_refused (err status) = err (refused status)

abbrev pub on_stage : Stage → Wait (Unit {0})
on_stage stage h = (ok tt, entered stage ∷ h)

-- `[…chunkItems].length >= total && every(isEmbedded)`, or no chunk at all.
unfoldable pub all_chunks_embedded : ℕ → List Chunk → Bool
all_chunks_embedded total items =
    total == 0 || (leb total (length items) && all (λ c. c.is_embedded) items)

module _ (v : Service) (file_id : String) where
  abbrev pub ask_files : Wait (List KnowledgeFile)
  ask_files h = (or_refused (v.files (asked_files ∷ h)), asked_files ∷ h)

  abbrev pub ask_chunks : Option ℕ → Wait ChunkPage
  ask_chunks offset h =
      (or_refused (v.chunks offset (asked_chunks offset ∷ h)), asked_chunks offset ∷ h)

  -- `await sleep(intervalMs); continue;`
  unfoldable pub sleep_again : Wait Attempt
  sleep_again h = if v.aborts (slept ∷ h) then (err aborted, slept ∷ h) else (ok again, slept ∷ h)

  abbrev pub stage_again : Stage → Wait Attempt
  stage_again stage h = sleep_again (entered stage ∷ h)

  -- `while (chunks.nextOffset !== null && chunks.nextOffset !== undefined)`
  unfoldable pub read_pages : ℕ → ChunkPage → List Chunk → Wait (ChunkPage × List Chunk)
  read_pages zero page items = elim page.next_offset [
    | none ↦ resolve (page, items)
    | some offset ↦ throw unfinished
  ]
  read_pages (suc fuel) page items = elim page.next_offset [
    | none ↦ resolve (page, items)
    | some offset ↦
        ask_chunks (some offset) >>= (λ next. read_pages fuel next (items ++ next.items))
  ]

  unfoldable pub finish : KnowledgeFile → ParsedDocument → ChunkPage → List Chunk → Wait Attempt
  unfolding all_chunks_embedded
  finish file document page items =
      if all_chunks_embedded page.total items
      then (do
        on_stage complete
        resolve (ended (record { file = file; document = document; page = page; items = items })))
      else sleep_again

  unfoldable pub read_chunks : ℕ → KnowledgeFile → ParsedDocument → Wait Attempt
  read_chunks fuel file document = do
    on_stage embedding
    first ← ask_chunks none
    pages ← read_pages fuel first first.items
    finish file document pages.0 pages.1

  unfoldable pub check_document : ℕ → KnowledgeFile → ParsedDocument → Wait Attempt
  check_document fuel file document =
      if document.chunk_status == "failed"
      then throw (
          not_chunked
            (get_or (truthy document.chunk_error_message) "Knowledge chunks could not be created."))
      else if document.chunk_status == "ready"
      then read_chunks fuel file document
      else stage_again chunking

  -- A document that is not there yet is waited for.
  abbrev pub after_document : ℕ → KnowledgeFile → Result (Option ℕ) ParsedDocument → Wait Attempt
  after_document fuel file (ok document) = check_document fuel file document
  after_document fuel file (err status) =
      if some_is status 404 then stage_again parsing else throw (refused status)

  unfoldable pub read_document : ℕ → KnowledgeFile → Wait Attempt
  unfolding some_is
  read_document fuel file h =
      after_document fuel file (v.document (asked_document ∷ h)) (asked_document ∷ h)

  unfoldable pub check_file : ℕ → Option KnowledgeFile → Wait Attempt
  check_file fuel none = throw file_missing
  check_file fuel (some file) =
      if file.status == "failed"
      then throw
          (not_parsed (get_or (truthy file.error_message) "The document could not be parsed."))
      else if not (file.status == "ready")
      then stage_again parsing
      else read_document fuel file

  unfoldable pub attempt : ℕ → Wait Attempt
  attempt fuel = do files ← ask_files; check_file fuel (find? (λ f. f.file_id == file_id) files)

  abbrev pub continue_with : Wait Ingested → Attempt → Wait Ingested
  continue_with rest again = rest
  continue_with rest (ended r) = resolve r

  -- The loop over the attempts that are left.
  unfoldable pub attempts : ℕ → ℕ → Wait Ingested
  attempts fuel zero = throw took_too_long
  attempts fuel (suc left) = attempt fuel >>= continue_with (attempts fuel left)

  unfoldable pub wait_for_automated_ingestion : ℕ → ℕ → Wait Ingested
  unfolding attempts
  wait_for_automated_ingestion fuel max_attempts = attempts fuel max_attempts
