-- ===== src/Ingestion/Done.antt =====
-- frontend/src/components/upload/automatedIngestion.mjs: what `waitForAutomatedIngestion` resolves with.
use agent_workflow_fast_api.Base.{
  ℕ, zero, suc, ◌≤◌, String, true, List, ◌∷◌, ◌++◌, Option, none, some, ◌≡◌, ◌⊎◌, refl, sym, subst,
  ◌==◌, eq_of_==, string_eq, number_eq, some_is, length, find?, find?_holds, All, Result, ok, err,
  after, Bool-cases, inl, inr,
}
use agent_workflow_fast_api.Ingestion.Wait.{
  KnowledgeFile, ParsedDocument, Chunk, ChunkPage, parsing, chunking, embedding, complete,
  asked_files, asked_document, asked_chunks, entered, slept, Wait, IngestionError, History, Service,
  Ingested, Attempt, again, ended, ask_files, ask_chunks, sleep_again, all_chunks_embedded,
  read_pages, finish, read_chunks, check_document, after_document, read_document, check_file,
  attempt, continue_with, attempts, wait_for_automated_ingestion,
}
use agent_workflow_fast_api.Ingestion.Trace.{
  PagesAfter, all_chunks_embedded_sound, or_refused-eq-ok, read_pages-PagesAfter,
}

-- The last attempt asked the service for the files, the document and the pages of chunks, from the first
-- to one that names no other, and what it answered is the result: the file asked for, which is ready,
-- the document, whose chunks are ready, and the chunks of all pages in order. There is no chunk by the
-- total of the last page, or there are as many as it says and all are embedded; and this was announced
-- last.
pub record IsDone (v : Service) (file_id : String) (r : Ingested) (h : History) : Type 0 where
  pub start : History
  pub files : List KnowledgeFile
  pub files_answered : v.files (asked_files ∷ start) ≡ ok files
  pub listed : find? (λ f. f.file_id == file_id) files ≡ some r.file
  pub same_file : r.file.file_id ≡ file_id
  pub file_ready : r.file.status ≡ "ready"
  pub document_answered : v.document (asked_document ∷ asked_files ∷ start) ≡ ok r.document
  pub chunks_ready : r.document.chunk_status ≡ "ready"
  pub first : ChunkPage
  pub first_answered :
      v.chunks none (asked_chunks none ∷ entered embedding ∷ asked_document ∷ asked_files ∷ start)
      ≡ ok first
  pub rest : List Chunk
  pub before : History
  pub pages :
      PagesAfter v first
        (asked_chunks none ∷ entered embedding ∷ asked_document ∷ asked_files ∷ start)
        rest
        r.page
        before
  pub all_items : r.items ≡ first.items ++ rest
  pub embedded :
      (r.page.total ≡ 0)
      ⊎ ((r.page.total ≤ length r.items) × All (λ c. c.is_embedded ≡ true) r.items)
  pub announced : h ≡ entered complete ∷ before

-- An attempt that ends the wait is done.
abbrev Ends : Service → String → Result IngestionError Attempt × History → Type 0
Ends v file_id (ok (ended r), h) = IsDone v file_id r h
Ends v file_id (ok again, h) = Unit
Ends v file_id (err e, h) = Unit

abbrev pub Resolves : Service → String → Result IngestionError Ingested × History → Type 0
Resolves v file_id (ok r, h) = IsDone v file_id r h
Resolves v file_id (err e, h) = Unit

module _ (v : Service) (file_id : String) where
  Ends-after :
      {A : Type 0} (r : Result IngestionError A × History) (f : A → Wait Attempt)
      → ((a : A) (h : History) → r ≡ (ok a, h) → Ends v file_id (f a h))
      → Ends v file_id (after r f)
  Ends-after (ok a, h) f each = each a h refl
  Ends-after (err e, h) f each = tt

  Ends-sleep_again : (h : History) → Ends v file_id (sleep_again v file_id h)
  unfolding sleep_again
  Ends-sleep_again h = elim (Bool-cases (v.aborts (slept ∷ h))) [
    | inl a ↦ rw a tt
    | inr a ↦ rw a tt
  ]

  module _ (start : History) (files : List KnowledgeFile)
      (files_answered : v.files (asked_files ∷ start) ≡ ok files) where
    module _ (file : KnowledgeFile) (listed : find? (λ f. f.file_id == file_id) files ≡ some file)
        (ready : file.status ≡ "ready") where
      -- The history when the document is there.
      abbrev parsed : History
      parsed = asked_document ∷ asked_files ∷ start

      -- The history when the first page of chunks is there.
      abbrev begun : History
      begun = asked_chunks none ∷ entered embedding ∷ parsed

      module _ (document : ParsedDocument)
          (document_answered : v.document parsed ≡ ok document) where
        Ends-finish :
            (first page : ChunkPage) (items rest : List Chunk) (h : History)
            → document.chunk_status ≡ "ready"
            → v.chunks none begun ≡ ok first
            → PagesAfter v first begun rest page h
            → items ≡ first.items ++ rest
            → Ends v file_id (finish v file_id file document page items h)
        unfolding finish
        Ends-finish first page items rest h chunked answered pages all_items =
            elim (Bool-cases (all_chunks_embedded page.total items)) [
              | inl good ↦ rw good (record {
                start = start;
                files = files;
                files_answered = files_answered;
                listed = listed;
                same_file =
                    eq_of_== file.file_id file_id
                      (find?_holds (λ f. f.file_id == file_id) files file listed);
                file_ready = ready;
                document_answered = document_answered;
                chunks_ready = chunked;
                first = first;
                first_answered = answered;
                rest = rest;
                before = h;
                pages = pages;
                all_items = all_items;
                embedded = all_chunks_embedded_sound page.total items good;
                announced = refl;
              })
              | inr bad ↦ rw bad (Ends-sleep_again h)
            ]

        Ends-read_chunks :
            (fuel : ℕ)
            → document.chunk_status ≡ "ready"
            → Ends v file_id (read_chunks v file_id fuel file document parsed)
        unfolding read_chunks
        Ends-read_chunks fuel chunked =
            Ends-after (ask_chunks v file_id none (entered embedding ∷ parsed)) _ λ first g e.
              let (answered, held) = or_refused-eq-ok _ begun g first e in
              Ends-after (read_pages v file_id fuel first first.items g) _ λ out h e₂.
                let (rest, whole, pages) =
                  read_pages-PagesAfter v file_id fuel first first.items g h out e₂ in
                Ends-finish first out.0 out.1 rest h chunked answered
                  (subst (λ x. PagesAfter v first x rest out.0 h) held pages) whole

        Ends-check_document :
            (fuel : ℕ) → Ends v file_id (check_document v file_id fuel file document parsed)
        unfolding check_document
        Ends-check_document fuel = elim (Bool-cases (document.chunk_status == "failed")) [
          | inl failed ↦ rw failed tt
          | inr fine ↦ elim (Bool-cases (document.chunk_status == "ready")) [
            | inl chunked ↦
                rw (fine, chunked)
                  (Ends-read_chunks fuel (eq_of_== document.chunk_status "ready" chunked))
            | inr waiting ↦ rw (fine, waiting) (Ends-sleep_again (entered chunking ∷ parsed))
          ]
        ]

      Ends-after_document :
          (fuel : ℕ) (r : Result (Option ℕ) ParsedDocument)
          → v.document parsed ≡ r
          → Ends v file_id (after_document v file_id fuel file r parsed)
      Ends-after_document fuel (ok document) e = Ends-check_document document e fuel
      Ends-after_document fuel (err status) e = elim (Bool-cases (some_is status 404)) [
        | inl missing ↦ rw missing (Ends-sleep_again (entered parsing ∷ parsed))
        | inr other ↦ rw other tt
      ]

    Ends-check_file :
        (fuel : ℕ) (o : Option KnowledgeFile)
        → find? (λ f. f.file_id == file_id) files ≡ o
        → Ends v file_id (check_file v file_id fuel o (asked_files ∷ start))
    unfolding check_file read_document
    Ends-check_file fuel none listed = tt
    Ends-check_file fuel (some file) listed = elim (Bool-cases (file.status == "failed")) [
      | inl failed ↦ rw failed tt
      | inr fine ↦ elim (Bool-cases (file.status == "ready")) [
        | inr waiting ↦
            rw (fine, waiting) (Ends-sleep_again (entered parsing ∷ asked_files ∷ start))
        | inl ready ↦
            rw (fine, ready)
              (Ends-after_document file listed (eq_of_== file.status "ready" ready) fuel _ refl)
      ]
    ]

  Ends-attempt : (fuel : ℕ) (h : History) → Ends v file_id (attempt v file_id fuel h)
  unfolding attempt
  Ends-attempt fuel h = Ends-after (ask_files v file_id h) _ λ files g e.
      let (answered, held) = or_refused-eq-ok _ (asked_files ∷ h) g files e in
      subst
        (λ x.
          Ends v file_id (check_file v file_id fuel (find? (λ f. f.file_id == file_id) files) x))
        (sym held) (Ends-check_file h files answered fuel _ refl)

  Resolves-continue_with :
      (r : Result IngestionError Attempt × History) (rest : Wait Ingested)
      → Ends v file_id r
      → ((h : History) → Resolves v file_id (rest h))
      → Resolves v file_id (after r (continue_with v file_id rest))
  Resolves-continue_with (ok again, h) rest e each = each h
  Resolves-continue_with (ok (ended x), h) rest e each = e
  Resolves-continue_with (err x, h) rest e each = tt

  Resolves-attempts :
      (fuel left : ℕ) (h : History) → Resolves v file_id (attempts v file_id fuel left h)
  unfolding attempts
  Resolves-attempts fuel zero h = tt
  Resolves-attempts fuel (suc left) h =
      Resolves-continue_with (attempt v file_id fuel h) (attempts v file_id fuel left)
        (Ends-attempt fuel h) (Resolves-attempts fuel left)

-- `waitForAutomatedIngestion` resolves only with what the service answered in the last attempt: the
-- file asked for, which it says is ready, the document, whose chunks it says are ready, and the chunks
-- of all its pages, in order, up to one that names no other; by the total of that page there is no
-- chunk, or there are as many as it says and all are embedded. `complete` is announced then, and last.
pub wait_for_automated_ingestion-IsDone :
    (v : Service) (file_id : String) (fuel max_attempts : ℕ) (h : History) (r : Ingested)
    (h' : History)
    → wait_for_automated_ingestion v file_id fuel max_attempts h ≡ (ok r, h')
    → IsDone v file_id r h'
unfolding wait_for_automated_ingestion
wait_for_automated_ingestion-IsDone v file_id fuel max_attempts h r h' e =
    subst (Resolves v file_id) e (Resolves-attempts v file_id fuel max_attempts h)
