-- ===== src/Ingestion/Bounds.antt =====
-- frontend/src/components/upload/automatedIngestion.mjs: that `waitForAutomatedIngestion` ends, and how
-- much it does.
use agent_workflow_fast_api.Base.{
  ℕ, zero, suc, ◌+◌, ◌*◌, ◌≤◌, ◌<◌, String, List, ◌∷◌, Option, none, some, ◌≢◌, sym, ap, arith,
  ◌==◌, string_eq, number_eq, some_is, length, find?, Result, ok, err, after, Bool-cases, inl, inr,
}
use agent_workflow_fast_api.Ingestion.Wait.{
  KnowledgeFile, ParsedDocument, Chunk, ChunkPage, parsing, chunking, embedding, asked_files,
  asked_document, asked_chunks, entered, History, Wait, IngestionError, unfinished, Service,
  Ingested, Attempt, again, ended, ask_files, ask_chunks, all_chunks_embedded, read_pages, finish,
  read_chunks, check_document, after_document, read_document, check_file, attempt, continue_with,
  attempts, wait_for_automated_ingestion,
}
use agent_workflow_fast_api.Ingestion.Pages.{
  IsPaged, Within, Within-after, Within-sleep_again, Within-refused, asked_page, Within-read_pages,
}

module _ (v : Service) (file_id : String) (bound : ℕ) (paged : IsPaged v bound) where
  Within-finish :
      (k : ℕ) (file : KnowledgeFile) (document : ParsedDocument) (page : ChunkPage)
      (items : List Chunk) (h : History)
      → length h < k
      → Within k (finish v file_id file document page items h)
  unfolding finish
  Within-finish k file document page items h l =
      elim (Bool-cases (all_chunks_embedded page.total items)) [
        | inl good ↦ rw good (omega arith)
        | inr bad ↦ rw bad (Within-sleep_again v file_id bound paged k h l)
      ]

  Within-read_chunks :
      (k : ℕ) (file : KnowledgeFile) (document : ParsedDocument) (h : History)
      → length h + 3 + bound ≤ k
      → Within k (read_chunks v file_id bound file document h)
  unfolding read_chunks
  Within-read_chunks k file document h l =
      Within-after v file_id bound paged k (ask_chunks v file_id none (entered embedding ∷ h)) _
        (Within-refused v file_id bound paged k
          (v.chunks none (asked_chunks none ∷ entered embedding ∷ h))
          (asked_chunks none ∷ entered embedding ∷ h) (omega arith))
        λ first h₁ got.
          let (answer, same) =
            asked_page v file_id bound paged none (entered embedding ∷ h) h₁ first got in
          let pages =
            Within-read_pages v file_id bound paged (length h + 2 + bound) bound first first.items
              h₁
              (λ n e. (
                paged.first (asked_chunks none ∷ entered embedding ∷ h) first n answer e,
                omega arith,
              ))
              (rw same (omega arith)) in
          after_pages first h₁ (read_pages v file_id bound first first.items h₁) pages
    where
      after_pages :
          (first : ChunkPage) (h₁ : History)
          (r : Result IngestionError (ChunkPage × List Chunk) × History)
          → Within (length h + 2 + bound) r
          → Within k (after r (λ pages. finish v file_id file document pages.0 pages.1))
      after_pages first h₁ (ok pages, h₂) w =
          Within-finish k file document pages.0 pages.1 h₂ (omega arith)
      after_pages first h₁ (err e, h₂) (n, w) = (n, omega arith)

  Within-check_document :
      (k : ℕ) (file : KnowledgeFile) (document : ParsedDocument) (h : History)
      → length h + 3 + bound ≤ k
      → Within k (check_document v file_id bound file document h)
  unfolding check_document
  Within-check_document k file document h l =
      elim (Bool-cases (document.chunk_status == "failed")) [
        | inl failed ↦ rw failed (cc, omega arith)
        | inr fine ↦ elim (Bool-cases (document.chunk_status == "ready")) [
          | inl ready ↦ rw (fine, ready) (Within-read_chunks k file document h l)
          | inr waiting ↦
              rw (fine, waiting)
                (Within-sleep_again v file_id bound paged k (entered chunking ∷ h) (omega arith))
        ]
      ]

  Within-after_document :
      (k : ℕ) (file : KnowledgeFile) (r : Result (Option ℕ) ParsedDocument) (h : History)
      → length h + 3 + bound ≤ k
      → Within k (after_document v file_id bound file r h)
  Within-after_document k file (ok document) h l = Within-check_document k file document h l
  Within-after_document k file (err status) h l = elim (Bool-cases (some_is status 404)) [
    | inl missing ↦
        rw missing (Within-sleep_again v file_id bound paged k (entered parsing ∷ h) (omega arith))
    | inr other ↦ rw other (cc, omega arith)
  ]

  Within-check_file :
      (k : ℕ) (o : Option KnowledgeFile) (h : History)
      → length h + 4 + bound ≤ k
      → Within k (check_file v file_id bound o h)
  unfolding check_file read_document
  Within-check_file k none h l = (cc, omega arith)
  Within-check_file k (some file) h l = elim (Bool-cases (file.status == "failed")) [
    | inl failed ↦ rw failed (cc, omega arith)
    | inr fine ↦ elim (Bool-cases (file.status == "ready")) [
      | inr waiting ↦
          rw (fine, waiting)
            (Within-sleep_again v file_id bound paged k (entered parsing ∷ h) (omega arith))
      | inl ready ↦
          rw (fine, ready)
            (Within-after_document k file (v.document (asked_document ∷ h)) (asked_document ∷ h)
              (omega arith))
    ]
  ]

  Within-attempt :
      (k : ℕ) (h : History) → length h + 5 + bound ≤ k → Within k (attempt v file_id bound h)
  unfolding attempt
  Within-attempt k h l =
      Within-after v file_id bound paged k (ask_files v file_id h) _
        (Within-refused v file_id bound paged k (v.files (asked_files ∷ h)) (asked_files ∷ h)
          (omega arith))
        λ files h₁ got.
          Within-check_file k (find? (λ f. f.file_id == file_id) files) h₁
            (rw (ap (λ r. length r.1) (sym got)) (omega arith))

  Within-continue_with :
      (j k : ℕ) (r : Result IngestionError Attempt × History) (rest : Wait Ingested)
      → Within j r
      → j ≤ k
      → ((h : History) → length h ≤ j → Within k (rest h))
      → Within k (after r (continue_with v file_id rest))
  Within-continue_with j k (ok again, h) rest w l each = each h w
  Within-continue_with j k (ok (ended x), h) rest w l each = omega arith
  Within-continue_with j k (err e, h) rest (n, w) l each = (n, omega arith)

  Within-attempts :
      (left k : ℕ) (h : History)
      → length h + left * (5 + bound) ≤ k
      → Within k (attempts v file_id bound left h)
  unfolding attempts
  Within-attempts zero k h l = (cc, omega arith)
  Within-attempts (suc left) k h l =
      Within-continue_with (length h + (5 + bound)) k (attempt v file_id bound h)
        (attempts v file_id bound left) (Within-attempt (length h + (5 + bound)) h (omega arith))
        (grind arith) (λ h₁ m. Within-attempts left k h₁ (grind arith))

Within-fuel :
    {A : Type 0} (k : ℕ) (r : Result IngestionError A × History)
    → Within k r
    → (r.0 ≢ err unfinished) × (length r.1 ≤ k)
Within-fuel k (ok a, h) w = (cc, w)
Within-fuel k (err e, h) (n, w) = (λ same. n (cc), w)

-- If the offsets that the service gives for the pages of chunks rise and stay below a bound, then the
-- fuel of `waitForAutomatedIngestion` does not run out when it is that bound, and the requests,
-- announced stages and sleeps are in all at most the attempts times five more than the bound.
pub wait_for_automated_ingestion_ends :
    (v : Service) (file_id : String) (bound max_attempts : ℕ) (h : History)
    → IsPaged v bound
    → let r = wait_for_automated_ingestion v file_id bound max_attempts h in
      (r.0 ≢ err unfinished) × (length r.1 ≤ length h + max_attempts * (5 + bound))
unfolding wait_for_automated_ingestion
wait_for_automated_ingestion_ends v file_id bound max_attempts h paged =
    Within-fuel (length h + max_attempts * (5 + bound)) _ (
      Within-attempts v file_id bound paged max_attempts (length h + max_attempts * (5 + bound)) h
        (omega arith))
