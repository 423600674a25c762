-- ===== src/Ingestion/Readiness.antt =====
-- frontend/src/components/upload/automatedIngestion.mjs: a service that does its work in
-- time, and reading its pages.
use native.Mathlib.Decide.{dec_lt}
use agent_workflow_fast_api.Base.{
  ℕ, zero, suc, ◌+◌, ◌≤◌, ◌<◌, String, Bool, true, false, List, [], ◌∷◌, ◌++◌, Option, none, some,
  ◌≡◌, ◌⊎◌, refl, ap, arith, ◌==◌, string_eq, number_eq, find?, Result, ok, err, after, Bool-cases,
  Option-cases, inl, inr,
}
use agent_workflow_fast_api.Ingestion.Wait.{
  KnowledgeFile, ParsedDocument, Chunk, ChunkPage, asked_files, asked_document, asked_chunks,
  entered, slept, History, IngestionError, Service, Attempt, again, ended, sleep_again,
  all_chunks_embedded, read_pages, finish,
}
use agent_workflow_fast_api.Ingestion.Pages.{IsPaged}

-- How often the caller has slept.
abbrev pub sleeps : History → ℕ
sleeps [] = 0
sleeps (slept ∷ h) = suc (sleeps h)
sleeps (asked_files ∷ h) = sleeps h
sleeps (asked_document ∷ h) = sleeps h
sleeps (asked_chunks offset ∷ h) = sleeps h
sleeps (entered stage ∷ h) = sleeps h

-- The service answers all the time, never fails, and nobody aborts; after `k` sleeps the file and its
-- chunks are ready, and one page has all the chunks, embedded.
pub record IsReadyAfter (v : Service) (file_id : String) (k bound : ℕ) : Type 0 where
  pub calm : (h : History) → v.aborts h ≡ false
  pub file :
      (h : History)
      → (files : List KnowledgeFile) × (f : KnowledgeFile) × (v.files h ≡ ok files)
        × (find? (λ f. f.file_id == file_id) files ≡ some f)
        × ((f.status == "failed") ≡ false)
        × (k ≤ sleeps h → (f.status == "ready") ≡ true)
  pub document :
      (h : History)
      → ((v.document h ≡ err (some 404)) × (sleeps h < k))
        ⊎ ((d : ParsedDocument) × (v.document h ≡ ok d)
            × ((d.chunk_status == "failed") ≡ false)
            × (k ≤ sleeps h → (d.chunk_status == "ready") ≡ true))
  pub pages : (offset : Option ℕ) (h : History) → (page : ChunkPage) × (v.chunks offset h ≡ ok page)
  pub whole :
      (h : History) (page : ChunkPage)
      → k ≤ sleeps h
      → v.chunks none h ≡ ok page
      → (page.next_offset ≡ none) × (all_chunks_embedded page.total page.items ≡ true)
  pub paged : IsPaged v bound

-- An attempt ends the wait, or it sleeps once because the service is not ready.
abbrev pub Progress : ℕ → ℕ → Result IngestionError Attempt × History → Type 0
Progress k n (ok (ended r), h) = Unit
Progress k n (ok again, h) = (n < k) × (sleeps h ≡ suc n)
Progress k n (err e, h) = ⊥

-- The pages are read, with no sleep, and if no page follows the first, that is all.
abbrev pub Steady :
    ℕ
    → Option ℕ
    → ChunkPage × List Chunk
    → Result IngestionError (ChunkPage × List Chunk) × History
    → Type 0
Steady n o whole (ok pages, h) = (sleeps h ≡ n) × (o ≡ none → pages ≡ whole)
Steady n o whole (err e, h) = ⊥

Steady-more :
    (n m : ℕ) (o : Option ℕ) (whole first : ChunkPage × List Chunk)
    (r : Result IngestionError (ChunkPage × List Chunk) × History)
    → Steady n o whole r
    → Steady n (some m) first r
Steady-more n m o whole first (ok pages, h) (same, all) = (same, λ f. cc)
Steady-more n m o whole first (err e, h) s = s

module _ (v : Service) (file_id : String) (k bound : ℕ)
    (ready : IsReadyAfter v file_id k bound) where
  pub Progress-sleep_again :
      (n : ℕ) (h : History) → sleeps h ≡ n → n < k → Progress k n (sleep_again v file_id h)
  unfolding sleep_again
  Progress-sleep_again n h same l = rw (ready.calm (slept ∷ h)) (l, ap suc same)

  pub Steady-read_pages :
      (n fuel : ℕ) (page : ChunkPage) (items : List Chunk) (h : History)
      → ((m : ℕ) → page.next_offset ≡ some m → (m < bound) × (bound ≤ m + fuel))
      → sleeps h ≡ n
      → Steady n page.next_offset (page, items) (read_pages v file_id fuel page items h)
  unfolding read_pages
  Steady-read_pages n zero page items h covers same = elim (Option-cases page.next_offset) [
    | inl e ↦ rw e (same, λ f. refl)
    | inr (m, e) ↦ absurd (omega (arith, covers m e))
  ]
  Steady-read_pages n (suc fuel) page items h covers same = elim (Option-cases page.next_offset) [
    | inl e ↦ rw e (same, λ f. refl)
    | inr (m, e) ↦
        let (next, answer) = ready.pages (some m) (asked_chunks (some m) ∷ h) in
        let rest =
          Steady-read_pages n fuel next (items ++ next.items) (asked_chunks (some m) ∷ h)
            (λ l f.
              let rise = ready.paged.later m (asked_chunks (some m) ∷ h) next l answer f in
              omega (arith, covers m e))
            same in
        rw (e, answer) (Steady-more n m next.next_offset (next, items ++ next.items) _ _ rest)
  ]

  -- What holds from the `k`-th sleep on and does not hold yet.
  pub early : (n : ℕ) (b : Bool) → (k ≤ n → b ≡ true) → b ≡ false → n < k
  early n b after_k e = elim (dec_lt n k) [
    | yes l ↦ l
    | no m ↦ let now : b ≡ true = after_k (omega arith) in absurd (ground arith)
  ]

  Progress-finish :
      (n : ℕ) (file : KnowledgeFile) (document : ParsedDocument) (page : ChunkPage)
      (items : List Chunk) (h : History)
      → sleeps h ≡ n
      → (k ≤ n → all_chunks_embedded page.total items ≡ true)
      → Progress k n (finish v file_id file document page items h)
  unfolding finish
  Progress-finish n file document page items h same whole =
      elim (Bool-cases (all_chunks_embedded page.total items)) [
        | inl good ↦ rw good tt
        | inr bad ↦ rw bad (
            Progress-sleep_again n h same
              (early n (all_chunks_embedded page.total items) whole bad))
      ]

  pub Progress-pages :
      (n : ℕ) (file : KnowledgeFile) (document : ParsedDocument) (first : ChunkPage)
      (r : Result IngestionError (ChunkPage × List Chunk) × History)
      → (k ≤ n → (first.next_offset ≡ none) × (all_chunks_embedded first.total first.items ≡ true))
      → Steady n first.next_offset (first, first.items) r
      → Progress k n (after r (λ pages. finish v file_id file document pages.0 pages.1))
  Progress-pages n file document first (err e, h) whole s = s
  Progress-pages n file document first (ok pages, h) whole (same, all) =
      Progress-finish n file document pages.0 pages.1 h same
        λ l. let (last, good) = whole l in rw (all last) good
