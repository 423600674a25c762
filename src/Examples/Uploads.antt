-- ===== src/Examples/Uploads.antt =====
-- A service that has a file ready from the start and needs two sleeps for its chunks.
use agent_workflow_fast_api.Base.{
  ℕ, zero, suc, ◌≤◌, ◌+◌, ◌*◌, String, true, false, [], ◌∷◌, Option, none, some, ◌≡◌, ◌≢◌, refl,
  string_eq, number_eq, some_is, length, Result, ok, err,
}
use agent_workflow_fast_api.Ingestion.Wait.{
  KnowledgeFile, ParsedDocument, ChunkPage, History, Service, Ingested, IngestionError, unfinished,
  all_chunks_embedded, wait_for_automated_ingestion, sleep_again, read_pages, finish, read_chunks,
  check_document, read_document, check_file, attempt, attempts,
}
use agent_workflow_fast_api.Ingestion.Done.{IsDone, wait_for_automated_ingestion-IsDone}
use agent_workflow_fast_api.Ingestion.Pages.{IsPaged}
use agent_workflow_fast_api.Ingestion.Bounds.{wait_for_automated_ingestion_ends}
use agent_workflow_fast_api.Ingestion.Readiness.{sleeps}

abbrev uploaded : KnowledgeFile
uploaded = record { file_id = "f1"; status = "ready"; error_message = none }

abbrev parsed : String → ParsedDocument
parsed status = record { chunk_status = status; chunk_error_message = none }

abbrev chunk_page : ChunkPage
chunk_page = record {
  items = record { chunk_id = "c1"; is_embedded = true } ∷ [];
  next_offset = none;
  total = 1;
}

abbrev document_after : ℕ → Result (Option ℕ) ParsedDocument
document_after zero = err (some 404)
document_after (suc zero) = ok (parsed "pending")
document_after (suc (suc n)) = ok (parsed "ready")

abbrev library : Service
library = record {
  files = λ h. ok (uploaded ∷ []);
  document = λ h. document_after (sleeps h);
  chunks = λ offset h. ok chunk_page;
  aborts = λ h. false;
}

library-IsPaged : IsPaged library 1
library-IsPaged = record { first = λ h page n e f. cc; later = λ offset h page n e f. cc }

abbrev run : Result IngestionError Ingested × History
run = wait_for_automated_ingestion library "f1" 1 3 []

-- Opens what a wait computes with.
waits : Unit {0}
unfolding wait_for_automated_ingestion attempts attempt check_file read_document check_document
    read_chunks finish read_pages sleep_again all_chunks_embedded some_is
waits = tt

wait_for_automated_ingestion_ends_example :
    (run.0 ≢ err unfinished) × (length run.1 ≤ 0 + 3 * (5 + 1))
wait_for_automated_ingestion_ends_example =
    wait_for_automated_ingestion_ends library "f1" 1 3 [] library-IsPaged

wait_for_automated_ingestion-IsDone_example :
    IsDone library "f1"
      (record {
        file = uploaded;
        document = parsed "ready";
        page = chunk_page;
        items = chunk_page.items;
      })
      run.1
unfolding waits
wait_for_automated_ingestion-IsDone_example =
    wait_for_automated_ingestion-IsDone library "f1" 1 3 [] _ _ refl

two_sleeps : ◌≡◌ {A = ℕ} (sleeps run.1) 2
unfolding waits
two_sleeps = refl
