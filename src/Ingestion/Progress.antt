-- ===== src/Ingestion/Progress.antt =====
-- frontend/src/components/upload/automatedIngestion.mjs: that `waitForAutomatedIngestion` succeeds when
-- the service does its work in time.
use agent_workflow_fast_api.Base.{ℕ, String, string_eq, number_eq, Result, ok, err}
use agent_workflow_fast_api.Ingestion.Wait.{History, Wait, IngestionError, Service, Ingested}
use agent_workflow_fast_api.Ingestion.Readiness.{IsReadyAfter}

module _ (v : Service) (file_id : String) (k bound : ℕ)
    (ready : IsReadyAfter v file_id k bound) where
  abbrev Succeeds : Result IngestionError Ingested × History → Type 0
  Succeeds (ok r, h) = Unit
  Succeeds (err e, h) = ⊥
