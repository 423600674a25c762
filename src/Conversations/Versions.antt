-- ===== src/Conversations/Versions.antt =====
-- frontend/src/lib/db/queries.ts: `updateDocumentContent`, which changes the newest version of a
-- document.
use native.Mathlib.Bridge.{le_prop}
use mathlib.Core.List.{Mem, Perm, Pairwise, Pairwise-cons, mem-cons, mem-cons_self}
use mathlib.Core.List.Perm
use mathlib.Core.Logic.Or
use agent_workflow_fast_api.Base.{
  ℕ, suc, ◌≤◌, String, true, ◌&&◌, List, [], ◌∷◌, map, some, ◌≡◌, refl, arith, ◌==◌, string_eq,
  number_eq, if◌then◌else◌, filter, head?, take, Result, ok, err,
}
use agent_workflow_fast_api.Conversations.Errors.{ChatbotError}
use agent_workflow_fast_api.Conversations.Tables.{Tables, Document}
use agent_workflow_fast_api.Conversations.Statements.{
  Server, Store, rethrown, statement, not_found_database,
}
use agent_workflow_fast_api.Conversations.Queries.{
  versions_of, update_documents, update_latest, update_document_content,
}

-- The user's versions of the document.
abbrev pub own_versions : String → String → Tables → List Document
own_versions id user_id t = filter (λ d. d.id == id && d.user_id == user_id) t.documents

-- The outcomes of `updateDocumentContent`.
abbrev pub Updated :
    String → String → String → Tables → Result ChatbotError (List Document) × Store → Type 0
Updated id content user_id t (err e, s) =
    (own_versions id user_id t ≡ [])
    × (e ≡ not_found_database "Document not found")
    × (s.tables ≡ t)
Updated id content user_id t (ok docs, s) =
    (latest : Document) × Mem latest (own_versions id user_id t)
    × ((d : Document) → Mem d (own_versions id user_id t) → d.created_at ≤ latest.created_at)
    × (s.tables ≡ record t {
      documents =
          map
            (λ d.
              if d.id == id && (d.created_at == latest.created_at && d.user_id == user_id)
              then record d { content = some content }
              else d)
            t.documents;
    })

-- The first row of a newest-first list is the newest.
first_newest :
    (a : Document) (l : List Document)
    → Pairwise (λ a b. b.created_at ≤ a.created_at) (a ∷ l)
    → (d : Document) → Mem d (a ∷ l)
    → d.created_at ≤ a.created_at
first_newest a l h d m =
    Or.elim le_prop (mem-cons.0 m) (λ s. rw s (omega arith)) ((Pairwise-cons.0 h).0 d)

module _ (p : Server) (id content user_id : String) (online : (n : ℕ) → p.online n ≡ true) where
  from_versions :
      (s : Store) (sorted : List Document)
      → Perm sorted (own_versions id user_id s.tables)
      → Pairwise (λ a b. b.created_at ≤ a.created_at) sorted
      → Updated id content user_id s.tables
          (rethrown (update_latest p id content user_id (head? (take 1 sorted)) s))
  unfolding update_latest statement update_documents
  from_versions s [] perm order = (Perm.eq-nil (Perm.symm perm), refl, refl)
  from_versions s (latest ∷ rest) perm order = rw (online s.statements) (
    latest,
    (Perm.mem_iff perm).0 mem-cons_self,
    λ d m. first_newest latest rest order d ((Perm.mem_iff perm).1 m),
    refl,
  )

-- If every statement is served, `updateDocumentContent` puts the content into the row of the newest of
-- the user's versions of the document (the row with its id, time and user) and changes no other; if the
-- user has no version, it fails with the error `not_found:database` and changes nothing.
pub update_document_content_lem :
    (p : Server) (id content user_id : String) (s : Store) (online : (n : ℕ) → p.online n ≡ true)
    → Updated id content user_id s.tables (update_document_content p id content user_id s)
unfolding update_document_content statement
update_document_content_lem p id content user_id s online = rw (online s.statements) (
    from_versions p id content user_id online (record s { statements = suc s.statements })
      (versions_of p id user_id s.tables) (p.engine.desc-perm Document (λ d. d.created_at) _)
      (p.engine.desc-sorted Document (λ d. d.created_at) _))
