-- ===== src/Ingestion/Trace.antt =====
-- frontend/src/components/upload/automatedIngestion.mjs: what the loop over the pages of chunks has
-- read, and what its test of the chunks means.
use mathlib.Core.List.{append_assoc, append-nil}
use agent_workflow_fast_api.Base.{
  ◌≤◌, ◌⊎◌, true, ◌==◌, length, all, All, Bool-cases, ℕ, zero, suc, String, List, [], ◌∷◌, ◌++◌,
  Option, none, some, ◌≡◌, sym, ap, ◌∙◌, subst, arith, string_eq, number_eq, Result, ok, err,
  >>=-eq-ok, Option-cases, inl, inr,
}
use agent_workflow_fast_api.Ingestion.Wait.{
  all_chunks_embedded, Chunk, ChunkPage, asked_chunks, History, IngestionError, Service, or_refused,
  ask_chunks, read_pages,
}

-- The pages that the service gives after a page, each at the offset that the page before it names, up
-- to one that names none: their chunks one after the other, the last of them, and the history then.
pub data PagesAfter (v : Service)
    : ChunkPage → History → List Chunk → ChunkPage → History → Type 0 where
  no_more :
      {page : ChunkPage} {h : History} → page.next_offset ≡ none → PagesAfter v page h [] page h
  one_more :
      {page next end : ChunkPage} {h h' : History} {offset : ℕ} {rest : List Chunk}
      → page.next_offset ≡ some offset
      → v.chunks (some offset) (asked_chunks (some offset) ∷ h) ≡ ok next
      → PagesAfter v next (asked_chunks (some offset) ∷ h) rest end h'
      → PagesAfter v page h (next.items ++ rest) end h'

all-All :
    (items : List Chunk)
    → all (λ c. c.is_embedded) items ≡ true
    → All (λ c. c.is_embedded ≡ true) items
all-All [] h = tt
all-All (c ∷ items) h = (ground arith, all-All items (ground arith))

pub all_chunks_embedded_sound :
    (total : ℕ) (items : List Chunk)
    → all_chunks_embedded total items ≡ true
    → (total ≡ 0) ⊎ ((total ≤ length items) × All (λ c. c.is_embedded ≡ true) items)
unfolding all_chunks_embedded
all_chunks_embedded_sound total items h = elim (Bool-cases (total == 0)) [
  | inl e ↦ inl (ground arith)
  | inr e ↦ inr (ground arith, all-All items (ground arith))
]

-- A request that gave its data was answered with it.
pub or_refused-eq-ok :
    {A : Type 0} (r : Result (Option ℕ) A) (g h : History) (a : A)
    → ◌≡◌ {A = Result IngestionError A × History} (or_refused r, g) (ok a, h)
    → (r ≡ ok a) × (h ≡ g)
or_refused-eq-ok (ok b) g h a e = (ground arith, ground arith)
or_refused-eq-ok (err x) g h a e = cc

pair_parts :
    {A : Type 0} (a b : A) (g h : History)
    → ◌≡◌ {A = Result IngestionError A × History} (ok a, g) (ok b, h)
    → (b ≡ a) × (h ≡ g)
pair_parts a b g h e = (cc, cc)

module _ (v : Service) (file_id : String) where
  at_end :
      (page : ChunkPage) (items : List Chunk) (h h' : History) (out : ChunkPage × List Chunk)
      → page.next_offset ≡ none
      → ◌≡◌ {A = Result IngestionError (ChunkPage × List Chunk) × History}
          (ok (page, items), h)
          (ok out, h')
      → (rest : List Chunk) × (out.1 ≡ items ++ rest) × PagesAfter v page h rest out.0 h'
  at_end page items h h' out n e =
      let (same, held) = pair_parts (page, items) out h h' e in
      (
        [],
        ap (λ x. x.1) same ∙ sym (append-nil items),
        subst (PagesAfter v page h [] out.0) (sym held)
            (subst (λ x. PagesAfter v page h [] x h) (sym (ap (λ x. x.0) same)) (no_more n)),
      )

  -- What the loop returns is what it was given and then the chunks of all the pages after it.
  pub read_pages-PagesAfter :
      (fuel : ℕ) (page : ChunkPage) (items : List Chunk) (h h' : History)
      (out : ChunkPage × List Chunk)
      → read_pages v file_id fuel page items h ≡ (ok out, h')
      → (rest : List Chunk) × (out.1 ≡ items ++ rest) × PagesAfter v page h rest out.0 h'
  unfolding read_pages
  read_pages-PagesAfter zero page items h h' out e = elim (Option-cases page.next_offset) [
    | inl n ↦ at_end page items h h' out n (rw (n, read_pages) at e)
    | inr (offset, n) ↦ absurd (refused (rw (n, read_pages) at e))
  ]
    where
      refused :
          {x : IngestionError}
          → ◌≡◌ {A = Result IngestionError (ChunkPage × List Chunk) × History}
              (err x, h)
              (ok out, h')
          → ⊥
      refused q = cc
  read_pages-PagesAfter (suc fuel) page items h h' out e = elim (Option-cases page.next_offset) [
    | inl n ↦ at_end page items h h' out n (rw (n, read_pages) at e)
    | inr (offset, n) ↦
        let (next, u, got, later) =
          >>=-eq-ok (ask_chunks v file_id (some offset))
            (λ next. read_pages v file_id fuel next (items ++ next.items)) h
            (rw (n, read_pages) at e) in
        let (answer, held) = or_refused-eq-ok _ (asked_chunks (some offset) ∷ h) u next got in
        let (rest, all, read) =
          read_pages-PagesAfter fuel next (items ++ next.items) u h' out later in
        (
          next.items ++ rest,
          all ∙ append_assoc items next.items rest,
          one_more n answer (subst (λ g. PagesAfter v next g rest out.0 h') held read),
        )
  ]
