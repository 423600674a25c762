-- ===== src/Ingestion/Pages.antt =====
-- frontend/src/components/upload/automatedIngestion.mjs: the loop over the pages of chunks, and how much it
-- does.
use agent_workflow_fast_api.Base.{
  ℕ, zero, suc, ◌+◌, ◌≤◌, ◌<◌, String, List, ◌∷◌, ◌++◌, Option, none, some, ◌≡◌, ◌≢◌, refl, arith,
  string_eq, number_eq, length, Result, ok, err, after, Bool-cases, Option-cases, inl, inr,
}
use agent_workflow_fast_api.Ingestion.Wait.{
  Chunk, ChunkPage, asked_chunks, slept, History, Wait, IngestionError, unfinished, Service,
  or_refused, ask_chunks, sleep_again, read_pages,
}

-- The offsets that the service gives rise, and stay below a bound.
pub record IsPaged (v : Service) (bound : ℕ) : Type 0 where
  pub first :
      (h : History) (page : ChunkPage) (n : ℕ)
      → v.chunks none h ≡ ok page
      → page.next_offset ≡ some n
      → n < bound
  pub later :
      (offset : ℕ) (h : History) (page : ChunkPage) (n : ℕ)
      → v.chunks (some offset) h ≡ ok page
      → page.next_offset ≡ some n
      → (offset < n) × (n < bound)

-- The fuel has not run out, and not more was done in all.
abbrev pub Within : {A : Type 0} → ℕ → Result IngestionError A × History → Type 0
Within k (ok a, h) = length h ≤ k
Within k (err e, h) = (e ≢ unfinished) × (length h ≤ k)

module _ (v : Service) (file_id : String) (bound : ℕ) (paged : IsPaged v bound) where
  pub Within-after :
      {A B : Type 0} (k : ℕ) (r : Result IngestionError A × History) (f : A → Wait B)
      → Within k r
      → ((a : A) (h : History) → r ≡ (ok a, h) → Within k (f a h))
      → Within k (after r f)
  Within-after k (ok a, h) f w each = each a h refl
  Within-after k (err e, h) f w each = w

  pub Within-sleep_again : (k : ℕ) (h : History) → length h < k → Within k (sleep_again v file_id h)
  unfolding sleep_again
  Within-sleep_again k h l = elim (Bool-cases (v.aborts (slept ∷ h))) [
    | inl a ↦ rw a (cc, omega arith)
    | inr a ↦ rw a (omega arith)
  ]

  pub Within-refused :
      {A : Type 0} (k : ℕ) (r : Result (Option ℕ) A) (h : History)
      → length h ≤ k
      → Within k (or_refused r, h)
  Within-refused k (ok a) h l = l
  Within-refused k (err e) h l = (cc, l)

  -- The fuel covers the offsets that are left.
  abbrev pub Covers : ℕ → ChunkPage → Type 0
  Covers fuel page = (n : ℕ) → page.next_offset ≡ some n → (n < bound) × (bound ≤ n + fuel)

  pub asked_page :
      (offset : Option ℕ) (h h' : History) (page : ChunkPage)
      → ask_chunks v file_id offset h ≡ (ok page, h')
      → (v.chunks offset (asked_chunks offset ∷ h) ≡ ok page) × (h' ≡ asked_chunks offset ∷ h)
  asked_page offset h h' page e = by_result (v.chunks offset (asked_chunks offset ∷ h)) e
    where
      by_result :
          (r : Result (Option ℕ) ChunkPage)
          → ◌≡◌ {A = Result IngestionError ChunkPage × History}
              (or_refused r, asked_chunks offset ∷ h)
              (ok page, h')
          → (r ≡ ok page) × (h' ≡ asked_chunks offset ∷ h)
      by_result (ok a) q = (ground arith, ground arith)
      by_result (err x) q = cc

  pub Within-read_pages :
      (k fuel : ℕ) (page : ChunkPage) (items : List Chunk) (h : History)
      → Covers fuel page
      → length h + fuel ≤ k
      → Within k (read_pages v file_id fuel page items h)
  unfolding read_pages
  Within-read_pages k zero page items h covers l = elim (Option-cases page.next_offset) [
    | inl e ↦ rw e (omega arith)
    | inr (n, e) ↦ absurd (omega (arith, covers n e))
  ]
  Within-read_pages k (suc fuel) page items h covers l = elim (Option-cases page.next_offset) [
    | inl e ↦ rw e (omega arith)
    | inr (n, e) ↦ rw e (
        Within-after k (ask_chunks v file_id (some n) h) _
          (Within-refused k (v.chunks (some n) (asked_chunks (some n) ∷ h))
            (asked_chunks (some n) ∷ h) (omega arith))
          λ next h' got.
            let (answer, same) = asked_page (some n) h h' next got in
            Within-read_pages k fuel next (items ++ next.items) h'
              (λ m f.
                let rise = paged.later n (asked_chunks (some n) ∷ h) next m answer f in
                omega (arith, covers n e))
              (rw same (omega arith)))
  ]
