-- ===== src/Library/Chunks.antt =====
-- frontend/src/components/upload/knowledgeFileLibrary.tsx: `KnowledgeChunkSelector`, the chunks of one
-- document, with frontend/src/lib/knowledgeChunkAction.ts. A page is asked for in one turn and arrives in a
-- later one; a page that is on its way is not aborted.
use agent_workflow_fast_api.Base.{
  ℕ, suc, String, Bool, true, false, not, ◌&&◌, ◌||◌, List, [], ◌∷◌, map, Option, none, some, ◌≡◌,
  refl, arith, ◌==◌, string_eq, number_eq, ltb, if◌then◌else◌, all, contains, contains-set_of,
  ==-refl, ◌∙◌, set_add, set_delete, set_of, length, Result, ok, err,
}

pub record KnowledgeChunk : Type 0 where
  pub chunk_id : String
  pub is_embedded : Bool

pub data ChunkToast : Type 0 where
  chunks_embedded : ℕ → ChunkToast
  chunks_already_embedded : ChunkToast
  embedding_failed : String → ChunkToast

-- `completed` counts the calls of `onEmbeddingComplete`; `toasts` has the newest first.
pub record ChunkSelector : Type 0 where
  pub chunk_count : ℕ
  pub chunk_status : String
  pub offset : ℕ
  pub reload_index : ℕ
  pub chunk_page : Option (List KnowledgeChunk)
  pub selected_chunk_ids : List String
  pub is_loading : Bool
  pub is_embedding : Bool
  pub is_embedding_all : Bool
  pub error : Option String
  pub completed : ℕ
  pub toasts : List ChunkToast

-- `loadChunkPage` up to its request, and what follows an answer.
unfoldable pub load_chunk_page : ChunkSelector → ChunkSelector
load_chunk_page s = record s { is_loading = true; error = none; chunk_page = none }

unfoldable pub page_answered : Result String (List KnowledgeChunk) → ChunkSelector → ChunkSelector
page_answered (ok page) s = record s {
  chunk_page = some page;
  selected_chunk_ids = [];
  is_loading = false;
}
page_answered (err message) s = record s {
  chunk_page = none;
  error = some message;
  is_loading = false;
}

-- The effect of another status, count or offset.
unfoldable pub on_chunks : ChunkSelector → ChunkSelector
unfolding load_chunk_page
on_chunks s =
    if s.chunk_status == "processing"
    then record s { is_loading = true; error = none; chunk_page = none; selected_chunk_ids = [] }
    else if ltb 0 s.chunk_count
    then load_chunk_page s
    else record s { is_loading = false; error = none; chunk_page = none; selected_chunk_ids = [] }

abbrev pub ids_of : Option (List KnowledgeChunk) → List String
ids_of none = []
ids_of (some page) = map (λ chunk. chunk.chunk_id) page

unfoldable pub page_chunk_ids : ChunkSelector → List String
page_chunk_ids s = ids_of s.chunk_page

unfoldable pub all_page_chunks_selected : ChunkSelector → Bool
unfolding page_chunk_ids
all_page_chunks_selected s =
    ltb 0 (length (page_chunk_ids s))
    && all (λ id. contains s.selected_chunk_ids id) (page_chunk_ids s)

unfoldable pub toggle_page_selection : ChunkSelector → ChunkSelector
unfolding all_page_chunks_selected page_chunk_ids
toggle_page_selection s = record s {
  selected_chunk_ids = if all_page_chunks_selected s then [] else set_of (page_chunk_ids s);
}

unfoldable pub toggle_chunk_selection : String → ChunkSelector → ChunkSelector
toggle_chunk_selection id s = record s {
  selected_chunk_ids =
      if contains s.selected_chunk_ids id
      then set_delete s.selected_chunk_ids id
      else set_add s.selected_chunk_ids id;
}

abbrev pub embedding_failed_with : String → ChunkSelector → ChunkSelector
embedding_failed_with message s = record s {
  error = some message;
  toasts = embedding_failed message ∷ s.toasts;
  is_embedding = false;
}

abbrev pub embedded_with : ChunkToast → ChunkSelector → ChunkSelector
embedded_with toast s = record s {
  toasts = toast ∷ s.toasts;
  selected_chunk_ids = [];
  reload_index = suc s.reload_index;
  completed = suc s.completed;
  error = none;
  is_embedding = false;
}

-- The answer is the number of chunks that were embedded.
abbrev pub selected_embedded : Result String ℕ → ChunkSelector → ChunkSelector
selected_embedded (ok n) s = embedded_with (chunks_embedded n) s
selected_embedded (err message) s = embedding_failed_with message s

unfoldable pub embed_selected_chunks : Result String ℕ → ChunkSelector → ChunkSelector
embed_selected_chunks answer s =
    if length s.selected_chunk_ids == 0 || s.is_embedding then s else selected_embedded answer s

abbrev pub all_embedded : Result String ℕ → ChunkSelector → ChunkSelector
all_embedded (ok n) s =
    record (embedded_with (if n == 0 then chunks_already_embedded else chunks_embedded n) s) {
      is_embedding_all = false;
    }
all_embedded (err message) s = record (embedding_failed_with message s) { is_embedding_all = false }

unfoldable pub embed_all_chunks : Result String ℕ → ChunkSelector → ChunkSelector
embed_all_chunks answer s =
    if s.chunk_count == 0 || s.is_embedding then s else all_embedded answer s

unfoldable pub get_knowledge_chunk_display_status : String → ℕ → ℕ → String
get_knowledge_chunk_display_status chunk_status chunk_count embedded_chunk_count =
    if chunk_status == "ready" && (ltb 0 chunk_count && embedded_chunk_count == chunk_count)
    then "embedded"
    else chunk_status

all-members :
    (p : String → Bool) (ids : List String)
    → ((id : String) → contains ids id ≡ true → p id ≡ true)
    → all p ids ≡ true
all-members p [] h = refl
all-members p (id ∷ rest) h =
    let others = all-members p rest (λ j m. h j (ground arith)) in
    let own = h id (ground (arith, ==-refl id)) in ground arith

-- The page is selected as a whole, or not.
abbrev whole : List String → List String → Bool
whole ids chosen = ltb 0 (length ids) && all (λ id. contains chosen id) ids

whole-set_of : (id : String) (rest : List String) → whole (id ∷ rest) (set_of (id ∷ rest)) ≡ true
whole-set_of id rest =
    let each =
      all-members (λ j. contains (set_of (id ∷ rest)) j) (id ∷ rest)
        (λ j m. contains-set_of (id ∷ rest) j ∙ m) in
    ground arith

whole-none : (id : String) (rest : List String) → whole (id ∷ rest) [] ≡ false
whole-none id rest = ground arith

whole-toggled :
    (id : String) (rest : List String) (b : Bool)
    → whole (id ∷ rest) (if b then [] else set_of (id ∷ rest)) ≡ not b
whole-toggled id rest true = whole-none id rest
whole-toggled id rest false = whole-set_of id rest

-- On a page with a chunk, `togglePageSelection` selects all of the page's chunks if they were not all
-- selected, and else none of them.
all_page_chunks_selected-toggle_page_selection :
    (s : ChunkSelector) (id : String) (rest : List String)
    → page_chunk_ids s ≡ id ∷ rest
    → all_page_chunks_selected (toggle_page_selection s) ≡ not (all_page_chunks_selected s)
unfolding all_page_chunks_selected toggle_page_selection page_chunk_ids
all_page_chunks_selected-toggle_page_selection s id rest found =
    rw found (whole-toggled id rest (whole (id ∷ rest) s.selected_chunk_ids))
