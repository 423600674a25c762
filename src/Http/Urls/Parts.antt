-- ===== src/Http/Urls/Parts.antt =====
-- frontend/src/lib/backend/directClient.ts: the parts of a path between its slashes.
use Prim.Native.Char.{Char, code}
use Prim.Native.String
use Prim.Native.String.append
use text.Mathlib.TextEquality.{Char-path}
use text.Mathlib.TextLemmas.{append_assoc}
use agent_workflow_fast_api.Base.{
  String, Bool, true, false, ◌||◌, List, [], ◌∷◌, ◌++◌, ◌≡◌, refl, sym, ap, ◌∙◌, subst, arith, ◌==◌,
  eq_of_==, string_eq, number_eq, Bool-cases, inl, inr, All,
}
use agent_workflow_fast_api.Http.Urls.Mapping.{split_path}

abbrev pub has_slash : String → Bool
has_slash String.[] = false
has_slash (String.◌∷◌ c s) = code c == b'/' || has_slash s

-- The parts with a slash between each two.
abbrev pub join_path : List String → String
join_path [] = ""
join_path (word ∷ []) = word
join_path (word ∷ next ∷ words) = String.◌++◌ word (String.◌++◌ "/" (join_path (next ∷ words)))

abbrev slash : Char
slash = "/"

split_path-cons :
    (s : String) → (word : String) × (words : List String) × (split_path s ≡ word ∷ words)
unfolding split_path
split_path-cons String.[] = ("", [], refl)
split_path-cons (String.◌∷◌ c s) =
    let (word, words, e) = split_path-cons s in
    elim (Bool-cases (code c == b'/')) [
      | inl h ↦ rw (h, e) ("", word ∷ words, refl)
      | inr h ↦ rw (h, e) (String.◌∷◌ c word, words, refl)
    ]

slash_front : (c : Char) (s : String) → (code c == b'/') ≡ true → String.◌++◌ "/" s ≡ String.◌∷◌ c s
slash_front c s h =
    append.cons slash "" s
    ∙ ap (String.◌∷◌ slash) (append.nil s)
    ∙ ap (λ d. String.◌∷◌ d s) (Char-path slash c (sym (eq_of_== (code c) b'/' h)))

join_push :
    (c : Char) (word : String) (words : List String)
    → join_path (String.◌∷◌ c word ∷ words) ≡ String.◌∷◌ c (join_path (word ∷ words))
join_push c word [] = refl
join_push c word (next ∷ words) = append.cons c word _

-- The parts joined are the path.
pub join_path-split_path : (s : String) → join_path (split_path s) ≡ s
unfolding split_path
join_path-split_path String.[] = refl
join_path-split_path (String.◌∷◌ c s) =
    let (word, words, e) = split_path-cons s in
    let whole : join_path (word ∷ words) ≡ s = ap join_path (sym e) ∙ join_path-split_path s in
    elim (Bool-cases (code c == b'/')) [
      | inl h ↦ rw (h, e) (append.nil _ ∙ ap (String.◌++◌ "/") whole ∙ slash_front c s h)
      | inr h ↦ rw (h, e) (join_push c word words ∙ ap (String.◌∷◌ c) whole)
    ]

-- No part has a slash.
pub split_path-words : (s : String) → All (λ word. has_slash word ≡ false) (split_path s)
unfolding split_path
split_path-words String.[] = (refl, tt)
split_path-words (String.◌∷◌ c s) =
    let (word, words, e) = split_path-cons s in
    let rest : All (λ w. has_slash w ≡ false) (word ∷ words) =
      subst (All (λ w. has_slash w ≡ false)) e (split_path-words s) in
    elim (Bool-cases (code c == b'/')) [
      | inl h ↦ rw (h, e) (refl, rest)
      | inr h ↦ rw (h, e) (rw h rest.0, rest.1)
    ]

pub split_path-word : (s : String) → has_slash s ≡ false → split_path s ≡ s ∷ []
unfolding split_path
split_path-word String.[] h = refl
split_path-word (String.◌∷◌ c s) h =
    let other : (code c == b'/') ≡ false = ground arith in
    rw (other, split_path-word s (ground arith)) refl

pub split_path-append :
    (s t : String) → split_path (String.◌++◌ s (String.◌++◌ "/" t)) ≡ split_path s ++ split_path t
unfolding split_path
split_path-append String.[] t =
    ap split_path (append.nil (String.◌++◌ "/" t) ∙ slash_front slash t refl)
split_path-append (String.◌∷◌ c s) t =
    let (word, words, e) = split_path-cons s in
    let whole : split_path (String.◌++◌ s (String.◌++◌ "/" t)) ≡ word ∷ (words ++ split_path t) =
      split_path-append s t ∙ ap (λ l. l ++ split_path t) e in
    ap split_path (append.cons c s (String.◌++◌ "/" t)) ∙ elim (Bool-cases (code c == b'/')) [
      | inl h ↦ rw (h, whole, e) refl
      | inr h ↦ rw (h, whole, e) refl
    ]

abbrev stream_path : String → String
stream_path id = String.◌++◌ "/api/chat/" (String.◌++◌ id "/stream")

-- The path of a stream has these parts, and no other path has.
pub split_path-stream :
    (id : String)
    → has_slash id ≡ false
    → split_path (stream_path id) ≡ "" ∷ "api" ∷ "chat" ∷ id ∷ "stream" ∷ []
unfolding split_path
split_path-stream id h =
    ap split_path (append_assoc "/api/chat" "/" (String.◌++◌ id "/stream"))
    ∙ split_path-append "/api/chat" (String.◌++◌ id "/stream")
    ∙ ap (λ l. "" ∷ "api" ∷ "chat" ∷ l)
        (split_path-append id "stream" ∙ ap (λ l. l ++ ("stream" ∷ [])) (split_path-word id h))

pub stream-split_path :
    (path id : String)
    → split_path path ≡ "" ∷ "api" ∷ "chat" ∷ id ∷ "stream" ∷ []
    → (path ≡ stream_path id) × (has_slash id ≡ false)
stream-split_path path id e =
    let words = subst (All (λ word. has_slash word ≡ false)) e (split_path-words path) in
    (sym (join_path-split_path path) ∙ ap join_path e ∙ together, words.1.1.1.0)
  where
    tail : String
    tail = String.◌++◌ id "/stream"

    together : join_path ("" ∷ "api" ∷ "chat" ∷ id ∷ "stream" ∷ []) ≡ stream_path id
    together =
        append.nil _
        ∙ ap (String.◌++◌ "/") (ap (String.◌++◌ "api") (sym (append_assoc "/" "chat" _)))
        ∙ ap (String.◌++◌ "/") (sym (append_assoc "api" "/chat" _))
        ∙ sym (append_assoc "/" "api/chat" _)
        ∙ sym (append_assoc "/api/chat" "/" tail)
