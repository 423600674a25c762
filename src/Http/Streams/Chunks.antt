-- ===== src/Http/Streams/Chunks.antt =====
-- frontend/src/lib/backend/request.ts: where the network cuts an event stream.
use mathlib.Core.List.{append_assoc, append-nil, append_cancel_left}
use agent_workflow_fast_api.Base.{
  ℕ, ◌&&◌, List, [], ◌∷◌, ◌++◌, Option, ◌≡◌, ◌≢◌, refl, sym, ap, ◌∙◌, ◌==◌, number_eq, Bool-cases,
  inl, inr,
}
use agent_workflow_fast_api.Http.Streams.Frames.{Text, newline, onto_first, split_frames, pop}
use agent_workflow_fast_api.Http.Streams.Events.{frame_events, stream_events}

-- The text of a list of reads.
abbrev pub concat : List Text → Text
concat [] = []
concat (chunk ∷ chunks) = chunk ++ concat chunks

onto_first-ne-nil : (c : ℕ) (parts : List Text) → onto_first c parts ≢ []
onto_first-ne-nil c [] = cc
onto_first-ne-nil c (p ∷ ps) = cc

pub split_frames-ne-nil : (s : Text) → split_frames s ≢ []
unfolding split_frames
split_frames-ne-nil [] = cc
split_frames-ne-nil (c ∷ []) = cc
split_frames-ne-nil (c ∷ d ∷ s) = elim (Bool-cases (c == newline && d == newline)) [
  | inl e ↦ rw e (cc)
  | inr e ↦ rw e (onto_first-ne-nil c (split_frames (d ∷ s)))
]

pub pop-cons :
    (frame : Text) (frames : List Text)
    → frames ≢ []
    → pop (frame ∷ frames) ≡ (frame ∷ (pop frames).0, (pop frames).1)
unfolding pop
pop-cons frame [] n = absurd (n refl)
pop-cons frame (next ∷ frames) n = refl

one_onto_first :
    (c : ℕ) (parts : List Text) (x u : Text)
    → parts ≢ []
    → ((y : Text) → parts ≡ y ∷ [] → y ≡ u)
    → onto_first c parts ≡ x ∷ []
    → x ≡ c ∷ u
one_onto_first c [] x u n one h = absurd (n refl)
one_onto_first c (y ∷ []) x u n one h = cc (one y refl)
one_onto_first c (y ∷ z ∷ parts) x u n one h = cc

-- A text that is one frame is that frame.
split_frames_one : (s x : Text) → split_frames s ≡ x ∷ [] → x ≡ s
unfolding split_frames
split_frames_one [] x h = cc
split_frames_one (c ∷ []) x h = cc
split_frames_one (c ∷ d ∷ s) x h = elim (Bool-cases (c == newline && d == newline)) [
  | inl e ↦
      let more : ([] ∷ split_frames s) ≡ x ∷ [] = rw e at h in absurd (split_frames-ne-nil s (cc))
  | inr e ↦
      one_onto_first c (split_frames (d ∷ s)) x (d ∷ s) (split_frames-ne-nil (d ∷ s))
        (split_frames_one (d ∷ s)) (rw e at h)
]

-- The complete frames of a text stay what they are whatever follows, and the rest of it is split with
-- what follows.
IsCut : List Text → Text → List Text → Type 0
IsCut parts t whole = whole ≡ (pop parts).0 ++ split_frames ((pop parts).1 ++ t)

IsCut-onto_first :
    (c : ℕ) (parts : List Text) (u t : Text)
    → parts ≢ []
    → ((y : Text) → parts ≡ y ∷ [] → y ≡ u)
    → split_frames (c ∷ (u ++ t)) ≡ onto_first c (split_frames (u ++ t))
    → IsCut parts t (split_frames (u ++ t))
    → IsCut (onto_first c parts) t (onto_first c (split_frames (u ++ t)))
unfolding IsCut pop
IsCut-onto_first c [] u t n one uncut h = absurd (n refl)
IsCut-onto_first c (x ∷ []) u t n one uncut h = rw (one x refl) (sym uncut)
IsCut-onto_first c (x ∷ y ∷ parts) u t n one uncut h = ap (onto_first c) h

split_frames-IsCut : (s t : Text) → IsCut (split_frames s) t (split_frames (s ++ t))
unfolding split_frames pop IsCut
split_frames-IsCut [] t = refl
split_frames-IsCut (c ∷ []) t = refl
split_frames-IsCut (c ∷ d ∷ s) t = elim (Bool-cases (c == newline && d == newline)) [
  | inl e ↦
      rw (e, pop-cons [] (split_frames s) (split_frames-ne-nil s))
        (ap (λ r. [] ∷ r) (split_frames-IsCut s t))
  | inr e ↦ rw e (
      IsCut-onto_first c (split_frames (d ∷ s)) (d ∷ s) t (split_frames-ne-nil (d ∷ s))
        (split_frames_one (d ∷ s)) (rw e refl) (split_frames-IsCut (d ∷ s) t))
]

pop_lem : (parts : List Text) → parts ≢ [] → parts ≡ (pop parts).0 ++ ((pop parts).1 ∷ [])
unfolding pop
pop_lem [] n = absurd (n refl)
pop_lem (x ∷ []) n = refl
pop_lem (x ∷ y ∷ parts) n = ap (λ r. x ∷ r) (pop_lem (y ∷ parts) (cc))

append-ne-nil : (xs ys : List Text) → ys ≢ [] → xs ++ ys ≢ []
append-ne-nil [] ys n = n
append-ne-nil (x ∷ xs) ys n = cc

pop-append : (xs ys : List Text) → ys ≢ [] → pop (xs ++ ys) ≡ (xs ++ (pop ys).0, (pop ys).1)
pop-append [] ys n = refl
pop-append (x ∷ xs) ys n =
    pop-cons x (xs ++ ys) (append-ne-nil xs ys n) ∙ ap (λ r. (x ∷ r.0, r.1)) (pop-append xs ys n)

-- A text that holds no end of a frame.
IsRest : Text → Type 0
IsRest s = split_frames s ≡ s ∷ []

split_frames-IsRest : (s : Text) → IsRest (pop (split_frames s)).1
unfolding IsRest IsCut
split_frames-IsRest s =
    let parts = split_frames s in
    let cut : parts ≡ (pop parts).0 ++ split_frames (pop parts).1 =
      simp append-nil at (split_frames-IsCut s []) in
    append_cancel_left (pop parts).0 _ _ (sym cut ∙ pop_lem parts (split_frames-ne-nil s))

module _ {Event : Type 0} (parse : Text → Option Event) where
  frame_events-append :
      (xs ys : List Text)
      → frame_events parse (xs ++ ys) ≡ frame_events parse xs ++ frame_events parse ys
  unfolding frame_events
  frame_events-append [] ys = refl
  frame_events-append (x ∷ xs) ys = simp (frame_events-append xs ys, append_assoc)

  stream_events_from :
      (pending : Text) (chunks : List Text)
      → IsRest pending
      → stream_events parse pending chunks
        ≡ frame_events parse (pop (split_frames (pending ++ concat chunks))).0
  unfolding stream_events IsRest IsCut frame_events
  stream_events_from pending [] h = rw (append-nil, h, pop) refl
  stream_events_from pending (chunk ∷ chunks) h =
      let frames = pop (split_frames (pending ++ chunk)) in
      rw
        (
          ← append_assoc pending chunk (concat chunks),
          split_frames-IsCut (pending ++ chunk) (concat chunks),
          pop-append frames.0 _ (split_frames-ne-nil (frames.1 ++ concat chunks)),
          frame_events-append,
        )
        (ap (λ r. frame_events parse frames.0 ++ r)
          (stream_events_from frames.1 chunks (split_frames-IsRest (pending ++ chunk))))

-- However the network cuts a stream, `onEvent` is called for the complete frames of its whole text, in
-- their order and once for each frame that holds an event; a frame that the text does not end is left.
pub stream_events-concat :
    {Event : Type 0} (parse : Text → Option Event) (reads : List Text)
    → stream_events parse [] reads ≡ frame_events parse (pop (split_frames (concat reads))).0
unfolding IsRest split_frames
stream_events-concat parse reads = stream_events_from parse [] reads refl
