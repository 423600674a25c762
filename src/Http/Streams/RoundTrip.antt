-- ===== src/Http/Streams/RoundTrip.antt =====
-- frontend/src/lib/backend/request.ts: the events of a stream that the backend writes, one line
-- `data: …` and an empty line for each.
use agent_workflow_fast_api.Base.{
  List, [], ◌∷◌, ◌++◌, map, Option, some, ◌≡◌, ◌≢◌, refl, ap, ◌∙◌, arith, ==_of_ne, number_eq, All,
  All-append,
}
use agent_workflow_fast_api.Http.Streams.Frames.{
  Text, codes, newline, onto_first, split_frames, split_lines, pop, frame_payload, trim, trim_start,
  is_space, join_lines,
}
use agent_workflow_fast_api.Http.Streams.Events.{parse_payload, frame_events, stream_events}
use agent_workflow_fast_api.Http.Streams.Chunks.{
  concat, pop-cons, split_frames-ne-nil, stream_events-concat,
}

-- A payload on one line, with no space at its ends.
pub record IsLine (payload : Text) : Type 0 where
  pub one_line : All (λ c. c ≢ newline) payload
  pub present : payload ≢ []
  pub bare : trim payload ≡ payload

abbrev pub frame_of : Text → Text
frame_of payload = codes "data: " ++ payload

-- `data: {payload}\n\n` for each payload.
abbrev pub written : List Text → Text
written [] = []
written (payload ∷ payloads) = frame_of payload ++ (newline ∷ newline ∷ written payloads)

split_lines_one : (s : Text) → All (λ c. c ≢ newline) s → split_lines s ≡ s ∷ []
unfolding split_lines
split_lines_one [] h = refl
split_lines_one (c ∷ s) (n, h) = ground (arith, split_lines_one s h)

-- A line, an empty line and what follows are split into the line and the frames that follow.
split_frames_line :
    (s t : Text)
    → All (λ c. c ≢ newline) s
    → split_frames (s ++ (newline ∷ newline ∷ t)) ≡ s ∷ split_frames t
unfolding split_frames
split_frames_line [] t h = refl
split_frames_line (c ∷ []) t (n, h) = rw (==_of_ne c newline n) refl
split_frames_line (c ∷ d ∷ s) t (n, h) =
    rw (==_of_ne c newline n) (ap (onto_first c) (split_frames_line (d ∷ s) t h))

frame_lacks : (payload : Text) → IsLine payload → All (λ c. c ≢ newline) (frame_of payload)
frame_lacks payload l =
    All-append (λ c. c ≢ newline) (codes "data: ") payload (omega arith) l.one_line

frame_payload-frame_of :
    (payload : Text) → IsLine payload → frame_payload (frame_of payload) ≡ payload
unfolding frame_payload trim trim_start is_space join_lines
frame_payload-frame_of payload l =
    rw (split_lines_one (frame_of payload) (frame_lacks payload l)) l.bare

module _ {Event : Type 0} (parse : Text → Option Event) where
  -- A payload with the event that it stands for.
  pub record IsSent (item : Text × Event) : Type 0 where
    pub line : IsLine item.0
    pub event : parse item.0 ≡ some item.1

  parse_payload-some :
      (payload : Text) (event : Event)
      → payload ≢ []
      → parse payload ≡ some event
      → parse_payload parse payload ≡ event ∷ []
  parse_payload-some [] event n h = absurd (n refl)
  parse_payload-some (c ∷ s) event n h = rw (h, parse_payload) refl

  pop-written :
      (items : List (Text × Event))
      → All IsSent items
      → pop (split_frames (written (map (λ i. i.0) items))) ≡ (map (λ i. frame_of i.0) items, [])
  unfolding pop split_frames
  pop-written [] h = refl
  pop-written (item ∷ items) (s, h) =
      let rest = written (map (λ i. i.0) items) in
      rw
        (
          split_frames_line (frame_of item.0) rest (frame_lacks item.0 s.line),
          pop-cons (frame_of item.0) (split_frames rest) (split_frames-ne-nil rest),
          pop-written items h,
        )
        refl

  frame_events-written :
      (items : List (Text × Event))
      → All IsSent items
      → frame_events parse (map (λ i. frame_of i.0) items) ≡ map (λ i. i.1) items
  unfolding frame_events
  frame_events-written [] h = refl
  frame_events-written (item ∷ items) (s, h) =
      rw
        (
          frame_payload-frame_of item.0 s.line,
          parse_payload-some item.0 item.1 s.line.present s.event,
          frame_events-written items h,
        )
        refl

-- If each payload is a text of one line, not empty and with no space at its ends, that parses to its
-- event, then the stream of the lines `data: …`, each with an empty line behind it, gives exactly these
-- events in their order, however the network cuts it.
pub stream_events-written :
    {Event : Type 0} (parse : Text → Option Event) (items : List (Text × Event)) (reads : List Text)
    → All (IsSent parse) items
    → concat reads ≡ written (map (λ i. i.0) items)
    → stream_events parse [] reads ≡ map (λ i. i.1) items
stream_events-written parse items reads sent h =
    stream_events-concat parse reads
    ∙ rw (h, pop-written parse items sent) (frame_events-written parse items sent)
