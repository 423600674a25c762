-- ===== src/Http/Streams/Events.antt =====
-- frontend/src/lib/backend/request.ts: the loop of `requestBackendEventStream`. What the reader and the
-- text decoder deliver is the list of the texts of its reads, the last one included, and how it ends;
-- `JSON.parse` is a parameter, which gives the parsed value of a text that is an object, and nothing
-- for any other text.
use agent_workflow_fast_api.Base.{List, [], ◌∷◌, ◌++◌, Option, none, some}
use agent_workflow_fast_api.Http.Streams.Frames.{Text, split_frames, pop, frame_payload}

-- The last read says that the stream is done, or a read rejects.
pub data StreamEnd : Type 0 where
  done broken : StreamEnd

module _ {Event : Type 0} (parse : Text → Option Event) where
  abbrev pub parse_payload : Text → List Event
  parse_payload [] = []
  parse_payload (c ∷ s) = elim (parse (c ∷ s)) [ none ↦ [] | some event ↦ event ∷ [] ]

  -- The calls of `onEvent` for the frames of one read.
  unfoldable pub frame_events : List Text → List Event
  unfolding frame_payload
  frame_events [] = []
  frame_events (frame ∷ frames) = parse_payload (frame_payload frame) ++ frame_events frames

  -- The calls of `onEvent`, from the pending text and the reads that follow.
  unfoldable pub stream_events : Text → List Text → List Event
  unfolding frame_events pop split_frames
  stream_events pending [] = []
  stream_events pending (chunk ∷ chunks) =
      let (frames, rest) = pop (split_frames (pending ++ chunk)) in
      frame_events frames ++ stream_events rest chunks
