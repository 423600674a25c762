-- ===== src/Http/Streams/Frames.antt =====
-- frontend/src/lib/backend/request.ts: how `requestBackendEventStream` cuts the text of a stream. A
-- text is the list of its code units.
use Prim.Native.Char.{code}
use agent_workflow_fast_api.Base.{
  ℕ, String, Bool, true, false, ◌&&◌, ◌||◌, List, [], ◌∷◌, ◌++◌, map, ◌==◌, number_eq, leb,
  if◌then◌else◌, filter,
}

abbrev pub Text : Type 0
Text = List ℕ

-- The code units of a literal.
abbrev pub codes : String → Text
codes String.[] = []
codes (String.◌∷◌ c s) = code c ∷ codes s

abbrev pub newline : ℕ
newline = 10

abbrev pub onto_first : ℕ → List Text → List Text
onto_first c [] = (c ∷ []) ∷ []
onto_first c (part ∷ parts) = (c ∷ part) ∷ parts

-- `pending.split("\n\n")`
unfoldable pub split_frames : Text → List Text
split_frames [] = [] ∷ []
split_frames (c ∷ []) = (c ∷ []) ∷ []
split_frames (c ∷ d ∷ s) =
    let after_cut = [] ∷ split_frames s in
    let uncut = onto_first c (split_frames (d ∷ s)) in
    if c == newline && d == newline then after_cut else uncut

-- `frame.split("\n")`
unfoldable pub split_lines : Text → List Text
split_lines [] = [] ∷ []
split_lines (c ∷ s) =
    let parts = split_lines s in if c == newline then [] ∷ parts else onto_first c parts

-- `frames.pop() ?? ""`: the frames that are complete, and the rest.
unfoldable pub pop : List Text → List Text × Text
pop [] = ([], [])
pop (frame ∷ []) = ([], frame)
pop (frame ∷ next ∷ frames) = let (complete, rest) = pop (next ∷ frames) in (frame ∷ complete, rest)

abbrev pub starts_with_codes : Text → Text → Bool
starts_with_codes s [] = true
starts_with_codes [] (d ∷ t) = false
starts_with_codes (c ∷ s) (d ∷ t) = if c == d then starts_with_codes s t else false

-- `line.slice(5)` of a line that starts with "data:".
abbrev pub slice_5 : Text → Text
slice_5 (a ∷ b ∷ c ∷ d ∷ e ∷ s) = s
slice_5 _ = []

-- The white space and the line ends that `trim` takes away.
unfoldable pub is_space : ℕ → Bool
is_space c =
    (leb 9 c && leb c 13)
    || (c == 32
        || (c == 0xA0
            || (c == 0x1680
                || ((leb 0x2000 c && leb c 0x200A)
                    || (c == 0x2028
                        || (c == 0x2029
                            || (c == 0x202F || (c == 0x205F || (c == 0x3000 || c == 0xFEFF)))))))))

unfoldable pub trim_start : Text → Text
unfolding is_space
trim_start [] = []
trim_start (c ∷ s) = let rest = trim_start s in if is_space c then rest else c ∷ s

abbrev trimmed_before : ℕ → Text → Text
trimmed_before c [] = if is_space c then [] else c ∷ []
trimmed_before c (d ∷ s) = c ∷ d ∷ s

unfoldable pub trim_end : Text → Text
unfolding is_space
trim_end [] = []
trim_end (c ∷ s) = trimmed_before c (trim_end s)

unfoldable pub trim : Text → Text
unfolding trim_start trim_end
trim s = trim_end (trim_start s)

-- `.join("\n")`
unfoldable pub join_lines : List Text → Text
join_lines [] = []
join_lines (line ∷ []) = line
join_lines (line ∷ next ∷ lines) = line ++ (newline ∷ join_lines (next ∷ lines))

-- The lines of a frame that hold data, without their name.
unfoldable pub frame_payload : Text → Text
unfolding split_lines trim join_lines
frame_payload frame = join_lines (
    map (λ line. trim (slice_5 line))
      (filter (λ line. starts_with_codes line (codes "data:")) (split_lines frame)))
