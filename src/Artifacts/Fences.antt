-- ===== src/Artifacts/Fences.antt =====
-- frontend/src/artifacts/code/server.ts: `stripFences`, with its two regular expressions and `trim`.
use Prim.Native.Char.{code}
use agent_workflow_fast_api.Base.{
  ℕ, String, Bool, true, false, ◌&&◌, ◌||◌, ◌==◌, number_eq, leb, if◌then◌else◌,
}
use agent_workflow_fast_api.Http.Streams.Frames.{is_space}

abbrev backtick : ℕ
backtick = 96

-- `\w`
unfoldable pub is_word : ℕ → Bool
is_word c =
    (leb 48 c && leb c 57) || ((leb 65 c && leb c 90) || (c == 95 || (leb 97 c && leb c 122)))

-- `[\w]*\n?`, taken away
unfoldable pub drop_language : String → String
drop_language String.[] = ""
drop_language (String.◌∷◌ c s) =
    let rest = drop_language s in
    if is_word (code c) then rest else if code c == 10 then s else String.◌∷◌ c s

-- `code.replace(/^```[\w]*\n?/, "")`
unfoldable pub strip_opening : String → String
strip_opening (String.◌∷◌ a (String.◌∷◌ b (String.◌∷◌ c s))) =
    if code a == backtick && (code b == backtick && code c == backtick)
    then drop_language s
    else String.◌∷◌ a (String.◌∷◌ b (String.◌∷◌ c s))
strip_opening s = s

abbrev only_space : String → Bool
only_space String.[] = true
only_space (String.◌∷◌ c s) = is_space (code c) && only_space s

-- "```\s*$" at this place
unfoldable pub closes : String → Bool
closes (String.◌∷◌ a (String.◌∷◌ b (String.◌∷◌ c s))) =
    code a == backtick && (code b == backtick && (code c == backtick && only_space s))
closes _ = false

-- `.replace(/\n?```\s*$/, "")`: cut at the first place where the expression matches.
unfoldable pub strip_closing : String → String
strip_closing String.[] = ""
strip_closing (String.◌∷◌ c s) =
    let rest = strip_closing s in
    if closes (String.◌∷◌ c s) || (code c == 10 && closes s) then "" else String.◌∷◌ c rest

unfoldable pub trim_left : String → String
trim_left String.[] = ""
trim_left (String.◌∷◌ c s) =
    let rest = trim_left s in if is_space (code c) then rest else String.◌∷◌ c s

unfoldable pub trim_right : String → String
trim_right String.[] = ""
trim_right (String.◌∷◌ c s) =
    let rest = trim_right s in if is_space (code c) && only_space s then "" else String.◌∷◌ c rest

unfoldable pub strip_fences : String → String
strip_fences s = trim_left (trim_right (strip_closing (strip_opening s)))
