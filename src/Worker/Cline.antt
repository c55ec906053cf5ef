-- ===== src/Worker/Cline.antt =====
-- worker/cline_adapter.go: ClineAdapter, which turns the lines that the Cline CLI prints into events.
-- `lower` is unicode.ToLower on one character, a table of Unicode. `elapsed` is the text of the time
-- since the start of the session. A slice past the end of a text panics.
pub mod Slices
pub mod Panics
pub mod Colours
use Prim.Native.Nat.{ℕ, zero, suc, ◌+◌, ◌-◌}
use Prim.Native.Char.{Char, code, len_utf8}
use Prim.Native.String.{String, [] as ε, ◌∷◌ as ◌▹◌, len}
use mathlib.Core.Option.{Option, none, some, map}
use agentfactory_gateway.Common.{
  ◌≡◌, Bool, true, false, ◌&&◌, ◌||◌, List, [], ◌∷◌, if◌then◌else◌, leb, ltb, ◌==◌, ◌/=◌,
}
use agentfactory_gateway.Common.Float.{Float}
use agentfactory_gateway.Common.Strings.{
  code_is, trim_left_of, trim_space, has_prefix, index, contains, drop_bytes, map_chars,
}
use agentfactory_gateway.Protocol.{EventPayload, ToolInfo, zero_payload}
use agentfactory_gateway.Throttler.{SlackEvent, progress, done, error, tool_call}

-- The field startTime; ansiRe is the same for every adapter.
pub record ClineAdapter : Type 0 where
  pub start_time : ℕ

unfoldable pub new_cline_adapter : ℕ → ClineAdapter
new_cline_adapter now = record { start_time = now }

-- Reset
unfoldable pub reset : ℕ → ClineAdapter → ClineAdapter
reset now a = record a { start_time = now }

-- The elapsed time of parseLine; `seconds` prints a duration.
unfoldable pub elapsed_at : (ℕ → String) → ℕ → ClineAdapter → String
elapsed_at seconds now a = seconds (now - a.start_time)

-- 0x1b
abbrev pub is_escape : Char → Bool
is_escape c = code_is 27 c

-- [a-zA-Z]
abbrev pub is_letter : Char → Bool
is_letter c = (leb 65 (code c) && leb (code c) 90) || (leb 97 (code c) && leb (code c) 122)

-- [0-9;]
abbrev pub is_parameter : Char → Bool
is_parameter c = (leb 48 (code c) && leb (code c) 57) || code_is 59 c

-- How many characters of the text match [0-9;]*[a-zA-Z], if any do.
unfoldable pub control_length : String → Option ℕ
control_length ε = none
control_length (c ▹ s) =
    let rest = map suc (control_length s) in
    if is_parameter c then rest else if is_letter c then some 1 else none

-- [^\x07]*\x07
unfoldable pub command_length : String → Option ℕ
command_length ε = none
command_length (c ▹ s) =
    let rest = map suc (command_length s) in if code_is 7 c then some 1 else rest

-- How many characters after an escape belong to the match of ansiRe that starts with it.
unfoldable pub match_length : String → Option ℕ
unfolding control_length command_length
match_length ε = none
match_length (c ▹ s) =
    if code_is b'[' c
    then map suc (control_length s)
    else if code_is b'(' c
    then elim s [ ε ↦ none | d ▹ t ↦ if is_letter d then some 2 else none ]
    else if code_is b']' c
    then map suc (command_length s)
    else none

-- ansiRe.ReplaceAllString(s, ""); the first `k` characters belong to a match.
unfoldable pub remove_ansi : ℕ → String → String
unfolding match_length
remove_ansi k ε = ""
remove_ansi (suc k) (c ▹ s) = remove_ansi k s
remove_ansi zero (c ▹ s) =
    let kept = c ▹ remove_ansi zero s in
    if is_escape c then elim (match_length s) [ none ↦ kept | some n ↦ remove_ansi n s ] else kept

unfoldable pub strip_ansi : String → String
unfolding remove_ansi
strip_ansi s = trim_space (remove_ansi 0 s)

-- The punctuation that extractAfter strips: ":. "
abbrev pub is_punctuation : Char → Bool
is_punctuation c = code_is 58 c || code_is 46 c || code_is 32 c

-- strings.ToLower
abbrev pub to_lower : (Char → Char) → String → String
to_lower lower s = map_chars lower s

-- unicode.ToLower on the characters of ASCII, by a table of pairs
lower_in : String → String → Char → Char
lower_in (a ▹ from) (b ▹ to) c =
    let rest = lower_in from to c in if code_is (code a) c then b else rest
lower_in ε to c = c
lower_in (a ▹ from) ε c = c

unfoldable pub ascii_lower : Char → Char
unfolding lower_in
ascii_lower c = lower_in "ABCDEFGHIJKLMNOPQRSTUVWXYZ" "abcdefghijklmnopqrstuvwxyz" c

-- What the adapter relies on of unicode.ToLower.
pub record IsLower (lower : Char → Char) : Type 0 where
  pub ascii : (c : Char) → len_utf8 c ≡ 1 → lower c ≡ ascii_lower c
  -- U+023A has two bytes, and its lower case U+2C65 three.
  pub longer : lower "Ⱥ" ≡ "ⱥ"

-- none for a panic
unfoldable pub extract_after : (Char → Char) → String → String → Option String
extract_after lower s prefix = elim (index (to_lower lower prefix) (to_lower lower s)) [
  | none ↦ some ""
  | some i ↦
      map (λ rest. trim_space (trim_left_of is_punctuation rest)) (drop_bytes (i + len prefix) s)
]

-- the loop of extractCommand
unfoldable pub first_after : (Char → Char) → String → List String → Option String
first_after lower s [] = some s
first_after lower s (prefix ∷ prefixes) = elim (extract_after lower s prefix) [
  | none ↦ none
  | some rest ↦ if rest /= "" then some rest else first_after lower s prefixes
]

unfoldable pub extract_command : (Char → Char) → String → Option String
unfolding first_after
extract_command lower s = first_after lower s ("Running" ∷ "Executing" ∷ [])

-- What parseLine does: it panics, returns nil, or returns an event.
pub data Parsed (E : Type 0) : Type 0 where
  panics skips : Parsed E
  parses : E → Parsed E

module _ (F : Float) where
  unfoldable pub tool_event : String → Option String → Parsed (SlackEvent (EventPayload F))
  tool_event name none = panics
  tool_event name (some args) = parses (record {
    type = tool_call;
    payload = some (record (zero_payload F) {
      action = name;
      tool = some (record { name = name; args = args; result = "" });
    });
  })

  unfoldable pub done_event : String → Parsed (SlackEvent (EventPayload F))
  done_event output =
      parses (record { type = done; payload = some (record (zero_payload F) { output = output }) })

  unfoldable pub error_event : String → Option String → Parsed (SlackEvent (EventPayload F))
  error_event cleaned none = panics
  error_event cleaned (some msg) = parses (record {
    type = error;
    payload = some (record (zero_payload F) { message = if msg == "" then cleaned else msg });
  })

  -- parseLine after the line is cleaned
  unfoldable pub parse_cleaned :
      (Char → Char) → String → String → Parsed (SlackEvent (EventPayload F))
  unfolding tool_event done_event error_event
  parse_cleaned lower elapsed cleaned =
      let lowered = to_lower lower cleaned in
      if cleaned == ""
      then skips
      else if contains lowered "writing to file"
      then tool_event "write_file" (extract_after lower cleaned "Writing to file")
      else if contains lowered "reading file"
      then tool_event "read_file" (extract_after lower cleaned "Reading file")
      else if contains lowered "running" || contains lowered "executing"
      then tool_event "run_command" (extract_command lower cleaned)
      else if contains lowered "test" && contains lowered "passed"
      then done_event "Tests passed"
      else if contains lowered "task complete"
          || contains lowered "finished"
          || contains lowered "all done"
      then done_event cleaned
      else if has_prefix "error" lowered || contains lowered "error:"
      then error_event cleaned (extract_after lower cleaned "Error")
      else if ltb 3 (len cleaned)
      then parses (record {
        type = progress;
        payload = some (record (zero_payload F) { action = cleaned; elapsed_time = elapsed });
      })
      else skips

  unfoldable pub parse_line : (Char → Char) → String → String → Parsed (SlackEvent (EventPayload F))
  unfolding strip_ansi parse_cleaned
  parse_line lower elapsed line = parse_cleaned lower elapsed (strip_ansi line)

  -- a.parseLine(line)
  unfoldable pub parse_at :
      (Char → Char)
      → (ℕ → String)
      → ℕ
      → ClineAdapter
      → String
      → Parsed (SlackEvent (EventPayload F))
  unfolding elapsed_at parse_line
  parse_at lower seconds now a line = parse_line lower (elapsed_at seconds now a) line
