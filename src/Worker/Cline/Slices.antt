-- ===== src/Worker/Cline/Slices.antt =====
-- worker/cline_adapter.go: the slice of extractAfter, whose position is found in the lower case text.
use Prim.Native.Nat.{ℕ, zero, suc, ◌+◌, ◌-◌, ◌≤◌, compare}
use Prim.Native.Char.{Char, code, len_utf8, len_utf8_def, width}
use Prim.Native.String
use Prim.Native.String.{String, [] as ε, ◌∷◌ as ◌▹◌, len}
use mathlib.Core.Option.{Option, none, some, map}
use agentfactory_gateway.Common.{
  ◌≡◌, refl, sym, ap, ◌∙◌, ◌≢◌, Bool, true, false, List, [], ◌∷◌, if◌then◌else◌, leb, ◌/=◌, arith,
  inl, inr, Option-cases, Bool-cases, All,
}
use agentfactory_gateway.Common.Float.{Float}
use agentfactory_gateway.Common.Strings.{
  after_prefix, has_prefix, index, drop_bytes, map_chars, trim_space, trim_left_of,
}
use agentfactory_gateway.Common.Text.{replacement, ◌<>◌, IsAscii}
use agentfactory_gateway.Worker.Cline.{
  IsLower, ascii_lower, to_lower, is_punctuation, extract_after, first_after, extract_command,
  strip_ansi, panics, tool_event, done_event, error_event, parse_cleaned, parse_line,
}

abbrev width_of : ℕ → ℕ
width_of n = width (compare n 128) (compare n 2048) (compare n 65536)

len_utf8-code : (c d : Char) → code c ≡ code d → len_utf8 c ≡ len_utf8 d
len_utf8-code c d e = len_utf8_def c ∙ ap width_of e ∙ sym (len_utf8_def d)

after_prefix-fits : (prefix s t : String) → after_prefix prefix s ≡ some t → len prefix ≤ len s
unfolding after_prefix
after_prefix-fits ε s t h = omega arith
after_prefix-fits (p ▹ prefix) ε t h = cc
after_prefix-fits (p ▹ prefix) (c ▹ s) t h = ground (
  arith,
  after_prefix-fits prefix s t,
  len_utf8-code p c,
  String.len.cons p prefix,
  String.len.cons c s,
)

-- one round of strings.Index, at a character of w bytes before l bytes
round_fits :
    (found : Option String) (rest : Option ℕ) (w k l i : ℕ)
    → ((t : String) → found ≡ some t → k ≤ w + l)
    → ((j : ℕ) → rest ≡ some j → j + k ≤ l)
    → (if elim found as (λ o. Bool) [ none ↦ false | some _ ↦ true ]
        then some 0
        else map (λ j. w + j) rest)
      ≡ some i
    → i + k ≤ w + l
round_fits (some t) rest w k l i f g h = ground (arith, f t refl)
round_fits none none w k l i f g h = cc
round_fits none (some j) w k l i f g h = ground (arith, g j refl)

index-fits : (sub s : String) (i : ℕ) → index sub s ≡ some i → i + len sub ≤ len s
unfolding index has_prefix
index-fits sub ε i h = grind (arith, after_prefix-fits sub "")
index-fits sub (c ▹ s) i h = rw (String.len.cons c s) (
    round_fits (after_prefix sub (c ▹ s)) (index sub s) (len_utf8 c) (len sub) (len s) i
      (λ t e. rw (← String.len.cons c s) (after_prefix-fits sub (c ▹ s) t e))
      (λ j e. index-fits sub s j e) h)

drop_bytes-fits : (n : ℕ) (s : String) → n ≤ len s → (t : String) × (drop_bytes n s ≡ some t)
unfolding drop_bytes
drop_bytes-fits zero s h = (s, refl)
drop_bytes-fits (suc n) ε h = absurd (omega arith)
drop_bytes-fits (suc n) (c ▹ s) h = elim (Bool-cases (leb (len_utf8 c) (suc n))) [
  | inl whole ↦
      let (t, e) = drop_bytes-fits (suc n - len_utf8 c) s (ground (arith, String.len.cons c s)) in
      (t, rw whole e)
  | inr part ↦ (replacement (len_utf8 c - suc n) <> s, rw part refl)
]

-- No panic where the lower case text is no longer than the text.
extract_after_total :
    (lower : Char → Char) (s prefix : String)
    → len (to_lower lower s) ≤ len s
    → len (to_lower lower prefix) ≡ len prefix
    → (t : String) × (extract_after lower s prefix ≡ some t)
unfolding extract_after
extract_after_total lower s prefix short same =
    elim (Option-cases (index (to_lower lower prefix) (to_lower lower s))) [
      | inl nowhere ↦ ("", rw (nowhere, extract_after) refl)
      | inr (i, there) ↦
          let fits : i + len prefix ≤ len s =
            omega (arith, same, index-fits (to_lower lower prefix) (to_lower lower s) i there) in
          let (t, e) = drop_bytes-fits (i + len prefix) s fits in
          (trim_space (trim_left_of is_punctuation t), rw (there, e, extract_after) refl)
    ]

first_after_total :
    (lower : Char → Char) (s : String) (prefixes : List String)
    → len (to_lower lower s) ≤ len s
    → All (λ p. len (to_lower lower p) ≡ len p) prefixes
    → (t : String) × (first_after lower s prefixes ≡ some t)
unfolding first_after
first_after_total lower s [] short same = (s, refl)
first_after_total lower s (prefix ∷ prefixes) short same =
    let (t, e) = extract_after_total lower s prefix short same.0 in
    let (u, later) = first_after_total lower s prefixes short same.1 in
    elim (Bool-cases (t /= "")) [
      | inl here ↦ (t, rw (e, first_after) (rw here refl))
      | inr empty ↦ (u, rw (e, first_after) (rw empty later))
    ]

pub to_lower-ascii :
    (lower : Char → Char) (s : String)
    → IsLower lower
    → IsAscii s
    → to_lower lower s ≡ to_lower ascii_lower s
unfolding map_chars
to_lower-ascii lower ε lawful a = refl
to_lower-ascii lower (c ▹ s) lawful a =
    rw (lawful.ascii c a.0, to_lower-ascii lower s lawful a.1) refl

module _ (lower : Char → Char) (lawful : IsLower lower) where
  length-word :
      (p : String)
      → IsAscii p
      → len (to_lower ascii_lower p) ≡ len p
      → len (to_lower lower p) ≡ len p
  length-word p a e = ap len (to_lower-ascii lower p lawful a) ∙ e

  length-writing : len (to_lower lower "Writing to file") ≡ len "Writing to file"
  unfolding ascii_lower map_chars
  length-writing = length-word "Writing to file" (omega arith) refl

  length-reading : len (to_lower lower "Reading file") ≡ len "Reading file"
  unfolding ascii_lower map_chars
  length-reading = length-word "Reading file" (omega arith) refl

  length-running : len (to_lower lower "Running") ≡ len "Running"
  unfolding ascii_lower map_chars
  length-running = length-word "Running" (omega arith) refl

  length-executing : len (to_lower lower "Executing") ≡ len "Executing"
  unfolding ascii_lower map_chars
  length-executing = length-word "Executing" (omega arith) refl

  pub length-error : len (to_lower lower "Error") ≡ len "Error"
  unfolding ascii_lower map_chars
  length-error = length-word "Error" (omega arith) refl

parses-ne :
    (F : Float) (lower : Char → Char) (elapsed cleaned a b c d : String)
    → extract_after lower cleaned "Writing to file" ≡ some a
    → extract_after lower cleaned "Reading file" ≡ some b
    → first_after lower cleaned ("Running" ∷ "Executing" ∷ []) ≡ some c
    → extract_after lower cleaned "Error" ≡ some d
    → parse_cleaned F lower elapsed cleaned ≢ panics
unfolding parse_cleaned extract_command tool_event done_event error_event
parses-ne F lower elapsed cleaned a b c d writing reading command message h = ground arith

-- parseLine does not panic on a line that does not grow, in bytes, when it is put in lower case after
-- its escape sequences and its outer spaces are removed.
pub parse_line-ne-panics :
    (F : Float) (lower : Char → Char) (elapsed line : String)
    → IsLower lower
    → len (to_lower lower (strip_ansi line)) ≤ len (strip_ansi line)
    → parse_line F lower elapsed line ≢ panics
unfolding parse_line
parse_line-ne-panics F lower elapsed line lawful short h =
    let cleaned = strip_ansi line in
    let (a, writing) =
      extract_after_total lower cleaned "Writing to file" short (length-writing lower lawful) in
    let (b, reading) =
      extract_after_total lower cleaned "Reading file" short (length-reading lower lawful) in
    let (c, command) =
      first_after_total lower cleaned ("Running" ∷ "Executing" ∷ []) short
        (length-running lower lawful, (length-executing lower lawful, tt)) in
    let (d, message) =
      extract_after_total lower cleaned "Error" short (length-error lower lawful) in
    parses-ne F lower elapsed cleaned a b c d writing reading command message h
