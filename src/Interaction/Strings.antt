-- ===== src/Interaction/Strings.antt =====
-- gateway/interaction_handler.go: parseValuePayload, and the functions of Go's package strings that
-- the handler calls. ToUpper is written out for the characters that it makes one of A to Z; no other
-- matters where its result is compared with "YES".
use Prim.Native.Char.{Char, code}
use Prim.Native.String.{String, [], ◌∷◌}
use agentfactory_gateway.Common.{◌≡◌, refl, false, Option, none, some, if◌then◌else◌, arith}
use agentfactory_gateway.Common.Text.{◌<>◌}
use agentfactory_gateway.Common.Strings.{code_is}
use text.Mathlib.TextLemmas.{cons-append, nil-append}
use mathlib.Core.Option.{map}

abbrev put_first : Char → String × String → String × String
put_first c (s, t) = (c ∷ s, t)

-- strings.SplitN(value, "|", 2), where it gives two parts
unfoldable pub split_bar : String → Option (String × String)
split_bar [] = none
split_bar (c ∷ s) =
    let rest = map (put_first c) (split_bar s) in if code_is b'|' c then some ([], s) else rest

unfoldable pub parse_value_payload : String → String × String
unfolding split_bar
parse_value_payload value = elim (split_bar value) [ some parts ↦ parts | none ↦ (value, "") ]

abbrev pub NoBar : String → Type 0
NoBar [] = Unit
NoBar (c ∷ s) = (code_is b'|' c ≡ false) × NoBar s

pub split_bar-append : (s t : String) → NoBar s → split_bar (s <> "|" <> t) ≡ some (s, t)
unfolding split_bar
split_bar-append [] t h = rw nil-append (rw cons-append (rw nil-append refl))
split_bar-append (c ∷ s) t h = rw cons-append (ground (arith, split_bar-append s t h.1))

pub split_bar-NoBar : (s : String) → NoBar s → split_bar s ≡ none
unfolding split_bar
split_bar-NoBar [] h = refl
split_bar-NoBar (c ∷ s) h = rw (h.0, split_bar-NoBar s h.1) refl

-- unicode.ToUpper by a table of pairs
upper_in : String → String → Char → Char
upper_in (a ∷ from) (b ∷ to) c =
    let rest = upper_in from to c in if code_is (code a) c then b else rest
upper_in [] to c = c
upper_in (a ∷ from) [] c = c

-- strings.ToUpper
unfoldable pub to_upper : String → String
unfolding upper_in
to_upper [] = []
to_upper (c ∷ s) =
    upper_in "abcdefghijklmnopqrstuvwxyzıſ" "ABCDEFGHIJKLMNOPQRSTUVWXYZIS" c ∷ to_upper s
