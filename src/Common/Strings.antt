-- ===== src/Common/Strings.antt =====
-- The functions of Go's package strings that the sources call, over texts as sequences of characters.
-- A position counts bytes, and a slice that cuts a character in two leaves one U+FFFD for each byte.
use Prim.Native.Nat.{ℕ, zero, suc, ◌+◌, ◌-◌}
use Prim.Native.Char.{Char, code, len_utf8}
use Prim.Native.String.{String, [] as ε, ◌∷◌ as ◌▹◌}
use mathlib.Core.Path.{◌≡◌, refl}
use mathlib.Core.Bool.{Bool, true, false, ◌&&◌, ◌||◌}
use mathlib.Core.Option.{Option, none, some, map}
use mathlib.Core.List.{List, [], ◌∷◌}
use native.Mathlib.Omega.{arith}
use text.Mathlib.TextLemmas.{cons-append, nil-append}
use agentfactory_gateway.Common.Tests.{if◌then◌else◌, leb, ◌==◌}
use agentfactory_gateway.Common.Text.{◌<>◌, replacement}

abbrev pub code_is : ℕ → Char → Bool
code_is n c = leb n (code c) && leb (code c) n

abbrev pub is_space : Char → Bool
is_space c =
    (leb 9 (code c) && leb (code c) 13)
    || code_is 32 c
    || code_is 133 c
    || code_is 160 c
    || code_is 5760 c
    || (leb 8192 (code c) && leb (code c) 8202)
    || code_is 8232 c
    || code_is 8233 c
    || code_is 8239 c
    || code_is 8287 c
    || code_is 12288 c

-- strings.TrimLeftFunc
unfoldable pub trim_left_of : (Char → Bool) → String → String
trim_left_of p ε = ε
trim_left_of p (c ▹ s) = let rest = trim_left_of p s in if p c then rest else c ▹ s

unfoldable pub trim_left : String → String
trim_left ε = ε
trim_left (c ▹ s) = let rest = trim_left s in if is_space c then rest else c ▹ s

unfoldable pub trim_right : String → String
trim_right ε = ε
trim_right (c ▹ s) = let rest = trim_right s in if is_space c && rest == "" then ε else c ▹ rest

-- strings.TrimSpace
unfoldable pub trim_space : String → String
unfolding trim_left trim_right
trim_space s = trim_right (trim_left s)

-- What follows the prefix, if the text has it: strings.HasPrefix and strings.TrimPrefix.
unfoldable pub after_prefix : String → String → Option String
after_prefix ε s = some s
after_prefix (p ▹ prefix) ε = none
after_prefix (p ▹ prefix) (c ▹ s) =
    let rest = after_prefix prefix s in
    if leb (code p) (code c) && leb (code c) (code p) then rest else none

unfoldable pub has_prefix : String → String → Bool
has_prefix prefix s = elim (after_prefix prefix s) [ none ↦ false | some _ ↦ true ]

pub after_prefix-append : (prefix s : String) → after_prefix prefix (prefix <> s) ≡ some s
unfolding after_prefix
after_prefix-append ε s = rw nil-append refl
after_prefix-append (p ▹ prefix) s =
    rw (cons-append p prefix s) (ground (arith, after_prefix-append prefix s))

-- strings.Index, none for -1
unfoldable pub index : String → String → Option ℕ
unfolding has_prefix
index sub ε = if has_prefix sub ε then some 0 else none
index sub (c ▹ s) =
    let rest = map (λ i. len_utf8 c + i) (index sub s) in
    if has_prefix sub (c ▹ s) then some 0 else rest

-- strings.Contains
unfoldable pub contains : String → String → Bool
unfolding index
contains s sub = elim (index sub s) [ none ↦ false | some _ ↦ true ]

-- s[n:], none for the panic of a position past the end
unfoldable pub drop_bytes : ℕ → String → Option String
drop_bytes zero s = some s
drop_bytes (suc n) ε = none
drop_bytes (suc n) (c ▹ s) =
    let rest = drop_bytes (suc n - len_utf8 c) s in
    if leb (len_utf8 c) (suc n) then rest else some (replacement (len_utf8 c - suc n) <> s)

-- strings.Split by a separator of one character
put_first : Char → List String → List String
put_first c [] = (c ▹ ε) ∷ []
put_first c (s ∷ parts) = (c ▹ s) ∷ parts

unfoldable pub split : ℕ → String → List String
unfolding put_first
split sep ε = ε ∷ []
split sep (c ▹ s) =
    let parts = split sep s in if code_is sep c then ε ∷ parts else put_first c parts

unfoldable pub map_chars : (Char → Char) → String → String
map_chars f ε = ε
map_chars f (c ▹ s) = f c ▹ map_chars f s
