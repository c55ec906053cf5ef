-- ===== src/Worker/Cline/Colours.antt =====
-- worker/cline_adapter.go: the colours of a line make no difference to its event.
use Prim.Native.Nat.{ℕ, suc}
use Prim.Native.Char.{Char, char}
use Prim.Native.String.{String, [] as ε, ◌∷◌ as ◌▹◌}
use mathlib.Core.Option.{some}
use text.Mathlib.TextLemmas.{cons-append, nil-append}
use agentfactory_gateway.Common.{
  ◌≡◌, refl, ap, ◌∙◌, sym, Bool, true, false, List, [], ◌∷◌, arith, All,
}
use agentfactory_gateway.Common.Float.{Float}
use agentfactory_gateway.Common.Text.{◌<>◌}
use agentfactory_gateway.Common.Strings.{trim_space}
use agentfactory_gateway.Worker.Cline.{
  is_escape, is_letter, is_parameter, control_length, match_length, remove_ansi, strip_ansi,
  parse_cleaned, parse_line,
}

abbrev pub Chars : (Char → Bool) → Bool → String → Type 0
Chars p b ε = Unit
Chars p b (c ▹ s) = (p c ≡ b) × Chars p b s

abbrev pub escape : Char
escape = char 27 tt

-- Each text is followed by an escape, a bracket, the parameters and a letter.
abbrev pub coloured : List (String × String × Char) → String → String
coloured [] last = last
coloured ((t, p, l) ∷ parts) last = t <> (escape ▹ ("[" ▹ (p <> (l ▹ coloured parts last))))

abbrev pub plain : List (String × String × Char) → String → String
plain [] last = last
plain ((t, p, l) ∷ parts) last = t <> plain parts last

abbrev pub IsCode : String × String × Char → Type 0
IsCode (t, p, l) = Chars is_escape false t × Chars is_parameter true p × (is_letter l ≡ true)

abbrev size : String → ℕ
size ε = 0
size (c ▹ s) = suc (size s)

control_length-append :
    (p : String) (l : Char) (s : String)
    → Chars is_parameter true p
    → is_letter l ≡ true
    → control_length (p <> (l ▹ s)) ≡ some (suc (size p))
unfolding control_length
control_length-append ε l s h letter = rw nil-append (ground arith)
control_length-append (c ▹ p) l s h letter =
    rw (cons-append c p (l ▹ s), h.0, control_length-append p l s h.1 letter) refl

remove_ansi-append :
    (p s : String) (l : Char) → remove_ansi (suc (size p)) (p <> (l ▹ s)) ≡ remove_ansi 0 s
unfolding remove_ansi
remove_ansi-append ε s l = rw nil-append refl
remove_ansi-append (c ▹ p) s l = rw (cons-append c p (l ▹ s)) (remove_ansi-append p s l)

remove_ansi-text :
    (t s : String) → Chars is_escape false t → remove_ansi 0 (t <> s) ≡ t <> remove_ansi 0 s
unfolding remove_ansi
remove_ansi-text ε s h = rw (nil-append, nil-append) refl
remove_ansi-text (c ▹ t) s h =
    rw (cons-append c t s, h.0, remove_ansi-text t s h.1) (sym (cons-append c t (remove_ansi 0 s)))

remove_ansi-code :
    (p s : String) (l : Char)
    → Chars is_parameter true p
    → is_letter l ≡ true
    → remove_ansi 0 (escape ▹ ("[" ▹ (p <> (l ▹ s)))) ≡ remove_ansi 0 s
unfolding remove_ansi match_length
remove_ansi-code p s l h letter =
    rw (control_length-append p l s h letter) (remove_ansi-append p s l)

remove_ansi-coloured :
    (parts : List (String × String × Char)) (last : String)
    → All IsCode parts
    → remove_ansi 0 (coloured parts last) ≡ remove_ansi 0 (plain parts last)
remove_ansi-coloured [] last h = refl
remove_ansi-coloured ((t, p, l) ∷ parts) last h =
    remove_ansi-text t (escape ▹ ("[" ▹ (p <> (l ▹ coloured parts last)))) h.0.0
    ∙ ap (λ s. t <> s)
        (remove_ansi-code p (coloured parts last) l h.0.1 h.0.2
          ∙ remove_ansi-coloured parts last h.1)
    ∙ sym (remove_ansi-text t (plain parts last) h.0.0)

-- A line with control sequences, of parameters and a letter, after texts without escapes, gives the
-- event of the line without them.
pub parse_line-coloured :
    (F : Float) (lower : Char → Char) (elapsed : String) (parts : List (String × String × Char))
    (last : String)
    → All IsCode parts
    → parse_line F lower elapsed (coloured parts last)
      ≡ parse_line F lower elapsed (plain parts last)
unfolding parse_line strip_ansi
parse_line-coloured F lower elapsed parts last h =
    ap (λ s. parse_cleaned F lower elapsed (trim_space s)) (remove_ansi-coloured parts last h)
