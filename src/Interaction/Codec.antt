-- ===== src/Interaction/Codec.antt =====
-- A codec with the laws that gateway/interaction_handler.go relies on for encoding/json. Each
-- character of a text stands after a point, and a text ends with a semicolon.
use Prim.Native.Char.{Char, code}
use Prim.Native.String.{String, [] as ε, ◌∷◌ as ◌▹◌}
use text.Mathlib.TextLemmas.{append_assoc, append-nil, cons-append, nil-append, cons≢nil}
use agentfactory_gateway.Common.{
  ◌≡◌, ◌≢◌, ◌∙◌, refl, ap, Bool, false, ◌&&◌, Option, none, some, List, [], ◌∷◌, if◌then◌else◌, leb,
  ◌==◌, arith,
}
use agentfactory_gateway.Common.Text.{◌<>◌}
use agentfactory_gateway.Common.Dict.{Dict}
use agentfactory_gateway.Interaction.Effects.{Json, IsLawful}

-- "." and ";" as characters
abbrev point : Char
point = "."

abbrev semicolon : Char
semicolon = ";"

write_text : String → String → String
write_text ε rest = semicolon ▹ rest
write_text (c ▹ s) rest = point ▹ c ▹ write_text s rest

write_texts : List String → String
write_texts [] = ""
write_texts (s ∷ texts) = write_text s (write_texts texts)

abbrev is_point : Char → Bool
is_point c = leb 46 (code c) && leb (code c) 46

-- `cur` is what was read of the text that is being read.
read_texts : String → String → List String
read_texts cur ε = []
read_texts cur (c ▹ ε) = cur ∷ []
read_texts cur (c ▹ d ▹ s) =
    let longer = read_texts (cur <> d ▹ ε) s in
    let next = read_texts "" (d ▹ s) in if is_point c then longer else cur ∷ next

read-semicolon : (cur rest : String) → read_texts cur (semicolon ▹ rest) ≡ cur ∷ read_texts "" rest
unfolding read_texts
read-semicolon cur ε = refl
read-semicolon cur (d ▹ s) = refl

read-write_text :
    (cur s rest : String) → read_texts cur (write_text s rest) ≡ (cur <> s) ∷ read_texts "" rest
unfolding read_texts write_text
read-write_text cur ε rest = read-semicolon cur rest ∙ rw append-nil refl
read-write_text cur (c ▹ s) rest =
    read-write_text (cur <> c ▹ ε) s rest
    ∙ ap (λ (t : String). t ∷ read_texts "" rest)
        (append_assoc cur (c ▹ ε) s ∙ rw (cons-append c ε s) (rw (nil-append s) refl))

read-write_texts : (texts : List String) → read_texts "" (write_texts texts) ≡ texts
unfolding write_texts read_texts
read-write_texts [] = refl
read-write_texts (s ∷ texts) =
    read-write_text "" s (write_texts texts)
    ∙ rw (nil-append s) (ap (λ ts. s ∷ ts) (read-write_texts texts))

texts_of : Dict String → List String
texts_of [] = []
texts_of ((k, v) ∷ d) = k ∷ v ∷ texts_of d

dict_of : List String → Dict String
dict_of [] = []
dict_of (k ∷ []) = []
dict_of (k ∷ v ∷ texts) = (k, v) ∷ dict_of texts

dict_of-texts_of : (d : Dict String) → dict_of (texts_of d) ≡ d
unfolding dict_of texts_of
dict_of-texts_of [] = refl
dict_of-texts_of ((k, v) ∷ d) = ap (λ e. (k, v) ∷ e) (dict_of-texts_of d)

pub marshal : Dict String → String
marshal d = write_text "" (write_texts (texts_of d))

pub unmarshal : String → Option (Dict String)
unmarshal s = elim (read_texts "" s) [ [] ↦ none | _ ∷ texts ↦ some (dict_of texts) ]

unmarshal-marshal : (d : Dict String) → unmarshal (marshal d) ≡ some d
unfolding unmarshal marshal
unmarshal-marshal d =
    rw (read-write_text "" "" (write_texts (texts_of d)), unmarshal)
      (rw read-write_texts (rw dict_of-texts_of refl))

marshal-ne : (d : Dict String) → marshal d ≢ ""
unfolding marshal write_text
marshal-ne d e = cons≢nil e

test_ne : (s : String) → s ≢ "" → (s == "") ≡ false
test_ne s h = ground arith

abbrev pub codec : Json
codec = record {
  marshal_map = marshal;
  unmarshal_map = unmarshal;
  marshal_resume = λ p. marshal (("task_id", p.task_id) ∷ ("comment", p.comment) ∷ []);
}

pub codec-IsLawful : IsLawful codec
codec-IsLawful = record {
  unmarshal-marshal = λ d. (d, unmarshal-marshal d, λ k. refl);
  nonempty = λ d. test_ne (marshal d) (marshal-ne d);
}
