-- ===== src/Worker/Cline/Panics.antt =====
-- worker/cline_adapter.go: lines at which the slice of extractAfter panics. The position is found in
-- the lower case text, which can be longer than the text that is sliced.
use Prim.Native.Nat.{ℕ, zero, suc, ◌+◌, ◌*◌, ◌-◌, ◌≤◌, ◌<◌}
use Prim.Native.Char.{Char, code, len_utf8}
use Prim.Native.String
use Prim.Native.String.{String, [] as ε, ◌∷◌ as ◌▹◌, len}
use mathlib.Core.Option.{Option, none, some, map}
use agentfactory_gateway.Common.{◌≡◌, ◌≢◌, refl, ap, subst, ◌∙◌, sym, Bool, true, false, arith}
use text.Mathlib.TextLemmas.{cons≢nil}
use agentfactory_gateway.Common.Float.{Float}
use agentfactory_gateway.Common.Strings.{
  after_prefix, has_prefix, index, contains, drop_bytes, map_chars, trim_left, trim_right,
  trim_space,
}
use agentfactory_gateway.Worker.Cline.{
  IsLower, ascii_lower, to_lower, remove_ansi, strip_ansi, extract_after, panics, error_event,
  parse_cleaned, parse_line,
}
use agentfactory_gateway.Worker.Cline.Slices.{to_lower-ascii}

-- `k` times the character, and then the text
abbrev pub repeated : Char → ℕ → String → String
repeated c zero s = s
repeated c (suc k) s = c ▹ repeated c k s

drop_bytes-past : (n : ℕ) (s : String) → len s < n → drop_bytes n s ≡ none
unfolding drop_bytes
drop_bytes-past zero s h = absurd (omega arith)
drop_bytes-past (suc n) ε h = refl
drop_bytes-past (suc n) (c ▹ s) h =
    ground (arith, drop_bytes-past (suc n - len_utf8 c) s, String.len.cons c s)

len-repeated : (c : Char) (k : ℕ) (s : String) → len (repeated c k s) ≡ k * len_utf8 c + len s
len-repeated c zero s = omega arith
len-repeated c (suc k) s = grind (arith, len-repeated c k s, String.len.cons c (repeated c k s))

skip_none : (o : Option ℕ) → o ≡ map (λ i. 0 * 3 + i) o
skip_none none = refl
skip_none (some i) = ground arith

skip_one :
    (k : ℕ) (o : Option ℕ) → map (λ i. 3 + i) (map (λ i. k * 3 + i) o) ≡ map (λ i. suc k * 3 + i) o
skip_one k none = refl
skip_one k (some i) = ground arith

has_prefix-other : (p : Char) (q s : String) → code p < 128 → has_prefix (p ▹ q) ("ⱥ" ▹ s) ≡ false
unfolding has_prefix after_prefix
has_prefix-other p q s h = ground arith

index-skip :
    (p : Char) (q s : String)
    → code p < 128
    → index (p ▹ q) ("ⱥ" ▹ s) ≡ map (λ i. 3 + i) (index (p ▹ q) s)
unfolding index
index-skip p q s h = rw (has_prefix-other p q s h) refl

-- A word of ASCII is found after the characters U+2C65.
index-repeated :
    (p : Char) (q : String) (k : ℕ) (s : String)
    → code p < 128
    → index (p ▹ q) (repeated "ⱥ" k s) ≡ map (λ i. k * 3 + i) (index (p ▹ q) s)
index-repeated p q zero s h = skip_none (index (p ▹ q) s)
index-repeated p q (suc k) s h =
    index-skip p q (repeated "ⱥ" k s) h
    ∙ ap (map (λ i. 3 + i)) (index-repeated p q k s h)
    ∙ skip_one k (index (p ▹ q) s)

contains-repeated :
    (p : Char) (q : String) (k : ℕ) (s : String)
    → code p < 128
    → contains (repeated "ⱥ" k s) (p ▹ q) ≡ contains s (p ▹ q)
unfolding contains
contains-repeated p q k s h = ap is_found (index-repeated p q k s h) ∙ found_map (index (p ▹ q) s)
  where
    is_found : Option ℕ → Bool
    is_found none = false
    is_found (some _) = true

    found_map : (o : Option ℕ) → is_found (map (λ i. k * 3 + i) o) ≡ is_found o
    found_map none = refl
    found_map (some i) = refl

remove_ansi-repeated :
    (k : ℕ) (s : String) → remove_ansi 0 s ≡ s → remove_ansi 0 (repeated "Ⱥ" k s) ≡ repeated "Ⱥ" k s
unfolding remove_ansi
remove_ansi-repeated zero s h = h
remove_ansi-repeated (suc k) s h = ap (◌▹◌ "Ⱥ") (remove_ansi-repeated k s h)

trim_right-repeated :
    (k : ℕ) (s : String) → trim_right s ≡ s → trim_right (repeated "Ⱥ" k s) ≡ repeated "Ⱥ" k s
unfolding trim_right
trim_right-repeated zero s h = h
trim_right-repeated (suc k) s h = ap (◌▹◌ "Ⱥ") (trim_right-repeated k s h)

strip_ansi-repeated :
    (k : ℕ) → strip_ansi (repeated "Ⱥ" (suc k) "Error:") ≡ repeated "Ⱥ" (suc k) "Error:"
unfolding strip_ansi trim_space trim_left
strip_ansi-repeated k =
    ap trim_space (remove_ansi-repeated (suc k) "Error:" (unfold remove_ansi in refl))
    ∙ trim_right-repeated (suc k) "Error:" (unfold trim_right in refl)

to_lower-repeated :
    (lower : Char → Char) (k : ℕ) (s : String)
    → IsLower lower
    → to_lower lower (repeated "Ⱥ" k s) ≡ repeated "ⱥ" k (to_lower lower s)
unfolding map_chars
to_lower-repeated lower zero s lawful = refl
to_lower-repeated lower (suc k) s lawful =
    rw (lawful.longer, to_lower-repeated lower k s lawful) refl

lowered_lem :
    (lower : Char → Char) (k : ℕ)
    → IsLower lower
    → to_lower lower (repeated "Ⱥ" k "Error:") ≡ repeated "ⱥ" k "error:"
unfolding map_chars ascii_lower
lowered_lem lower k lawful =
    to_lower-repeated lower k "Error:" lawful
    ∙ ap (repeated "ⱥ" k) (to_lower-ascii lower "Error:" lawful (omega arith))

extract_after-past :
    (lower : Char → Char) (s prefix : String) (i : ℕ)
    → index (to_lower lower prefix) (to_lower lower s) ≡ some i
    → len s < i + len prefix
    → extract_after lower s prefix ≡ none
unfolding extract_after
extract_after-past lower s prefix i there past =
    rw (there, extract_after) (rw (drop_bytes-past (i + len prefix) s past) refl)

found_at : index "error" "error:" ≡ some 0
unfolding index has_prefix after_prefix
found_at = refl

extract_after-repeated :
    (lower : Char → Char) (k : ℕ)
    → IsLower lower
    → 2 ≤ k
    → extract_after lower (repeated "Ⱥ" k "Error:") "Error" ≡ none
unfolding map_chars ascii_lower
extract_after-repeated lower k lawful h =
    extract_after-past lower (repeated "Ⱥ" k "Error:") "Error" (k * 3 + 0)
      (ap (λ w. index w (to_lower lower (repeated "Ⱥ" k "Error:")))
          (to_lower-ascii lower "Error" lawful (omega arith))
        ∙ ap (index "error") (lowered_lem lower k lawful)
        ∙ index-repeated "e" "rror" k "error:" (omega arith)
        ∙ ap (map (λ i. k * 3 + i)) found_at)
      (omega (arith, len-repeated "Ⱥ" k "Error:"))

-- The words that parseLine looks for before an error, in its order.
abbrev HasNoWord : String → Type 0
HasNoWord s =
    (contains s "writing to file" ≡ false)
    × (contains s "reading file" ≡ false)
    × (contains s "running" ≡ false)
    × (contains s "executing" ≡ false)
    × (contains s "test" ≡ false)
    × (contains s "task complete" ≡ false)
    × (contains s "finished" ≡ false)
    × (contains s "all done" ≡ false)

repeated-HasNoWord : (k : ℕ) → HasNoWord (repeated "ⱥ" k "error:")
unfolding contains index has_prefix after_prefix
repeated-HasNoWord k = (
  contains-repeated "w" "riting to file" k "error:" (omega arith),
  contains-repeated "r" "eading file" k "error:" (omega arith),
  contains-repeated "r" "unning" k "error:" (omega arith),
  contains-repeated "e" "xecuting" k "error:" (omega arith),
  contains-repeated "t" "est" k "error:" (omega arith),
  contains-repeated "t" "ask complete" k "error:" (omega arith),
  contains-repeated "f" "inished" k "error:" (omega arith),
  contains-repeated "a" "ll done" k "error:" (omega arith),
)

has_error : (k : ℕ) → contains (repeated "ⱥ" k "error:") "error:" ≡ true
unfolding contains index has_prefix after_prefix
has_error k = contains-repeated "e" "rror:" k "error:" (omega arith)

error_branch :
    (F : Float) (lower : Char → Char) (elapsed cleaned : String)
    → cleaned ≢ ""
    → HasNoWord (to_lower lower cleaned)
    → contains (to_lower lower cleaned) "error:" ≡ true
    → extract_after lower cleaned "Error" ≡ none
    → parse_cleaned F lower elapsed cleaned ≡ panics
unfolding parse_cleaned error_event
error_branch F lower elapsed cleaned some_text none_of failed past = ground arith

-- parseLine panics on "Error:" after two or more characters U+023A.
pub parse_line-panics :
    (F : Float) (lower : Char → Char) (elapsed : String) (k : ℕ)
    → IsLower lower
    → parse_line F lower elapsed (repeated "Ⱥ" (suc (suc k)) "Error:") ≡ panics
unfolding parse_line
parse_line-panics F lower elapsed k lawful =
    let line : String = repeated "Ⱥ" (suc (suc k)) "Error:" in
    let lowered = lowered_lem lower (suc (suc k)) lawful in
    ap (parse_cleaned F lower elapsed) (strip_ansi-repeated (suc k))
    ∙ error_branch F lower elapsed line cons≢nil
        (subst HasNoWord (sym lowered) (repeated-HasNoWord (suc (suc k))))
        (ap (λ s. contains s "error:") lowered ∙ has_error (suc (suc k)))
        (extract_after-repeated lower (suc (suc k)) lawful (omega arith))
