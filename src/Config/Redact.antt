-- ===== src/Config/Redact.antt =====
-- config/config.go: what a redacted token shows.
use Prim.Native.Nat.{ℕ, suc, ◌+◌, ◌-◌, ◌<◌}
use Prim.Native.Char.{Char, len_utf8}
use Prim.Native.String
use Prim.Native.String.{String, [] as ε, ◌∷◌ as ◌▹◌, len}
use text.Mathlib.TextLemmas.{cons-append, nil-append, append_assoc}
use text.Mathlib.TextPositions.{len-append, len_utf8-pos}
use agentfactory_gateway.Common.{◌≡◌, ◌≢◌, refl, ap, ◌∙◌, sym, true, false, some, leb, ◌==◌, arith}
use agentfactory_gateway.Common.Text.{◌<>◌, cut, replacement}
use agentfactory_gateway.Common.Strings.{drop_bytes}
use agentfactory_gateway.Config.{redact}

cut-zero : (s : String) → cut 0 s ≡ ""
unfolding cut replacement
cut-zero ε = refl
cut-zero (c ▹ s) = let (k, wide) = len_utf8-pos c in ground arith

cut-cons : (n : ℕ) (c : Char) (s : String) → cut (len_utf8 c + n) (c ▹ s) ≡ c ▹ cut n s
unfolding cut
cut-cons n c s =
    let whole : leb (len_utf8 c) (len_utf8 c + n) ≡ true = ground arith in
    let rest : len_utf8 c + n - len_utf8 c ≡ n = omega arith in
    rw (whole, cut) (ap (λ m. c ▹ cut m s) rest)

cut-append : (a s : String) → cut (len a) (a <> s) ≡ a
cut-append ε s = cut-zero ("" <> s)
cut-append (c ▹ a) s =
    ap (cut (len (c ▹ a))) (cons-append c a s)
    ∙ ap (λ n. cut n (c ▹ (a <> s))) (String.len.cons c a)
    ∙ cut-cons (len a) c (a <> s)
    ∙ ap (◌▹◌ c) (cut-append a s)

drop_bytes-cons :
    (n : ℕ) (c : Char) (s : String) → drop_bytes (len_utf8 c + n) (c ▹ s) ≡ drop_bytes n s
unfolding drop_bytes
drop_bytes-cons n c s =
    let (k, wide) = len_utf8-pos c in
    let some_byte : len_utf8 c + n ≡ suc (k + n) = omega arith in
    let whole : leb (len_utf8 c) (suc (k + n)) ≡ true = ground arith in
    let rest : suc (k + n) - len_utf8 c ≡ n = omega arith in
    rw some_byte (rw (whole, drop_bytes) (ap (λ m. drop_bytes m s) rest))

drop_bytes-append : (a s : String) → drop_bytes (len a) (a <> s) ≡ some s
drop_bytes-append ε s = unfold drop_bytes in ap some (nil-append s)
drop_bytes-append (c ▹ a) s =
    ap (drop_bytes (len (c ▹ a))) (cons-append c a s)
    ∙ ap (λ n. drop_bytes n (c ▹ (a <> s))) (String.len.cons c a)
    ∙ drop_bytes-cons (len a) c (a <> s)
    ∙ drop_bytes-append a s

redact_long :
    (s a b : String)
    → 8 < len s
    → cut 4 s ≡ a
    → drop_bytes (len s - 4) s ≡ some b
    → redact s ≡ a <> "..." <> b
unfolding redact
redact_long s a b long first last =
    let full : s ≢ "" = λ e. absurd (omega (arith, ap len e)) in
    let more : leb (len s) 8 ≡ false = ground arith in
    rw (no_test s full, more, first, last, redact) refl
  where
    no_test : (s : String) → s ≢ "" → (s == "") ≡ false
    no_test s full = ground arith

-- A token of four bytes, a part that is not empty, and four bytes shows the first four and the last
-- four, and nothing of the part between them.
pub redact-shows :
    (a m b : String) → len a ≡ 4 → len b ≡ 4 → 0 < len m → redact (a <> m <> b) ≡ a <> "..." <> b
redact-shows a m b la lb lm =
    let size = len-append a (m <> b) in
    let size' = len-append m b in
    let at : len (a <> m <> b) - 4 ≡ len (a <> m) = omega (arith, size, size', len-append a m) in
    redact_long (a <> m <> b) a b (omega (arith, size, size'))
      (ap (λ n. cut n (a <> m <> b)) (sym la) ∙ cut-append a (m <> b))
      (ap (λ n. drop_bytes n (a <> m <> b)) at
        ∙ ap (drop_bytes (len (a <> m))) (sym (append_assoc a m b))
        ∙ drop_bytes-append (a <> m) b)
