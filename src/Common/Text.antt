-- ===== src/Common/Text.antt =====
-- Go's strings and the functions of fmt, strconv and strings that the sources call. `concat` is a
-- Sprintf whose verbs are all %s. `cut` is the slice s[:n] as it leaves the program: n counts bytes,
-- and the encoder of JSON writes U+FFFD for each byte of a character that the slice cuts in two.
use Prim.Native.Nat.{ℕ, zero, suc, ◌+◌, ◌-◌, ◌*◌, ◌/◌, ◌%◌, ◌≤◌, ◌<◌}
use Prim.Native.Char.{Char, code, len_utf8}
use Prim.Native.String
use Prim.Native.String.{String, len, count}
use Prim.Native.String.count as count_laws
use mathlib.Core.Path.{◌≡◌, refl}
use mathlib.Core.List.{List, [], ◌∷◌}
use native.Mathlib.Omega.{arith}
use text.Mathlib.TextPositions.{len_utf8-pos}
use text.Mathlib.TextLemmas.{length-append}
use agentfactory_gateway.Common.Tests.{leb, ltb, if◌then◌else◌}
use agentfactory_gateway.Common.Int.{ℤ, pos, negsuc}

infixr 65 ◌<>◌
abbrev pub ◌<>◌ : String → String → String
s <> t = String.◌++◌ s t

unfoldable pub concat : List String → String
concat [] = ""
concat (s ∷ parts) = s <> concat parts

-- strings.Join
unfoldable pub join : String → List String → String
join sep [] = ""
join sep (s ∷ []) = s
join sep (s ∷ t ∷ parts) = s <> sep <> join sep (t ∷ parts)

-- the decimal digit of a number below ten
digit : ℕ → Char
digit zero = "0"
digit (suc zero) = "1"
digit (suc (suc zero)) = "2"
digit (suc (suc (suc zero))) = "3"
digit (suc (suc (suc (suc zero)))) = "4"
digit (suc (suc (suc (suc (suc zero))))) = "5"
digit (suc (suc (suc (suc (suc (suc zero)))))) = "6"
digit (suc (suc (suc (suc (suc (suc (suc zero))))))) = "7"
digit (suc (suc (suc (suc (suc (suc (suc (suc zero)))))))) = "8"
digit n = "9"

-- strconv.Itoa of a number that is not negative, with fuel
decimal_from : ℕ → ℕ → String → String
decimal_from zero n acc = acc
decimal_from (suc f) n acc =
    let rest = decimal_from f (n / 10) (String.◌∷◌ (digit (n % 10)) acc) in
    if ltb n 10 then String.◌∷◌ (digit n) acc else rest

unfoldable pub decimal : ℕ → String
unfolding decimal_from digit
decimal n = decimal_from (suc n) n ""

-- %d
unfoldable pub show_int : ℤ → String
unfolding decimal
show_int (pos n) = decimal n
show_int (negsuc n) = "-" <> decimal (suc n)

-- strings.Repeat; it panics at a negative count, for which this has the empty text
unfoldable pub repeat : String → ℤ → String
repeat s (pos zero) = ""
repeat s (pos (suc n)) = s <> repeat s (pos n)
repeat s (negsuc n) = ""

unfoldable pub replacement : ℕ → String
replacement zero = ""
replacement (suc n) = "�" <> replacement n

unfoldable pub cut : ℕ → String → String
unfolding replacement
cut n String.[] = ""
cut n (String.◌∷◌ c s) =
    let rest = cut (n - len_utf8 c) s in
    if leb (len_utf8 c) n then String.◌∷◌ c rest else replacement n

-- if len(s) > limit { s = s[:limit] + suffix }
unfoldable pub truncate : ℕ → String → String → String
unfolding cut
truncate limit suffix s = if ltb limit (len s) then cut limit s <> suffix else s

count-replacement : (n : ℕ) → count (replacement n) ≡ n
unfolding replacement
count-replacement zero = refl
count-replacement (suc n) = omega (arith, length-append "�" (replacement n), count-replacement n)

count-cut-le : (n : ℕ) (s : String) → count (cut n s) ≤ n
unfolding cut
count-cut-le n String.[] = omega arith
count-cut-le n (String.◌∷◌ c s) =
    let (k, wide) = len_utf8-pos c in
    ground (
      arith,
      count-cut-le (n - len_utf8 c) s,
      count-replacement n,
      count_laws.cons c (cut (n - len_utf8 c) s),
    )

-- the number of characters is at most the number of bytes
count-le-len : (s : String) → count s ≤ len s
count-le-len String.[] = omega arith
count-le-len (String.◌∷◌ c s) =
    let (k, wide) = len_utf8-pos c in
    omega (arith, count-le-len s, count_laws.cons c s, String.len.cons c s)

pub count-truncate-le :
    (limit : ℕ) (suffix s : String) → count (truncate limit suffix s) ≤ limit + count suffix
unfolding truncate
count-truncate-le limit suffix s =
    ground (arith, length-append (cut limit s) suffix, count-cut-le limit s, count-le-len s)

-- Every character takes one byte.
abbrev pub IsAscii : String → Type 0
IsAscii String.[] = Unit
IsAscii (String.◌∷◌ c s) = (len_utf8 c ≡ 1) × IsAscii s

pub count-ascii : (s : String) → IsAscii s → count s ≡ len s
count-ascii String.[] a = refl
count-ascii (String.◌∷◌ c s) a =
    omega (arith, count-ascii s a.1, a.0, count_laws.cons c s, String.len.cons c s)

count-cut-ascii : (n : ℕ) (s : String) → IsAscii s → n ≤ len s → count (cut n s) ≡ n
unfolding cut replacement
count-cut-ascii n String.[] a le = omega (arith, le)
count-cut-ascii n (String.◌∷◌ c s) a le = ground (
  arith,
  count-cut-ascii (n - 1) s a.1,
  count-replacement n,
  a.0,
  String.len.cons c s,
  count_laws.cons c (cut (n - 1) s),
)

pub count-truncate-ascii :
    (limit : ℕ) (suffix s : String)
    → IsAscii s
    → count (truncate limit suffix s) ≡ (if ltb limit (len s) then limit + count suffix else len s)
unfolding truncate
count-truncate-ascii limit suffix s a =
    ground (arith, count-ascii s a, count-cut-ascii limit s a, length-append (cut limit s) suffix)

-- The number that a text of digits writes, after the digits that `v` stands for.
read_from : ℕ → String → ℕ
read_from v String.[] = v
read_from v (String.◌∷◌ c s) = read_from (v * 10 + (code c - 48)) s

unfoldable pub read : String → ℕ
unfolding read_from
read s = read_from 0 s

code-digit : (d : ℕ) → d < 10 → code (digit d) - 48 ≡ d
unfolding digit
code-digit zero h = refl
code-digit (suc zero) h = refl
code-digit (suc (suc zero)) h = refl
code-digit (suc (suc (suc zero))) h = refl
code-digit (suc (suc (suc (suc zero)))) h = refl
code-digit (suc (suc (suc (suc (suc zero))))) h = refl
code-digit (suc (suc (suc (suc (suc (suc zero)))))) h = refl
code-digit (suc (suc (suc (suc (suc (suc (suc zero))))))) h = refl
code-digit (suc (suc (suc (suc (suc (suc (suc (suc zero)))))))) h = refl
code-digit (suc (suc (suc (suc (suc (suc (suc (suc (suc n))))))))) h = omega arith

read_from-decimal_from :
    (f n : ℕ) (acc : String) → n < f → read_from 0 (decimal_from f n acc) ≡ read_from n acc
unfolding decimal_from read_from
read_from-decimal_from zero n acc h = absurd (omega arith)
read_from-decimal_from (suc f) n acc h = ground (
  arith,
  read_from-decimal_from f (n / 10) (String.◌∷◌ (digit (n % 10)) acc),
  code-digit (n % 10),
  code-digit n,
)

-- The fuel of `decimal` is enough.
pub read-decimal : (n : ℕ) → read (decimal n) ≡ n
unfolding read decimal
read-decimal n = read_from-decimal_from (suc n) n "" (omega arith)
