-- ===== src/Common/Tests.antt =====
-- Boolean tests on numbers and texts, and the conditional.
use Prim.Native.Nat.{ℕ, compare, Ordering}
use Prim.Native.String.{String}
use mathlib.Core.Path.{◌≡◌, refl}
use mathlib.Core.Logic.{◌⊎◌, inl, inr, ◌≢◌}
use mathlib.Core.Bool.{Bool, true, false}
use mathlib.Core.Option.{Option, none, some}
use native.Mathlib.Omega.{arith}
use text.Mathlib.Text.{◌==◌ as text_eq}
use text.Mathlib.TextEquality.{eq_iff}

-- These compute to `compare`, which `ground` and `grind` read with no lemma listed.
abbrev pub ltb : ℕ → ℕ → Bool
ltb a b = elim (compare a b) [ Ordering.lt ↦ true | _ ↦ false ]

abbrev pub leb : ℕ → ℕ → Bool
leb a b = elim (compare a b) [ Ordering.gt ↦ false | _ ↦ true ]

abbrev pub is_zero : ℕ → Bool
is_zero n = elim (compare n 0) [ Ordering.eq ↦ true | _ ↦ false ]

infix 1 if◌then◌else◌
abbrev pub if◌then◌else◌ {ℓ} : {A : Type ℓ} → Bool → A → A → A
if true then x else y = x
if false then x else y = y

-- To split on a computed value and keep the equation.
pub Bool-cases : (b : Bool) → (b ≡ true) ⊎ (b ≡ false)
Bool-cases true = inl refl
Bool-cases false = inr refl

pub Option-cases {ℓ} : {A : Type ℓ} (o : Option A) → (o ≡ none) ⊎ ((a : A) × (o ≡ some a))
Option-cases none = inl refl
Option-cases (some a) = inr (a, refl)

pub text_ne : (s t : String) → text_eq s t ≡ false → s ≢ t
text_ne s t h e = ground (arith, eq_iff s t)

-- Equality of texts, as a decision.
dec_of_test : (s t : String) (b : Bool) → text_eq s t ≡ b → Dec (s ≡ t)
dec_of_test s t true h = yes ((eq_iff s t).0 h)
dec_of_test s t false h = no (text_ne s t h)

unfoldable pub str_dec : (s t : String) → Dec (s ≡ t)
unfolding dec_of_test
str_dec s t = dec_of_test s t (text_eq s t) refl

-- The test reads a decision, so that a split on it gives the equation.
infix 50 ◌==◌ ◌/=◌
abbrev pub ◌==◌ : String → String → Bool
s == t = elim (str_dec s t) [ yes _ ↦ true | no _ ↦ false ]

abbrev pub ◌/=◌ : String → String → Bool
s /= t = elim (str_dec s t) [ yes _ ↦ false | no _ ↦ true ]

pub eq_self : (s : String) → (s == s) ≡ true
eq_self s = ground arith
