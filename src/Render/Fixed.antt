-- ===== src/Render/Fixed.antt =====
-- A type of numbers with the laws of float64 that the renderer relies on: hundredths.
use agentfactory_gateway.Common.{ℕ, ◌*◌, ◌/◌, ◌+◌, ◌≤◌, refl, ltb, arith}
use agentfactory_gateway.Common.Int.{pos}
use agentfactory_gateway.Common.Text.{decimal}
use agentfactory_gateway.Common.Float.{Float, IsLawful}

abbrev pub hundredths : Float
hundredths = record {
  Carrier = ℕ;
  of_nat = λ n. n * 100;
  lt = ltb;
  add = λ a b. a + b;
  mul = λ a b. a * b / 100;
  div = λ a b. a * 100 / b;
  trunc = λ a. pos (a / 100);
  show = λ a. decimal (a / 100);
}

scaled : (x n : ℕ) → x ≤ 100 → x * (n * 100) / 100 / 100 ≤ n
scaled x n h = grind arith

pub hundredths-IsLawful : IsLawful hundredths
hundredths-IsLawful = record {
  zero_least = refl;
  lt_irrefl = λ x. ground arith;
  trunc-mul = λ x n low high. (x * (n * 100) / 100 / 100, refl, scaled x n (ground arith));
}
