-- ===== src/Simulator/Counter.antt =====
-- An engine that counts, which meets the laws of the distributions.
use native.Mathlib.Nat.{mod-lt}
use exchange_market_data_dec.Prelude.{ℕ, ◌+◌, ◌-◌, ◌*◌, ◌%◌, ◌<◌, arith, pos, ltb}
use exchange_market_data_dec.Simulator.{Random, IsLawful}

-- Each draw takes the next number.
abbrev pub counter : Random
counter = record {
  Engine = ℕ;
  Real = ℕ;
  seeded = λ seed. seed;
  uniform_int = λ a b rng. (a + rng * 7 % (b - a + 1), rng + 1);
  uniform_signed = λ a b rng. (pos (rng % 3), rng + 1);
  uniform_real = λ rng. (rng * 3700 % 10000, rng + 1);
  below = λ x fraction. ltb x fraction;
  uniform_price = λ rng. (pos (25000 + rng), rng + 1);
}

below_span : (a b k : ℕ) → k % (b - a + 1) < b - a + 1
below_span a b k = mod-lt k (omega arith)

pub counter-IsLawful : IsLawful counter
counter-IsLawful = record {
  at_least = λ a b rng le. omega arith;
  at_most = λ a b rng le. omega (arith, below_span a b (rng * 7), le);
}
