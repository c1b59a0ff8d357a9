-- ===== src/Wire/Numbers.antt =====
-- include/protocol.hpp: the members of a message as bytes.
use native.Mathlib.Nat.{pow-suc}
use exchange_market_data_dec.Prelude.{ℕ, zero, suc, ◌/◌, ◌^◌, ◌<◌, ◌≡◌, arith, ℤ, pos, negsuc}
use exchange_market_data_dec.Wire.{le_bytes, le_value, low64, to_int64}

-- The bytes of a number that fits are read as that number.
pub le_value-le_bytes : (width n : ℕ) → n < 256 ^ width → le_value (le_bytes width n) ≡ n
unfolding le_value le_bytes
le_value-le_bytes zero n h = omega (arith, h)
le_value-le_bytes (suc width) n h =
    let small : n / 256 < 256 ^ width = omega (arith, h, pow-suc 256 width) in
    omega (arith, le_value-le_bytes width (n / 256) small)

-- The prices that an `int64_t` holds.
abbrev pub IsInt64 : ℤ → Type 0
IsInt64 (pos n) = n < 2 ^ 63
IsInt64 (negsuc n) = n < 2 ^ 63

pub low64_lt : (price : ℤ) → low64 price < 2 ^ 64
low64_lt (pos n) = omega arith
low64_lt (negsuc n) = omega arith

pub to_int64-low64 : (price : ℤ) → IsInt64 price → to_int64 (low64 price) ≡ price
unfolding to_int64
to_int64-low64 (pos n) h = ground arith
to_int64-low64 (negsuc n) h = ground arith
