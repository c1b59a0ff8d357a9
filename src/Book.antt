-- ===== src/Book.antt =====
-- include/order_book.hpp: the limit order book of one instrument.
-- The two arrays of `kLevels` quantities are functions from the index; every access of the code is
-- behind its bounds check or at a best index. A level's `int64_t` quantity is never negative, since
-- `reduce` clamps it at 0, and is a number. `best_bid_idx_` starts at -1 and is an integer;
-- `best_ask_idx_` lies in 0 .. kLevels. Differences of `int64_t` prices do not overflow.
pub mod Scan
pub mod Levels
pub mod Invariant
pub mod Depth
mod Tests
use exchange_market_data_dec.Prelude.{
  ℕ, zero, suc, ◌+◌, ◌-◌, ◌/◌, ◌%◌, ◌^◌, ℤ, pos, negsuc, ◌+ℤ◌, ◌-ℤ◌, ltb_ℤ, ◌==ℤ◌, to_int32, Bool,
  true, false, ◌&&◌, Option, none, some, ltb, leb, ◌==◌, if◌then◌else◌,
}
use exchange_market_data_dec.Protocol.{Side}

-- `kLevels`
abbrev pub k_levels : ℕ
k_levels = 16384

-- `kHalf`
abbrev pub k_half : ℕ
k_half = k_levels / 2

-- `std::array<int64_t, kLevels>`
abbrev pub Levels : Type 0
Levels = ℕ → ℕ

abbrev pub update : Levels → ℕ → ℕ → Levels
update q i v j = if i == j then v else q j

-- `class OrderBook`
pub record OrderBook : Type 0 where
  pub base_price : ℤ
  pub bid_qty : Levels
  pub ask_qty : Levels
  pub best_bid_idx : ℤ
  pub best_ask_idx : ℕ
  pub dropped : ℕ

-- the member initialisers
abbrev pub new_book : OrderBook
new_book = record {
  base_price = pos 0;
  bid_qty = λ _. 0;
  ask_qty = λ _. 0;
  best_bid_idx = negsuc 0;
  best_ask_idx = k_levels;
  dropped = 0;
}

-- `init`, which leaves the counter of dropped updates alone.
unfoldable pub init : OrderBook → ℤ → OrderBook
init b reference_price_ticks = record b {
  base_price = reference_price_ticks -ℤ pos k_half;
  bid_qty = λ _. 0;
  ask_qty = λ _. 0;
  best_bid_idx = negsuc 0;
  best_ask_idx = k_levels;
}

-- `index_of`: the cast keeps the low 32 bits of the difference.
unfoldable pub index_of : OrderBook → ℤ → ℤ
index_of b price_ticks = to_int32 (price_ticks -ℤ b.base_price)

-- The test `idx < 0 || idx >= kLevels`, and the index where it fails.
abbrev pub in_band : ℤ → Option ℕ
in_band (pos i) = if ltb i k_levels then some i else none
in_band (negsuc _) = none

-- The index of a price, if it is in the band.
unfoldable pub slot : OrderBook → ℤ → Option ℕ
slot b price_ticks = in_band (index_of b price_ticks)

-- `++dropped_`, a uint64_t
unfoldable pub drop_update : OrderBook → OrderBook
drop_update b = record b { dropped = (b.dropped + 1) % 2 ^ 64 }

-- the branch of `add` for an index in the band
unfoldable pub add_at : OrderBook → Side → ℕ → ℕ → OrderBook
add_at b Side.buy idx qty = record b {
  bid_qty = update b.bid_qty idx (b.bid_qty idx + qty);
  best_bid_idx = if ltb_ℤ b.best_bid_idx (pos idx) then pos idx else b.best_bid_idx;
}
add_at b Side.sell idx qty = record b {
  ask_qty = update b.ask_qty idx (b.ask_qty idx + qty);
  best_ask_idx = if ltb idx b.best_ask_idx then idx else b.best_ask_idx;
}

-- `add`, with the Boolean that it returns
unfoldable pub add : OrderBook → Side → ℤ → ℕ → OrderBook × Bool
add b side price_ticks qty = elim (slot b price_ticks) [
  | none ↦ (drop_update b, false)
  | some idx ↦ (add_at b side idx qty, true)
]

-- `q -= qty; if (q < 0) q = 0;`
abbrev pub clamped_sub : ℕ → ℕ → ℕ
clamped_sub q qty = if ltb q qty then 0 else q - qty

-- `while (best >= 0 && bid_qty_[best] == 0) --best;` from an index in the array
unfoldable pub scan_down : Levels → ℕ → ℤ
scan_down q zero = if q 0 == 0 then negsuc 0 else pos 0
scan_down q (suc n) = let rest = scan_down q n in if q (suc n) == 0 then rest else pos (suc n)

-- `while (best < kLevels && ask_qty_[best] == 0) ++best;` with `rounds` indices left
unfoldable pub scan_up : Levels → ℕ → ℕ → ℕ
scan_up q zero i = i
scan_up q (suc rounds) i = let rest = scan_up q rounds (i + 1) in if q i == 0 then rest else i

-- the branch of `reduce` for an index in the band
unfoldable pub reduce_at : OrderBook → Side → ℕ → ℕ → OrderBook
reduce_at b Side.buy idx qty =
    let q = clamped_sub (b.bid_qty idx) qty in
    let level = update b.bid_qty idx q in
    record b {
      bid_qty = level;
      best_bid_idx =
          if b.best_bid_idx ==ℤ pos idx && q == 0 then scan_down level idx else b.best_bid_idx;
    }
reduce_at b Side.sell idx qty =
    let q = clamped_sub (b.ask_qty idx) qty in
    let level = update b.ask_qty idx q in
    record b {
      ask_qty = level;
      best_ask_idx =
          if idx == b.best_ask_idx && q == 0
          then scan_up level (k_levels - idx) idx
          else b.best_ask_idx;
    }

-- `reduce`, with the Boolean that it returns
unfoldable pub reduce : OrderBook → Side → ℤ → ℕ → OrderBook × Bool
reduce b side price_ticks qty = elim (slot b price_ticks) [
  | none ↦ (drop_update b, false)
  | some idx ↦ (reduce_at b side idx qty, true)
]

-- `has_bid`: best_bid_idx_ >= 0
abbrev pub nonneg : ℤ → Bool
nonneg (pos _) = true
nonneg (negsuc _) = false

unfoldable pub has_bid : OrderBook → Bool
has_bid b = nonneg b.best_bid_idx

unfoldable pub has_ask : OrderBook → Bool
has_ask b = ltb b.best_ask_idx k_levels

unfoldable pub best_bid_ticks : OrderBook → ℤ
best_bid_ticks b = b.base_price +ℤ b.best_bid_idx

unfoldable pub best_ask_ticks : OrderBook → ℤ
best_ask_ticks b = b.base_price +ℤ pos b.best_ask_idx

-- a read at an index that the caller has checked
abbrev pub level_at : Levels → ℤ → ℕ
level_at q (pos i) = q i
level_at q (negsuc _) = 0

unfoldable pub best_bid_qty : OrderBook → ℕ
unfolding has_bid
best_bid_qty b = if has_bid b then level_at b.bid_qty b.best_bid_idx else 0

unfoldable pub best_ask_qty : OrderBook → ℕ
unfolding has_ask
best_ask_qty b = if has_ask b then b.ask_qty b.best_ask_idx else 0

abbrev pub side_levels : OrderBook → Side → Levels
side_levels b Side.buy = b.bid_qty
side_levels b Side.sell = b.ask_qty

unfoldable pub qty_at : OrderBook → Side → ℤ → ℕ
qty_at b side price_ticks = elim (slot b price_ticks) [
  | none ↦ 0
  | some idx ↦ side_levels b side idx
]
