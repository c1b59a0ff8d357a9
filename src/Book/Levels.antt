-- ===== src/Book/Levels.antt =====
-- OrderBook::index_of and the level arrays (include/order_book.hpp): which prices have a level, and
-- what `add` and `reduce` do to each level.
use exchange_market_data_dec.Prelude.{
  ℕ, ◌+◌, ◌-◌, ◌<◌, ℤ, pos, negsuc, ◌+ℤ◌, Bool, false, ◌&&◌, ◌≡◌, arith, ◌==◌, if◌then◌else◌,
  Option, none, some, to_int32-pos, +ℤ-pos_cancel,
}
use exchange_market_data_dec.Protocol.{Side, same_side}
use exchange_market_data_dec.Book.{
  OrderBook, k_levels, index_of, in_band, slot, drop_update, add_at, add, reduce_at, reduce,
  side_levels,
}

-- The price of a level: its index above the base price.
abbrev pub level_price : OrderBook → ℕ → ℤ
level_price b i = b.base_price +ℤ pos i

-- Does the slot `o` lie at index `j`?
abbrev pub is_at : Option ℕ → ℕ → Bool
is_at none j = false
is_at (some i) j = i == j

abbrev pub when : Bool → ℕ → ℕ
when c n = if c then n else 0

-- Each index of the array is the slot of the price that many ticks above the base price.
pub slot-level_price : (b : OrderBook) (i : ℕ) → i < k_levels → slot b (level_price b i) ≡ some i
unfolding slot index_of
slot-level_price b i h =
    rw (+ℤ-pos_cancel b.base_price i, to_int32-pos i (omega arith)) (ground arith)

-- A slot is an index of the array.
pub slot-lt : (b : OrderBook) (p : ℤ) {i : ℕ} → slot b p ≡ some i → i < k_levels
unfolding slot
slot-lt b p {i} h = in_band-lt (index_of b p) h
  where
    in_band-lt : (z : ℤ) → in_band z ≡ some i → i < k_levels
    in_band-lt (pos n) e = ground arith
    in_band-lt (negsuc n) e = cc

-- The book after each operation has the base price that it had.
pub base_price-add :
    (b : OrderBook) (s : Side) (p : ℤ) (n : ℕ) → (add b s p n).0.base_price ≡ b.base_price
unfolding add add_at drop_update
base_price-add b Side.buy p n = ground arith
base_price-add b Side.sell p n = ground arith

pub base_price-reduce :
    (b : OrderBook) (s : Side) (p : ℤ) (n : ℕ) → (reduce b s p n).0.base_price ≡ b.base_price
unfolding reduce reduce_at drop_update
base_price-reduce b Side.buy p n = ground arith
base_price-reduce b Side.sell p n = ground arith

-- Slots depend on the base price only.
pub slot_of_base : (b c : OrderBook) (p : ℤ) → c.base_price ≡ b.base_price → slot c p ≡ slot b p
unfolding slot index_of
slot_of_base b c p e = rw e

pub slot-add :
    (b : OrderBook) (s : Side) (p : ℤ) (n : ℕ) (p' : ℤ) → slot (add b s p n).0 p' ≡ slot b p'
slot-add b s p n p' = slot_of_base b (add b s p n).0 p' (base_price-add b s p n)

pub slot-reduce :
    (b : OrderBook) (s : Side) (p : ℤ) (n : ℕ) (p' : ℤ) → slot (reduce b s p n).0 p' ≡ slot b p'
slot-reduce b s p n p' = slot_of_base b (reduce b s p n).0 p' (base_price-reduce b s p n)

-- `add` adds the quantity at the slot of its price, on its side, and changes no other level.
pub levels-add :
    (b : OrderBook) (s : Side) (p : ℤ) (n : ℕ) (s' : Side) (j : ℕ)
    → side_levels (add b s p n).0 s' j
      ≡ side_levels b s' j + when (same_side s s' && is_at (slot b p) j) n
unfolding add add_at drop_update
levels-add b Side.buy p n Side.buy j = ground arith
levels-add b Side.buy p n Side.sell j = ground arith
levels-add b Side.sell p n Side.buy j = ground arith
levels-add b Side.sell p n Side.sell j = ground arith

-- `reduce` takes the quantity away there, stopping at 0, and changes no other level.
pub levels-reduce :
    (b : OrderBook) (s : Side) (p : ℤ) (n : ℕ) (s' : Side) (j : ℕ)
    → side_levels (reduce b s p n).0 s' j
      ≡ side_levels b s' j - when (same_side s s' && is_at (slot b p) j) n
unfolding reduce reduce_at drop_update
levels-reduce b Side.buy p n Side.buy j = ground arith
levels-reduce b Side.buy p n Side.sell j = ground arith
levels-reduce b Side.sell p n Side.buy j = ground arith
levels-reduce b Side.sell p n Side.sell j = ground arith
