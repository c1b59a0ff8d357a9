-- ===== src/Book/Depth.antt =====
-- What the best bid and the best offer of an OrderBook (include/order_book.hpp) promise of its depth.
use exchange_market_data_dec.Prelude.{
  ℕ, suc, ◌≤◌, ◌<◌, ℤ, pos, negsuc, ◌≤ℤ◌, true, false, ◌≡◌, refl, ◌≢◌, ◌⊎◌, inl, inr, ap,
  Bool-cases, ltb, arith, int_laws,
}
use exchange_market_data_dec.Protocol.{Side}
use exchange_market_data_dec.Book.{
  OrderBook, k_levels, has_bid, has_ask, best_bid_ticks, best_ask_ticks, best_bid_qty, best_ask_qty,
  qty_at, nonneg,
}
use exchange_market_data_dec.Book.Levels.{level_price, slot-level_price}
use exchange_market_data_dec.Book.Scan.{IsTopBid, IsEmptyBetween}
use exchange_market_data_dec.Book.Invariant.{IsValid}

pub qty_at-buy :
    (b : OrderBook) (i : ℕ) → i < k_levels → qty_at b Side.buy (level_price b i) ≡ b.bid_qty i
unfolding qty_at
qty_at-buy b i h = rw (slot-level_price b i h, qty_at) refl

pub qty_at-sell :
    (b : OrderBook) (i : ℕ) → i < k_levels → qty_at b Side.sell (level_price b i) ≡ b.ask_qty i
unfolding qty_at
qty_at-sell b i h = rw (slot-level_price b i h, qty_at) refl

-- What the best bid of a book says where there is one, at index `i`.
pub record BidAt (b : OrderBook) (i : ℕ) : Type 0 where
  pub small : i < k_levels
  pub index : b.best_bid_idx ≡ pos i
  pub filled : b.bid_qty i ≢ 0
  pub above : IsEmptyBetween b.bid_qty (suc i) k_levels
  pub ticks : best_bid_ticks b ≡ level_price b i
  pub qty : best_bid_qty b ≡ b.bid_qty i

-- What the best offer of a book says where there is one, at index `i`.
pub record AskAt (b : OrderBook) (i : ℕ) : Type 0 where
  pub small : i < k_levels
  pub index : b.best_ask_idx ≡ i
  pub filled : b.ask_qty i ≢ 0
  pub below : IsEmptyBetween b.ask_qty 0 i
  pub ticks : best_ask_ticks b ≡ level_price b i
  pub qty : best_ask_qty b ≡ b.ask_qty i

pub BidAt-cases :
    (b : OrderBook)
    → IsValid b
    → ((has_bid b ≡ true) × (i : ℕ) × BidAt b i)
      ⊎ ((has_bid b ≡ false) × IsEmptyBetween b.bid_qty 0 k_levels)
unfolding has_bid best_bid_ticks best_bid_qty
BidAt-cases b v = split b.best_bid_idx refl v.bid_top
  where
    split :
        (z : ℤ)
        → b.best_bid_idx ≡ z
        → IsTopBid b.bid_qty z
        → ((has_bid b ≡ true) × (i : ℕ) × BidAt b i)
          ⊎ ((has_bid b ≡ false) × IsEmptyBetween b.bid_qty 0 k_levels)
    split (pos n) e t = inl (
      ap nonneg e,
      n,
      record {
        small = t.0;
        index = e;
        filled = t.1;
        above = t.2;
        ticks = rw e;
        qty = rw (e, best_bid_qty) refl;
      },
    )
    split (negsuc n) e t = inr (ap nonneg e, t.1)

pub AskAt-cases :
    (b : OrderBook)
    → IsValid b
    → ((has_ask b ≡ true) × (i : ℕ) × AskAt b i)
      ⊎ ((has_ask b ≡ false) × IsEmptyBetween b.ask_qty 0 k_levels)
unfolding has_ask best_ask_ticks best_ask_qty
AskAt-cases b v = elim (Bool-cases (ltb b.best_ask_idx k_levels)) [
  | inl p ↦ inl (
    p,
    b.best_ask_idx,
    record {
      small = ground arith;
      index = refl;
      filled = v.ask_top.1 (ground arith);
      below = v.ask_top.2;
      ticks = refl;
      qty = rw (p, best_ask_qty) refl;
    },
  )
  | inr p ↦ inr (p, λ j lo hi. v.ask_top.2 j lo (ground arith))
]

level_price-le : (b : OrderBook) (i j : ℕ) → i ≤ j → level_price b i ≤ℤ level_price b j
level_price-le b i j h = omega int_laws

-- The best bid of a valid book is the quantity that rests at its price, and is not empty.
pub best_bid_lem :
    (b : OrderBook)
    → IsValid b
    → has_bid b ≡ true
    → (qty_at b Side.buy (best_bid_ticks b) ≡ best_bid_qty b) × (best_bid_qty b ≢ 0)
best_bid_lem b v h = elim (BidAt-cases b v) [
  | inl (_, i, t) ↦ (rw (t.ticks, t.qty) (qty_at-buy b i t.small), rw t.qty t.filled)
  | inr (no_bid, _) ↦ cc
]

-- The best offer of a valid book is the quantity that rests at its price, and is not empty.
pub best_ask_lem :
    (b : OrderBook)
    → IsValid b
    → has_ask b ≡ true
    → (qty_at b Side.sell (best_ask_ticks b) ≡ best_ask_qty b) × (best_ask_qty b ≢ 0)
best_ask_lem b v h = elim (AskAt-cases b v) [
  | inl (_, i, t) ↦ (rw (t.ticks, t.qty) (qty_at-sell b i t.small), rw t.qty t.filled)
  | inr (no_ask, _) ↦ cc
]

-- If any level of the band holds bids, a valid book has a best bid, and that level is not above it.
pub best_bid_greatest :
    (b : OrderBook)
    → IsValid b
    → (i : ℕ) → i < k_levels
    → qty_at b Side.buy (level_price b i) ≢ 0
    → (has_bid b ≡ true) × (level_price b i ≤ℤ best_bid_ticks b)
best_bid_greatest b v i lt ne = elim (BidAt-cases b v) [
  | inl (some_bid, n, t) ↦
      (some_bid, rw t.ticks (level_price-le b i n (ground (arith, qty_at-buy b i lt, t.above i))))
  | inr (_, empty) ↦ absurd (ground (arith, qty_at-buy b i lt, empty i))
]

-- If any level of the band holds offers, a valid book has a best offer, and that level is not below
-- it.
pub best_ask_least :
    (b : OrderBook)
    → IsValid b
    → (i : ℕ) → i < k_levels
    → qty_at b Side.sell (level_price b i) ≢ 0
    → (has_ask b ≡ true) × (best_ask_ticks b ≤ℤ level_price b i)
best_ask_least b v i lt ne = elim (AskAt-cases b v) [
  | inl (some_ask, n, t) ↦
      (some_ask, rw t.ticks (level_price-le b n i (ground (arith, qty_at-sell b i lt, t.below i))))
  | inr (_, empty) ↦ absurd (ground (arith, qty_at-sell b i lt, empty i))
]
