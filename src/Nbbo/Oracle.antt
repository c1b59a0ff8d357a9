-- ===== src/Nbbo/Oracle.antt =====
-- The oracles of include/nbbo.hpp, which scan every level of a book, against the touch that the book
-- keeps incrementally.
use exchange_market_data_dec.Prelude.{
  ℕ, zero, suc, ◌+◌, ◌≤◌, ◌<◌, ℤ, pos, true, ◌≡◌, ◌≢◌, refl, inl, inr, arith, ◌==◌, if◌then◌else◌,
  Bool-cases,
}
use exchange_market_data_dec.Book.{OrderBook, k_levels}
use exchange_market_data_dec.Book.Scan.{IsEmptyBetween}
use exchange_market_data_dec.Book.Levels.{level_price}
use exchange_market_data_dec.Book.Invariant.{IsValid}
use exchange_market_data_dec.Book.Depth.{BidAt-cases, AskAt-cases}
use exchange_market_data_dec.Nbbo.{
  Quote, no_quote, to_uint32, TouchSide, bid_side, offer_side, quote_of, oracle_bid_from,
  oracle_best_bid, oracle_ask_from, oracle_best_ask,
}

-- The quote of a venue by the touch that its book keeps.
abbrev pub touch : TouchSide → ℕ → OrderBook → Quote
touch t i b = if t.has b then quote_of t i b else no_quote

module _ (b : OrderBook) (v : ℤ) where
  -- the quote of a level
  abbrev level_quote : ℕ → ℕ → Quote
  level_quote i n = record {
    venue_id = v;
    price_ticks = level_price b i;
    qty = to_uint32 n;
    valid = true;
  }

  oracle_bid-empty : (n : ℕ) → IsEmptyBetween b.bid_qty 0 n → oracle_bid_from b v n ≡ no_quote
  unfolding oracle_bid_from
  oracle_bid-empty zero e = refl
  oracle_bid-empty (suc n) e =
      ground (arith, e n, oracle_bid-empty n (λ j lo hi. e j lo (omega arith)))

  oracle_bid-at :
      (n i : ℕ)
      → i < n
      → b.bid_qty i ≢ 0
      → IsEmptyBetween b.bid_qty (suc i) n
      → oracle_bid_from b v n ≡ level_quote i (b.bid_qty i)
  unfolding oracle_bid_from
  oracle_bid-at zero i lt ne e = absurd (omega arith)
  oracle_bid-at (suc n) i lt ne e = elim (Bool-cases (i == n)) [
    | inl last ↦ ground arith
    | inr more ↦
        ground (arith, e n, oracle_bid-at n i (ground arith) ne (λ j lo hi. e j lo (omega arith)))
  ]

  oracle_ask-empty :
      (rounds i : ℕ)
      → IsEmptyBetween b.ask_qty i (i + rounds)
      → oracle_ask_from b v rounds i ≡ no_quote
  unfolding oracle_ask_from
  oracle_ask-empty zero i e = refl
  oracle_ask-empty (suc rounds) i e =
      ground
        (arith, e i, oracle_ask-empty rounds (i + 1) (λ j lo hi. e j (omega arith) (omega arith)))

  oracle_ask-at :
      (rounds i k : ℕ)
      → i ≤ k
      → k < i + rounds
      → b.ask_qty k ≢ 0
      → IsEmptyBetween b.ask_qty i k
      → oracle_ask_from b v rounds i ≡ level_quote k (b.ask_qty k)
  unfolding oracle_ask_from
  oracle_ask-at zero i k le lt ne e = absurd (omega arith)
  oracle_ask-at (suc rounds) i k le lt ne e = elim (Bool-cases (i == k)) [
    | inl first ↦ ground arith
    | inr more ↦ ground (
      arith,
      e i,
      oracle_ask-at rounds (i + 1) k (ground arith) (omega arith) ne
          (λ j lo hi. e j (omega arith) hi),
    )
  ]

-- For a valid book the scan of all levels for the best bid finds the touch that the book keeps.
pub oracle_best_bid_lem :
    (b : OrderBook) (i : ℕ) → IsValid b → oracle_best_bid b (pos i) ≡ touch bid_side i b
unfolding oracle_best_bid
oracle_best_bid_lem b i v = elim (BidAt-cases b v) [
  | inl (some_bid, n, t) ↦
      rw (some_bid, t.ticks, t.qty) (oracle_bid-at b (pos i) k_levels n t.small t.filled t.above)
  | inr (no_bid, empty) ↦ rw no_bid (oracle_bid-empty b (pos i) k_levels empty)
]

-- For a valid book the scan of all levels for the best offer finds the touch that the book keeps.
pub oracle_best_ask_lem :
    (b : OrderBook) (i : ℕ) → IsValid b → oracle_best_ask b (pos i) ≡ touch offer_side i b
unfolding oracle_best_ask
oracle_best_ask_lem b i v = elim (AskAt-cases b v) [
  | inl (some_ask, n, t) ↦
      rw (some_ask, t.ticks, t.qty)
        (oracle_ask-at b (pos i) k_levels 0 n (omega arith) (omega (arith, t.small)) t.filled
          t.below)
  | inr (no_ask, empty) ↦
      rw no_ask (oracle_ask-empty b (pos i) k_levels 0 (λ j lo hi. empty j lo hi))
]
