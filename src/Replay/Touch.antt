-- ===== src/Replay/Touch.antt =====
-- The touch of a replayed book (include/backtest_sim.hpp) against the orders that rest in it.
use exchange_market_data_dec.Prelude.{
  ℕ, ◌<◌, ℤ, ◌≤ℤ◌, List, some, nat_eq, ◌≡◌, ◌≢◌, sym, ◌∙◌, ap, subst, true, arith,
}
use exchange_market_data_dec.Protocol.{Side, WireMsg}
use exchange_market_data_dec.Map.{find}
use exchange_market_data_dec.Map.Laws.{le-total, find-AllValues}
use exchange_market_data_dec.Book.{
  OrderBook, k_levels, slot, has_bid, has_ask, best_bid_ticks, best_ask_ticks, side_levels,
}
use exchange_market_data_dec.Book.Levels.{level_price, slot-lt, slot-level_price}
use exchange_market_data_dec.Book.Depth.{qty_at-buy, qty_at-sell, best_bid_greatest, best_ask_least}
use exchange_market_data_dec.Replay.{RestingLoc, State, replay, fresh, IsConsistentStream}
use exchange_market_data_dec.Replay.Conservation.{
  IsConserved, IsPositive, share, replay-IsConserved,
}

-- the level of a resting order is not empty
level_filled :
    (st : State)
    → IsConserved st
    → (id i : ℕ) (o : RestingLoc) → find id st.orders ≡ some o
    → slot st.book o.price_ticks ≡ some i
    → side_levels st.book o.side i ≢ 0
level_filled st c id i o live at = ground (
  arith,
  c.levels o.side i,
  le-total (share st.book o.side i) id o st.orders live,
  find-AllValues IsPositive id st.orders live c.positive,
)

-- On a conserved book, no level that a buy order rests on is above the best bid.
resting_bid_level :
    (st : State)
    → IsConserved st
    → (id i : ℕ) (o : RestingLoc) → find id st.orders ≡ some o
    → o.side ≡ Side.buy
    → slot st.book o.price_ticks ≡ some i
    → (has_bid st.book ≡ true) × (level_price st.book i ≤ℤ best_bid_ticks st.book)
resting_bid_level st c id i o live buys at =
    best_bid_greatest st.book c.valid i (slot-lt st.book o.price_ticks at) (
      rw (qty_at-buy st.book i (slot-lt st.book o.price_ticks at))
        (ground (arith, level_filled st c id i o live at)))

-- On a conserved book, no level that a sell order rests on is below the best offer.
resting_offer_level :
    (st : State)
    → IsConserved st
    → (id i : ℕ) (o : RestingLoc) → find id st.orders ≡ some o
    → o.side ≡ Side.sell
    → slot st.book o.price_ticks ≡ some i
    → (has_ask st.book ≡ true) × (best_ask_ticks st.book ≤ℤ level_price st.book i)
resting_offer_level st c id i o live sells at =
    best_ask_least st.book c.valid i (slot-lt st.book o.price_ticks at) (
      rw (qty_at-sell st.book i (slot-lt st.book o.price_ticks at))
        (ground (arith, level_filled st c id i o live at)))

-- the price is one of the band's own, that of some level
abbrev pub IsBandPrice : OrderBook → ℤ → Type 0
IsBandPrice b p = (i : ℕ) × (i < k_levels) × (p ≡ level_price b i)

-- After a consistent stream of messages on a fresh book, no resting buy order whose price is in the
-- book's band has a price above the best bid, and while there is such an order there is a best bid.
pub replay-bid_le_best :
    (p : ℤ) (ms : List WireMsg) (id : ℕ) (o : RestingLoc)
    → IsConsistentStream ms (fresh p)
    → find id (replay ms (fresh p)).orders ≡ some o
    → o.side ≡ Side.buy
    → IsBandPrice (replay ms (fresh p)).book o.price_ticks
    → let book = (replay ms (fresh p)).book in
      (has_bid book ≡ true) × (o.price_ticks ≤ℤ best_bid_ticks book)
replay-bid_le_best p ms id o consistent live buys (i, lt, at) =
    let st = replay ms (fresh p) in
    let in_slot = ap (slot st.book) at ∙ slot-level_price st.book i lt in
    let (has, le) =
      resting_bid_level st (replay-IsConserved p ms consistent) id i o live buys in_slot in
    (has, subst (λ z. z ≤ℤ best_bid_ticks st.book) (sym at) le)

-- After a consistent stream of messages on a fresh book, no resting sell order whose price is in the
-- book's band has a price below the best offer, and while there is such an order there is a best offer.
pub replay-best_le_offer :
    (p : ℤ) (ms : List WireMsg) (id : ℕ) (o : RestingLoc)
    → IsConsistentStream ms (fresh p)
    → find id (replay ms (fresh p)).orders ≡ some o
    → o.side ≡ Side.sell
    → IsBandPrice (replay ms (fresh p)).book o.price_ticks
    → let book = (replay ms (fresh p)).book in
      (has_ask book ≡ true) × (best_ask_ticks book ≤ℤ o.price_ticks)
replay-best_le_offer p ms id o consistent live sells (i, lt, at) =
    let st = replay ms (fresh p) in
    let in_slot = ap (slot st.book) at ∙ slot-level_price st.book i lt in
    let (has, le) =
      resting_offer_level st (replay-IsConserved p ms consistent) id i o live sells in_slot in
    (has, subst (λ z. best_ask_ticks st.book ≤ℤ z) (sym at) le)
