-- ===== src/Guard.antt =====
-- include/trade_through_guard.hpp: the check of an outbound order against better quotes elsewhere.
-- `none` stands for `venues[order.venue_id]` out of range, which the code does not check.
pub mod Verdict
pub mod Injection
mod Tests
use exchange_market_data_dec.Prelude.{
  ℕ, ℤ, pos, ltb_ℤ, ◌==ℤ◌, Bool, true, not, ◌&&◌, List, Option, none, some, get_elem?,
  if◌then◌else◌, ltb, ◌==◌,
}
use exchange_market_data_dec.Protocol.{Side}
use exchange_market_data_dec.Book.{OrderBook, has_bid, has_ask, best_bid_ticks, best_ask_ticks}
use exchange_market_data_dec.Nbbo.{Quote, best_bid, best_offer}

-- `struct OutboundOrder`
pub record OutboundOrder : Type 0 where
  pub side : Side
  pub limit_price_ticks : ℤ
  pub qty : ℕ
  pub venue_id : ℕ

-- `enum class GuardDecision`
pub data GuardDecision : Type 0 where
  accepted rejected_trade_through rejected_no_liquidity : GuardDecision

-- `struct GuardResult`
pub record GuardResult : Type 0 where
  pub decision : GuardDecision
  pub better_quote : Option Quote
  pub own_touch_ticks : ℤ

abbrev pub accept : ℤ → GuardResult
accept own_touch = record {
  decision = GuardDecision.accepted;
  better_quote = none;
  own_touch_ticks = own_touch;
}

abbrev pub no_liquidity : GuardResult
no_liquidity = record {
  decision = GuardDecision.rejected_no_liquidity;
  better_quote = none;
  own_touch_ticks = pos 0;
}

abbrev pub reject : Quote → ℤ → GuardResult
reject q own_touch = record {
  decision = GuardDecision.rejected_trade_through;
  better_quote = some q;
  own_touch_ticks = own_touch;
}

-- the branch of a buy order, at its own venue
unfoldable pub evaluate_buy : OutboundOrder → OrderBook → List OrderBook → GuardResult
evaluate_buy order own venues =
    if not (has_ask own)
    then no_liquidity
    else if ltb_ℤ order.limit_price_ticks (best_ask_ticks own)
    then accept (best_ask_ticks own)
    else let nbo = best_offer venues in
      if nbo.valid
        && (not (nbo.venue_id ==ℤ pos order.venue_id) && ltb_ℤ nbo.price_ticks (best_ask_ticks own))
      then reject nbo (best_ask_ticks own)
      else accept (best_ask_ticks own)

-- the branch of a sell order, at its own venue
unfoldable pub evaluate_sell : OutboundOrder → OrderBook → List OrderBook → GuardResult
evaluate_sell order own venues =
    if not (has_bid own)
    then no_liquidity
    else if ltb_ℤ (best_bid_ticks own) order.limit_price_ticks
    then accept (best_bid_ticks own)
    else let nbb = best_bid venues in
      if nbb.valid
        && (not (nbb.venue_id ==ℤ pos order.venue_id) && ltb_ℤ (best_bid_ticks own) nbb.price_ticks)
      then reject nbb (best_bid_ticks own)
      else accept (best_bid_ticks own)

unfoldable pub evaluate_at : Side → OutboundOrder → OrderBook → List OrderBook → GuardResult
unfolding evaluate_buy evaluate_sell
evaluate_at Side.buy order own venues = evaluate_buy order own venues
evaluate_at Side.sell order own venues = evaluate_sell order own venues

-- `TradeThroughGuard::evaluate`
unfoldable pub evaluate : OutboundOrder → List OrderBook → Option GuardResult
unfolding evaluate_at
evaluate order venues = elim (get_elem? venues order.venue_id) [
  | none ↦ none
  | some own ↦ some (evaluate_at order.side order own venues)
]
