-- ===== src/Guard/Verdict.antt =====
-- What the decision of TradeThroughGuard::evaluate (include/trade_through_guard.hpp) says of the
-- venues.
use exchange_market_data_dec.Prelude.{
  ℕ, ℤ, ◌≤ℤ◌, ◌<ℤ◌, ltb_ℤ, Bool, true, false, ◌≡◌, refl, inl, inr, arith, Bool-cases, subst, List,
  some, get_elem?, ap, ◌∙◌,
}
use exchange_market_data_dec.Protocol.{Side}
use exchange_market_data_dec.Book.{OrderBook, has_bid, has_ask, best_bid_ticks, best_ask_ticks}
use exchange_market_data_dec.Nbbo.{Quote, bid_side, offer_side, quote_of, best_bid, best_offer}
use exchange_market_data_dec.Nbbo.Best.{IsBest, nobody, venue, best_bid-IsBest, best_offer-IsBest}
use exchange_market_data_dec.Guard.{
  OutboundOrder, GuardDecision, GuardResult, accept, no_liquidity, reject, evaluate_buy,
  evaluate_sell, evaluate_at, evaluate,
}

-- Does the order take what its own venue shows?
abbrev pub IsMarketable : Side → OutboundOrder → OrderBook → Type 0
IsMarketable Side.buy order own =
    (has_ask own ≡ true) × (best_ask_ticks own ≤ℤ order.limit_price_ticks)
IsMarketable Side.sell order own =
    (has_bid own ≡ true) × (order.limit_price_ticks ≤ℤ best_bid_ticks own)

-- Does the touch of `rival` beat that of `own`, for an order of that side?
abbrev pub Beats : Side → OrderBook → OrderBook → Type 0
Beats Side.buy rival own = (has_ask rival ≡ true) × (best_ask_ticks rival <ℤ best_ask_ticks own)
Beats Side.sell rival own = (has_bid rival ≡ true) × (best_bid_ticks own <ℤ best_bid_ticks rival)

-- the touch that a quote of a venue repeats
abbrev pub side_quote : Side → ℕ → OrderBook → Quote
side_quote Side.buy = quote_of offer_side
side_quote Side.sell = quote_of bid_side

-- the price at which the order would execute at its own venue
abbrev pub own_touch : Side → OrderBook → ℤ
own_touch Side.buy = best_ask_ticks
own_touch Side.sell = best_bid_ticks

abbrev pub has_touch : Side → OrderBook → Bool
has_touch Side.buy = has_ask
has_touch Side.sell = has_bid

-- The order's limit does not reach its own venue's touch.
abbrev pub IsAway : Side → OutboundOrder → OrderBook → Type 0
IsAway Side.buy order own = order.limit_price_ticks <ℤ best_ask_ticks own
IsAway Side.sell order own = best_bid_ticks own <ℤ order.limit_price_ticks

-- The four things that the guard can find, with its result for each.
pub data Verdict (s : Side) (order : OutboundOrder) (own : OrderBook) (venues : List OrderBook)
    (r : GuardResult) : Type 0 where
  untouched : has_touch s own ≡ false → r ≡ no_liquidity → Verdict s order own venues r
  rests :
      has_touch s own ≡ true
      → IsAway s order own
      → r ≡ accept (own_touch s own)
      → Verdict s order own venues r
  clean :
      IsMarketable s order own
      → ((j : ℕ) (w : OrderBook) → get_elem? venues j ≡ some w → ¬ Beats s w own)
      → r ≡ accept (own_touch s own)
      → Verdict s order own venues r
  caught :
      IsMarketable s order own
      → (k : ℕ) (rival : OrderBook) → get_elem? venues k ≡ some rival
      → Beats s rival own
      → r ≡ reject (side_quote s k rival) (own_touch s own)
      → Verdict s order own venues r

same_venue :
    {k j : ℕ} (venues : List OrderBook) (v w : OrderBook)
    → k ≡ j
    → get_elem? venues k ≡ some v
    → get_elem? venues j ≡ some w
    → v ≡ w
same_venue venues v w e at at' = cc (ap (get_elem? venues) e)

module _ (order : OutboundOrder) (own : OrderBook) (venues : List OrderBook)
    (at_own : get_elem? venues order.venue_id ≡ some own) where
  marketable_buy :
      (q : Quote)
      → best_offer venues ≡ q
      → IsBest offer_side venues q
      → IsMarketable Side.buy order own
      → Verdict Side.buy order own venues (evaluate_buy order own venues)
  unfolding evaluate_buy
  marketable_buy q is (nobody e none_has) m =
      clean m (λ j w at beats. ground (arith, none_has j w at)) (ground arith)
  marketable_buy q is (venue k v at has e all before) m =
      elim (Bool-cases (ltb_ℤ (best_ask_ticks v) (best_ask_ticks own))) [
        | inl beyond ↦
            let other : ¬ (k ≡ order.venue_id) = (λ same.
              ground (arith, ap best_ask_ticks (same_venue venues v own same at at_own))) in
            caught m k v at (has, ground arith) (ground (arith, is ∙ e))
        | inr within ↦
            clean m (λ j w at' beats. ground (arith, all j w at')) (ground (arith, is ∙ e))
      ]

  marketable_sell :
      (q : Quote)
      → best_bid venues ≡ q
      → IsBest bid_side venues q
      → IsMarketable Side.sell order own
      → Verdict Side.sell order own venues (evaluate_sell order own venues)
  unfolding evaluate_sell
  marketable_sell q is (nobody e none_has) m =
      clean m (λ j w at beats. ground (arith, none_has j w at)) (ground arith)
  marketable_sell q is (venue k v at has e all before) m =
      elim (Bool-cases (ltb_ℤ (best_bid_ticks own) (best_bid_ticks v))) [
        | inl beyond ↦
            let other : ¬ (k ≡ order.venue_id) = (λ same.
              ground (arith, ap best_bid_ticks (same_venue venues v own same at at_own))) in
            caught m k v at (has, ground arith) (ground (arith, is ∙ e))
        | inr within ↦
            clean m (λ j w at' beats. ground (arith, all j w at')) (ground (arith, is ∙ e))
      ]

  evaluate_at-Verdict : (s : Side) → Verdict s order own venues (evaluate_at s order own venues)
  unfolding evaluate_at
  evaluate_at-Verdict Side.buy = elim (Bool-cases (has_ask own)) [
    | inl has ↦ elim (Bool-cases (ltb_ℤ order.limit_price_ticks (best_ask_ticks own))) [
      | inl away ↦ rests has (ground arith) (rw (has, away))
      | inr takes ↦ marketable_buy _ refl (best_offer-IsBest venues) (has, ground arith)
    ]
    | inr lacks ↦ untouched lacks (rw lacks)
  ]
  evaluate_at-Verdict Side.sell = elim (Bool-cases (has_bid own)) [
    | inl has ↦ elim (Bool-cases (ltb_ℤ (best_bid_ticks own) order.limit_price_ticks)) [
      | inl away ↦ rests has (ground arith) (rw (has, away))
      | inr takes ↦ marketable_sell _ refl (best_bid-IsBest venues) (has, ground arith)
    ]
    | inr lacks ↦ untouched lacks (rw lacks)
  ]

  -- The guard finds its own venue empty on the side that the order takes, or the order resting, or no
  -- better touch anywhere, or a better touch of another venue, and answers accordingly.
  pub evaluate-Verdict :
      (r : GuardResult) → evaluate order venues ≡ some r → Verdict order.side order own venues r
  unfolding evaluate
  evaluate-Verdict r e =
      let is : evaluate_at order.side order own venues ≡ r = ground (arith, at_own) in
      subst (Verdict order.side order own venues) is (evaluate_at-Verdict order.side)

  -- For an order to a venue that exists, the guard returns a result.
  pub evaluate-total : (r : GuardResult) × (evaluate order venues ≡ some r)
  unfolding evaluate
  evaluate-total = (evaluate_at order.side order own venues, rw (at_own, evaluate) refl)

-- No accepted order executes at its own venue through a better touch of any venue.
pub accepted_at_best :
    (order : OutboundOrder) (own : OrderBook) (venues : List OrderBook) (r : GuardResult) (j : ℕ)
    (w : OrderBook)
    → get_elem? venues order.venue_id ≡ some own
    → evaluate order venues ≡ some r
    → r.decision ≡ GuardDecision.accepted
    → IsMarketable order.side order own
    → get_elem? venues j ≡ some w
    → ¬ Beats order.side w own
accepted_at_best order own venues r j w at_own e ok m at =
    sound order.side m (evaluate-Verdict order own venues at_own r e)
  where
    sound : (s : Side) → IsMarketable s order own → Verdict s order own venues r → ¬ Beats s w own
    sound Side.buy m (untouched h q) = cc
    sound Side.sell m (untouched h q) = cc
    sound Side.buy m (rests h a q) = absurd (omega arith)
    sound Side.sell m (rests h a q) = absurd (omega arith)
    sound s m (clean _ all q) = all j w at
    sound s m (caught _ k v at' beats q) = cc (ap (λ (x : GuardResult). x.decision) q)

-- A marketable order is rejected as a trade-through where some venue has a better touch.
pub rejected_if_beaten :
    (order : OutboundOrder) (own : OrderBook) (venues : List OrderBook) (r : GuardResult) (j : ℕ)
    (w : OrderBook)
    → get_elem? venues order.venue_id ≡ some own
    → evaluate order venues ≡ some r
    → IsMarketable order.side order own
    → get_elem? venues j ≡ some w
    → Beats order.side w own
    → r.decision ≡ GuardDecision.rejected_trade_through
rejected_if_beaten order own venues r j w at_own e m at beats =
    complete order.side m beats (evaluate-Verdict order own venues at_own r e)
  where
    complete :
        (s : Side)
        → IsMarketable s order own
        → Beats s w own
        → Verdict s order own venues r
        → r.decision ≡ GuardDecision.rejected_trade_through
    complete Side.buy m b (untouched h q) = cc
    complete Side.sell m b (untouched h q) = cc
    complete Side.buy m b (rests h a q) = absurd (omega arith)
    complete Side.sell m b (rests h a q) = absurd (omega arith)
    complete s m b (clean _ all q) = absurd (all j w at b)
    complete s m b (caught _ k v at' beats q) = ap (λ (x : GuardResult). x.decision) q
