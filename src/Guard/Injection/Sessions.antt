-- ===== src/Guard/Injection/Sessions.antt =====
-- The guard's answers to the orders that src/nbbo_fault_injection.cpp sends.
use exchange_market_data_dec.Prelude.{
  ℕ, pos, Bool, true, false, ◌≡◌, arith, List, some, get_elem?, ap,
}
use exchange_market_data_dec.Protocol.{Side}
use exchange_market_data_dec.Book.{OrderBook}
use exchange_market_data_dec.Nbbo.{Quote}
use exchange_market_data_dec.Nbbo.Best.{IsBest, nobody, venue, best_bid-IsBest, best_offer-IsBest}
use exchange_market_data_dec.Guard.{OutboundOrder, GuardDecision, GuardResult, evaluate}
use exchange_market_data_dec.Guard.Verdict.{
  Verdict, untouched, rests, clean, caught, IsMarketable, Beats, evaluate-Verdict, evaluate-total,
  rejected_if_beaten,
}
use exchange_market_data_dec.Guard.Injection.{
  find_violation, touch_side, seeded_order, clean_order, best_of,
}
use exchange_market_data_dec.Guard.Injection.Search.{find_violation-IsViolation}

violation-Beats :
    (s : Side) (own other : OrderBook)
    → (touch_side s).has other ≡ true
    → (touch_side s).better ((touch_side s).ticks other) ((touch_side s).ticks own) ≡ true
    → Beats s other own
violation-Beats Side.buy own other has beats = (has, ground arith)
violation-Beats Side.sell own other has beats = (has, ground arith)

seeded-IsMarketable :
    (s : Side) (victim : ℕ) (own : OrderBook)
    → (touch_side s).has own ≡ true
    → IsMarketable s (seeded_order s victim own) own
seeded-IsMarketable Side.buy victim own has = (has, omega arith)
seeded-IsMarketable Side.sell victim own has = (has, omega arith)

-- Every trade-through that the search finds is caught: the guard answers the order that the harness
-- then sends to the victim, and rejects it as a trade-through.
pub seeded_caught :
    (s : Side) (states : List (List OrderBook)) (victim rival : ℕ) (venues : List OrderBook)
    (own : OrderBook)
    → find_violation (touch_side s) states ≡ some (victim, rival, venues)
    → get_elem? venues victim ≡ some own
    → (r : GuardResult) × (evaluate (seeded_order s victim own) venues ≡ some r)
      × (r.decision ≡ GuardDecision.rejected_trade_through)
seeded_caught s states victim rival venues own e at =
    let v = find_violation-IsViolation (touch_side s) states victim rival venues e in
    let same : v.own ≡ own = cc v.own_at in
    let order = seeded_order s victim own in
    let (r, is) = evaluate-total order own venues at in
    (
      r,
      is,
      rejected_if_beaten order own venues r rival v.other at is
          (seeded-IsMarketable s victim own (rw same at v.own_has)) v.other_at
          (violation-Beats s own v.other v.other_has (rw same at v.beats)),
    )

pub best_of-IsBest :
    (s : Side) (venues : List OrderBook) → IsBest (touch_side s) venues (best_of s venues)
unfolding best_of
best_of-IsBest Side.buy venues = best_offer-IsBest venues
best_of-IsBest Side.sell venues = best_bid-IsBest venues

accepted_at :
    (s : Side) (order : OutboundOrder) (own : OrderBook) (venues : List OrderBook) (r : GuardResult)
    → (touch_side s).has own ≡ true
    → ((j : ℕ) (w : OrderBook) → get_elem? venues j ≡ some w → ¬ Beats s w own)
    → Verdict s order own venues r
    → r.decision ≡ GuardDecision.accepted
accepted_at Side.buy order own venues r has best (untouched h q) = cc
accepted_at Side.sell order own venues r has best (untouched h q) = cc
accepted_at s order own venues r has best (rests h a q) = ap (λ (x : GuardResult). x.decision) q
accepted_at s order own venues r has best (clean m all q) = ap (λ (x : GuardResult). x.decision) q
accepted_at s order own venues r has best (caught m k v at beats q) = absurd (best k v at beats)

not-Beats :
    (s : Side) (own other : OrderBook)
    → ((touch_side s).has other ≡ true
        → (touch_side s).better ((touch_side s).ticks other) ((touch_side s).ticks own) ≡ false)
    → ¬ Beats s other own
not-Beats Side.buy own other h b = ground (arith, h b.0)
not-Beats Side.sell own other h b = ground (arith, h b.0)

clean_best :
    (s : Side) (resting : Bool) (k : ℕ) (venues : List OrderBook) (q : Quote)
    → IsBest (touch_side s) venues q
    → q.valid ≡ true
    → q.venue_id ≡ pos k
    → (r : GuardResult) × (evaluate (clean_order s resting k q.price_ticks) venues ≡ some r)
      × (r.decision ≡ GuardDecision.accepted)
clean_best s resting k venues q (nobody e h) valid at_k =
    let invalid : q.valid ≡ false = ap (λ (x : Quote). x.valid) e in cc
clean_best s resting k venues q (venue j v at has e all before) valid at_k =
    let place : j ≡ k = ground arith in
    let at' : get_elem? venues k ≡ some v = rw place at at in
    let order = clean_order s resting k q.price_ticks in
    let (r, is) = evaluate-total order v venues at' in
    (
      r,
      is,
      accepted_at s order v venues r has (λ i w at_i. not-Beats s v w (all i w at_i))
          (evaluate-Verdict order v venues at' r is),
    )

-- No clean order is rejected: whatever the venues hold, an order that the harness sends to the venue
-- of the best quote, at that price or 500 ticks away from the market, is answered and accepted.
pub clean_accepted :
    (s : Side) (resting : Bool) (k : ℕ) (venues : List OrderBook)
    → (best_of s venues).valid ≡ true
    → (best_of s venues).venue_id ≡ pos k
    → (r : GuardResult) × (evaluate (clean_order s resting k (best_of s venues).price_ticks) venues
        ≡ some r)
      × (r.decision ≡ GuardDecision.accepted)
clean_accepted s resting k venues =
    clean_best s resting k venues (best_of s venues) (best_of-IsBest s venues)
