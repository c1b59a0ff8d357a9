-- ===== src/Guard/Tests.antt =====
-- Tests of TradeThroughGuard (include/trade_through_guard.hpp) and of src/nbbo_fault_injection.cpp, and
-- concrete instances of their theorems.
use exchange_market_data_dec.Prelude.{◌≤ℤ◌, pos, true, ◌≡◌, refl, arith, [], ◌∷◌, ◌+ℤ◌, some}
use exchange_market_data_dec.Protocol.{Side}
use exchange_market_data_dec.Book.{has_ask, best_ask_ticks, best_ask_qty}
use exchange_market_data_dec.Nbbo.{Quote, best_from, best_offer}
use exchange_market_data_dec.Guard.{OutboundOrder, accept, reject, evaluate}
use exchange_market_data_dec.Guard.Verdict.{Verdict, Beats, evaluate-Verdict, accepted_at_best}
use exchange_market_data_dec.Guard.Injection.{
  find_rival, find_victim, find_violation, touch_side, best_of,
}
use exchange_market_data_dec.Samples.{high_venue, low_venue, venues, low_touch}

-- a buy at 250.30 sent to the first venue, which the second one beats
abbrev bad_buy : OutboundOrder
bad_buy = record { side = Side.buy; limit_price_ticks = pos 25030; qty = 100; venue_id = 0 }

-- the same buy sent to the venue of the best offer
abbrev good_buy : OutboundOrder
good_buy = record bad_buy { venue_id = 1 }

abbrev low_offer : Quote
low_offer = record { venue_id = pos 1; price_ticks = pos 25005; qty = 50; valid = true }

evaluate_bad : evaluate bad_buy venues ≡ some (reject low_offer (pos 25030))
unfolding evaluate high_venue low_venue best_offer best_from has_ask best_ask_ticks best_ask_qty
    ◌+ℤ◌
evaluate_bad = refl

evaluate_good : evaluate good_buy venues ≡ some (accept (pos 25005))
unfolding evaluate high_venue low_venue best_offer best_from has_ask best_ask_ticks best_ask_qty
    ◌+ℤ◌
evaluate_good = refl

evaluate-Verdict_example : Verdict Side.buy bad_buy high_venue venues (reject low_offer (pos 25030))
evaluate-Verdict_example = evaluate-Verdict bad_buy high_venue venues refl _ evaluate_bad

good_takes : best_ask_ticks low_venue ≤ℤ pos 25030
unfolding low_venue best_ask_ticks ◌+ℤ◌
good_takes = omega arith

accepted_at_best_example : ¬ Beats Side.buy high_venue low_venue
accepted_at_best_example =
    accepted_at_best good_buy low_venue venues (accept (pos 25005)) 0 high_venue refl evaluate_good
      refl (low_touch.2, good_takes) refl

found : find_violation (touch_side Side.buy) (venues ∷ []) ≡ some (0, 1, venues)
unfolding find_violation find_victim find_rival high_venue low_venue has_ask best_ask_ticks ◌+ℤ◌
found = refl

best_is_low :
    ((best_of Side.buy venues).valid ≡ true) × ((best_of Side.buy venues).venue_id ≡ pos 1)
unfolding best_of high_venue low_venue best_offer best_from has_ask best_ask_ticks best_ask_qty ◌+ℤ◌
best_is_low = (refl, refl)
