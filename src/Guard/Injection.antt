-- ===== src/Guard/Injection.antt =====
-- src/nbbo_fault_injection.cpp: the search for a genuine trade-through, the orders that the harness
-- sends. The venues' order flow is the list of states that `step_all` runs through, one for each
-- round of the search.
pub mod Search
pub mod Sessions
use exchange_market_data_dec.Prelude.{
  ℕ, suc, ◌+◌, ℤ, pos, ◌+ℤ◌, ◌-ℤ◌, Bool, true, false, not, ◌||◌, ◌≡◌, refl, inl, inr, arith, ◌==◌,
  if◌then◌else◌, Bool-cases, Option-cases, subst, List, [], ◌∷◌, Option, none, some, get_elem?, ap,
}
use exchange_market_data_dec.Protocol.{Side}
use exchange_market_data_dec.Book.{OrderBook}
use exchange_market_data_dec.Nbbo.{Quote, TouchSide, bid_side, offer_side, best_bid, best_offer}
use exchange_market_data_dec.Nbbo.Best.{IsBest, nobody, venue, best_bid-IsBest, best_offer-IsBest}
use exchange_market_data_dec.Guard.{OutboundOrder, GuardDecision, GuardResult, evaluate}
use exchange_market_data_dec.Guard.Verdict.{
  Verdict, untouched, rests, clean, caught, IsMarketable, Beats, evaluate-Verdict, evaluate-total,
  rejected_if_beaten,
}

-- the inner loop, from venue `j` on: the first other venue with a better touch than `own`
unfoldable pub find_rival : TouchSide → ℕ → OrderBook → ℕ → List OrderBook → Option ℕ
find_rival t i own j [] = none
find_rival t i own j (w ∷ rest) =
    let later = find_rival t i own (j + 1) rest in
    if i == j || not (t.has w)
    then later
    else if t.better (t.ticks w) (t.ticks own)
    then some j
    else later

-- the outer loop, from venue `i` on: victim and rival
unfoldable pub find_victim : TouchSide → List OrderBook → ℕ → List OrderBook → Option (ℕ × ℕ)
find_victim t venues i [] = none
find_victim t venues i (v ∷ rest) =
    let later = find_victim t venues (i + 1) rest in
    if not (t.has v)
    then later
    else elim (find_rival t i v 0 venues) [ none ↦ later | some j ↦ some (i, j) ]

-- `find_buy_violation` and `find_sell_violation`: the first state with such a pair, and the pair
unfoldable pub find_violation : TouchSide → List (List OrderBook) → Option (ℕ × ℕ × List OrderBook)
find_violation t [] = none
find_violation t (venues ∷ states) =
    let later = find_violation t states in
    elim (find_victim t venues 0 venues) [ none ↦ later | some (i, j) ↦ some (i, j, venues) ]

abbrev pub touch_side : Side → TouchSide
touch_side Side.buy = offer_side
touch_side Side.sell = bid_side

-- the order that part 1 sends: 100 at the victim's own touch
abbrev pub seeded_order : Side → ℕ → OrderBook → OutboundOrder
seeded_order s victim own = record {
  side = s;
  limit_price_ticks = (touch_side s).ticks own;
  qty = 100;
  venue_id = victim;
}

-- the two orders that part 2 sends to the venue of the best quote: away from the market, or at it
abbrev pub away_price : Side → ℤ → ℤ
away_price Side.buy price = price -ℤ pos 500
away_price Side.sell price = price +ℤ pos 500

abbrev pub clean_order : Side → Bool → ℕ → ℤ → OutboundOrder
clean_order s resting venue_id price = record {
  side = s;
  limit_price_ticks = if resting then away_price s price else price;
  qty = 100;
  venue_id = venue_id;
}

-- the best quote on the side that the order takes
unfoldable pub best_of : Side → List OrderBook → Quote
best_of Side.buy venues = best_offer venues
best_of Side.sell venues = best_bid venues
