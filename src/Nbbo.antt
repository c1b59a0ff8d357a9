-- ===== src/Nbbo.antt =====
-- include/nbbo.hpp: the best bid and offer over several venues, locked and crossed pairs, and the
-- oracles that scan every level of a book. A venue is its book; its index is its place in the list.
pub mod Best
pub mod Extremes
pub mod Pairs
pub mod Oracle
mod Tests
use exchange_market_data_dec.Prelude.{
  ℕ, zero, suc, ◌+◌, ◌-◌, ◌%◌, ◌^◌, ℤ, pos, negsuc, ◌+ℤ◌, ltb_ℤ, ◌==ℤ◌, Bool, true, false, not,
  ◌&&◌, ◌||◌, List, [], ◌∷◌, ◌++◌, ltb, ◌==◌, if◌then◌else◌,
}
use exchange_market_data_dec.Book.{
  OrderBook, Levels, k_levels, has_bid, has_ask, best_bid_ticks, best_ask_ticks, best_bid_qty,
  best_ask_qty,
}

-- `struct Quote`
pub record Quote : Type 0 where
  pub venue_id : ℤ
  pub price_ticks : ℤ
  pub qty : ℕ
  pub valid : Bool

-- `Quote{}`
abbrev pub no_quote : Quote
no_quote = record { venue_id = negsuc 0; price_ticks = pos 0; qty = 0; valid = false }

-- `static_cast<uint32_t>` of a level's quantity
abbrev pub to_uint32 : ℕ → ℕ
to_uint32 n = n % 2 ^ 32

-- `enum class QuoteRelation`
pub data QuoteRelation : Type 0 where
  locked crossed : QuoteRelation

-- `struct LockedCrossedPair`
pub record LockedCrossedPair : Type 0 where
  pub bid_venue : ℕ
  pub offer_venue : ℕ
  pub bid_ticks : ℤ
  pub offer_ticks : ℤ
  pub relation : QuoteRelation

-- One side of the touch of a venue, and which of two prices on it is the better.
pub record TouchSide : Type 0 where
  pub has : OrderBook → Bool
  pub ticks : OrderBook → ℤ
  pub qty : OrderBook → ℕ
  pub better : ℤ → ℤ → Bool

abbrev pub bid_side : TouchSide
bid_side = record {
  has = has_bid;
  ticks = best_bid_ticks;
  qty = best_bid_qty;
  better = λ px best. ltb_ℤ best px;
}

abbrev pub offer_side : TouchSide
offer_side = record {
  has = has_ask;
  ticks = best_ask_ticks;
  qty = best_ask_qty;
  better = λ px best. ltb_ℤ px best;
}

-- The quote that venue `i` makes.
abbrev pub quote_of : TouchSide → ℕ → OrderBook → Quote
quote_of t i v = record {
  venue_id = pos i;
  price_ticks = t.ticks v;
  qty = to_uint32 (t.qty v);
  valid = true;
}

-- The loop that best_bid and best_offer share, from index `i` on.
unfoldable pub best_from : TouchSide → ℕ → Quote → List OrderBook → Quote
best_from t i best [] = best
best_from t i best (v ∷ venues) =
    best_from t (i + 1)
      (if t.has v && (not best.valid || t.better (t.ticks v) best.price_ticks)
        then quote_of t i v
        else best)
      venues

-- `NbboAggregator::best_bid`
unfoldable pub best_bid : List OrderBook → Quote
best_bid venues = best_from bid_side 0 no_quote venues

-- `NbboAggregator::best_offer`
unfoldable pub best_offer : List OrderBook → Quote
best_offer venues = best_from offer_side 0 no_quote venues

-- the pairs that a bid and an offer of two venues make: none or one
unfoldable pub relate : ℕ → ℕ → ℤ → ℤ → List LockedCrossedPair
relate i j bid offer =
    if bid ==ℤ offer
    then record {
      bid_venue = i;
      offer_venue = j;
      bid_ticks = bid;
      offer_ticks = offer;
      relation = QuoteRelation.locked;
    }
      ∷ []
    else if ltb_ℤ offer bid
    then record {
      bid_venue = i;
      offer_venue = j;
      bid_ticks = bid;
      offer_ticks = offer;
      relation = QuoteRelation.crossed;
    }
      ∷ []
    else []

-- the inner loop of classify, from index `j` on
unfoldable pub against_offers : ℕ → ℤ → ℕ → List OrderBook → List LockedCrossedPair
against_offers i bid j [] = []
against_offers i bid j (v ∷ venues) =
    (if i == j || not (has_ask v) then [] else relate i j bid (best_ask_ticks v))
    ++ against_offers i bid (j + 1) venues

-- the outer loop of classify, from index `i` on
unfoldable pub classify_from : List OrderBook → ℕ → List OrderBook → List LockedCrossedPair
classify_from venues i [] = []
classify_from venues i (v ∷ rest) =
    (if has_bid v then against_offers i (best_bid_ticks v) 0 venues else [])
    ++ classify_from venues (i + 1) rest

-- `NbboAggregator::classify`
unfoldable pub classify : List OrderBook → List LockedCrossedPair
classify venues = classify_from venues 0 venues

-- `oracle_best_bid`: from the top index down, with `n` indices left
unfoldable pub oracle_bid_from : OrderBook → ℤ → ℕ → Quote
oracle_bid_from b venue_id zero = no_quote
oracle_bid_from b venue_id (suc n) =
    let rest = oracle_bid_from b venue_id n in
    if ltb 0 (b.bid_qty n)
    then record {
      venue_id = venue_id;
      price_ticks = b.base_price +ℤ pos n;
      qty = to_uint32 (b.bid_qty n);
      valid = true;
    }
    else rest

unfoldable pub oracle_best_bid : OrderBook → ℤ → Quote
oracle_best_bid b venue_id = oracle_bid_from b venue_id k_levels

-- `oracle_best_ask`: from index `i` up, with `rounds` indices left
unfoldable pub oracle_ask_from : OrderBook → ℤ → ℕ → ℕ → Quote
oracle_ask_from b venue_id zero i = no_quote
oracle_ask_from b venue_id (suc rounds) i =
    let rest = oracle_ask_from b venue_id rounds (i + 1) in
    if ltb 0 (b.ask_qty i)
    then record {
      venue_id = venue_id;
      price_ticks = b.base_price +ℤ pos i;
      qty = to_uint32 (b.ask_qty i);
      valid = true;
    }
    else rest

unfoldable pub oracle_best_ask : OrderBook → ℤ → Quote
oracle_best_ask b venue_id = oracle_ask_from b venue_id k_levels 0
