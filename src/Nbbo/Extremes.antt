-- ===== src/Nbbo/Extremes.antt =====
-- NbboAggregator::best_bid and best_offer (include/nbbo.hpp) against the prices of the venues, compared
-- as numbers.
use exchange_market_data_dec.Prelude.{
  ℕ, ◌<◌, ◌<ℤ◌, ◌≤ℤ◌, pos, true, false, ◌≡◌, arith, List, get_elem?, some, ◌%◌, ◌^◌,
}
use exchange_market_data_dec.Book.{
  OrderBook, has_bid, has_ask, best_bid_ticks, best_ask_ticks, best_bid_qty, best_ask_qty,
}
use exchange_market_data_dec.Nbbo.{Quote, no_quote, best_bid, best_offer}
use exchange_market_data_dec.Nbbo.Best.{nobody, venue, best_bid-IsBest, best_offer-IsBest}

-- The highest of the best bids of some venues, that of the first of them that makes it.
pub data IsHighestBid (venues : List OrderBook) (q : Quote) : Type 0 where
  no_bid :
      q ≡ no_quote
      → ((j : ℕ) (w : OrderBook) → get_elem? venues j ≡ some w → has_bid w ≡ false)
      → IsHighestBid venues q
  bid_of :
      (k : ℕ) (v : OrderBook)
      → get_elem? venues k ≡ some v
      → has_bid v ≡ true
      → q ≡ record {
        venue_id = pos k;
        price_ticks = best_bid_ticks v;
        qty = best_bid_qty v % 2 ^ 32;
        valid = true;
      }
      → ((j : ℕ) (w : OrderBook)
          → get_elem? venues j ≡ some w
          → has_bid w ≡ true
          → best_bid_ticks w ≤ℤ best_bid_ticks v)
      → ((j : ℕ) (w : OrderBook)
          → get_elem? venues j ≡ some w
          → has_bid w ≡ true
          → j < k
          → best_bid_ticks w <ℤ best_bid_ticks v)
      → IsHighestBid venues q

-- The lowest of the best offers of some venues, that of the first of them that makes it.
pub data IsLowestOffer (venues : List OrderBook) (q : Quote) : Type 0 where
  no_offer :
      q ≡ no_quote
      → ((j : ℕ) (w : OrderBook) → get_elem? venues j ≡ some w → has_ask w ≡ false)
      → IsLowestOffer venues q
  offer_of :
      (k : ℕ) (v : OrderBook)
      → get_elem? venues k ≡ some v
      → has_ask v ≡ true
      → q ≡ record {
        venue_id = pos k;
        price_ticks = best_ask_ticks v;
        qty = best_ask_qty v % 2 ^ 32;
        valid = true;
      }
      → ((j : ℕ) (w : OrderBook)
          → get_elem? venues j ≡ some w
          → has_ask w ≡ true
          → best_ask_ticks v ≤ℤ best_ask_ticks w)
      → ((j : ℕ) (w : OrderBook)
          → get_elem? venues j ≡ some w
          → has_ask w ≡ true
          → j < k
          → best_ask_ticks v <ℤ best_ask_ticks w)
      → IsLowestOffer venues q

-- `best_bid` returns the highest bid of all venues, with the price, the quantity (as a uint32_t) and the
-- index of the first venue that makes it, so that each other bid is at most as high and each of a venue
-- before it is lower; and it returns an invalid quote where no venue has a bid.
pub best_bid-IsHighestBid : (venues : List OrderBook) → IsHighestBid venues (best_bid venues)
best_bid-IsHighestBid venues = elim (best_bid-IsBest venues) [
  | nobody e none_has ↦ no_bid e none_has
  | venue k v at has e all before ↦
      bid_of k v at has e (λ j w at' h. ground (arith, all j w at' h))
        (λ j w at' h lt. ground (arith, before j w at' h lt))
]

-- `best_offer` returns the lowest offer of all venues, with the price, the quantity (as a uint32_t) and
-- the index of the first venue that makes it, so that each other offer is at least as high and each of
-- a venue before it is higher; and it returns an invalid quote where no venue has an offer.
pub best_offer-IsLowestOffer : (venues : List OrderBook) → IsLowestOffer venues (best_offer venues)
best_offer-IsLowestOffer venues = elim (best_offer-IsBest venues) [
  | nobody e none_has ↦ no_offer e none_has
  | venue k v at has e all before ↦
      offer_of k v at has e (λ j w at' h. ground (arith, all j w at' h))
        (λ j w at' h lt. ground (arith, before j w at' h lt))
]
