-- ===== src/Samples.antt =====
-- Two venues for the tests of include/nbbo.hpp and include/trade_through_guard.hpp: the first one's
-- bid is above the second one's offer.
use exchange_market_data_dec.Prelude.{
  ℕ, pos, ◌+ℤ◌, ◌-ℤ◌, to_int32, true, ◌≡◌, refl, arith, List, [], ◌∷◌,
}
use exchange_market_data_dec.Protocol.{Side}
use exchange_market_data_dec.Book.{
  OrderBook, new_book, init, add, index_of, slot, add_at, has_bid, has_ask, best_bid_ticks,
  best_ask_ticks,
}
use exchange_market_data_dec.Book.Invariant.{IsValid, init-IsValid, add-IsValid}

-- a venue with one bid and one offer
unfoldable pub venue_with : ℕ → ℕ → OrderBook
unfolding init add index_of slot add_at to_int32 ◌-ℤ◌
venue_with bid offer =
    (add (add (init new_book (pos 25000)) Side.buy (pos bid) 100).0 Side.sell (pos offer) 50).0

pub venue_with-IsValid : (bid offer : ℕ) → IsValid (venue_with bid offer)
unfolding venue_with
venue_with-IsValid bid offer =
    add-IsValid _ Side.sell (pos offer) 50 (omega arith)
      (add-IsValid _ Side.buy (pos bid) 100 (omega arith) (init-IsValid new_book (pos 25000)))

unfoldable pub high_venue : OrderBook
unfolding venue_with
high_venue = venue_with 25020 25030

unfoldable pub low_venue : OrderBook
unfolding venue_with
low_venue = venue_with 25000 25005

abbrev pub venues : List OrderBook
venues = high_venue ∷ low_venue ∷ []

pub high_touch :
    (has_bid high_venue ≡ true)
    × (best_bid_ticks high_venue ≡ pos 25020)
    × (has_ask high_venue ≡ true)
    × (best_ask_ticks high_venue ≡ pos 25030)
unfolding high_venue has_bid has_ask best_bid_ticks best_ask_ticks ◌+ℤ◌
high_touch = (refl, refl, refl, refl)

pub low_touch :
    (has_bid low_venue ≡ true)
    × (best_bid_ticks low_venue ≡ pos 25000)
    × (has_ask low_venue ≡ true)
    × (best_ask_ticks low_venue ≡ pos 25005)
unfolding low_venue has_bid has_ask best_bid_ticks best_ask_ticks ◌+ℤ◌
low_touch = (refl, refl, refl, refl)
