-- ===== src/Nbbo/Tests.antt =====
-- Tests of include/nbbo.hpp and concrete instances of its theorems.
use exchange_market_data_dec.Prelude.{◌≤ℤ◌, pos, ◌≡◌, refl, arith, [], ◌∷◌, inl, ◌+ℤ◌, In}
use exchange_market_data_dec.Book.{
  has_bid, has_ask, best_bid_ticks, best_ask_ticks, best_bid_qty, best_ask_qty,
}
use exchange_market_data_dec.Nbbo.{
  LockedCrossedPair, QuoteRelation, bid_side, offer_side, best_from, best_bid, best_offer, relate,
  against_offers, classify_from, classify, oracle_best_bid, oracle_best_ask,
}
use exchange_market_data_dec.Nbbo.Extremes.{
  IsHighestBid, IsLowestOffer, best_bid-IsHighestBid, best_offer-IsLowestOffer,
}
use exchange_market_data_dec.Nbbo.Pairs.{pair, Overlaps, In-classify, classify-Overlaps}
use exchange_market_data_dec.Nbbo.Oracle.{touch, oracle_best_bid_lem, oracle_best_ask_lem}
use exchange_market_data_dec.Samples.{
  venue_with, venue_with-IsValid, high_venue, low_venue, venues, high_touch, low_touch,
}

national_best :
    ((best_bid venues).price_ticks ≡ pos 25020) × ((best_offer venues).price_ticks ≡ pos 25005)
unfolding high_venue low_venue best_bid best_offer best_from has_bid has_ask best_bid_ticks
    best_ask_ticks best_bid_qty best_ask_qty ◌+ℤ◌
national_best = (refl, refl)

-- the crossed pair of tests/nbbo_reference_test.cpp: 250.20 bid against 250.05 offered
abbrev crossed_pair : LockedCrossedPair
crossed_pair = record {
  bid_venue = 0;
  offer_venue = 1;
  bid_ticks = pos 25020;
  offer_ticks = pos 25005;
  relation = QuoteRelation.crossed;
}

classify_crossed : classify venues ≡ crossed_pair ∷ []
unfolding high_venue low_venue classify classify_from against_offers relate has_bid has_ask
    best_bid_ticks best_ask_ticks ◌+ℤ◌
classify_crossed = refl

locked_pair :
    (classify (venue_with 25010 25030 ∷ venue_with 25000 25010 ∷ []))
    ≡ pair 0 1 (pos 25010) (pos 25010) ∷ []
unfolding venue_with classify classify_from against_offers relate has_bid has_ask best_bid_ticks
    best_ask_ticks ◌+ℤ◌
locked_pair = refl

best_bid-IsHighestBid_example : IsHighestBid venues (best_bid venues)
best_bid-IsHighestBid_example = best_bid-IsHighestBid venues

best_offer-IsLowestOffer_example : IsLowestOffer venues (best_offer venues)
best_offer-IsLowestOffer_example = best_offer-IsLowestOffer venues

reaching : best_ask_ticks low_venue ≤ℤ best_bid_ticks high_venue
unfolding high_venue low_venue best_bid_ticks best_ask_ticks ◌+ℤ◌
reaching = omega arith

In-classify_example :
    In (pair 0 1 (best_bid_ticks high_venue) (best_ask_ticks low_venue)) (classify venues)
In-classify_example =
    In-classify venues 0 1 high_venue low_venue refl refl (omega arith) high_touch.0 low_touch.2
      reaching

reported : In crossed_pair (classify venues)
unfolding high_venue low_venue classify classify_from against_offers relate has_bid has_ask
    best_bid_ticks best_ask_ticks ◌+ℤ◌
reported = inl refl

classify-Overlaps_example : Overlaps venues crossed_pair
classify-Overlaps_example = classify-Overlaps crossed_pair venues reported

oracle_best_bid_lem_example :
    oracle_best_bid (venue_with 25020 25030) (pos 0) ≡ touch bid_side 0 (venue_with 25020 25030)
oracle_best_bid_lem_example =
    oracle_best_bid_lem (venue_with 25020 25030) 0 (venue_with-IsValid 25020 25030)

oracle_best_ask_lem_example :
    oracle_best_ask (venue_with 25020 25030) (pos 0) ≡ touch offer_side 0 (venue_with 25020 25030)
oracle_best_ask_lem_example =
    oracle_best_ask_lem (venue_with 25020 25030) 0 (venue_with-IsValid 25020 25030)
