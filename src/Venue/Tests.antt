-- ===== src/Venue/Tests.antt =====
-- A venue's steps: a bid, and its replacement at a better price, with concrete instances of the theorems.
use exchange_market_data_dec.Prelude.{pos, refl, arith, [], ◌∷◌, nat_eq}
use exchange_market_data_dec.Protocol.{Side, WireMsg}
use exchange_market_data_dec.Map.{find, insert, erase}
use exchange_market_data_dec.Replay.{apply_to_book, fresh, IsConsistentStream}
use exchange_market_data_dec.Replay.Conservation.{IsConserved}
use exchange_market_data_dec.Venue.{VenueFeed, new_venue, apply_message, step_all}
use exchange_market_data_dec.Venue.Equivalence.{to_state, step_all-IsConserved}

abbrev bid : WireMsg
bid = WireMsg.add (record {
  instrument_id = 0;
  order_id = 1;
  side = Side.buy;
  price_ticks = pos 25010;
  qty = 100;
})

abbrev better : WireMsg
better = WireMsg.replace (record {
  instrument_id = 0;
  old_order_id = 1;
  new_order_id = 2;
  price_ticks = pos 25011;
  qty = 40;
})

abbrev with_bid : VenueFeed
with_bid = apply_message bid (new_venue 0 (pos 25000))

flow-IsConsistent : IsConsistentStream (bid ∷ better ∷ []) (fresh (pos 25000))
unfolding fresh apply_to_book find insert erase
flow-IsConsistent = ((refl, omega arith), ((refl, omega arith), tt))

step_all-IsConserved_example :
    IsConserved (to_state (step_all (bid ∷ better ∷ []) (new_venue 0 (pos 25000))))
step_all-IsConserved_example =
    step_all-IsConserved 0 (pos 25000) (bid ∷ better ∷ []) flow-IsConsistent
