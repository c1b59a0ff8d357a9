-- ===== src/Replay/Tests.antt =====
-- Tests of apply_to_book (include/backtest_sim.hpp) and concrete instances of its theorems.
use exchange_market_data_dec.Prelude.{
  ℕ, pos, ◌+ℤ◌, ◌-ℤ◌, ◌≤ℤ◌, to_int32, true, ◌≡◌, refl, arith, some, List, [], ◌∷◌, nat_eq,
}
use exchange_market_data_dec.Protocol.{Side, WireMsg}
use exchange_market_data_dec.Map.{find, insert, erase}
use exchange_market_data_dec.Book.{
  init, add, reduce, index_of, slot, add_at, reduce_at, scan_up, has_bid, has_ask, best_bid_ticks,
  best_ask_ticks,
}
use exchange_market_data_dec.Replay.{
  State, RestingLoc, apply_to_book, replay, fresh, IsConsistentStream,
}
use exchange_market_data_dec.Replay.Conservation.{
  IsConserved, apply_to_book-IsConserved, replay-IsConserved,
}
use exchange_market_data_dec.Replay.Touch.{IsBandPrice, replay-bid_le_best, replay-best_le_offer}

abbrev add_msg : ℕ → Side → ℕ → ℕ → WireMsg
add_msg id s price n =
    WireMsg.add
      (record { instrument_id = 0; order_id = id; side = s; price_ticks = pos price; qty = n })

-- a bid and an offer, a partial trade of the bid, and the offer replaced by a better one
abbrev stream : List WireMsg
stream =
    add_msg 1 Side.buy 25010 100
    ∷ add_msg 2 Side.sell 25020 50
    ∷ WireMsg.exec (record { instrument_id = 0; order_id = 1; exec_qty = 30 })
    ∷ WireMsg.replace (record {
      instrument_id = 0;
      old_order_id = 2;
      new_order_id = 3;
      price_ticks = pos 25015;
      qty = 60;
    })
    ∷ WireMsg.cancel (record { instrument_id = 0; order_id = 9; cancel_qty = 70 })
    ∷ []

after_stream : State
after_stream = replay stream (fresh (pos 25000))

stream-IsConsistent : IsConsistentStream stream (fresh (pos 25000))
unfolding apply_to_book fresh find insert erase
stream-IsConsistent =
    ((refl, omega arith), ((refl, omega arith), (tt, ((refl, omega arith), (tt, tt)))))

after_stream_orders :
    after_stream.orders
    ≡ (1, record { side = Side.buy; price_ticks = pos 25010; qty = 70 })
      ∷ (3, record { side = Side.sell; price_ticks = pos 25015; qty = 60 })
      ∷ []
unfolding after_stream replay apply_to_book fresh find insert erase
after_stream_orders = refl

after_stream_touch :
    (best_bid_ticks after_stream.book ≡ pos 25010) × (best_ask_ticks after_stream.book ≡ pos 25015)
unfolding after_stream replay apply_to_book fresh find insert erase init add reduce index_of slot
    add_at reduce_at scan_up to_int32 best_bid_ticks best_ask_ticks ◌+ℤ◌ ◌-ℤ◌
after_stream_touch = (refl, refl)

replay-IsConserved_example : IsConserved after_stream
unfolding after_stream
replay-IsConserved_example = replay-IsConserved (pos 25000) stream stream-IsConsistent

after_stream-IsConserved : IsConserved after_stream
unfolding after_stream
after_stream-IsConserved = replay-IsConserved (pos 25000) stream stream-IsConsistent

apply_to_book-IsConserved_example :
    IsConserved
      (apply_to_book (WireMsg.del (record { instrument_id = 0; order_id = 3 })) after_stream)
apply_to_book-IsConserved_example =
    apply_to_book-IsConserved (WireMsg.del (record { instrument_id = 0; order_id = 3 }))
      after_stream tt after_stream-IsConserved

abbrev resting_bid : RestingLoc
resting_bid = record { side = Side.buy; price_ticks = pos 25010; qty = 70 }

abbrev resting_offer : RestingLoc
resting_offer = record { side = Side.sell; price_ticks = pos 25015; qty = 60 }

find_bid : find 1 after_stream.orders ≡ some resting_bid
unfolding after_stream replay apply_to_book fresh find insert erase
find_bid = refl

find_offer : find 3 after_stream.orders ≡ some resting_offer
unfolding after_stream replay apply_to_book fresh find insert erase
find_offer = refl

-- the prices of both are in the band, 8202 and 8207 ticks above its base
band_prices : IsBandPrice after_stream.book (pos 25010) × IsBandPrice after_stream.book (pos 25015)
unfolding after_stream replay apply_to_book fresh find insert erase init add reduce index_of slot
    add_at reduce_at scan_up to_int32 ◌+ℤ◌ ◌-ℤ◌
band_prices = ((8202, omega arith, refl), (8207, omega arith, refl))

replay-bid_le_best_example :
    (has_bid after_stream.book ≡ true) × (pos 25010 ≤ℤ best_bid_ticks after_stream.book)
unfolding after_stream
replay-bid_le_best_example =
    replay-bid_le_best (pos 25000) stream 1 resting_bid stream-IsConsistent find_bid refl
      band_prices.0

replay-best_le_offer_example :
    (has_ask after_stream.book ≡ true) × (best_ask_ticks after_stream.book ≤ℤ pos 25015)
unfolding after_stream
replay-best_le_offer_example =
    replay-best_le_offer (pos 25000) stream 3 resting_offer stream-IsConsistent find_offer refl
      band_prices.1
