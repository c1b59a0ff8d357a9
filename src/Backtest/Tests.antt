-- ===== src/Backtest/Tests.antt =====
-- A run over a bid, an offer and a trade of the bid, with a pair of orders attempted at each message.
use exchange_market_data_dec.Prelude.{
  to_int32, ◌-ℤ◌, ◌+ℤ◌, ℕ, pos, ◌≡◌, refl, List, [], ◌∷◌, Option, some, none,
}
use mathlib.Core.List.{map}
use exchange_market_data_dec.Protocol.{Side, WireMsg}
use exchange_market_data_dec.Map.{find, insert, erase}
use exchange_market_data_dec.Book.{
  init, add, reduce, slot, index_of, add_at, reduce_at, drop_update, scan_down, scan_up, has_bid,
  has_ask, best_bid_ticks, best_ask_ticks,
}
use exchange_market_data_dec.Replay.{apply_to_book, rest_order, reduce_found, delete_found, fresh}
use exchange_market_data_dec.Queue.{
  apply, entries, node, push_order, reduce_by, reduce_node, set_qty, store_list, total_qty, unlink,
  level_total_qty, deref, delete_at, replace_at,
}
use exchange_market_data_dec.Queue.Tracker.{advance, consume, consume_at, new_tracker}
use exchange_market_data_dec.Backtest.{
  Config, SimOrderResult, Outcome, run, rounds, round, finish_all, resolve, sweep, try_fill,
  place_pair, rem, reserve_size,
}

abbrev config : Config
config = record { placement_interval = 1; ttl_messages = 5; order_qty = 100 }

abbrev stream : List WireMsg
stream =
    WireMsg.add (record {
      instrument_id = 0;
      order_id = 1;
      side = Side.buy;
      price_ticks = pos 25010;
      qty = 60;
    })
    ∷ WireMsg.add (record {
      instrument_id = 0;
      order_id = 2;
      side = Side.sell;
      price_ticks = pos 25020;
      qty = 50;
    })
    ∷ WireMsg.exec (record { instrument_id = 0; order_id = 1; exec_qty = 20 })
    ∷ []

-- The trade fills the naive order of the first pair, and the others are left resting.
abbrev summary : Option (List SimOrderResult) → List (ℕ × Outcome)
summary none = []
summary (some rs) = map (λ r. (r.id, r.outcome)) rs

outcomes :
    summary (run config (pos 25000) stream)
    ≡ (1, Outcome.filled) ∷ (2, Outcome.resting) ∷ (3, Outcome.resting) ∷ (4, Outcome.resting) ∷ []
unfolding run rem reserve_size rounds round finish_all resolve sweep try_fill place_pair apply find
    insert erase has_bid has_ask best_bid_ticks best_ask_ticks apply_to_book rest_order reduce_found
    delete_found fresh init add reduce slot index_of add_at reduce_at drop_update scan_down scan_up
    to_int32 ◌-ℤ◌ ◌+ℤ◌ advance consume consume_at new_tracker deref delete_at entries
    level_total_qty node push_order reduce_by reduce_node replace_at set_qty store_list total_qty
    unlink
outcomes = refl

-- A placement interval of 0 divides by zero before the first message.
no_interval : run (record config { placement_interval = 0 }) (pos 25000) [] ≡ none
unfolding run reserve_size
no_interval = refl
