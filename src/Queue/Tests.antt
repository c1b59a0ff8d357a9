-- ===== src/Queue/Tests.antt =====
-- The hand-computed scenario of tests/queue_position_reference_test.cpp, and concrete instances of the
-- theorems about include/queue_book.hpp.
use exchange_market_data_dec.Prelude.{
  ℕ, ◌<◌, ◌+◌, ◌^◌, pos, Bool, true, false, ◌≡◌, ◌↔◌, refl, arith, List, [], ◌∷◌, length, some,
  none, nat_eq,
}
use exchange_market_data_dec.Protocol.{Side, WireMsg}
use exchange_market_data_dec.Map.{find, insert, erase}
use exchange_market_data_dec.Queue.{
  LevelKey, level_key_eq, QueueBook, empty_book, ApplyEffect, entries, node, set_qty, unlink,
  push_order, reduce_node, apply, total_qty, level_total_qty,
}
use exchange_market_data_dec.Queue.Linked.{IsLinked, empty_book-IsLinked}
use exchange_market_data_dec.Queue.Linked.Push.{push_order-IsLinked}
use exchange_market_data_dec.Queue.Steps.{Returns, apply-Returns}
use exchange_market_data_dec.Queue.Tracker.{Tracker, new_tracker, advance, consume}
use exchange_market_data_dec.Queue.Ahead.{
  IsTracking, new_tracker-IsTracking, watch, watch-IsTracking,
}
use exchange_market_data_dec.Queue.Fills.{TradesAtFront, apply-consume_fills}

abbrev key : LevelKey
key = record { instrument = 0; side = Side.buy; price_ticks = pos 10000 }

abbrev make_add : ℕ → ℕ → WireMsg
make_add id n =
    WireMsg.add (record {
      instrument_id = 0;
      order_id = id;
      side = Side.buy;
      price_ticks = pos 10000;
      qty = n;
    })

abbrev make_exec : ℕ → ℕ → WireMsg
make_exec id n = WireMsg.exec (record { instrument_id = 0; order_id = id; exec_qty = n })

abbrev make_cancel : ℕ → ℕ → WireMsg
make_cancel id n = WireMsg.cancel (record { instrument_id = 0; order_id = id; cancel_qty = n })

-- orders 1 and 2, of 50 and 30, in the book
two_orders : QueueBook
two_orders = push_order (push_order empty_book 1 key 50) 2 key 30

two_orders-IsLinked : IsLinked two_orders
unfolding two_orders push_order
two_orders-IsLinked =
    push_order-IsLinked _ 2 key 30 (omega arith)
      (push_order-IsLinked empty_book 1 key 50 (omega arith) empty_book-IsLinked)

snapshot : Tracker
unfolding two_orders push_order
snapshot = new_tracker key two_orders.next_seq (level_total_qty two_orders key)

snapshot_values :
    (snapshot.ahead_qty ≡ 80) × (snapshot.our_seq ≡ 2) × (snapshot.became_front ≡ false)
unfolding snapshot new_tracker level_total_qty total_qty entries find insert
snapshot_values = (refl, refl, refl)

-- the messages of the scenario up to the one that reaches the front
abbrev to_front : List WireMsg
to_front =
    make_add 3 20 ∷ make_cancel 1 50 ∷ make_exec 2 10 ∷ make_cancel 3 20 ∷ make_exec 2 20 ∷ []

-- the trackers after each message, and whether it filled
fills : List WireMsg → QueueBook → Tracker → List (ℕ × Bool)
fills [] q t = []
fills (m ∷ ms) q t = elim (apply m q) [
  | none ↦ []
  | some (q', eff) ↦
      ((consume t eff).0.ahead_qty, (consume t eff).1) ∷ fills ms q' (consume t eff).0
]

scenario :
    fills
      (make_add 3 20
        ∷ make_cancel 1 50
        ∷ make_exec 2 10
        ∷ make_cancel 3 20
        ∷ make_exec 2 20
        ∷ make_add 4 15
        ∷ make_exec 4 5
        ∷ [])
      two_orders
      snapshot
    ≡ (80, false)
      ∷ (30, false)
      ∷ (20, false)
      ∷ (20, false)
      ∷ (0, false)
      ∷ (0, false)
      ∷ (0, true)
      ∷ []
unfolding fills snapshot new_tracker two_orders push_order apply consume advance reduce_node set_qty
    unlink node level_total_qty total_qty entries find insert erase
scenario = refl

small_total : total_qty (entries two_orders.levels key) < 2 ^ 32
unfolding two_orders push_order total_qty entries find insert
small_total = omega arith

snapshot-IsTracking : IsTracking two_orders snapshot
unfolding snapshot
snapshot-IsTracking = new_tracker-IsTracking two_orders key two_orders-IsLinked small_total

new_tracker-IsTracking_example :
    IsTracking two_orders (new_tracker key two_orders.next_seq (level_total_qty two_orders key))
new_tracker-IsTracking_example =
    new_tracker-IsTracking two_orders key two_orders-IsLinked small_total

room : two_orders.next_seq + 1 < 2 ^ 64
unfolding two_orders push_order
room = omega arith

apply-Returns_example : Returns two_orders (apply (make_exec 2 10) two_orders)
apply-Returns_example = apply-Returns (make_exec 2 10) two_orders room two_orders-IsLinked

room_to_front : two_orders.next_seq + length to_front < 2 ^ 64
unfolding two_orders push_order
room_to_front = omega arith

watch-IsTracking_example :
    (q : QueueBook) × (t : Tracker) × (watch to_front two_orders snapshot ≡ some (q, t))
    × IsTracking q t
watch-IsTracking_example =
    watch-IsTracking to_front two_orders snapshot room_to_front two_orders-IsLinked
      snapshot-IsTracking

-- a trade of the first order, which is ahead of ours
apply-consume_fills_example :
    (q : QueueBook) × (eff : ApplyEffect) × (apply (make_exec 1 50) two_orders ≡ some (q, eff))
    × (((consume snapshot eff).1 ≡ true) ↔ TradesAtFront two_orders snapshot (make_exec 1 50))
apply-consume_fills_example =
    apply-consume_fills (make_exec 1 50) two_orders snapshot room two_orders-IsLinked
      snapshot-IsTracking
