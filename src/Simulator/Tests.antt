-- ===== src/Simulator/Tests.antt =====
-- Runs of the simulator on the counting engine.
use exchange_market_data_dec.Prelude.{
  ℕ, ◌≡◌, refl, arith, some, none, Option, List, ℤ, pos, get_elem?,
}
use exchange_market_data_dec.Protocol.{WireMsg}
use exchange_market_data_dec.Simulator.{
  Simulator, new_simulator, draw_prices, stream, next_message, drift, send_add, send_change,
  send_execute, send_cancel, send_delete, send_replace, settle, swap_remove, quote_at,
}
use exchange_market_data_dec.Replay.{replay, fresh, IsConsistentStream}
use exchange_market_data_dec.Replay.Conservation.{IsConserved}
use exchange_market_data_dec.Normalizer.Serving.{for_instrument}
use exchange_market_data_dec.Simulator.Mirror.{Mirrors}
use exchange_market_data_dec.Simulator.Counter.{counter, counter-IsLawful}
use exchange_market_data_dec.Simulator.Runs.{stream-IsConserved, stream-Mirrors}

-- The fourth message of seed 42 takes 42 of the 428 of the third order.
fourth : Option WireMsg
unfolding stream next_message new_simulator draw_prices drift send_add send_change send_execute
    send_cancel send_delete send_replace settle swap_remove quote_at
fourth = elim (stream counter 4 (new_simulator counter 42 2)) [
  | none ↦ none
  | some (ms, s) ↦ get_elem? ms 3
]

fourth_cancels :
    fourth ≡ some (WireMsg.cancel (record { instrument_id = 0; order_id = 3; cancel_qty = 42 }))
unfolding fourth
fourth_cancels = refl

abbrev price : ℕ → ℤ
price i = pos 25000

stream-IsConserved_example :
    (ms : List WireMsg) × (s : Simulator counter) × (stream counter 40 (new_simulator counter 42 2)
      ≡ some (ms, s))
    × ((i : ℕ)
        → IsConsistentStream (for_instrument i ms) (fresh (price i))
          × IsConserved (replay (for_instrument i ms) (fresh (price i))))
stream-IsConserved_example =
    stream-IsConserved counter counter-IsLawful 42 2 40 price (omega arith) (omega arith)
      (omega arith)

stream-Mirrors_example :
    (ms : List WireMsg) × (s : Simulator counter) × (stream counter 40 (new_simulator counter 42 2)
      ≡ some (ms, s))
    × ((i : ℕ)
        → Mirrors
            (s.live_orders i)
            s.next_order_id
            (replay (for_instrument i ms) (fresh (price i))).orders)
stream-Mirrors_example =
    stream-Mirrors counter counter-IsLawful 42 2 40 price (omega arith) (omega arith) (omega arith)
