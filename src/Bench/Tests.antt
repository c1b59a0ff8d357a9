-- ===== src/Bench/Tests.antt =====
-- Three messages on the counting engine, with two shards.
use exchange_market_data_dec.Prelude.{◌≡◌, refl, arith, some, none, List, []}
use exchange_market_data_dec.Protocol.{WireMsg}
use exchange_market_data_dec.Normalizer.{Normalizer, new_normalizer}
use exchange_market_data_dec.Simulator.{
  new_simulator, draw_prices, stream, next_message, drift, send_add, send_change, send_execute,
  send_cancel, send_delete, send_replace, settle, swap_remove, quote_at,
}
use exchange_market_data_dec.Simulator.Counter.{counter, counter-IsLawful}
use exchange_market_data_dec.Offline.{Turns, IsDrained}
use exchange_market_data_dec.Offline.Drain.{drain_lem}
use exchange_market_data_dec.Bench.{prepare, total_processed}
use exchange_market_data_dec.Bench.Count.{prepare-IsServed, total_processed_lem}

abbrev begin : List WireMsg × Normalizer
begin = elim (prepare counter 3 2) [ none ↦ ([], new_normalizer 2) | some p ↦ p ]

made : prepare counter 3 2 ≡ some (begin.0, begin.1)
unfolding prepare stream next_message new_simulator draw_prices drift send_add send_change
    send_execute send_cancel send_delete send_replace settle swap_remove quote_at
made = refl

abbrev drained : (n' : Normalizer) × Turns 2 (begin.0, begin.1) ([], n') × IsDrained 2 ([], n')
drained =
    let (served, owner, known) =
      prepare-IsServed counter counter-IsLawful 3 2 begin.0 begin.1 (omega arith) (omega arith)
        made in
    drain_lem 2 owner begin.0 begin.1 served known

total_processed_lem_example : total_processed 2 drained.0 ≡ 3
total_processed_lem_example =
    total_processed_lem counter counter-IsLawful 3 2 begin.0 [] begin.1 drained.0 (omega arith)
      (omega arith) made drained.1 drained.2
