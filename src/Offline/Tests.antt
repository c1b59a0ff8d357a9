-- ===== src/Offline/Tests.antt =====
-- The constructor of `OfflineBooks` on the counting engine, with three messages and two shards.
use exchange_market_data_dec.Prelude.{◌≡◌, refl, arith, some, none, List, [], pos}
use exchange_market_data_dec.Protocol.{WireMsg}
use exchange_market_data_dec.Replay.{replay, fresh}
use exchange_market_data_dec.Replay.Conservation.{IsConserved}
use exchange_market_data_dec.Normalizer.{Normalizer, num_instruments, work, book_for_instrument}
use exchange_market_data_dec.Normalizer.Serving.{for_instrument}
use exchange_market_data_dec.Simulator.{
  new_simulator, draw_prices, stream, next_message, drift, send_add, send_change, send_execute,
  send_cancel, send_delete, send_replace, settle, swap_remove, quote_at,
}
use exchange_market_data_dec.Simulator.Counter.{counter, counter-IsLawful}
use exchange_market_data_dec.Offline.{
  OfflineBooks, offline_books, new_offline_books, Turn, Turns, IsDrained,
}
use exchange_market_data_dec.Offline.Drain.{drain-IsDrained, Turns_trans}
use exchange_market_data_dec.Offline.Books.{offline_books_lem}

abbrev begin : List WireMsg × OfflineBooks counter
begin = elim (new_offline_books counter 3 2 42) [
  | none ↦ ([], offline_books counter 2 (λ i. pos 0) (new_simulator counter 42 num_instruments))
  | some p ↦ p
]

made : new_offline_books counter 3 2 42 ≡ some (begin.0, begin.1)
unfolding new_offline_books stream next_message new_simulator draw_prices drift send_add send_change
    send_execute send_cancel send_delete send_replace settle swap_remove quote_at
made = refl

-- the worker of shard 0 goes first
begun : Turns 2 (begin.0, begin.1.normalizer) (begin.0, work begin.1.normalizer 0)
begun = Turns.step _ _ _ (Turn.worked 0 begin.0 begin.1.normalizer (omega arith)) (Turns.stop _)

abbrev finish :
    (n' : Normalizer) × Turns 2 (begin.0, work begin.1.normalizer 0) ([], n') × IsDrained 2 ([], n')
finish =
    drain-IsDrained counter counter-IsLawful 3 2 42 begin.0 begin.0 begin.1
      (work begin.1.normalizer 0) (omega arith) (omega arith) made begun

drain-IsDrained_example :
    (n' : Normalizer) × Turns 2 (begin.0, work begin.1.normalizer 0) ([], n') × IsDrained 2 ([], n')
drain-IsDrained_example =
    drain-IsDrained counter counter-IsLawful 3 2 42 begin.0 begin.0 begin.1
      (work begin.1.normalizer 0) (omega arith) (omega arith) made begun

offline_books_lem_example :
    (book_for_instrument finish.0 294
      ≡ (replay (for_instrument 294 begin.0) (fresh (begin.1.ref_price 294))).book)
    × IsConserved (replay (for_instrument 294 begin.0) (fresh (begin.1.ref_price 294)))
offline_books_lem_example =
    offline_books_lem counter counter-IsLawful 3 2 42 begin.0 [] begin.1 finish.0 294 (omega arith)
      (omega arith) (omega arith) made (Turns_trans begun finish.1) finish.2
