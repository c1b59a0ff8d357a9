-- ===== src/Normalizer/Tests.antt =====
-- Two shards, one order of instrument 3 dispatched and applied, and concrete instances of the theorems.
use exchange_market_data_dec.Prelude.{ℕ, pos, ℤ, ◌≡◌, refl, arith, List, [], ◌∷◌, nat_eq}
use exchange_market_data_dec.Protocol.{Side, WireMsg}
use exchange_market_data_dec.Replay.{replay, fresh}
use exchange_market_data_dec.Normalizer.{
  Normalizer, Event, run, dispatch, work, init_all, init_reference_price, assign, assign_all,
  book_for_instrument, apply_item, rest_location,
}
use exchange_market_data_dec.Normalizer.Assign.{IsAssigned, assign_all-IsAssigned}
use exchange_market_data_dec.Normalizer.Serving.{for_instrument}
use exchange_market_data_dec.Normalizer.Books.{started, run-books}

abbrev price : ℕ → ℤ
price i = pos 25000

abbrev order : WireMsg
order = WireMsg.add (record {
  instrument_id = 3;
  order_id = 3;
  side = Side.buy;
  price_ticks = pos 25010;
  qty = 100;
})

abbrev events : List Event
events = Event.dispatched order ∷ Event.worked 1 ∷ []

abbrev done : Normalizer × List WireMsg
done = run events (started 2 price)

drained : (done.0.shards (done.0.instrument_to_shard 3)).queue ≡ []
unfolding run dispatch work init_all init_reference_price assign assign_all apply_item rest_location
drained = refl

run-books_example :
    book_for_instrument done.0 3 ≡ (replay (for_instrument 3 done.1) (fresh (pos 25000))).book
run-books_example =
    run-books 2 price (λ id. id) events 3 (omega arith) (omega arith, refl, tt) drained

assign_all-IsAssigned_example : IsAssigned 2 (assign_all 2 5) 5
assign_all-IsAssigned_example = assign_all-IsAssigned 2 5 (omega arith)
