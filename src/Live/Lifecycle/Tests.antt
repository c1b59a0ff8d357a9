-- ===== src/Live/Lifecycle/Tests.antt =====
-- A feed of one shard that was drained, started again, and given a message.
use exchange_market_data_dec.Prelude.{
  ℕ, ◌<◌, [], ◌≡◌, refl, arith, true, false, pos, zero, suc, put,
}
use exchange_market_data_dec.Protocol.{Side, WireMsg}
use exchange_market_data_dec.Normalizer.{
  dispatch, init_all, init_reference_price, assign_all, book_for_instrument,
}
use exchange_market_data_dec.Live.Lifecycle.{
  LiveFeed, Started, new_live_feed, start, wait, FeedTurn, FeedTurns,
}
use exchange_market_data_dec.Live.Lifecycle.Restart.{drained-books}

abbrev first : LiveFeed
first = new_live_feed 1 (λ i. pos 25000) 10

abbrev first_run : LiveFeed
first_run = record first { running = true; num_messages = 3 }

-- after `start(3)` and a `wait()` that found nothing in the queue
abbrev joined : LiveFeed
joined = record first_run { stop = true; worker_runs = put first_run.worker_runs 0 false }

abbrev again : LiveFeed
again = record (wait joined) { running = true; num_messages = 5 }

order : WireMsg
order = WireMsg.add (record {
  instrument_id = 3;
  order_id = 3;
  side = Side.buy;
  price_ticks = pos 25010;
  qty = 100;
})

abbrev received : LiveFeed
received = record again { normalizer = (dispatch again.normalizer order).0 }

over_capacity : start 11 (wait joined) ≡ Started.over_capacity
unfolding start wait new_live_feed
over_capacity = refl

no_queue : (s : ℕ) → s < 1 → (first_run.normalizer.shards s).queue ≡ []
unfolding new_live_feed init_all init_reference_price assign_all
no_queue zero lt = refl
no_queue (suc s) lt = absurd (omega (arith, lt))

ended : (s : ℕ) → s < 1 → joined.worker_runs s ≡ false
unfolding new_live_feed
ended zero lt = refl
ended (suc s) lt = absurd (omega (arith, lt))

drained : FeedTurns 1 first (wait joined)
unfolding start new_live_feed
drained = FeedTurns.turn _ _ _ (FeedTurn.called_start 3 first first_run refl) (
    FeedTurns.turn _ _ _ (FeedTurn.stopped first_run refl refl (λ s lt. no_queue s lt)) (
      FeedTurns.turn _ _ _
        (FeedTurn.ended 0 (record first_run { stop = true }) refl refl (no_queue 0 (omega arith)))
        (FeedTurns.turn _ _ _ (FeedTurn.waited joined (λ on fresh. (refl, λ s lt. ended s lt)))
          (FeedTurns.stop (wait joined)))))

second_run : FeedTurns 1 (wait joined) received
unfolding start wait new_live_feed order
second_run = FeedTurns.turn _ _ _ (FeedTurn.called_start 5 (wait joined) again refl) (
    FeedTurns.turn _ _ _ (FeedTurn.dispatched order again refl (omega arith))
      (FeedTurns.stop received))

done : (wait joined).drained ≡ true
unfolding wait
done = refl

drained-books_example :
    (book_for_instrument received.normalizer 3 ≡ book_for_instrument (wait joined).normalizer 3)
    × (received.drained ≡ true)
drained-books_example =
    drained-books 1 (λ i. pos 25000) 10 (wait joined) received 3 (omega arith) drained done
      second_run

-- the first run, with the order in the queue
abbrev waiting : LiveFeed
waiting = record first_run { normalizer = (dispatch first_run.normalizer order).0 }
