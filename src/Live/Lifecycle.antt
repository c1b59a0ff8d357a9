-- ===== src/Live/Lifecycle.antt =====
-- include/live_feed.hpp, `LiveFeed`: the constructor, `start`, `wait` and what the threads do in between,
-- with `start`, `drain_and_stop` and `worker_loop` of include/normalizer.hpp. The messages that the
-- receiver hands on are those of `receive_loop`, in any number, of instruments that there are.
pub mod Restart
pub mod Waiting
mod Tests
use exchange_market_data_dec.Prelude.{
  ℕ, zero, suc, ◌+◌, ◌%◌, ◌^◌, ◌<◌, ◌≡◌, ltb, ℤ, Bool, true, false, List, [], if◌then◌else◌, not,
  put,
}
use exchange_market_data_dec.Protocol.{WireMsg}
use exchange_market_data_dec.Normalizer.{
  Normalizer, num_instruments, new_normalizer, init_all, dispatch, work, instrument_of,
}

-- The members that `start` and `wait` decide on, the normalizer with its `stop_`, and whether the worker
-- of a shard runs.
pub record LiveFeed : Type 0 where
  pub normalizer : Normalizer
  pub stop : Bool
  pub worker_runs : ℕ → Bool
  pub expected_msgs : ℕ
  pub num_messages : ℕ
  pub running : Bool
  pub drained : Bool

-- what `start` throws, or the feed that it starts
pub data Started : Type 0 where
  already_running over_capacity : Started
  started : LiveFeed → Started

-- the constructor, which starts the normalizer's workers
unfoldable pub new_live_feed : ℕ → (ℕ → ℤ) → ℕ → LiveFeed
new_live_feed num_shards price expected_msgs = record {
  normalizer = init_all price num_instruments (new_normalizer num_shards);
  stop = false;
  worker_runs = λ s. ltb s num_shards;
  expected_msgs = expected_msgs;
  num_messages = 0;
  running = false;
  drained = false;
}

unfoldable pub start : ℕ → LiveFeed → Started
start num_messages f =
    if f.running
    then Started.already_running
    else if ltb f.expected_msgs num_messages
    then Started.over_capacity
    else Started.started (record f { running = true; num_messages = num_messages })

-- `wait`, once what it joins has ended
unfoldable pub wait : LiveFeed → LiveFeed
wait f = if f.running then record f { running = false; drained = true } else f

-- The joins of `wait` return: unless it drained the feed before, it set `stop_` and each worker ended.
abbrev pub CanWait : ℕ → LiveFeed → Type 0
CanWait num_shards f =
    f.running ≡ true
    → f.drained ≡ false
    → (f.stop ≡ true) × ((s : ℕ) → s < num_shards → f.worker_runs s ≡ false)

-- A step of a thread of the feed: a call of `start`; in `wait`, the end of `drain_and_stop`'s loop over the
-- queues, and the return; a message that the receiver of a running feed hands on; a round of a worker
-- that runs, or its end, for which `stop_` must be set and its queue empty.
pub data FeedTurn (num_shards : ℕ) : LiveFeed → LiveFeed → Type 0 where
  called_start :
      (n : ℕ) (f f' : LiveFeed) → start n f ≡ Started.started f' → FeedTurn num_shards f f'
  stopped :
      (f : LiveFeed)
      → f.running ≡ true
      → f.drained ≡ false
      → ((s : ℕ) → s < num_shards → (f.normalizer.shards s).queue ≡ [])
      → FeedTurn num_shards f (record f { stop = true })
  waited : (f : LiveFeed) → CanWait num_shards f → FeedTurn num_shards f (wait f)
  dispatched :
      (m : WireMsg) (f : LiveFeed)
      → f.running ≡ true
      → instrument_of m < num_instruments
      → FeedTurn num_shards f (record f { normalizer = (dispatch f.normalizer m).0 })
  worked :
      (s : ℕ) (f : LiveFeed)
      → f.worker_runs s ≡ true
      → FeedTurn num_shards f (record f { normalizer = work f.normalizer s })
  ended :
      (s : ℕ) (f : LiveFeed)
      → f.worker_runs s ≡ true
      → f.stop ≡ true
      → (f.normalizer.shards s).queue ≡ []
      → FeedTurn num_shards f (record f { worker_runs = put f.worker_runs s false })

pub data FeedTurns (num_shards : ℕ) : LiveFeed → LiveFeed → Type 0 where
  stop : (f : LiveFeed) → FeedTurns num_shards f f
  turn :
      (a b c : LiveFeed)
      → FeedTurn num_shards a b
      → FeedTurns num_shards b c
      → FeedTurns num_shards a c
