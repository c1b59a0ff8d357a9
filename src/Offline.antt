-- ===== src/Offline.antt =====
-- include/live_feed.hpp: `OfflineBooks`, the simulator's messages dispatched to the sharded normalizer.
-- The dispatcher and the workers run at the same time: a turn is a call of `dispatch`, repeated while it
-- returns false, or a round of one worker.
pub mod Drain
pub mod Books
mod Tests
use exchange_market_data_dec.Prelude.{
  ℕ, zero, suc, ◌<◌, ◌≡◌, ℤ, Option, none, some, List, [], ◌∷◌, Bool, true, false, length,
}
use exchange_market_data_dec.Protocol.{WireMsg}
use exchange_market_data_dec.Normalizer.{
  Normalizer, num_instruments, new_normalizer, init_all, dispatch, work,
}
use exchange_market_data_dec.Simulator.{Random, Simulator, new_simulator, stream}

pub record OfflineBooks (r : Random) : Type 0 where
  pub normalizer : Normalizer
  pub sim : Simulator r
  pub ref_price : ℕ → ℤ

-- what the constructor has made when the workers start
abbrev pub offline_books : (r : Random) → ℕ → (ℕ → ℤ) → Simulator r → OfflineBooks r
offline_books r num_shards prices sim = record {
  normalizer = init_all prices num_instruments (new_normalizer num_shards);
  sim = sim;
  ref_price = prices;
}

-- the constructor up to `normalizer_.start()`, with the messages to dispatch
unfoldable pub new_offline_books : (r : Random) → ℕ → ℕ → ℕ → Option (List WireMsg × OfflineBooks r)
new_offline_books r num_messages num_shards seed =
    let prices = (new_simulator r seed num_instruments).ref_price in
    elim (stream r num_messages (new_simulator r seed num_instruments)) [
      | none ↦ none
      | some (messages, sim) ↦ some (messages, offline_books r num_shards prices sim)
    ]

-- The rest of the constructor: the messages still to dispatch and the normalizer, before and after. There
-- is one worker for each of the shards.
pub data Turn (num_shards : ℕ)
    : List WireMsg × Normalizer → List WireMsg × Normalizer → Type 0 where
  sent :
      (m : WireMsg) (ms : List WireMsg) (n : Normalizer)
      → (dispatch n m).1 ≡ true
      → Turn num_shards (m ∷ ms, n) (ms, (dispatch n m).0)
  full :
      (m : WireMsg) (ms : List WireMsg) (n : Normalizer)
      → (dispatch n m).1 ≡ false
      → Turn num_shards (m ∷ ms, n) (m ∷ ms, (dispatch n m).0)
  worked :
      (s : ℕ) (ms : List WireMsg) (n : Normalizer)
      → s < num_shards
      → Turn num_shards (ms, n) (ms, work n s)

pub data Turns (num_shards : ℕ)
    : List WireMsg × Normalizer → List WireMsg × Normalizer → Type 0 where
  stop : (a : List WireMsg × Normalizer) → Turns num_shards a a
  step :
      (a b c : List WireMsg × Normalizer)
      → Turn num_shards a b
      → Turns num_shards b c
      → Turns num_shards a c

-- `drain_and_stop` returns: all is dispatched, and every shard's queue is empty.
pub record IsDrained (num_shards : ℕ) (a : List WireMsg × Normalizer) : Type 0 where
  pub dispatched : a.0 ≡ []
  pub emptied : (s : ℕ) → s < num_shards → (a.1.shards s).queue ≡ []
