-- ===== src/Simulator/Runs.antt =====
-- Whole runs of include/market_simulator.hpp from its constructor, and the books of its messages.
use exchange_market_data_dec.Prelude.{ℕ, ◌+◌, ◌^◌, ◌≤◌, ◌<◌, ◌≡◌, arith, some, List, [], ℤ}
use exchange_market_data_dec.Protocol.{WireMsg}
use exchange_market_data_dec.Map.{find}
use exchange_market_data_dec.Replay.{replay, fresh, IsConsistentStream}
use exchange_market_data_dec.Replay.Conservation.{IsConserved, replay-IsConserved}
use exchange_market_data_dec.Normalizer.Serving.{for_instrument}
use exchange_market_data_dec.Simulator.{Random, IsLawful, Simulator, new_simulator, stream}
use exchange_market_data_dec.Simulator.Mirror.{Mirrors}
use exchange_market_data_dec.Simulator.Stream.{IsTracked, stream-IsTracked}
use exchange_market_data_dec.Simulator.Owners.{IsHeld, IsOwnedStream, stream-IsOwnedStream}

module _ (r : Random) where
  pub new_simulator-IsTracked :
      (seed num_instruments : ℕ) (price : ℕ → ℤ)
      → 0 < num_instruments
      → num_instruments ≤ 2 ^ 16
      → IsTracked r (new_simulator r seed num_instruments) (λ i. fresh (price i))
  unfolding new_simulator fresh find
  new_simulator-IsTracked seed num_instruments price some_instrument few = record {
    mirrors = λ i. record {
      live = λ j o there. absurd (ground (arith, there));
      apart = λ j k o o' there there' same. absurd (ground (arith, there));
      known = λ id x found. absurd (ground (arith, found));
      distinct = tt;
    };
    some_instrument = some_instrument;
    few_instruments = few;
  }

  -- Whatever the random engine draws, a new simulator sends as many messages as asked for (it never
  -- reads past the end of its live orders), and for each instrument its messages keep the feed's promise
  -- to a fresh book, which then holds on each level the sum of the orders resting there. For at
  -- least one and at most 2^16
  -- instruments, and fewer messages than there are order ids.
  pub stream-IsConserved :
      (law : IsLawful r) (seed num_instruments count : ℕ) (price : ℕ → ℤ)
      → 0 < num_instruments
      → num_instruments ≤ 2 ^ 16
      → count + 1 < 2 ^ 64
      → (ms : List WireMsg) × (s : Simulator r) × (stream r count
            (new_simulator r seed num_instruments)
          ≡ some (ms, s))
        × ((i : ℕ)
            → IsConsistentStream (for_instrument i ms) (fresh (price i))
              × IsConserved (replay (for_instrument i ms) (fresh (price i))))
  unfolding new_simulator
  stream-IsConserved law seed num_instruments count price some_instrument few room =
      let (ms, s, e, consistent, tracked) =
        stream-IsTracked r law count (new_simulator r seed num_instruments) (λ i. fresh (price i))
          (omega arith) (new_simulator-IsTracked seed num_instruments price some_instrument few) in
      (
        ms,
        s,
        e,
        λ i. (consistent i, replay-IsConserved (price i) (for_instrument i ms) (consistent i)),
      )

  -- After any run, the simulator's live orders of each instrument are, each once, the orders that rest in
  -- the book its messages make, with the same side, price and quantity, whatever the random engine draws,
  -- for at least one and at most 2^16 instruments, and fewer messages than there are order ids.
  pub stream-Mirrors :
      (law : IsLawful r) (seed num_instruments count : ℕ) (price : ℕ → ℤ)
      → 0 < num_instruments
      → num_instruments ≤ 2 ^ 16
      → count + 1 < 2 ^ 64
      → (ms : List WireMsg) × (s : Simulator r) × (stream r count
            (new_simulator r seed num_instruments)
          ≡ some (ms, s))
        × ((i : ℕ)
            → Mirrors
                (s.live_orders i)
                s.next_order_id
                (replay (for_instrument i ms) (fresh (price i))).orders)
  unfolding new_simulator
  stream-Mirrors law seed num_instruments count price some_instrument few room =
      let (ms, s, e, consistent, tracked) =
        stream-IsTracked r law count (new_simulator r seed num_instruments) (λ i. fresh (price i))
          (omega arith) (new_simulator-IsTracked seed num_instruments price some_instrument few) in
      (ms, s, e, tracked.mirrors)

  -- The messages of a new simulator are of its instruments, and some owner fits all their ids.
  pub new_simulator-IsOwnedStream :
      (law : IsLawful r) (seed num_instruments count : ℕ) (price : ℕ → ℤ)
      → 0 < num_instruments
      → num_instruments ≤ 2 ^ 16
      → count + 1 < 2 ^ 64
      → (ms : List WireMsg) × (s : Simulator r) × (owner : ℕ → ℕ) × (stream r count
            (new_simulator r seed num_instruments)
          ≡ some (ms, s))
        × IsOwnedStream num_instruments owner ms
  unfolding new_simulator
  new_simulator-IsOwnedStream law seed num_instruments count price some_instrument few room =
      let none_held : (i : ℕ) → IsHeld (λ id. 0) 1 i [] =
        λ i j o there. absurd (ground (arith, there)) in
      let (ms, s, owner, e, extends, owned) =
        stream-IsOwnedStream r law count (new_simulator r seed num_instruments)
          (λ i. fresh (price i)) (λ id. 0) (omega arith)
          (new_simulator-IsTracked seed num_instruments price some_instrument few) none_held in
      (ms, s, owner, e, owned)
