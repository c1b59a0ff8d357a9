-- ===== src/Bench.antt =====
-- src/decoder_bench.cpp: the messages, the normalizer and the counts that it prints. The dispatcher and the
-- workers take turns as in Offline; timing and printing are left out.
pub mod Totals
pub mod Count
mod Tests
use exchange_market_data_dec.Prelude.{ℕ, zero, suc, ◌+◌, Option, none, some, List}
use exchange_market_data_dec.Protocol.{WireMsg}
use exchange_market_data_dec.Normalizer.{
  Shard, Normalizer, num_instruments, new_normalizer, init_all,
}
use exchange_market_data_dec.Simulator.{Random, new_simulator, stream}

-- a sum over the first `num_shards` shards
unfoldable pub sum_shards : (Shard → ℕ) → ℕ → Normalizer → ℕ
sum_shards f zero n = 0
sum_shards f (suc num_shards) n = sum_shards f num_shards n + f (n.shards num_shards)

-- `total_processed`
abbrev pub total_processed : ℕ → Normalizer → ℕ
total_processed = sum_shards (λ s. s.processed)

-- The messages, and the normalizer with the prices that the simulator has after them.
unfoldable pub prepare : Random → ℕ → ℕ → Option (List WireMsg × Normalizer)
prepare r num_messages num_shards =
    elim (stream r num_messages (new_simulator r 42 num_instruments)) [
      | none ↦ none
      | some (messages, sim) ↦
          some (messages, init_all sim.ref_price num_instruments (new_normalizer num_shards))
    ]
