-- ===== src/Live/Lifecycle/Waiting.antt =====
-- include/live_feed.hpp, `LiveFeed::wait`, with `drain_and_stop` of include/normalizer.hpp: it is never
-- stuck.
use exchange_market_data_dec.Prelude.{ℕ, ◌<◌, ◌≡◌, true, false}
use exchange_market_data_dec.Normalizer.{Normalizer}
use exchange_market_data_dec.Live.Lifecycle.{LiveFeed}

-- Until `stop_` is set, every worker runs.
abbrev IsManned : ℕ → LiveFeed → Type 0
IsManned k f = f.stop ≡ false → (s : ℕ) → s < k → f.worker_runs s ≡ true
