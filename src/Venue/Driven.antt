-- ===== src/Venue/Driven.antt =====
-- include/venue_feed.hpp, `VenueFeed` with its simulator: `step` draws a message and applies it.
use exchange_market_data_dec.Prelude.{
  ℕ, suc, ◌+◌, ◌^◌, ◌<◌, ◌≡◌, refl, arith, Option, none, some, ℤ,
}
use exchange_market_data_dec.Replay.{State, fresh}
use exchange_market_data_dec.Simulator.{Random, IsLawful, Simulator, new_simulator, next_message}
use exchange_market_data_dec.Simulator.Messages.{next_message-IsSent}
use exchange_market_data_dec.Simulator.Stream.{
  IsTracked, IsTracked-IsReady, IsSent-IsTracked, Change-next, after_message,
}
use exchange_market_data_dec.Simulator.Runs.{new_simulator-IsTracked}
use exchange_market_data_dec.Venue.{VenueFeed, new_venue, step}

pub record DrivenVenue (r : Random) : Type 0 where
  pub sim : Simulator r
  pub feed : VenueFeed

module _ (r : Random) where
  -- the constructor
  unfoldable pub new_driven_venue : ℕ → ℕ → ℤ → DrivenVenue r
  new_driven_venue venue_id seed reference_price_ticks = record {
    sim = new_simulator r seed 1;
    feed = new_venue venue_id reference_price_ticks;
  }

  -- `step`
  unfoldable pub drive : DrivenVenue r → Option (DrivenVenue r)
  drive v = elim (next_message r v.sim) [
    | none ↦ none
    | some (m, sim) ↦ some (record { sim = sim; feed = (step m v.feed).1 })
  ]

  -- The simulator can send `count` messages more.
  pub record HasRoom (count : ℕ) (v : DrivenVenue r) : Type 0 where
    pub state : ℕ → State
    pub tracked : IsTracked r v.sim state
    pub room : v.sim.next_order_id + count < 2 ^ 64

  pub new_driven_venue-HasRoom :
      (venue_id seed count : ℕ) (price : ℤ)
      → count + 1 < 2 ^ 64
      → HasRoom count (new_driven_venue venue_id seed price)
  unfolding new_driven_venue new_simulator
  new_driven_venue-HasRoom venue_id seed count price small = record {
    state = λ i. fresh price;
    tracked = new_simulator-IsTracked r seed 1 (λ i. price) (omega arith) (omega arith);
    room = omega (arith, small);
  }

  pub drive-HasRoom :
      (law : IsLawful r) (count : ℕ) (v : DrivenVenue r)
      → HasRoom (suc count) v
      → (v' : DrivenVenue r) × (drive v ≡ some v') × HasRoom count v'
  unfolding drive
  drive-HasRoom law count v h =
      let (m, s, instr, e, sent) =
        next_message-IsSent r law v.sim
          (IsTracked-IsReady r v.sim h.state (omega (arith, h.room)) h.tracked) in
      let (least, most) = Change-next sent.change in
      (
        record { sim = s; feed = (step m v.feed).1 },
        rw (drive, e) refl,
        record {
          state = after_message m h.state;
          tracked = IsSent-IsTracked r v.sim m s instr h.state sent h.tracked;
          room = omega (arith, h.room, most);
        },
      )
