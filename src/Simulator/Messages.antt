-- ===== src/Simulator/Messages.antt =====
-- `next_message` (include/market_simulator.hpp) on every branch.
use exchange_market_data_dec.Prelude.{
  ℕ, ◌-◌, ◌≤◌, ◌<◌, ◌≡◌, refl, arith, ◌||◌, Bool-cases, inl, inr, some, ℤ, length, get_elem?,
  get_elem?-some, if-ind,
}
use exchange_market_data_dec.Protocol.{WireMsg}
use exchange_market_data_dec.Simulator.{
  Random, IsLawful, LiveOrder, Simulator, is_empty, drift, send_add, send_change, next_message,
}
use exchange_market_data_dec.Simulator.Flow.{
  IsSent, IsReady, send_add-IsSent, send_execute-IsSent, send_cancel-IsSent, send_delete-IsSent,
  send_replace-IsSent,
}

module _ (r : Random) (law : IsLawful r) where
  -- The engine and the reference prices have no part in these.
  frame-IsReady :
      (s : Simulator r) (rng : r.Engine) (price : ℕ → ℤ)
      → IsReady r s
      → IsReady r (record s { rng = rng; ref_price = price })
  frame-IsReady s rng price v = record {
    some_instrument = v.some_instrument;
    few_instruments = v.few_instruments;
    room = v.room;
    positive = v.positive;
  }

  frame-IsSent :
      (s : Simulator r) (rng : r.Engine) (price : ℕ → ℤ) (m : WireMsg) (s' : Simulator r)
      (instr : ℕ)
      → IsSent r (record s { rng = rng; ref_price = price }) m s' instr
      → IsSent r s m s' instr
  frame-IsSent s rng price m s' instr v = record {
    book = v.book;
    known = v.known;
    change = v.change;
    live = v.live;
    same = v.same;
  }

  send_change-IsSent :
      (s : Simulator r) (instr j : ℕ) (lo : LiveOrder)
      → IsReady r s
      → instr < s.num_instruments
      → get_elem? (s.live_orders instr) j ≡ some lo
      → IsSent r s (send_change r instr j lo s).0 (send_change r instr j lo s).1 instr
  unfolding send_change
  send_change-IsSent s instr j lo v known there =
      let roll = r.uniform_real s.rng in
      let now : Simulator r = record s { rng = roll.1 } in
      let ready : IsReady r now = frame-IsReady s roll.1 s.ref_price v in
      let here : WireMsg × Simulator r → Type 0 = λ sent. IsSent r s sent.0 sent.1 instr in
      if-ind here (r.below roll.0 4000)
        (λ a.
          frame-IsSent s roll.1 s.ref_price _ _ instr
            (send_execute-IsSent r law now ready instr known j lo there))
        λ a.
          if-ind here (r.below roll.0 6500)
            (λ b.
              frame-IsSent s roll.1 s.ref_price _ _ instr
                (send_cancel-IsSent r law now ready instr known j lo there))
            λ b.
              if-ind here (r.below roll.0 8500)
                (λ c.
                  frame-IsSent s roll.1 s.ref_price _ _ instr
                    (send_delete-IsSent r law now ready instr known j lo there))
                (λ c.
                  frame-IsSent s roll.1 s.ref_price _ _ instr
                    (send_replace-IsSent r law now ready instr known j lo there))

  -- A message is always sent: no read of the live orders is out of range.
  pub next_message-IsSent :
      (s : Simulator r)
      → IsReady r s
      → (m : WireMsg) × (s' : Simulator r) × (instr : ℕ) × (next_message r s ≡ some (m, s'))
        × IsSent r s m s' instr
  unfolding next_message
  next_message-IsSent s v =
      let drawn = r.uniform_int 0 (s.num_instruments - 1) s.rng in
      let instr = drawn.0 in
      let drifted = drift r instr s.ref_price drawn.1 in
      let book = s.live_orders instr in
      let roll = r.uniform_real drifted.1 in
      let pick = r.uniform_int 0 (length book - 1) roll.1 in
      let at_most : instr ≤ s.num_instruments - 1 =
        law.at_most 0 (s.num_instruments - 1) s.rng (omega arith) in
      let known : instr < s.num_instruments = omega (arith, v.some_instrument, at_most) in
      elim (Bool-cases (is_empty book || r.below roll.0 5500)) [
        | inl a ↦
            let now : Simulator r = record s { rng = roll.1; ref_price = drifted.0 } in
            (
              (send_add r instr now).0,
              (send_add r instr now).1,
              instr,
              rw a refl,
              frame-IsSent s roll.1 drifted.0 _ _ instr
                  (send_add-IsSent r law now (frame-IsReady s roll.1 drifted.0 v) instr known),
            )
        | inr a ↦
            let within : pick.0 ≤ length book - 1 =
              law.at_most 0 (length book - 1) roll.1 (omega arith) in
            let (lo, there) = get_elem?-some book pick.0 (ground arith) in
            let now : Simulator r = record s { rng = pick.1; ref_price = drifted.0 } in
            (
              (send_change r instr pick.0 lo now).0,
              (send_change r instr pick.0 lo now).1,
              instr,
              rw (a, there) refl,
              frame-IsSent s pick.1 drifted.0 _ _ instr (
                  send_change-IsSent now instr pick.0 lo (frame-IsReady s pick.1 drifted.0 v) known
                    there),
            )
      ]
