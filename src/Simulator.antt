-- ===== src/Simulator.antt =====
-- include/market_simulator.hpp: the generator of the order flow. The random engine and the distributions
-- are the standard library's: an interface, `Random`. A vector of orders is a list, and a read past its
-- end would give none. `int64_t` prices are exact.

pub mod Flow
pub mod Messages
pub mod Positions
pub mod Mirror
pub mod Consistency
pub mod Stream
pub mod Owners
pub mod Runs
pub mod Counter
mod Tests
use exchange_market_data_dec.Prelude.{
  ℕ, zero, suc, ◌+◌, ◌-◌, ◌%◌, ◌^◌, ◌≤◌, ◌==◌, ltb, ℤ, pos, negsuc, ◌+ℤ◌, ◌-ℤ◌, Bool, ◌||◌, Option,
  none, some, List, [], ◌∷◌, ◌++◌, if◌then◌else◌, length, get_elem?, set_elem, back, pop_back, put,
}
use exchange_market_data_dec.Protocol.{Side, WireMsg}

-- What the simulator calls: std::mt19937, `uniform_int_distribution(a, b)(rng)` on unsigned and on signed
-- numbers, `uniform_real_distribution(0, 1)(rng)`, the comparison of such a number with a fraction (in
-- ten-thousandths), and a drawn reference price in ticks.
pub record Random : Type 1 where
  pub Engine : Type 0
  pub Real : Type 0
  pub seeded : ℕ → Engine
  pub uniform_int : ℕ → ℕ → Engine → ℕ × Engine
  pub uniform_signed : ℤ → ℤ → Engine → ℤ × Engine
  pub uniform_real : Engine → Real × Engine
  pub below : Real → ℕ → Bool
  pub uniform_price : Engine → ℤ × Engine

-- A drawn number is in the range of its distribution.
pub record IsLawful (r : Random) : Type 0 where
  pub at_least : (a b : ℕ) (rng : r.Engine) → a ≤ b → a ≤ (r.uniform_int a b rng).0
  pub at_most : (a b : ℕ) (rng : r.Engine) → a ≤ b → (r.uniform_int a b rng).0 ≤ b

pub record LiveOrder : Type 0 where
  pub order_id : ℕ
  pub side : Side
  pub price_ticks : ℤ
  pub qty : ℕ

pub record MarketSimulator (Engine : Type 0) : Type 0 where
  pub rng : Engine
  pub num_instruments : ℕ
  pub ref_price : ℕ → ℤ
  pub live_orders : ℕ → List LiveOrder
  pub next_order_id : ℕ

-- `book[idx] = book.back(); book.pop_back();`
unfoldable pub swap_remove : ℕ → List LiveOrder → List LiveOrder
swap_remove idx book = elim (back book) [
  | none ↦ book
  | some last ↦ pop_back (set_elem book idx last)
]

-- the end of `next_message`: `lo`, the order at `idx`, with `left` of its quantity
unfoldable pub settle : ℕ → LiveOrder → ℕ → List LiveOrder → List LiveOrder
unfolding swap_remove
settle idx lo left book =
    if left == 0 then swap_remove idx book else set_elem book idx (record lo { qty = left })

-- `ref_price_[instr] + (side == Side::Buy ? -off : off)`
unfoldable pub quote_at : ℤ → Side → ℕ → ℤ
quote_at reference Side.buy off = reference -ℤ pos off
quote_at reference Side.sell off = reference +ℤ pos off

-- `book.empty()`
abbrev pub is_empty {ℓ} : {A : Type ℓ} → List A → Bool
is_empty xs = length xs == 0

module _ (r : Random) where
  abbrev pub Simulator : Type 0
  Simulator = MarketSimulator r.Engine

  -- the constructor's loop
  unfoldable pub draw_prices : ℕ → r.Engine → (ℕ → ℤ) × r.Engine
  draw_prices zero rng = (λ i. pos 0, rng)
  draw_prices (suc count) rng =
      let before = draw_prices count rng in
      let drawn = r.uniform_price before.1 in (put before.0 count drawn.0, drawn.1)

  -- the constructor
  unfoldable pub new_simulator : ℕ → ℕ → Simulator
  new_simulator seed num_instruments =
      let drawn = draw_prices num_instruments (r.seeded seed) in
      record {
        rng = drawn.1;
        num_instruments = num_instruments;
        ref_price = drawn.0;
        live_orders = λ i. [];
        next_order_id = 1;
      }

  -- the drift of the reference price, before a message
  unfoldable pub drift : ℕ → (ℕ → ℤ) → r.Engine → (ℕ → ℤ) × r.Engine
  drift instr ref_price rng =
      let roll = r.uniform_real rng in
      let moved = r.uniform_signed (negsuc 2) (pos 3) roll.1 in
      if r.below roll.0 5
      then (put ref_price instr (ref_price instr +ℤ moved.0), moved.1)
      else (ref_price, roll.1)

  -- a new order
  unfoldable pub send_add : ℕ → Simulator → WireMsg × Simulator
  unfolding quote_at
  send_add instr s =
      let coin = r.uniform_real s.rng in
      let side = if r.below coin.0 5000 then Side.buy else Side.sell in
      let off = r.uniform_int 1 200 coin.1 in
      let qty = r.uniform_int 1 500 off.1 in
      let o : LiveOrder = record {
        order_id = s.next_order_id;
        side = side;
        price_ticks = quote_at (s.ref_price instr) side off.0;
        qty = qty.0;
      } in
      (
        WireMsg.add (record {
          instrument_id = instr % 2 ^ 16;
          order_id = o.order_id;
          side = o.side;
          price_ticks = o.price_ticks;
          qty = o.qty;
        }),
        record s {
          rng = qty.1;
          live_orders = put s.live_orders instr (s.live_orders instr ++ o ∷ []);
          next_order_id = (s.next_order_id + 1) % 2 ^ 64;
        },
      )

  -- an execution, a cancel, a delete or a replacement of the order `lo` at `idx`
  unfoldable pub send_execute : ℕ → ℕ → LiveOrder → Simulator → WireMsg × Simulator
  unfolding settle
  send_execute instr idx lo s =
      let qty = r.uniform_int 1 lo.qty s.rng in
      (
        WireMsg.exec
            (record { instrument_id = instr % 2 ^ 16; order_id = lo.order_id; exec_qty = qty.0 }),
        record s {
          rng = qty.1;
          live_orders =
              put s.live_orders instr (settle idx lo (lo.qty - qty.0) (s.live_orders instr));
        },
      )

  unfoldable pub send_cancel : ℕ → ℕ → LiveOrder → Simulator → WireMsg × Simulator
  unfolding settle
  send_cancel instr idx lo s =
      let qty = r.uniform_int 1 lo.qty s.rng in
      (
        WireMsg.cancel
            (record { instrument_id = instr % 2 ^ 16; order_id = lo.order_id; cancel_qty = qty.0 }),
        record s {
          rng = qty.1;
          live_orders =
              put s.live_orders instr (settle idx lo (lo.qty - qty.0) (s.live_orders instr));
        },
      )

  unfoldable pub send_delete : ℕ → ℕ → LiveOrder → Simulator → WireMsg × Simulator
  unfolding settle
  send_delete instr idx lo s = (
    WireMsg.del (record { instrument_id = instr % 2 ^ 16; order_id = lo.order_id }),
    record s { live_orders = put s.live_orders instr (settle idx lo 0 (s.live_orders instr)) },
  )

  unfoldable pub send_replace : ℕ → ℕ → LiveOrder → Simulator → WireMsg × Simulator
  unfolding swap_remove quote_at
  send_replace instr idx lo s =
      let off = r.uniform_int 1 200 s.rng in
      let qty = r.uniform_int 1 500 off.1 in
      let o : LiveOrder = record {
        order_id = s.next_order_id;
        side = lo.side;
        price_ticks = quote_at (s.ref_price instr) lo.side off.0;
        qty = qty.0;
      } in
      (
        WireMsg.replace (record {
          instrument_id = instr % 2 ^ 16;
          old_order_id = lo.order_id;
          new_order_id = o.order_id;
          price_ticks = o.price_ticks;
          qty = o.qty;
        }),
        record s {
          rng = qty.1;
          live_orders = put s.live_orders instr (swap_remove idx (s.live_orders instr) ++ o ∷ []);
          next_order_id = (s.next_order_id + 1) % 2 ^ 64;
        },
      )

  -- what a message does to a live order, by the second roll
  unfoldable pub send_change : ℕ → ℕ → LiveOrder → Simulator → WireMsg × Simulator
  unfolding send_execute send_cancel send_delete send_replace
  send_change instr idx lo s =
      let sub_roll = r.uniform_real s.rng in
      let s' : Simulator = record s { rng = sub_roll.1 } in
      if r.below sub_roll.0 4000
      then send_execute instr idx lo s'
      else if r.below sub_roll.0 6500
      then send_cancel instr idx lo s'
      else if r.below sub_roll.0 8500
      then send_delete instr idx lo s'
      else send_replace instr idx lo s'

  -- `next_message`
  unfoldable pub next_message : Simulator → Option (WireMsg × Simulator)
  unfolding drift send_add send_change
  next_message s =
      let drawn = r.uniform_int 0 (s.num_instruments - 1) s.rng in
      let instr = drawn.0 in
      let drifted = drift instr s.ref_price drawn.1 in
      let book = s.live_orders instr in
      let roll = r.uniform_real drifted.1 in
      let pick = r.uniform_int 0 (length book - 1) roll.1 in
      if is_empty book || r.below roll.0 5500
      then some (send_add instr (record s { rng = roll.1; ref_price = drifted.0 }))
      else elim (get_elem? book pick.0) [
        | none ↦ none
        | some lo ↦
            some (send_change instr pick.0 lo (record s { rng = pick.1; ref_price = drifted.0 }))
      ]

  -- the first `count` messages
  unfoldable pub stream : ℕ → Simulator → Option (List WireMsg × Simulator)
  unfolding next_message
  stream zero s = some ([], s)
  stream (suc count) s = elim (next_message s) [
    | none ↦ none
    | some (m, s') ↦ elim (stream count s') [ none ↦ none | some (ms, s'') ↦ some (m ∷ ms, s'') ]
  ]
