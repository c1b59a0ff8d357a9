-- ===== src/Simulator/Flow.antt =====
-- What `next_message` (include/market_simulator.hpp) does to the live orders of one instrument, as a
-- relation: the orders that may be added, reduced, removed or replaced, whatever the random engine draws.
use native.Mathlib.Nat.{mod-eq_of_lt}
use exchange_market_data_dec.Prelude.{
  ℕ, ◌+◌, ◌-◌, ◌%◌, ◌^◌, ◌≤◌, ◌<◌, ◌≡◌, refl, arith, some, List, [], ◌∷◌, ◌++◌, get_elem?, put,
}
use exchange_market_data_dec.Protocol.{WireMsg}
use exchange_market_data_dec.Simulator.{
  Random, IsLawful, LiveOrder, Simulator, swap_remove, settle, send_add, send_execute, send_cancel,
  send_delete, send_replace,
}

-- A message of `instr`, where `book` has its live orders and `next` is the next free id.
pub data Change (instr : ℕ) (book : List LiveOrder) (next : ℕ)
    : WireMsg → List LiveOrder → ℕ → Type 0 where
  added :
      (o : LiveOrder)
      → o.order_id ≡ next
      → 0 < o.qty
      → Change instr book next
          (WireMsg.add (record {
            instrument_id = instr;
            order_id = o.order_id;
            side = o.side;
            price_ticks = o.price_ticks;
            qty = o.qty;
          }))
          (book ++ o ∷ [])
          (next + 1)
  executed :
      (j n : ℕ) (lo : LiveOrder)
      → get_elem? book j ≡ some lo
      → 0 < n
      → n ≤ lo.qty
      → Change instr book next
          (WireMsg.exec (record { instrument_id = instr; order_id = lo.order_id; exec_qty = n }))
          (settle j lo (lo.qty - n) book)
          next
  canceled :
      (j n : ℕ) (lo : LiveOrder)
      → get_elem? book j ≡ some lo
      → 0 < n
      → n ≤ lo.qty
      → Change instr book next
          (WireMsg.cancel
            (record { instrument_id = instr; order_id = lo.order_id; cancel_qty = n }))
          (settle j lo (lo.qty - n) book)
          next
  deleted :
      (j : ℕ) (lo : LiveOrder)
      → get_elem? book j ≡ some lo
      → Change instr book next
          (WireMsg.del (record { instrument_id = instr; order_id = lo.order_id }))
          (settle j lo 0 book)
          next
  replaced :
      (j : ℕ) (lo o : LiveOrder)
      → get_elem? book j ≡ some lo
      → o.order_id ≡ next
      → o.side ≡ lo.side
      → 0 < o.qty
      → Change instr book next
          (WireMsg.replace (record {
            instrument_id = instr;
            old_order_id = lo.order_id;
            new_order_id = o.order_id;
            price_ticks = o.price_ticks;
            qty = o.qty;
          }))
          (swap_remove j book ++ o ∷ [])
          (next + 1)

-- Every live order has some quantity left.
abbrev pub IsPositive : List LiveOrder → Type 0
IsPositive book = (j : ℕ) (o : LiveOrder) → get_elem? book j ≡ some o → 0 < o.qty

module _ (r : Random) where
  -- A message that `instr` sends, and what it leaves.
  pub record IsSent (s : Simulator r) (m : WireMsg) (s' : Simulator r) (instr : ℕ) : Type 0 where
    pub book : List LiveOrder
    pub known : instr < s.num_instruments
    pub change : Change instr (s.live_orders instr) s.next_order_id m book s'.next_order_id
    pub live : s'.live_orders ≡ put s.live_orders instr book
    pub same : s'.num_instruments ≡ s.num_instruments

  -- The bounds under which a message is sent.
  pub record IsReady (s : Simulator r) : Type 0 where
    pub some_instrument : 0 < s.num_instruments
    pub few_instruments : s.num_instruments ≤ 2 ^ 16
    pub room : s.next_order_id + 1 < 2 ^ 64
    pub positive : (i : ℕ) → IsPositive (s.live_orders i)

module _ (r : Random) (law : IsLawful r) (s : Simulator r) (ready : IsReady r s) (instr : ℕ)
    (known : instr < s.num_instruments) where
  whole : instr % 2 ^ 16 ≡ instr
  whole = mod-eq_of_lt (omega (arith, ready.few_instruments))

  next_whole : (s.next_order_id + 1) % 2 ^ 64 ≡ s.next_order_id + 1
  next_whole = mod-eq_of_lt ready.room

  pub send_add-IsSent : IsSent r s (send_add r instr s).0 (send_add r instr s).1 instr
  unfolding send_add
  send_add-IsSent = record {
    book = _;
    known = known;
    change = rw (whole, next_whole) (Change.added _ refl (law.at_least 1 500 _ (omega arith)));
    live = refl;
    same = refl;
  }

  module _ (j : ℕ) (lo : LiveOrder) (there : get_elem? (s.live_orders instr) j ≡ some lo) where
    some_qty : 1 ≤ lo.qty
    some_qty = ready.positive instr j lo there

    pub send_execute-IsSent :
        IsSent r s (send_execute r instr j lo s).0 (send_execute r instr j lo s).1 instr
    unfolding send_execute
    send_execute-IsSent = record {
      book = _;
      known = known;
      change = rw whole (
          Change.executed j _ lo there (law.at_least 1 lo.qty _ some_qty)
            (law.at_most 1 lo.qty _ some_qty));
      live = refl;
      same = refl;
    }

    pub send_cancel-IsSent :
        IsSent r s (send_cancel r instr j lo s).0 (send_cancel r instr j lo s).1 instr
    unfolding send_cancel
    send_cancel-IsSent = record {
      book = _;
      known = known;
      change = rw whole (
          Change.canceled j _ lo there (law.at_least 1 lo.qty _ some_qty)
            (law.at_most 1 lo.qty _ some_qty));
      live = refl;
      same = refl;
    }

    pub send_delete-IsSent :
        IsSent r s (send_delete r instr j lo s).0 (send_delete r instr j lo s).1 instr
    unfolding send_delete
    send_delete-IsSent = record {
      book = _;
      known = known;
      change = rw whole (Change.deleted j lo there);
      live = refl;
      same = refl;
    }

    pub send_replace-IsSent :
        IsSent r s (send_replace r instr j lo s).0 (send_replace r instr j lo s).1 instr
    unfolding send_replace
    send_replace-IsSent = record {
      book = _;
      known = known;
      change =
          rw (whole, next_whole)
            (Change.replaced j lo _ there refl refl (law.at_least 1 500 _ (omega arith)));
      live = refl;
      same = refl;
    }
