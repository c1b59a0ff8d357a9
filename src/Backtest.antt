-- ===== src/Backtest.antt =====
-- include/backtest_sim.hpp, `BacktestEngine`: a replay of a message stream with hypothetical orders, each
-- placed twice: a naive one, and one that tracks its queue position. The stream of the simulator is an
-- argument of `run`. An order's `is_naive` is set exactly where its tracker is not, so it is read off
-- the tracker. The result is none where the queue book faults (see Queue) and where 0 divides.

pub mod Finish
mod Tests
use exchange_market_data_dec.Prelude.{
  ℕ, ◌+◌, ◌-◌, ◌*◌, ◌/◌, ◌%◌, ◌^◌, ℤ, Option, none, some, List, [], ◌∷◌, ◌++◌, Bool, true, false,
  ◌&&◌, leb, ◌==◌, if◌then◌else◌, length,
}
use exchange_market_data_dec.Protocol.{Side, WireMsg}
use exchange_market_data_dec.Book.{OrderBook, has_bid, has_ask, best_bid_ticks, best_ask_ticks}
use exchange_market_data_dec.Replay.{State, apply_to_book, fresh}
use exchange_market_data_dec.Queue.{
  LevelKey, level_eq, ApplyEffect, QueueBook, empty_book, apply, level_total_qty, ◌>>=◌,
}
use exchange_market_data_dec.Queue.Tracker.{Tracker, new_tracker, consume}

pub data Outcome : Type 0 where
  filled canceled resting : Outcome

pub record Config : Type 0 where
  pub placement_interval : ℕ
  pub ttl_messages : ℕ
  pub order_qty : ℕ

pub record ActiveOrder : Type 0 where
  pub id : ℕ
  pub pair_id : ℕ
  pub level : LevelKey
  pub placed_msg_idx : ℕ
  pub bid_at_place : ℤ
  pub ask_at_place : ℤ
  pub qty : ℕ
  pub ahead_qty_at_place : ℕ
  pub tracker : Option Tracker

abbrev pub is_naive : ActiveOrder → Bool
is_naive ao = elim ao.tracker [ none ↦ true | some t ↦ false ]

pub record SimOrderResult : Type 0 where
  pub id : ℕ
  pub pair_id : ℕ
  pub is_naive : Bool
  pub side : Side
  pub price_ticks : ℤ
  pub qty : ℕ
  pub placed_msg_idx : ℕ
  pub resolved_msg_idx : ℕ
  pub outcome : Outcome
  pub bid_at_place : ℤ
  pub ask_at_place : ℤ
  pub bid_at_fill : ℤ
  pub ask_at_fill : ℤ
  pub ahead_qty_at_place : ℕ

pub record BacktestEngine : Type 0 where
  pub market : State
  pub qbook : QueueBook
  pub active : List ActiveOrder
  pub next_id : ℕ
  pub next_pair_id : ℕ
  pub results : List SimOrderResult

-- the result that `finish` appends
abbrev pub finish : OrderBook → ActiveOrder → Outcome → ℕ → SimOrderResult
finish book ao outcome msg_idx = record {
  id = ao.id;
  pair_id = ao.pair_id;
  is_naive = is_naive ao;
  side = ao.level.side;
  price_ticks = ao.level.price_ticks;
  qty = ao.qty;
  placed_msg_idx = ao.placed_msg_idx;
  resolved_msg_idx = msg_idx;
  outcome = outcome;
  bid_at_place = ao.bid_at_place;
  ask_at_place = ao.ask_at_place;
  bid_at_fill = if has_bid book then best_bid_ticks book else ao.bid_at_place;
  ask_at_fill = if has_ask book then best_ask_ticks book else ao.ask_at_place;
  ahead_qty_at_place = ao.ahead_qty_at_place;
}

-- whether the naive model, or the tracker, fills an order at a message, and the order after it
unfoldable pub try_fill : ApplyEffect → ActiveOrder → ActiveOrder × Bool
try_fill eff ao = elim ao.tracker [
  | none ↦
      (ao, elim eff.reduction [ none ↦ false | some r ↦ level_eq r.level ao.level && r.is_execute ])
  | some t ↦ let after = consume t eff in (record ao { tracker = some after.0 }, after.1)
]

-- the body of the loop over the active orders: the order goes on, or ends with an outcome
unfoldable pub resolve : Config → ApplyEffect → ℕ → ActiveOrder → ActiveOrder × Option Outcome
unfolding try_fill
resolve cfg eff msg_idx ao =
    let tried = try_fill eff ao in
    (
      tried.0,
      if tried.1
          then some Outcome.filled
          else if leb cfg.ttl_messages (msg_idx - ao.placed_msg_idx)
          then some Outcome.canceled
          else none,
    )

-- the loop over the active orders: those that stay, and the results so far
unfoldable pub sweep :
    Config
    → OrderBook
    → ApplyEffect
    → ℕ
    → List ActiveOrder
    → List SimOrderResult
    → List ActiveOrder × List SimOrderResult
sweep cfg book eff msg_idx [] results = ([], results)
sweep cfg book eff msg_idx (ao ∷ aos) results =
    let now = resolve cfg eff msg_idx ao in
    elim now.1 [
      | none ↦ let later = sweep cfg book eff msg_idx aos results in (now.0 ∷ later.0, later.1)
      | some outcome ↦
          sweep cfg book eff msg_idx aos (results ++ finish book now.0 outcome msg_idx ∷ [])
    ]

-- `place_pair`
unfoldable pub place_pair : Config → ℕ → BacktestEngine → BacktestEngine
place_pair cfg msg_idx e =
    let px = best_bid_ticks e.market.book in
    let key : LevelKey = record { instrument = 0; side = Side.buy; price_ticks = px } in
    let ahead = level_total_qty e.qbook key in
    let naive : ActiveOrder = record {
      id = e.next_id;
      pair_id = e.next_pair_id;
      level = key;
      placed_msg_idx = msg_idx;
      bid_at_place = px;
      ask_at_place = best_ask_ticks e.market.book;
      qty = cfg.order_qty;
      ahead_qty_at_place = ahead;
      tracker = none;
    } in
    let second_id = (e.next_id + 1) % 2 ^ 64 in
    record e {
      active =
          e.active
          ++ naive
            ∷ record naive {
              id = second_id;
              tracker = some (new_tracker key e.qbook.next_seq ahead);
            }
            ∷ [];
      next_id = (second_id + 1) % 2 ^ 64;
      next_pair_id = (e.next_pair_id + 1) % 2 ^ 64;
    }

-- `a % b`, which faults where `b` is 0
unfoldable pub rem : ℕ → ℕ → Option ℕ
rem a b = if b == 0 then none else some (a % b)

-- the size that `run` reserves for the results, a division that faults where the interval is 0
unfoldable pub reserve_size : Config → ℕ → Option ℕ
reserve_size cfg num_messages =
    if cfg.placement_interval == 0
    then none
    else some (num_messages / cfg.placement_interval * 2 + 16)

-- one round of the loop of `run`, after `sim.next_message()`
unfoldable pub round : Config → ℕ → WireMsg → BacktestEngine → Option BacktestEngine
round cfg msg_idx m e =
    let market = apply_to_book m e.market in
    apply m e.qbook >>= λ (qbook, eff).
    let swept = sweep cfg market.book eff msg_idx e.active e.results in
    let after : BacktestEngine = record e {
      market = market;
      qbook = qbook;
      active = swept.0;
      results = swept.1;
    } in
    rem msg_idx cfg.placement_interval >>= λ into_interval. some (
      if into_interval == 0 && has_bid market.book && has_ask market.book
      then place_pair cfg msg_idx after
      else after)

-- the loop of `run`, from a message number on
unfoldable pub rounds : Config → ℕ → List WireMsg → BacktestEngine → Option BacktestEngine
rounds cfg msg_idx [] e = some e
rounds cfg msg_idx (m ∷ ms) e = round cfg msg_idx m e >>= rounds cfg (msg_idx + 1) ms

-- the loop after it, which finishes what is still active
unfoldable pub finish_all :
    OrderBook → ℕ → List ActiveOrder → List SimOrderResult → List SimOrderResult
finish_all book msg_idx [] results = results
finish_all book msg_idx (ao ∷ aos) results =
    finish_all book msg_idx aos (results ++ finish book ao Outcome.resting msg_idx ∷ [])

abbrev pub new_engine : ℤ → BacktestEngine
new_engine reference_price_ticks = record {
  market = fresh reference_price_ticks;
  qbook = empty_book;
  active = [];
  next_id = 1;
  next_pair_id = 1;
  results = [];
}

-- `run`, at a reference price and the messages that the simulator gives
unfoldable pub run : Config → ℤ → List WireMsg → Option (List SimOrderResult)
run cfg reference_price_ticks ms = reserve_size cfg (length ms) >>= λ reserved.
    rounds cfg 0 ms (new_engine reference_price_ticks) >>= λ e.
    some (finish_all e.market.book (length ms) e.active e.results)
