-- ===== src/Queue/Tracker.antt =====
-- include/queue_book.hpp, FastAheadTracker: the queue position of one hypothetical order.
-- `ahead_qty_` is an int64_t that is clamped at 0, and is a number.
use exchange_market_data_dec.Prelude.{
  ℕ, ◌^◌, Bool, true, false, ◌&&◌, not, none, some, ltb, ◌==◌, if◌then◌else◌,
}
use exchange_market_data_dec.Book.{clamped_sub}
use exchange_market_data_dec.Queue.{LevelKey, level_eq, ReductionEvent, ApplyEffect}

-- `class FastAheadTracker`
pub record Tracker : Type 0 where
  pub level : LevelKey
  pub our_seq : ℕ
  pub ahead_qty : ℕ
  pub became_front : Bool

-- `static_cast<int64_t>` of a uint64_t, where a negative result counts as 0
abbrev pub to_int64_or_zero : ℕ → ℕ
to_int64_or_zero n = if ltb n (2 ^ 63) then n else 0

-- the constructor
unfoldable pub new_tracker : LevelKey → ℕ → ℕ → Tracker
new_tracker level our_seq ahead = record {
  level = level;
  our_seq = our_seq;
  ahead_qty = to_int64_or_zero ahead;
  became_front = to_int64_or_zero ahead == 0;
}

-- the update by a reduction of an entry ahead of ours
unfoldable pub advance : Tracker → ℕ → Tracker
advance t qty_reduced =
    let left = clamped_sub t.ahead_qty qty_reduced in
    record t { ahead_qty = left; became_front = if left == 0 then true else t.became_front }

-- a reduction on our level: the tracker after it, and whether it fills our order
unfoldable pub consume_at : Tracker → ReductionEvent → Tracker × Bool
unfolding advance
consume_at t r = (
  if ltb r.entry_seq t.our_seq then advance t r.qty_reduced else t,
  t.became_front && r.is_execute,
)

-- `consume`
unfoldable pub consume : Tracker → ApplyEffect → Tracker × Bool
unfolding consume_at
consume t eff = elim eff.reduction [
  | none ↦ (t, false)
  | some r ↦ if not (level_eq r.level t.level) then (t, false) else consume_at t r
]
