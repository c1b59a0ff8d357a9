-- ===== src/Queue/Ahead.antt =====
-- FastAheadTracker against the reference oracle qty_ahead_of_seq (include/queue_book.hpp), which adds
-- up the level's entries from scratch.
use exchange_market_data_dec.Prelude.{
  ℕ, ◌+◌, ◌≤◌, ◌<◌, ◌^◌, ◌≡◌, refl, Option, some, List, [], ◌∷◌, length, ◌==◌, arith,
}
use exchange_market_data_dec.Protocol.{WireMsg}
use exchange_market_data_dec.Queue.{
  LevelKey, ApplyEffect, QueueBook, apply, ◌>>=◌, qty_ahead_of_seq, level_total_qty, total_qty,
  entries,
}
use exchange_market_data_dec.Queue.Entries.{qty_before-all}
use exchange_market_data_dec.Queue.Linked.{IsLinked}
use exchange_market_data_dec.Queue.Steps.{Step, advance_by, apply-Returns}
use exchange_market_data_dec.Queue.Tracker.{Tracker, new_tracker, consume}

-- The tracker agrees with the oracle, and knows whether it is at the front.
pub record IsTracking (q : QueueBook) (t : Tracker) : Type 0 where
  pub taken : t.our_seq ≤ q.next_seq
  pub agrees : t.ahead_qty ≡ qty_ahead_of_seq q t.level t.our_seq
  pub front : t.became_front ≡ (t.ahead_qty == 0)

-- A tracker that is made at the current arrival number from the level's total tracks its position,
-- if that total fits the uint32_t that it is returned in.
pub new_tracker-IsTracking :
    (q : QueueBook) (key : LevelKey)
    → IsLinked q
    → total_qty (entries q.levels key) < 2 ^ 32
    → IsTracking q (new_tracker key q.next_seq (level_total_qty q key))
unfolding new_tracker level_total_qty qty_ahead_of_seq
new_tracker-IsTracking q key v small = record {
  taken = omega arith;
  agrees = ground (arith, qty_before-all q.next_seq (entries q.levels key) (v.before key));
  front = refl;
}

consume_key :
    (t : Tracker) (eff : ApplyEffect)
    → ((consume t eff).0.level ≡ t.level) × ((consume t eff).0.our_seq ≡ t.our_seq)
unfolding consume
consume_key t eff = (ground arith, ground arith)

consume_ahead :
    (t : Tracker) (eff : ApplyEffect) (before after : ℕ)
    → t.ahead_qty ≡ before
    → before ≡ after + advance_by eff.reduction t.level t.our_seq
    → (consume t eff).0.ahead_qty ≡ after
unfolding consume
consume_ahead t eff before after e h = ground arith

consume_front :
    (t : Tracker) (eff : ApplyEffect)
    → t.became_front ≡ (t.ahead_qty == 0)
    → (consume t eff).0.became_front ≡ ((consume t eff).0.ahead_qty == 0)
unfolding consume
consume_front t eff e = ground arith

-- The incremental update keeps the tracker in agreement with the oracle.
pub consume-IsTracking :
    (q q' : QueueBook) (t : Tracker) (eff : ApplyEffect)
    → Step q q' eff
    → IsTracking q t
    → IsTracking q' (consume t eff).0
consume-IsTracking q q' t eff s k =
    let (same_level, same_seq) = consume_key t eff in
    record {
      taken = omega (arith, s.later, k.taken);
      agrees =
          rw (same_level, same_seq)
            (consume_ahead t eff _ _ k.agrees (s.ahead t.level t.our_seq k.taken));
      front = consume_front t eff k.front;
    }

-- the messages of a stream, each applied to the book and its effect fed to the tracker
unfoldable pub watch : List WireMsg → QueueBook → Tracker → Option (QueueBook × Tracker)
watch [] q t = some (q, t)
watch (m ∷ ms) q t = apply m q >>= λ (q', eff). watch ms q' (consume t eff).0

-- On a linked book, with a tracker that agrees with it at the start, through any stream of messages that
-- the arrival counter has room for, consistent or not, the book never faults and the O(1) tracker ends with the quantity that the scan of the level finds ahead.
pub watch-IsTracking :
    (ms : List WireMsg) (q : QueueBook) (t : Tracker)
    → q.next_seq + length ms < 2 ^ 64
    → IsLinked q
    → IsTracking q t
    → (q' : QueueBook) × (t' : Tracker) × (watch ms q t ≡ some (q', t')) × IsTracking q' t'
unfolding watch
watch-IsTracking [] q t room v k = (q, t, refl, k)
watch-IsTracking (m ∷ ms) q t room v k =
    let (q₁, eff, e, s) = apply-Returns m q (omega arith) v in
    let (q', t', e', k') =
      watch-IsTracking ms q₁ (consume t eff).0 (omega (arith, s.soon)) s.linked
        (consume-IsTracking q q₁ t eff s k) in
    (q', t', rw (e, watch) e', k')
