-- ===== src/Queue/Steps.antt =====
-- QueuePositionBook::apply (include/queue_book.hpp) as a whole: its result, and the effect that it
-- reports.
use exchange_market_data_dec.Prelude.{
  ℕ, ◌+◌, ◌-◌, ◌≤◌, min, Bool, true, false, ◌&&◌, ◌≡◌, refl, Option, none, some, [], ◌∷◌, ltb,
  arith, Bool-cases, Option-cases, inl, inr, nat_eq,
}
use exchange_market_data_dec.Protocol.{WireMsg}
use exchange_market_data_dec.Map.{find}
use exchange_market_data_dec.Book.Levels.{when}
use exchange_market_data_dec.Queue.{
  LevelKey, level_eq, level_eq_iff, level_key_eq, QEntry, ReductionEvent, ApplyEffect, no_effect,
  Loc, QueueBook, entries, node, push_order, reduce_node, deref, reduction_of, reduce_by, touch,
  delete_at, replace_at, apply, qty_before, qty_ahead_of_seq,
}
use exchange_market_data_dec.Queue.Entries.{
  node-seq, qty_before-append, qty_before-set_qty, qty_before-unlink,
}
use exchange_market_data_dec.Queue.Effects.{
  arrival, reduced, entries-push_order, entries-reduce_node,
}
use exchange_market_data_dec.Queue.Linked.{IsLinked, HasRoom}
use exchange_market_data_dec.Queue.Linked.Push.{push_order-IsLinked}
use exchange_market_data_dec.Queue.Linked.Reduce.{reduce_node-IsLinked, reduce_next_seq}

-- By how much the reported reduction advances a position: only if it took from an entry of the level
-- that arrived before.
abbrev pub advance_by : Option ReductionEvent → LevelKey → ℕ → ℕ
advance_by none key seq = 0
advance_by (some r) key seq = when (level_eq r.level key && ltb r.entry_seq seq) r.qty_reduced

pub record Step (q q' : QueueBook) (eff : ApplyEffect) : Type 0 where
  pub linked : IsLinked q'
  pub later : q.next_seq ≤ q'.next_seq
  pub soon : q'.next_seq ≤ q.next_seq + 1
  pub ahead :
      (key : LevelKey) (seq : ℕ)
      → seq ≤ q.next_seq
      → qty_ahead_of_seq q key seq ≡ qty_ahead_of_seq q' key seq + advance_by eff.reduction key seq

push_ahead :
    (q : QueueBook) (id : ℕ) (key : LevelKey) (n : ℕ) (k : LevelKey) (seq : ℕ)
    → seq ≤ q.next_seq
    → qty_ahead_of_seq (push_order q id key n) k seq ≡ qty_ahead_of_seq q k seq
unfolding qty_ahead_of_seq
push_ahead q id key n k seq h = elim (Bool-cases (level_eq key k)) [
  | inl p ↦
      let same : key ≡ k = (level_eq_iff key k).0 p in
      rw (entries-push_order q id key n k, p, same)
        (ground (arith, qty_before-append seq (entries q.levels k) (arrival q id n)))
  | inr p ↦ rw (entries-push_order q id key n k, p) refl
]

-- `next_seq_` after an arrival
push_later :
    (q : QueueBook) (id : ℕ) (key : LevelKey) (n : ℕ)
    → HasRoom q
    → (push_order q id key n).next_seq ≡ q.next_seq + 1
unfolding push_order
push_later q id key n room = omega arith

push_Step :
    (q : QueueBook) (id : ℕ) (key : LevelKey) (n : ℕ) (eff : ApplyEffect)
    → HasRoom q
    → IsLinked q
    → eff.reduction ≡ none
    → Step q (push_order q id key n) eff
push_Step q id key n eff room v e = record {
  linked = push_order-IsLinked q id key n room v;
  later = omega (arith, push_later q id key n room);
  soon = omega (arith, push_later q id key n room);
  ahead = λ k seq h. rw e (omega (arith, push_ahead q id key n k seq h));
}

module _ (q : QueueBook) (id : ℕ) (loc : Loc) (e : QEntry) (actual : ℕ) (v : IsLinked q)
    (live : find id q.orders ≡ some loc) (at : node loc.it (entries q.levels loc.level) ≡ some e)
    (fits : actual ≤ e.qty) where
  reduced_before :
      (seq : ℕ)
      → qty_before seq (entries q.levels loc.level)
        ≡ qty_before seq (reduced loc.it e actual (entries q.levels loc.level))
          + when (ltb e.seq seq) actual
  reduced_before seq = ground (
    arith,
    node-seq loc.it (entries q.levels loc.level) e at,
    qty_before-unlink seq loc.it (entries q.levels loc.level) e at,
    qty_before-set_qty seq loc.it (e.qty - actual) (entries q.levels loc.level) e at,
  )

  reduce_Step :
      (x : Bool) (eff : ApplyEffect)
      → eff.reduction ≡ some (reduction_of loc e actual x)
      → Step q (reduce_node q id loc e actual) eff
  unfolding qty_ahead_of_seq
  reduce_Step x eff is = record {
    linked = reduce_node-IsLinked q id loc e actual v live at;
    later = omega (arith, reduce_next_seq q id loc e actual v live at);
    soon = omega (arith, reduce_next_seq q id loc e actual v live at);
    ahead = λ k seq h. elim (Bool-cases (level_eq loc.level k)) [
      | inl p ↦
          let same : loc.level ≡ k = (level_eq_iff loc.level k).0 p in
          rw (is, entries-reduce_node q id loc e actual k v.levels_distinct, p, ← same)
            (reduced_before seq)
      | inr p ↦ rw (is, entries-reduce_node q id loc e actual k v.levels_distinct, p) (omega arith)
    ];
  }

same_Step : (q : QueueBook) → IsLinked q → Step q q no_effect
same_Step q v = record {
  linked = v;
  later = omega arith;
  soon = omega arith;
  ahead = λ k seq h. omega arith;
}

-- The result of an operation that does not fault, and what it did.
abbrev pub Steps : QueueBook → Option (QueueBook × ApplyEffect) → Type 0
Steps q r =
    (q' : QueueBook) × (eff : ApplyEffect) × (r ≡ some (q', eff))
    × Step q q' eff
    × (q'.next_seq ≡ q.next_seq)

-- the effect of a reduction of an order that was found
abbrev hit_effect : Loc → QEntry → ℕ → Bool → ApplyEffect
hit_effect loc e actual x = record {
  touched = loc.level ∷ [];
  reduction = some (reduction_of loc e actual x);
}

reduce_by-Steps :
    (q : QueueBook) (id n : ℕ) (x : Bool) → IsLinked q → Steps q (reduce_by q id n x no_effect)
unfolding reduce_by deref
reduce_by-Steps q id n x v = elim (Option-cases (find id q.orders)) [
  | inl e ↦ (q, no_effect, rw (e, reduce_by), same_Step q v, refl)
  | inr (loc, live) ↦
      let h = v.linked id loc live in
      (
        reduce_node q id loc h.entry (min n h.entry.qty),
        hit_effect loc h.entry (min n h.entry.qty) x,
        rw (live, reduce_by, h.at) refl,
        reduce_Step q id loc h.entry (min n h.entry.qty) v live h.at (omega arith) x
            (hit_effect loc h.entry (min n h.entry.qty) x) refl,
        reduce_next_seq q id loc h.entry (min n h.entry.qty) v live h.at,
      )
]

delete_at-Steps :
    (q : QueueBook) (id : ℕ) (loc : Loc)
    → IsLinked q
    → find id q.orders ≡ some loc
    → Steps q (delete_at q id loc)
unfolding delete_at deref
delete_at-Steps q id loc v live =
    let h = v.linked id loc live in rw h.at (reduce_by-Steps q id h.entry.qty false v)

-- What an operation did, where it may also have taken an arrival.
abbrev pub Returns : QueueBook → Option (QueueBook × ApplyEffect) → Type 0
Returns q r = (q' : QueueBook) × (eff : ApplyEffect) × (r ≡ some (q', eff)) × Step q q' eff

Steps-Returns : (q : QueueBook) (r : Option (QueueBook × ApplyEffect)) → Steps q r → Returns q r
Steps-Returns q r (q', eff, e, s, _) = (q', eff, e, s)

replace_at-Returns :
    (q : QueueBook) (id new_id : ℕ) (key : LevelKey) (n : ℕ) (loc : Loc)
    → HasRoom q
    → IsLinked q
    → find id q.orders ≡ some loc
    → Returns q (replace_at q id new_id key n loc)
unfolding replace_at
replace_at-Returns q id new_id key n loc room v live =
    let (q', eff, e, s, same) = delete_at-Steps q id loc v live in
    let room' : HasRoom q' = omega arith in
    (
      push_order q' new_id key n,
      touch eff key,
      rw e refl,
      record {
        linked = push_order-IsLinked q' new_id key n room' s.linked;
        later = omega (arith, push_later q' new_id key n room');
        soon = omega (arith, push_later q' new_id key n room');
        ahead = λ k seq h.
            omega (arith, s.ahead k seq h, push_ahead q' new_id key n k seq (omega arith));
      },
    )

-- While the arrival counter has room, no message makes the book follow an iterator to a node that is
-- gone; the book stays linked; and for every position taken before the message, the reported reduction
-- is exactly what the quantity ahead of it falls by.
pub apply-Returns : (m : WireMsg) (q : QueueBook) → HasRoom q → IsLinked q → Returns q (apply m q)
unfolding apply
apply-Returns (WireMsg.add a) q room v =
    (push_order q a.order_id _ a.qty, _, refl, push_Step q a.order_id _ a.qty _ room v refl)
apply-Returns (WireMsg.exec e) q room v =
    Steps-Returns q _ (reduce_by-Steps q e.order_id e.exec_qty true v)
apply-Returns (WireMsg.cancel c) q room v =
    Steps-Returns q _ (reduce_by-Steps q c.order_id c.cancel_qty false v)
apply-Returns (WireMsg.del d) q room v = elim (Option-cases (find d.order_id q.orders)) [
  | inl e ↦ (q, no_effect, rw (e, apply), same_Step q v)
  | inr (loc, live) ↦ rw (live, apply) (Steps-Returns q _ (delete_at-Steps q d.order_id loc v live))
]
apply-Returns (WireMsg.replace r) q room v = elim (Option-cases (find r.old_order_id q.orders)) [
  | inl e ↦ (q, no_effect, rw (e, apply), same_Step q v)
  | inr (loc, live) ↦
      rw (live, apply) (replace_at-Returns q r.old_order_id r.new_order_id _ r.qty loc room v live)
]
