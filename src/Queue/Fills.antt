-- ===== src/Queue/Fills.antt =====
-- QueuePositionBook::apply and FastAheadTracker::consume (include/queue_book.hpp): the messages that
-- fill a tracked order.
use mathlib.Core.Option.{some-injective, none-ne-some}
use exchange_market_data_dec.Prelude.{
  ℕ, ◌+◌, ◌^◌, ◌<◌, ◌≡◌, ◌↔◌, refl, sym, ◌∙◌, ap, arith, Bool, true, false, not, Option, none, some,
  Option-cases, inl, inr, min, nat_eq,
}
use exchange_market_data_dec.Protocol.{WireMsg}
use exchange_market_data_dec.Map.{find}
use exchange_market_data_dec.Queue.{
  LevelKey, Loc, level_eq_iff, ReductionEvent, ApplyEffect, no_effect, QueueBook, deref,
  reduction_of, reduce_by, delete_at, replace_at, apply, qty_ahead_of_seq,
}
use exchange_market_data_dec.Queue.Linked.{IsLinked}
use exchange_market_data_dec.Queue.Steps.{apply-Returns}
use exchange_market_data_dec.Queue.Tracker.{Tracker, consume}
use exchange_market_data_dec.Queue.Ahead.{IsTracking}

-- A reported trade on the tracked level, with nothing ahead in the book.
abbrev IsFill : QueueBook → Tracker → Option ReductionEvent → Type 0
IsFill q t none = ⊥
IsFill q t (some r) =
    (r.level ≡ t.level) × (r.is_execute ≡ true) × (qty_ahead_of_seq q t.level t.our_seq ≡ 0)

consume_effect :
    (q : QueueBook) (t : Tracker) (eff : ApplyEffect)
    → IsTracking q t
    → ((consume t eff).1 ≡ true) ↔ IsFill q t eff.reduction
unfolding consume
consume_effect q t eff k = split eff.reduction refl
  where
    split :
        (o : Option ReductionEvent) → eff.reduction ≡ o → ((consume t eff).1 ≡ true) ↔ IsFill q t o
    split none e = (λ h. ground arith, λ h. absurd h)
    split (some r) e = (
      λ h. ground (arith, level_eq_iff r.level t.level, k.agrees, k.front),
      λ h. ground (arith, level_eq_iff r.level t.level, k.agrees, k.front),
    )

-- no trade is reported
abbrev quiet : Option ReductionEvent → Bool
quiet none = true
quiet (some r) = not r.is_execute

quiet-IsFill :
    (q : QueueBook) (t : Tracker) (o : Option ReductionEvent) → quiet o ≡ true → ¬ IsFill q t o
quiet-IsFill q t none h = λ fill. absurd fill
quiet-IsFill q t (some r) h = λ fill. ground (arith, fill.1)

abbrev quiet_at : QueueBook × ApplyEffect → Bool
quiet_at p = quiet p.1.reduction

reduce_by_quiet :
    (q : QueueBook) (id n : ℕ) (p : QueueBook × ApplyEffect)
    → reduce_by q id n false no_effect ≡ some p
    → quiet_at p ≡ true
unfolding reduce_by
reduce_by_quiet q id n p e = elim (Option-cases (find id q.orders)) [
  | inl h ↦ ap quiet_at (sym (some-injective _ _ (rw (reduce_by, h) at e)))
  | inr (loc, h) ↦ elim (Option-cases (deref q loc)) [
    | inl h2 ↦ absurd (none-ne-some _ (rw (reduce_by, h, h2) at e))
    | inr (x, h2) ↦ ap quiet_at (sym (some-injective _ _ (rw (reduce_by, h, h2) at e)))
  ]
]

delete_at_quiet :
    (q : QueueBook) (id : ℕ) (loc : Loc) (p : QueueBook × ApplyEffect)
    → delete_at q id loc ≡ some p
    → quiet_at p ≡ true
unfolding delete_at
delete_at_quiet q id loc p e = elim (Option-cases (deref q loc)) [
  | inl h ↦ absurd (none-ne-some _ (rw (delete_at, h) at e))
  | inr (x, h) ↦ reduce_by_quiet q id x.qty p (rw (delete_at, h) at e)
]

replace_at_quiet :
    (q : QueueBook) (old_id new_id : ℕ) (key : LevelKey) (n : ℕ) (loc : Loc)
    (p : QueueBook × ApplyEffect)
    → replace_at q old_id new_id key n loc ≡ some p
    → quiet_at p ≡ true
unfolding replace_at
replace_at_quiet q old_id new_id key n loc p e = elim (Option-cases (delete_at q old_id loc)) [
  | inl h ↦ absurd (none-ne-some _ (rw (replace_at, h) at e))
  | inr (after, h) ↦
      ap quiet_at (sym (some-injective _ _ (rw (replace_at, h) at e)))
      ∙ delete_at_quiet q old_id loc after h
]

-- whether the message is an execution
abbrev is_trade : WireMsg → Bool
is_trade (WireMsg.exec e) = true
is_trade (WireMsg.add a) = false
is_trade (WireMsg.cancel c) = false
is_trade (WireMsg.del d) = false
is_trade (WireMsg.replace r) = false

-- What each kind of message but a trade reports is no trade.
other_quiet :
    (m : WireMsg) (q : QueueBook) (p : QueueBook × ApplyEffect)
    → is_trade m ≡ false
    → apply m q ≡ some p
    → quiet_at p ≡ true
unfolding apply
other_quiet (WireMsg.add a) q p other e = ap quiet_at (sym (some-injective _ _ e))
other_quiet (WireMsg.exec x) q p other e = absurd (cc other)
other_quiet (WireMsg.cancel c) q p other e = reduce_by_quiet q c.order_id c.cancel_qty p e
other_quiet (WireMsg.del d) q p other e = elim (Option-cases (find d.order_id q.orders)) [
  | inl h ↦ ap quiet_at (sym (some-injective _ _ (rw (apply, h) at e)))
  | inr (loc, h) ↦ delete_at_quiet q d.order_id loc p (rw (apply, h) at e)
]
other_quiet (WireMsg.replace r) q p other e = elim (Option-cases (find r.old_order_id q.orders)) [
  | inl h ↦ ap quiet_at (sym (some-injective _ _ (rw (apply, h) at e)))
  | inr (loc, h) ↦
      replace_at_quiet q r.old_order_id r.new_order_id _ r.qty loc p (rw (apply, h) at e)
]

-- an order that was found rests on the tracked level, where nothing is ahead of the tracked order
abbrev IsTrade : QueueBook → Tracker → Option Loc → Type 0
IsTrade q t none = ⊥
IsTrade q t (some loc) = (loc.level ≡ t.level) × (qty_ahead_of_seq q t.level t.our_seq ≡ 0)

-- What a trade's message reports, at an order that rests in the book or at none.
exec_effect :
    (q : QueueBook) (t : Tracker) (id n : ℕ) (p : QueueBook × ApplyEffect)
    → reduce_by q id n true no_effect ≡ some p
    → IsFill q t p.1.reduction ↔ IsTrade q t (find id q.orders)
unfolding reduce_by
exec_effect q t id n p e = elim (Option-cases (find id q.orders)) [
  | inl h ↦
      let nothing : none ≡ p.1.reduction =
        ap (λ p. p.1.reduction) (some-injective _ _ (rw (reduce_by, h) at e)) in
      rw (h, ← nothing) (λ x. x, λ x. x)
  | inr (loc, h) ↦ elim (Option-cases (deref q loc)) [
    | inl h2 ↦ absurd (none-ne-some _ (rw (reduce_by, h, h2) at e))
    | inr (x, h2) ↦
        let traded : some (reduction_of loc x (min n x.qty) true) ≡ p.1.reduction =
          ap (λ p. p.1.reduction) (some-injective _ _ (rw (reduce_by, h, h2) at e)) in
        rw (h, ← traded) (λ f. (f.0, f.2), λ f. (f.0, refl, f.1))
  ]
]

-- The message trades an order of the book that rests on the tracked level, and in that book nothing was
-- ahead of the tracked order.
abbrev pub TradesAtFront : QueueBook → Tracker → WireMsg → Type 0
TradesAtFront q t (WireMsg.exec e) = IsTrade q t (find e.order_id q.orders)
TradesAtFront q t (WireMsg.add a) = ⊥
TradesAtFront q t (WireMsg.cancel c) = ⊥
TradesAtFront q t (WireMsg.del d) = ⊥
TradesAtFront q t (WireMsg.replace r) = ⊥

no_trade :
    (q : QueueBook) (t : Tracker) (m : WireMsg) (p : QueueBook × ApplyEffect)
    → is_trade m ≡ false
    → apply m q ≡ some p
    → IsTracking q t
    → ((consume t p.1).1 ≡ true) ↔ ⊥
no_trade q t m p other e k = (
  λ h. quiet-IsFill q t p.1.reduction (other_quiet m q p other e) ((consume_effect q t p.1 k).0 h),
  λ h. absurd h,
)

effect_fills :
    (q : QueueBook) (t : Tracker) (m : WireMsg) (p : QueueBook × ApplyEffect)
    → apply m q ≡ some p
    → IsTracking q t
    → ((consume t p.1).1 ≡ true) ↔ TradesAtFront q t m
unfolding apply
effect_fills q t (WireMsg.add a) p e k = no_trade q t (WireMsg.add a) p refl e k
effect_fills q t (WireMsg.exec x) p e k =
    let filled = consume_effect q t p.1 k in
    let traded = exec_effect q t x.order_id x.exec_qty p e in
    (λ h. traded.0 (filled.0 h), λ h. filled.1 (traded.1 h))
effect_fills q t (WireMsg.cancel c) p e k = no_trade q t (WireMsg.cancel c) p refl e k
effect_fills q t (WireMsg.del d) p e k = no_trade q t (WireMsg.del d) p refl e k
effect_fills q t (WireMsg.replace r) p e k = no_trade q t (WireMsg.replace r) p refl e k

-- On a linked book that the arrival counter has room in, with a tracker that agrees with it, `apply` does
-- not fault, and `consume` of the effect that it reports says filled exactly if the message is an
-- execution of an order that rests on the tracked level of that book and, before it, no quantity was
-- ahead there: no cancel, delete, replace or add fills an order.
pub apply-consume_fills :
    (m : WireMsg) (q : QueueBook) (t : Tracker)
    → q.next_seq + 1 < 2 ^ 64
    → IsLinked q
    → IsTracking q t
    → (q' : QueueBook) × (eff : ApplyEffect) × (apply m q ≡ some (q', eff))
      × (((consume t eff).1 ≡ true) ↔ TradesAtFront q t m)
apply-consume_fills m q t room v k =
    let (q', eff, returns, s) = apply-Returns m q room v in
    (q', eff, returns, effect_fills q t m (q', eff) returns k)
