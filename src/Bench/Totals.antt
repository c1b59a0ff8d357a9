-- ===== src/Bench/Totals.antt =====
-- src/decoder_bench.cpp: sums over shards, as the dispatcher and the workers change them.
use exchange_market_data_dec.Prelude.{
  ℕ, zero, suc, ◌+◌, ◌≤◌, ◌<◌, ◌≡◌, ◌≢◌, refl, sym, ◌∙◌, ap, arith, ltb, ◌==◌, Bool-cases,
  Option-cases, inl, inr, List, [], ◌∷◌, ◌++◌, length, length-append, put, put_same, put_other,
  nat_eq, true, false,
}
use exchange_market_data_dec.Protocol.{WireMsg}
use exchange_market_data_dec.Map.{find}
use exchange_market_data_dec.Normalizer.{
  Shard, QueueItem, OrderLocation, Normalizer, dispatch, work, work_shard, apply_item,
  with_location, rest_location, reduce_location, delete_location, instrument_of, k_queue_capacity,
}
use exchange_market_data_dec.Normalizer.Serving.{apply_item-queue}
use exchange_market_data_dec.Bench.{sum_shards}

-- What a shard has processed or still has to process.
abbrev pub handed : Shard → ℕ
handed s = s.processed + length s.queue

with_location-processed :
    (sh : Shard) (id : ℕ) (g : OrderLocation → Shard)
    → ((o : OrderLocation) → (g o).processed ≡ sh.processed)
    → (with_location sh id g).processed ≡ sh.processed
with_location-processed sh id g same = elim (Option-cases (find id sh.orders)) [
  | inl h ↦ rw (with_location, h) refl
  | inr (o, h) ↦ rw (with_location, h) (same o)
]

apply_item-processed :
    (sh : Shard) (m : WireMsg) (k : ℕ)
    → (apply_item sh (record { msg = m; local_idx = k })).processed ≡ sh.processed
unfolding apply_item rest_location reduce_location delete_location
apply_item-processed sh (WireMsg.add m) k = refl
apply_item-processed sh (WireMsg.exec m) k = with_location-processed sh m.order_id _ (λ o. refl)
apply_item-processed sh (WireMsg.cancel m) k = with_location-processed sh m.order_id _ (λ o. refl)
apply_item-processed sh (WireMsg.del m) k = with_location-processed sh m.order_id _ (λ o. refl)
apply_item-processed sh (WireMsg.replace m) k =
    with_location-processed sh m.old_order_id _ (λ o. refl)

work_shard-handed :
    (sh : Shard) (items : List QueueItem)
    → sh.queue ≡ items
    → handed (work_shard sh items) ≡ handed sh
work_shard-handed sh [] e = refl
work_shard-handed sh (item ∷ items) e = omega (
  arith,
  ap length e,
  apply_item-processed (record sh { queue = items }) item.msg item.local_idx,
  ap length (apply_item-queue (record sh { queue = items }) item.msg item.local_idx),
)

-- `sum_shards` after a change of one shard
abbrev with_shard : Normalizer → ℕ → Shard → Normalizer
with_shard n s sh = record n { shards = put n.shards s sh }

sum_shards-outside :
    (f : Shard → ℕ) (k : ℕ) (n : Normalizer) (s : ℕ) (sh : Shard)
    → k ≤ s
    → sum_shards f k (with_shard n s sh) ≡ sum_shards f k n
unfolding sum_shards
sum_shards-outside f zero n s sh le = refl
sum_shards-outside f (suc k) n s sh le =
    let last : f (put n.shards s sh k) ≡ f (n.shards k) =
      ap f (put_other n.shards s sh k (λ e. absurd (omega (arith, e, le)))) in
    omega (arith, sum_shards-outside f k n s sh (omega (arith, le)), last)

sum_shards-inside :
    (f : Shard → ℕ) (k : ℕ) (n : Normalizer) (s : ℕ) (sh : Shard)
    → s < k
    → sum_shards f k (with_shard n s sh) + f (n.shards s) ≡ sum_shards f k n + f sh
unfolding sum_shards
sum_shards-inside f zero n s sh lt = absurd (omega (arith, lt))
sum_shards-inside f (suc k) n s sh lt = elim (Bool-cases (s == k)) [
  | inl e ↦
      let same : s ≡ k = ground (arith, e) in
      let last : f (put n.shards s sh k) ≡ f sh =
        ap (λ j. f (put n.shards s sh j)) (sym same) ∙ ap f (put_same n.shards s sh) in
      let before : f (n.shards s) ≡ f (n.shards k) = ap (λ j. f (n.shards j)) same in
      omega (arith, sum_shards-outside f k n s sh (omega (arith, same)), last, before)
  | inr e ↦
      let other : s ≢ k = ground (arith, e) in
      let last : f (put n.shards s sh k) ≡ f (n.shards k) =
        ap f (put_other n.shards s sh k other) in
      omega (arith, sum_shards-inside f k n s sh (ground (arith, lt, e)), last)
]

-- A change that keeps a shard's share keeps the sum.
sum_shards-kept :
    (f : Shard → ℕ) (k : ℕ) (n : Normalizer) (s : ℕ) (sh : Shard)
    → f sh ≡ f (n.shards s)
    → sum_shards f k (with_shard n s sh) ≡ sum_shards f k n
sum_shards-kept f k n s sh same = elim (Bool-cases (ltb s k)) [
  | inl e ↦
      let lt : s < k = ground (arith, e) in omega (arith, sum_shards-inside f k n s sh lt, same)
  | inr e ↦ sum_shards-outside f k n s sh (ground (arith, e))
]

pub work-handed :
    (k : ℕ) (n : Normalizer) (s : ℕ) → sum_shards handed k (work n s) ≡ sum_shards handed k n
unfolding work
work-handed k n s =
    sum_shards-kept handed k n s (work_shard (n.shards s) (n.shards s).queue)
      (work_shard-handed (n.shards s) (n.shards s).queue refl)

-- A message that is taken is one more to process, and one that is not taken changes nothing.
pub dispatch-taken :
    (k : ℕ) (n : Normalizer) (m : WireMsg)
    → n.instrument_to_shard (instrument_of m) < k
    → (dispatch n m).1 ≡ true
    → sum_shards handed k (dispatch n m).0 ≡ sum_shards handed k n + 1
unfolding dispatch
dispatch-taken k n m known ok =
    elim (Bool-cases (ltb (length (n.shards s).queue + 1) k_queue_capacity)) [
      | inl room ↦ rw room (
          omega (
            arith,
            sum_shards-inside handed k n s
                (record (n.shards s) { queue = (n.shards s).queue ++ item ∷ [] }) known,
            length-append (n.shards s).queue (item ∷ []),
          ))
      | inr full ↦ absurd (ground (arith, rw full at ok))
    ]
  where
    s : ℕ
    s = n.instrument_to_shard (instrument_of m)

    item : QueueItem
    item = record { msg = m; local_idx = n.instrument_to_local (instrument_of m) }

pub dispatch-full :
    (k : ℕ) (n : Normalizer) (m : WireMsg)
    → (dispatch n m).1 ≡ false
    → sum_shards handed k (dispatch n m).0 ≡ sum_shards handed k n
unfolding dispatch
dispatch-full k n m refused =
    elim (Bool-cases (ltb (length (n.shards s).queue + 1) k_queue_capacity)) [
      | inl room ↦ absurd (ground (arith, rw room at refused))
      | inr full ↦ rw full (
          sum_shards-kept handed k n s
            (record (n.shards s) { dropped_full = (n.shards s).dropped_full + 1 }) refl)
    ]
  where
    s : ℕ
    s = n.instrument_to_shard (instrument_of m)
