-- ===== src/Normalizer/Serving.antt =====
-- The queues and workers of include/normalizer.hpp, seen from one instrument.
use exchange_market_data_dec.Prelude.{
  ℕ, ◌<◌, ◌≡◌, ◌≢◌, refl, sym, ◌∙◌, ap, subst, arith, ◌==◌, if◌then◌else◌, inl, inr, Bool-cases,
  Option-cases, List, [], ◌∷◌, ◌++◌, nat_eq,
}
use exchange_market_data_dec.Protocol.{WireMsg}
use exchange_market_data_dec.Map.{find}
use exchange_market_data_dec.Replay.{State, apply_to_book, replay}
use exchange_market_data_dec.Normalizer.{
  Shard, QueueItem, OrderLocation, work_shard, apply_item, instrument_of, num_instruments,
  rest_location, reduce_location, delete_location, with_location,
}
use exchange_market_data_dec.Normalizer.Apply.{Agrees, frame-Agrees, IsOwned, apply_item-Agrees}
use exchange_market_data_dec.Normalizer.Apart.{apply_item-Agrees_apart}

-- the messages of instrument `i`, in order
unfoldable pub for_instrument : ℕ → List WireMsg → List WireMsg
for_instrument i [] = []
for_instrument i (m ∷ ms) =
    let rest = for_instrument i ms in if instrument_of m == i then m ∷ rest else rest

-- the messages of instrument `i` that are queued
unfoldable pub pending : ℕ → List QueueItem → List WireMsg
pending i [] = []
pending i (item ∷ items) =
    let rest = pending i items in if instrument_of item.msg == i then item.msg ∷ rest else rest

with_location-queue :
    (sh : Shard) (id : ℕ) (g : OrderLocation → Shard)
    → ((o : OrderLocation) → (g o).queue ≡ sh.queue)
    → (with_location sh id g).queue ≡ sh.queue
with_location-queue sh id g same = elim (Option-cases (find id sh.orders)) [
  | inl h ↦ rw (with_location, h) refl
  | inr (o, h) ↦ rw (with_location, h) (same o)
]

pub apply_item-queue :
    (sh : Shard) (m : WireMsg) (k : ℕ)
    → (apply_item sh (record { msg = m; local_idx = k })).queue ≡ sh.queue
unfolding apply_item rest_location reduce_location delete_location
apply_item-queue sh (WireMsg.add m) k = refl
apply_item-queue sh (WireMsg.exec m) k = with_location-queue sh m.order_id _ (λ o. refl)
apply_item-queue sh (WireMsg.cancel m) k = with_location-queue sh m.order_id _ (λ o. refl)
apply_item-queue sh (WireMsg.del m) k = with_location-queue sh m.order_id _ (λ o. refl)
apply_item-queue sh (WireMsg.replace m) k = with_location-queue sh m.old_order_id _ (λ o. refl)

module _ (owner to_shard to_local : ℕ → ℕ) where
  -- An item of the queue of shard `s`: its instrument has its book there.
  pub record IsItem (s : ℕ) (item : QueueItem) : Type 0 where
    pub known : instrument_of item.msg < num_instruments
    pub shard : to_shard (instrument_of item.msg) ≡ s
    pub idx : item.local_idx ≡ to_local (instrument_of item.msg)
    pub owned : IsOwned owner (instrument_of item.msg) item.msg

  abbrev pub IsQueue : ℕ → List QueueItem → Type 0
  IsQueue s [] = Unit
  IsQueue s (item ∷ items) = IsItem s item × IsQueue s items

  pub snoc-IsQueue :
      (s : ℕ) (items : List QueueItem) (item : QueueItem)
      → IsQueue s items
      → IsItem s item
      → IsQueue s (items ++ item ∷ [])
  snoc-IsQueue s [] item q h = (h, tt)
  snoc-IsQueue s (x ∷ items) item q h = (q.0, snoc-IsQueue s items item q.1 h)

  -- A round of the worker takes the first item, if there is one, and no other.
  pub work_shard-IsQueue :
      (s : ℕ) (sh : Shard) (items : List QueueItem)
      → sh.queue ≡ items
      → IsQueue s items
      → IsQueue s (work_shard sh items).queue
  work_shard-IsQueue s sh [] e q = subst (IsQueue s) (sym e) q
  work_shard-IsQueue s sh (item ∷ items) e q =
      subst (IsQueue s)
        (sym (apply_item-queue (record sh { queue = items }) item.msg item.local_idx)) q.1

  module _ (i : ℕ)
      (apart : (j : ℕ)
        → j < num_instruments
        → j ≢ i
        → to_shard j ≡ to_shard i
        → to_local j ≢ to_local i) where
    -- A round of the worker of the shard of `i` takes the next message of `i` at most, and applies
    -- it.
    pub work_shard-Agrees :
        (sh : Shard) (st : State) (items : List QueueItem)
        → sh.queue ≡ items
        → IsQueue (to_shard i) items
        → Agrees owner i (to_local i) sh st
        → (st' : State) × Agrees owner i (to_local i) (work_shard sh items) st'
          × (replay (pending i (work_shard sh items).queue) st' ≡ replay (pending i items) st)
    unfolding pending replay
    work_shard-Agrees sh st [] e q a = (st, a, ap (λ l. replay (pending i l) st) e)
    work_shard-Agrees sh st (item ∷ items) e q a = elim (Bool-cases (instrument_of item.msg == i)) [
      | inl h ↦
          let mine : instrument_of item.msg ≡ i = ground arith in
          let own : IsOwned owner i item.msg =
            subst (λ j. IsOwned owner j item.msg) mine q.0.owned in
          let at : item.local_idx ≡ to_local i = q.0.idx ∙ ap to_local mine in
          let applied : Agrees owner i (to_local i) (applied_at item.local_idx)
              (apply_to_book item.msg st) =
            subst (λ k. Agrees owner i (to_local i) (applied_at k) (apply_to_book item.msg st))
              (sym at) (apply_item-Agrees owner i (to_local i) popped st item.msg own before) in
          (
            apply_to_book item.msg st,
            frame-Agrees (applied_at item.local_idx) _ _ _ applied,
            rw h (ap (λ l. replay (pending i l) (apply_to_book item.msg st)) left),
          )
      | inr h ↦
          let other : instrument_of item.msg ≢ i = ground arith in
          let elsewhere : item.local_idx ≢ to_local i =
            λ f. apart (instrument_of item.msg) q.0.known other q.0.shard (sym q.0.idx ∙ f) in
          (
            st,
            frame-Agrees (applied_at item.local_idx) _ _ _ (
                apply_item-Agrees_apart owner i (to_local i) (instrument_of item.msg) item.local_idx
                  other elsewhere st popped item.msg q.0.owned before),
            rw h (ap (λ l. replay (pending i l) st) left),
          )
    ]
      where
        popped : Shard
        popped = record sh { queue = items }

        before : Agrees owner i (to_local i) popped st
        before = frame-Agrees sh items sh.processed sh.dropped_full a

        applied_at : ℕ → Shard
        applied_at k = apply_item popped (record { msg = item.msg; local_idx = k })

        left : (applied_at item.local_idx).queue ≡ items
        left = apply_item-queue popped item.msg item.local_idx
