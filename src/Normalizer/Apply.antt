-- ===== src/Normalizer/Apply.antt =====
-- `Normalizer::apply` (include/normalizer.hpp) against `apply_to_book`, for one instrument of a shard.
use exchange_market_data_dec.Prelude.{
  ℕ, ◌-◌, min, Option, none, some, ◌==◌, nat_eq, ◌≡◌, refl, sym, ◌∙◌, ap, subst, arith, inl, inr,
  List, Bool-cases, Option-cases, put, put_same,
}
use exchange_market_data_dec.Protocol.{WireMsg}
use exchange_market_data_dec.Map.{Map, find, insert, erase}
use exchange_market_data_dec.Map.Laws.{
  find-insert, find-erase_ne, find-erase_self, Distinct, insert-Distinct, erase-Distinct,
}
use exchange_market_data_dec.Book.{add, reduce}
use exchange_market_data_dec.Replay.{
  RestingLoc, State, rest_order, reduce_found, delete_found, with_order, apply_to_book,
}
use exchange_market_data_dec.Normalizer.{
  OrderLocation, QueueItem, Shard, rest_location, reduce_location, delete_location, with_location,
  apply_item,
}

abbrev pub resting : OrderLocation → RestingLoc
resting o = record { side = o.side; price_ticks = o.price_ticks; qty = o.qty }

abbrev pub resting_of : Option OrderLocation → Option RestingLoc
resting_of none = none
resting_of (some o) = some (resting o)

-- The ids that a message names are those of instrument `i`.
abbrev pub IsOwned : (ℕ → ℕ) → ℕ → WireMsg → Type 0
IsOwned owner i (WireMsg.add a) = owner a.order_id ≡ i
IsOwned owner i (WireMsg.exec e) = owner e.order_id ≡ i
IsOwned owner i (WireMsg.cancel c) = owner c.order_id ≡ i
IsOwned owner i (WireMsg.del d) = owner d.order_id ≡ i
IsOwned owner i (WireMsg.replace r) = (owner r.old_order_id ≡ i) × (owner r.new_order_id ≡ i)

-- The shard has, for the instrument `i` with the book `idx`, what the state `st` has.
pub record Agrees (owner : ℕ → ℕ) (i idx : ℕ) (sh : Shard) (st : State) : Type 0 where
  pub books : sh.books idx ≡ st.book
  pub found : (id : ℕ) → owner id ≡ i → find id st.orders ≡ resting_of (find id sh.orders)
  pub distinct : Distinct st.orders
  pub distinct_shard : Distinct sh.orders

-- The queue and the counters have no part in it.
pub frame-Agrees :
    {owner : ℕ → ℕ} {i idx : ℕ} (sh : Shard) {st : State} (queue : List QueueItem)
    (processed dropped_full : ℕ)
    → Agrees owner i idx sh st
    → Agrees owner i idx
        (record sh { queue = queue; processed = processed; dropped_full = dropped_full })
        st
frame-Agrees sh queue processed dropped_full a = record {
  books = a.books;
  found = a.found;
  distinct = a.distinct;
  distinct_shard = a.distinct_shard;
}

-- Two maps that agree on the ids of `i` still do after the same change.
module _ (P : ℕ → Type 0) (m : Map ℕ RestingLoc) (s : Map ℕ OrderLocation)
    (same : (id : ℕ) → P id → find id m ≡ resting_of (find id s)) where
  pub resting_of-insert :
      (k : ℕ) (o : OrderLocation) (id : ℕ)
      → P id
      → find id (insert k (resting o) m) ≡ resting_of (find id (insert k o s))
  resting_of-insert k o id p = elim (Bool-cases (k == id)) [
    | inl e ↦ ground (arith, find-insert k id (resting o) m, find-insert k id o s, e)
    | inr e ↦ ground (arith, find-insert k id (resting o) m, find-insert k id o s, e, same id p)
  ]

  pub resting_of-erase :
      Distinct m
      → Distinct s
      → (k id : ℕ) → P id
      → find id (erase k m) ≡ resting_of (find id (erase k s))
  resting_of-erase d e k id p = elim (Bool-cases (k == id)) [
    | inl h ↦
        let here : k ≡ id = ground arith in
        ground (arith, find-erase_self k m d, find-erase_self k s e, here)
    | inr h ↦ ground (arith, find-erase_ne k id m h, find-erase_ne k id s h, same id p)
  ]

module _ (owner : ℕ → ℕ) (i idx : ℕ) where
  pub with-Agrees :
      (sh : Shard) (st : State) (id : ℕ) (g : OrderLocation → Shard) (f : RestingLoc → State)
      → owner id ≡ i
      → Agrees owner i idx sh st
      → ((o : OrderLocation) → Agrees owner i idx (g o) (f (resting o)))
      → Agrees owner i idx (with_location sh id g) (with_order st id f)
  with-Agrees sh st id g f own a step = elim (Option-cases (find id sh.orders)) [
    | inl h ↦
        let missing : find id st.orders ≡ none = a.found id own ∙ ap resting_of h in
        rw (with_location, with_order, h, missing) a
    | inr (o, h) ↦
        let there : find id st.orders ≡ some (resting o) = a.found id own ∙ ap resting_of h in
        rw (with_location, with_order, h, there) (step o)
  ]

  pub rest_location-Agrees :
      (sh : Shard) (st : State) (id : ℕ) (o : OrderLocation)
      → o.local_idx ≡ idx
      → Agrees owner i idx sh st
      → Agrees owner i idx (rest_location sh id o) (rest_order st id (resting o))
  unfolding rest_location rest_order
  rest_location-Agrees sh st id o at a = record {
    books =
        subst
          (λ k.
            put sh.books k (add (sh.books k) o.side o.price_ticks o.qty).0 idx
            ≡ (add st.book o.side o.price_ticks o.qty).0)
          (sym at)
          (put_same sh.books idx (add (sh.books idx) o.side o.price_ticks o.qty).0
            ∙ ap (λ b. (add b o.side o.price_ticks o.qty).0) a.books);
    found = resting_of-insert (λ j. owner j ≡ i) st.orders sh.orders a.found id o;
    distinct = insert-Distinct id (resting o) st.orders a.distinct;
    distinct_shard = insert-Distinct id o sh.orders a.distinct_shard;
  }

  pub delete_location-Agrees :
      (sh : Shard) (st : State) (id : ℕ) (o : OrderLocation)
      → Agrees owner i idx sh st
      → Agrees owner i idx (delete_location sh idx id o) (delete_found st id (resting o))
  unfolding delete_location delete_found
  delete_location-Agrees sh st id o a = record {
    books =
        put_same sh.books idx (reduce (sh.books idx) o.side o.price_ticks o.qty).0
        ∙ ap (λ b. (reduce b o.side o.price_ticks o.qty).0) a.books;
    found =
        resting_of-erase (λ j. owner j ≡ i) st.orders sh.orders a.found a.distinct a.distinct_shard
          id;
    distinct = erase-Distinct id st.orders a.distinct;
    distinct_shard = erase-Distinct id sh.orders a.distinct_shard;
  }

  pub reduce_location-Agrees :
      (sh : Shard) (st : State) (id n : ℕ) (o : OrderLocation)
      → Agrees owner i idx sh st
      → Agrees owner i idx (reduce_location sh idx id n o) (reduce_found st id n (resting o))
  unfolding reduce_location reduce_found
  reduce_location-Agrees sh st id n o a = elim (Bool-cases (o.qty - min n o.qty == 0)) [
    | inl h ↦ rw h (record {
      books = level;
      found =
          resting_of-erase (λ j. owner j ≡ i) st.orders sh.orders a.found a.distinct
            a.distinct_shard id;
      distinct = erase-Distinct id st.orders a.distinct;
      distinct_shard = erase-Distinct id sh.orders a.distinct_shard;
    })
    | inr h ↦ rw h (record {
      books = level;
      found = resting_of-insert (λ j. owner j ≡ i) st.orders sh.orders a.found id left;
      distinct = insert-Distinct id (resting left) st.orders a.distinct;
      distinct_shard = insert-Distinct id left sh.orders a.distinct_shard;
    })
  ]
    where
      left : OrderLocation
      left = record o { qty = o.qty - min n o.qty }

      level :
          put sh.books idx (reduce (sh.books idx) o.side o.price_ticks (min n o.qty)).0 idx
          ≡ (reduce st.book o.side o.price_ticks (min n o.qty)).0
      level =
          put_same sh.books idx (reduce (sh.books idx) o.side o.price_ticks (min n o.qty)).0
          ∙ ap (λ b. (reduce b o.side o.price_ticks (min n o.qty)).0) a.books

  -- A message of the instrument itself does in its shard what it does in a book of its own.
  pub apply_item-Agrees :
      (sh : Shard) (st : State) (m : WireMsg)
      → IsOwned owner i m
      → Agrees owner i idx sh st
      → Agrees owner i idx
          (apply_item sh (record { msg = m; local_idx = idx }))
          (apply_to_book m st)
  unfolding apply_item apply_to_book
  apply_item-Agrees sh st (WireMsg.add m) own a =
      rest_location-Agrees sh st m.order_id
        (record { local_idx = idx; side = m.side; price_ticks = m.price_ticks; qty = m.qty }) refl a
  apply_item-Agrees sh st (WireMsg.exec m) own a =
      with-Agrees sh st m.order_id (reduce_location sh idx m.order_id m.exec_qty)
        (reduce_found st m.order_id m.exec_qty) own a
        (λ o. reduce_location-Agrees sh st m.order_id m.exec_qty o a)
  apply_item-Agrees sh st (WireMsg.cancel m) own a =
      with-Agrees sh st m.order_id (reduce_location sh idx m.order_id m.cancel_qty)
        (reduce_found st m.order_id m.cancel_qty) own a
        (λ o. reduce_location-Agrees sh st m.order_id m.cancel_qty o a)
  apply_item-Agrees sh st (WireMsg.del m) own a =
      with-Agrees sh st m.order_id (delete_location sh idx m.order_id) (delete_found st m.order_id)
        own a (λ o. delete_location-Agrees sh st m.order_id o a)
  apply_item-Agrees sh st (WireMsg.replace m) own a =
      with-Agrees sh st m.old_order_id _ _ own.0 a (λ o.
        rest_location-Agrees (delete_location sh idx m.old_order_id o)
          (delete_found st m.old_order_id (resting o)) m.new_order_id
          (record { local_idx = idx; side = o.side; price_ticks = m.price_ticks; qty = m.qty }) refl
          (delete_location-Agrees sh st m.old_order_id o a))
