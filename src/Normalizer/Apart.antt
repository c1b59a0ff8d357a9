-- ===== src/Normalizer/Apart.antt =====
-- `Normalizer::apply` (include/normalizer.hpp), for the other instruments of a shard.
use exchange_market_data_dec.Prelude.{
  ℕ, ◌-◌, min, ◌==◌, nat_eq, ◌≡◌, ◌≢◌, refl, sym, ◌∙◌, ap, arith, inl, inr, Bool-cases,
  Option-cases, false, put, put_other,
}
use exchange_market_data_dec.Protocol.{WireMsg}
use exchange_market_data_dec.Map.{find, insert, erase, Map}
use exchange_market_data_dec.Map.Laws.{find-insert, find-erase_ne, insert-Distinct, erase-Distinct}
use exchange_market_data_dec.Book.{add, reduce, OrderBook}
use exchange_market_data_dec.Replay.{State}
use exchange_market_data_dec.Normalizer.{
  OrderLocation, Shard, rest_location, reduce_location, delete_location, with_location, apply_item,
}
use exchange_market_data_dec.Normalizer.Apply.{Agrees, IsOwned, resting_of}

-- A message of another instrument leaves what the shard has for this one.
module _ (owner : ℕ → ℕ) (i idx j other : ℕ) (apart : j ≢ i) (apart_idx : other ≢ idx)
    (st : State) where
  differ : (id k : ℕ) → owner id ≡ j → owner k ≡ i → (id == k) ≡ false
  differ id k own mine = elim (Bool-cases (id == k)) [
    | inl h ↦ let same : id ≡ k = ground arith in absurd (apart (sym own ∙ ap owner same ∙ mine))
    | inr h ↦ h
  ]

  find-insert_apart :
      (id : ℕ) (o : OrderLocation) (m : Map ℕ OrderLocation) (k : ℕ)
      → owner id ≡ j
      → owner k ≡ i
      → find k m ≡ find k (insert id o m)
  find-insert_apart id o m k own mine = sym (find-insert id k o m ∙ rw (differ id k own mine) refl)

  find-erase_apart :
      (id : ℕ) (m : Map ℕ OrderLocation) (k : ℕ)
      → owner id ≡ j
      → owner k ≡ i
      → find k m ≡ find k (erase id m)
  find-erase_apart id m k own mine = sym (find-erase_ne id k m (differ id k own mine))

  rest_location-Agrees_apart :
      (sh : Shard) (id : ℕ) (o : OrderLocation)
      → o.local_idx ≡ other
      → owner id ≡ j
      → Agrees owner i idx sh st
      → Agrees owner i idx (rest_location sh id o) st
  unfolding rest_location
  rest_location-Agrees_apart sh id o at own a = record {
    books =
        put_other sh.books o.local_idx (add (sh.books o.local_idx) o.side o.price_ticks o.qty).0 idx
          (λ e. apart_idx (sym at ∙ e))
        ∙ a.books;
    found = λ k mine. a.found k mine ∙ ap resting_of (find-insert_apart id o sh.orders k own mine);
    distinct = a.distinct;
    distinct_shard = insert-Distinct id o sh.orders a.distinct_shard;
  }

  delete_location-Agrees_apart :
      (sh : Shard) (id : ℕ) (o : OrderLocation)
      → owner id ≡ j
      → Agrees owner i idx sh st
      → Agrees owner i idx (delete_location sh other id o) st
  unfolding delete_location
  delete_location-Agrees_apart sh id o own a = record {
    books =
        put_other sh.books other (reduce (sh.books other) o.side o.price_ticks o.qty).0 idx
          apart_idx
        ∙ a.books;
    found = λ k mine. a.found k mine ∙ ap resting_of (find-erase_apart id sh.orders k own mine);
    distinct = a.distinct;
    distinct_shard = erase-Distinct id sh.orders a.distinct_shard;
  }

  reduce_location-Agrees_apart :
      (sh : Shard) (id n : ℕ) (o : OrderLocation)
      → owner id ≡ j
      → Agrees owner i idx sh st
      → Agrees owner i idx (reduce_location sh other id n o) st
  unfolding reduce_location
  reduce_location-Agrees_apart sh id n o own a = elim (Bool-cases (o.qty - min n o.qty == 0)) [
    | inl h ↦ rw h (record {
      books = level;
      found = λ k mine. a.found k mine ∙ ap resting_of (find-erase_apart id sh.orders k own mine);
      distinct = a.distinct;
      distinct_shard = erase-Distinct id sh.orders a.distinct_shard;
    })
    | inr h ↦ rw h (record {
      books = level;
      found =
          λ k mine. a.found k mine ∙ ap resting_of (find-insert_apart id left sh.orders k own mine);
      distinct = a.distinct;
      distinct_shard = insert-Distinct id left sh.orders a.distinct_shard;
    })
  ]
    where
      left : OrderLocation
      left = record o { qty = o.qty - min n o.qty }

      changed : OrderBook
      changed = (reduce (sh.books other) o.side o.price_ticks (min n o.qty)).0

      level : put sh.books other changed idx ≡ st.book
      level = put_other sh.books other changed idx apart_idx ∙ a.books

  with-Agrees_apart :
      (sh : Shard) (id : ℕ) (g : OrderLocation → Shard)
      → Agrees owner i idx sh st
      → ((o : OrderLocation) → Agrees owner i idx (g o) st)
      → Agrees owner i idx (with_location sh id g) st
  with-Agrees_apart sh id g a step = elim (Option-cases (find id sh.orders)) [
    | inl h ↦ rw (with_location, h) a
    | inr (o, h) ↦ rw (with_location, h) (step o)
  ]

  pub apply_item-Agrees_apart :
      (sh : Shard) (m : WireMsg)
      → IsOwned owner j m
      → Agrees owner i idx sh st
      → Agrees owner i idx (apply_item sh (record { msg = m; local_idx = other })) st
  unfolding apply_item
  apply_item-Agrees_apart sh (WireMsg.add m) own a =
      rest_location-Agrees_apart sh m.order_id
        (record { local_idx = other; side = m.side; price_ticks = m.price_ticks; qty = m.qty }) refl
        own a
  apply_item-Agrees_apart sh (WireMsg.exec m) own a =
      with-Agrees_apart sh m.order_id (reduce_location sh other m.order_id m.exec_qty) a
        (λ o. reduce_location-Agrees_apart sh m.order_id m.exec_qty o own a)
  apply_item-Agrees_apart sh (WireMsg.cancel m) own a =
      with-Agrees_apart sh m.order_id (reduce_location sh other m.order_id m.cancel_qty) a
        (λ o. reduce_location-Agrees_apart sh m.order_id m.cancel_qty o own a)
  apply_item-Agrees_apart sh (WireMsg.del m) own a =
      with-Agrees_apart sh m.order_id (delete_location sh other m.order_id) a
        (λ o. delete_location-Agrees_apart sh m.order_id o own a)
  apply_item-Agrees_apart sh (WireMsg.replace m) own a =
      with-Agrees_apart sh m.old_order_id _ a (λ o.
        rest_location-Agrees_apart (delete_location sh other m.old_order_id o) m.new_order_id
          (record { local_idx = other; side = o.side; price_ticks = m.price_ticks; qty = m.qty })
          refl own.1 (delete_location-Agrees_apart sh m.old_order_id o own.0 a))
