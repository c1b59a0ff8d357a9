-- ===== src/Simulator/Consistency.antt =====
-- The messages of include/market_simulator.hpp, applied to the book of their instrument.
use exchange_market_data_dec.Prelude.{
  ℕ, ◌+◌, ◌-◌, ◌≤◌, ◌≡◌, refl, sym, arith, ◌==◌, min, Bool-cases, subst, inl, inr, some, none, List,
  [], ◌∷◌, ◌++◌, get_elem?, nat_eq,
}
use exchange_market_data_dec.Map.{find, insert, erase}
use exchange_market_data_dec.Protocol.{WireMsg}
use exchange_market_data_dec.Replay.{
  State, RestingLoc, apply_to_book, rest_order, reduce_found, delete_found, with_order,
  IsConsistent,
}
use exchange_market_data_dec.Simulator.{LiveOrder, swap_remove, settle}
use exchange_market_data_dec.Simulator.Flow.{Change}
use exchange_market_data_dec.Simulator.Mirror.{
  Mirrors, resting, fresh_id, add-Mirrors, remove-Mirrors, reduce-Mirrors,
}

with_order_found :
    (st : State) (id : ℕ) (o : RestingLoc) (f : RestingLoc → State)
    → find id st.orders ≡ some o
    → with_order st id f ≡ f o
with_order_found st id o f h = rw (with_order, h) refl

module _ (book : List LiveOrder) (next : ℕ) (st : State) (v : Mirrors book next st.orders) where
  -- an order found, and reduced by no more than it has
  reduce_found-Mirrors :
      (j n : ℕ) (lo : LiveOrder)
      → get_elem? book j ≡ some lo
      → n ≤ lo.qty
      → Mirrors
          (settle j lo (lo.qty - n) book)
          next
          (with_order st lo.order_id (reduce_found st lo.order_id n)).orders
  unfolding reduce_found settle
  reduce_found-Mirrors j n lo there le =
      let here : find lo.order_id st.orders ≡ some (resting lo) = (v.live j lo there).0 in
      let whole : min n lo.qty ≡ n = omega arith in
      elim (Bool-cases (lo.qty - n == 0)) [
        | inl e ↦ rw (with_order, here, whole, e) (remove-Mirrors book next st.orders v j lo there)
        | inr e ↦
            rw (with_order, here, whole, e)
              (reduce-Mirrors book next st.orders v j lo there (lo.qty - n) (ground arith))
      ]

  -- A message keeps the feed's promise, and the live orders go with the resting ones.
  pub Change-Mirrors :
      {instr next' : ℕ} {m : WireMsg} {book' : List LiveOrder}
      → Change instr book next m book' next'
      → IsConsistent m st × Mirrors book' next' (apply_to_book m st).orders
  unfolding apply_to_book rest_order delete_found settle
  Change-Mirrors (Change.added o at pos) = (
    (fresh_id book next st.orders v o.order_id (omega arith), pos),
    add-Mirrors book next st.orders v o at pos,
  )
  Change-Mirrors (Change.executed j n lo there pos le) = (tt, reduce_found-Mirrors j n lo there le)
  Change-Mirrors (Change.canceled j n lo there pos le) = (tt, reduce_found-Mirrors j n lo there le)
  Change-Mirrors (Change.deleted j lo there) = (
    tt,
    subst (λ s. Mirrors (swap_remove j book) next s.orders)
        (sym (
          with_order_found st lo.order_id (resting lo) (delete_found st lo.order_id)
            (v.live j lo there).0))
        (remove-Mirrors book next st.orders v j lo there),
  )
  Change-Mirrors (Change.replaced j lo o there at same_side pos) =
      let removed : Mirrors (swap_remove j book) next (erase lo.order_id st.orders) =
        remove-Mirrors book next st.orders v j lo there in
      let free : find o.order_id (erase lo.order_id st.orders) ≡ none =
        fresh_id (swap_remove j book) next (erase lo.order_id st.orders) removed o.order_id
          (omega arith) in
      (
        (free, pos),
        subst (λ s. Mirrors (swap_remove j book ++ o ∷ []) (next + 1) s.orders)
            (sym (with_order_found st lo.order_id (resting lo) _ (v.live j lo there).0))
            (subst
              (λ side. Mirrors (swap_remove j book ++ o ∷ []) (next + 1) (
                insert o.order_id (record { side = side; price_ticks = o.price_ticks; qty = o.qty })
                  (erase lo.order_id st.orders)))
              same_side
              (add-Mirrors (swap_remove j book) next (erase lo.order_id st.orders) removed o at
                pos)),
      )
