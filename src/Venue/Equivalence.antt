-- ===== src/Venue/Equivalence.antt =====
-- `VenueFeed::apply` (include/venue_feed.hpp) against `apply_to_book` (include/backtest_sim.hpp).
use exchange_market_data_dec.Prelude.{
  ℕ, ◌-◌, min, ℤ, List, [], ◌∷◌, ◌==◌, nat_eq, ◌≡◌, refl, sym, ◌∙◌, ap, inl, inr, Bool-cases, subst,
}
use exchange_market_data_dec.Protocol.{WireMsg}
use exchange_market_data_dec.Map.Laws.{
  map_values, insert-map_values, erase-map_values, find-map_values,
}
use exchange_market_data_dec.Book.{add, reduce, OrderBook}
use exchange_market_data_dec.Replay.{
  RestingLoc, State, rest_order, reduce_found, delete_found, with_order, apply_to_book, replay,
  fresh, IsConsistentStream,
}
use exchange_market_data_dec.Replay.Conservation.{IsConserved, replay-IsConserved}
use exchange_market_data_dec.Venue.{
  Loc, VenueFeed, rest_loc, reduce_loc, delete_loc, with_loc, apply_message, step_all, new_venue,
}

abbrev pub to_resting : Loc → RestingLoc
to_resting o = record { side = o.side; price_ticks = o.price_ticks; qty = o.qty }

-- The venue's book and orders, as `apply_to_book` has them.
abbrev pub to_state : VenueFeed → State
to_state v = record { book = v.book; orders = map_values to_resting v.orders }

abbrev with_orders : OrderBook → List (ℕ × RestingLoc) → State
with_orders b m = record { book = b; orders = m }

rest_loc-to_state :
    (v : VenueFeed) (id : ℕ) (o : Loc)
    → to_state (rest_loc v id o) ≡ rest_order (to_state v) id (to_resting o)
unfolding rest_loc rest_order
rest_loc-to_state v id o =
    ap (with_orders (add v.book o.side o.price_ticks o.qty).0)
      (sym (insert-map_values to_resting id o v.orders))

delete_loc-to_state :
    (v : VenueFeed) (id : ℕ) (o : Loc)
    → to_state (delete_loc v id o) ≡ delete_found (to_state v) id (to_resting o)
unfolding delete_loc delete_found
delete_loc-to_state v id o =
    ap (with_orders (reduce v.book o.side o.price_ticks o.qty).0)
      (sym (erase-map_values to_resting id v.orders))

reduce_loc-to_state :
    (v : VenueFeed) (id n : ℕ) (o : Loc)
    → to_state (reduce_loc v id n o) ≡ reduce_found (to_state v) id n (to_resting o)
unfolding reduce_loc reduce_found
reduce_loc-to_state v id n o = elim (Bool-cases (o.qty - min n o.qty == 0)) [
  | inl h ↦ rw h (ap (with_orders book) (sym (erase-map_values to_resting id v.orders)))
  | inr h ↦ rw h (ap (with_orders book) (sym (insert-map_values to_resting id left v.orders)))
]
  where
    left : Loc
    left = record o { qty = o.qty - min n o.qty }

    book : OrderBook
    book = (reduce v.book o.side o.price_ticks (min n o.qty)).0

with_loc-to_state :
    (v : VenueFeed) (id : ℕ) (g : Loc → VenueFeed) (f : RestingLoc → State)
    → ((o : Loc) → to_state (g o) ≡ f (to_resting o))
    → to_state (with_loc v id g) ≡ with_order (to_state v) id f
with_loc-to_state v id g f same = elim (find-map_values to_resting id v.orders) [
  | inl (a, b) ↦ rw (with_loc, with_order, a, b) refl
  | inr (o, a, b) ↦ rw (with_loc, with_order, a, b) (same o)
]

-- Every message does to a venue's book and orders what `apply_to_book` does to them.
pub apply_message-to_state :
    (m : WireMsg) (v : VenueFeed) → to_state (apply_message m v) ≡ apply_to_book m (to_state v)
unfolding apply_message apply_to_book
apply_message-to_state (WireMsg.add m) v = rest_loc-to_state v m.order_id _
apply_message-to_state (WireMsg.exec m) v =
    with_loc-to_state v m.order_id _ _ (reduce_loc-to_state v m.order_id m.exec_qty)
apply_message-to_state (WireMsg.cancel m) v =
    with_loc-to_state v m.order_id _ _ (reduce_loc-to_state v m.order_id m.cancel_qty)
apply_message-to_state (WireMsg.del m) v =
    with_loc-to_state v m.order_id _ _ (delete_loc-to_state v m.order_id)
apply_message-to_state (WireMsg.replace m) v = with_loc-to_state v m.old_order_id _ _ λ o.
    rest_loc-to_state (delete_loc v m.old_order_id o) m.new_order_id _
    ∙ ap
        (λ s.
          rest_order s m.new_order_id
            (record { side = o.side; price_ticks = m.price_ticks; qty = m.qty }))
        (delete_loc-to_state v m.old_order_id o)

pub step_all-to_state :
    (ms : List WireMsg) (v : VenueFeed) → to_state (step_all ms v) ≡ replay ms (to_state v)
unfolding step_all replay
step_all-to_state [] v = refl
step_all-to_state (m ∷ ms) v =
    step_all-to_state ms (apply_message m v) ∙ ap (replay ms) (apply_message-to_state m v)

-- After any consistent stream of steps of a new venue, each level of its book holds exactly the sum of
-- the orders resting there, and the best bid and offer are right.
pub step_all-IsConserved :
    (venue_id : ℕ) (price : ℤ) (ms : List WireMsg)
    → IsConsistentStream ms (fresh price)
    → IsConserved (to_state (step_all ms (new_venue venue_id price)))
unfolding fresh map_values
step_all-IsConserved venue_id price ms h =
    subst IsConserved (sym (step_all-to_state ms (new_venue venue_id price)))
      (replay-IsConserved price ms h)
