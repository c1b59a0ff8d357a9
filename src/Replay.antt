-- ===== src/Replay.antt =====
-- include/backtest_sim.hpp, `apply_to_book`: one message applied to one book and to the map from
-- order ids to resting orders. include/venue_feed.hpp repeats the function (see Venue).
pub mod Conservation
pub mod Touch
mod Tests
use exchange_market_data_dec.Prelude.{
  ℕ, ◌+◌, ◌-◌, min, ℤ, Option, none, some, List, [], ◌∷◌, ◌==◌, if◌then◌else◌, nat_eq, ◌≡◌, ◌<◌,
  Bool, true,
}
use exchange_market_data_dec.Protocol.{Side, WireMsg}
use exchange_market_data_dec.Map.{Map, find, insert, erase}
use exchange_market_data_dec.Book.{OrderBook, add, reduce, init, new_book}

-- `RestingLoc`
pub record RestingLoc : Type 0 where
  pub side : Side
  pub price_ticks : ℤ
  pub qty : ℕ

-- the book and the orders that `apply_to_book` is given
pub record State : Type 0 where
  pub book : OrderBook
  pub orders : Map ℕ RestingLoc

-- `orders[id] = ...; book.add(...)`
unfoldable pub rest_order : State → ℕ → RestingLoc → State
rest_order st id o = record {
  book = (add st.book o.side o.price_ticks o.qty).0;
  orders = insert id o st.orders;
}

-- the cases Execute and Cancel, at an order that was found: `rq = min(n, qty)`, reduce the level,
-- `qty -= rq`, and erase the order at 0. The subtraction cannot wrap.
unfoldable pub reduce_found : State → ℕ → ℕ → RestingLoc → State
reduce_found st id n o =
    let rq = min n o.qty in
    record {
      book = (reduce st.book o.side o.price_ticks rq).0;
      orders =
          if o.qty - rq == 0
          then erase id st.orders
          else insert id (record o { qty = o.qty - rq }) st.orders;
    }

-- the case Delete, at an order that was found
unfoldable pub delete_found : State → ℕ → RestingLoc → State
delete_found st id o = record {
  book = (reduce st.book o.side o.price_ticks o.qty).0;
  orders = erase id st.orders;
}

-- `auto it = orders.find(id); if (it == orders.end()) break;`
abbrev pub with_order : State → ℕ → (RestingLoc → State) → State
with_order st id f = elim (find id st.orders) [ none ↦ st | some o ↦ f o ]

unfoldable pub apply_to_book : WireMsg → State → State
unfolding rest_order reduce_found delete_found
apply_to_book (WireMsg.add a) st =
    rest_order st a.order_id (record { side = a.side; price_ticks = a.price_ticks; qty = a.qty })
apply_to_book (WireMsg.exec e) st = with_order st e.order_id (reduce_found st e.order_id e.exec_qty)
apply_to_book (WireMsg.cancel c) st =
    with_order st c.order_id (reduce_found st c.order_id c.cancel_qty)
apply_to_book (WireMsg.del d) st = with_order st d.order_id (delete_found st d.order_id)
apply_to_book (WireMsg.replace r) st = with_order st r.old_order_id λ o.
    rest_order (delete_found st r.old_order_id o) r.new_order_id
      (record { side = o.side; price_ticks = r.price_ticks; qty = r.qty })

-- the messages of a stream in order
unfoldable pub replay : List WireMsg → State → State
replay [] st = st
replay (m ∷ ms) st = replay ms (apply_to_book m st)

-- an empty book at a reference price, and no orders
unfoldable pub fresh : ℤ → State
fresh reference_price_ticks = record { book = init new_book reference_price_ticks; orders = [] }

-- What the feed promises of a message: a new order has some quantity and an id that no resting order
-- has (at a Replace, once the replaced order is gone).
abbrev pub IsConsistent : WireMsg → State → Type 0
IsConsistent (WireMsg.add a) st = (find a.order_id st.orders ≡ none) × (0 < a.qty)
IsConsistent (WireMsg.exec e) st = Unit
IsConsistent (WireMsg.cancel c) st = Unit
IsConsistent (WireMsg.del d) st = Unit
IsConsistent (WireMsg.replace r) st =
    (find r.new_order_id (erase r.old_order_id st.orders) ≡ none) × (0 < r.qty)

-- Every message of the stream keeps that promise when it arrives.
abbrev pub IsConsistentStream : List WireMsg → State → Type 0
IsConsistentStream [] st = Unit
IsConsistentStream (m ∷ ms) st = IsConsistent m st × IsConsistentStream ms (apply_to_book m st)
