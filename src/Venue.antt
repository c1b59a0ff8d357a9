-- ===== src/Venue.antt =====
-- include/venue_feed.hpp: one venue, its book and its resting orders. `VenueFeed::apply` is written apart
-- from `apply_to_book` of include/backtest_sim.hpp, and modelled apart. The simulator that `step` draws
-- a message from is not part of the state: `step` takes the message.
pub mod Equivalence
pub mod Driven
mod Tests
use exchange_market_data_dec.Prelude.{
  ℕ, ◌-◌, min, ℤ, none, some, List, [], ◌∷◌, ◌==◌, if◌then◌else◌, nat_eq,
}
use exchange_market_data_dec.Protocol.{Side, WireMsg}
use exchange_market_data_dec.Map.{Map, find, insert, erase}
use exchange_market_data_dec.Book.{OrderBook, add, reduce, init, new_book}

-- `VenueFeed::Loc`
pub record Loc : Type 0 where
  pub side : Side
  pub price_ticks : ℤ
  pub qty : ℕ

pub record VenueFeed : Type 0 where
  pub venue_id : ℕ
  pub book : OrderBook
  pub orders : Map ℕ Loc

-- the constructor
abbrev pub new_venue : ℕ → ℤ → VenueFeed
new_venue venue_id reference_price_ticks = record {
  venue_id = venue_id;
  book = init new_book reference_price_ticks;
  orders = [];
}

-- `orders[id] = ...; book.add(...)`
unfoldable pub rest_loc : VenueFeed → ℕ → Loc → VenueFeed
rest_loc v id o = record v {
  book = (add v.book o.side o.price_ticks o.qty).0;
  orders = insert id o v.orders;
}

-- the cases Execute and Cancel, at an order that was found: `rq = min(n, qty)`, reduce the level,
-- `qty -= rq`, and erase the order at 0. The subtraction cannot wrap.
unfoldable pub reduce_loc : VenueFeed → ℕ → ℕ → Loc → VenueFeed
reduce_loc v id n o =
    let rq = min n o.qty in
    record v {
      book = (reduce v.book o.side o.price_ticks rq).0;
      orders =
          if o.qty - rq == 0
          then erase id v.orders
          else insert id (record o { qty = o.qty - rq }) v.orders;
    }

-- the case Delete, at an order that was found
unfoldable pub delete_loc : VenueFeed → ℕ → Loc → VenueFeed
delete_loc v id o = record v {
  book = (reduce v.book o.side o.price_ticks o.qty).0;
  orders = erase id v.orders;
}

-- `auto it = orders.find(id); if (it == orders.end()) break;`
abbrev pub with_loc : VenueFeed → ℕ → (Loc → VenueFeed) → VenueFeed
with_loc v id f = elim (find id v.orders) [ none ↦ v | some o ↦ f o ]

unfoldable pub apply_message : WireMsg → VenueFeed → VenueFeed
unfolding rest_loc reduce_loc delete_loc
apply_message (WireMsg.add a) v =
    rest_loc v a.order_id (record { side = a.side; price_ticks = a.price_ticks; qty = a.qty })
apply_message (WireMsg.exec e) v = with_loc v e.order_id (reduce_loc v e.order_id e.exec_qty)
apply_message (WireMsg.cancel c) v = with_loc v c.order_id (reduce_loc v c.order_id c.cancel_qty)
apply_message (WireMsg.del d) v = with_loc v d.order_id (delete_loc v d.order_id)
apply_message (WireMsg.replace r) v = with_loc v r.old_order_id λ o.
    rest_loc (delete_loc v r.old_order_id o) r.new_order_id
      (record { side = o.side; price_ticks = r.price_ticks; qty = r.qty })

-- `step`, at the message that the simulator gives
abbrev pub step : WireMsg → VenueFeed → WireMsg × VenueFeed
step m v = (m, apply_message m v)

-- the states that a row of steps runs through, up to the last
unfoldable pub step_all : List WireMsg → VenueFeed → VenueFeed
step_all [] v = v
step_all (m ∷ ms) v = step_all ms (step m v).1
