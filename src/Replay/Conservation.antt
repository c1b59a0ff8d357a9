-- ===== src/Replay/Conservation.antt =====
-- `apply_to_book` (include/backtest_sim.hpp): the levels of the book against the orders that rest in
-- it.
use exchange_market_data_dec.Prelude.{
  ℕ, ◌+◌, ◌-◌, ◌≤◌, ◌<◌, min, ℤ, none, some, List, [], ◌∷◌, ◌==◌, if◌then◌else◌, nat_eq, ◌≡◌, ◌&&◌,
  arith, Bool-cases, Option-cases, inl, inr,
}
use exchange_market_data_dec.Protocol.{Side, WireMsg, same_side}
use exchange_market_data_dec.Map.{Map, find, insert, erase, total}
use exchange_market_data_dec.Map.Laws.{
  total-ext, total-insert_fresh, total-insert_live, total-erase, AllValues, insert-AllValues,
  erase-AllValues,
}
use exchange_market_data_dec.Book.{OrderBook, add, reduce, init, new_book, slot, side_levels}
use exchange_market_data_dec.Book.Levels.{
  when, is_at, levels-add, levels-reduce, slot-add, slot-reduce,
}
use exchange_market_data_dec.Book.Invariant.{IsValid, init-IsValid, add-IsValid, reduce-IsValid}
use exchange_market_data_dec.Replay.{
  RestingLoc, State, rest_order, reduce_found, delete_found, with_order, apply_to_book, replay,
  fresh, IsConsistent, IsConsistentStream,
}

-- What an order adds to level `j` of side `s`: its quantity, if it rests there.
abbrev pub share : OrderBook → Side → ℕ → RestingLoc → ℕ
share b s j o = when (same_side o.side s && is_at (slot b o.price_ticks) j) o.qty

abbrev pub IsPositive : RestingLoc → Type 0
IsPositive o = 0 < o.qty

pub record IsConserved (st : State) : Type 0 where
  pub valid : IsValid st.book
  pub positive : AllValues IsPositive st.orders
  pub levels : (s : Side) (j : ℕ) → side_levels st.book s j ≡ total (share st.book s j) st.orders

share-add :
    (b : OrderBook) (s : Side) (p : ℤ) (n : ℕ) (s' : Side) (j : ℕ) (m : Map ℕ RestingLoc)
    → total (share (add b s p n).0 s' j) m ≡ total (share b s' j) m
share-add b s p n s' j m =
    total-ext (share (add b s p n).0 s' j) (share b s' j) m
      (λ o. rw (slot-add b s p n o.price_ticks))

share-reduce :
    (b : OrderBook) (s : Side) (p : ℤ) (n : ℕ) (s' : Side) (j : ℕ) (m : Map ℕ RestingLoc)
    → total (share (reduce b s p n).0 s' j) m ≡ total (share b s' j) m
share-reduce b s p n s' j m =
    total-ext (share (reduce b s p n).0 s' j) (share b s' j) m
      (λ o. rw (slot-reduce b s p n o.price_ticks))

rest_order-IsConserved :
    (st : State) (id : ℕ) (o : RestingLoc)
    → find id st.orders ≡ none
    → 0 < o.qty
    → IsConserved st
    → IsConserved (rest_order st id o)
unfolding rest_order
rest_order-IsConserved st id o free h c = record {
  valid = add-IsValid st.book o.side o.price_ticks o.qty h c.valid;
  positive = insert-AllValues IsPositive id o st.orders h c.positive;
  levels = λ s j. omega (
    arith,
    levels-add st.book o.side o.price_ticks o.qty s j,
    share-add st.book o.side o.price_ticks o.qty s j (insert id o st.orders),
    total-insert_fresh (share st.book s j) id o st.orders free,
    c.levels s j,
  );
}

delete_found-IsConserved :
    (st : State) (id : ℕ) (o : RestingLoc)
    → find id st.orders ≡ some o
    → IsConserved st
    → IsConserved (delete_found st id o)
unfolding delete_found
delete_found-IsConserved st id o live c = record {
  valid = reduce-IsValid st.book o.side o.price_ticks o.qty c.valid;
  positive = erase-AllValues IsPositive id st.orders c.positive;
  levels = λ s j. omega (
    arith,
    levels-reduce st.book o.side o.price_ticks o.qty s j,
    share-reduce st.book o.side o.price_ticks o.qty s j (erase id st.orders),
    total-erase (share st.book s j) id o st.orders live,
    c.levels s j,
  );
}

-- the orders after a reduction by `rq`
left_orders : State → ℕ → ℕ → RestingLoc → Map ℕ RestingLoc
left_orders st id rq o =
    if o.qty - rq == 0
    then erase id st.orders
    else insert id (record o { qty = o.qty - rq }) st.orders

left_orders-IsPositive :
    (st : State) (id rq : ℕ) (o : RestingLoc)
    → AllValues IsPositive st.orders
    → AllValues IsPositive (left_orders st id rq o)
unfolding left_orders
left_orders-IsPositive st id rq o a = elim (Bool-cases (o.qty - rq == 0)) [
  | inl p ↦ rw p (erase-AllValues IsPositive id st.orders a)
  | inr p ↦
      rw p
        (insert-AllValues IsPositive id (record o { qty = o.qty - rq }) st.orders (ground arith) a)
]

left_orders-total :
    (st : State) (id rq : ℕ) (o : RestingLoc) (s : Side) (j : ℕ)
    → find id st.orders ≡ some o
    → rq ≤ o.qty
    → total (share st.book s j) (left_orders st id rq o)
        + when (same_side o.side s && is_at (slot st.book o.price_ticks) j) rq
      ≡ total (share st.book s j) st.orders
unfolding left_orders
left_orders-total st id rq o s j live h = ground (
  arith,
  total-erase (share st.book s j) id o st.orders live,
  total-insert_live (share st.book s j) id (record o { qty = o.qty - rq }) o st.orders live,
)

reduce_found-IsConserved :
    (st : State) (id n : ℕ) (o : RestingLoc)
    → find id st.orders ≡ some o
    → IsConserved st
    → IsConserved (reduce_found st id n o)
unfolding reduce_found left_orders
reduce_found-IsConserved st id n o live c = record {
  valid = reduce-IsValid st.book o.side o.price_ticks (min n o.qty) c.valid;
  positive = left_orders-IsPositive st id (min n o.qty) o c.positive;
  levels = λ s j. omega (
    arith,
    levels-reduce st.book o.side o.price_ticks (min n o.qty) s j,
    share-reduce st.book o.side o.price_ticks (min n o.qty) s j (left_orders st id (min n o.qty) o),
    left_orders-total st id (min n o.qty) o s j live (omega arith),
    c.levels s j,
  );
}

with_order-IsConserved :
    (st : State) (id : ℕ) (f : RestingLoc → State)
    → IsConserved st
    → ((o : RestingLoc) → find id st.orders ≡ some o → IsConserved (f o))
    → IsConserved (with_order st id f)
with_order-IsConserved st id f c g = elim (Option-cases (find id st.orders)) [
  | inl e ↦ rw (e, with_order) c
  | inr (o, e) ↦ rw (e, with_order) (g o e)
]

-- Every message of a consistent feed keeps each level of the book equal to the sum of the orders
-- resting there, the best indices right, and every resting order's quantity positive.
pub apply_to_book-IsConserved :
    (m : WireMsg) (st : State)
    → IsConsistent m st
    → IsConserved st
    → IsConserved (apply_to_book m st)
unfolding apply_to_book
apply_to_book-IsConserved (WireMsg.add a) st k c = rest_order-IsConserved st a.order_id _ k.0 k.1 c
apply_to_book-IsConserved (WireMsg.exec e) st k c =
    with_order-IsConserved st e.order_id _ c
      (λ o live. reduce_found-IsConserved st e.order_id e.exec_qty o live c)
apply_to_book-IsConserved (WireMsg.cancel x) st k c =
    with_order-IsConserved st x.order_id _ c
      (λ o live. reduce_found-IsConserved st x.order_id x.cancel_qty o live c)
apply_to_book-IsConserved (WireMsg.del d) st k c =
    with_order-IsConserved st d.order_id _ c
      (λ o live. delete_found-IsConserved st d.order_id o live c)
apply_to_book-IsConserved (WireMsg.replace r) st k c =
    with_order-IsConserved st r.old_order_id _ c (λ o live.
      rest_order-IsConserved (delete_found st r.old_order_id o) r.new_order_id _ k.0 k.1
        (delete_found-IsConserved st r.old_order_id o live c))

fresh-IsConserved : (p : ℤ) → IsConserved (fresh p)
unfolding fresh init total
fresh-IsConserved p = record {
  valid = init-IsValid new_book p;
  positive = tt;
  levels = λ s j. ground arith;
}

replay-keeps :
    (ms : List WireMsg) (st : State)
    → IsConsistentStream ms st
    → IsConserved st
    → IsConserved (replay ms st)
unfolding replay
replay-keeps [] st k c = c
replay-keeps (m ∷ ms) st k c =
    replay-keeps ms (apply_to_book m st) k.1 (apply_to_book-IsConserved m st k.0 c)

-- So it is after any consistent stream replayed into a fresh book.
pub replay-IsConserved :
    (p : ℤ) (ms : List WireMsg)
    → IsConsistentStream ms (fresh p)
    → IsConserved (replay ms (fresh p))
replay-IsConserved p ms k = replay-keeps ms (fresh p) k (fresh-IsConserved p)
