-- ===== src/Normalizer.antt =====
-- include/normalizer.hpp: the books of all instruments, spread over shards that each have a queue and a
-- worker thread. A vector is a function from its indices, with its size where the code reads it. The
-- dispatcher and the workers share nothing but the queues, so their work is a sequence of calls: a
-- `dispatch`, or one round of a `worker_loop`. Clock readings and latencies are left out.
pub mod Apply
pub mod Apart
pub mod Assign
pub mod Serving
pub mod Sharding
pub mod Books
mod Tests
use exchange_market_data_dec.Prelude.{
  ℕ, zero, suc, ◌+◌, ◌-◌, ◌*◌, ◌%◌, ◌^◌, min, ℤ, Option, none, some, List, [], ◌∷◌, ◌++◌, ◌==◌,
  if◌then◌else◌, nat_eq, Bool, true, false, ltb, length, put,
}
use exchange_market_data_dec.Protocol.{Side, WireMsg}
use exchange_market_data_dec.Map.{Map, find, insert, erase}
use exchange_market_data_dec.Book.{OrderBook, add, reduce, init, new_book}

pub record OrderLocation : Type 0 where
  pub local_idx : ℕ
  pub side : Side
  pub price_ticks : ℤ
  pub qty : ℕ

pub record QueueItem : Type 0 where
  pub msg : WireMsg
  pub local_idx : ℕ

pub record Shard : Type 0 where
  pub books : ℕ → OrderBook
  pub book_count : ℕ
  pub orders : Map ℕ OrderLocation
  pub queue : List QueueItem
  pub processed : ℕ
  pub dropped_full : ℕ

pub record Normalizer : Type 0 where
  pub shards : ℕ → Shard
  pub instrument_to_shard : ℕ → ℕ
  pub instrument_to_local : ℕ → ℕ

-- `kQueueCapacity`; a ring of that capacity holds one item less
abbrev pub k_queue_capacity : ℕ
k_queue_capacity = 2 ^ 20

-- `NUM_INSTRUMENTS`
abbrev pub num_instruments : ℕ
num_instruments = 512

abbrev pub no_shard : Shard
no_shard = record {
  books = λ i. new_book;
  book_count = 0;
  orders = [];
  queue = [];
  processed = 0;
  dropped_full = 0;
}

-- one round of the constructor's loop
unfoldable pub assign : ℕ → ℕ → Normalizer → Normalizer
assign num_shards i n =
    let shard = i % num_shards in
    let s = n.shards shard in
    record {
      shards =
          put n.shards shard
            (record s { books = put s.books s.book_count new_book; book_count = s.book_count + 1 });
      instrument_to_shard = put n.instrument_to_shard i (shard % 2 ^ 16);
      instrument_to_local = put n.instrument_to_local i (s.book_count % 2 ^ 16);
    }

-- the first `count` rounds
unfoldable pub assign_all : ℕ → ℕ → Normalizer
unfolding assign
assign_all num_shards zero = record {
  shards = λ i. no_shard;
  instrument_to_shard = λ i. 0;
  instrument_to_local = λ i. 0;
}
assign_all num_shards (suc count) = assign num_shards count (assign_all num_shards count)

-- the constructor
abbrev pub new_normalizer : ℕ → Normalizer
new_normalizer num_shards = assign_all num_shards num_instruments

abbrev pub instrument_of : WireMsg → ℕ
instrument_of (WireMsg.add a) = a.instrument_id
instrument_of (WireMsg.exec e) = e.instrument_id
instrument_of (WireMsg.cancel c) = c.instrument_id
instrument_of (WireMsg.del d) = d.instrument_id
instrument_of (WireMsg.replace r) = r.instrument_id

-- `init_reference_price`
unfoldable pub init_reference_price : Normalizer → ℕ → ℤ → Normalizer
init_reference_price n instrument_id reference_price_ticks =
    let shard = n.instrument_to_shard instrument_id in
    let idx = n.instrument_to_local instrument_id in
    let s = n.shards shard in
    record n {
      shards =
          put n.shards shard
            (record s { books = put s.books idx (init (s.books idx) reference_price_ticks) });
    }

-- `init_reference_price` for the first `count` instruments, as the programs do it for all before they start
unfoldable pub init_all : (ℕ → ℤ) → ℕ → Normalizer → Normalizer
init_all price zero n = n
init_all price (suc count) n = init_reference_price (init_all price count n) count (price count)

-- `book_for_instrument`
unfoldable pub book_for_instrument : Normalizer → ℕ → OrderBook
book_for_instrument n instr =
    let s = n.shards (n.instrument_to_shard instr) in s.books (n.instrument_to_local instr)

-- `dispatch`: the message is queued, or dropped and counted where the queue is full. The two vectors have
-- `NUM_INSTRUMENTS` elements: for an instrument of 512 or more, which the source reads out of bounds, this
-- says nothing of the code, and every theorem about books asks for messages of known instruments.
unfoldable pub dispatch : Normalizer → WireMsg → Normalizer × Bool
dispatch n msg =
    let instr = instrument_of msg in
    let shard = n.instrument_to_shard instr in
    let s = n.shards shard in
    let item : QueueItem = record { msg = msg; local_idx = n.instrument_to_local instr } in
    if ltb (length s.queue + 1) k_queue_capacity
    then (
      record n { shards = put n.shards shard (record s { queue = s.queue ++ item ∷ [] }) },
      true,
    )
    else (
      record n { shards = put n.shards shard (record s { dropped_full = s.dropped_full + 1 }) },
      false,
    )

-- `shard.orders[id] = ...; shard.books[local_idx].add(...)`
unfoldable pub rest_location : Shard → ℕ → OrderLocation → Shard
rest_location sh id o = record sh {
  books = put sh.books o.local_idx (add (sh.books o.local_idx) o.side o.price_ticks o.qty).0;
  orders = insert id o sh.orders;
}

-- the cases Execute and Cancel, at an order that was found
unfoldable pub reduce_location : Shard → ℕ → ℕ → ℕ → OrderLocation → Shard
reduce_location sh local_idx id n o =
    let reduce_qty = min n o.qty in
    record sh {
      books =
          put sh.books local_idx (reduce (sh.books local_idx) o.side o.price_ticks reduce_qty).0;
      orders =
          if o.qty - reduce_qty == 0
          then erase id sh.orders
          else insert id (record o { qty = o.qty - reduce_qty }) sh.orders;
    }

-- the case Delete, at an order that was found
unfoldable pub delete_location : Shard → ℕ → ℕ → OrderLocation → Shard
delete_location sh local_idx id o = record sh {
  books = put sh.books local_idx (reduce (sh.books local_idx) o.side o.price_ticks o.qty).0;
  orders = erase id sh.orders;
}

-- `auto it = shard.orders.find(id); if (it == shard.orders.end()) break;`
abbrev pub with_location : Shard → ℕ → (OrderLocation → Shard) → Shard
with_location sh id f = elim (find id sh.orders) [ none ↦ sh | some o ↦ f o ]

-- `Normalizer::apply`
unfoldable pub apply_item : Shard → QueueItem → Shard
apply_item sh item = elim item.msg [
  | WireMsg.add a ↦ rest_location sh a.order_id (record {
    local_idx = item.local_idx;
    side = a.side;
    price_ticks = a.price_ticks;
    qty = a.qty;
  })
  | WireMsg.exec e ↦
      with_location sh e.order_id (reduce_location sh item.local_idx e.order_id e.exec_qty)
  | WireMsg.cancel c ↦
      with_location sh c.order_id (reduce_location sh item.local_idx c.order_id c.cancel_qty)
  | WireMsg.del d ↦ with_location sh d.order_id (delete_location sh item.local_idx d.order_id)
  | WireMsg.replace r ↦ with_location sh r.old_order_id λ o.
      rest_location (delete_location sh item.local_idx r.old_order_id o) r.new_order_id (record {
        local_idx = item.local_idx;
        side = o.side;
        price_ticks = r.price_ticks;
        qty = r.qty;
      })
]

-- a round of `worker_loop` that finds an item, or finds none and yields
abbrev pub work_shard : Shard → List QueueItem → Shard
work_shard sh [] = sh
work_shard sh (item ∷ items) =
    let after = apply_item (record sh { queue = items }) item in
    record after { processed = after.processed + 1 }

unfoldable pub work : Normalizer → ℕ → Normalizer
work n shard =
    let s = n.shards shard in record n { shards = put n.shards shard (work_shard s s.queue) }

-- What happens to the normalizer, in order: the dispatcher's call for a message, or a round of the
-- worker of a shard.
pub data Event : Type 0 where
  dispatched : WireMsg → Event
  worked : ℕ → Event

-- The state after the events, and the messages that `dispatch` returned true for.
unfoldable pub run : List Event → Normalizer → Normalizer × List WireMsg
run [] n = (n, [])
run (Event.dispatched m ∷ es) n =
    let now = dispatch n m in
    let later = run es now.0 in (later.0, if now.1 then m ∷ later.1 else later.1)
run (Event.worked s ∷ es) n = run es (work n s)
