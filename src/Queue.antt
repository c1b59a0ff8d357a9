-- ===== src/Queue.antt =====
-- include/queue_book.hpp, QueuePositionBook: the resting orders of each price level in order of
-- arrival. A `std::list` iterator names a node for the node's life, as does the arrival number `seq`
-- that the node was given; so an iterator is the level and the `seq` of its node, and a dereference
-- looks the node up. `none` as a result stands for a dereference of a node that is gone.
pub mod Entries
pub mod Effects
pub mod Linked
pub mod Steps
pub mod Tracker
pub mod Ahead
pub mod Fills
mod Tests
use exchange_market_data_dec.Prelude.{
  ℕ, ◌+◌, ◌-◌, ◌%◌, ◌^◌, min, ℤ, ◌==ℤ◌, ==ℤ_iff, Bool, true, false, ◌&&◌, ◌≡◌, ◌↔◌, refl, Option,
  none, some, List, [], ◌∷◌, ◌++◌, ltb, ◌==◌, if◌then◌else◌, Eq, nat_eq, length, arith,
}
use exchange_market_data_dec.Protocol.{Side, same_side, WireMsg}
use exchange_market_data_dec.Map.{Map, find, insert, erase}

-- `struct LevelKey`
pub record LevelKey : Type 0 where
  pub instrument : ℕ
  pub side : Side
  pub price_ticks : ℤ

-- its `operator==`
abbrev pub level_eq : LevelKey → LevelKey → Bool
level_eq a b =
    a.instrument == b.instrument && same_side a.side b.side && a.price_ticks ==ℤ b.price_ticks

same_side_iff : (a b : Side) → (same_side a b ≡ true) ↔ (a ≡ b)
same_side_iff a b = ground arith

pub level_eq_iff : (a b : LevelKey) → (level_eq a b ≡ true) ↔ (a ≡ b)
level_eq_iff a b = ground (arith, same_side_iff a.side b.side, ==ℤ_iff a.price_ticks b.price_ticks)

instance abbrev pub level_key_eq : Eq LevelKey
level_key_eq = record { beq = level_eq; beq_iff = level_eq_iff }

-- `struct QEntry`
pub record QEntry : Type 0 where
  pub order_id : ℕ
  pub qty : ℕ
  pub seq : ℕ

-- `struct ReductionEvent`
pub record ReductionEvent : Type 0 where
  pub level : LevelKey
  pub entry_seq : ℕ
  pub qty_reduced : ℕ
  pub is_execute : Bool

-- `struct ApplyEffect`
pub record ApplyEffect : Type 0 where
  pub touched : List LevelKey
  pub reduction : Option ReductionEvent

abbrev pub no_effect : ApplyEffect
no_effect = record { touched = []; reduction = none }

-- `struct Loc`
pub record Loc : Type 0 where
  pub level : LevelKey
  pub it : ℕ

-- `class QueuePositionBook`
pub record QueueBook : Type 0 where
  pub levels : Map LevelKey (List QEntry)
  pub orders : Map ℕ Loc
  pub next_seq : ℕ

abbrev pub empty_book : QueueBook
empty_book = record { levels = []; orders = []; next_seq = 0 }

-- the list of a level, empty where the map has none
abbrev pub or_nil : Option (List QEntry) → List QEntry
or_nil none = []
or_nil (some l) = l

unfoldable pub entries : Map LevelKey (List QEntry) → LevelKey → List QEntry
entries levels key = or_nil (find key levels)

-- the node that an iterator names
unfoldable pub node : ℕ → List QEntry → Option QEntry
node seq [] = none
node seq (e ∷ l) = if e.seq == seq then some e else node seq l

unfoldable pub deref : QueueBook → Loc → Option QEntry
unfolding entries
deref q loc = node loc.it (entries q.levels loc.level)

-- `it->qty = n`
unfoldable pub set_qty : ℕ → ℕ → List QEntry → List QEntry
set_qty seq n [] = []
set_qty seq n (e ∷ l) = if e.seq == seq then record e { qty = n } ∷ l else e ∷ set_qty seq n l

-- `lst.erase(it)`
unfoldable pub unlink : ℕ → List QEntry → List QEntry
unlink seq [] = []
unlink seq (e ∷ l) = if e.seq == seq then l else e ∷ unlink seq l

-- `lst = levels_[key]; lst.push_back(...); orders_[id] = ...` with `next_seq_++`, a uint64_t
unfoldable pub push_order : QueueBook → ℕ → LevelKey → ℕ → QueueBook
unfolding entries
push_order q id key n = record {
  levels =
      insert key (entries q.levels key ++ record { order_id = id; qty = n; seq = q.next_seq } ∷ [])
        q.levels;
  orders = insert id (record { level = key; it = q.next_seq }) q.orders;
  next_seq = (q.next_seq + 1) % 2 ^ 64;
}

-- `if (lvl_it->second.empty()) levels_.erase(lvl_it);` after the list of `key` became `l`
unfoldable pub store_list :
    LevelKey → List QEntry → Map LevelKey (List QEntry) → Map LevelKey (List QEntry)
store_list key [] levels = erase key levels
store_list key (e ∷ l) levels = insert key (e ∷ l) levels

-- `loc.it->qty -= actual` and, at 0, the removal of the node, of an emptied level and of the order
unfoldable pub reduce_node : QueueBook → ℕ → Loc → QEntry → ℕ → QueueBook
unfolding entries store_list
reduce_node q id loc e actual =
    let l = entries q.levels loc.level in
    if e.qty - actual == 0
    then record q {
      levels = store_list loc.level (unlink loc.it l) q.levels;
      orders = erase id q.orders;
    }
    else record q { levels = insert loc.level (set_qty loc.it (e.qty - actual) l) q.levels }

-- the event that `reduce_by` reports
abbrev pub reduction_of : Loc → QEntry → ℕ → Bool → ReductionEvent
reduction_of loc e actual is_execute = record {
  level = loc.level;
  entry_seq = e.seq;
  qty_reduced = actual;
  is_execute = is_execute;
}

infixl 5 ◌>>=◌
abbrev pub ◌>>=◌ : {A B : Type 0} → Option A → (A → Option B) → Option B
none >>= f = none
some a >>= f = f a

abbrev pub Applied : Type 0
Applied = Option (QueueBook × ApplyEffect)

-- `reduce_by`, with the effect that it adds to
unfoldable pub reduce_by : QueueBook → ℕ → ℕ → Bool → ApplyEffect → Applied
unfolding deref
reduce_by q id n is_execute eff = elim (find id q.orders) [
  | none ↦ some (q, eff)
  | some loc ↦ do
    e ← deref q loc
    some (
      reduce_node q id loc e (min n e.qty),
      record {
        touched = eff.touched ++ loc.level ∷ [];
        reduction = some (reduction_of loc e (min n e.qty) is_execute);
      },
    )
]

-- the key of a new order on a level, and the effect of resting there
abbrev pub touch : ApplyEffect → LevelKey → ApplyEffect
touch eff key = record eff { touched = eff.touched ++ key ∷ [] }

-- the case Delete, for an order that was found
unfoldable pub delete_at : QueueBook → ℕ → Loc → Applied
unfolding deref
delete_at q id loc = do e ← deref q loc; reduce_by q id e.qty false no_effect

-- the case Replace, for an order that was found
unfoldable pub replace_at : QueueBook → ℕ → ℕ → LevelKey → ℕ → Loc → Applied
replace_at q old_id new_id key n loc = do
  (q', eff) ← delete_at q old_id loc
  some (push_order q' new_id key n, touch eff key)

-- `apply`
unfoldable pub apply : WireMsg → QueueBook → Applied
unfolding reduce_by delete_at replace_at
apply (WireMsg.add a) q =
    let key : LevelKey = record {
      instrument = a.instrument_id;
      side = a.side;
      price_ticks = a.price_ticks;
    } in
    some (push_order q a.order_id key a.qty, touch no_effect key)
apply (WireMsg.exec e) q = reduce_by q e.order_id e.exec_qty true no_effect
apply (WireMsg.cancel c) q = reduce_by q c.order_id c.cancel_qty false no_effect
apply (WireMsg.del d) q = elim (find d.order_id q.orders) [
  | none ↦ some (q, no_effect)
  | some loc ↦ delete_at q d.order_id loc
]
apply (WireMsg.replace r) q = elim (find r.old_order_id q.orders) [
  | none ↦ some (q, no_effect)
  | some loc ↦
      replace_at q r.old_order_id r.new_order_id
        (record {
          instrument = r.instrument_id;
          side = loc.level.side;
          price_ticks = r.price_ticks;
        })
        r.qty loc
]

unfoldable pub total_qty : List QEntry → ℕ
total_qty [] = 0
total_qty (e ∷ l) = e.qty + total_qty l

-- the quantity of the entries that arrived before `seq`
unfoldable pub qty_before : ℕ → List QEntry → ℕ
qty_before seq [] = 0
qty_before seq (e ∷ l) = (if ltb e.seq seq then e.qty else 0) + qty_before seq l

-- `level_total_qty`, whose result is a uint32_t
unfoldable pub level_total_qty : QueueBook → LevelKey → ℕ
unfolding entries
level_total_qty q key = total_qty (entries q.levels key) % 2 ^ 32

-- `qty_ahead_of_seq`; the sum of uint32_t quantities is taken exactly, as the source's uint64_t holds it
-- on levels of fewer than 2^32 orders
unfoldable pub qty_ahead_of_seq : QueueBook → LevelKey → ℕ → ℕ
unfolding entries
qty_ahead_of_seq q key seq = qty_before seq (entries q.levels key)
