-- ===== src/Queue/Linked.antt =====
-- The invariant of QueuePositionBook (include/queue_book.hpp): every order's iterator names a node
-- that holds that order, and the arrival numbers of all entries are below the next one.
pub mod Push
pub mod Reduce
use exchange_market_data_dec.Prelude.{
  ℕ, ◌+◌, ◌-◌, ◌<◌, ◌^◌, true, false, ◌≡◌, ◌≢◌, refl, some, List, [], ◌∷◌, ◌==◌, ==_iff,
  if◌then◌else◌, arith, Bool-cases, inl, inr, nat_eq, sym, ◌∙◌, ap, ap₂, subst,
}
use exchange_market_data_dec.Map.{Map, find, erase}
use exchange_market_data_dec.Map.Laws.{
  find-insert, find-erase_ne, find-erase_self, Distinct, insert-Distinct, erase-Distinct,
}
use exchange_market_data_dec.Queue.{
  LevelKey, level_eq, level_eq_iff, level_key_eq, QEntry, Loc, QueueBook, empty_book, entries, node,
  push_order, reduce_node,
}
use exchange_market_data_dec.Queue.Entries.{
  AllBefore, node-append_old, node-append_new, node-set_qty, node-unlink_ne, AllBefore-mono,
  AllBefore-append, AllBefore-set_qty, AllBefore-unlink,
}
use exchange_market_data_dec.Queue.Effects.{
  arrival, reduced, entries-push_order, entries-reduce_node, push_order-levels_Distinct,
  reduce_node-levels_Distinct,
}

-- The node of `loc` is there, and holds order `id`.
pub record Holds (levels : Map LevelKey (List QEntry)) (id : ℕ) (loc : Loc) : Type 0 where
  pub entry : QEntry
  pub at : node loc.it (entries levels loc.level) ≡ some entry
  pub own : entry.order_id ≡ id

pub record IsLinked (q : QueueBook) : Type 0 where
  pub levels_distinct : Distinct q.levels
  pub orders_distinct : Distinct q.orders
  pub before : (k : LevelKey) → AllBefore q.next_seq (entries q.levels k)
  pub linked : (id : ℕ) (loc : Loc) → find id q.orders ≡ some loc → Holds q.levels id loc

-- A node holds one order.
pub Holds-unique :
    (levels : Map LevelKey (List QEntry)) (i j : ℕ) (l m : Loc)
    → Holds levels i l
    → Holds levels j m
    → l.level ≡ m.level
    → l.it ≡ m.it
    → i ≡ j
Holds-unique levels i j l m h k same_level same_it =
    let same : h.entry ≡ k.entry =
      cc (sym h.at ∙ ap₂ (λ s key. node s (entries levels key)) same_it same_level ∙ k.at) in
    sym h.own ∙ ap (λ (x : QEntry). x.order_id) same ∙ k.own

-- The arrival counter has not reached the last value of a uint64_t.
abbrev pub HasRoom : QueueBook → Type 0
HasRoom q = q.next_seq + 1 < 2 ^ 64

pub empty_book-IsLinked : IsLinked empty_book
unfolding entries find
empty_book-IsLinked = record {
  levels_distinct = tt;
  orders_distinct = tt;
  before = λ k. tt;
  linked = λ id loc h. cc;
}
