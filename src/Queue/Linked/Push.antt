-- ===== src/Queue/Linked/Push.antt =====
-- An arrival in QueuePositionBook (include/queue_book.hpp) and the iterators of its orders.
use exchange_market_data_dec.Prelude.{
  ℕ, ◌+◌, ◌≡◌, refl, some, [], ◌∷◌, ◌==◌, ==_iff, if◌then◌else◌, arith, Bool-cases, inl, inr,
  nat_eq, subst,
}
use exchange_market_data_dec.Map.{find}
use exchange_market_data_dec.Map.Laws.{find-insert, insert-Distinct}
use exchange_market_data_dec.Queue.{
  LevelKey, level_eq, level_eq_iff, level_key_eq, Loc, QueueBook, entries, push_order,
}
use exchange_market_data_dec.Queue.Entries.{
  AllBefore, node-append_old, node-append_new, AllBefore-mono, AllBefore-append,
}
use exchange_market_data_dec.Queue.Effects.{arrival, entries-push_order, push_order-levels_Distinct}
use exchange_market_data_dec.Queue.Linked.{Holds, IsLinked, HasRoom}

push_before :
    (q : QueueBook) (id : ℕ) (key : LevelKey) (n : ℕ)
    → HasRoom q
    → IsLinked q
    → (k : LevelKey)
    → AllBefore (push_order q id key n).next_seq (entries (push_order q id key n).levels k)
push_before q id key n room v k =
    let next : (push_order q id key n).next_seq ≡ q.next_seq + 1 =
      unfold push_order in omega arith in
    rw (next, entries-push_order q id key n k)
      (elim (Bool-cases (level_eq key k)) [
        | inl p ↦ rw p (
            AllBefore-append (q.next_seq + 1) (entries q.levels key) (arrival q id n)
              (AllBefore-mono q.next_seq (q.next_seq + 1) (entries q.levels key) (omega arith)
                (v.before key))
              (omega arith))
        | inr p ↦ rw p (
            AllBefore-mono q.next_seq (q.next_seq + 1) (entries q.levels k) (omega arith)
              (v.before k))
      ])

push_Holds_old :
    (q : QueueBook) (id : ℕ) (key : LevelKey) (n j : ℕ) (loc : Loc)
    → Holds q.levels j loc
    → Holds (push_order q id key n).levels j loc
push_Holds_old q id key n j loc h = elim (Bool-cases (level_eq key loc.level)) [
  | inl p ↦
      let same : key ≡ loc.level = (level_eq_iff key loc.level).0 p in
      record {
        entry = h.entry;
        at =
            rw (entries-push_order q id key n loc.level, p)
              (node-append_old loc.it (entries q.levels key) (arrival q id n ∷ []) h.entry
                (rw same h.at));
        own = h.own;
      }
  | inr p ↦ record {
    entry = h.entry;
    at = rw (entries-push_order q id key n loc.level, p) h.at;
    own = h.own;
  }
]

push_Holds_new :
    (q : QueueBook) (id : ℕ) (key : LevelKey) (n : ℕ)
    → IsLinked q
    → Holds (push_order q id key n).levels id (record { level = key; it = q.next_seq })
push_Holds_new q id key n v = record {
  entry = arrival q id n;
  at =
      rw (entries-push_order q id key n key, (level_eq_iff key key).1 refl)
        (node-append_new (entries q.levels key) (arrival q id n) (v.before key));
  own = refl;
}

find-push_order :
    (q : QueueBook) (id : ℕ) (key : LevelKey) (n j : ℕ)
    → find j (push_order q id key n).orders
      ≡ (if id == j then some (record { level = key; it = q.next_seq }) else find j q.orders)
unfolding push_order
find-push_order q id key n j = find-insert id j _ q.orders

push_linked :
    (q : QueueBook) (id : ℕ) (key : LevelKey) (n : ℕ)
    → IsLinked q
    → (j : ℕ) (loc : Loc) → find j (push_order q id key n).orders ≡ some loc
    → Holds (push_order q id key n).levels j loc
push_linked q id key n v j loc h = elim (Bool-cases (id == j)) [
  | inl p ↦
      let new : ◌≡◌ {A = Loc} (record { level = key; it = q.next_seq }) loc =
        ground (arith, find-push_order q id key n j) in
      let same : id ≡ j = (==_iff id j).0 p in
      subst (λ l. Holds (push_order q id key n).levels j l) new
        (subst
          (λ i. Holds (push_order q id key n).levels i (record { level = key; it = q.next_seq }))
          same (push_Holds_new q id key n v))
  | inr p ↦
      push_Holds_old q id key n j loc
        (v.linked j loc (ground (arith, find-push_order q id key n j)))
]

-- An arrival keeps every iterator good.
pub push_order-IsLinked :
    (q : QueueBook) (id : ℕ) (key : LevelKey) (n : ℕ)
    → HasRoom q
    → IsLinked q
    → IsLinked (push_order q id key n)
push_order-IsLinked q id key n room v = record {
  levels_distinct = push_order-levels_Distinct q id key n v.levels_distinct;
  orders_distinct = unfold push_order in insert-Distinct id _ q.orders v.orders_distinct;
  before = push_before q id key n room v;
  linked = push_linked q id key n v;
}
