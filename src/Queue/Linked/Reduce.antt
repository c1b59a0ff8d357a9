-- ===== src/Queue/Linked/Reduce.antt =====
-- A reduction in QueuePositionBook (include/queue_book.hpp) and the iterators of its orders.
use exchange_market_data_dec.Prelude.{
  ℕ, ◌-◌, true, false, ◌≡◌, ◌≢◌, refl, some, List, ◌==◌, ==_iff, if◌then◌else◌, arith, Bool-cases,
  inl, inr, nat_eq, sym, ◌∙◌, ap, subst,
}
use exchange_market_data_dec.Map.{find, erase}
use exchange_market_data_dec.Map.Laws.{find-erase_ne, find-erase_self, Distinct, erase-Distinct}
use exchange_market_data_dec.Queue.{
  LevelKey, level_eq, level_eq_iff, level_key_eq, QEntry, Loc, QueueBook, entries, node,
  reduce_node,
}
use exchange_market_data_dec.Queue.Entries.{
  AllBefore, node-set_qty, node-unlink_ne, AllBefore-set_qty, AllBefore-unlink,
}
use exchange_market_data_dec.Queue.Effects.{
  reduced, entries-reduce_node, reduce_node-levels_Distinct,
}
use exchange_market_data_dec.Queue.Linked.{Holds, IsLinked, Holds-unique}

module _ (q : QueueBook) (id : ℕ) (loc : Loc) (e : QEntry) (actual : ℕ) (v : IsLinked q)
    (live : find id q.orders ≡ some loc)
    (at : node loc.it (entries q.levels loc.level) ≡ some e) where
  -- the lists after the reduction
  abbrev after : LevelKey → List QEntry
  after = entries (reduce_node q id loc e actual).levels

  after_here : after loc.level ≡ reduced loc.it e actual (entries q.levels loc.level)
  after_here =
      rw
        (
          entries-reduce_node q id loc e actual loc.level v.levels_distinct,
          (level_eq_iff loc.level loc.level).1 refl,
        )
        refl

  after_elsewhere : (k : LevelKey) → level_eq loc.level k ≡ false → after k ≡ entries q.levels k
  after_elsewhere k p = rw (entries-reduce_node q id loc e actual k v.levels_distinct, p) refl

  pub reduce_next_seq : (reduce_node q id loc e actual).next_seq ≡ q.next_seq
  unfolding reduce_node
  reduce_next_seq = ground arith

  reduce_before : (k : LevelKey) → AllBefore (reduce_node q id loc e actual).next_seq (after k)
  reduce_before k = rw reduce_next_seq (elim (Bool-cases (level_eq loc.level k)) [
    | inl p ↦
        let same : loc.level ≡ k = (level_eq_iff loc.level k).0 p in
        rw (← same, after_here)
          (elim (Bool-cases (e.qty - actual == 0)) [
            | inl gone ↦ rw gone (
                AllBefore-unlink q.next_seq loc.it (entries q.levels loc.level)
                  (v.before loc.level))
            | inr some_left ↦ rw some_left (
                AllBefore-set_qty q.next_seq loc.it (e.qty - actual) (entries q.levels loc.level)
                  (v.before loc.level))
          ])
    | inr p ↦ rw (after_elsewhere k p) (v.before k)
  ])

  -- A change of quantity keeps every node.
  keep_Holds :
      (j : ℕ) (l : Loc)
      → (e.qty - actual == 0) ≡ false
      → Holds q.levels j l
      → Holds (reduce_node q id loc e actual).levels j l
  keep_Holds j l p h = elim (Bool-cases (level_eq loc.level l.level)) [
    | inl here ↦
        let same : loc.level ≡ l.level = (level_eq_iff loc.level l.level).0 here in
        let (e', at', own') =
          node-set_qty loc.it (e.qty - actual) l.it (entries q.levels loc.level) h.entry
            (rw same h.at) in
        record {
          entry = e';
          at = subst (λ k. node l.it (after k) ≡ some e') same (rw (after_here, p) at');
          own = own' ∙ h.own;
        }
    | inr there ↦ record {
      entry = h.entry;
      at = rw (after_elsewhere l.level there) h.at;
      own = h.own;
    }
  ]

  -- The removal of a node keeps those of other orders.
  drop_Holds :
      (j : ℕ) (l : Loc)
      → (e.qty - actual == 0) ≡ true
      → j ≢ id
      → Holds q.levels j l
      → Holds (reduce_node q id loc e actual).levels j l
  drop_Holds j l p other h = elim (Bool-cases (level_eq loc.level l.level)) [
    | inl here ↦
        let same : loc.level ≡ l.level = (level_eq_iff loc.level l.level).0 here in
        let apart : loc.it ≢ l.it = (λ meet.
          other (sym (Holds-unique q.levels id j loc l (v.linked id loc live) h same meet))) in
        record {
          entry = h.entry;
          at =
              rw
                (
                  ← same,
                  after_here,
                  p,
                  node-unlink_ne loc.it l.it (entries q.levels loc.level) apart,
                )
                (rw same h.at);
          own = h.own;
        }
    | inr there ↦ record {
      entry = h.entry;
      at = rw (after_elsewhere l.level there) h.at;
      own = h.own;
    }
  ]

  reduce_orders :
      (reduce_node q id loc e actual).orders
      ≡ (if e.qty - actual == 0 then erase id q.orders else q.orders)
  unfolding reduce_node
  reduce_orders = ground arith

  reduce_linked :
      (j : ℕ) (l : Loc)
      → find j (reduce_node q id loc e actual).orders ≡ some l
      → Holds (reduce_node q id loc e actual).levels j l
  reduce_linked j l h = elim (Bool-cases (e.qty - actual == 0)) [
    | inl gone ↦
        let h' : find j (erase id q.orders) ≡ some l = ground (arith, reduce_orders) in
        elim (Bool-cases (id == j)) [
          | inl mine ↦
              let same : id ≡ j = (==_iff id j).0 mine in
              cc (
                find-erase_self id q.orders v.orders_distinct,
                ap (λ i. find i (erase id q.orders)) same,
              )
          | inr other ↦
              drop_Holds j l gone (λ same. ground arith)
                (v.linked j l (sym (find-erase_ne id j q.orders other) ∙ h'))
        ]
    | inr left ↦ keep_Holds j l left (v.linked j l (ground (arith, reduce_orders)))
  ]

  reduce_orders_Distinct : Distinct (reduce_node q id loc e actual).orders
  reduce_orders_Distinct = elim (Bool-cases (e.qty - actual == 0)) [
    | inl gone ↦ rw (reduce_orders, gone) (erase-Distinct id q.orders v.orders_distinct)
    | inr left ↦ rw (reduce_orders, left) v.orders_distinct
  ]

  -- A reduction keeps every iterator that is left good.
  pub reduce_node-IsLinked : IsLinked (reduce_node q id loc e actual)
  reduce_node-IsLinked = record {
    levels_distinct = reduce_node-levels_Distinct q id loc e actual v.levels_distinct;
    orders_distinct = reduce_orders_Distinct;
    before = reduce_before;
    linked = reduce_linked;
  }
