-- ===== src/Queue/Effects.antt =====
-- What an arrival and a reduction do to the levels of QueuePositionBook (include/queue_book.hpp).
use exchange_market_data_dec.Prelude.{
  ℕ, ◌-◌, ◌≡◌, List, [], ◌∷◌, ◌++◌, ◌==◌, if◌then◌else◌, arith, Bool-cases, inl, inr, nat_eq, ap,
}
use exchange_market_data_dec.Map.{Map, insert}
use exchange_market_data_dec.Map.Laws.{
  find-insert, find-erase_ne, find-erase_self, Distinct, insert-Distinct, erase-Distinct,
}
use exchange_market_data_dec.Queue.{
  LevelKey, level_eq, level_eq_iff, level_key_eq, QEntry, Loc, QueueBook, or_nil, entries, set_qty,
  unlink, push_order, store_list, reduce_node,
}

pub entries-insert :
    (key k : LevelKey) (l : List QEntry) (m : Map LevelKey (List QEntry))
    → entries (insert key l m) k ≡ (if level_eq key k then l else entries m k)
unfolding entries
entries-insert key k l m = ground (arith, find-insert key k l m)

pub entries-store_list :
    (key k : LevelKey) (l : List QEntry) (m : Map LevelKey (List QEntry))
    → Distinct m
    → entries (store_list key l m) k ≡ (if level_eq key k then l else entries m k)
unfolding store_list
entries-store_list key k [] m d = elim (Bool-cases (level_eq key k)) [
  | inl p ↦
      let same : key ≡ k = (level_eq_iff key k).0 p in
      rw (p, ← same) (unfold entries in ap or_nil (find-erase_self key m d))
  | inr p ↦ rw p (unfold entries in ap or_nil (find-erase_ne key k m p))
]
entries-store_list key k (e ∷ l) m d = entries-insert key k (e ∷ l) m

store_list-Distinct :
    (key : LevelKey) (l : List QEntry) (m : Map LevelKey (List QEntry))
    → Distinct m
    → Distinct (store_list key l m)
unfolding store_list
store_list-Distinct key [] m d = erase-Distinct key m d
store_list-Distinct key (e ∷ l) m d = insert-Distinct key (e ∷ l) m d

-- the entry that an arrival adds
abbrev pub arrival : QueueBook → ℕ → ℕ → QEntry
arrival q id n = record { order_id = id; qty = n; seq = q.next_seq }

-- An arrival goes to the end of its level.
pub entries-push_order :
    (q : QueueBook) (id : ℕ) (key : LevelKey) (n : ℕ) (k : LevelKey)
    → entries (push_order q id key n).levels k
      ≡ (if level_eq key k then entries q.levels key ++ arrival q id n ∷ [] else entries q.levels k)
unfolding push_order
entries-push_order q id key n k = entries-insert key k _ q.levels

-- the list of a level once `actual` is taken off an entry
abbrev pub reduced : ℕ → QEntry → ℕ → List QEntry → List QEntry
reduced s e actual l = if e.qty - actual == 0 then unlink s l else set_qty s (e.qty - actual) l

-- A reduction changes the entry's level, and no other one.
pub entries-reduce_node :
    (q : QueueBook) (id : ℕ) (loc : Loc) (e : QEntry) (actual : ℕ) (k : LevelKey)
    → Distinct q.levels
    → entries (reduce_node q id loc e actual).levels k ≡ (
        if level_eq loc.level k
        then reduced loc.it e actual (entries q.levels loc.level)
        else entries q.levels k)
unfolding reduce_node
entries-reduce_node q id loc e actual k d = elim (Bool-cases (e.qty - actual == 0)) [
  | inl p ↦ rw p (entries-store_list loc.level k _ q.levels d)
  | inr p ↦ rw p (entries-insert loc.level k _ q.levels)
]

pub push_order-levels_Distinct :
    (q : QueueBook) (id : ℕ) (key : LevelKey) (n : ℕ)
    → Distinct q.levels
    → Distinct (push_order q id key n).levels
unfolding push_order
push_order-levels_Distinct q id key n d = insert-Distinct key _ q.levels d

pub reduce_node-levels_Distinct :
    (q : QueueBook) (id : ℕ) (loc : Loc) (e : QEntry) (actual : ℕ)
    → Distinct q.levels
    → Distinct (reduce_node q id loc e actual).levels
unfolding reduce_node
reduce_node-levels_Distinct q id loc e actual d = elim (Bool-cases (e.qty - actual == 0)) [
  | inl p ↦ rw p (store_list-Distinct loc.level _ q.levels d)
  | inr p ↦ rw p (insert-Distinct loc.level _ q.levels d)
]
