-- ===== src/Queue/Entries.antt =====
-- The list of one level of QueuePositionBook (include/queue_book.hpp): nodes after a push, a change of
-- quantity and a removal, and the quantity before an arrival number.
use exchange_market_data_dec.Prelude.{
  ℕ, ◌+◌, ◌≤◌, ◌<◌, ◌≡◌, ◌≢◌, refl, some, List, [], ◌∷◌, ◌++◌, ltb, ◌==◌, arith, Bool-cases, inl,
  inr,
}
use exchange_market_data_dec.Book.Levels.{when}
use exchange_market_data_dec.Queue.{QEntry, node, set_qty, unlink, total_qty, qty_before}

-- Every entry arrived before number `n`.
abbrev pub AllBefore : ℕ → List QEntry → Type 0
AllBefore n [] = Unit
AllBefore n (e ∷ l) = (e.seq < n) × AllBefore n l

pub node-seq : (s : ℕ) (l : List QEntry) (e : QEntry) → node s l ≡ some e → e.seq ≡ s
unfolding node
node-seq s [] e h = cc
node-seq s (x ∷ l) e h = ground (arith, node-seq s l e)

pub node-append_old :
    (s : ℕ) (l l' : List QEntry) (e : QEntry) → node s l ≡ some e → node s (l ++ l') ≡ some e
unfolding node
node-append_old s [] l' e h = cc
node-append_old s (x ∷ l) l' e h = ground (arith, node-append_old s l l' e)

pub node-append_new :
    (l : List QEntry) (e : QEntry) → AllBefore e.seq l → node e.seq (l ++ e ∷ []) ≡ some e
unfolding node
node-append_new [] e b = ground arith
node-append_new (x ∷ l) e b = ground (arith, node-append_new l e b.1)

pub node-set_qty :
    (s n t : ℕ) (l : List QEntry) (e : QEntry)
    → node t l ≡ some e
    → (e' : QEntry) × (node t (set_qty s n l) ≡ some e') × (e'.order_id ≡ e.order_id)
unfolding node set_qty
node-set_qty s n t [] e h = cc
node-set_qty s n t (x ∷ l) e h = elim (Bool-cases (x.seq == s)) [
  | inl p ↦ elim (Bool-cases (x.seq == t)) [
    | inl q ↦ (record x { qty = n }, ground arith, ground arith)
    | inr q ↦ (e, ground arith, refl)
  ]
  | inr p ↦ elim (Bool-cases (x.seq == t)) [
    | inl q ↦ (e, ground arith, refl)
    | inr q ↦ rw (p, q) (node-set_qty s n t l e (rw q at h))
  ]
]

pub node-unlink_ne : (s t : ℕ) (l : List QEntry) → s ≢ t → node t (unlink s l) ≡ node t l
unfolding node unlink
node-unlink_ne s t [] h = refl
node-unlink_ne s t (x ∷ l) h = ground (arith, node-unlink_ne s t l h)

pub AllBefore-mono : (m n : ℕ) (l : List QEntry) → m ≤ n → AllBefore m l → AllBefore n l
AllBefore-mono m n [] h b = tt
AllBefore-mono m n (e ∷ l) h b = (omega arith, AllBefore-mono m n l h b.1)

pub AllBefore-append :
    (n : ℕ) (l : List QEntry) (e : QEntry) → AllBefore n l → e.seq < n → AllBefore n (l ++ e ∷ [])
AllBefore-append n [] e b h = (h, tt)
AllBefore-append n (x ∷ l) e b h = (b.0, AllBefore-append n l e b.1 h)

pub AllBefore-set_qty : (n s m : ℕ) (l : List QEntry) → AllBefore n l → AllBefore n (set_qty s m l)
unfolding set_qty
AllBefore-set_qty n s m [] b = tt
AllBefore-set_qty n s m (e ∷ l) b = ground (arith, AllBefore-set_qty n s m l b.1)

pub AllBefore-unlink : (n s : ℕ) (l : List QEntry) → AllBefore n l → AllBefore n (unlink s l)
unfolding unlink
AllBefore-unlink n s [] b = tt
AllBefore-unlink n s (e ∷ l) b = ground (arith, AllBefore-unlink n s l b.1)

pub qty_before-append :
    (t : ℕ) (l : List QEntry) (e : QEntry)
    → qty_before t (l ++ e ∷ []) ≡ qty_before t l + when (ltb e.seq t) e.qty
unfolding qty_before
qty_before-append t [] e = ground arith
qty_before-append t (x ∷ l) e = omega (arith, qty_before-append t l e)

pub qty_before-set_qty :
    (t s n : ℕ) (l : List QEntry) (e : QEntry)
    → node s l ≡ some e
    → qty_before t (set_qty s n l) + when (ltb s t) e.qty ≡ qty_before t l + when (ltb s t) n
unfolding qty_before node set_qty
qty_before-set_qty t s n [] e h = cc
qty_before-set_qty t s n (x ∷ l) e h = ground (arith, qty_before-set_qty t s n l e)

pub qty_before-unlink :
    (t s : ℕ) (l : List QEntry) (e : QEntry)
    → node s l ≡ some e
    → qty_before t (unlink s l) + when (ltb s t) e.qty ≡ qty_before t l
unfolding qty_before node unlink
qty_before-unlink t s [] e h = cc
qty_before-unlink t s (x ∷ l) e h = ground (arith, qty_before-unlink t s l e)

-- Once every entry arrived before `t`, the quantity before `t` is all of it.
pub qty_before-all : (t : ℕ) (l : List QEntry) → AllBefore t l → qty_before t l ≡ total_qty l
unfolding qty_before total_qty
qty_before-all t [] b = refl
qty_before-all t (e ∷ l) b = ground (arith, qty_before-all t l b.1)
