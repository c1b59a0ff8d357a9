-- ===== src/Simulator/Positions.antt =====
-- The live orders of include/market_simulator.hpp by their positions: what stands where after an order is
-- added, removed by a swap with the last, or written over.
use exchange_market_data_dec.Prelude.{
  ℕ, ◌+◌, ◌-◌, ◌<◌, ◌≡◌, ◌≢◌, refl, sym, ◌∙◌, ap, arith, ◌==◌, ltb, Bool-cases, ◌⊎◌, inl, inr, some,
  none, List, [], ◌∷◌, ◌++◌, length, get_elem?, set_elem, back, pop_back, get_elem?-set_elem,
  length-set_elem, get_elem?-pop_back, get_elem?-back, get_elem?-push_back, get_elem?_lt,
  get_elem?-some, if◌then◌else◌,
}
use exchange_market_data_dec.Simulator.{LiveOrder, swap_remove}

swap_remove-some :
    (book : List LiveOrder) (j : ℕ) (last : LiveOrder)
    → back book ≡ some last
    → swap_remove j book ≡ pop_back (set_elem book j last)
unfolding swap_remove
swap_remove-some book j last h = rw (swap_remove, h) refl

pub get_elem?-swap_remove :
    (book : List LiveOrder) (j i : ℕ)
    → j < length book
    → get_elem? (swap_remove j book) i ≡ (
        if ltb (i + 1) (length book)
        then (if j == i then get_elem? book (length book - 1) else get_elem? book i)
        else none)
get_elem?-swap_remove book j i h =
    let (last, there) = get_elem?-some book (length book - 1) (omega arith) in
    let here : back book ≡ some last = sym (get_elem?-back book) ∙ there in
    ap (λ xs. get_elem? xs i) (swap_remove-some book j last here)
    ∙ ground (
      arith,
      get_elem?-pop_back (set_elem book j last) i,
      get_elem?-set_elem book j last i,
      length-set_elem book j last,
      there,
    )

-- Where an order comes from that is found after a change.
pub added_from :
    (book : List LiveOrder) (o : LiveOrder) (i : ℕ) (x : LiveOrder)
    → get_elem? (book ++ o ∷ []) i ≡ some x
    → ((i ≡ length book) × (o ≡ x)) ⊎ ((i < length book) × (get_elem? book i ≡ some x))
added_from book o i x h = elim (Bool-cases (i == length book)) [
  | inl e ↦ inl (ground arith, ground (arith, get_elem?-push_back book o i))
  | inr e ↦
      let old : get_elem? book i ≡ some x = ground (arith, get_elem?-push_back book o i) in
      inr (get_elem?_lt book i old, old)
]

pub removed_from :
    (book : List LiveOrder) (j i : ℕ) (x : LiveOrder)
    → j < length book
    → get_elem? (swap_remove j book) i ≡ some x
    → (i' : ℕ) × (get_elem? book i' ≡ some x)
      × (i' ≢ j)
      × (i' ≡ (if j == i then length book - 1 else i))
      × (i + 1 < length book)
removed_from book j i x lt h = elim (Bool-cases (j == i)) [
  | inl e ↦ (
    length book - 1,
    ground (arith, get_elem?-swap_remove book j i lt),
    ground (arith, get_elem?-swap_remove book j i lt),
    rw e refl,
    ground (arith, get_elem?-swap_remove book j i lt),
  )
  | inr e ↦ (
    i,
    ground (arith, get_elem?-swap_remove book j i lt),
    ground arith,
    rw e refl,
    ground (arith, get_elem?-swap_remove book j i lt),
  )
]

pub set_from :
    (book : List LiveOrder) (j : ℕ) (y : LiveOrder) (i : ℕ) (x : LiveOrder)
    → j < length book
    → get_elem? (set_elem book j y) i ≡ some x
    → ((i ≡ j) × (y ≡ x)) ⊎ ((i ≢ j) × (get_elem? book i ≡ some x))
set_from book j y i x lt h = elim (Bool-cases (j == i)) [
  | inl e ↦ inl (ground arith, ground (arith, get_elem?-set_elem book j y i))
  | inr e ↦ inr (ground arith, ground (arith, get_elem?-set_elem book j y i))
]
