-- ===== src/Simulator/Mirror.antt =====
-- The live orders of include/market_simulator.hpp against the orders that rest in a book which its
-- messages are applied to.
use exchange_market_data_dec.Prelude.{
  ℕ, ◌+◌, ◌-◌, ◌≤◌, ◌<◌, ◌≡◌, ◌≢◌, sym, ◌∙◌, ap, arith, ◌==◌, false, Bool-cases, Option-cases,
  subst, inl, inr, some, none, List, [], ◌∷◌, ◌++◌, length, get_elem?, set_elem, get_elem?-set_elem,
  get_elem?-push_back, get_elem?_lt, nat_eq,
}
use exchange_market_data_dec.Map.{Map, find, insert, erase}
use exchange_market_data_dec.Map.Laws.{
  find-insert, find-erase_ne, find-erase_self, Distinct, insert-Distinct, erase-Distinct,
}
use exchange_market_data_dec.Replay.{RestingLoc}
use exchange_market_data_dec.Simulator.{LiveOrder, swap_remove}
use exchange_market_data_dec.Simulator.Positions.{
  get_elem?-swap_remove, added_from, removed_from, set_from,
}

abbrev pub resting : LiveOrder → RestingLoc
resting o = record { side = o.side; price_ticks = o.price_ticks; qty = o.qty }

-- The live orders are the resting ones, each once, and their ids are below `next`.
pub record Mirrors (book : List LiveOrder) (next : ℕ) (orders : Map ℕ RestingLoc) : Type 0 where
  pub live :
      (j : ℕ) (o : LiveOrder)
      → get_elem? book j ≡ some o
      → (find o.order_id orders ≡ some (resting o)) × (o.order_id < next) × (0 < o.qty)
  pub apart :
      (j k : ℕ) (o o' : LiveOrder)
      → get_elem? book j ≡ some o
      → get_elem? book k ≡ some o'
      → o.order_id ≡ o'.order_id
      → j ≡ k
  pub known :
      (id : ℕ) (x : RestingLoc)
      → find id orders ≡ some x
      → (j : ℕ) × (o : LiveOrder) × (get_elem? book j ≡ some o) × (o.order_id ≡ id)
  pub distinct : Distinct orders

module _ (book : List LiveOrder) (next : ℕ) (orders : Map ℕ RestingLoc)
    (v : Mirrors book next orders) where
  pub fresh_id : (id : ℕ) → next ≤ id → find id orders ≡ none
  fresh_id id le = elim (Option-cases (find id orders)) [
    | inl h ↦ h
    | inr (x, h) ↦
        let (j, o, there, same) = v.known id x h in
        absurd (omega (arith, (v.live j o there).1, same, le))
  ]

  pub add-Mirrors :
      (o : LiveOrder)
      → o.order_id ≡ next
      → 0 < o.qty
      → Mirrors (book ++ o ∷ []) (next + 1) (insert o.order_id (resting o) orders)
  add-Mirrors o at pos = record {
    live = λ j x there. elim (added_from book o j x there) [
      | inl (e, same) ↦
          subst
            (λ y.
              (find y.order_id (insert o.order_id (resting o) orders) ≡ some (resting y))
              × (y.order_id < next + 1)
              × (0 < y.qty))
            same
            (ground (arith, find-insert o.order_id o.order_id (resting o) orders), omega arith, pos)
      | inr (lt, old) ↦
          ground (arith, v.live j x old, find-insert o.order_id x.order_id (resting o) orders)
    ];
    apart = λ j k x y hj hk same. elim (added_from book o j x hj) [
      | inl (ej, sx) ↦ elim (added_from book o k y hk) [
        | inl (ek, sy) ↦ ej ∙ sym ek
        | inr (lk, oldk) ↦
            let ids : o.order_id ≡ x.order_id = ap (λ z. z.order_id) sx in
            absurd (omega (arith, v.live k y oldk, ids, same, at))
      ]
      | inr (lj, oldj) ↦ elim (added_from book o k y hk) [
        | inl (ek, sy) ↦
            let ids : o.order_id ≡ y.order_id = ap (λ z. z.order_id) sy in
            absurd (omega (arith, v.live j x oldj, ids, same, at))
        | inr (lk, oldk) ↦ v.apart j k x y oldj oldk same
      ]
    ];
    known = λ id x found. elim (Bool-cases (o.order_id == id)) [
      | inl e ↦
          (length book, o, ground (arith, get_elem?-push_back book o (length book)), ground arith)
      | inr e ↦
          let (j, y, there, same) =
            v.known id x (ground (arith, find-insert o.order_id id (resting o) orders)) in
          (j, y, ground (arith, get_elem?-push_back book o j, get_elem?_lt book j there), same)
    ];
    distinct = insert-Distinct o.order_id (resting o) orders v.distinct;
  }

  module _ (j : ℕ) (lo : LiveOrder) (there : get_elem? book j ≡ some lo) where
    inside : j < length book
    inside = get_elem?_lt book j there

    other_id :
        (i : ℕ) (x : LiveOrder)
        → get_elem? book i ≡ some x
        → i ≢ j
        → (lo.order_id == x.order_id) ≡ false
    other_id i x h ne = elim (Bool-cases (lo.order_id == x.order_id)) [
      | inl e ↦ absurd (ne (v.apart i j x lo h there (ground arith)))
      | inr e ↦ e
    ]

    pub remove-Mirrors : Mirrors (swap_remove j book) next (erase lo.order_id orders)
    remove-Mirrors = record {
      live = λ i x at.
          let (i', old, ne, e, lt) = removed_from book j i x inside at in
          let (f, below, pos) = v.live i' x old in
          (find-erase_ne lo.order_id x.order_id orders (other_id i' x old ne) ∙ f, below, pos);
      apart = λ i k x y hi hk same.
          let (i', oldi, ni, ei, li) = removed_from book j i x inside hi in
          let (k', oldk, nk, ek, lk) = removed_from book j k y inside hk in
          let both : i' ≡ k' = v.apart i' k' x y oldi oldk same in
          ground (arith, both, ei, ek, li, lk);
      known = λ id x found.
          let gone : find lo.order_id (erase lo.order_id orders) ≡ none =
            find-erase_self lo.order_id orders v.distinct in
          let ne : (lo.order_id == id) ≡ false = elim (Bool-cases (lo.order_id == id)) [
            | inl e ↦
                let same : lo.order_id ≡ id = ground arith in
                cc (gone, found, ap (λ k. find k (erase lo.order_id orders)) same)
            | inr e ↦ e
          ] in
          let (i, o, at, same) =
            v.known id x (sym (find-erase_ne lo.order_id id orders ne) ∙ found) in
          let apart : i ≢ j = λ e. ground (arith, at, there, same, ne, ap (get_elem? book) e) in
          let lt : i < length book = get_elem?_lt book i at in
          elim (Bool-cases (i == length book - 1)) [
            | inl e ↦ (
              j,
              o,
              ground (arith, get_elem?-swap_remove book j j inside, apart, lt, inside, at),
              same,
            )
            | inr e ↦
                (i, o, ground (arith, get_elem?-swap_remove book j i inside, apart, lt, at), same)
          ];
      distinct = erase-Distinct lo.order_id orders v.distinct;
    }

    pub reduce-Mirrors :
        (n : ℕ)
        → 0 < n
        → Mirrors
            (set_elem book j (record lo { qty = n }))
            next
            (insert lo.order_id (resting (record lo { qty = n })) orders)
    reduce-Mirrors n pos = record {
      live = λ i x at. elim (set_from book j (record lo { qty = n }) i x inside at) [
        | inl (e, same) ↦
            subst
              (λ y.
                (find y.order_id (insert lo.order_id (resting (record lo { qty = n })) orders)
                  ≡ some (resting y))
                × (y.order_id < next)
                × (0 < y.qty))
              same
              (
                ground (
                  arith,
                  find-insert lo.order_id lo.order_id (resting (record lo { qty = n })) orders,
                ),
                (v.live j lo there).1,
                pos,
              )
        | inr (ne, old) ↦
            let (f, below, some_qty) = v.live i x old in
            (
              find-insert lo.order_id x.order_id (resting (record lo { qty = n })) orders
                  ∙ rw (other_id i x old ne) f,
              below,
              some_qty,
            )
      ];
      apart = λ i k x y hi hk same. elim (set_from book j (record lo { qty = n }) i x inside hi) [
        | inl (ei, sx) ↦ elim (set_from book j (record lo { qty = n }) k y inside hk) [
          | inl (ek, sy) ↦ ei ∙ sym ek
          | inr (nk, oldk) ↦
              let ids : lo.order_id ≡ x.order_id = ap (λ z. z.order_id) sx in
              ei ∙ sym (v.apart k j y lo oldk there (sym (ids ∙ same)))
        ]
        | inr (ni, oldi) ↦ elim (set_from book j (record lo { qty = n }) k y inside hk) [
          | inl (ek, sy) ↦
              let ids : lo.order_id ≡ y.order_id = ap (λ z. z.order_id) sy in
              v.apart i j x lo oldi there (same ∙ sym ids) ∙ sym ek
          | inr (nk, oldk) ↦ v.apart i k x y oldi oldk same
        ]
      ];
      known = λ id x found. elim (Bool-cases (lo.order_id == id)) [
        | inl e ↦ (
          j,
          record lo { qty = n },
          ground (arith, get_elem?-set_elem book j (record lo { qty = n }) j, inside),
          ground arith,
        )
        | inr e ↦
            let (i, o, at, same) = v.known id x (
              ground
                (arith, find-insert lo.order_id id (resting (record lo { qty = n })) orders)) in
            let apart : i ≢ j = λ f. ground (arith, at, there, same, e, ap (get_elem? book) f) in
            (
              i,
              o,
              ground (arith, get_elem?-set_elem book j (record lo { qty = n }) i, apart, at),
              same,
            )
      ];
      distinct = insert-Distinct lo.order_id (resting (record lo { qty = n })) orders v.distinct;
    }
