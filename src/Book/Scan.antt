-- ===== src/Book/Scan.antt =====
-- The two loops of OrderBook::reduce (include/order_book.hpp) that look for the next best level, and
-- what it means for an index to be the best one.
use exchange_market_data_dec.Prelude.{
  ℕ, zero, suc, ◌+◌, ◌-◌, ◌≤◌, ◌<◌, ℤ, pos, negsuc, ltb_ℤ, ◌==ℤ◌, ◌&&◌, ◌≡◌, refl, ◌≢◌, inl, inr,
  arith, ltb, ◌==◌, if◌then◌else◌, Bool-cases,
}
use exchange_market_data_dec.Book.{Levels, k_levels, update, clamped_sub, scan_down, scan_up}

-- Every level from `lo` on and below `hi` is empty.
abbrev pub IsEmptyBetween : Levels → ℕ → ℕ → Type 0
IsEmptyBetween q lo hi = (j : ℕ) → lo ≤ j → j < hi → q j ≡ 0

-- The highest index with quantity, or -1 where there is none.
abbrev pub IsTopBid : Levels → ℤ → Type 0
IsTopBid q (pos i) = (i < k_levels) × (q i ≢ 0) × IsEmptyBetween q (suc i) k_levels
IsTopBid q (negsuc n) = (n ≡ 0) × IsEmptyBetween q 0 k_levels

-- The lowest index with quantity, or kLevels where there is none.
abbrev pub IsTopAsk : Levels → ℕ → Type 0
IsTopAsk q i = (i ≤ k_levels) × (i < k_levels → q i ≢ 0) × IsEmptyBetween q 0 i

pub scan_down-IsTopBid :
    (q : Levels) (n : ℕ)
    → n < k_levels
    → IsEmptyBetween q (suc n) k_levels
    → IsTopBid q (scan_down q n)
unfolding scan_down
scan_down-IsTopBid q zero h e = elim (Bool-cases (q 0 == 0)) [
  | inl p ↦ rw p (refl, λ j lo hi. ground (arith, e j))
  | inr p ↦ rw p (h, ground arith, e)
]
scan_down-IsTopBid q (suc n) h e = elim (Bool-cases (q (suc n) == 0)) [
  | inl p ↦ rw p (scan_down-IsTopBid q n (omega arith) (λ j lo hi. ground (arith, e j)))
  | inr p ↦ rw p (h, ground arith, e)
]

pub scan_up-IsTopAsk :
    (q : Levels) (rounds i : ℕ)
    → i + rounds ≡ k_levels
    → IsEmptyBetween q 0 i
    → IsTopAsk q (scan_up q rounds i)
unfolding scan_up
scan_up-IsTopAsk q zero i h e = (omega arith, λ lt. absurd (omega arith), e)
scan_up-IsTopAsk q (suc rounds) i h e = elim (Bool-cases (q i == 0)) [
  | inl p ↦ rw p (scan_up-IsTopAsk q rounds (i + 1) (omega arith) (λ j lo hi. ground (arith, e j)))
  | inr p ↦ rw p (omega arith, λ lt. ground arith, e)
]

module _ (q : Levels) (idx qty : ℕ) (small : idx < k_levels) where
  -- An addition of some quantity keeps the best bid the best.
  pub add-IsTopBid :
      (best : ℤ)
      → 0 < qty
      → IsTopBid q best
      → IsTopBid (update q idx (q idx + qty)) (if ltb_ℤ best (pos idx) then pos idx else best)
  add-IsTopBid (pos i) h t = elim (Bool-cases (ltb_ℤ (pos i) (pos idx))) [
    | inl p ↦ rw p (small, ground arith, λ j lo hi. ground (arith, t.2 j))
    | inr p ↦ rw p (t.0, ground arith, λ j lo hi. ground (arith, t.2 j))
  ]
  add-IsTopBid (negsuc n) h t = elim (Bool-cases (ltb_ℤ (negsuc n) (pos idx))) [
    | inl p ↦ rw p (small, ground arith, λ j lo hi. ground (arith, t.1 j))
    | inr p ↦ absurd (ground arith)
  ]

  pub add-IsTopAsk :
      (best : ℕ)
      → 0 < qty
      → IsTopAsk q best
      → IsTopAsk (update q idx (q idx + qty)) (if ltb idx best then idx else best)
  add-IsTopAsk i h t = elim (Bool-cases (ltb idx i)) [
    | inl p ↦ rw p (omega arith, λ lt. ground arith, λ j lo hi. ground (arith, t.2 j))
    | inr p ↦ rw p (t.0, λ lt. ground (arith, t.1 lt), λ j lo hi. ground (arith, t.2 j))
  ]

  -- So does a reduction, whatever its quantity.
  pub reduce-IsTopBid :
      (best : ℤ)
      → IsTopBid q best
      → let v = clamped_sub (q idx) qty in
        let level = update q idx v in
        IsTopBid level (if best ==ℤ pos idx && v == 0 then scan_down level idx else best)
  reduce-IsTopBid (pos i) t =
      elim (Bool-cases (pos i ==ℤ pos idx && clamped_sub (q idx) qty == 0)) [
        | inl p ↦ rw p (
            scan_down-IsTopBid (update q idx (clamped_sub (q idx) qty)) idx small
              (λ j lo hi. ground (arith, t.2 j)))
        | inr p ↦ rw p (t.0, ground arith, λ j lo hi. ground (arith, t.2 j))
      ]
  reduce-IsTopBid (negsuc n) t =
      elim (Bool-cases (negsuc n ==ℤ pos idx && clamped_sub (q idx) qty == 0)) [
        | inl p ↦ absurd (ground arith)
        | inr p ↦ rw p (t.0, λ j lo hi. ground (arith, t.1 j))
      ]

  pub reduce-IsTopAsk :
      (best : ℕ)
      → IsTopAsk q best
      → let v = clamped_sub (q idx) qty in
        let level = update q idx v in
        IsTopAsk level (if idx == best && v == 0 then scan_up level (k_levels - idx) idx else best)
  reduce-IsTopAsk i t = elim (Bool-cases (idx == i && clamped_sub (q idx) qty == 0)) [
    | inl p ↦ rw p (
        scan_up-IsTopAsk (update q idx (clamped_sub (q idx) qty)) (k_levels - idx) idx (omega arith)
          (λ j lo hi. ground (arith, t.2 j)))
    | inr p ↦ rw p (t.0, λ lt. ground (arith, t.1 lt), λ j lo hi. ground (arith, t.2 j))
  ]
