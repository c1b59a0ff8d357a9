-- ===== src/Ring/Window.antt =====
-- The slots of include/ring_buffer.hpp from an index on, going round at the capacity.
use native.Mathlib.Nat.{div-add-mod, mul-suc, mul-le-mul_left}
use exchange_market_data_dec.Prelude.{
  ℕ, zero, suc, ◌+◌, ◌-◌, ◌*◌, ◌/◌, ◌%◌, ◌≤◌, ◌<◌, ◌≡◌, ◌≢◌, refl, List, [], ◌∷◌, ◌++◌, arith, ap,
  ap₂, inl, inr, ◌∙◌, sym, Bool-cases, ltb, length, put, put_other,
}

-- Two numbers less than the capacity apart have different slots.
pub mod-ne : (c k d : ℕ) → 0 < d → d < c → k % c ≢ (k + d) % c
mod-ne c k d pos small e = elim (Bool-cases (ltb (k / c) ((k + d) / c))) [
  | inl h ↦
      let far : c * suc (k / c) ≤ c * ((k + d) / c) = mul-le-mul_left c (ground arith) in
      omega (arith, far, e, mul-suc c (k / c), div-add-mod k c, div-add-mod (k + d) c)
  | inr h ↦
      let near : c * ((k + d) / c) ≤ c * (k / c) = mul-le-mul_left c (ground arith) in
      omega (arith, near, e, div-add-mod k c, div-add-mod (k + d) c)
]

pub mod-apart : (c k m : ℕ) → k < m → m < k + c → m % c ≢ k % c
mod-apart c k m h lt e =
    mod-ne c k (m - k) (omega arith) (omega arith) (sym e ∙ ap (λ i. i % c) same)
  where
    same : m ≡ k + (m - k)
    same = omega arith

module _ {T : Type 0} (c : ℕ) where
  -- the `n` items from number `k` on
  abbrev pub window : (ℕ → T) → ℕ → ℕ → List T
  window b k zero = []
  window b k (suc n) = b (k % c) ∷ window b (k + 1) n

  pub window-snoc :
      (b : ℕ → T) (k n m : ℕ) → m ≡ k + n → window b k (suc n) ≡ window b k n ++ b (m % c) ∷ []
  window-snoc b k zero m e = ap (λ i. b (i % c) ∷ []) (omega arith)
  window-snoc b k (suc n) m e = ap (◌∷◌ (b (k % c))) (window-snoc b (k + 1) n m (omega arith))

  -- A write outside the window changes nothing in it.
  pub window-put :
      (b : ℕ → T) (x : T) (k n m : ℕ)
      → k + n ≤ m
      → m < k + c
      → window (put b (m % c) x) k n ≡ window b k n
  window-put b x k zero m le lt = refl
  window-put b x k (suc n) m le lt =
      ap₂ ◌∷◌ (put_other b (m % c) x (k % c) (mod-apart c k m (omega arith) (omega arith)))
        (window-put b x (k + 1) n m (omega arith) (omega arith))

  pub length-window : (b : ℕ → T) (k n : ℕ) → length (window b k n) ≡ n
  length-window b k zero = refl
  length-window b k (suc n) = ap suc (length-window b (k + 1) n)
