-- ===== src/Map.antt =====
-- std::unordered_map as the code uses it: `find`, `m[k] = v`, `erase` and the walk over all values.
-- An association list; the order of its entries is nothing that the code relies on.
pub mod Laws
use exchange_market_data_dec.Prelude.{ℕ, ◌+◌, Option, none, some, List, [], ◌∷◌, if◌then◌else◌, Eq}

abbrev pub Map {ℓ κ} : Type ℓ → Type κ → Type (ℓ ⊔ κ)
Map K V = List (K × V)

module _ {ℓ κ} {K : Type ℓ} {V : Type κ} ⦃e : Eq K⦄ where
  unfoldable pub find : K → Map K V → Option V
  find k [] = none
  find k ((j, v) ∷ m) = if e.beq j k then some v else find k m

  -- `m[k] = v`
  unfoldable pub insert : K → V → Map K V → Map K V
  insert k v [] = (k, v) ∷ []
  insert k v ((j, w) ∷ m) = if e.beq j k then (j, v) ∷ m else (j, w) ∷ insert k v m

  unfoldable pub erase : K → Map K V → Map K V
  erase k [] = []
  erase k ((j, w) ∷ m) = if e.beq j k then m else (j, w) ∷ erase k m

module _ {ℓ κ} {K : Type ℓ} {V : Type κ} where
  -- the sum of a weight over all values
  unfoldable pub total : (V → ℕ) → Map K V → ℕ
  total w [] = 0
  total w ((k, v) ∷ m) = w v + total w m
