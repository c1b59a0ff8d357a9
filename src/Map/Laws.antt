-- ===== src/Map/Laws.antt =====
-- Laws of the maps: lookups after an update, sums after an update, and properties of all values.
use exchange_market_data_dec.Prelude.{
  ℕ, ◌+◌, ◌≡◌, refl, false, inl, inr, none, some, [], ◌∷◌, arith, if◌then◌else◌, Eq, Bool-cases,
  subst, ap, ◌⊎◌, ◌≤◌,
}
use exchange_market_data_dec.Map.{Map, find, insert, erase, total}

module _ {ℓ κ} {K : Type ℓ} {V : Type κ} ⦃e : Eq K⦄ where
  pub find-insert :
      (k j : K) (v : V) (m : Map K V)
      → find j (insert k v m) ≡ (if e.beq k j then some v else find j m)
  unfolding find insert
  find-insert k j v [] = refl
  find-insert k j v ((i, w) ∷ m) =
      ground (arith, e.beq_iff k j, e.beq_iff i k, e.beq_iff i j, find-insert k j v m)

  pub find-erase_ne : (k j : K) (m : Map K V) → e.beq k j ≡ false → find j (erase k m) ≡ find j m
  unfolding find erase
  find-erase_ne k j [] h = refl
  find-erase_ne k j ((i, w) ∷ m) h =
      ground (arith, e.beq_iff k j, e.beq_iff i k, e.beq_iff i j, find-erase_ne k j m h)

  -- Every key has one entry.
  abbrev pub Distinct : Map K V → Type κ
  Distinct [] = Unit
  Distinct ((k, v) ∷ m) = (find k m ≡ none) × Distinct m

  pub find-erase_self : (k : K) (m : Map K V) → Distinct m → find k (erase k m) ≡ none
  unfolding find erase
  find-erase_self k [] d = refl
  find-erase_self k ((i, w) ∷ m) d = elim (Bool-cases (e.beq i k)) [
    | inl p ↦ rw (p, ← (e.beq_iff i k).0 p) d.0
    | inr p ↦ rw (p, p) (find-erase_self k m d.1)
  ]

  pub insert-Distinct : (k : K) (v : V) (m : Map K V) → Distinct m → Distinct (insert k v m)
  unfolding insert find
  insert-Distinct k v [] d = (refl, tt)
  insert-Distinct k v ((i, w) ∷ m) d = elim (Bool-cases (e.beq i k)) [
    | inl p ↦ rw p d
    | inr p ↦ rw p (
      ground (arith, find-insert k i v m, d.0, e.beq_iff k i, e.beq_iff i k),
      insert-Distinct k v m d.1,
    )
  ]

  pub erase-Distinct : (k : K) (m : Map K V) → Distinct m → Distinct (erase k m)
  unfolding erase find
  erase-Distinct k [] d = d
  erase-Distinct k ((i, w) ∷ m) d = elim (Bool-cases (e.beq i k)) [
    | inl p ↦ rw p d.1
    | inr p ↦ rw p (
      ground (arith, find-erase_ne k i m, d.0, e.beq_iff k i, e.beq_iff i k),
      erase-Distinct k m d.1,
    )
  ]

  pub total-insert_fresh :
      (w : V → ℕ) (k : K) (v : V) (m : Map K V)
      → find k m ≡ none
      → total w (insert k v m) ≡ total w m + w v
  unfolding find insert total
  total-insert_fresh w k v [] h = ground arith
  total-insert_fresh w k v ((i, u) ∷ m) h = ground (arith, total-insert_fresh w k v m)

  pub total-insert_live :
      (w : V → ℕ) (k : K) (v u : V) (m : Map K V)
      → find k m ≡ some u
      → total w (insert k v m) + w u ≡ total w m + w v
  unfolding find insert total
  total-insert_live w k v u [] h = cc
  total-insert_live w k v u ((i, x) ∷ m) h = ground (arith, total-insert_live w k v u m)

  pub total-erase :
      (w : V → ℕ) (k : K) (u : V) (m : Map K V)
      → find k m ≡ some u
      → total w (erase k m) + w u ≡ total w m
  unfolding find erase total
  total-erase w k u [] h = cc
  total-erase w k u ((i, x) ∷ m) h = ground (arith, total-erase w k u m)

  -- A property of all values.
  abbrev pub AllValues {μ} : (V → Type μ) → Map K V → Type μ
  AllValues P [] = Unit
  AllValues P ((k, v) ∷ m) = P v × AllValues P m

  pub insert-AllValues {μ} :
      (P : V → Type μ) (k : K) (v : V) (m : Map K V)
      → P v
      → AllValues P m
      → AllValues P (insert k v m)
  unfolding insert
  insert-AllValues P k v [] h a = (h, tt)
  insert-AllValues P k v ((i, x) ∷ m) h a = elim (Bool-cases (e.beq i k)) [
    | inl p ↦ rw p (h, a.1)
    | inr p ↦ rw p (a.0, insert-AllValues P k v m h a.1)
  ]

  pub erase-AllValues {μ} :
      (P : V → Type μ) (k : K) (m : Map K V) → AllValues P m → AllValues P (erase k m)
  unfolding erase
  erase-AllValues P k [] a = a
  erase-AllValues P k ((i, x) ∷ m) a = elim (Bool-cases (e.beq i k)) [
    | inl p ↦ rw p a.1
    | inr p ↦ rw p (a.0, erase-AllValues P k m a.1)
  ]

  pub find-AllValues {μ} :
      (P : V → Type μ) (k : K) {v : V} (m : Map K V) → find k m ≡ some v → AllValues P m → P v
  unfolding find
  find-AllValues P k [] h a = cc
  find-AllValues P k {v} ((i, x) ∷ m) h a = elim (Bool-cases (e.beq i k)) [
    | inl p ↦ let same : x ≡ v = ground arith in subst P same a.0
    | inr p ↦ find-AllValues P k m (rw p at h) a.1
  ]

  -- A value that is found weighs no more than the whole.
  pub le-total : (w : V → ℕ) (k : K) (v : V) (m : Map K V) → find k m ≡ some v → w v ≤ total w m
  unfolding find total
  le-total w k v [] h = cc
  le-total w k v ((i, x) ∷ m) h = ground (arith, le-total w k v m)

module _ {ℓ κ} {K : Type ℓ} {V : Type κ} where
  pub total-ext : (w u : V → ℕ) (m : Map K V) → ((v : V) → w v ≡ u v) → total w m ≡ total u m
  unfolding total
  total-ext w u [] h = refl
  total-ext w u ((k, v) ∷ m) h = ground (arith, h v, total-ext w u m h)

-- The values of a map, each replaced by its image.
module _ {ℓ κ} {K : Type ℓ} {V W : Type κ} where
  unfoldable pub map_values : (V → W) → Map K V → Map K W
  map_values f [] = []
  map_values f ((k, v) ∷ m) = (k, f v) ∷ map_values f m

module _ {ℓ κ} {K : Type ℓ} {V W : Type κ} (f : V → W) ⦃e : Eq K⦄ where
  pub insert-map_values :
      (k : K) (v : V) (m : Map K V) → insert k (f v) (map_values f m) ≡ map_values f (insert k v m)
  unfolding insert map_values
  insert-map_values k v [] = refl
  insert-map_values k v ((i, x) ∷ m) = elim (Bool-cases (e.beq i k)) [
    | inl p ↦ rw p refl
    | inr p ↦ rw p (ap (◌∷◌ (i, f x)) (insert-map_values k v m))
  ]

  pub erase-map_values : (k : K) (m : Map K V) → erase k (map_values f m) ≡ map_values f (erase k m)
  unfolding erase map_values
  erase-map_values k [] = refl
  erase-map_values k ((i, x) ∷ m) = elim (Bool-cases (e.beq i k)) [
    | inl p ↦ rw p refl
    | inr p ↦ rw p (ap (◌∷◌ (i, f x)) (erase-map_values k m))
  ]

  -- a lookup in them, on either outcome
  pub find-map_values :
      (k : K) (m : Map K V)
      → ((find k m ≡ none) × (find k (map_values f m) ≡ none))
        ⊎ ((v : V) × (find k m ≡ some v) × (find k (map_values f m) ≡ some (f v)))
  unfolding find map_values
  find-map_values k [] = inl (refl, refl)
  find-map_values k ((i, x) ∷ m) = elim (Bool-cases (e.beq i k)) [
    | inl p ↦ rw p (inr (x, refl, refl))
    | inr p ↦ rw p (find-map_values k m)
  ]
