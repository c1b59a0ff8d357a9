-- ===== src/Prelude/Vectors.antt =====
-- std::vector as a list: a write at an index, `back` and `pop_back`, and what each index holds after it.
use Prim.Native.Nat.{ℕ, zero, suc, ◌+◌, ◌-◌, ◌<◌}
use mathlib.Core.Path.{◌≡◌, refl}
use mathlib.Core.Logic.{◌≢◌, inl, inr}
use mathlib.Core.Bool.{◌&&◌}
use mathlib.Core.List.{List, [], ◌∷◌, ◌++◌}
use mathlib.Core.Option.{Option, none, some}
use native.Mathlib.Omega.{arith}
use exchange_market_data_dec.Prelude.Tests.{ltb, ◌==◌, if◌then◌else◌, Bool-cases}
use exchange_market_data_dec.Prelude.Lists.{length, get_elem?}

-- A vector that is read at any index, as a function: `v[i] = x`.
abbrev pub put {ℓ} : {A : Type ℓ} → (ℕ → A) → ℕ → A → ℕ → A
put v i x j = if i == j then x else v j

pub put_same {ℓ} : {A : Type ℓ} (v : ℕ → A) (i : ℕ) (x : A) → put v i x i ≡ x
put_same v i x = ground arith

pub put_other {ℓ} : {A : Type ℓ} (v : ℕ → A) (i : ℕ) (x : A) (j : ℕ) → i ≢ j → put v i x j ≡ v j
put_other v i x j h = ground arith

pub put-ind {ℓ μ} :
    {A : Type ℓ} (P : A → Type μ) (v : ℕ → A) (i : ℕ) (x : A) (j : ℕ)
    → (i ≡ j → P x)
    → (i ≢ j → P (v j))
    → P (put v i x j)
put-ind P v i x j new old = elim (Bool-cases (i == j)) [
  | inl h ↦ rw h (new (ground arith))
  | inr h ↦ rw h (old (ground arith))
]

module _ {ℓ} {A : Type ℓ} where
  -- A write out of bounds changes nothing.
  abbrev pub set_elem : List A → ℕ → A → List A
  set_elem [] i v = []
  set_elem (x ∷ xs) zero v = v ∷ xs
  set_elem (x ∷ xs) (suc i) v = x ∷ set_elem xs i v

  abbrev pub back : List A → Option A
  back [] = none
  back (x ∷ []) = some x
  back (x ∷ y ∷ xs) = back (y ∷ xs)

  abbrev pub pop_back : List A → List A
  pop_back [] = []
  pop_back (x ∷ []) = []
  pop_back (x ∷ y ∷ xs) = x ∷ pop_back (y ∷ xs)

  pub length-set_elem : (xs : List A) (i : ℕ) (v : A) → length (set_elem xs i v) ≡ length xs
  length-set_elem [] i v = refl
  length-set_elem (x ∷ xs) zero v = refl
  length-set_elem (x ∷ xs) (suc i) v = omega (arith, length-set_elem xs i v)

  pub get_elem?-set_elem :
      (xs : List A) (i : ℕ) (v : A) (j : ℕ)
      → get_elem? (set_elem xs i v) j
        ≡ (if i == j && ltb j (length xs) then some v else get_elem? xs j)
  get_elem?-set_elem [] i v j = ground arith
  get_elem?-set_elem (x ∷ xs) zero v zero = ground arith
  get_elem?-set_elem (x ∷ xs) zero v (suc j) = ground arith
  get_elem?-set_elem (x ∷ xs) (suc i) v zero = ground arith
  get_elem?-set_elem (x ∷ xs) (suc i) v (suc j) = ground (arith, get_elem?-set_elem xs i v j)

  pub get_elem?-pop_back :
      (xs : List A) (j : ℕ)
      → get_elem? (pop_back xs) j ≡ (if ltb (j + 1) (length xs) then get_elem? xs j else none)
  get_elem?-pop_back [] j = ground arith
  get_elem?-pop_back (x ∷ []) j = ground arith
  get_elem?-pop_back (x ∷ y ∷ xs) zero = ground arith
  get_elem?-pop_back (x ∷ y ∷ xs) (suc j) = ground (arith, get_elem?-pop_back (y ∷ xs) j)

  pub get_elem?-back : (xs : List A) → get_elem? xs (length xs - 1) ≡ back xs
  get_elem?-back [] = refl
  get_elem?-back (x ∷ []) = refl
  get_elem?-back (x ∷ y ∷ xs) = ground (arith, get_elem?-back (y ∷ xs))

  pub get_elem?-push_back :
      (xs : List A) (v : A) (j : ℕ)
      → get_elem? (xs ++ v ∷ []) j ≡ (if j == length xs then some v else get_elem? xs j)
  get_elem?-push_back [] v zero = refl
  get_elem?-push_back [] v (suc j) = ground arith
  get_elem?-push_back (x ∷ xs) v zero = ground arith
  get_elem?-push_back (x ∷ xs) v (suc j) = ground (arith, get_elem?-push_back xs v j)

  pub get_elem?_lt : (xs : List A) (j : ℕ) {v : A} → get_elem? xs j ≡ some v → j < length xs
  get_elem?_lt [] j h = ground arith
  get_elem?_lt (x ∷ xs) zero h = omega arith
  get_elem?_lt (x ∷ xs) (suc j) h = omega (arith, get_elem?_lt xs j h)

  pub get_elem?-some : (xs : List A) (j : ℕ) → j < length xs → (v : A) × (get_elem? xs j ≡ some v)
  get_elem?-some [] j h = absurd (omega arith)
  get_elem?-some (x ∷ xs) zero h = (x, refl)
  get_elem?-some (x ∷ xs) (suc j) h = get_elem?-some xs j (omega arith)
