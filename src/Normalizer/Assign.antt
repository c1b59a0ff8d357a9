-- ===== src/Normalizer/Assign.antt =====
-- The constructor of include/normalizer.hpp: which shard and which book of it an instrument gets.
use native.Mathlib.Nat.{mod-eq_of_lt, mod-le}
use exchange_market_data_dec.Prelude.{
  ℕ, zero, suc, ◌%◌, ◌^◌, ◌≤◌, ◌<◌, ◌≡◌, ◌≢◌, refl, arith, ◌==◌, inl, inr, Bool-cases, [],
}
use exchange_market_data_dec.Book.{new_book}
use exchange_market_data_dec.Normalizer.{Shard, Normalizer, assign, assign_all}

-- The first `count` instruments have their books: those of a shard differ, and are in range.
pub record IsAssigned (num_shards : ℕ) (n : Normalizer) (count : ℕ) : Type 0 where
  pub shard : (i : ℕ) → i < count → n.instrument_to_shard i ≡ i % num_shards
  pub below : (i : ℕ) → i < count → n.instrument_to_local i < (n.shards (i % num_shards)).book_count
  pub apart :
      (i j : ℕ)
      → i < count
      → j < count
      → i ≢ j
      → i % num_shards ≡ j % num_shards
      → n.instrument_to_local i ≢ n.instrument_to_local j
  pub counted : (s : ℕ) → (n.shards s).book_count ≤ count

pub assign-IsAssigned :
    (num_shards i : ℕ) (n : Normalizer)
    → i < 2 ^ 16
    → IsAssigned num_shards n i
    → IsAssigned num_shards (assign num_shards i n) (suc i)
unfolding assign
assign-IsAssigned num_shards i n small a = record {
  shard = λ j lt. ground (arith, whole, a.shard j);
  below = λ j lt. ground (arith, room, a.below j);
  apart = λ j k hj hk ne same. ground (arith, room, a.below j, a.below k, a.apart j k);
  counted = λ s. ground (arith, a.counted s);
}
  where
    whole : i % num_shards % 2 ^ 16 ≡ i % num_shards
    whole = mod-eq_of_lt (omega (arith, mod-le i num_shards))

    room : (n.shards (i % num_shards)).book_count % 2 ^ 16 ≡ (n.shards (i % num_shards)).book_count
    room = mod-eq_of_lt (omega (arith, a.counted (i % num_shards)))

-- After the constructor's first rounds, at most 2^16, each instrument has the shard of its number modulo
-- the number of shards and a book within that shard, and no two instruments share a book.
pub assign_all-IsAssigned :
    (num_shards count : ℕ)
    → count ≤ 2 ^ 16
    → IsAssigned num_shards (assign_all num_shards count) count
unfolding assign_all
assign_all-IsAssigned num_shards zero h = record {
  shard = λ i lt. absurd (omega arith);
  below = λ i lt. absurd (omega arith);
  apart = λ i j lt. absurd (omega arith);
  counted = λ s. omega arith;
}
assign_all-IsAssigned num_shards (suc count) h =
    assign-IsAssigned num_shards count (assign_all num_shards count) (omega arith)
      (assign_all-IsAssigned num_shards count (omega arith))

-- Before any message no shard has orders or items, and its books are new ones.
abbrev pub IsBlank : Shard → Type 0
IsBlank s = ((i : ℕ) → s.books i ≡ new_book) × (s.orders ≡ []) × (s.queue ≡ [])

pub assign_all-IsBlank : (num_shards count s : ℕ) → IsBlank ((assign_all num_shards count).shards s)
unfolding assign_all assign
assign_all-IsBlank num_shards zero s = (λ i. refl, refl, refl)
assign_all-IsBlank num_shards (suc count) s = elim (Bool-cases (count % num_shards == s)) [
  | inl e ↦
      let old : IsBlank ((assign_all num_shards count).shards (count % num_shards)) =
        assign_all-IsBlank num_shards count (count % num_shards) in
      rw e (λ i. ground (arith, old.0 i), old.1, old.2)
  | inr e ↦ rw e (assign_all-IsBlank num_shards count s)
]
