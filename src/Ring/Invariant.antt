-- ===== src/Ring/Invariant.antt =====
-- The state of include/ring_buffer.hpp between any two steps of its two threads.
use native.Mathlib.Nat.{suc-mod, add-mod_right}
use mathlib.Core.List.{append_assoc}
use exchange_market_data_dec.Prelude.{
  ℕ, suc, ◌+◌, ◌%◌, ◌<◌, ◌≡◌, ◌≢◌, refl, sym, ◌∙◌, ap, subst, List, [], ◌∷◌, ◌++◌, arith, inl, inr,
  Bool-cases, ltb, length, length-append, ◌↔◌, put, put_other,
}
use exchange_market_data_dec.Ring.{PushPc, PopPc, next}
use exchange_market_data_dec.Ring.Window.{window, window-snoc, length-window, window-put, mod-apart}

pub next_mod : (c h k : ℕ) → h ≡ k % c → next c h ≡ (k + 1) % c
next_mod c h k e =
    ap (λ i. (i + 1) % c) e ∙ ap (λ i. i % c) add_one ∙ sym (suc-mod k c) ∙ ap (λ i. i % c) suc_add
  where
    add_one : k % c + 1 ≡ suc (k % c)
    add_one = omega arith

    suc_add : suc k ≡ k + 1
    suc_add = omega arith

module _ {T : Type 0} (c : ℕ) where
  -- What the producer's local variables say, with `n` items in the buffer.
  abbrev pub IsProducerAt : (ℕ → T) → ℕ → ℕ → PushPc T → Type 0
  IsProducerAt b head n PushPc.idle = Unit
  IsProducerAt b head n (PushPc.loaded x h) = h ≡ head
  IsProducerAt b head n (PushPc.writing x h) = (h ≡ head) × (n + 1 < c)
  IsProducerAt b head n (PushPc.storing x h) = (h ≡ head) × (n + 1 < c) × (b head ≡ x)

  -- The items not yet popped are the `n` in the slots from `tail`, where `k` numbers the first of
  -- them, and one slot stays free.
  pub record IsLaidOut (b : ℕ → T) (head tail : ℕ) (pushed popped : List T) (k n : ℕ) : Type 0 where
    pub head_at : head ≡ (k + n) % c
    pub tail_at : tail ≡ k % c
    pub room : n < c
    pub items : pushed ≡ popped ++ window c b k n

-- What the consumer's local variables say, with `n` items in the buffer.
abbrev pub IsConsumerAt : {T : Type 0} → (ℕ → T) → ℕ → ℕ → PopPc T → Type 0
IsConsumerAt b tail n PopPc.idle = Unit
IsConsumerAt b tail n (PopPc.loaded t) = t ≡ tail
IsConsumerAt b tail n (PopPc.reading t) = (t ≡ tail) × (0 < n)
IsConsumerAt b tail n (PopPc.storing t x) = (t ≡ tail) × (0 < n) × (x ≡ b tail)

-- The consumer's side is not touched by a write elsewhere,
pub consumer-put :
    {T : Type 0} (b : ℕ → T) (tail n h : ℕ) (x : T) (pc : PopPc T)
    → (0 < n → h ≢ tail)
    → IsConsumerAt b tail n pc
    → IsConsumerAt (put b h x) tail n pc
consumer-put b tail n h x PopPc.idle apart i = i
consumer-put b tail n h x (PopPc.loaded t) apart i = i
consumer-put b tail n h x (PopPc.reading t) apart i = i
consumer-put b tail n h x (PopPc.storing t y) apart i =
    (i.0, i.1, i.2 ∙ sym (put_other b h x tail (apart i.1)))

-- nor by one more item.
pub consumer_more :
    {T : Type 0} (b : ℕ → T) (tail n : ℕ) (pc : PopPc T)
    → IsConsumerAt b tail n pc
    → IsConsumerAt b tail (suc n) pc
consumer_more b tail n PopPc.idle i = i
consumer_more b tail n (PopPc.loaded t) i = i
consumer_more b tail n (PopPc.reading t) i = (i.0, omega arith)
consumer_more b tail n (PopPc.storing t x) i = (i.0, omega arith, i.2)

-- One item less keeps the producer's side.
pub producer_less :
    {T : Type 0} (c : ℕ) (b : ℕ → T) (head n : ℕ) (pc : PushPc T)
    → IsProducerAt c b head (suc n) pc
    → IsProducerAt c b head n pc
producer_less c b head n PushPc.idle i = i
producer_less c b head n (PushPc.loaded x h) i = i
producer_less c b head n (PushPc.writing x h) i = (i.0, omega (arith, i.1))
producer_less c b head n (PushPc.storing x h) i = (i.0, omega (arith, i.1), i.2)

module _ {T : Type 0} (c : ℕ) (b : ℕ → T) (head tail : ℕ) (pushed popped : List T) (k n : ℕ)
    (l : IsLaidOut c b head tail pushed popped k n) where
  -- The slot at `head` is not the one at `tail` while there are items.
  pub laid_apart : 0 < n → head ≢ tail
  laid_apart pos e =
      mod-apart c k (k + n) (omega arith) (omega (arith, l.room)) (sym l.head_at ∙ e ∙ l.tail_at)

  -- A full buffer is one whose next index meets `tail`, an empty one has the indices equal.
  pub laid_full : (next c head ≡ tail) ↔ (n + 1 ≡ c)
  laid_full = (
    λ e. elim (Bool-cases (ltb (n + 1) c)) [
      | inl p ↦
          let gap : k + n + 1 < k + c = ground arith in
          absurd (mod-apart c k (k + n + 1) (omega arith) gap (sym later ∙ e ∙ l.tail_at))
      | inr p ↦ let room : n < c = l.room in ground arith
    ],
    λ e.
        let around : k + n + 1 ≡ k + c = omega (arith, e) in
        later ∙ ap (λ i. i % c) around ∙ add-mod_right k c ∙ sym l.tail_at,
  )
    where
      later : next c head ≡ (k + n + 1) % c
      later = next_mod c head (k + n) l.head_at

  pub laid_empty : (tail ≡ head) ↔ (n ≡ 0)
  laid_empty = (
    λ e. elim (Bool-cases (ltb 0 n)) [
      | inl p ↦ absurd (laid_apart (ground arith) (sym e))
      | inr p ↦ ground arith
    ],
    λ e.
        let same : k ≡ k + n = omega (arith, e) in l.tail_at ∙ ap (λ i. i % c) same ∙ sym l.head_at,
  )

  pub room_left : next c head ≢ tail → n + 1 < c
  room_left ne = let not_all : n + 1 ≢ c = λ e. ne (laid_full.1 e) in omega (arith, l.room)

  pub item_left : tail ≢ head → 0 < n
  item_left ne = let some_left : n ≢ 0 = λ e. ne (laid_empty.1 e) in omega arith

  pub length-laid : length pushed ≡ length popped + n
  length-laid =
      ap length l.items
      ∙ length-append popped (window c b k n)
      ∙ ap (◌+◌ (length popped)) (length-window c b k n)

  pub laid-put : (x : T) → IsLaidOut c (put b head x) head tail pushed popped k n
  laid-put x =
      let same : window c (put b head x) k n ≡ window c b k n =
        subst (λ i. window c (put b i x) k n ≡ window c b k n) (sym l.head_at)
          (window-put c b x k n (k + n) (omega arith) (omega (arith, l.room))) in
      record {
        head_at = l.head_at;
        tail_at = l.tail_at;
        room = l.room;
        items = l.items ∙ ap (◌++◌ popped) (sym same);
      }

  pub laid_push :
      (x : T)
      → n + 1 < c
      → b head ≡ x
      → IsLaidOut c b (next c head) tail (pushed ++ x ∷ []) popped k (suc n)
  laid_push x small e =
      let last : window c b k (suc n) ≡ window c b k n ++ x ∷ [] =
        window-snoc c b k n (k + n) refl
        ∙ ap (λ y. window c b k n ++ y ∷ []) (ap b (sym l.head_at) ∙ e) in
      record {
        head_at = next_mod c head (k + n) l.head_at ∙ ap (λ i. i % c) (omega arith);
        tail_at = l.tail_at;
        room = omega (arith, small);
        items =
            ap (λ xs. xs ++ x ∷ []) l.items
            ∙ append_assoc popped (window c b k n) (x ∷ [])
            ∙ ap (◌++◌ popped) (sym last);
      }

module _ {T : Type 0} (c : ℕ) (b : ℕ → T) (head tail : ℕ) (pushed popped : List T) (k n : ℕ)
    (l : IsLaidOut c b head tail pushed popped k (suc n)) where
  pub laid_pop :
      (x : T) → x ≡ b tail → IsLaidOut c b head (next c tail) pushed (popped ++ x ∷ []) (k + 1) n
  laid_pop x e = record {
    head_at = l.head_at ∙ ap (λ i. i % c) (omega arith);
    tail_at = next_mod c tail k l.tail_at;
    room = omega (arith, l.room);
    items =
        l.items
        ∙ sym (
            append_assoc popped (x ∷ []) (window c b (k + 1) n)
            ∙ ap (λ y. popped ++ y ∷ window c b (k + 1) n) (e ∙ ap b l.tail_at));
  }
