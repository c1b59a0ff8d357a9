-- ===== src/Ring/Steps.antt =====
-- The steps of the two threads of include/ring_buffer.hpp, each from a consistent state.
use native.Mathlib.Nat.{mod-eq_of_lt}
use exchange_market_data_dec.Prelude.{
  arith, ℕ, zero, suc, ◌+◌, ◌%◌, ◌<◌, ◌≡◌, ◌≢◌, refl, sym, ap, subst, ◌++◌, ◌∷◌, [], put, put_same,
}
use exchange_market_data_dec.Ring.{System, Step, next, start_with}
use exchange_market_data_dec.Ring.Invariant.{
  IsProducerAt, IsConsumerAt, IsLaidOut, room_left, item_left, consumer-put, consumer_more,
  producer_less, laid_apart, laid-put, laid_push, laid_pop,
}

module _ {T : Type 0} (c : ℕ) where
  abbrev pub IsConsistent : System T → Type 0
  IsConsistent s =
      (k : ℕ) × (n : ℕ) × IsLaidOut c s.buffer s.head s.tail s.pushed s.popped k n
      × IsProducerAt c s.buffer s.head n s.producer
      × IsConsumerAt s.buffer s.tail n s.consumer

  pub start_with-IsConsistent : (b : ℕ → T) → 0 < c → IsConsistent (start_with c b)
  start_with-IsConsistent b pos =
      (0, 0, record { head_at = first; tail_at = first; room = pos; items = refl }, tt, tt)
    where
      first : 0 ≡ 0 % c
      first = sym (mod-eq_of_lt pos)

  pub Step-IsConsistent : (s t : System T) → Step c s t → IsConsistent s → IsConsistent t
  Step-IsConsistent s t (Step.load_head x p) (k, n, l, m, o) = (k, n, l, refl, o)
  Step-IsConsistent s t (Step.push_full x h p f) (k, n, l, m, o) = (k, n, l, tt, o)
  Step-IsConsistent s t (Step.push_room x h p f) (k, n, l, m, o) =
      let at : h ≡ s.head = subst (IsProducerAt c s.buffer s.head n) p m in
      (
        k,
        n,
        l,
        (
          at,
          room_left c s.buffer s.head s.tail s.pushed s.popped k n l
              (subst (λ i. next c i ≢ s.tail) at f),
        ),
        o,
      )
  Step-IsConsistent s t (Step.write_slot x h p) (k, n, l, m, o) =
      let here : (h ≡ s.head) × (n + 1 < c) = subst (IsProducerAt c s.buffer s.head n) p m in
      (
        k,
        n,
        subst (λ i. IsLaidOut c (put s.buffer i x) s.head s.tail s.pushed s.popped k n) (sym here.0)
            (laid-put c s.buffer s.head s.tail s.pushed s.popped k n l x),
        (
          here.0,
          here.1,
          subst (λ i. put s.buffer i x s.head ≡ x) (sym here.0) (put_same s.buffer s.head x),
        ),
        consumer-put s.buffer s.tail n h x s.consumer
            (λ pos.
              subst (λ i. i ≢ s.tail) (sym here.0)
                (laid_apart c s.buffer s.head s.tail s.pushed s.popped k n l pos))
            o,
      )
  Step-IsConsistent s t (Step.store_head x h p) (k, n, l, m, o) =
      let here : (h ≡ s.head) × (n + 1 < c) × (s.buffer s.head ≡ x) =
        subst (IsProducerAt c s.buffer s.head n) p m in
      (
        k,
        suc n,
        subst (λ i. IsLaidOut c s.buffer (next c i) s.tail (s.pushed ++ x ∷ []) s.popped k (suc n))
            (sym here.0)
            (laid_push c s.buffer s.head s.tail s.pushed s.popped k n l x here.1 here.2),
        tt,
        consumer_more s.buffer s.tail n s.consumer o,
      )
  Step-IsConsistent s t (Step.load_tail p) (k, n, l, m, o) = (k, n, l, m, refl)
  Step-IsConsistent s t (Step.pop_empty u p f) (k, n, l, m, o) = (k, n, l, m, tt)
  Step-IsConsistent s t (Step.pop_item u p f) (k, n, l, m, o) =
      let at : u ≡ s.tail = subst (IsConsumerAt s.buffer s.tail n) p o in
      (
        k,
        n,
        l,
        m,
        (
          at,
          item_left c s.buffer s.head s.tail s.pushed s.popped k n l (subst (λ i. i ≢ s.head) at f),
        ),
      )
  Step-IsConsistent s t (Step.read_slot u p) (k, n, l, m, o) =
      let at : (u ≡ s.tail) × (0 < n) = subst (IsConsumerAt s.buffer s.tail n) p o in
      (k, n, l, m, (at.0, at.1, ap s.buffer at.0))
  Step-IsConsistent s t (Step.store_tail u x p) (k, zero, l, m, o) =
      let here : (u ≡ s.tail) × (0 < 0) × (x ≡ s.buffer s.tail) =
        subst (IsConsumerAt s.buffer s.tail 0) p o in
      absurd (omega (arith, here.1))
  Step-IsConsistent s t (Step.store_tail u x p) (k, suc n, l, m, o) =
      let here : (u ≡ s.tail) × (0 < suc n) × (x ≡ s.buffer s.tail) =
        subst (IsConsumerAt s.buffer s.tail (suc n)) p o in
      (
        k + 1,
        n,
        subst (λ i. IsLaidOut c s.buffer s.head (next c i) s.pushed (s.popped ++ x ∷ []) (k + 1) n)
            (sym here.0) (laid_pop c s.buffer s.head s.tail s.pushed s.popped k n l x here.2),
        producer_less c s.buffer s.head n s.producer m,
        tt,
      )
