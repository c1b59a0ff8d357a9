-- ===== src/Ring/Safety.antt =====
-- What the callers of include/ring_buffer.hpp rely on, in whatever order the steps of the two threads
-- come.
use exchange_market_data_dec.Prelude.{
  ℕ, ◌+◌, ◌<◌, ◌≡◌, ◌≢◌, ◌↔◌, sym, ◌∙◌, subst, ap, List, ◌++◌, length, arith,
}
use exchange_market_data_dec.Ring.{System, Reach, PushPc, PopPc, next}
use exchange_market_data_dec.Ring.Window.{window, length-window}
use exchange_market_data_dec.Ring.Invariant.{
  IsProducerAt, IsConsumerAt, laid_apart, laid_full, laid_empty, length-laid,
}
use exchange_market_data_dec.Ring.Steps.{IsConsistent, start_with-IsConsistent, Step-IsConsistent}

module _ {T : Type 0} (c : ℕ) (b : ℕ → T) (pos : 0 < c) where
  pub Reach-IsConsistent : (s : System T) → Reach c b s → IsConsistent c s
  Reach-IsConsistent s Reach.start = start_with-IsConsistent c b pos
  Reach-IsConsistent t (Reach.later {s} r step) =
      Step-IsConsistent c s t step (Reach-IsConsistent s r)

  -- In every state that the steps of one producer and one consumer reach, in any order, the items
  -- popped are the first of the items pushed, in the same order, and fewer than the capacity are
  -- pushed and not popped yet.
  pub popped-IsPrefix :
      (s : System T)
      → Reach c b s
      → (rest : List T) × (s.pushed ≡ s.popped ++ rest) × (length rest < c)
  popped-IsPrefix s r =
      let (k, n, l, m, o) = Reach-IsConsistent s r in
      (
        window c s.buffer k n,
        l.items,
        subst (λ i. i < c) (sym (length-window c s.buffer k n)) l.room,
      )

  -- In every reachable state, whenever the producer is about to write a slot and the consumer is about
  -- to read one, the two slots differ: the plain accesses of `buffer_` do not race.
  pub no_race :
      (s : System T) (x : T) (h t : ℕ)
      → Reach c b s
      → s.producer ≡ PushPc.writing x h
      → s.consumer ≡ PopPc.reading t
      → h ≢ t
  no_race s x h t r p q e =
      let (k, n, l, m, o) = Reach-IsConsistent s r in
      let producer : (h ≡ s.head) × (n + 1 < c) = subst (IsProducerAt c s.buffer s.head n) p m in
      let consumer : (t ≡ s.tail) × (0 < n) = subst (IsConsumerAt s.buffer s.tail n) q o in
      laid_apart c s.buffer s.head s.tail s.pushed s.popped k n l consumer.1
        (sym producer.0 ∙ e ∙ consumer.0)

  -- In every reachable state in which both have loaded their own index, `push` finds the buffer full exactly
  -- when one item less than the capacity is pushed and not popped yet, and `pop` finds it empty exactly when
  -- none is, where each load of the other thread's index returns the value stored last. An acquire load of
  -- the source may return an older index, so there `push` can report full and `pop` empty when that holds
  -- no longer.
  pub verdicts_exact :
      (s : System T) (x : T) (h t : ℕ)
      → Reach c b s
      → s.producer ≡ PushPc.loaded x h
      → s.consumer ≡ PopPc.loaded t
      → ((next c h ≡ s.tail) ↔ (length s.pushed + 1 ≡ length s.popped + c))
        × ((t ≡ s.head) ↔ (length s.pushed ≡ length s.popped))
  verdicts_exact s x h t r p q =
      let (k, n, l, m, o) = Reach-IsConsistent s r in
      let producer : h ≡ s.head = subst (IsProducerAt c s.buffer s.head n) p m in
      let consumer : t ≡ s.tail = subst (IsConsumerAt s.buffer s.tail n) q o in
      let left : length s.pushed ≡ length s.popped + n =
        length-laid c s.buffer s.head s.tail s.pushed s.popped k n l in
      let full : (next c s.head ≡ s.tail) ↔ (n + 1 ≡ c) =
        laid_full c s.buffer s.head s.tail s.pushed s.popped k n l in
      let empty : (s.tail ≡ s.head) ↔ (n ≡ 0) =
        laid_empty c s.buffer s.head s.tail s.pushed s.popped k n l in
      (
        (
          λ e. omega (arith, left, full.0 (ap (next c) (sym producer) ∙ e)),
          λ e. ap (next c) producer ∙ full.1 (omega (arith, left, e)),
        ),
        (
          λ e. omega (arith, left, empty.0 (sym consumer ∙ e)),
          λ e. consumer ∙ empty.1 (omega (arith, left, e)),
        ),
      )
