-- ===== src/Simulator/Stream.antt =====
-- A whole run of `next_message` (include/market_simulator.hpp).
use mathlib.Core.Path.{fun_ext}
use exchange_market_data_dec.Prelude.{
  ℕ, zero, suc, ◌+◌, ◌^◌, ◌≤◌, ◌<◌, ◌≡◌, ◌≢◌, refl, sym, ◌∙◌, arith, ◌==◌, true, false, Bool-cases,
  subst, inl, inr, some, List, [], ◌∷◌, put-ind, nat_eq,
}
use exchange_market_data_dec.Protocol.{WireMsg}
use exchange_market_data_dec.Replay.{State, apply_to_book, replay, IsConsistent, IsConsistentStream}
use exchange_market_data_dec.Normalizer.{instrument_of}
use exchange_market_data_dec.Normalizer.Serving.{for_instrument}
use exchange_market_data_dec.Normalizer.Sharding.{replay-for_instrument-cons}
use exchange_market_data_dec.Simulator.{
  Random, IsLawful, Simulator, LiveOrder, next_message, stream,
}
use exchange_market_data_dec.Simulator.Flow.{Change, IsSent, IsReady}
use exchange_market_data_dec.Simulator.Messages.{next_message-IsSent}
use exchange_market_data_dec.Simulator.Mirror.{Mirrors}
use exchange_market_data_dec.Simulator.Consistency.{Change-Mirrors}

-- An instrument's state after a message, if the message is its own.
abbrev pub after_message : WireMsg → (ℕ → State) → ℕ → State
after_message m st i = replay (for_instrument i (m ∷ [])) (st i)

pub Change-instrument_of :
    {instr next next' : ℕ} {book book' : List LiveOrder} {m : WireMsg}
    → Change instr book next m book' next'
    → instrument_of m ≡ instr
Change-instrument_of (Change.added o at pos) = refl
Change-instrument_of (Change.executed j n lo there pos le) = refl
Change-instrument_of (Change.canceled j n lo there pos le) = refl
Change-instrument_of (Change.deleted j lo there) = refl
Change-instrument_of (Change.replaced j lo o there at side pos) = refl

pub Change-next :
    {instr next next' : ℕ} {book book' : List LiveOrder} {m : WireMsg}
    → Change instr book next m book' next'
    → (next ≤ next') × (next' ≤ next + 1)
Change-next (Change.added o at pos) = omega arith
Change-next (Change.executed j n lo there pos le) = omega arith
Change-next (Change.canceled j n lo there pos le) = omega arith
Change-next (Change.deleted j lo there) = omega arith
Change-next (Change.replaced j lo o there at side pos) = omega arith

-- A later free id is free too.
pub later-Mirrors :
    (book : List LiveOrder) (next next' : ℕ) (st : State)
    → next ≤ next'
    → Mirrors book next st.orders
    → Mirrors book next' st.orders
later-Mirrors book next next' st le v = record {
  live = λ j o there. let (f, below, pos) = v.live j o there in (f, omega arith, pos);
  apart = v.apart;
  known = v.known;
  distinct = v.distinct;
}

after_message_own :
    (m : WireMsg) (st : ℕ → State) (i : ℕ)
    → instrument_of m ≡ i
    → after_message m st i ≡ apply_to_book m (st i)
unfolding for_instrument replay
after_message_own m st i e = let same : (instrument_of m == i) ≡ true = ground arith in rw same refl

after_message_other :
    (m : WireMsg) (st : ℕ → State) (i : ℕ) → instrument_of m ≢ i → after_message m st i ≡ st i
unfolding for_instrument replay
after_message_other m st i ne =
    let other : (instrument_of m == i) ≡ false = ground arith in rw other refl

module _ (r : Random) where
  -- The live orders of every instrument mirror what rests in its book.
  pub record IsTracked (s : Simulator r) (st : ℕ → State) : Type 0 where
    pub mirrors : (i : ℕ) → Mirrors (s.live_orders i) s.next_order_id (st i).orders
    pub some_instrument : 0 < s.num_instruments
    pub few_instruments : s.num_instruments ≤ 2 ^ 16

  pub IsTracked-IsReady :
      (s : Simulator r) (st : ℕ → State)
      → s.next_order_id + 1 < 2 ^ 64
      → IsTracked s st
      → IsReady r s
  IsTracked-IsReady s st room v = record {
    some_instrument = v.some_instrument;
    few_instruments = v.few_instruments;
    room = room;
    positive = λ i j o there. ((v.mirrors i).live j o there).2;
  }

  pub IsSent-IsTracked :
      (s : Simulator r) (m : WireMsg) (s' : Simulator r) (instr : ℕ) (st : ℕ → State)
      → IsSent r s m s' instr
      → IsTracked s st
      → IsTracked s' (after_message m st)
  IsSent-IsTracked s m s' instr st sent v = record {
    mirrors = λ i.
        let (least, most) = Change-next sent.change in
        subst (λ lives. Mirrors (lives i) s'.next_order_id (after_message m st i).orders)
          (sym sent.live)
          (put-ind (λ b. Mirrors b s'.next_order_id (after_message m st i).orders) s.live_orders
            instr sent.book i
            (λ e.
              subst (λ x. Mirrors sent.book s'.next_order_id x.orders)
                (sym (after_message_own m st i (Change-instrument_of sent.change ∙ e)))
                (subst (λ k. Mirrors sent.book s'.next_order_id (apply_to_book m (st k)).orders) e
                  (Change-Mirrors (s.live_orders instr) s.next_order_id (st instr) (v.mirrors instr)
                    sent.change).1))
            (λ ne.
              subst (λ x. Mirrors (s.live_orders i) s'.next_order_id x.orders)
                (sym (
                  after_message_other m st i
                    (λ e. ne (sym (Change-instrument_of sent.change) ∙ e))))
                (later-Mirrors (s.live_orders i) s.next_order_id s'.next_order_id (st i) least
                  (v.mirrors i))));
    some_instrument = subst (λ n. 0 < n) (sym sent.same) v.some_instrument;
    few_instruments = subst (λ n. n ≤ 2 ^ 16) (sym sent.same) v.few_instruments;
  }

  -- The messages sent are consistent for each instrument's own book, which they are applied to.
  IsSent-IsConsistentStream :
      (s : Simulator r) (m : WireMsg) (s' : Simulator r) (instr : ℕ) (st : ℕ → State)
      (ms : List WireMsg) (i : ℕ)
      → IsSent r s m s' instr
      → IsTracked s st
      → IsConsistentStream (for_instrument i ms) (after_message m st i)
      → IsConsistentStream (for_instrument i (m ∷ ms)) (st i)
  unfolding for_instrument replay
  IsSent-IsConsistentStream s m s' instr st ms i sent v rest =
      let own : instrument_of m ≡ instr = Change-instrument_of sent.change in
      elim (Bool-cases (instrument_of m == i)) [
        | inl e ↦
            let same : instr ≡ i = ground arith in
            rw e (
              subst (λ k. IsConsistent m (st k)) same
                  (Change-Mirrors (s.live_orders instr) s.next_order_id (st instr) (v.mirrors instr)
                    sent.change).0,
              rw e at rest,
            )
        | inr e ↦ rw e (rw e at rest)
      ]

  pub stream_cons :
      (count : ℕ) (s s1 s2 : Simulator r) (m : WireMsg) (ms : List WireMsg)
      → next_message r s ≡ some (m, s1)
      → stream r count s1 ≡ some (ms, s2)
      → stream r (suc count) s ≡ some (m ∷ ms, s2)
  unfolding stream
  stream_cons count s s1 s2 m ms e e2 = rw (stream, e, e2) refl

  -- Whatever the random engine draws, `count` messages are sent, and each instrument's messages keep
  -- the feed's promise to its book.
  pub stream-IsTracked :
      (law : IsLawful r) (count : ℕ) (s : Simulator r) (st : ℕ → State)
      → s.next_order_id + count < 2 ^ 64
      → IsTracked s st
      → (ms : List WireMsg) × (s' : Simulator r) × (stream r count s ≡ some (ms, s'))
        × ((i : ℕ) → IsConsistentStream (for_instrument i ms) (st i))
        × IsTracked s' (λ i. replay (for_instrument i ms) (st i))
  unfolding stream for_instrument replay
  stream-IsTracked law zero s st room v = ([], s, refl, λ i. tt, v)
  stream-IsTracked law (suc count) s st room v =
      let (m, s1, instr, e, sent) =
        next_message-IsSent r law s (IsTracked-IsReady s st (omega arith) v) in
      let (least, most) = Change-next sent.change in
      let (ms, s2, e2, consistent, tracked) =
        stream-IsTracked law count s1 (after_message m st) (omega arith)
          (IsSent-IsTracked s m s1 instr st sent v) in
      (
        m ∷ ms,
        s2,
        stream_cons count s s1 s2 m ms e e2,
        λ i. IsSent-IsConsistentStream s m s1 instr st ms i sent v (consistent i),
        subst (IsTracked s2) (fun_ext (λ i. sym (replay-for_instrument-cons i m ms (st i))))
            tracked,
      )
