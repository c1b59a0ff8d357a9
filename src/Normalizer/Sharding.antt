-- ===== src/Normalizer/Sharding.antt =====
-- include/normalizer.hpp: the sharded books against one book for each instrument.
use exchange_market_data_dec.Prelude.{
  ℕ, ◌+◌, ◌<◌, ◌≡◌, ◌≢◌, refl, sym, ◌∙◌, ap, subst, arith, ◌==◌, if◌then◌else◌, inl, inr,
  Bool-cases, ltb, List, [], ◌∷◌, ◌++◌, length, nat_eq, Bool, true, false, put, put-ind,
}
use exchange_market_data_dec.Protocol.{WireMsg}
use exchange_market_data_dec.Replay.{State, apply_to_book, replay}
use exchange_market_data_dec.Normalizer.{
  Shard, QueueItem, Normalizer, work, work_shard, dispatch, instrument_of, num_instruments,
  k_queue_capacity, Event, run,
}
use exchange_market_data_dec.Normalizer.Apply.{Agrees, frame-Agrees, IsOwned}
use exchange_market_data_dec.Normalizer.Serving.{
  for_instrument, pending, IsQueue, snoc-IsQueue, work_shard-IsQueue, work_shard-Agrees,
}

-- The messages dispatched are of known instruments, and an id is named for one instrument only.
abbrev pub IsKnown : (ℕ → ℕ) → List Event → Type 0
IsKnown owner [] = Unit
IsKnown owner (Event.dispatched m ∷ es) =
    (instrument_of m < num_instruments) × IsOwned owner (instrument_of m) m × IsKnown owner es
IsKnown owner (Event.worked s ∷ es) = IsKnown owner es

pub pending-snoc :
    (i : ℕ) (items : List QueueItem) (item : QueueItem) (st : State)
    → replay (pending i (items ++ item ∷ [])) st
      ≡ replay (for_instrument i (item.msg ∷ [])) (replay (pending i items) st)
unfolding pending replay for_instrument
pending-snoc i [] item st = refl
pending-snoc i (x ∷ items) item st = elim (Bool-cases (instrument_of x.msg == i)) [
  | inl h ↦ rw h (pending-snoc i items item (apply_to_book x.msg st))
  | inr h ↦ rw h (pending-snoc i items item st)
]

pub replay-for_instrument-cons :
    (i : ℕ) (m : WireMsg) (ms : List WireMsg) (st : State)
    → replay (for_instrument i (m ∷ ms)) st
      ≡ replay (for_instrument i ms) (replay (for_instrument i (m ∷ [])) st)
unfolding replay for_instrument
replay-for_instrument-cons i m ms st = elim (Bool-cases (instrument_of m == i)) [
  | inl h ↦ rw h refl
  | inr h ↦ rw h refl
]

module _ (owner : ℕ → ℕ) (i : ℕ) where
  -- The shard of `i` has in its maps and books what `st` has, and each queue the items of its
  -- instruments.
  pub record IsServing (n : Normalizer) (st : State) : Type 0 where
    pub agrees : Agrees owner i (n.instrument_to_local i) (n.shards (n.instrument_to_shard i)) st
    pub queued :
        (s : ℕ) → IsQueue owner n.instrument_to_shard n.instrument_to_local s (n.shards s).queue
    pub apart :
        (j : ℕ)
        → j < num_instruments
        → j ≢ i
        → n.instrument_to_shard j ≡ n.instrument_to_shard i
        → n.instrument_to_local j ≢ n.instrument_to_local i

  abbrev pub waiting : Normalizer → List WireMsg
  waiting n = pending i (n.shards (n.instrument_to_shard i)).queue

  put_shard-IsServing :
      (n : Normalizer) (s : ℕ) (sh : Shard) (st st' : State)
      → (s ≡ n.instrument_to_shard i → Agrees owner i (n.instrument_to_local i) sh st')
      → (s ≢ n.instrument_to_shard i → st ≡ st')
      → IsQueue owner n.instrument_to_shard n.instrument_to_local s sh.queue
      → IsServing n st
      → IsServing (record n { shards = put n.shards s sh }) st'
  put_shard-IsServing n s sh st st' new old q v = record {
    agrees =
        put-ind (λ x. Agrees owner i (n.instrument_to_local i) x st') n.shards s sh
          (n.instrument_to_shard i) new
          (λ ne.
            subst (Agrees owner i (n.instrument_to_local i) (n.shards (n.instrument_to_shard i)))
              (old ne) v.agrees);
    queued = λ t.
        put-ind (λ x. IsQueue owner n.instrument_to_shard n.instrument_to_local t x.queue) n.shards
          s sh t
          (λ e.
            subst (λ u. IsQueue owner n.instrument_to_shard n.instrument_to_local u sh.queue) e q)
          (λ ne. v.queued t);
    apart = v.apart;
  }

  work_own :
      (n : Normalizer) (st : State)
      → IsServing n st
      → (st' : State) × IsServing (work n (n.instrument_to_shard i)) st'
        × (replay (waiting (work n (n.instrument_to_shard i))) st' ≡ replay (waiting n) st)
  unfolding work
  work_own n st v =
      let t = n.instrument_to_shard i in
      let (st', a, e) =
        work_shard-Agrees owner n.instrument_to_shard n.instrument_to_local i v.apart (n.shards t)
          st (n.shards t).queue refl (v.queued t) v.agrees in
      let q : IsQueue owner n.instrument_to_shard n.instrument_to_local t
          (work_shard (n.shards t) (n.shards t).queue).queue =
        work_shard-IsQueue owner n.instrument_to_shard n.instrument_to_local t (n.shards t)
          (n.shards t).queue refl (v.queued t) in
      let same : (t == t) ≡ true = ground arith in
      (
        st',
        put_shard-IsServing n t (work_shard (n.shards t) (n.shards t).queue) st st' (λ h. a)
            (λ ne. absurd (ne refl)) q v,
        rw same e,
      )

  pub work-IsServing :
      (n : Normalizer) (s : ℕ) (st : State)
      → IsServing n st
      → (st' : State) × IsServing (work n s) st'
        × (replay (waiting (work n s)) st' ≡ replay (waiting n) st)
  unfolding work
  work-IsServing n s st v = elim (Bool-cases (s == n.instrument_to_shard i)) [
    | inl h ↦
        let here : s ≡ n.instrument_to_shard i = ground arith in
        subst
          (λ k.
            (st' : State) × IsServing (work n k) st'
            × (replay (waiting (work n k)) st' ≡ replay (waiting n) st))
          (sym here) (work_own n st v)
    | inr h ↦
        let away : s ≢ n.instrument_to_shard i = ground arith in
        (
          st,
          put_shard-IsServing n s (work_shard (n.shards s) (n.shards s).queue) st st
              (λ e. absurd (away e)) (λ ne. refl)
              (work_shard-IsQueue owner n.instrument_to_shard n.instrument_to_local s (n.shards s)
                (n.shards s).queue refl (v.queued s))
              v,
          rw h refl,
        )
  ]

  pub dispatch-IsServing :
      (n : Normalizer) (m : WireMsg) (st : State)
      → instrument_of m < num_instruments
      → IsOwned owner (instrument_of m) m
      → IsServing n st
      → IsServing (dispatch n m).0 st
        × (replay (waiting (dispatch n m).0) st
            ≡ replay
                (for_instrument i (if (dispatch n m).1 then m ∷ [] else []))
                (replay (waiting n) st))
  unfolding dispatch for_instrument replay
  dispatch-IsServing n m st known own v =
      elim (Bool-cases (ltb (length (n.shards s).queue + 1) k_queue_capacity)) [
        | inl h ↦ rw h (
          put_shard-IsServing n s (record (n.shards s) { queue = (n.shards s).queue ++ item ∷ [] })
              st st (λ e. frame-Agrees (n.shards s) _ _ _ (there e)) (λ ne. refl)
              (snoc-IsQueue owner n.instrument_to_shard n.instrument_to_local s (n.shards s).queue
                item (v.queued s) (record { known = known; shard = refl; idx = refl; owned = own }))
              v,
          put-ind
              (λ x.
                replay (pending i x.queue) st
                ≡ replay (for_instrument i (m ∷ [])) (replay (waiting n) st))
              n.shards s (record (n.shards s) { queue = (n.shards s).queue ++ item ∷ [] })
              (n.instrument_to_shard i)
              (λ e.
                pending-snoc i (n.shards s).queue item st
                ∙ ap
                    (λ k.
                      replay (for_instrument i (m ∷ [])) (replay (pending i (n.shards k).queue) st))
                    e)
              (λ ne. rw (foreign ne) refl),
        )
        | inr h ↦ rw h (
          put_shard-IsServing n s
              (record (n.shards s) { dropped_full = (n.shards s).dropped_full + 1 }) st st
              (λ e. frame-Agrees (n.shards s) _ _ _ (there e)) (λ ne. refl) (v.queued s) v,
          put-ind (λ x. replay (pending i x.queue) st ≡ replay (waiting n) st) n.shards s
              (record (n.shards s) { dropped_full = (n.shards s).dropped_full + 1 })
              (n.instrument_to_shard i) (λ e. ap (λ k. replay (pending i (n.shards k).queue) st) e)
              (λ ne. refl),
        )
      ]
    where
      s : ℕ
      s = n.instrument_to_shard (instrument_of m)

      item : QueueItem
      item = record { msg = m; local_idx = n.instrument_to_local (instrument_of m) }

      there : s ≡ n.instrument_to_shard i → Agrees owner i (n.instrument_to_local i) (n.shards s) st
      there e =
          subst (λ k. Agrees owner i (n.instrument_to_local i) (n.shards k) st) (sym e) v.agrees

      foreign : s ≢ n.instrument_to_shard i → (instrument_of m == i) ≡ false
      foreign ne = elim (Bool-cases (instrument_of m == i)) [
        | inl h ↦
            let same : instrument_of m ≡ i = ground arith in
            absurd (ne (ap n.instrument_to_shard same))
        | inr h ↦ h
      ]

  -- However the calls and rounds interleave, what has been applied for `i` and what waits for it are
  -- the messages for `i` that `dispatch` took, in their order.
  pub run-IsServing :
      (es : List Event) (n : Normalizer) (st : State)
      → IsKnown owner es
      → IsServing n st
      → (st' : State) × IsServing (run es n).0 st'
        × (replay (waiting (run es n).0) st'
            ≡ replay (for_instrument i (run es n).1) (replay (waiting n) st))
  unfolding run for_instrument replay
  run-IsServing [] n st k v = (st, v, refl)
  run-IsServing (Event.dispatched m ∷ es) n st k v =
      let (v1, e1) = dispatch-IsServing n m st k.0 k.1 v in
      let (st2, v2, e2) = run-IsServing es (dispatch n m).0 st k.2 v1 in
      (
        st2,
        v2,
        e2 ∙ ap (replay (for_instrument i (run es (dispatch n m).0).1)) e1 ∙ taken (dispatch n m).1,
      )
    where
      taken :
          (ok : Bool)
          → replay
              (for_instrument i (run es (dispatch n m).0).1)
              (replay (for_instrument i (if ok then m ∷ [] else [])) (replay (waiting n) st))
            ≡ replay
                (for_instrument i
                  (if ok then m ∷ (run es (dispatch n m).0).1 else (run es (dispatch n m).0).1))
                (replay (waiting n) st)
      taken true =
          sym (replay-for_instrument-cons i m (run es (dispatch n m).0).1 (replay (waiting n) st))
      taken false = refl
  run-IsServing (Event.worked s ∷ es) n st k v =
      let (st1, v1, e1) = work-IsServing n s st v in
      let (st2, v2, e2) = run-IsServing es (work n s) st1 k v1 in
      (st2, v2, e2 ∙ ap (replay (for_instrument i (run es (work n s)).1)) e1)
