-- ===== src/Bench/Count.antt =====
-- src/decoder_bench.cpp: the count of messages that it prints.
use mathlib.Core.Option.{some-injective, none-ne-some}
use exchange_market_data_dec.Prelude.{
  ℕ, zero, suc, ◌+◌, ◌%◌, ◌^◌, ◌<◌, ◌≡◌, refl, sym, ◌∙◌, ap, subst, arith, Option-cases, inl, inr,
  List, [], ◌∷◌, length, some, put-ind, ℤ, pos,
}
use exchange_market_data_dec.Protocol.{WireMsg}
use exchange_market_data_dec.Normalizer.{
  Shard, Normalizer, dispatch, work, instrument_of, num_instruments, assign_all, assign, init_all,
  init_reference_price, new_normalizer,
}
use exchange_market_data_dec.Normalizer.Books.{started}
use exchange_market_data_dec.Simulator.{
  Random, IsLawful, Simulator, new_simulator, next_message, stream,
}
use exchange_market_data_dec.Simulator.Owners.{IsOwnedStream}
use exchange_market_data_dec.Simulator.Runs.{new_simulator-IsOwnedStream}
use exchange_market_data_dec.Offline.{Turn, Turns, IsDrained}
use exchange_market_data_dec.Offline.Books.{dispatch_to_shard, started_to_shard, IsServed}
use exchange_market_data_dec.Bench.{sum_shards, total_processed, prepare}
use exchange_market_data_dec.Bench.Totals.{handed, work-handed, dispatch-taken, dispatch-full}

worked-IsServed : (k : ℕ) (n : Normalizer) (s : ℕ) → IsServed k n → IsServed k (work n s)
unfolding work
worked-IsServed k n s served i lt = served i lt

-- What waits to be dispatched, waits in a queue, or is processed, stays the same in number.
Turns-handed :
    (k : ℕ) {a b : List WireMsg × Normalizer} (owner : ℕ → ℕ)
    → Turns k a b
    → IsServed k a.1
    → IsOwnedStream num_instruments owner a.0
    → sum_shards handed k b.1 + length b.0 ≡ sum_shards handed k a.1 + length a.0
Turns-handed k owner (Turns.stop a) served owned = refl
Turns-handed k owner (Turns.step a b c (Turn.sent m ms n ok) later) served owned =
    let served' : IsServed k (dispatch n m).0 =
      λ i lt. subst (λ f. f i < k) (sym (dispatch_to_shard n m)) (served i lt) in
    omega (
      arith,
      Turns-handed k owner later served' owned.2,
      dispatch-taken k n m (served (instrument_of m) owned.0) ok,
    )
Turns-handed k owner (Turns.step a b c (Turn.full m ms n refused) later) served owned =
    let served' : IsServed k (dispatch n m).0 =
      λ i lt. subst (λ f. f i < k) (sym (dispatch_to_shard n m)) (served i lt) in
    omega (arith, Turns-handed k owner later served' owned, dispatch-full k n m refused)
Turns-handed k owner (Turns.step a b c (Turn.worked s ms n lt) later) served owned =
    omega
      (arith, Turns-handed k owner later (worked-IsServed k n s served) owned, work-handed k n s)

assign_all-handed : (num_shards count s : ℕ) → handed ((assign_all num_shards count).shards s) ≡ 0
unfolding assign_all assign
assign_all-handed num_shards zero s = refl
assign_all-handed num_shards (suc count) s =
    put-ind (λ x. handed x ≡ 0) (assign_all num_shards count).shards (count % num_shards) _ s
      (λ e. assign_all-handed num_shards count (count % num_shards))
      (λ ne. assign_all-handed num_shards count s)

init_all-handed :
    (price : ℕ → ℤ) (count : ℕ) (n : Normalizer) (s : ℕ)
    → ((t : ℕ) → handed (n.shards t) ≡ 0)
    → handed ((init_all price count n).shards s) ≡ 0
unfolding init_all init_reference_price
init_all-handed price zero n s none_yet = none_yet s
init_all-handed price (suc count) n s none_yet =
    put-ind (λ x. handed x ≡ 0) (init_all price count n).shards
      ((init_all price count n).instrument_to_shard count) _ s
      (λ e.
        init_all-handed price count n ((init_all price count n).instrument_to_shard count) none_yet)
      (λ ne. init_all-handed price count n s none_yet)

sum_shards-zero :
    (f : Shard → ℕ) (k : ℕ) (n : Normalizer) → ((s : ℕ) → f (n.shards s) ≡ 0) → sum_shards f k n ≡ 0
unfolding sum_shards
sum_shards-zero f zero n h = refl
sum_shards-zero f (suc k) n h = omega (arith, sum_shards-zero f k n h, h k)

sum_shards-drained :
    (k : ℕ) (n : Normalizer)
    → ((s : ℕ) → s < k → (n.shards s).queue ≡ [])
    → sum_shards handed k n ≡ total_processed k n
unfolding sum_shards
sum_shards-drained zero n h = refl
sum_shards-drained (suc k) n h =
    omega (
      arith,
      sum_shards-drained k n (λ s lt. h s (omega (arith, lt))),
      ap length (h k (omega arith)),
    )

length-stream :
    (r : Random) (count : ℕ) (s s' : Simulator r) (ms : List WireMsg)
    → stream r count s ≡ some (ms, s')
    → length ms ≡ count
unfolding stream
length-stream r zero s s' ms e = ap (λ p. length p.0) (sym (some-injective _ _ e))
length-stream r (suc count) s s' ms e = elim (Option-cases (next_message r s)) [
  | inl h ↦ absurd (none-ne-some _ (rw (stream, h) at e))
  | inr ((m, s1), h) ↦ elim (Option-cases (stream r count s1)) [
    | inl h2 ↦ absurd (none-ne-some _ (rw (stream, h, h2) at e))
    | inr ((ms1, s2), h2) ↦
        let same : some (m ∷ ms1, s2) ≡ some (ms, s') = rw (stream, h, h2) at e in
        sym (ap (λ p. length p.0) (some-injective _ _ same))
        ∙ ap suc (length-stream r count s1 s2 ms1 h2)
  ]
]

prepare-stream :
    (r : Random) (num_messages num_shards : ℕ) (sent : List WireMsg) (s : Simulator r)
    → stream r num_messages (new_simulator r 42 num_instruments) ≡ some (sent, s)
    → prepare r num_messages num_shards ≡ some (sent, started num_shards s.ref_price)
unfolding prepare
prepare-stream r num_messages num_shards sent s e = rw (prepare, e) refl

-- What is prepared can be served.
pub prepare-IsServed :
    (r : Random) (law : IsLawful r) (num_messages num_shards : ℕ) (ms : List WireMsg)
    (n0 : Normalizer)
    → num_messages + 1 < 2 ^ 64
    → 0 < num_shards
    → prepare r num_messages num_shards ≡ some (ms, n0)
    → IsServed num_shards n0 × (owner : ℕ → ℕ) × IsOwnedStream num_instruments owner ms
prepare-IsServed r law num_messages num_shards ms n0 room shards made =
    let (sent, s, owner, e, owned) =
      new_simulator-IsOwnedStream r law 42 num_instruments num_messages (λ i. pos 0) (omega arith)
        (omega arith) room in
    let first : (List WireMsg × Normalizer) = (sent, started num_shards s.ref_price) in
    let same : first ≡ (ms, n0) =
      some-injective _ _ (sym (prepare-stream r num_messages num_shards sent s e) ∙ made) in
    (
      λ i lt.
          subst (λ x. x.instrument_to_shard i < num_shards) (ap (λ p. p.1) same)
            (started_to_shard num_shards s.ref_price i shards lt),
      owner,
      subst (IsOwnedStream num_instruments owner) (ap (λ p. p.0) same) owned,
    )

-- Whatever the random engine draws and however the dispatcher and the workers take turns, when the queues
-- are drained, the shards have processed as many messages together as were generated, for any number of
-- shards but none.
pub total_processed_lem :
    (r : Random) (law : IsLawful r) (num_messages num_shards : ℕ) (ms left : List WireMsg)
    (n0 n : Normalizer)
    → num_messages + 1 < 2 ^ 64
    → 0 < num_shards
    → prepare r num_messages num_shards ≡ some (ms, n0)
    → Turns num_shards (ms, n0) (left, n)
    → IsDrained num_shards (left, n)
    → total_processed num_shards n ≡ num_messages
total_processed_lem r law num_messages num_shards ms left n0 n room shards made turns drained =
    let (sent, s, _, e, _) =
      new_simulator-IsOwnedStream r law 42 num_instruments num_messages (λ i. pos 0) (omega arith)
        (omega arith) room in
    let first : (List WireMsg × Normalizer) = (sent, started num_shards s.ref_price) in
    let same : first ≡ (ms, n0) =
      some-injective _ _ (sym (prepare-stream r num_messages num_shards sent s e) ∙ made) in
    let begun : started num_shards s.ref_price ≡ n0 = ap (λ p. p.1) same in
    let (served, owner, known) =
      prepare-IsServed r law num_messages num_shards ms n0 room shards made in
    let counted = Turns-handed num_shards owner turns served known in
    let nothing : sum_shards handed num_shards n0 ≡ 0 =
      subst (λ x. sum_shards handed num_shards x ≡ 0) begun
        (sum_shards-zero handed num_shards (started num_shards s.ref_price) (λ t.
          init_all-handed s.ref_price num_instruments (new_normalizer num_shards) t
            (λ u. assign_all-handed num_shards num_instruments u))) in
    omega (
      arith,
      counted,
      nothing,
      sum_shards-drained num_shards n drained.emptied,
      ap length drained.dispatched,
      ap (λ p. length p.0) same,
      length-stream r num_messages (new_simulator r 42 num_instruments) s sent e,
    )
