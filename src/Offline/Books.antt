-- ===== src/Offline/Books.antt =====
-- include/live_feed.hpp, `OfflineBooks`: the books that the constructor leaves.
use mathlib.Core.Option.{some-injective}
use mathlib.Core.List.{append-nil}
use native.Mathlib.Nat.{mod-lt}
use exchange_market_data_dec.Prelude.{
  ℕ, zero, suc, ◌+◌, ◌%◌, ◌^◌, ◌<◌, ◌≡◌, refl, sym, ◌∙◌, ap, subst, arith, some, none, List, [],
  ◌∷◌, ◌++◌, ℤ,
}
use exchange_market_data_dec.Protocol.{WireMsg}
use exchange_market_data_dec.Replay.{replay, fresh}
use exchange_market_data_dec.Replay.Conservation.{IsConserved}
use exchange_market_data_dec.Normalizer.{
  Normalizer, num_instruments, new_normalizer, init_all, init_reference_price, dispatch, work,
  Event, run, book_for_instrument,
}
use exchange_market_data_dec.Normalizer.Assign.{IsAssigned, assign_all-IsAssigned}
use exchange_market_data_dec.Normalizer.Serving.{for_instrument}
use exchange_market_data_dec.Normalizer.Sharding.{IsKnown}
use exchange_market_data_dec.Normalizer.Books.{started, run-books}
use exchange_market_data_dec.Simulator.{Random, IsLawful, Simulator, new_simulator, stream}
use exchange_market_data_dec.Simulator.Owners.{IsOwnedStream}
use exchange_market_data_dec.Simulator.Runs.{stream-IsConserved, new_simulator-IsOwnedStream}
use exchange_market_data_dec.Offline.{
  OfflineBooks, offline_books, new_offline_books, Turn, Turns, IsDrained,
}

-- Turns are events of the normalizer; what is not waiting any more was taken, in order.
Turns-run :
    {k : ℕ} {a b : List WireMsg × Normalizer} (owner : ℕ → ℕ)
    → Turns k a b
    → IsOwnedStream num_instruments owner a.0
    → (es : List Event) × IsKnown owner es × ((run es a.1).0 ≡ b.1) × ((run es a.1).1 ++ b.0 ≡ a.0)
unfolding run
Turns-run owner (Turns.stop a) owned = ([], tt, refl, refl)
Turns-run owner (Turns.step a b c (Turn.sent m ms n ok) later) owned =
    let (es, known, end, taken) = Turns-run owner later owned.2 in
    (Event.dispatched m ∷ es, (owned.0, owned.1, known), end, rw ok (ap (λ xs. m ∷ xs) taken))
Turns-run owner (Turns.step a b c (Turn.full m ms n ok) later) owned =
    let (es, known, end, taken) = Turns-run owner later owned in
    (Event.dispatched m ∷ es, (owned.0, owned.1, known), end, rw ok taken)
Turns-run owner (Turns.step a b c (Turn.worked s ms n lt) later) owned =
    let (es, known, end, taken) = Turns-run owner later owned in
    (Event.worked s ∷ es, known, end, taken)

-- The constructor's messages are the simulator's, and its normalizer has all reference prices.
pub new_offline_books-stream :
    (r : Random) (num_messages num_shards seed : ℕ) (sent ms : List WireMsg) (s : Simulator r)
    (o : OfflineBooks r)
    → stream r num_messages (new_simulator r seed num_instruments) ≡ some (sent, s)
    → new_offline_books r num_messages num_shards seed ≡ some (ms, o)
    → (sent ≡ ms) × (started num_shards o.ref_price ≡ o.normalizer)
unfolding new_offline_books
new_offline_books-stream r num_messages num_shards seed sent ms s o e made =
    let prices = (new_simulator r seed num_instruments).ref_price in
    let built : new_offline_books r num_messages num_shards seed
        ≡ some (sent, offline_books r num_shards prices s) =
      ap
        (λ x. elim x [
          | none ↦ none
          | some (messages, sim) ↦ some (messages, offline_books r num_shards prices sim)
        ])
        e in
    let whole : (sent, offline_books r num_shards prices s) ≡ (ms, o) =
      some-injective _ _ (sym built ∙ made) in
    (
      ap (λ p. p.0) whole,
      sym (ap (λ p. started num_shards p.1.ref_price) whole) ∙ ap (λ p. p.1.normalizer) whole,
    )

pub dispatch_to_shard :
    (n : Normalizer) (m : WireMsg) → (dispatch n m).0.instrument_to_shard ≡ n.instrument_to_shard
unfolding dispatch
dispatch_to_shard n m = ground arith

run_to_shard :
    (es : List Event) (n : Normalizer) → (run es n).0.instrument_to_shard ≡ n.instrument_to_shard
unfolding run work
run_to_shard [] n = refl
run_to_shard (Event.dispatched m ∷ es) n = run_to_shard es (dispatch n m).0 ∙ dispatch_to_shard n m
run_to_shard (Event.worked s ∷ es) n = run_to_shard es (work n s)

init_all_to_shard :
    (price : ℕ → ℤ) (count : ℕ) (n : Normalizer)
    → (init_all price count n).instrument_to_shard ≡ n.instrument_to_shard
unfolding init_all init_reference_price
init_all_to_shard price zero n = refl
init_all_to_shard price (suc count) n = init_all_to_shard price count n

-- The workers of the shards that there are serve every instrument.
pub started_to_shard :
    (num_shards : ℕ) (price : ℕ → ℤ) (i : ℕ)
    → 0 < num_shards
    → i < num_instruments
    → (started num_shards price).instrument_to_shard i < num_shards
started_to_shard num_shards price i shards known =
    let a : IsAssigned num_shards (new_normalizer num_shards) num_instruments =
      assign_all-IsAssigned num_shards num_instruments (omega arith) in
    let same : (started num_shards price).instrument_to_shard i ≡ i % num_shards =
      ap (λ f. f i) (init_all_to_shard price num_instruments (new_normalizer num_shards))
      ∙ a.shard i known in
    omega (arith, same, mod-lt i shards)

-- Every instrument has a shard with a worker.
abbrev pub IsServed : ℕ → Normalizer → Type 0
IsServed k n = (i : ℕ) → i < num_instruments → n.instrument_to_shard i < k

-- However the dispatcher and the workers take turns, when the constructor ends, each instrument's book
-- is the one that its own messages of the simulator make, in order, of a book at its reference price, and
-- holds on each level the sum of the orders resting there, whatever the random engine draws and for any
-- number of shards but none.
pub offline_books_lem :
    (r : Random) (law : IsLawful r) (num_messages num_shards seed : ℕ) (ms left : List WireMsg)
    (o : OfflineBooks r) (n : Normalizer) (i : ℕ)
    → num_messages + 1 < 2 ^ 64
    → 0 < num_shards
    → i < num_instruments
    → new_offline_books r num_messages num_shards seed ≡ some (ms, o)
    → Turns num_shards (ms, o.normalizer) (left, n)
    → IsDrained num_shards (left, n)
    → let st = replay (for_instrument i ms) (fresh (o.ref_price i)) in
      (book_for_instrument n i ≡ st.book) × IsConserved st
offline_books_lem r law num_messages num_shards seed ms left o n i room shards known made steps
      drained =
    let (sent, s, streamed, kept) =
      stream-IsConserved r law seed num_instruments num_messages o.ref_price (omega arith)
        (omega arith) room in
    let (sent', s', owner, streamed', owned) =
      new_simulator-IsOwnedStream r law seed num_instruments num_messages o.ref_price (omega arith)
        (omega arith) room in
    let (same, begun) =
      new_offline_books-stream r num_messages num_shards seed sent ms s o streamed made in
    let (same', _) =
      new_offline_books-stream r num_messages num_shards seed sent' ms s' o streamed' made in
    let (es, given, end, taken) =
      Turns-run owner steps (subst (IsOwnedStream num_instruments owner) same' owned) in
    let done = run es (started num_shards o.ref_price) in
    let gone : done.0 ≡ n = ap (λ x. (run es x).0) begun ∙ end in
    let all : done.1 ≡ ms =
      ap (λ x. (run es x).1) begun
      ∙ sym (append-nil (run es o.normalizer).1)
      ∙ ap (λ xs. (run es o.normalizer).1 ++ xs) (sym drained.dispatched)
      ∙ taken in
    let same_shard : n.instrument_to_shard i
        ≡ (started num_shards o.ref_price).instrument_to_shard i =
      ap (λ x. x.instrument_to_shard i) (sym gone)
      ∙ ap (λ f. f i) (run_to_shard es (started num_shards o.ref_price)) in
    let served : n.instrument_to_shard i < num_shards =
      subst (λ k. k < num_shards) (sym same_shard)
        (started_to_shard num_shards o.ref_price i shards known) in
    let empty : (done.0.shards (done.0.instrument_to_shard i)).queue ≡ [] =
      ap (λ x. (x.shards (x.instrument_to_shard i)).queue) gone
      ∙ drained.emptied (n.instrument_to_shard i) served in
    (
      ap (λ x. book_for_instrument x i) (sym gone)
          ∙ run-books num_shards o.ref_price owner es i known given empty
          ∙ ap (λ xs. (replay (for_instrument i xs) (fresh (o.ref_price i))).book) all,
      subst (λ xs. IsConserved (replay (for_instrument i xs) (fresh (o.ref_price i)))) same
          (kept i).1,
    )
