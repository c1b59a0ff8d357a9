-- ===== src/Offline/Drain.antt =====
-- include/live_feed.hpp, `OfflineBooks`: the constructor is never stuck.
use exchange_market_data_dec.Prelude.{
  ℕ, zero, suc, ◌+◌, ◌^◌, ◌≤◌, ◌<◌, ◌≡◌, ◌≢◌, refl, sym, ◌∙◌, ap, subst, arith, ◌==◌, List, [], ◌∷◌,
  true, Bool-cases, inl, inr, put_same, put_other, some,
}
use exchange_market_data_dec.Protocol.{WireMsg}
use exchange_market_data_dec.Normalizer.{
  Shard, QueueItem, Normalizer, dispatch, work, work_shard, instrument_of, num_instruments,
}
use exchange_market_data_dec.Normalizer.Serving.{apply_item-queue}
use exchange_market_data_dec.Simulator.{Random, IsLawful}
use exchange_market_data_dec.Simulator.Owners.{IsOwnedStream}
use exchange_market_data_dec.Simulator.Runs.{new_simulator-IsOwnedStream}
use exchange_market_data_dec.Offline.{OfflineBooks, new_offline_books, Turn, Turns, IsDrained}
use exchange_market_data_dec.Offline.Books.{
  new_offline_books-stream, dispatch_to_shard, started_to_shard, IsServed,
}

pub Turns_trans :
    {k : ℕ} {a b c : List WireMsg × Normalizer} → Turns k a b → Turns k b c → Turns k a c
Turns_trans (Turns.stop a) more = more
Turns_trans (Turns.step a b c now later) more = Turns.step a b _ now (Turns_trans later more)

work-queue :
    (sh : Shard) (item : QueueItem) (items : List QueueItem)
    → (work_shard sh (item ∷ items)).queue ≡ items
work-queue sh item items = apply_item-queue (record sh { queue = items }) item.msg item.local_idx

pub worked_queue :
    (n : Normalizer) (s : ℕ) (item : QueueItem) (items : List QueueItem)
    → (n.shards s).queue ≡ item ∷ items
    → ((work n s).shards s).queue ≡ items
unfolding work
worked_queue n s item items h =
    ap (λ sh. sh.queue) (put_same n.shards s (work_shard (n.shards s) (n.shards s).queue))
    ∙ ap (λ q. (work_shard (n.shards s) q).queue) h
    ∙ work-queue (n.shards s) item items

pub worked_other : (n : Normalizer) (s t : ℕ) → s ≢ t → (work n s).shards t ≡ n.shards t
unfolding work
worked_other n s t ne = put_other n.shards s (work_shard (n.shards s) (n.shards s).queue) t ne

worked_to_shard : (n : Normalizer) (s : ℕ) → (work n s).instrument_to_shard ≡ n.instrument_to_shard
unfolding work
worked_to_shard n s = refl

-- The worker of shard `s` can empty its queue; the other queues stay as they are.
drain_shard :
    (k : ℕ) (items : List QueueItem) (ms : List WireMsg) (n : Normalizer) (s : ℕ)
    → s < k
    → (n.shards s).queue ≡ items
    → (n' : Normalizer) × Turns k (ms, n) (ms, n')
      × ((n'.shards s).queue ≡ [])
      × ((t : ℕ) → s ≢ t → n'.shards t ≡ n.shards t)
      × (n'.instrument_to_shard ≡ n.instrument_to_shard)
drain_shard k [] ms n s lt empty = (n, Turns.stop _, empty, λ t ne. refl, refl)
drain_shard k (item ∷ items) ms n s lt h =
    let (n', steps, empty, others, to_shard) =
      drain_shard k items ms (work n s) s lt (worked_queue n s item items h) in
    (
      n',
      Turns.step _ _ _ (Turn.worked s ms n lt) steps,
      empty,
      λ t ne. others t ne ∙ worked_other n s t ne,
      to_shard ∙ worked_to_shard n s,
    )

-- The workers of the first `count` shards can empty their queues.
drain_shards :
    (k count : ℕ) (ms : List WireMsg) (n : Normalizer)
    → count ≤ k
    → (n' : Normalizer) × Turns k (ms, n) (ms, n')
      × ((s : ℕ) → s < count → (n'.shards s).queue ≡ [])
drain_shards k zero ms n le = (n, Turns.stop _, λ s lt. absurd (omega (arith, lt)))
drain_shards k (suc count) ms n le =
    let (n1, steps1, empty1) = drain_shards k count ms n (omega (arith, le)) in
    let (n2, steps2, empty2, others, to_shard) =
      drain_shard k (n1.shards count).queue ms n1 count (omega (arith, le)) refl in
    (
      n2,
      Turns_trans steps1 steps2,
      λ s lt. elim (Bool-cases (count == s)) [
        | inl e ↦ subst (λ t. (n2.shards t).queue ≡ []) (ground (arith, e)) empty2
        | inr e ↦
            ap (λ sh. sh.queue) (others s (ground (arith, e))) ∙ empty1 s (ground (arith, e, lt))
      ],
    )

dispatch_taken :
    (n : Normalizer) (m : WireMsg)
    → (n.shards (n.instrument_to_shard (instrument_of m))).queue ≡ []
    → (dispatch n m).1 ≡ true
unfolding dispatch
dispatch_taken n m h = rw h refl

IsServed-to_shard :
    (k : ℕ) (n n' : Normalizer)
    → n'.instrument_to_shard ≡ n.instrument_to_shard
    → IsServed k n
    → IsServed k n'
IsServed-to_shard k n n' same served i lt = subst (λ f. f i < k) (sym same) (served i lt)

-- Where every instrument has a worker, the messages of known instruments can all be dispatched, and the
-- queues emptied.
pub drain_lem :
    (k : ℕ) (owner : ℕ → ℕ) (ms : List WireMsg) (n : Normalizer)
    → IsServed k n
    → IsOwnedStream num_instruments owner ms
    → (n' : Normalizer) × Turns k (ms, n) ([], n') × IsDrained k ([], n')
drain_lem k owner [] n served owned =
    let (n', steps, empty) = drain_shards k k [] n (omega arith) in
    (n', steps, record { dispatched = refl; emptied = empty })
drain_lem k owner (m ∷ ms) n served owned =
    let s = n.instrument_to_shard (instrument_of m) in
    let (n1, steps1, empty, others, to_shard) =
      drain_shard k (n.shards s).queue (m ∷ ms) n s (served (instrument_of m) owned.0) refl in
    let (n2, steps2, done) =
      drain_lem k owner ms (dispatch n1 m).0
        (IsServed-to_shard k n (dispatch n1 m).0 (dispatch_to_shard n1 m ∙ to_shard) served)
        owned.2 in
    (
      n2,
      Turns_trans steps1 (
          Turns.step _ _ _
            (Turn.sent m ms n1 (
              dispatch_taken n1 m
                (ap (λ f. (n1.shards (f (instrument_of m))).queue) to_shard ∙ empty)))
            steps2),
      done,
    )

-- No turn takes an instrument's worker away, or brings a message of an unknown instrument.
Turns-IsServed :
    {k : ℕ} {a b : List WireMsg × Normalizer} (owner : ℕ → ℕ)
    → Turns k a b
    → IsServed k a.1
    → IsOwnedStream num_instruments owner a.0
    → IsServed k b.1 × IsOwnedStream num_instruments owner b.0
Turns-IsServed owner (Turns.stop a) served owned = (served, owned)
Turns-IsServed {k} owner (Turns.step a b c (Turn.sent m ms n ok) later) served owned =
    Turns-IsServed owner later
      (IsServed-to_shard k n (dispatch n m).0 (dispatch_to_shard n m) served) owned.2
Turns-IsServed {k} owner (Turns.step a b c (Turn.full m ms n refused) later) served owned =
    Turns-IsServed owner later
      (IsServed-to_shard k n (dispatch n m).0 (dispatch_to_shard n m) served) owned
Turns-IsServed {k} owner (Turns.step a b c (Turn.worked s ms n lt) later) served owned =
    Turns-IsServed owner later (IsServed-to_shard k n (work n s) (worked_to_shard n s) served) owned

-- The constructor is never stuck: from every state that the dispatcher and the workers, one for each of
-- at least one shard, can reach, whatever the random engine draws, some rounds of these workers and
-- calls of the dispatcher bring it to its end, where every message is taken and every queue is empty.
pub drain-IsDrained :
    (r : Random) (law : IsLawful r) (num_messages num_shards seed : ℕ) (ms left : List WireMsg)
    (o : OfflineBooks r) (n : Normalizer)
    → num_messages + 1 < 2 ^ 64
    → 0 < num_shards
    → new_offline_books r num_messages num_shards seed ≡ some (ms, o)
    → Turns num_shards (ms, o.normalizer) (left, n)
    → (n' : Normalizer) × Turns num_shards (left, n) ([], n') × IsDrained num_shards ([], n')
drain-IsDrained r law num_messages num_shards seed ms left o n room shards made steps =
    let (sent, s, owner, streamed, owned) =
      new_simulator-IsOwnedStream r law seed num_instruments num_messages o.ref_price (omega arith)
        (omega arith) room in
    let (same, begun) =
      new_offline_books-stream r num_messages num_shards seed sent ms s o streamed made in
    let (served, known) =
      Turns-IsServed owner steps
        (λ i lt.
          subst (λ x. x.instrument_to_shard i < num_shards) begun
            (started_to_shard num_shards o.ref_price i shards lt))
        (subst (IsOwnedStream num_instruments owner) same owned) in
    drain_lem num_shards owner left n served known
