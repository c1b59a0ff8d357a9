-- ===== src/Live/Lifecycle/Restart.antt =====
-- include/live_feed.hpp: a feed that is started again.
use exchange_market_data_dec.Prelude.{
  ℕ, ◌+◌, ◌<◌, ◌≤◌, ℤ, ◌≡◌, refl, sym, ◌∙◌, ap, arith, ltb, Bool, true, false, Bool-cases, inl, inr,
  length, put, put-ind,
}
use exchange_market_data_dec.Protocol.{WireMsg}
use exchange_market_data_dec.Normalizer.{
  Shard, Normalizer, num_instruments, dispatch, book_for_instrument, instrument_of,
  k_queue_capacity,
}
use exchange_market_data_dec.Live.Lifecycle.{
  LiveFeed, Started, new_live_feed, start, wait, CanWait, FeedTurn, FeedTurns,
}

-- Putting a message in a queue, or dropping it, changes no book.
dispatch-book :
    (n : Normalizer) (m : WireMsg) (i : ℕ)
    → book_for_instrument (dispatch n m).0 i ≡ book_for_instrument n i
unfolding dispatch book_for_instrument
dispatch-book n m i = elim (Bool-cases (ltb (length (n.shards s).queue + 1) k_queue_capacity)) [
  | inl room ↦ rw room (kept _ refl)
  | inr full ↦ rw full (kept _ refl)
]
  where
    s : ℕ
    s = n.instrument_to_shard (instrument_of m)

    kept :
        (sh : Shard)
        → sh.books ≡ (n.shards s).books
        → (put n.shards s sh (n.instrument_to_shard i)).books (n.instrument_to_local i)
          ≡ (n.shards (n.instrument_to_shard i)).books (n.instrument_to_local i)
    kept sh same =
        put-ind
          (λ x.
            x.books (n.instrument_to_local i)
            ≡ (n.shards (n.instrument_to_shard i)).books (n.instrument_to_local i))
          n.shards s sh (n.instrument_to_shard i)
          (λ e.
            ap (λ b. b (n.instrument_to_local i)) same
            ∙ ap (λ k. (n.shards k).books (n.instrument_to_local i)) e)
          (λ ne. refl)

-- the feed that was started, or the other one
abbrev feed_of : LiveFeed → Started → LiveFeed
feed_of f Started.already_running = f
feed_of f Started.over_capacity = f
feed_of f (Started.started f') = f'

pub start-kept :
    (n : ℕ) (f f' : LiveFeed)
    → start n f ≡ Started.started f'
    → (f'.normalizer ≡ f.normalizer)
      × (f'.drained ≡ f.drained)
      × (f'.worker_runs ≡ f.worker_runs)
      × (f'.stop ≡ f.stop)
unfolding start
start-kept n f f' e = elim (Bool-cases f.running) [
  | inl on ↦ absurd (ground (arith, rw on at e))
  | inr off ↦ elim (Bool-cases (ltb f.expected_msgs n)) [
    | inl over ↦ absurd (ground (arith, rw (off, over) at e))
    | inr fits ↦
        let same : Started.started (record f { running = true; num_messages = n })
            ≡ Started.started f' =
          rw (off, fits) at e in
        (
          sym (ap (λ x. (feed_of f x).normalizer) same),
          sym (ap (λ x. (feed_of f x).drained) same),
          sym (ap (λ x. (feed_of f x).worker_runs) same),
          sym (ap (λ x. (feed_of f x).stop) same),
        )
  ]
]

pub wait-kept :
    (f : LiveFeed)
    → ((wait f).normalizer ≡ f.normalizer)
      × ((wait f).worker_runs ≡ f.worker_runs)
      × ((wait f).stop ≡ f.stop)
unfolding wait
wait-kept f = elim (Bool-cases f.running) [
  | inl on ↦ rw on (refl, refl, refl)
  | inr off ↦ rw off (refl, refl, refl)
]

wait-drained : (f : LiveFeed) → f.drained ≡ true → (wait f).drained ≡ true
unfolding wait
wait-drained f done = elim (Bool-cases f.running) [ inl on ↦ rw on refl | inr off ↦ rw off done ]

-- Only shards have workers, and once the feed is drained none of them runs.
record IsStaffed (num_shards : ℕ) (f : LiveFeed) : Type 0 where
  shards_only : (s : ℕ) → num_shards ≤ s → f.worker_runs s ≡ false
  joined : f.drained ≡ true → (s : ℕ) → f.worker_runs s ≡ false

new_live_feed-IsStaffed :
    (num_shards : ℕ) (price : ℕ → ℤ) (expected_msgs : ℕ)
    → IsStaffed num_shards (new_live_feed num_shards price expected_msgs)
unfolding new_live_feed
new_live_feed-IsStaffed num_shards price expected_msgs = record {
  shards_only = λ s le. ground (arith, le);
  joined = λ e. absurd (ground (arith, e));
}

-- What leaves the workers and `drained_` as they are leaves the feed staffed.
same-IsStaffed :
    (num_shards : ℕ) (f f' : LiveFeed)
    → f'.drained ≡ f.drained
    → f'.worker_runs ≡ f.worker_runs
    → IsStaffed num_shards f
    → IsStaffed num_shards f'
same-IsStaffed num_shards f f' drained runs staffed = record {
  shards_only = λ s le. ap (λ w. w s) runs ∙ staffed.shards_only s le;
  joined = λ e s. ap (λ w. w s) runs ∙ staffed.joined (sym drained ∙ e) s;
}

wait-IsStaffed :
    (num_shards : ℕ) (f : LiveFeed)
    → CanWait num_shards f
    → IsStaffed num_shards f
    → IsStaffed num_shards (wait f)
unfolding wait
wait-IsStaffed num_shards f can staffed = elim (Bool-cases f.running) [
  | inr off ↦ same-IsStaffed num_shards f (wait f) (rw off refl) (wait-kept f).1 staffed
  | inl on ↦ rw on (record {
    shards_only = staffed.shards_only;
    joined = λ e s. elim (Bool-cases f.drained) [
      | inl done ↦ staffed.joined done s
      | inr fresh ↦ elim (Bool-cases (ltb s num_shards)) [
        | inl lt ↦ (can on fresh).1 s (ground (arith, lt))
        | inr ge ↦ staffed.shards_only s (ground (arith, ge))
      ]
    ];
  })
]

put-false : (w : ℕ → Bool) (s t : ℕ) → w t ≡ false → put w s false t ≡ false
put-false w s t h = put-ind (λ x. x ≡ false) w s false t (λ e. refl) (λ ne. h)

turn-IsStaffed :
    {num_shards : ℕ} {f f' : LiveFeed}
    → FeedTurn num_shards f f'
    → IsStaffed num_shards f
    → IsStaffed num_shards f'
turn-IsStaffed {num_shards} (FeedTurn.called_start n f f' e) staffed =
    let (same, drained, runs, _) = start-kept n f f' e in
    same-IsStaffed num_shards f f' drained runs staffed
turn-IsStaffed {num_shards} (FeedTurn.stopped f on fresh empty) staffed =
    same-IsStaffed num_shards f _ refl refl staffed
turn-IsStaffed {num_shards} (FeedTurn.waited f can) staffed =
    wait-IsStaffed num_shards f can staffed
turn-IsStaffed {num_shards} (FeedTurn.dispatched m f on known) staffed =
    same-IsStaffed num_shards f _ refl refl staffed
turn-IsStaffed {num_shards} (FeedTurn.worked s f runs) staffed =
    same-IsStaffed num_shards f _ refl refl staffed
turn-IsStaffed {num_shards} (FeedTurn.ended s f runs stopping empty) staffed = record {
  shards_only = λ t le. put-false f.worker_runs s t (staffed.shards_only t le);
  joined = λ e t. put-false f.worker_runs s t (staffed.joined e t);
}

turns-IsStaffed :
    {num_shards : ℕ} {f f' : LiveFeed}
    → FeedTurns num_shards f f'
    → IsStaffed num_shards f
    → IsStaffed num_shards f'
turns-IsStaffed (FeedTurns.stop f) staffed = staffed
turns-IsStaffed (FeedTurns.turn a b c now later) staffed =
    turns-IsStaffed later (turn-IsStaffed now staffed)

-- A turn of a drained feed leaves it drained, and its books as they are.
turn-books :
    {num_shards : ℕ} {f f' : LiveFeed} (i : ℕ)
    → FeedTurn num_shards f f'
    → IsStaffed num_shards f
    → f.drained ≡ true
    → (book_for_instrument f'.normalizer i ≡ book_for_instrument f.normalizer i)
      × (f'.drained ≡ true)
turn-books i (FeedTurn.called_start n f f' e) staffed done =
    let (same, drained, runs, _) = start-kept n f f' e in
    (ap (λ x. book_for_instrument x i) same, drained ∙ done)
turn-books i (FeedTurn.stopped f on fresh empty) staffed done = (refl, done)
turn-books i (FeedTurn.waited f can) staffed done =
    (ap (λ x. book_for_instrument x i) (wait-kept f).0, wait-drained f done)
turn-books i (FeedTurn.dispatched m f on known) staffed done =
    (dispatch-book f.normalizer m i, done)
turn-books i (FeedTurn.worked s f runs) staffed done =
    absurd (ground (arith, runs, staffed.joined done s))
turn-books i (FeedTurn.ended s f runs stopping empty) staffed done = (refl, done)

turns-books :
    {num_shards : ℕ} {f f' : LiveFeed} (i : ℕ)
    → FeedTurns num_shards f f'
    → IsStaffed num_shards f
    → f.drained ≡ true
    → (book_for_instrument f'.normalizer i ≡ book_for_instrument f.normalizer i)
      × (f'.drained ≡ true)
turns-books i (FeedTurns.stop f) staffed done = (refl, done)
turns-books i (FeedTurns.turn a b c now later) staffed done =
    let (books, still) = turn-books i now staffed done in
    let (end_books, end) = turns-books i later (turn-IsStaffed now staffed) still in
    (end_books ∙ books, end)

-- From any state of a feed in which `wait` has drained it, reached from the constructor however its
-- threads took turns, no later turn changes the book of an instrument: messages of known instruments
-- that a second run receives are queued or dropped, and no worker is left that applies them.
pub drained-books :
    (num_shards : ℕ) (price : ℕ → ℤ) (expected_msgs : ℕ) (f f' : LiveFeed) (i : ℕ)
    → i < num_instruments
    → FeedTurns num_shards (new_live_feed num_shards price expected_msgs) f
    → f.drained ≡ true
    → FeedTurns num_shards f f'
    → (book_for_instrument f'.normalizer i ≡ book_for_instrument f.normalizer i)
      × (f'.drained ≡ true)
drained-books num_shards price expected_msgs f f' i known before done later =
    turns-books i later
      (turns-IsStaffed before (new_live_feed-IsStaffed num_shards price expected_msgs)) done
