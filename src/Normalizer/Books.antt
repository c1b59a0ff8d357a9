-- ===== src/Normalizer/Books.antt =====
-- include/normalizer.hpp, from the constructor to the books that `book_for_instrument` returns.
use exchange_market_data_dec.Prelude.{
  ℕ, zero, suc, ◌≤◌, ◌<◌, ◌≡◌, ◌≢◌, sym, ◌∙◌, ap, subst, arith, ◌==◌, inl, inr, Bool-cases, List,
  [], nat_eq, ℤ, put, put_same, put-ind,
}
use exchange_market_data_dec.Book.{OrderBook, init, new_book}
use exchange_market_data_dec.Map.{find}
use exchange_market_data_dec.Replay.{replay, fresh}
use exchange_market_data_dec.Normalizer.{
  Shard, Normalizer, num_instruments, new_normalizer, init_reference_price, init_all, Event, run,
  book_for_instrument,
}
use exchange_market_data_dec.Normalizer.Apply.{resting_of}
use exchange_market_data_dec.Map.Laws.{Distinct}
use exchange_market_data_dec.Normalizer.Assign.{
  IsAssigned, IsBlank, assign_all-IsAssigned, assign_all-IsBlank,
}
use exchange_market_data_dec.Normalizer.Serving.{for_instrument, pending, IsQueue}
use exchange_market_data_dec.Normalizer.Sharding.{IsKnown, IsServing, waiting, run-IsServing}

-- No message came yet, and the first `count` instruments have their reference prices.
pub record IsReady (price : ℕ → ℤ) (n : Normalizer) (count : ℕ) : Type 0 where
  pub orders : (s : ℕ) → (n.shards s).orders ≡ []
  pub queue : (s : ℕ) → (n.shards s).queue ≡ []
  pub apart :
      (j i : ℕ)
      → j < num_instruments
      → i < num_instruments
      → j ≢ i
      → n.instrument_to_shard j ≡ n.instrument_to_shard i
      → n.instrument_to_local j ≢ n.instrument_to_local i
  pub inited : (i : ℕ) → i < count → book_for_instrument n i ≡ init new_book (price i)
  pub uninited : (i : ℕ) → i < num_instruments → count ≤ i → book_for_instrument n i ≡ new_book

pub new_normalizer-IsReady :
    (num_shards : ℕ) (price : ℕ → ℤ) → IsReady price (new_normalizer num_shards) 0
unfolding book_for_instrument
new_normalizer-IsReady num_shards price =
    let a : IsAssigned num_shards (new_normalizer num_shards) num_instruments =
      assign_all-IsAssigned num_shards num_instruments (omega arith) in
    let blank : (s : ℕ) → IsBlank ((new_normalizer num_shards).shards s) =
      assign_all-IsBlank num_shards num_instruments in
    record {
      orders = λ s. (blank s).1;
      queue = λ s. (blank s).2;
      apart = λ j i hj hi ne same. a.apart j i hj hi ne (sym (a.shard j hj) ∙ same ∙ a.shard i hi);
      inited = λ i h. absurd (omega arith);
      uninited = λ i h le. (blank _).0 _;
    }

pub init_reference_price-IsReady :
    (price : ℕ → ℤ) (n : Normalizer) (k : ℕ)
    → k < num_instruments
    → IsReady price n k
    → IsReady price (init_reference_price n k (price k)) (suc k)
unfolding init_reference_price book_for_instrument
init_reference_price-IsReady price n k small r = record {
  orders = λ s.
      put-ind (λ x. x.orders ≡ []) n.shards (n.instrument_to_shard k) after s
        (λ e. r.orders (n.instrument_to_shard k)) (λ ne. r.orders s);
  queue = λ s.
      put-ind (λ x. x.queue ≡ []) n.shards (n.instrument_to_shard k) after s
        (λ e. r.queue (n.instrument_to_shard k)) (λ ne. r.queue s);
  apart = r.apart;
  inited = λ i h. elim (Bool-cases (k == i)) [
    | inl e ↦
        let same : k ≡ i = ground arith in
        subst
          (λ j.
            (put n.shards (n.instrument_to_shard k) after (n.instrument_to_shard j)).books
              (n.instrument_to_local j)
            ≡ init new_book (price j))
          same own
    | inr e ↦
        kept i (omega arith) (ground arith) (init new_book (price i)) (r.inited i (ground arith))
  ];
  uninited = λ i h le. kept i h (omega arith) new_book (r.uninited i h (omega arith));
}
  where
    before : Shard
    before = n.shards (n.instrument_to_shard k)

    book : OrderBook
    book = init (before.books (n.instrument_to_local k)) (price k)

    after : Shard
    after = record before { books = put before.books (n.instrument_to_local k) book }

    own :
        (put n.shards (n.instrument_to_shard k) after (n.instrument_to_shard k)).books
          (n.instrument_to_local k)
        ≡ init new_book (price k)
    own =
        ap (λ x. x.books (n.instrument_to_local k))
          (put_same n.shards (n.instrument_to_shard k) after)
        ∙ put_same before.books (n.instrument_to_local k) book
        ∙ ap (λ b. init b (price k)) (r.uninited k small (omega arith))

    kept :
        (i : ℕ)
        → i < num_instruments
        → k ≢ i
        → (b : OrderBook) → (n.shards (n.instrument_to_shard i)).books (n.instrument_to_local i) ≡ b
        → (put n.shards (n.instrument_to_shard k) after (n.instrument_to_shard i)).books
            (n.instrument_to_local i)
          ≡ b
    kept i h ne b e =
        put-ind (λ x. x.books (n.instrument_to_local i) ≡ b) n.shards (n.instrument_to_shard k)
          after (n.instrument_to_shard i)
          (λ same.
            put-ind (λ x. x ≡ b) before.books (n.instrument_to_local k) book
              (n.instrument_to_local i) (λ clash. absurd (r.apart k i small h ne same clash))
              (λ fine. ap (λ s. (n.shards s).books (n.instrument_to_local i)) same ∙ e))
          (λ away. e)

pub init_all-IsReady :
    (price : ℕ → ℤ) (n : Normalizer) (count : ℕ)
    → count ≤ num_instruments
    → IsReady price n 0
    → IsReady price (init_all price count n) count
unfolding init_all
init_all-IsReady price n zero h r = r
init_all-IsReady price n (suc count) h r =
    init_reference_price-IsReady price (init_all price count n) count (omega arith)
      (init_all-IsReady price n count (omega arith) r)

ready-IsServing :
    (owner : ℕ → ℕ) (price : ℕ → ℤ) (n : Normalizer) (i : ℕ)
    → i < num_instruments
    → IsReady price n num_instruments
    → IsServing owner i n (fresh (price i))
unfolding fresh find book_for_instrument
ready-IsServing owner price n i h r = record {
  agrees = record {
    books = r.inited i h;
    found = λ id own. sym (ap (λ m. resting_of (find id m)) (r.orders (n.instrument_to_shard i)));
    distinct = tt;
    distinct_shard = subst Distinct (sym (r.orders (n.instrument_to_shard i))) tt;
  };
  queued =
      λ s. subst (IsQueue owner n.instrument_to_shard n.instrument_to_local s) (sym (r.queue s)) tt;
  apart = λ j hj ne same. r.apart j i hj h ne same;
}

-- the normalizer that the programs start, with the reference prices of all instruments
abbrev pub started : ℕ → (ℕ → ℤ) → Normalizer
started num_shards price = init_all price num_instruments (new_normalizer num_shards)

-- However many shards there are and however the dispatcher's calls and the workers' rounds interleave,
-- whenever the queue of an instrument's shard is empty, the instrument's book is the one that its
-- messages make of a book of its own, in the order in which `dispatch` took them, if each order id is
-- used for one instrument only and the instruments are known.
pub run-books :
    (num_shards : ℕ) (price : ℕ → ℤ) (owner : ℕ → ℕ) (es : List Event) (i : ℕ)
    → i < num_instruments
    → IsKnown owner es
    → let done = run es (started num_shards price) in
      (done.0.shards (done.0.instrument_to_shard i)).queue ≡ []
      → book_for_instrument done.0 i ≡ (replay (for_instrument i done.1) (fresh (price i))).book
unfolding book_for_instrument replay pending
run-books num_shards price owner es i h known empty =
    let n = started num_shards price in
    let r : IsReady price n num_instruments =
      init_all-IsReady price (new_normalizer num_shards) num_instruments (omega arith)
        (new_normalizer-IsReady num_shards price) in
    let (st, v, e) =
      run-IsServing owner i es n (fresh (price i)) known (ready-IsServing owner price n i h r) in
    let none_left : replay (waiting owner i (run es n).0) st ≡ st =
      ap (λ q. replay (pending i q) st) empty in
    let none_yet : replay (waiting owner i n) (fresh (price i)) ≡ fresh (price i) =
      ap (λ q. replay (pending i q) (fresh (price i))) (r.queue (n.instrument_to_shard i)) in
    v.agrees.books
    ∙ ap (λ s. s.book) (sym none_left ∙ e ∙ ap (replay (for_instrument i (run es n).1)) none_yet)
