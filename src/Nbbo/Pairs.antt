-- ===== src/Nbbo/Pairs.antt =====
-- NbboAggregator::classify (include/nbbo.hpp) against the pairs of venues whose quotes overlap.
use exchange_market_data_dec.Prelude.{
  ℕ, zero, suc, ◌+◌, ℤ, ◌≤ℤ◌, ltb_ℤ, ◌==ℤ◌, true, false, not, ◌||◌, ◌≡◌, ◌≢◌, refl, inl, inr, arith,
  ◌==◌, if◌then◌else◌, Bool-cases, subst, List, [], ◌∷◌, get_elem?, some, ap, ap₂, sym, ◌∙◌, In,
  In-append_left, In-append_right, In-append, not-In,
}
use exchange_market_data_dec.Book.{OrderBook, has_bid, has_ask, best_bid_ticks, best_ask_ticks}
use exchange_market_data_dec.Nbbo.{
  QuoteRelation, LockedCrossedPair, relate, against_offers, classify_from, classify,
}

-- A bid at or above an offer: locked where they are equal, otherwise crossed.
abbrev pub pair : ℕ → ℕ → ℤ → ℤ → LockedCrossedPair
pair i j bid offer = record {
  bid_venue = i;
  offer_venue = j;
  bid_ticks = bid;
  offer_ticks = offer;
  relation = if bid ==ℤ offer then QuoteRelation.locked else QuoteRelation.crossed;
}

In-relate :
    (i j : ℕ) (bid offer : ℤ) → offer ≤ℤ bid → In (pair i j bid offer) (relate i j bid offer)
unfolding relate
In-relate i j bid offer h = elim (Bool-cases (bid ==ℤ offer)) [
  | inl e ↦ rw e (inl refl)
  | inr e ↦ let beyond : ltb_ℤ offer bid ≡ true = ground arith in rw (e, beyond) (inl refl)
]

relate-In :
    (p : LockedCrossedPair) (i j : ℕ) (bid offer : ℤ)
    → In p (relate i j bid offer)
    → (p ≡ pair i j bid offer) × (offer ≤ℤ bid)
unfolding relate
relate-In p i j bid offer h = ground arith

-- Venue `i` bids at or above what another venue `j` offers.
pub record Overlaps (venues : List OrderBook) (p : LockedCrossedPair) : Type 0 where
  pub bidder : OrderBook
  pub offerer : OrderBook
  pub bid_at : get_elem? venues p.bid_venue ≡ some bidder
  pub offer_at : get_elem? venues p.offer_venue ≡ some offerer
  pub distinct : p.bid_venue ≢ p.offer_venue
  pub bids : has_bid bidder ≡ true
  pub offers : has_ask offerer ≡ true
  pub reaches : best_ask_ticks offerer ≤ℤ best_bid_ticks bidder
  pub prices : p ≡ pair p.bid_venue p.offer_venue (best_bid_ticks bidder) (best_ask_ticks offerer)

In-against :
    (i : ℕ) (bid : ℤ) (j k n : ℕ) (venues : List OrderBook) (v : OrderBook)
    → n ≡ j + k
    → get_elem? venues k ≡ some v
    → i ≢ n
    → has_ask v ≡ true
    → best_ask_ticks v ≤ℤ bid
    → In (pair i n bid (best_ask_ticks v)) (against_offers i bid j venues)
unfolding against_offers
In-against i bid j k n [] v e at ne has le = cc
In-against i bid j zero n (x ∷ venues) v e at ne has le =
    let here : n ≡ j = omega arith in
    let same : x ≡ v = ground arith in
    let kept : (i == j || not (has_ask x)) ≡ false = ground arith in
    In-append_left _ _ (against_offers i bid (j + 1) venues)
      (rw (kept, here, same) (In-relate i j bid (best_ask_ticks v) le))
In-against i bid j (suc k) n (x ∷ venues) v e at ne has le =
    In-append_right _ _ (against_offers i bid (j + 1) venues)
      (In-against i bid (j + 1) k n venues v (omega arith) at ne has le)

-- what one round of the inner loop reports, and one round of the outer loop
abbrev now_pairs : ℕ → ℤ → ℕ → OrderBook → List LockedCrossedPair
now_pairs i bid j v = if i == j || not (has_ask v) then [] else relate i j bid (best_ask_ticks v)

abbrev now_bids : List OrderBook → ℕ → OrderBook → List LockedCrossedPair
now_bids venues i v = if has_bid v then against_offers i (best_bid_ticks v) 0 venues else []

-- an offer that the inner loop reports
record Reported (p : LockedCrossedPair) (i : ℕ) (bid : ℤ) (j : ℕ) (venues : List OrderBook)
    : Type 0 where
  place : ℕ
  offerer : OrderBook
  offer_at : get_elem? venues place ≡ some offerer
  distinct : i ≢ j + place
  offers : has_ask offerer ≡ true
  reaches : best_ask_ticks offerer ≤ℤ bid
  same : p ≡ pair i (j + place) bid (best_ask_ticks offerer)

against-Reported :
    (p : LockedCrossedPair) (i : ℕ) (bid : ℤ) (j : ℕ) (venues : List OrderBook)
    → In p (against_offers i bid j venues)
    → Reported p i bid j venues
unfolding against_offers
against-Reported p i bid j [] h = absurd h.lower
against-Reported p i bid j (x ∷ venues) h =
    elim (In-append p (now_pairs i bid j x) (against_offers i bid (j + 1) venues) h) [
      | inl now ↦ elim (Bool-cases (i == j || not (has_ask x))) [
        | inl skipped ↦ absurd (not-In p (rw skipped at now))
        | inr kept ↦
            let found = relate-In p i j bid (best_ask_ticks x) (rw kept at now) in
            record {
              place = 0;
              offerer = x;
              offer_at = refl;
              distinct = ground arith;
              offers = ground arith;
              reaches = found.1;
              same = found.0 ∙ ap (λ n. pair i n bid (best_ask_ticks x)) (omega arith);
            }
      ]
      | inr later ↦
          let r = against-Reported p i bid (j + 1) venues later in
          record {
            place = suc r.place;
            offerer = r.offerer;
            offer_at = r.offer_at;
            distinct = λ e. r.distinct (omega arith);
            offers = r.offers;
            reaches = r.reaches;
            same = r.same ∙ ap (λ n. pair i n bid (best_ask_ticks r.offerer)) (omega arith);
          }
    ]

In-classify_from :
    (venues : List OrderBook) (i k n m : ℕ) (rest : List OrderBook) (b v : OrderBook)
    → n ≡ i + k
    → get_elem? rest k ≡ some b
    → get_elem? venues m ≡ some v
    → n ≢ m
    → has_bid b ≡ true
    → has_ask v ≡ true
    → best_ask_ticks v ≤ℤ best_bid_ticks b
    → In (pair n m (best_bid_ticks b) (best_ask_ticks v)) (classify_from venues i rest)
unfolding classify_from
In-classify_from venues i k n m [] b v e at at' ne bids asks le = cc
In-classify_from venues i zero n m (x ∷ rest) b v e at at' ne bids asks le =
    let here : n ≡ i = omega arith in
    let same : x ≡ b = ground arith in
    In-append_left _ _ (classify_from venues (i + 1) rest) (
      rw (same, bids, ← here)
        (In-against n (best_bid_ticks b) 0 m m venues v (omega arith) at' ne asks le))
In-classify_from venues i (suc k) n m (x ∷ rest) b v e at at' ne bids asks le =
    In-append_right _ _ (classify_from venues (i + 1) rest)
      (In-classify_from venues (i + 1) k n m rest b v (omega arith) at at' ne bids asks le)

-- Each bid that reaches the offer of another venue is reported, as locked where the two prices are
-- equal and as crossed otherwise.
pub In-classify :
    (venues : List OrderBook) (n m : ℕ) (b v : OrderBook)
    → get_elem? venues n ≡ some b
    → get_elem? venues m ≡ some v
    → n ≢ m
    → has_bid b ≡ true
    → has_ask v ≡ true
    → best_ask_ticks v ≤ℤ best_bid_ticks b
    → In (pair n m (best_bid_ticks b) (best_ask_ticks v)) (classify venues)
unfolding classify
In-classify venues n m b v at at' ne bids asks le =
    In-classify_from venues 0 n n m venues b v (omega arith) at at' ne bids asks le

-- a bid that the outer loop reports
record Listed (p : LockedCrossedPair) (venues : List OrderBook) (i : ℕ) (rest : List OrderBook)
    : Type 0 where
  place : ℕ
  bidder : OrderBook
  bid_at : get_elem? rest place ≡ some bidder
  bids : has_bid bidder ≡ true
  reported : Reported p (i + place) (best_bid_ticks bidder) 0 venues

classify_from-Listed :
    (p : LockedCrossedPair) (venues : List OrderBook) (i : ℕ) (rest : List OrderBook)
    → In p (classify_from venues i rest)
    → Listed p venues i rest
unfolding classify_from
classify_from-Listed p venues i [] h = absurd h.lower
classify_from-Listed p venues i (x ∷ rest) h =
    elim (In-append p (now_bids venues i x) (classify_from venues (i + 1) rest) h) [
      | inl now ↦ elim (Bool-cases (has_bid x)) [
        | inl bids ↦ record {
          place = 0;
          bidder = x;
          bid_at = refl;
          bids = bids;
          reported =
              subst (λ n. Reported p n (best_bid_ticks x) 0 venues) (omega arith)
                (against-Reported p i (best_bid_ticks x) 0 venues (rw bids at now));
        }
        | inr none_bid ↦ absurd (not-In p (rw none_bid at now))
      ]
      | inr later ↦
          let r = classify_from-Listed p venues (i + 1) rest later in
          record {
            place = suc r.place;
            bidder = r.bidder;
            bid_at = r.bid_at;
            bids = r.bids;
            reported =
                subst (λ n. Reported p n (best_bid_ticks r.bidder) 0 venues) (omega arith)
                  r.reported;
          }
    ]

-- Each pair that is reported is a bid of one venue at or above the offer of another venue, with their
-- indices and prices, locked where the prices are equal and crossed otherwise.
pub classify-Overlaps :
    (p : LockedCrossedPair) (venues : List OrderBook) → In p (classify venues) → Overlaps venues p
unfolding classify
classify-Overlaps p venues h =
    let l = classify_from-Listed p venues 0 venues h in
    let r = l.reported in
    let q = pair l.place r.place (best_bid_ticks l.bidder) (best_ask_ticks r.offerer) in
    let same : p ≡ q =
      r.same
      ∙ ap₂ (λ n m. pair n m (best_bid_ticks l.bidder) (best_ask_ticks r.offerer)) (omega arith)
          (omega arith) in
    subst (Overlaps venues) (sym same) (record {
      bidder = l.bidder;
      offerer = r.offerer;
      bid_at = l.bid_at;
      offer_at = r.offer_at;
      distinct = λ e. r.distinct (omega arith);
      bids = l.bids;
      offers = r.offers;
      reaches = r.reaches;
      prices = refl;
    })
