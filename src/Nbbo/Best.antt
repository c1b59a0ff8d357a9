-- ===== src/Nbbo/Best.antt =====
-- NbboAggregator::best_bid and best_offer (include/nbbo.hpp) against what a national best bid and
-- offer is: the best touch of all venues, of the lowest index on a tie.
use exchange_market_data_dec.Prelude.{
  ℕ, zero, suc, ◌+◌, ◌<◌, ℤ, Bool, true, false, not, ◌&&◌, ◌||◌, ◌≡◌, refl, inl, inr, arith,
  Bool-cases, subst, List, [], ◌∷◌, get_elem?, some, ap, ◌∙◌,
}
use exchange_market_data_dec.Book.{OrderBook}
use exchange_market_data_dec.Nbbo.{
  Quote, no_quote, TouchSide, bid_side, offer_side, quote_of, best_from, best_bid, best_offer,
}

-- What the loop needs of the order of prices.
record IsOrder (better : ℤ → ℤ → Bool) : Type 0 where
  asym : (a b : ℤ) → better a b ≡ true → better b a ≡ false
  irrefl : (a : ℤ) → better a a ≡ false
  trans : (a b c : ℤ) → better a b ≡ true → better b c ≡ true → better a c ≡ true
  trans_not : (a b c : ℤ) → better a b ≡ true → better c b ≡ false → better a c ≡ true

bid_side-IsOrder : IsOrder bid_side.better
bid_side-IsOrder = record {
  asym = λ a b h. ground arith;
  irrefl = λ a. ground arith;
  trans = λ a b c h k. ground arith;
  trans_not = λ a b c h k. ground arith;
}

offer_side-IsOrder : IsOrder offer_side.better
offer_side-IsOrder = record {
  asym = λ a b h. ground arith;
  irrefl = λ a. ground arith;
  trans = λ a b c h k. ground arith;
  trans_not = λ a b c h k. ground arith;
}

-- A property of every indexed element of a list, from the head's and the tail's.
pub for_cons {ℓ κ} :
    {A : Type ℓ} (P : ℕ → A → Type κ) (v : A) (xs : List A)
    → P 0 v
    → ((j : ℕ) (w : A) → get_elem? xs j ≡ some w → P (suc j) w)
    → (j : ℕ) (w : A) → get_elem? (v ∷ xs) j ≡ some w
    → P j w
for_cons P v xs h t zero w e = let same : v ≡ w = ground arith in subst (P 0) same h
for_cons P v xs h t (suc j) w e = t j w e

module _ (t : TouchSide) where
  -- The loop went through `venues` from index `i` with `best` so far, and ended with `r`.
  data Chooses (i : ℕ) (best : Quote) (venues : List OrderBook) (r : Quote) : Type 0 where
    keeps :
        r ≡ best
        → ((j : ℕ) (w : OrderBook)
            → get_elem? venues j ≡ some w
            → t.has w ≡ true
            → (best.valid ≡ true) × (t.better (t.ticks w) best.price_ticks ≡ false))
        → Chooses i best venues r
    takes :
        (k : ℕ) (v : OrderBook)
        → get_elem? venues k ≡ some v
        → t.has v ≡ true
        → r ≡ quote_of t (i + k) v
        → (best.valid ≡ true → t.better (t.ticks v) best.price_ticks ≡ true)
        → ((j : ℕ) (w : OrderBook)
            → get_elem? venues j ≡ some w
            → t.has w ≡ true
            → t.better (t.ticks w) (t.ticks v) ≡ false)
        → ((j : ℕ) (w : OrderBook)
            → get_elem? venues j ≡ some w
            → t.has w ≡ true
            → j < k
            → t.better (t.ticks v) (t.ticks w) ≡ true)
        → Chooses i best venues r

  -- the venue at the head of the list beats the best so far
  abbrev improves : Quote → OrderBook → Bool
  improves best v = t.has v && (not best.valid || t.better (t.ticks v) best.price_ticks)

  module _ (o : IsOrder t.better) where
    after_head :
        (i : ℕ) (best : Quote) (v : OrderBook) (venues : List OrderBook) (r : Quote)
        → improves best v ≡ true
        → Chooses (i + 1) (quote_of t i v) venues r
        → Chooses i best (v ∷ venues) r
    after_head i best v venues r p (keeps e all) =
        takes 0 v refl (ground arith) (e ∙ ap (λ k. quote_of t k v) (omega arith))
          (λ h. ground arith)
          (for_cons (λ j w. t.has w ≡ true → t.better (t.ticks w) (t.ticks v) ≡ false) v venues
            (λ h. o.irrefl (t.ticks v)) (λ j w at h. (all j w at h).1))
          (λ j w at h lt. absurd (omega arith))
    after_head i best v venues r p (takes k w at has e beats all before) =
        takes (suc k) w at has (e ∙ ap (λ k. quote_of t k w) (omega arith))
          (λ h. o.trans (t.ticks w) (t.ticks v) best.price_ticks (beats refl) (ground arith))
          (for_cons (λ j x. t.has x ≡ true → t.better (t.ticks x) (t.ticks w) ≡ false) v venues
            (λ h. o.asym (t.ticks w) (t.ticks v) (beats refl)) all)
          (for_cons (λ j x. t.has x ≡ true → j < suc k → t.better (t.ticks w) (t.ticks x) ≡ true) v
            venues (λ h lt. beats refl) (λ j x at' h lt. before j x at' h (omega arith)))

    skip_head :
        (i : ℕ) (best : Quote) (v : OrderBook) (venues : List OrderBook) (r : Quote)
        → improves best v ≡ false
        → Chooses (i + 1) best venues r
        → Chooses i best (v ∷ venues) r
    skip_head i best v venues r p (keeps e all) = keeps e (
        for_cons
          (λ j w.
            t.has w ≡ true → (best.valid ≡ true) × (t.better (t.ticks w) best.price_ticks ≡ false))
          v venues (λ h. (ground arith, ground arith)) all)
    skip_head i best v venues r p (takes k w at has e beats all before) =
        takes (suc k) w at has (e ∙ ap (λ k. quote_of t k w) (omega arith)) beats
          (for_cons (λ j x. t.has x ≡ true → t.better (t.ticks x) (t.ticks w) ≡ false) v venues
            (λ h. o.asym (t.ticks w) (t.ticks v) (ahead h)) all)
          (for_cons (λ j x. t.has x ≡ true → j < suc k → t.better (t.ticks w) (t.ticks x) ≡ true) v
            venues (λ h lt. ahead h) (λ j x at' h lt. before j x at' h (omega arith)))
      where
        ahead : t.has v ≡ true → t.better (t.ticks w) (t.ticks v) ≡ true
        ahead h =
            o.trans_not (t.ticks w) best.price_ticks (t.ticks v) (beats (ground arith))
              (ground arith)

    best_from-Chooses :
        (i : ℕ) (best : Quote) (venues : List OrderBook)
        → Chooses i best venues (best_from t i best venues)
    unfolding best_from
    best_from-Chooses i best [] = keeps refl (λ j w at h. cc)
    best_from-Chooses i best (v ∷ venues) = elim (Bool-cases (improves best v)) [
      | inl p ↦
          rw p (after_head i best v venues _ p (best_from-Chooses (i + 1) (quote_of t i v) venues))
      | inr p ↦ rw p (skip_head i best v venues _ p (best_from-Chooses (i + 1) best venues))
    ]

-- The best touch of some venues: none where no venue has one, otherwise that of a venue `k`.
pub data IsBest (t : TouchSide) (venues : List OrderBook) (q : Quote) : Type 0 where
  nobody :
      q ≡ no_quote
      → ((j : ℕ) (w : OrderBook) → get_elem? venues j ≡ some w → t.has w ≡ false)
      → IsBest t venues q
  venue :
      (k : ℕ) (v : OrderBook)
      → get_elem? venues k ≡ some v
      → t.has v ≡ true
      → q ≡ quote_of t k v
      → ((j : ℕ) (w : OrderBook)
          → get_elem? venues j ≡ some w
          → t.has w ≡ true
          → t.better (t.ticks w) (t.ticks v) ≡ false)
      → ((j : ℕ) (w : OrderBook)
          → get_elem? venues j ≡ some w
          → t.has w ≡ true
          → j < k
          → t.better (t.ticks v) (t.ticks w) ≡ true)
      → IsBest t venues q

Chooses-IsBest :
    (t : TouchSide) (venues : List OrderBook) (q : Quote)
    → Chooses t 0 no_quote venues q
    → IsBest t venues q
Chooses-IsBest t venues q (keeps e all) =
    nobody e (λ j w at. lacks (t.has w) (λ h. (all j w at h).0))
  where
    lacks : (b : Bool) → (b ≡ true → false ≡ true) → b ≡ false
    lacks true h = cc (h refl)
    lacks false h = refl
Chooses-IsBest t venues q (takes k v at has e beats all before) =
    venue k v at has (e ∙ ap (λ k. quote_of t k v) (omega arith)) all before

-- `best_bid` returns a bid that none beats by its comparison, of the first venue that makes it.
pub best_bid-IsBest : (venues : List OrderBook) → IsBest bid_side venues (best_bid venues)
unfolding best_bid
best_bid-IsBest venues =
    Chooses-IsBest bid_side venues _ (best_from-Chooses bid_side bid_side-IsOrder 0 no_quote venues)

-- `best_offer` returns an offer that none beats by its comparison, of the first venue that makes it.
pub best_offer-IsBest : (venues : List OrderBook) → IsBest offer_side venues (best_offer venues)
unfolding best_offer
best_offer-IsBest venues =
    Chooses-IsBest offer_side venues _
      (best_from-Chooses offer_side offer_side-IsOrder 0 no_quote venues)
