-- ===== src/Harness/Verdicts.antt =====
-- src/nbbo_fault_injection.cpp: what the whole program reports.
use mathlib.Core.Option.{none-ne-some}
use exchange_market_data_dec.Prelude.{
  ℕ, zero, suc, ◌+◌, ◌*◌, ◌%◌, ◌^◌, ◌≤◌, ◌≡◌, refl, sym, ◌∙◌, ap, arith, pos, Bool, true, false,
  Bool-cases, Option-cases, Option, none, some, List, [], ◌∷◌, ◌⊎◌, inl, inr, ◌==◌,
}
use exchange_market_data_dec.Protocol.{Side}
use exchange_market_data_dec.Book.{OrderBook}
use exchange_market_data_dec.Nbbo.{TouchSide, Quote}
use exchange_market_data_dec.Nbbo.Best.{IsBest, nobody, venue}
use exchange_market_data_dec.Guard.Injection.{find_victim, find_violation, touch_side, best_of}
use exchange_market_data_dec.Guard.Injection.Search.{find_violation-IsViolation}
use exchange_market_data_dec.Guard.Injection.Sessions.{
  seeded_caught, clean_accepted, best_of-IsBest,
}
use exchange_market_data_dec.Simulator.{Random, IsLawful}
use exchange_market_data_dec.Harness.{
  Venues, books, new_venues, side_at, is_rejected, is_caught, scenarios, clean_answer, clean_orders,
  sessions, main, passes, Report,
}
use exchange_market_data_dec.Harness.Steps.{
  AllRoom, less-AllRoom, new_venues-AllRoom, step_venues-AllRoom, warm_up-AllRoom, search-AllRoom,
}

found_at {ℓ} :
    {A : Type ℓ} {found : Option A} {a : A} (looked : Option A)
    → (found ≡ none) ⊎ (looked ≡ found)
    → found ≡ some a
    → looked ≡ some a
found_at looked (inl nothing) f = absurd (none-ne-some _ (sym nothing ∙ f))
found_at looked (inr same) f = same ∙ f

-- A valid best quote is of a venue.
best_place :
    (t : TouchSide) (venues : List OrderBook) (q : Quote)
    → IsBest t venues q
    → q.valid ≡ true
    → (k : ℕ) × (q.venue_id ≡ pos k)
best_place t venues q (nobody e none_has) valid =
    let invalid : q.valid ≡ false = ap (λ (x : Quote). x.valid) e in
    absurd (ground (arith, valid, invalid))
best_place t venues q (venue k v at has e all before) valid = (k, ap (λ (x : Quote). x.venue_id) e)

-- The report of a run without a miss or a false positive.
abbrev pub report : ℕ → ℕ → Report
report constructed clean_total = record {
  constructed = constructed;
  caught = constructed;
  clean_total = clean_total;
  false_positives = 0;
}

module _ (r : Random) where
  -- A pair that the search finds is caught.
  is_caught_found :
      (side : Side) (vs : Venues r) (victim rival : ℕ)
      → find_victim (touch_side side) (books r vs) 0 (books r vs) ≡ some (victim, rival)
      → is_caught r side victim vs ≡ some true
  unfolding is_caught find_violation
  is_caught_found side vs victim rival found =
      let e : find_violation (touch_side side) (books r vs ∷ [])
          ≡ some (victim, rival, books r vs) =
        rw (find_violation, found) refl in
      let v =
        find_violation-IsViolation (touch_side side) (books r vs ∷ []) victim rival (books r vs)
          e in
      let (answer, is, rejected) =
        seeded_caught side (books r vs ∷ []) victim rival (books r vs) v.own e v.own_at in
      rw (is_caught, v.own_at, is) (ap (λ d. some (is_rejected d)) rejected)

  -- An order of part 2 is not sent, or not rejected.
  clean_answer_lem :
      (side : Side) (resting : Bool) (venues : List OrderBook)
      → (clean_answer r side resting venues ≡ some none)
        ⊎ (clean_answer r side resting venues ≡ some (some false))
  unfolding clean_answer
  clean_answer_lem side resting venues = elim (Bool-cases (best_of side venues).valid) [
    | inr invalid ↦ inl (rw (clean_answer, invalid) refl)
    | inl valid ↦
        let (k, at) =
          best_place (touch_side side) venues (best_of side venues) (best_of-IsBest side venues)
            valid in
        let (answer, is, accepted) = clean_accepted side resting k venues valid at in
        inr (rw (clean_answer, valid, at, is) (ap (λ d. some (some (is_rejected d))) accepted))
  ]

  module _ (law : IsLawful r) where
    scenarios_lem :
        (left n constructed count : ℕ) (vs : Venues r)
        → AllRoom r (left * 50001 + count) vs
        → (total : ℕ) × (scenarios r left n constructed constructed vs ≡ some (total, total))
          × (total ≤ constructed + left)
    unfolding scenarios
    scenarios_lem zero n constructed count vs h = (constructed, refl, omega arith)
    scenarios_lem (suc left) n constructed count vs h =
        let (found, vs1, e, h1, pair) =
          search-AllRoom r law (touch_side (side_at n)) 50000 (suc (left * 50001 + count)) vs (
            less-AllRoom r (suc left * 50001 + count) (50000 + suc (left * 50001 + count)) vs
              (omega arith) h) in
        elim (Option-cases found) [
          | inl nothing ↦ (constructed, rw (scenarios, e, nothing) refl, omega arith)
          | inr ((victim, rival), f) ↦
              let at : find_victim (touch_side (side_at n)) (books r vs1) 0 (books r vs1)
                  ≡ some (victim, rival) =
                found_at _ pair f in
              let hit = is_caught_found (side_at n) vs1 victim rival at in
              let (vs2, e2, h2) = step_venues-AllRoom r law (left * 50001 + count) vs1 h1 in
              let (total, e3, few) = scenarios_lem left (n + 1) (constructed + 1) count vs2 h2 in
              (total, rw (scenarios, e, f, hit, e2) e3, omega (arith, few))
        ]

    clean_orders_lem :
        (left k total count : ℕ) (vs : Venues r)
        → AllRoom r (left + count) vs
        → (total' : ℕ) × (clean_orders r left k total 0 vs ≡ some (total', 0))
          × (total' ≤ total + left)
    unfolding clean_orders
    clean_orders_lem zero k total count vs h = (total, refl, omega arith)
    clean_orders_lem (suc left) k total count vs h =
        let (vs1, e, h1) =
          step_venues-AllRoom r law (left + count) vs
            (less-AllRoom r (suc left + count) (suc (left + count)) vs (omega arith) h) in
        elim (clean_answer_lem (side_at k) (k % 3 == 0) (books r vs1)) [
          | inl unsent ↦
              let (total', e', few) = clean_orders_lem left (k + 1) total count vs1 h1 in
              (total', rw (clean_orders, e, unsent) e', omega (arith, few))
          | inr fine ↦
              let (total', e', few) = clean_orders_lem left (k + 1) (total + 1) count vs1 h1 in
              (total', rw (clean_orders, e, fine) e', omega (arith, few))
        ]

    sessions_lem :
        (seed left session total : ℕ)
        → (total' : ℕ) × (sessions r seed left session total 0 ≡ some (total', 0))
          × (total' ≤ total + left * 50)
    unfolding sessions
    sessions_lem seed zero session total = (total, refl, omega arith)
    sessions_lem seed (suc left) session total =
        let seed' = (seed + 1000 + session * 7) % 2 ^ 32 in
        let (vs, e, h) =
          warm_up-AllRoom r law 20 50 (new_venues r seed' (pos 25000))
            (new_venues-AllRoom r seed' (20 + 50) (pos 25000) (omega arith)) in
        let (total1, e1, few1) =
          clean_orders_lem 50 0 total 0 vs (less-AllRoom r 50 (50 + 0) vs (omega arith) h) in
        let (total2, e2, few2) = sessions_lem seed left (session + 1) total1 in
        (total2, rw (sessions, e, e1) e2, omega (arith, few1, few2))

    -- For every seed, and whatever the random engines draw, the program runs to its end: the guard rejects
    -- the order of every scenario that was constructed, and none of the orders that the clean sessions send,
    -- 2000 at most. So the program passes exactly if it constructed 2000 scenarios.
    pub main_lem :
        (seed : ℕ)
        → (constructed clean_total : ℕ) × (main r seed ≡ some (report constructed clean_total))
          × (passes (report constructed clean_total) ≡ (constructed == 2000))
          × (clean_total ≤ 2000)
    unfolding main
    main_lem seed =
        let (vs, e, h) =
          warm_up-AllRoom r law 50 (2000 * 50001 + 0) (new_venues r seed (pos 25000))
            (new_venues-AllRoom r seed (50 + (2000 * 50001 + 0)) (pos 25000) (omega arith)) in
        let (constructed, e1, few1) = scenarios_lem 2000 0 0 0 vs h in
        let (clean_total, e2, few2) = sessions_lem seed 40 0 0 in
        (constructed, clean_total, rw (main, e, e1, e2) refl, ground arith, omega (arith, few2))
