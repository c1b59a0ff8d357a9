-- ===== src/Harness.antt =====
-- src/nbbo_fault_injection.cpp: the whole program but its printing. A scan that reads past the end of a
-- vector would give none.
pub mod Steps
pub mod Verdicts
mod Tests
use exchange_market_data_dec.Prelude.{
  ℕ, zero, suc, ◌+◌, ◌*◌, ◌%◌, ◌^◌, ◌==◌, ℤ, pos, negsuc, Bool, true, false, ◌&&◌, Option, none,
  some, List, [], ◌∷◌, map, get_elem?, if◌then◌else◌,
}
use exchange_market_data_dec.Protocol.{Side}
use exchange_market_data_dec.Book.{OrderBook}
use exchange_market_data_dec.Nbbo.{TouchSide}
use exchange_market_data_dec.Guard.{GuardDecision, evaluate}
use exchange_market_data_dec.Guard.Injection.{
  find_victim, touch_side, seeded_order, best_of, clean_order,
}
use exchange_market_data_dec.Simulator.{Random}
use exchange_market_data_dec.Venue.Driven.{DrivenVenue, new_driven_venue, drive}

abbrev is_rejected : GuardDecision → Bool
is_rejected GuardDecision.rejected_trade_through = true
is_rejected d = false

-- `buy` alternates with the number of the order
abbrev pub side_at : ℕ → Side
side_at n = if n % 2 == 0 then Side.buy else Side.sell

-- what the program prints and decides on
pub record Report : Type 0 where
  pub constructed : ℕ
  pub caught : ℕ
  pub clean_total : ℕ
  pub false_positives : ℕ

-- `part1_ok && part2_ok`
abbrev pub passes : Report → Bool
passes report = (report.constructed == 2000 && report.caught == 2000) && report.false_positives == 0

module _ (r : Random) where
  -- `Venues3`
  abbrev pub Venues : Type 0
  Venues = List (DrivenVenue r)

  abbrev pub books : Venues → List OrderBook
  books [] = []
  books (v ∷ vs) = v.feed.book ∷ books vs

  unfoldable pub new_venues : ℕ → ℤ → Venues
  new_venues seed_base ref_price =
      new_driven_venue r 0 ((seed_base + 1) % 2 ^ 32) ref_price
      ∷ new_driven_venue r 1 ((seed_base + 2) % 2 ^ 32) ref_price
      ∷ new_driven_venue r 2 ((seed_base + 3) % 2 ^ 32) ref_price
      ∷ []

  -- `Venues3::step_all`
  unfoldable pub step_venues : Venues → Option Venues
  step_venues [] = some []
  step_venues (v ∷ vs) = elim (drive r v) [
    | none ↦ none
    | some v' ↦ elim (step_venues vs) [ none ↦ none | some vs' ↦ some (v' ∷ vs') ]
  ]

  -- `for (int i = 0; i < rounds; ++i) v.step_all();`
  unfoldable pub warm_up : ℕ → Venues → Option Venues
  warm_up zero vs = some vs
  warm_up (suc rounds) vs = elim (step_venues vs) [ none ↦ none | some vs' ↦ warm_up rounds vs' ]

  -- `find_buy_violation` and `find_sell_violation`: victim and rival, if any, and the venues there
  unfoldable pub search : TouchSide → ℕ → Venues → Option (Option (ℕ × ℕ) × Venues)
  search t zero vs = some (none, vs)
  search t (suc steps) vs = elim (find_victim t (books vs) 0 (books vs)) [
    | some pair ↦ some (some pair, vs)
    | none ↦ elim (step_venues vs) [ none ↦ none | some vs' ↦ search t steps vs' ]
  ]

  -- the guard's answer to the order sent to the victim, and whether it is the rejection wanted
  unfoldable pub is_caught : Side → ℕ → Venues → Option Bool
  is_caught side victim vs = elim (get_elem? (books vs) victim) [
    | none ↦ none
    | some own ↦ elim (evaluate (seeded_order side victim own) (books vs)) [
      | none ↦ none
      | some answer ↦ some (is_rejected answer.decision)
    ]
  ]

  -- part 1, the scenarios that are left: how many were constructed and caught
  unfoldable pub scenarios : ℕ → ℕ → ℕ → ℕ → Venues → Option (ℕ × ℕ)
  scenarios zero n constructed caught vs = some (constructed, caught)
  scenarios (suc left) n constructed caught vs = elim (search (touch_side (side_at n)) 50000 vs) [
    | none ↦ none
    | some (none, vs') ↦ some (constructed, caught)
    | some (some (victim, rival), vs') ↦ elim (is_caught (side_at n) victim vs') [
      | none ↦ none
      | some hit ↦ elim (step_venues vs') [
        | none ↦ none
        | some vs'' ↦
            scenarios left (n + 1) (constructed + 1) (if hit then caught + 1 else caught) vs''
      ]
    ]
  ]

  -- an order of part 2 to the venue of the best quote, if there is one: whether it is rejected
  unfoldable pub clean_answer : Side → Bool → List OrderBook → Option (Option Bool)
  clean_answer side resting venues =
      let best = best_of side venues in
      if best.valid
      then elim best.venue_id [
        | negsuc n ↦ none
        | pos venue_id ↦
            elim (evaluate (clean_order side resting venue_id best.price_ticks) venues) [
              | none ↦ none
              | some answer ↦ some (some (is_rejected answer.decision))
            ]
      ]
      else some none

  -- the orders that are left of a session: how many were sent, and how many were rejected
  unfoldable pub clean_orders : ℕ → ℕ → ℕ → ℕ → Venues → Option (ℕ × ℕ)
  clean_orders zero k total rejected vs = some (total, rejected)
  clean_orders (suc left) k total rejected vs = elim (step_venues vs) [
    | none ↦ none
    | some vs' ↦ elim (clean_answer (side_at k) (k % 3 == 0) (books vs')) [
      | none ↦ none
      | some none ↦ clean_orders left (k + 1) total rejected vs'
      | some (some bad) ↦
          clean_orders left (k + 1) (total + 1) (if bad then rejected + 1 else rejected) vs'
    ]
  ]

  -- part 2, the sessions that are left
  unfoldable pub sessions : ℕ → ℕ → ℕ → ℕ → ℕ → Option (ℕ × ℕ)
  sessions seed zero session total rejected = some (total, rejected)
  sessions seed (suc left) session total rejected =
      elim (warm_up 20 (new_venues ((seed + 1000 + session * 7) % 2 ^ 32) (pos 25000))) [
        | none ↦ none
        | some vs ↦ elim (clean_orders 50 0 total rejected vs) [
          | none ↦ none
          | some (total', rejected') ↦ sessions seed left (session + 1) total' rejected'
        ]
      ]

  -- `main`
  unfoldable pub main : ℕ → Option Report
  main seed = elim (warm_up 50 (new_venues seed (pos 25000))) [
    | none ↦ none
    | some vs ↦ elim (scenarios 2000 0 0 0 vs) [
      | none ↦ none
      | some (constructed, caught) ↦ elim (sessions seed 40 0 0 0) [
        | none ↦ none
        | some (total, rejected) ↦ some (record {
          constructed = constructed;
          caught = caught;
          clean_total = total;
          false_positives = rejected;
        })
      ]
    ]
  ]
