-- ===== src/Harness/Steps.antt =====
-- src/nbbo_fault_injection.cpp: the venues go on as far as the program steps them.
use exchange_market_data_dec.Prelude.{
  ℕ, zero, suc, ◌+◌, ◌%◌, ◌^◌, ◌≤◌, ◌<◌, ◌≡◌, refl, arith, ℤ, Option, none, some, [], ◌∷◌,
  Option-cases, ◌⊎◌, inl, inr,
}
use exchange_market_data_dec.Nbbo.{TouchSide}
use exchange_market_data_dec.Guard.Injection.{find_victim}
use exchange_market_data_dec.Simulator.{Random, IsLawful}
use exchange_market_data_dec.Venue.Driven.{HasRoom, new_driven_venue-HasRoom, drive-HasRoom}
use exchange_market_data_dec.Harness.{Venues, books, new_venues, step_venues, warm_up, search}

module _ (r : Random) where
  -- Every venue can be stepped `count` times more.
  abbrev pub AllRoom : ℕ → Venues r → Type 0
  AllRoom count [] = Unit
  AllRoom count (v ∷ vs) = HasRoom r count v × AllRoom count vs

  pub less-AllRoom : (a b : ℕ) (vs : Venues r) → b ≤ a → AllRoom a vs → AllRoom b vs
  less-AllRoom a b [] le h = tt
  less-AllRoom a b (v ∷ vs) le h = (
    record { state = h.0.state; tracked = h.0.tracked; room = omega (arith, h.0.room, le) },
    less-AllRoom a b vs le h.1,
  )

  pub new_venues-AllRoom :
      (seed count : ℕ) (price : ℤ) → count + 1 < 2 ^ 64 → AllRoom count (new_venues r seed price)
  unfolding new_venues
  new_venues-AllRoom seed count price small = (
    new_driven_venue-HasRoom r 0 ((seed + 1) % 2 ^ 32) count price small,
    (
      new_driven_venue-HasRoom r 1 ((seed + 2) % 2 ^ 32) count price small,
      (new_driven_venue-HasRoom r 2 ((seed + 3) % 2 ^ 32) count price small, tt),
    ),
  )

  module _ (law : IsLawful r) where
    pub step_venues-AllRoom :
        (count : ℕ) (vs : Venues r)
        → AllRoom (suc count) vs
        → (vs' : Venues r) × (step_venues r vs ≡ some vs') × AllRoom count vs'
    unfolding step_venues
    step_venues-AllRoom count [] h = ([], refl, tt)
    step_venues-AllRoom count (v ∷ vs) h =
        let (v', e, room) = drive-HasRoom r law count v h.0 in
        let (vs', e', rooms) = step_venues-AllRoom count vs h.1 in
        (v' ∷ vs', rw (step_venues, e, e') refl, (room, rooms))

    pub warm_up-AllRoom :
        (rounds count : ℕ) (vs : Venues r)
        → AllRoom (rounds + count) vs
        → (vs' : Venues r) × (warm_up r rounds vs ≡ some vs') × AllRoom count vs'
    unfolding warm_up
    warm_up-AllRoom zero count vs h =
        (vs, refl, less-AllRoom (zero + count) count vs (omega arith) h)
    warm_up-AllRoom (suc rounds) count vs h =
        let (vs1, e1, h1) =
          step_venues-AllRoom (rounds + count) vs
            (less-AllRoom (suc rounds + count) (suc (rounds + count)) vs (omega arith) h) in
        let (vs2, e2, h2) = warm_up-AllRoom rounds count vs1 h1 in (vs2, rw (warm_up, e1) e2, h2)

    -- The search ends, with nothing or with a pair of the venues as they are then.
    pub search-AllRoom :
        (t : TouchSide) (steps count : ℕ) (vs : Venues r)
        → AllRoom (steps + count) vs
        → (found : Option (ℕ × ℕ)) × (vs' : Venues r) × (search r t steps vs ≡ some (found, vs'))
          × AllRoom count vs'
          × ((found ≡ none) ⊎ (find_victim t (books r vs') 0 (books r vs') ≡ found))
    unfolding search
    search-AllRoom t zero count vs h =
        (none, vs, refl, less-AllRoom (zero + count) count vs (omega arith) h, inl refl)
    search-AllRoom t (suc steps) count vs h =
        elim (Option-cases (find_victim t (books r vs) 0 (books r vs))) [
          | inl nothing ↦
              let (vs1, e1, h1) =
                step_venues-AllRoom (steps + count) vs
                  (less-AllRoom (suc steps + count) (suc (steps + count)) vs (omega arith) h) in
              let (found, vs2, e2, h2, pair) = search-AllRoom t steps count vs1 h1 in
              (found, vs2, rw (search, nothing, e1) e2, h2, pair)
          | inr (pair, e) ↦ (
            some pair,
            vs,
            rw (search, e) refl,
            less-AllRoom (suc steps + count) count vs (omega arith) h,
            inr e,
          )
        ]
