-- ===== src/Harness/Tests.antt =====
-- The program on the counting engine, and one round of its search.
use exchange_market_data_dec.Prelude.{ℕ, ◌≤◌, ◌≡◌, ◌==◌, some}
use exchange_market_data_dec.Simulator.Counter.{counter, counter-IsLawful}
use exchange_market_data_dec.Harness.{main, passes}
use exchange_market_data_dec.Harness.Verdicts.{report, main_lem}

main_lem_example :
    (constructed clean_total : ℕ) × (main counter 777 ≡ some (report constructed clean_total))
    × (passes (report constructed clean_total) ≡ (constructed == 2000))
    × (clean_total ≤ 2000)
main_lem_example = main_lem counter counter-IsLawful 777
