-- ===== src/Backtest/Finish.antt =====
-- `BacktestEngine::run` (include/backtest_sim.hpp): what becomes of the orders placed.
use exchange_market_data_dec.Prelude.{
  ℕ, suc, ◌+◌, ◌<◌, ◌≡◌, List, [], ◌∷◌, ◌++◌, ◌&&◌, ltb, ◌==◌, if◌then◌else◌, arith,
}
use exchange_market_data_dec.Queue.Linked.{IsLinked}
use exchange_market_data_dec.Backtest.{ActiveOrder, SimOrderResult, BacktestEngine}

-- how often a number is in a list
abbrev pub occurs : ℕ → List ℕ → ℕ
occurs k [] = 0
occurs k (x ∷ xs) = let rest = occurs k xs in if x == k then suc rest else rest

pub occurs-append : (k : ℕ) (xs ys : List ℕ) → occurs k (xs ++ ys) ≡ occurs k xs + occurs k ys
occurs-append k [] ys = omega arith
occurs-append k (x ∷ xs) ys = ground (arith, occurs-append k xs ys)

abbrev pub active_ids : List ActiveOrder → List ℕ
active_ids [] = []
active_ids (ao ∷ aos) = ao.id ∷ active_ids aos

abbrev pub result_ids : List SimOrderResult → List ℕ
result_ids [] = []
result_ids (r ∷ rs) = r.id ∷ result_ids rs

-- how often a number is the id of an order that has its result or is active
abbrev accounted : ℕ → List ActiveOrder × List SimOrderResult → ℕ
accounted k (aos, rs) = occurs k (result_ids rs) + occurs k (active_ids aos)

-- The ids given out so far: each is that of one order.
pub record IsAccounted (e : BacktestEngine) : Type 0 where
  pub linked : IsLinked e.qbook
  pub positive : 0 < e.next_id
  pub ids :
      (k : ℕ) → accounted k (e.active, e.results) ≡ (if ltb 0 k && ltb k e.next_id then 1 else 0)
