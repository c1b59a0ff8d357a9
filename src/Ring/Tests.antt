-- ===== src/Ring/Tests.antt =====
-- A buffer of four slots: one item is in it, another is about to be written while the consumer is
-- about to read the first.
use exchange_market_data_dec.Prelude.{
  ℕ, ◌+◌, ◌<◌, ◌≡◌, ◌≢◌, ◌↔◌, refl, List, [], ◌∷◌, ◌++◌, length, arith, if◌then◌else◌, ◌==◌,
}
use exchange_market_data_dec.Ring.{System, Step, Reach, PushPc, PopPc, next, start_with}
use exchange_market_data_dec.Ring.Safety.{popped-IsPrefix, no_race, verdicts_exact}

abbrev blank : ℕ → ℕ
blank i = 0

abbrev empty : System ℕ
empty = start_with 4 blank

abbrev one_item : System ℕ
one_item = record empty { head = 1; buffer = λ j. if 0 == j then 7 else 0; pushed = 7 ∷ [] }

one_item-Reach : Reach 4 blank one_item
one_item-Reach =
    Reach.later
      (Reach.later
        (Reach.later (Reach.later Reach.start (Step.load_head 7 refl))
          (Step.push_room 7 0 refl (λ e. omega (arith, e))))
        (Step.write_slot 7 0 refl))
      (Step.store_head 7 0 refl)

abbrev both_loaded : System ℕ
both_loaded = record one_item { producer = PushPc.loaded 8 1; consumer = PopPc.loaded 0 }

both_loaded-Reach : Reach 4 blank both_loaded
both_loaded-Reach =
    Reach.later (Reach.later one_item-Reach (Step.load_head 8 refl)) (Step.load_tail refl)

abbrev both_inside : System ℕ
both_inside = record one_item { producer = PushPc.writing 8 1; consumer = PopPc.reading 0 }

both_inside-Reach : Reach 4 blank both_inside
both_inside-Reach =
    Reach.later (Reach.later both_loaded-Reach (Step.push_room 8 1 refl (λ e. omega (arith, e))))
      (Step.pop_item 0 refl (λ e. omega (arith, e)))

popped-IsPrefix_example :
    (rest : List ℕ) × (both_inside.pushed ≡ both_inside.popped ++ rest) × (length rest < 4)
popped-IsPrefix_example = popped-IsPrefix 4 blank (omega arith) both_inside both_inside-Reach

no_race_example : ◌≢◌ {A = ℕ} 1 0
no_race_example = no_race 4 blank (omega arith) both_inside 8 1 0 both_inside-Reach refl refl

verdicts_exact_example :
    ((next 4 1 ≡ 0) ↔ (length {A = ℕ} (7 ∷ []) + 1 ≡ 0 + 4))
    × ((◌≡◌ {A = ℕ} 0 1) ↔ (length {A = ℕ} (7 ∷ []) ≡ 0))
verdicts_exact_example =
    verdicts_exact 4 blank (omega arith) both_loaded 8 1 0 both_loaded-Reach refl refl
