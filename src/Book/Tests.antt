-- ===== src/Book/Tests.antt =====
-- Tests of OrderBook (include/order_book.hpp) and concrete instances of its theorems.
use exchange_market_data_dec.Prelude.{
  ◌^◌, pos, negsuc, ◌+ℤ◌, ◌≤ℤ◌, ◌-ℤ◌, to_int32, true, false, ◌≡◌, ◌≢◌, refl, arith, some,
}
use exchange_market_data_dec.Protocol.{Side}
use exchange_market_data_dec.Book.{
  OrderBook, new_book, k_levels, init, add, reduce, index_of, slot, drop_update, add_at, reduce_at,
  scan_down, has_bid, has_ask, best_bid_ticks, best_ask_ticks, best_bid_qty, qty_at,
}
use exchange_market_data_dec.Book.Levels.{level_price, slot-level_price}
use exchange_market_data_dec.Book.Invariant.{IsValid, init-IsValid, add-IsValid, reduce-IsValid}
use exchange_market_data_dec.Book.Depth.{best_bid_greatest, best_ask_least}

-- an empty book round 250.00
abbrev start_book : OrderBook
start_book = record {
  base_price = pos 16808;
  bid_qty = λ _. 0;
  ask_qty = λ _. 0;
  best_bid_idx = negsuc 0;
  best_ask_idx = k_levels;
  dropped = 0;
}

start_book-init : init new_book (pos 25000) ≡ start_book
unfolding init ◌-ℤ◌
start_book-init = refl

-- 100 bid at 250.10, 40 bid at 250.05, 60 offered at 250.20
two_sided : OrderBook
two_sided =
    (add (add (add start_book Side.buy (pos 25010) 100).0 Side.buy (pos 25005) 40).0 Side.sell
      (pos 25020) 60).0

two_sided-IsValid : IsValid two_sided
unfolding two_sided init ◌-ℤ◌
two_sided-IsValid = add-IsValid _ Side.sell (pos 25020) 60 (omega arith) (
    add-IsValid _ Side.buy (pos 25005) 40 (omega arith) (
      add-IsValid start_book Side.buy (pos 25010) 100 (omega arith)
        (init-IsValid new_book (pos 25000))))

-- The touch moves down when the best level is emptied, and a price out of the band is dropped.
touch_moves :
    (best_bid_ticks two_sided ≡ pos 25010)
    × (best_bid_ticks (reduce two_sided Side.buy (pos 25010) 100).0 ≡ pos 25005)
    × (has_bid (reduce (reduce two_sided Side.buy (pos 25010) 500).0 Side.buy (pos 25005) 40).0
        ≡ false)
    × ((add two_sided Side.buy (pos 100) 5).1 ≡ false)
    × ((add two_sided Side.buy (pos 100) 5).0.dropped ≡ 1)
unfolding two_sided add reduce add_at reduce_at drop_update slot index_of to_int32 scan_down has_bid
    best_bid_ticks ◌+ℤ◌ ◌-ℤ◌
touch_moves = (refl, refl, refl, refl, refl)

-- A quantity of 0 moves the best bid to a level with nothing on it.
add_zero_empty_best :
    let b = (add two_sided Side.buy (pos 25015) 0).0 in
    (best_bid_ticks b ≡ pos 25015) × (best_bid_qty b ≡ 0)
unfolding two_sided add add_at slot index_of to_int32 has_bid best_bid_ticks best_bid_qty ◌+ℤ◌ ◌-ℤ◌
add_zero_empty_best = (refl, refl)

has_bid-two_sided : has_bid two_sided ≡ true
unfolding two_sided add add_at slot index_of to_int32 has_bid ◌-ℤ◌
has_bid-two_sided = refl

has_ask-two_sided : has_ask two_sided ≡ true
unfolding two_sided add add_at slot index_of to_int32 has_ask ◌-ℤ◌
has_ask-two_sided = refl

level_8197 : qty_at two_sided Side.buy (level_price two_sided 8197) ≢ 0
unfolding two_sided add add_at qty_at slot index_of to_int32 ◌+ℤ◌ ◌-ℤ◌
level_8197 = omega arith

level_8212 : qty_at two_sided Side.sell (level_price two_sided 8212) ≢ 0
unfolding two_sided add add_at qty_at slot index_of to_int32 ◌+ℤ◌ ◌-ℤ◌
level_8212 = omega arith

add-IsValid_example : IsValid (add two_sided Side.buy (pos 25015) 7).0
add-IsValid_example = add-IsValid two_sided Side.buy (pos 25015) 7 (omega arith) two_sided-IsValid

reduce-IsValid_example : IsValid (reduce two_sided Side.buy (pos 25010) 100).0
reduce-IsValid_example = reduce-IsValid two_sided Side.buy (pos 25010) 100 two_sided-IsValid

best_bid_greatest_example :
    (has_bid two_sided ≡ true) × (level_price two_sided 8197 ≤ℤ best_bid_ticks two_sided)
best_bid_greatest_example =
    best_bid_greatest two_sided two_sided-IsValid 8197 (omega arith) level_8197

best_ask_least_example :
    (has_ask two_sided ≡ true) × (best_ask_ticks two_sided ≤ℤ level_price two_sided 8212)
best_ask_least_example = best_ask_least two_sided two_sided-IsValid 8212 (omega arith) level_8212

slot-level_price_example : slot two_sided (level_price two_sided 8202) ≡ some 8202
slot-level_price_example = slot-level_price two_sided 8202 (omega arith)

-- A bid at 42,949,922.96 dollars, far out of the band, is not dropped: it rests on the level of 250.10.
far_bid :
    ((add start_book Side.buy (pos 25010 +ℤ pos (2 ^ 32)) 5).0.bid_qty 8202 ≡ 5)
    × ((add start_book Side.buy (pos 25010 +ℤ pos (2 ^ 32)) 5).0.dropped ≡ 0)
unfolding add add_at slot index_of drop_update to_int32 ◌+ℤ◌ ◌-ℤ◌
far_bid = (refl, refl)
