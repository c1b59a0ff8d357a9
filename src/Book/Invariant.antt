-- ===== src/Book/Invariant.antt =====
-- The invariant of OrderBook (include/order_book.hpp): the cached best indices are the best ones.
use exchange_market_data_dec.Prelude.{ℕ, ◌<◌, ℤ, refl, inl, inr, arith, Option-cases}
use exchange_market_data_dec.Protocol.{Side}
use exchange_market_data_dec.Book.{
  OrderBook, new_book, k_levels, slot, drop_update, add_at, add, reduce_at, reduce, init,
}
use exchange_market_data_dec.Book.Levels.{slot-lt}
use exchange_market_data_dec.Book.Scan.{
  IsTopBid, IsTopAsk, add-IsTopBid, add-IsTopAsk, reduce-IsTopBid, reduce-IsTopAsk,
}

pub record IsValid (b : OrderBook) : Type 0 where
  pub bid_top : IsTopBid b.bid_qty b.best_bid_idx
  pub ask_top : IsTopAsk b.ask_qty b.best_ask_idx

pub new_book-IsValid : IsValid new_book
new_book-IsValid = record {
  bid_top = (refl, λ j lo hi. refl);
  ask_top = (omega arith, λ lt. absurd (omega arith), λ j lo hi. refl);
}

-- `init` starts a valid book, whatever the book was before.
pub init-IsValid : (b : OrderBook) (p : ℤ) → IsValid (init b p)
unfolding init
init-IsValid b p = record {
  bid_top = (refl, λ j lo hi. refl);
  ask_top = (omega arith, λ lt. absurd (omega arith), λ j lo hi. refl);
}

add_at-IsValid :
    (b : OrderBook) (s : Side) (i n : ℕ)
    → i < k_levels
    → 0 < n
    → IsValid b
    → IsValid (add_at b s i n)
unfolding add_at
add_at-IsValid b Side.buy i n lt h v = record {
  bid_top = add-IsTopBid b.bid_qty i n lt b.best_bid_idx h v.bid_top;
  ask_top = v.ask_top;
}
add_at-IsValid b Side.sell i n lt h v = record {
  bid_top = v.bid_top;
  ask_top = add-IsTopAsk b.ask_qty i n lt b.best_ask_idx h v.ask_top;
}

reduce_at-IsValid :
    (b : OrderBook) (s : Side) (i n : ℕ) → i < k_levels → IsValid b → IsValid (reduce_at b s i n)
unfolding reduce_at
reduce_at-IsValid b Side.buy i n lt v = record {
  bid_top = reduce-IsTopBid b.bid_qty i n lt b.best_bid_idx v.bid_top;
  ask_top = v.ask_top;
}
reduce_at-IsValid b Side.sell i n lt v = record {
  bid_top = v.bid_top;
  ask_top = reduce-IsTopAsk b.ask_qty i n lt b.best_ask_idx v.ask_top;
}

drop_update-IsValid : (b : OrderBook) → IsValid b → IsValid (drop_update b)
unfolding drop_update
drop_update-IsValid b v = record { bid_top = v.bid_top; ask_top = v.ask_top }

-- An addition of a positive quantity keeps the best bid and the best offer right, whether its price
-- is in the band or not.
pub add-IsValid :
    (b : OrderBook) (s : Side) (p : ℤ) (n : ℕ) → 0 < n → IsValid b → IsValid (add b s p n).0
unfolding add
add-IsValid b s p n h v = elim (Option-cases (slot b p)) [
  | inl e ↦ rw (e, add) (drop_update-IsValid b v)
  | inr (i, e) ↦ rw (e, add) (add_at-IsValid b s i n (slot-lt b p e) h v)
]

-- A reduction by any quantity keeps the best bid and the best offer right.
pub reduce-IsValid :
    (b : OrderBook) (s : Side) (p : ℤ) (n : ℕ) → IsValid b → IsValid (reduce b s p n).0
unfolding reduce
reduce-IsValid b s p n v = elim (Option-cases (slot b p)) [
  | inl e ↦ rw (e, reduce) (drop_update-IsValid b v)
  | inr (i, e) ↦ rw (e, reduce) (reduce_at-IsValid b s i n (slot-lt b p e) v)
]
