-- ===== src/Guard/Injection/Search.antt =====
-- What the search of src/nbbo_fault_injection.cpp returns.
use exchange_market_data_dec.Prelude.{
  ℕ, suc, ◌+◌, true, not, ◌||◌, ◌≡◌, refl, inl, inr, arith, ◌==◌, Bool-cases, Option-cases, subst,
  List, [], ◌∷◌, some, get_elem?,
}
use exchange_market_data_dec.Book.{OrderBook}
use exchange_market_data_dec.Nbbo.{TouchSide}
use exchange_market_data_dec.Guard.Injection.{find_rival, find_victim, find_violation}

-- what the search promises of the pair that it returns
pub record IsViolation (t : TouchSide) (venues : List OrderBook) (victim rival : ℕ) : Type 0 where
  pub own : OrderBook
  pub other : OrderBook
  pub own_at : get_elem? venues victim ≡ some own
  pub other_at : get_elem? venues rival ≡ some other
  pub own_has : t.has own ≡ true
  pub other_has : t.has other ≡ true
  pub beats : t.better (t.ticks other) (t.ticks own) ≡ true

-- a rival of `own` in `rest`, at place `k`
record Rival (t : TouchSide) (own : OrderBook) (rest : List OrderBook) (k : ℕ) : Type 0 where
  other : OrderBook
  at : get_elem? rest k ≡ some other
  has : t.has other ≡ true
  beats : t.better (t.ticks other) (t.ticks own) ≡ true

Rival-later :
    (t : TouchSide) (own : OrderBook) (j n : ℕ) (w : OrderBook) (rest : List OrderBook)
    → (k : ℕ) × (n ≡ j + 1 + k) × Rival t own rest k
    → (k : ℕ) × (n ≡ j + k) × Rival t own (w ∷ rest) k
Rival-later t own j n w rest (k, e, r) =
    (suc k, omega arith, record { other = r.other; at = r.at; has = r.has; beats = r.beats })

find_rival-Rival :
    (t : TouchSide) (i : ℕ) (own : OrderBook) (j : ℕ) (rest : List OrderBook) (n : ℕ)
    → find_rival t i own j rest ≡ some n
    → (k : ℕ) × (n ≡ j + k) × Rival t own rest k
unfolding find_rival
find_rival-Rival t i own j [] n e = cc
find_rival-Rival t i own j (w ∷ rest) n e = elim (Bool-cases (i == j || not (t.has w))) [
  | inl skip ↦ Rival-later t own j n w rest (find_rival-Rival t i own (j + 1) rest n (rw skip at e))
  | inr look ↦ elim (Bool-cases (t.better (t.ticks w) (t.ticks own))) [
    | inl hit ↦ (0, ground arith, record { other = w; at = refl; has = ground arith; beats = hit })
    | inr miss ↦
        Rival-later t own j n w rest
          (find_rival-Rival t i own (j + 1) rest n (rw miss at (rw look at e)))
  ]
]

-- a victim in `rest`, at place `k`, and its rival
record Victim (t : TouchSide) (venues rest : List OrderBook) (k rival : ℕ) : Type 0 where
  own : OrderBook
  own_at : get_elem? rest k ≡ some own
  own_has : t.has own ≡ true
  beaten : Rival t own venues rival

Victim-later :
    (t : TouchSide) (venues : List OrderBook) (i n r : ℕ) (v : OrderBook) (rest : List OrderBook)
    → (k : ℕ) × (n ≡ i + 1 + k) × Victim t venues rest k r
    → (k : ℕ) × (n ≡ i + k) × Victim t venues (v ∷ rest) k r
Victim-later t venues i n r v rest (k, e, x) = (
  suc k,
  omega arith,
  record { own = x.own; own_at = x.own_at; own_has = x.own_has; beaten = x.beaten },
)

find_victim-Victim :
    (t : TouchSide) (venues : List OrderBook) (i : ℕ) (rest : List OrderBook) (n r : ℕ)
    → find_victim t venues i rest ≡ some (n, r)
    → (k : ℕ) × (n ≡ i + k) × Victim t venues rest k r
unfolding find_victim
find_victim-Victim t venues i [] n r e = cc
find_victim-Victim t venues i (v ∷ rest) n r e = elim (Bool-cases (t.has v)) [
  | inr lacks ↦
      Victim-later t venues i n r v rest
        (find_victim-Victim t venues (i + 1) rest n r (rw lacks at e))
  | inl has ↦ elim (Option-cases (find_rival t i v 0 venues)) [
    | inl none_found ↦
        Victim-later t venues i n r v rest
          (find_victim-Victim t venues (i + 1) rest n r (ground arith))
    | inr (j, found) ↦
        let (k, at, rival) = find_rival-Rival t i v 0 venues j found in
        let place : k ≡ r = ground arith in
        (
          0,
          ground arith,
          record {
            own = v;
            own_at = refl;
            own_has = has;
            beaten = subst (Rival t v venues) place rival;
          },
        )
  ]
]

find_victim-IsViolation :
    (t : TouchSide) (venues : List OrderBook) (victim rival : ℕ)
    → find_victim t venues 0 venues ≡ some (victim, rival)
    → IsViolation t venues victim rival
find_victim-IsViolation t venues victim rival e =
    let (k, at, x) = find_victim-Victim t venues 0 venues victim rival e in
    let place : k ≡ victim = omega arith in
    record {
      own = x.own;
      other = x.beaten.other;
      own_at = subst (λ n. get_elem? venues n ≡ some x.own) place x.own_at;
      other_at = x.beaten.at;
      own_has = x.own_has;
      other_has = x.beaten.has;
      beats = x.beaten.beats;
    }

-- The search returns a venue and another one with a strictly better touch, both at the state that it
-- stopped at.
pub find_violation-IsViolation :
    (t : TouchSide) (states : List (List OrderBook)) (victim rival : ℕ) (venues : List OrderBook)
    → find_violation t states ≡ some (victim, rival, venues)
    → IsViolation t venues victim rival
unfolding find_violation
find_violation-IsViolation t [] victim rival venues e = cc
find_violation-IsViolation t (now ∷ states) victim rival venues e =
    elim (Option-cases (find_victim t now 0 now)) [
      | inl nothing ↦ find_violation-IsViolation t states victim rival venues (ground arith)
      | inr ((i, j), found) ↦
          let here : now ≡ venues = ground arith in
          let same_victim : i ≡ victim = ground arith in
          let same_rival : j ≡ rival = ground arith in
          subst (λ vs. IsViolation t vs victim rival) here
            (find_victim-IsViolation t now victim rival (rw (same_victim, same_rival) at found))
    ]
