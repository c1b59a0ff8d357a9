-- ===== src/Simulator/Owners.antt =====
-- The order ids of include/market_simulator.hpp: each names orders of one instrument only.
use exchange_market_data_dec.Prelude.{
  ℕ, zero, suc, ◌+◌, ◌-◌, ◌^◌, ◌≤◌, ◌<◌, ◌≡◌, refl, sym, ◌∙◌, ap, arith, ◌==◌, subst, inl, inr,
  some, List, [], ◌∷◌, ◌++◌, put, put_same, put_other, put-ind, get_elem?, get_elem?_lt, if-ind,
}
use exchange_market_data_dec.Protocol.{WireMsg}
use exchange_market_data_dec.Replay.{State}
use exchange_market_data_dec.Normalizer.{instrument_of}
use exchange_market_data_dec.Normalizer.Apply.{IsOwned}
use exchange_market_data_dec.Simulator.{
  Random, IsLawful, Simulator, LiveOrder, swap_remove, settle, stream,
}
use exchange_market_data_dec.Simulator.Flow.{Change, IsSent}
use exchange_market_data_dec.Simulator.Messages.{next_message-IsSent}
use exchange_market_data_dec.Simulator.Positions.{added_from, removed_from, set_from}
use exchange_market_data_dec.Simulator.Stream.{
  IsTracked, IsTracked-IsReady, IsSent-IsTracked, Change-next, Change-instrument_of, after_message,
  stream_cons,
}

-- The live orders of `i` have ids of `i`, below the next free one.
abbrev pub IsHeld : (ℕ → ℕ) → ℕ → ℕ → List LiveOrder → Type 0
IsHeld owner next i book =
    (j : ℕ) (o : LiveOrder)
    → get_elem? book j ≡ some o
    → (owner o.order_id ≡ i) × (o.order_id < next)

-- `owner` goes on to give the ids below `next` to the same instruments.
abbrev pub Extends : (ℕ → ℕ) → ℕ → (ℕ → ℕ) → Type 0
Extends owner next owner' = (id : ℕ) → id < next → owner' id ≡ owner id

-- The messages are of the first `count` instruments, and name each id for its owner only.
abbrev pub IsOwnedStream : ℕ → (ℕ → ℕ) → List WireMsg → Type 0
IsOwnedStream count owner [] = Unit
IsOwnedStream count owner (m ∷ ms) =
    (instrument_of m < count) × IsOwned owner (instrument_of m) m × IsOwnedStream count owner ms

settle-IsHeld :
    (owner : ℕ → ℕ) (next i j left : ℕ) (lo : LiveOrder) (book : List LiveOrder)
    → get_elem? book j ≡ some lo
    → IsHeld owner next i book
    → IsHeld owner next i (settle j lo left book)
unfolding settle
settle-IsHeld owner next i j left lo book there held =
    if-ind (IsHeld owner next i) (left == 0)
      (λ e k o at.
        let (k', old, ne, same, lt) = removed_from book j k o (get_elem?_lt book j there) at in
        held k' o old)
      (λ e k o at.
        elim (set_from book j (record lo { qty = left }) k o (get_elem?_lt book j there) at) [
          | inl (_, same) ↦
              let (own, below) = held j lo there in
              let ids : lo.order_id ≡ o.order_id = ap (λ x. x.order_id) same in
              (sym (ap owner ids) ∙ own, subst (λ k. k < next) ids below)
          | inr (_, old) ↦ held k o old
        ])

-- The owners after a message: a new id is the sender's.
abbrev with_new : (ℕ → ℕ) → ℕ → ℕ → ℕ → ℕ
with_new owner next instr = put owner next instr

kept-IsHeld :
    (owner : ℕ → ℕ) (next instr i : ℕ) (book : List LiveOrder)
    → IsHeld owner next i book
    → IsHeld (with_new owner next instr) next i book
kept-IsHeld owner next instr i book held j o there =
    let (own, below) = held j o there in
    (put_other owner next instr o.order_id (λ e. absurd (omega (arith, e, below))) ∙ own, below)

later-IsHeld :
    (owner : ℕ → ℕ) (next next' i : ℕ) (book : List LiveOrder)
    → next ≤ next'
    → IsHeld owner next i book
    → IsHeld owner next' i book
later-IsHeld owner next next' i book le held j o there =
    let (own, below) = held j o there in (own, omega (arith, below))

push-IsHeld :
    (owner : ℕ → ℕ) (next i : ℕ) (book : List LiveOrder) (o : LiveOrder)
    → owner o.order_id ≡ i
    → o.order_id ≡ next
    → IsHeld owner next i book
    → IsHeld owner (next + 1) i (book ++ o ∷ [])
push-IsHeld owner next i book o own at held j x there = elim (added_from book o j x there) [
  | inl (_, same) ↦
      let ids : o.order_id ≡ x.order_id = ap (λ y. y.order_id) same in
      (sym (ap owner ids) ∙ own, subst (λ k. k < next + 1) ids (omega arith))
  | inr (_, old) ↦ let (mine, below) = held j x old in (mine, omega (arith, below))
]

Change-IsHeld :
    {instr next next' : ℕ} {book book' : List LiveOrder} {m : WireMsg} (owner : ℕ → ℕ)
    → Change instr book next m book' next'
    → IsHeld owner next instr book
    → IsHeld (with_new owner next instr) next' instr book'
      × IsOwned (with_new owner next instr) instr m
Change-IsHeld {instr} {next} {book = book} owner (Change.added o at pos) held =
    let own : with_new owner next instr o.order_id ≡ instr =
      ap (with_new owner next instr) at ∙ put_same owner next instr in
    (
      push-IsHeld (with_new owner next instr) next instr book o own at
          (kept-IsHeld owner next instr instr book held),
      own,
    )
Change-IsHeld {instr} {next} {book = book} owner (Change.executed j n lo there pos le) held =
    let kept : IsHeld (with_new owner next instr) next instr book =
      kept-IsHeld owner next instr instr book held in
    (
      settle-IsHeld (with_new owner next instr) next instr j (lo.qty - n) lo book there kept,
      (kept j lo there).0,
    )
Change-IsHeld {instr} {next} {book = book} owner (Change.canceled j n lo there pos le) held =
    let kept : IsHeld (with_new owner next instr) next instr book =
      kept-IsHeld owner next instr instr book held in
    (
      settle-IsHeld (with_new owner next instr) next instr j (lo.qty - n) lo book there kept,
      (kept j lo there).0,
    )
Change-IsHeld {instr} {next} {book = book} owner (Change.deleted j lo there) held =
    let kept : IsHeld (with_new owner next instr) next instr book =
      kept-IsHeld owner next instr instr book held in
    (
      settle-IsHeld (with_new owner next instr) next instr j 0 lo book there kept,
      (kept j lo there).0,
    )
Change-IsHeld {instr} {next} {book = book} owner (Change.replaced j lo o there at side pos) held =
    let kept : IsHeld (with_new owner next instr) next instr book =
      kept-IsHeld owner next instr instr book held in
    let removed : IsHeld (with_new owner next instr) next instr (swap_remove j book) = λ k x gone.
      let (k', old, ne, same, lt) = removed_from book j k x (get_elem?_lt book j there) gone in
      kept k' x old in
    let own : with_new owner next instr o.order_id ≡ instr =
      ap (with_new owner next instr) at ∙ put_same owner next instr in
    (
      push-IsHeld (with_new owner next instr) next instr (swap_remove j book) o own at removed,
      ((kept j lo there).0, own),
    )

-- A message names ids given out before the next free one, so a later owner owns it too.
Change-IsOwned :
    {instr next next' : ℕ} {book book' : List LiveOrder} {m : WireMsg} (owner owner1 owner' : ℕ → ℕ)
    → Change instr book next m book' next'
    → IsHeld owner next instr book
    → Extends owner1 next' owner'
    → IsOwned owner1 instr m
    → IsOwned owner' instr m
Change-IsOwned owner owner1 owner' (Change.added o at pos) held extends own =
    extends o.order_id (omega (arith, at)) ∙ own
Change-IsOwned owner owner1 owner' (Change.executed j n lo there pos le) held extends own =
    extends lo.order_id (held j lo there).1 ∙ own
Change-IsOwned owner owner1 owner' (Change.canceled j n lo there pos le) held extends own =
    extends lo.order_id (held j lo there).1 ∙ own
Change-IsOwned owner owner1 owner' (Change.deleted j lo there) held extends own =
    extends lo.order_id (held j lo there).1 ∙ own
Change-IsOwned owner owner1 owner' (Change.replaced j lo o there at side pos) held extends own =
    let (_, below) = held j lo there in
    (
      extends lo.order_id (omega (arith, below)) ∙ own.0,
      extends o.order_id (omega (arith, at)) ∙ own.1,
    )

module _ (r : Random) (law : IsLawful r) where
  IsSent-IsHeld :
      (s : Simulator r) (m : WireMsg) (s1 : Simulator r) (instr : ℕ) (owner : ℕ → ℕ)
      → IsSent r s m s1 instr
      → ((i : ℕ) → IsHeld owner s.next_order_id i (s.live_orders i))
      → (i : ℕ)
      → IsHeld (with_new owner s.next_order_id instr) s1.next_order_id i (s1.live_orders i)
  IsSent-IsHeld s m s1 instr owner sent held i =
      let owner1 = with_new owner s.next_order_id instr in
      let (least, most) = Change-next sent.change in
      subst (λ lives. IsHeld owner1 s1.next_order_id i (lives i)) (sym sent.live)
        (put-ind (λ b. IsHeld owner1 s1.next_order_id i b) s.live_orders instr sent.book i
          (λ e.
            subst (λ k. IsHeld owner1 s1.next_order_id k sent.book) e
              (Change-IsHeld owner sent.change (held instr)).0)
          (λ ne.
            later-IsHeld owner1 s.next_order_id s1.next_order_id i (s.live_orders i) least
              (kept-IsHeld owner s.next_order_id instr i (s.live_orders i) (held i))))

  -- Some owner of the ids fits all messages.
  pub stream-IsOwnedStream :
      (count : ℕ) (s : Simulator r) (st : ℕ → State) (owner : ℕ → ℕ)
      → s.next_order_id + count < 2 ^ 64
      → IsTracked r s st
      → ((i : ℕ) → IsHeld owner s.next_order_id i (s.live_orders i))
      → (ms : List WireMsg) × (s' : Simulator r) × (owner' : ℕ → ℕ) × (stream r count s
          ≡ some (ms, s'))
        × Extends owner s.next_order_id owner'
        × IsOwnedStream s.num_instruments owner' ms
  unfolding stream
  stream-IsOwnedStream zero s st owner room v held = ([], s, owner, refl, λ id lt. refl, tt)
  stream-IsOwnedStream (suc count) s st owner room v held =
      let (m, s1, instr, e, sent) =
        next_message-IsSent r law s (IsTracked-IsReady r s st (omega arith) v) in
      let (least, most) = Change-next sent.change in
      let (now, own) = Change-IsHeld owner sent.change (held instr) in
      let (ms, s2, owner', e2, extends, owned) =
        stream-IsOwnedStream count s1 (after_message m st) (with_new owner s.next_order_id instr)
          (omega arith) (IsSent-IsTracked r s m s1 instr st sent v)
          (IsSent-IsHeld s m s1 instr owner sent held) in
      let named : instrument_of m ≡ instr = Change-instrument_of sent.change in
      let later : IsOwned owner' instr m =
        Change-IsOwned owner (with_new owner s.next_order_id instr) owner' sent.change (held instr)
          extends own in
      (
        m ∷ ms,
        s2,
        owner',
        stream_cons r count s s1 s2 m ms e e2,
        λ id lt.
            extends id (omega (arith, lt, least))
            ∙ put_other owner s.next_order_id instr id (λ f. absurd (omega (arith, lt, f))),
        (
          subst (λ k. k < s.num_instruments) (sym named) sent.known,
          subst (λ k. IsOwned owner' k m) (sym named) later,
          subst (λ n. IsOwnedStream n owner' ms) sent.same owned,
        ),
      )
