-- ===== src/Live/Feed.antt =====
-- include/live_feed.hpp: what `publish_loop` sends, as `receive_loop` reads it.
use mathlib.Core.List.{append-nil, append_assoc}
use exchange_market_data_dec.Prelude.{
  ℕ, suc, ◌+◌, ◌%◌, ◌^◌, ◌≤◌, ◌<◌, ◌≡◌, refl, sym, ◌∙◌, ap, subst, arith, List, [], ◌∷◌, ◌++◌, map,
  take, drop, length, length-append, some,
}
use exchange_market_data_dec.Wire.{le_bytes, le_value, Received}
use exchange_market_data_dec.Wire.Numbers.{le_value-le_bytes}
use exchange_market_data_dec.Live.{
  Stamped, Receiver, read_messages, recv, receive, receive_loop, new_receiver, publish_loop,
}
use exchange_market_data_dec.Live.Groups.{
  packed, packed_long, frame_of, frames, messages_of, AllFit,
}
use exchange_market_data_dec.Live.Publish.{publish_loop_lem}
use exchange_market_data_dec.Live.Counts.{publish_loop-sent}
use exchange_market_data_dec.Live.Receive.{AllWire, received_as, read_messages-packed}

pub append-AllWire : (xs ys : List Stamped) → AllWire (xs ++ ys) → AllWire xs × AllWire ys
append-AllWire [] ys wire = (tt, wire)
append-AllWire (x ∷ xs) ys wire =
    let (left, right) = append-AllWire xs ys wire.1 in ((wire.0, left), right)

pub map_append :
    (xs ys : List Stamped) → map received_as (xs ++ ys) ≡ map received_as xs ++ map received_as ys
map_append [] ys = refl
map_append (x ∷ xs) ys = ap (λ zs. received_as x ∷ zs) (map_append xs ys)

length-map : (xs : List Stamped) → length (map received_as xs) ≡ length xs
length-map [] = refl
length-map (x ∷ xs) = ap suc (length-map xs)

-- A receiver after a datagram that was read.
abbrev pub after_datagram : List ℕ → List Received → Receiver → Receiver
after_datagram datagram ms r = record {
  buf = recv datagram r.buf;
  datagrams = (r.datagrams + 1) % 2 ^ 64;
  received = (r.received + length ms) % 2 ^ 64;
  dispatched = r.dispatched ++ ms;
}

pub receive_read :
    (datagram : List ℕ) (r : Receiver) (count : ℕ) (ms : List Received)
    → le_value (take 2 (recv datagram r.buf)) ≡ count
    → read_messages count (length datagram) (recv datagram r.buf) 2 ≡ some ms
    → receive datagram r ≡ some (after_datagram datagram ms r)
unfolding receive
receive_read datagram r count ms announced read = rw (receive, announced, read) refl

-- A datagram of whole messages is read as they are, whatever the buffer had before.
pub receive-frame :
    (g : List Stamped) (r : Receiver)
    → AllWire g
    → 2 + length (packed g) ≤ 1200
    → receive (frame_of g) r ≡ some (after_datagram (frame_of g) (map received_as g) r)
unfolding le_bytes
receive-frame g r wire small =
    let behind = drop (length (frame_of g)) r.buf in
    let few : length g < 2 ^ 16 = omega (arith, packed_long g, small) in
    receive_read (frame_of g) r (length g) (map received_as g) (le_value-le_bytes 2 (length g) few)
      (read_messages-packed g (length (frame_of g)) (recv (frame_of g) r.buf) behind 2 wire refl
        (omega arith))

-- The rounds of `receive_loop` on datagrams of whole messages.
receive_loop-frames :
    (groups : List (List Stamped)) (r : Receiver)
    → AllFit groups
    → AllWire (messages_of groups)
    → (r' : Receiver) × (receive_loop (frames groups) r ≡ some r')
      × (r'.dispatched ≡ r.dispatched ++ map received_as (messages_of groups))
      × (r'.received % 2 ^ 64 ≡ (r.received + length (messages_of groups)) % 2 ^ 64)
unfolding receive_loop le_bytes
receive_loop-frames [] r fit wire =
    (r, refl, sym (append-nil r.dispatched), ap (λ k. k % 2 ^ 64) (omega arith))
receive_loop-frames (g ∷ gs) r fit wire =
    let (left, right) = append-AllWire g (messages_of gs) wire in
    let now = receive-frame g r left fit.0 in
    let r1 = after_datagram (frame_of g) (map received_as g) r in
    let (r', e, d, c) = receive_loop-frames gs r1 fit.1 right in
    (
      r',
      rw (receive_loop, now) e,
      d
          ∙ append_assoc r.dispatched (map received_as g) (map received_as (messages_of gs))
          ∙ ap (λ xs. r.dispatched ++ xs) (sym (map_append g (messages_of gs))),
      omega (arith, c, length-map g, length-append g (messages_of gs)),
    )

-- Whatever the buffer holds at first, the receiver that gets every datagram in order hands on exactly the
-- messages that were published, each with its timestamp, in order, and the two counts agree, if the
-- members of the messages fit their types.
pub receive_loop-publish_loop :
    (ms : List Stamped) (buf : List ℕ)
    → AllWire ms
    → (r : Receiver) × (receive_loop (publish_loop ms).datagrams (new_receiver buf) ≡ some r)
      × (r.dispatched ≡ map received_as ms)
      × (r.received % 2 ^ 64 ≡ (publish_loop ms).sent % 2 ^ 64)
unfolding new_receiver
receive_loop-publish_loop ms buf wire =
    let (groups, sent, fit, same) = publish_loop_lem ms in
    let (r, e, d, c) =
      receive_loop-frames groups (new_receiver buf) fit (subst AllWire (sym same) wire) in
    (
      r,
      ap (λ ds. receive_loop ds (new_receiver buf)) sent ∙ e,
      d ∙ ap (map received_as) same,
      omega (arith, c, ap length same, publish_loop-sent ms),
    )
