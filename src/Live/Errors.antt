-- ===== src/Live/Errors.antt =====
-- include/live_feed.hpp, `receive_loop`: datagrams that `publish_loop` did not send.
use mathlib.Core.List.{append-nil, append_assoc}
use exchange_market_data_dec.Prelude.{
  ℕ, zero, suc, ◌+◌, ◌*◌, ◌^◌, ◌≤◌, ◌<◌, ◌≡◌, refl, sym, ◌∙◌, ap, arith, some, none, List, [], ◌∷◌,
  ◌++◌, take, drop, length, length-append, length-drop,
}
use exchange_market_data_dec.Wire.{le_bytes, le_value, type_of_tag, msg_size, decode, Received}
use exchange_market_data_dec.Wire.Numbers.{le_value-le_bytes}
use exchange_market_data_dec.Live.{
  Receiver, read_messages, recv, receive, receive_loop, k_buffer_size,
}
use exchange_market_data_dec.Live.Receive.{read_messages-returns, read_round}
use exchange_market_data_dec.Live.Feed.{after_datagram, receive_read}

-- No datagram is longer than the buffer less 38 bytes.
abbrev pub AllShort : List (List ℕ) → Type 0
AllShort [] = Unit
AllShort (d ∷ ds) = (length d + 38 ≤ k_buffer_size) × AllShort ds

length-recv :
    (datagram buf : List ℕ)
    → length buf ≡ k_buffer_size
    → length datagram + 38 ≤ k_buffer_size
    → length (recv datagram buf) ≡ k_buffer_size
length-recv datagram buf whole short = omega (
  arith,
  length-append datagram (drop (length datagram) buf),
  length-drop (length datagram) buf,
  whole,
  short,
)

-- A datagram of any bytes is read within the buffer, up to the number of messages that it announces.
pub receive-returns :
    (datagram : List ℕ) (r : Receiver)
    → length r.buf ≡ k_buffer_size
    → length datagram + 38 ≤ k_buffer_size
    → (ms : List Received) × (receive datagram r ≡ some (after_datagram datagram ms r))
      × (length ms ≤ le_value (take 2 (recv datagram r.buf)))
receive-returns datagram r whole short =
    let announced = le_value (take 2 (recv datagram r.buf)) in
    let (ms, e, few) =
      read_messages-returns announced (length datagram) (recv datagram r.buf) 2
        (omega (arith, short, length-recv datagram r.buf whole short)) in
    (ms, receive_read datagram r announced ms refl e, few)

-- Whatever bytes arrive, in datagrams of at most 65498 bytes, no read leaves the receiver's buffer: every
-- datagram is handled up to the hand-over of its messages to dispatch, and the messages handed on before stay the first ones.
pub receive_loop-returns :
    (datagrams : List (List ℕ)) (r : Receiver)
    → length r.buf ≡ k_buffer_size
    → AllShort datagrams
    → (r' : Receiver) × (ms : List Received) × (receive_loop datagrams r ≡ some r')
      × (r'.dispatched ≡ r.dispatched ++ ms)
      × (length r'.buf ≡ k_buffer_size)
unfolding receive_loop
receive_loop-returns [] r whole short = (r, [], refl, sym (append-nil r.dispatched), whole)
receive_loop-returns ([] ∷ ds) r whole short = receive_loop-returns ds r whole short.1
receive_loop-returns ((b ∷ bs) ∷ ds) r whole short =
    let d = b ∷ bs in
    let (ms, now, few) = receive-returns d r whole short.0 in
    let (r', later, e, kept, whole') =
      receive_loop-returns ds (after_datagram d ms r) (length-recv d r.buf whole short.0) short.1 in
    (r', ms ++ later, rw (receive_loop, now) e, kept ∙ append_assoc r.dispatched ms later, whole')

-- A `WireMsg` of zeros.
abbrev pub empty_message : Received
empty_message = record { msg = none; timestamp_ns = 0 }

abbrev pub empty_messages : ℕ → List Received
empty_messages zero = []
empty_messages (suc count) = empty_message ∷ empty_messages count

msg_size-unknown : (t : ℕ) → type_of_tag t ≡ none → msg_size t ≡ 0
unfolding msg_size
msg_size-unknown t unknown = rw (msg_size, unknown) refl

decode_nothing : decode [] ≡ empty_message
unfolding decode le_value type_of_tag
decode_nothing = refl

read_messages-unknown :
    (left n : ℕ) (buf : List ℕ) (offset t : ℕ)
    → le_value (take 1 (drop offset buf)) ≡ t
    → type_of_tag t ≡ none
    → offset < n
    → n ≤ length buf
    → read_messages left n buf offset ≡ some (empty_messages left)
unfolding read_messages
read_messages-unknown zero n buf offset t first unknown more room = refl
read_messages-unknown (suc left) n buf offset t first unknown more room =
    let no_size : msg_size t ≡ 0 = msg_size-unknown t unknown in
    let same : offset + msg_size t ≡ offset = omega (arith, no_size) in
    read_round left n buf offset t (empty_messages left) more first
      (omega (arith, no_size, more, room))
      (ap (read_messages left n buf) same
        ∙ read_messages-unknown left n buf offset t first unknown more room)
    ∙ ap (λ k. some (decode (take k (drop offset buf)) ∷ empty_messages left)) no_size
    ∙ ap (λ x. some (x ∷ empty_messages left)) decode_nothing

-- A datagram whose first message has an unknown type is read as so many messages of zeros as it announces:
-- each is handed on and counted, and nothing of the datagram behind the type is looked at.
pub receive-unknown :
    (count type : ℕ) (rest : List ℕ) (r : Receiver)
    → count < 2 ^ 16
    → type_of_tag type ≡ none
    → receive (le_bytes 2 count ++ type ∷ rest) r
      ≡ some (after_datagram (le_bytes 2 count ++ type ∷ rest) (empty_messages count) r)
unfolding le_bytes le_value
receive-unknown count type rest r announced unknown =
    let datagram = le_bytes 2 count ++ type ∷ rest in
    let behind = drop (length datagram) r.buf in
    let first : type + 256 * 0 ≡ type = omega arith in
    receive_read datagram r count (empty_messages count) (le_value-le_bytes 2 count announced) (
      read_messages-unknown count (length datagram) (recv datagram r.buf) 2 type first unknown
        (omega arith) (omega (arith, length-append datagram behind)))
