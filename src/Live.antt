-- ===== src/Live.antt =====
-- include/live_feed.hpp, `LiveFeed`: the framing of `publish_loop` and `receive_loop`. A datagram is the
-- list of its bytes; which datagrams arrive, and in which order, is an argument of the receiver. Clock
-- readings are arguments, as the timestamps of the messages.
pub mod Groups
pub mod Publish
pub mod Counts
pub mod Receive
pub mod Feed
pub mod Errors
pub mod Loss
pub mod Lifecycle
mod Tests
use exchange_market_data_dec.Prelude.{
  ℕ, zero, suc, ◌+◌, ◌-◌, ◌%◌, ◌^◌, ◌==◌, ltb, Option, none, some, List, [], ◌∷◌, ◌++◌, take, drop,
  length, if◌then◌else◌,
}
use exchange_market_data_dec.Protocol.{WireMsg}
use exchange_market_data_dec.Wire.{
  le_bytes, le_value, tag_of, type_of, msg_size, encode, decode, Received,
}

-- a message of the simulator, and its send time
pub record Stamped : Type 0 where
  pub msg : WireMsg
  pub timestamp_ns : ℕ

-- `sizeof(PacketHeader)`
abbrev pub header_size : ℕ
header_size = 2

-- `kMaxPayloadBytes`
abbrev pub k_max_payload_bytes : ℕ
k_max_payload_bytes = 1200

-- The locals of `publish_loop`: the bytes of `packet` from the header's end to `offset`, and `sent_`; the
-- datagrams given to the socket.
pub record Publisher : Type 0 where
  pub packet : List ℕ
  pub offset : ℕ
  pub count : ℕ
  pub sent : ℕ
  pub datagrams : List (List ℕ)

unfoldable pub new_publisher : Publisher
new_publisher = record { packet = []; offset = header_size; count = 0; sent = 0; datagrams = [] }

-- the bytes that `sock.send(packet.data(), offset)` sends, once the header is written
unfoldable pub frame : ℕ → ℕ → List ℕ → List ℕ
unfolding le_bytes
frame count offset packet = le_bytes 2 count ++ take (offset - header_size) packet

-- `flush`
unfoldable pub flush : Publisher → Publisher
unfolding frame
flush p = if p.count == 0 then p else record p {
  packet = [];
  offset = header_size;
  count = 0;
  datagrams = p.datagrams ++ frame p.count p.offset p.packet ∷ [];
}

-- the end of a round: the message is copied to `offset`
unfoldable pub append_message : Stamped → Publisher → Publisher
unfolding encode msg_size
append_message m p = record p {
  packet = take (p.offset - header_size) p.packet ++ encode m.msg m.timestamp_ns;
  offset = p.offset + msg_size (tag_of (type_of m.msg));
  count = (p.count + 1) % 2 ^ 16;
  sent = (p.sent + 1) % 2 ^ 64;
}

-- a round of the loop
unfoldable pub publish_message : Stamped → Publisher → Publisher
unfolding flush append_message msg_size
publish_message m p =
    let sz = msg_size (tag_of (type_of m.msg)) in
    append_message m (if ltb k_max_payload_bytes (p.offset + sz) then flush p else p)

unfoldable pub publish_messages : List Stamped → Publisher → Publisher
unfolding publish_message
publish_messages [] p = p
publish_messages (m ∷ ms) p = publish_messages ms (publish_message m p)

-- `publish_loop`
unfoldable pub publish_loop : List Stamped → Publisher
unfolding publish_messages flush
publish_loop ms = flush (publish_messages ms new_publisher)

-- The buffer of `receive_loop` has 65536 bytes. A read past its end gives none.
abbrev pub k_buffer_size : ℕ
k_buffer_size = 65536

-- What `receive_loop` keeps: the buffer, the counts, and the messages handed to `dispatch`.
pub record Receiver : Type 0 where
  pub buf : List ℕ
  pub datagrams : ℕ
  pub received : ℕ
  pub dispatched : List Received

-- the rounds that are left of the loop over the `n` bytes received, from `offset`
unfoldable pub read_messages : ℕ → ℕ → List ℕ → ℕ → Option (List Received)
unfolding msg_size decode
read_messages zero n buf offset = some []
read_messages (suc left) n buf offset =
    let sz = msg_size (le_value (take 1 (drop offset buf))) in
    let later = read_messages left n buf (offset + sz) in
    if ltb offset n
    then if ltb (length buf) (offset + sz)
      then none
      else elim later [ none ↦ none | some ms ↦ some (decode (take sz (drop offset buf)) ∷ ms) ]
    else some []

-- `recv`: the datagram over the first bytes of the buffer, the others as they were
abbrev pub recv : List ℕ → List ℕ → List ℕ
recv datagram buf = datagram ++ drop (length datagram) buf

-- a round of `receive_loop` that receives a datagram
unfoldable pub receive : List ℕ → Receiver → Option Receiver
unfolding read_messages
receive datagram r =
    let buf = recv datagram r.buf in
    elim (read_messages (le_value (take 2 buf)) (length datagram) buf header_size) [
      | none ↦ none
      | some ms ↦ some (record {
        buf = buf;
        datagrams = (r.datagrams + 1) % 2 ^ 64;
        received = (r.received + length ms) % 2 ^ 64;
        dispatched = r.dispatched ++ ms;
      })
    ]

-- the rounds of `receive_loop` for the datagrams that arrive, in that order; an empty one is skipped as a
-- timeout is, before the publisher is done
unfoldable pub receive_loop : List (List ℕ) → Receiver → Option Receiver
unfolding receive
receive_loop [] r = some r
receive_loop ([] ∷ datagrams) r = receive_loop datagrams r
receive_loop ((b ∷ bs) ∷ datagrams) r = elim (receive (b ∷ bs) r) [
  | none ↦ none
  | some r' ↦ receive_loop datagrams r'
]

unfoldable pub new_receiver : List ℕ → Receiver
new_receiver buf = record { buf = buf; datagrams = 0; received = 0; dispatched = [] }
