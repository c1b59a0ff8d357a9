-- ===== src/Wire.antt =====
-- include/protocol.hpp: the packed messages as bytes. A byte is a number below 256, and numbers are
-- little-endian, as on the x86_64 that the header's comment names. `std::memcpy` into a `WireMsg` is
-- `decode`, of the bytes copied.
pub mod Numbers
pub mod RoundTrip
mod Tests
use exchange_market_data_dec.Prelude.{
  ℕ, zero, suc, ◌+◌, ◌-◌, ◌*◌, ◌/◌, ◌%◌, ◌^◌, ◌<◌, ◌==◌, ltb, ℤ, pos, negsuc, Option, none, some,
  List, [], ◌∷◌, ◌++◌, take, drop, if◌then◌else◌,
}
use exchange_market_data_dec.Protocol.{Side, MsgType, WireMsg}

-- the `width` low bytes of a number
unfoldable pub le_bytes : ℕ → ℕ → List ℕ
le_bytes zero n = []
le_bytes (suc width) n = n % 256 ∷ le_bytes width (n / 256)

-- the number that bytes stand for
unfoldable pub le_value : List ℕ → ℕ
le_value [] = 0
le_value (b ∷ bs) = b + 256 * le_value bs

-- an `int64_t` as its 64 bits, and back
abbrev pub low64 : ℤ → ℕ
low64 (pos n) = n % 2 ^ 64
low64 (negsuc n) = 2 ^ 64 - 1 - n % 2 ^ 64

unfoldable pub to_int64 : ℕ → ℤ
to_int64 v = if ltb v (2 ^ 63) then pos v else negsuc (2 ^ 64 - v - 1)

-- the byte of a type: 'A', 'E', 'X', 'D' or 'U'
abbrev pub tag_of : MsgType → ℕ
tag_of MsgType.add_order = 65
tag_of MsgType.execute = 69
tag_of MsgType.cancel = 88
tag_of MsgType.delete = 68
tag_of MsgType.replace = 85

-- the type that a byte has in a `switch`, if any
unfoldable pub type_of_tag : ℕ → Option MsgType
type_of_tag t =
    if t == 65
    then some MsgType.add_order
    else if t == 69
    then some MsgType.execute
    else if t == 88
    then some MsgType.cancel
    else if t == 68
    then some MsgType.delete
    else if t == 85
    then some MsgType.replace
    else none

-- `sizeof` of each message, under `#pragma pack(1)`
abbrev pub size_of : MsgType → ℕ
size_of MsgType.add_order = 11 + 8 + 1 + 8 + 4
size_of MsgType.execute = 11 + 8 + 4
size_of MsgType.cancel = 11 + 8 + 4
size_of MsgType.delete = 11 + 8
size_of MsgType.replace = 11 + 8 + 8 + 8 + 4

-- `msg_size`, of the type's byte
unfoldable pub msg_size : ℕ → ℕ
unfolding type_of_tag
msg_size t = elim (type_of_tag t) [ none ↦ 0 | some type ↦ size_of type ]

-- 'B' or 'S'
abbrev pub side_byte : Side → ℕ
side_byte Side.buy = 66
side_byte Side.sell = 83

-- The code tests a side for Buy only.
unfoldable pub side_of_byte : ℕ → Side
side_of_byte b = if b == 66 then Side.buy else Side.sell

abbrev pub type_of : WireMsg → MsgType
type_of (WireMsg.add a) = MsgType.add_order
type_of (WireMsg.exec e) = MsgType.execute
type_of (WireMsg.cancel c) = MsgType.cancel
type_of (WireMsg.del d) = MsgType.delete
type_of (WireMsg.replace r) = MsgType.replace

-- `MsgHeader`
abbrev pub header_bytes : MsgType → ℕ → ℕ → List ℕ
header_bytes type instrument_id timestamp_ns =
    tag_of type ∷ (le_bytes 2 instrument_id ++ le_bytes 8 timestamp_ns)

-- the bytes of a message with its send timestamp
unfoldable pub encode : WireMsg → ℕ → List ℕ
unfolding le_bytes
encode (WireMsg.add a) timestamp_ns =
    header_bytes MsgType.add_order a.instrument_id timestamp_ns
    ++ le_bytes 8 a.order_id
    ++ side_byte a.side ∷ []
    ++ le_bytes 8 (low64 a.price_ticks)
    ++ le_bytes 4 a.qty
encode (WireMsg.exec e) timestamp_ns =
    header_bytes MsgType.execute e.instrument_id timestamp_ns
    ++ le_bytes 8 e.order_id
    ++ le_bytes 4 e.exec_qty
encode (WireMsg.cancel c) timestamp_ns =
    header_bytes MsgType.cancel c.instrument_id timestamp_ns
    ++ le_bytes 8 c.order_id
    ++ le_bytes 4 c.cancel_qty
encode (WireMsg.del d) timestamp_ns =
    header_bytes MsgType.delete d.instrument_id timestamp_ns ++ le_bytes 8 d.order_id
encode (WireMsg.replace r) timestamp_ns =
    header_bytes MsgType.replace r.instrument_id timestamp_ns
    ++ le_bytes 8 r.old_order_id
    ++ le_bytes 8 r.new_order_id
    ++ le_bytes 8 (low64 r.price_ticks)
    ++ le_bytes 4 r.qty

-- the field of `width` bytes at `offset`
abbrev pub field : ℕ → ℕ → List ℕ → ℕ
field offset width bytes = le_value (take width (drop offset bytes))

-- the members that each type has
unfoldable pub decode_body : MsgType → List ℕ → WireMsg
unfolding le_value side_of_byte to_int64
decode_body MsgType.add_order bytes = WireMsg.add (record {
  instrument_id = field 1 2 bytes;
  order_id = field 11 8 bytes;
  side = side_of_byte (field 19 1 bytes);
  price_ticks = to_int64 (field 20 8 bytes);
  qty = field 28 4 bytes;
})
decode_body MsgType.execute bytes = WireMsg.exec (record {
  instrument_id = field 1 2 bytes;
  order_id = field 11 8 bytes;
  exec_qty = field 19 4 bytes;
})
decode_body MsgType.cancel bytes = WireMsg.cancel (record {
  instrument_id = field 1 2 bytes;
  order_id = field 11 8 bytes;
  cancel_qty = field 19 4 bytes;
})
decode_body MsgType.delete bytes =
    WireMsg.del (record { instrument_id = field 1 2 bytes; order_id = field 11 8 bytes })
decode_body MsgType.replace bytes = WireMsg.replace (record {
  instrument_id = field 1 2 bytes;
  old_order_id = field 11 8 bytes;
  new_order_id = field 19 8 bytes;
  price_ticks = to_int64 (field 27 8 bytes);
  qty = field 35 4 bytes;
})

-- A message read from bytes: none of the five, if its type is not one of theirs.
pub record Received : Type 0 where
  pub msg : Option WireMsg
  pub timestamp_ns : ℕ

-- what a zeroed `WireMsg` holds after its first bytes were copied in
unfoldable pub decode : List ℕ → Received
unfolding type_of_tag decode_body
decode bytes = record {
  msg = elim (type_of_tag (field 0 1 bytes)) [
    | none ↦ none
    | some type ↦ some (decode_body type bytes)
  ];
  timestamp_ns = field 3 8 bytes;
}
