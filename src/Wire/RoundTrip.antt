-- ===== src/Wire/RoundTrip.antt =====
-- include/protocol.hpp: what is encoded is decoded.
use exchange_market_data_dec.Prelude.{ℕ, ◌^◌, ◌<◌, ◌≡◌, refl, ℤ, ◌∙◌, ap, some, [], ◌∷◌, length}
use exchange_market_data_dec.Protocol.{Side, MsgType, WireMsg}
use exchange_market_data_dec.Wire.{
  le_bytes, le_value, low64, to_int64, type_of_tag, tag_of, msg_size, side_byte, side_of_byte,
  type_of, encode, decode, decode_body,
}
use exchange_market_data_dec.Wire.Numbers.{le_value-le_bytes, IsInt64, low64_lt, to_int64-low64}

-- The members of a message fit their types.
abbrev pub IsWire : WireMsg → Type 0
IsWire (WireMsg.add a) =
    (a.instrument_id < 2 ^ 16) × (a.order_id < 2 ^ 64) × IsInt64 a.price_ticks × (a.qty < 2 ^ 32)
IsWire (WireMsg.exec e) = (e.instrument_id < 2 ^ 16) × (e.order_id < 2 ^ 64) × (e.exec_qty < 2 ^ 32)
IsWire (WireMsg.cancel c) =
    (c.instrument_id < 2 ^ 16) × (c.order_id < 2 ^ 64) × (c.cancel_qty < 2 ^ 32)
IsWire (WireMsg.del d) = (d.instrument_id < 2 ^ 16) × (d.order_id < 2 ^ 64)
IsWire (WireMsg.replace r) =
    (r.instrument_id < 2 ^ 16)
    × (r.old_order_id < 2 ^ 64)
    × (r.new_order_id < 2 ^ 64)
    × IsInt64 r.price_ticks
    × (r.qty < 2 ^ 32)

pub type_of_tag-tag_of : (type : MsgType) → type_of_tag (tag_of type) ≡ some type
unfolding type_of_tag
type_of_tag-tag_of MsgType.add_order = refl
type_of_tag-tag_of MsgType.execute = refl
type_of_tag-tag_of MsgType.cancel = refl
type_of_tag-tag_of MsgType.delete = refl
type_of_tag-tag_of MsgType.replace = refl

-- `msg_size` is the number of bytes that a message has.
pub length-encode : (m : WireMsg) (ts : ℕ) → length (encode m ts) ≡ msg_size (tag_of (type_of m))
unfolding encode le_bytes msg_size type_of_tag
length-encode (WireMsg.add a) ts = refl
length-encode (WireMsg.exec e) ts = refl
length-encode (WireMsg.cancel c) ts = refl
length-encode (WireMsg.del d) ts = refl
length-encode (WireMsg.replace r) ts = refl

pub side_of_byte-side_byte : (side : Side) → side_of_byte (le_value (side_byte side ∷ [])) ≡ side
unfolding side_of_byte le_value
side_of_byte-side_byte Side.buy = refl
side_of_byte-side_byte Side.sell = refl

-- A price is read back from its bits.
to_int64-le_value :
    (price : ℤ) → IsInt64 price → to_int64 (le_value (le_bytes 8 (low64 price))) ≡ price
to_int64-le_value price fits =
    ap to_int64 (le_value-le_bytes 8 (low64 price) (low64_lt price)) ∙ to_int64-low64 price fits

-- The bytes of a message whose members fit their types are read back as the message, with its timestamp.
pub decode-encode :
    (m : WireMsg) (ts : ℕ)
    → IsWire m
    → ts < 2 ^ 64
    → decode (encode m ts) ≡ record { msg = some m; timestamp_ns = ts }
unfolding decode encode decode_body le_bytes le_value type_of_tag
decode-encode (WireMsg.add a) ts fits stamped k = record {
  msg = some (
      WireMsg.add (record {
        instrument_id = le_value-le_bytes 2 a.instrument_id fits.0 k;
        order_id = le_value-le_bytes 8 a.order_id fits.1 k;
        side = side_of_byte-side_byte a.side k;
        price_ticks = to_int64-le_value a.price_ticks fits.2 k;
        qty = le_value-le_bytes 4 a.qty fits.3 k;
      }));
  timestamp_ns = le_value-le_bytes 8 ts stamped k;
}
decode-encode (WireMsg.exec e) ts fits stamped k = record {
  msg = some (
      WireMsg.exec (record {
        instrument_id = le_value-le_bytes 2 e.instrument_id fits.0 k;
        order_id = le_value-le_bytes 8 e.order_id fits.1 k;
        exec_qty = le_value-le_bytes 4 e.exec_qty fits.2 k;
      }));
  timestamp_ns = le_value-le_bytes 8 ts stamped k;
}
decode-encode (WireMsg.cancel c) ts fits stamped k = record {
  msg = some (
      WireMsg.cancel (record {
        instrument_id = le_value-le_bytes 2 c.instrument_id fits.0 k;
        order_id = le_value-le_bytes 8 c.order_id fits.1 k;
        cancel_qty = le_value-le_bytes 4 c.cancel_qty fits.2 k;
      }));
  timestamp_ns = le_value-le_bytes 8 ts stamped k;
}
decode-encode (WireMsg.del d) ts fits stamped k = record {
  msg = some (
      WireMsg.del (record {
        instrument_id = le_value-le_bytes 2 d.instrument_id fits.0 k;
        order_id = le_value-le_bytes 8 d.order_id fits.1 k;
      }));
  timestamp_ns = le_value-le_bytes 8 ts stamped k;
}
decode-encode (WireMsg.replace r) ts fits stamped k = record {
  msg = some (
      WireMsg.replace (record {
        instrument_id = le_value-le_bytes 2 r.instrument_id fits.0 k;
        old_order_id = le_value-le_bytes 8 r.old_order_id fits.1 k;
        new_order_id = le_value-le_bytes 8 r.new_order_id fits.2 k;
        price_ticks = to_int64-le_value r.price_ticks fits.3 k;
        qty = le_value-le_bytes 4 r.qty fits.4 k;
      }));
  timestamp_ns = le_value-le_bytes 8 ts stamped k;
}
