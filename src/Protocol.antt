-- ===== src/Protocol.antt =====
-- include/protocol.hpp: the messages of the feed, as values.
-- A `WireMsg` is a union tagged by the header's type; here it is a data type with a constructor for
-- each tag. The header's `timestamp_ns` is only read for latency figures and is left out but in Wire.
-- Ids, quantities and instruments are numbers; a price is an integer (`int64_t`).
use exchange_market_data_dec.Prelude.{ℕ, ℤ, Bool, true, false}

-- `enum class Side`
pub data Side : Type 0 where
  buy sell : Side

abbrev pub is_buy : Side → Bool
is_buy Side.buy = true
is_buy Side.sell = false

abbrev pub same_side : Side → Side → Bool
same_side Side.buy Side.buy = true
same_side Side.buy Side.sell = false
same_side Side.sell Side.buy = false
same_side Side.sell Side.sell = true

-- `enum class MsgType`
pub data MsgType : Type 0 where
  add_order execute cancel delete replace : MsgType

-- `AddOrderMsg`
pub record AddOrderMsg : Type 0 where
  pub instrument_id : ℕ
  pub order_id : ℕ
  pub side : Side
  pub price_ticks : ℤ
  pub qty : ℕ

-- `ExecuteMsg`
pub record ExecuteMsg : Type 0 where
  pub instrument_id : ℕ
  pub order_id : ℕ
  pub exec_qty : ℕ

-- `CancelMsg`
pub record CancelMsg : Type 0 where
  pub instrument_id : ℕ
  pub order_id : ℕ
  pub cancel_qty : ℕ

-- `DeleteMsg`
pub record DeleteMsg : Type 0 where
  pub instrument_id : ℕ
  pub order_id : ℕ

-- `ReplaceMsg`
pub record ReplaceMsg : Type 0 where
  pub instrument_id : ℕ
  pub old_order_id : ℕ
  pub new_order_id : ℕ
  pub price_ticks : ℤ
  pub qty : ℕ

-- `union WireMsg` with its tag
pub data WireMsg : Type 0 where
  add : AddOrderMsg → WireMsg
  exec : ExecuteMsg → WireMsg
  cancel : CancelMsg → WireMsg
  del : DeleteMsg → WireMsg
  replace : ReplaceMsg → WireMsg
