-- ===== src/Wire/Tests.antt =====
-- The bytes of a message.
use exchange_market_data_dec.Prelude.{◌≡◌, refl, negsuc, [], ◌∷◌}
use exchange_market_data_dec.Protocol.{Side, WireMsg}
use exchange_market_data_dec.Wire.{le_bytes, encode}

-- a bid at -2 ticks
abbrev low_bid : WireMsg
low_bid = WireMsg.add (record {
  instrument_id = 258;
  order_id = 7;
  side = Side.buy;
  price_ticks = negsuc 1;
  qty = 300;
})

low_bid_bytes :
    encode low_bid 5
    ≡ 65 ∷ 2 ∷ 1 ∷ 5 ∷ 0 ∷ 0 ∷ 0 ∷ 0 ∷ 0 ∷ 0 ∷ 0 ∷ 7 ∷ 0 ∷ 0 ∷ 0 ∷ 0 ∷ 0 ∷ 0 ∷ 0 ∷ 66 ∷ 254 ∷ 255
      ∷ 255 ∷ 255 ∷ 255 ∷ 255 ∷ 255 ∷ 255 ∷ 44 ∷ 1 ∷ 0 ∷ 0 ∷ []
unfolding encode le_bytes
low_bid_bytes = refl
