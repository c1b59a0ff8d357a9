-- ===== src/Live/Tests.antt =====
-- Two messages in one datagram, damaged datagrams, and concrete instances of the theorems.
use exchange_market_data_dec.Prelude.{
  ℕ, zero, suc, ◌%◌, ◌^◌, ◌≤◌, ◌≡◌, refl, arith, pos, List, [], ◌∷◌, ◌++◌, map, length, Option,
  some, none, inl, ap, subst, sym,
}
use exchange_market_data_dec.Protocol.{Side, WireMsg}
use exchange_market_data_dec.Wire.{
  le_bytes, le_value, to_int64, type_of_tag, msg_size, side_of_byte, encode, decode, decode_body,
  Received,
}
use exchange_market_data_dec.Live.{
  Stamped, Receiver, new_receiver, receive, receive_loop, read_messages, new_publisher, frame,
  flush, append_message, publish_message, publish_messages, publish_loop, k_buffer_size,
  k_max_payload_bytes,
}
use exchange_market_data_dec.Live.Groups.{frame_of}
use exchange_market_data_dec.Live.Counts.{AllDatagrams, publish_loop-AllDatagrams}
use exchange_market_data_dec.Live.Receive.{AllWire, received_as}
use exchange_market_data_dec.Live.Feed.{after_datagram, receive_loop-publish_loop}
use exchange_market_data_dec.Live.Errors.{empty_messages, receive_loop-returns, receive-unknown}
use exchange_market_data_dec.Live.Loss.{AllSent, AllPublished, receive_loop-AllPublished}

-- an order, and its deletion
abbrev two : List Stamped
two =
    record {
      msg = WireMsg.add (record {
        instrument_id = 300;
        order_id = 77;
        side = Side.sell;
        price_ticks = pos 25010;
        qty = 500;
      });
      timestamp_ns = 1000;
    }
    ∷ record {
      msg = WireMsg.del (record { instrument_id = 300; order_id = 77 });
      timestamp_ns = 2000;
    }
    ∷ []

abbrev zeros : ℕ → List ℕ
zeros zero = []
zeros (suc n) = 0 ∷ zeros n

length-zeros : (n : ℕ) → length (zeros n) ≡ n
length-zeros zero = refl
length-zeros (suc n) = ap suc (length-zeros n)

sent_two : (publish_loop two).datagrams ≡ frame_of two ∷ []
unfolding publish_loop new_publisher publish_messages publish_message append_message flush frame
    msg_size type_of_tag encode le_bytes
sent_two = refl

arrived_twice : AllSent (publish_loop two).datagrams (frame_of two ∷ frame_of two ∷ [])
arrived_twice =
    subst (λ ds. AllSent ds (frame_of two ∷ frame_of two ∷ [])) (sym sent_two)
      (inl refl, (inl refl, tt))

two-AllWire : AllWire two
two-AllWire = (
  ((omega arith, omega arith, omega arith, omega arith), omega arith),
  (((omega arith, omega arith), omega arith), tt),
)

-- A datagram that announces one message and stops at its type is read with the bytes of the one before.
stale : Option (List Received)
unfolding receive_loop new_receiver receive read_messages decode decode_body type_of_tag
    side_of_byte to_int64 le_value le_bytes msg_size encode
stale = elim (receive_loop (frame_of two ∷ (1 ∷ 0 ∷ 68 ∷ []) ∷ []) (new_receiver (zeros 100))) [
  | none ↦ none
  | some r ↦ some r.dispatched
]

stale_read :
    stale
    ≡ some (
        map received_as two
        ++ record {
          msg = some (WireMsg.del (record { instrument_id = 300; order_id = 77 }));
          timestamp_ns = 1000;
        }
          ∷ [])
unfolding stale
stale_read = refl

receive_loop-publish_loop_example :
    (r : Receiver) × (receive_loop (publish_loop two).datagrams (new_receiver (zeros k_buffer_size))
      ≡ some r)
    × (r.dispatched ≡ map received_as two)
    × (r.received % 2 ^ 64 ≡ (publish_loop two).sent % 2 ^ 64)
receive_loop-publish_loop_example = receive_loop-publish_loop two (zeros k_buffer_size) two-AllWire

publish_loop-AllDatagrams_example :
    ((publish_messages two new_publisher).offset ≤ k_max_payload_bytes)
    × AllDatagrams (publish_loop two).datagrams
publish_loop-AllDatagrams_example = publish_loop-AllDatagrams two

receive_loop-returns_example :
    (r' : Receiver) × (ms : List Received) × (receive_loop
        ((1 ∷ 0 ∷ 68 ∷ []) ∷ (9 ∷ []) ∷ [])
        (new_receiver (zeros k_buffer_size))
      ≡ some r')
    × (r'.dispatched ≡ [] ++ ms)
    × (length r'.buf ≡ k_buffer_size)
unfolding new_receiver
receive_loop-returns_example =
    receive_loop-returns ((1 ∷ 0 ∷ 68 ∷ []) ∷ (9 ∷ []) ∷ []) (new_receiver (zeros k_buffer_size))
      (length-zeros k_buffer_size) (omega arith, (omega arith, tt))

receive-unknown_example :
    receive (le_bytes 2 3 ++ 90 ∷ 7 ∷ []) (new_receiver (zeros k_buffer_size))
    ≡ some (
        after_datagram
          (le_bytes 2 3 ++ 90 ∷ 7 ∷ [])
          (empty_messages 3)
          (new_receiver (zeros k_buffer_size)))
unfolding type_of_tag
receive-unknown_example =
    receive-unknown 3 90 (7 ∷ []) (new_receiver (zeros k_buffer_size)) (omega arith) refl

receive_loop-AllPublished_example :
    (r : Receiver) × (got : List Stamped) × (receive_loop
        (frame_of two ∷ frame_of two ∷ [])
        (new_receiver (zeros k_buffer_size))
      ≡ some r)
    × (r.dispatched ≡ map received_as got)
    × AllPublished two got
receive_loop-AllPublished_example =
    receive_loop-AllPublished two (frame_of two ∷ frame_of two ∷ []) (zeros k_buffer_size)
      two-AllWire arrived_twice
