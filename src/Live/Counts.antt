-- ===== src/Live/Counts.antt =====
-- include/live_feed.hpp, `publish_loop`: its counts and the sizes of its datagrams.
use exchange_market_data_dec.Prelude.{
  ℕ, ◌+◌, ◌*◌, ◌%◌, ◌^◌, ◌≤◌, ◌≡◌, refl, sym, ap, subst, arith, ◌==◌, ltb, List, [], ◌∷◌, take,
  length, Bool-cases, inl, inr,
}
use exchange_market_data_dec.Wire.{le_bytes, le_value, tag_of, type_of, msg_size}
use exchange_market_data_dec.Wire.Numbers.{le_value-le_bytes}
use exchange_market_data_dec.Live.{
  Stamped, Publisher, new_publisher, flush, append_message, publish_message, publish_messages,
  publish_loop, k_max_payload_bytes,
}
use exchange_market_data_dec.Live.Groups.{frames, AllFit, packed_long}
use exchange_market_data_dec.Live.Publish.{publish_loop_lem, publish_messages-fits}

flush-sent : (p : Publisher) → (flush p).sent ≡ p.sent
unfolding flush
flush-sent p = elim (Bool-cases (p.count == 0)) [ inl e ↦ rw e refl | inr e ↦ rw e refl ]

publish_message-sent :
    (m : Stamped) (p : Publisher) → (publish_message m p).sent ≡ (p.sent + 1) % 2 ^ 64
unfolding publish_message append_message
publish_message-sent m p =
    elim (Bool-cases (ltb 1200 (p.offset + msg_size (tag_of (type_of m.msg))))) [
      | inl e ↦ rw e (ap (λ k. (k + 1) % 2 ^ 64) (flush-sent p))
      | inr e ↦ rw e refl
    ]

publish_messages-sent :
    (ms : List Stamped) (p : Publisher)
    → (publish_messages ms p).sent % 2 ^ 64 ≡ (p.sent + length ms) % 2 ^ 64
unfolding publish_messages
publish_messages-sent [] p = omega arith
publish_messages-sent (m ∷ ms) p =
    omega (arith, publish_messages-sent ms (publish_message m p), publish_message-sent m p)

-- `sent_` counts the messages.
pub publish_loop-sent : (ms : List Stamped) → (publish_loop ms).sent % 2 ^ 64 ≡ length ms % 2 ^ 64
unfolding publish_loop new_publisher
publish_loop-sent ms =
    omega (
      arith,
      flush-sent (publish_messages ms new_publisher),
      publish_messages-sent ms new_publisher,
    )

-- A datagram has `kMaxPayloadBytes` at most, and announces no more messages than it has room for, each of
-- 19 bytes at least.
abbrev pub IsDatagram : List ℕ → Type 0
IsDatagram bytes =
    (length bytes ≤ k_max_payload_bytes) × (2 + 19 * le_value (take 2 bytes) ≤ length bytes)

abbrev pub AllDatagrams : List (List ℕ) → Type 0
AllDatagrams [] = Unit
AllDatagrams (d ∷ ds) = IsDatagram d × AllDatagrams ds

frames-AllDatagrams : (groups : List (List Stamped)) → AllFit groups → AllDatagrams (frames groups)
unfolding le_bytes
frames-AllDatagrams [] fit = tt
frames-AllDatagrams (g ∷ gs) fit =
    let announced : le_value (le_bytes 2 (length g)) ≡ length g =
      le_value-le_bytes 2 (length g) (omega (arith, packed_long g, fit.0)) in
    ((omega (arith, fit.0), omega (arith, packed_long g, announced)), frames-AllDatagrams gs fit.1)

-- Whatever is published, a message is always written within the first `kMaxPayloadBytes` of the packet,
-- and every datagram has at most so many bytes and no more messages than its bytes hold.
pub publish_loop-AllDatagrams :
    (ms : List Stamped)
    → ((publish_messages ms new_publisher).offset ≤ k_max_payload_bytes)
      × AllDatagrams (publish_loop ms).datagrams
publish_loop-AllDatagrams ms =
    let (groups, sent, fit, same) = publish_loop_lem ms in
    (publish_messages-fits ms, subst AllDatagrams (sym sent) (frames-AllDatagrams groups fit))
