-- ===== src/Live/Publish.antt =====
-- include/live_feed.hpp, `publish_loop`: the datagrams that are sent.
use native.Mathlib.Nat.{mod-eq_of_lt}
use mathlib.Core.List.{append-nil, append_assoc}
use exchange_market_data_dec.Prelude.{
  ◌+◌, ◌-◌, ◌≤◌, ◌≡◌, refl, sym, ◌∙◌, ap, ap₂, arith, ◌==◌, ltb, List, [], ◌∷◌, ◌++◌, take, length,
  length-append, Bool-cases, inl, inr, if-ind,
}
use exchange_market_data_dec.Wire.{le_bytes, tag_of, type_of, msg_size}
use exchange_market_data_dec.Wire.RoundTrip.{length-encode}
use exchange_market_data_dec.Live.Groups.{
  stamped_bytes, packed, frame_of, messages_of, frames, AllFit, msg_size_bounds, packed_append,
  messages_of_append, frames_append, append-AllFit, packed_long,
}
use exchange_market_data_dec.Live.{
  Stamped, Publisher, new_publisher, frame, flush, append_message, publish_message,
  publish_messages, publish_loop, k_max_payload_bytes,
}

pub take_all {ℓ} : {A : Type ℓ} (xs : List A) → take (length xs) xs ≡ xs
take_all [] = refl
take_all (x ∷ xs) = ap (λ ys. x ∷ ys) (take_all xs)

-- The datagrams have the messages of `groups`, and the packet those of `current`.
pub record IsPacking (p : Publisher) (groups : List (List Stamped)) (current : List Stamped)
    : Type 0 where
  pub packet : p.packet ≡ packed current
  pub offset : p.offset ≡ 2 + length (packed current)
  pub count : p.count ≡ length current
  pub small : 2 + length (packed current) ≤ 1200
  pub datagrams : p.datagrams ≡ frames groups
  pub fit : AllFit groups

new_publisher-IsPacking : IsPacking new_publisher [] []
unfolding new_publisher
new_publisher-IsPacking = record {
  packet = refl;
  offset = refl;
  count = refl;
  small = omega arith;
  datagrams = refl;
  fit = tt;
}

-- the written part of the packet is all of it
IsPacking-take :
    (p : Publisher) (groups : List (List Stamped)) (current : List Stamped)
    → IsPacking p groups current
    → take (p.offset - 2) p.packet ≡ packed current
IsPacking-take p groups current v =
    let short : p.offset - 2 ≡ length (packed current) = omega (arith, v.offset) in
    rw (short, v.packet) (take_all (packed current))

flushed :
    (p : Publisher) (groups : List (List Stamped)) (current : List Stamped)
    → IsPacking p groups current
    → p.datagrams ++ frame p.count p.offset p.packet ∷ [] ≡ frames (groups ++ current ∷ [])
unfolding frame
flushed p groups current v =
    let framed : frame p.count p.offset p.packet ≡ frame_of current =
      ap₂ (λ c xs. le_bytes 2 c ++ xs) v.count (IsPacking-take p groups current v) in
    ap₂ (λ ds d. ds ++ d ∷ []) v.datagrams framed ∙ sym (frames_append groups (current ∷ []))

flush-IsPacking :
    (p : Publisher) (groups : List (List Stamped)) (current : List Stamped)
    → IsPacking p groups current
    → (groups' : List (List Stamped)) × IsPacking (flush p) groups' []
      × (messages_of groups' ≡ messages_of groups ++ current)
unfolding flush frame
flush-IsPacking p groups [] v = (
  groups,
  if-ind (λ x. IsPacking x groups []) (p.count == 0) (λ e. v)
      (λ e. absurd (ground (arith, e, v.count))),
  sym (append-nil (messages_of groups)),
)
flush-IsPacking p groups (m ∷ ms) v = (
  groups ++ (m ∷ ms) ∷ [],
  if-ind (λ x. IsPacking x (groups ++ (m ∷ ms) ∷ []) []) (p.count == 0)
      (λ e. absurd (ground (arith, e, v.count)))
      (λ e. record {
        packet = refl;
        offset = refl;
        count = refl;
        small = omega arith;
        datagrams = flushed p groups (m ∷ ms) v;
        fit = append-AllFit groups (m ∷ ms) v.fit v.small;
      }),
  messages_of_append groups ((m ∷ ms) ∷ [])
      ∙ ap (λ xs. messages_of groups ++ xs) (append-nil (m ∷ ms)),
)

append_message-IsPacking :
    (m : Stamped) (p : Publisher) (groups : List (List Stamped)) (current : List Stamped)
    → p.offset + msg_size (tag_of (type_of m.msg)) ≤ 1200
    → IsPacking p groups current
    → IsPacking (append_message m p) groups (current ++ m ∷ [])
unfolding append_message
append_message-IsPacking m p groups current room v =
    let bytes : packed (current ++ m ∷ []) ≡ packed current ++ stamped_bytes m =
      packed_append current (m ∷ [])
      ∙ ap (λ xs. packed current ++ xs) (append-nil (stamped_bytes m)) in
    let long : length (packed (current ++ m ∷ []))
        ≡ length (packed current) + msg_size (tag_of (type_of m.msg)) =
      ap length bytes
      ∙ length-append (packed current) (stamped_bytes m)
      ∙ ap (λ k. length (packed current) + k) (length-encode m.msg m.timestamp_ns) in
    record {
      packet = ap (λ xs. xs ++ stamped_bytes m) (IsPacking-take p groups current v) ∙ sym bytes;
      offset = omega (arith, v.offset, long);
      count =
          mod-eq_of_lt (omega (arith, v.count, packed_long current, v.small))
          ∙ omega (arith, v.count, length-append current (m ∷ []));
      small = omega (arith, v.offset, long, room);
      datagrams = v.datagrams;
      fit = v.fit;
    }

-- A message is put in the packet, or in the next one where it does not fit any more.
publish_message-IsPacking :
    (m : Stamped) (p : Publisher) (groups : List (List Stamped)) (current : List Stamped)
    → IsPacking p groups current
    → (groups' : List (List Stamped)) × (current' : List Stamped) × IsPacking
        (publish_message m p)
        groups'
        current'
      × (messages_of groups' ++ current' ≡ (messages_of groups ++ current) ++ m ∷ [])
unfolding publish_message
publish_message-IsPacking m p groups current v =
    elim (Bool-cases (ltb 1200 (p.offset + msg_size (tag_of (type_of m.msg))))) [
      | inl full ↦
          let (groups', flushed, same) = flush-IsPacking p groups current v in
          (
            groups',
            m ∷ [],
            rw full (
                append_message-IsPacking m (flush p) groups' []
                  (omega (arith, flushed.offset, msg_size_bounds m.msg)) flushed),
            ap (λ xs. xs ++ m ∷ []) same,
          )
      | inr fits ↦ (
        groups,
        current ++ m ∷ [],
        rw fits (append_message-IsPacking m p groups current (ground (arith, fits)) v),
        sym (append_assoc (messages_of groups) current (m ∷ [])),
      )
    ]

publish_messages-IsPacking :
    (ms : List Stamped) (p : Publisher) (groups : List (List Stamped)) (current : List Stamped)
    → IsPacking p groups current
    → (groups' : List (List Stamped)) × (current' : List Stamped) × IsPacking
        (publish_messages ms p)
        groups'
        current'
      × (messages_of groups' ++ current' ≡ (messages_of groups ++ current) ++ ms)
unfolding publish_messages
publish_messages-IsPacking [] p groups current v =
    (groups, current, v, sym (append-nil (messages_of groups ++ current)))
publish_messages-IsPacking (m ∷ ms) p groups current v =
    let (groups1, current1, v1, e1) = publish_message-IsPacking m p groups current v in
    let (groups2, current2, v2, e2) =
      publish_messages-IsPacking ms (publish_message m p) groups1 current1 v1 in
    (
      groups2,
      current2,
      v2,
      e2 ∙ ap (λ xs. xs ++ ms) e1 ∙ append_assoc (messages_of groups ++ current) (m ∷ []) ms,
    )

-- The datagrams of a run have its messages, in order, in groups that each fit a datagram.
pub publish_loop_lem :
    (ms : List Stamped)
    → (groups : List (List Stamped)) × ((publish_loop ms).datagrams ≡ frames groups)
      × AllFit groups
      × (messages_of groups ≡ ms)
unfolding publish_loop
publish_loop_lem ms =
    let (groups, current, v, e) =
      publish_messages-IsPacking ms new_publisher [] [] new_publisher-IsPacking in
    let (groups', v', e') = flush-IsPacking (publish_messages ms new_publisher) groups current v in
    (groups', v'.datagrams, v'.fit, e' ∙ e)

-- The packet is never written past `kMaxPayloadBytes`.
pub publish_messages-fits :
    (ms : List Stamped) → (publish_messages ms new_publisher).offset ≤ k_max_payload_bytes
publish_messages-fits ms =
    let (groups, current, v, e) =
      publish_messages-IsPacking ms new_publisher [] [] new_publisher-IsPacking in
    omega (arith, v.offset, v.small)
