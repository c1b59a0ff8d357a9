-- ===== src/Live/Receive.antt =====
-- include/live_feed.hpp, `receive_loop`: the messages read from a datagram.
use mathlib.Core.List.{append_assoc}
use exchange_market_data_dec.Prelude.{
  ℕ, zero, suc, ◌+◌, ◌-◌, ◌^◌, ◌≤◌, ◌<◌, ◌≡◌, refl, sym, ◌∙◌, ap, ap₂, arith, ltb, List, [], ◌∷◌,
  ◌++◌, map, take, drop, length, length-append, length-drop, take_append, drop_append, Bool-cases,
  inl, inr, some, true, false,
}
use exchange_market_data_dec.Protocol.{WireMsg}
use exchange_market_data_dec.Wire.{
  le_bytes, le_value, tag_of, type_of, type_of_tag, msg_size, encode, decode, Received,
}
use exchange_market_data_dec.Wire.RoundTrip.{length-encode, decode-encode, IsWire}
use exchange_market_data_dec.Live.{Stamped, read_messages}
use exchange_market_data_dec.Live.Groups.{msg_size_bounds, stamped_bytes, packed}

-- what the receiver reads of a message
abbrev pub received_as : Stamped → Received
received_as m = record { msg = some m.msg; timestamp_ns = m.timestamp_ns }

-- The members and the timestamps of all messages fit their types.
abbrev pub AllWire : List Stamped → Type 0
AllWire [] = Unit
AllWire (m ∷ ms) = (IsWire m.msg × (m.timestamp_ns < 2 ^ 64)) × AllWire ms

-- An unknown type has no size, and no message is longer than 39 bytes.
pub msg_size_le : (t : ℕ) → msg_size t ≤ 39
unfolding msg_size type_of_tag
msg_size_le t = ground arith

drop_nil {ℓ} : {A : Type ℓ} (n : ℕ) → drop {A = A} n [] ≡ []
drop_nil zero = refl
drop_nil (suc n) = refl

drop-drop {ℓ} : {A : Type ℓ} (a b : ℕ) (xs : List A) → drop b (drop a xs) ≡ drop (a + b) xs
drop-drop zero b xs = let same : b ≡ zero + b = omega arith in ap (λ k. drop k xs) same
drop-drop (suc a) b [] = drop_nil b ∙ sym (drop_nil (suc a + b))
drop-drop (suc a) b (x ∷ xs) =
    let same : suc (a + b) ≡ suc a + b = omega arith in
    drop-drop a b xs ∙ ap (λ k. drop k (x ∷ xs)) same

first_byte :
    (m : WireMsg) (ts : ℕ) (rest : List ℕ)
    → le_value (take 1 (encode m ts ++ rest)) ≡ tag_of (type_of m)
unfolding encode le_bytes le_value
first_byte (WireMsg.add a) ts rest = refl
first_byte (WireMsg.exec e) ts rest = refl
first_byte (WireMsg.cancel c) ts rest = refl
first_byte (WireMsg.del d) ts rest = refl
first_byte (WireMsg.replace r) ts rest = refl

-- A round of the loop, before the end of the datagram and within the buffer.
pub read_round :
    (left n : ℕ) (buf : List ℕ) (offset t : ℕ) (ms : List Received)
    → offset < n
    → le_value (take 1 (drop offset buf)) ≡ t
    → offset + msg_size t ≤ length buf
    → read_messages left n buf (offset + msg_size t) ≡ some ms
    → read_messages (suc left) n buf offset
      ≡ some (decode (take (msg_size t) (drop offset buf)) ∷ ms)
unfolding read_messages
read_round left n buf offset t ms more first room later =
    let go : ltb offset n ≡ true = ground (arith, more) in
    let within : ltb (length buf) (offset + msg_size t) ≡ false = ground (arith, room) in
    rw (first, go, within, later)
      (ap (λ k. some (decode (take (msg_size k) (drop offset buf)) ∷ ms)) first)

-- Messages that are in the buffer, one after the other, are read as they are.
pub read_messages-packed :
    (ms : List Stamped) (n : ℕ) (buf rest : List ℕ) (offset : ℕ)
    → AllWire ms
    → drop offset buf ≡ packed ms ++ rest
    → offset + length (packed ms) ≤ n
    → read_messages (length ms) n buf offset ≡ some (map received_as ms)
unfolding read_messages
read_messages-packed [] n buf rest offset wire there whole = refl
read_messages-packed (m ∷ ms) n buf rest offset wire there whole =
    let bytes = stamped_bytes m in
    let t = tag_of (type_of m.msg) in
    let behind = packed ms ++ rest in
    let long : length bytes ≡ msg_size t = length-encode m.msg m.timestamp_ns in
    let here : drop offset buf ≡ bytes ++ behind = there ∙ append_assoc bytes (packed ms) rest in
    let taken : take (msg_size t) (drop offset buf) ≡ bytes =
      ap₂ take (sym long) here ∙ take_append bytes behind in
    let next : drop (offset + msg_size t) buf ≡ behind =
      sym (drop-drop offset (msg_size t) buf)
      ∙ ap₂ drop (sym long) here
      ∙ drop_append bytes behind in
    let left : length (packed (m ∷ ms)) ≡ length bytes + length (packed ms) =
      length-append bytes (packed ms) in
    let later : read_messages (length ms) n buf (offset + msg_size t) ≡ some (map received_as ms) =
      read_messages-packed ms n buf rest (offset + msg_size t) wire.1 next
        (omega (arith, whole, long, left)) in
    let small = msg_size_bounds m.msg in
    let inside : length buf - offset ≡ length bytes + length behind =
      sym (length-drop offset buf) ∙ ap length here ∙ length-append bytes behind in
    read_round (length ms) n buf offset t (map received_as ms)
      (omega (arith, whole, long, left, small))
      (ap (λ xs. le_value (take 1 xs)) here ∙ first_byte m.msg m.timestamp_ns behind)
      (omega (arith, inside, long, small)) later
    ∙ ap (λ x. some (x ∷ map received_as ms))
        (ap decode taken ∙ decode-encode m.msg m.timestamp_ns wire.0.0 wire.0.1)

-- Whatever bytes arrive, if the buffer goes 38 bytes past them, no read leaves the buffer, and at most the
-- announced number of messages is read.
pub read_messages-returns :
    (left n : ℕ) (buf : List ℕ) (offset : ℕ)
    → n + 38 ≤ length buf
    → (ms : List Received) × (read_messages left n buf offset ≡ some ms) × (length ms ≤ left)
unfolding read_messages
read_messages-returns zero n buf offset room = ([], refl, omega arith)
read_messages-returns (suc left) n buf offset room =
    let t = le_value (take 1 (drop offset buf)) in
    elim (Bool-cases (ltb offset n)) [
      | inl more ↦
          let before : offset < n = ground (arith, more) in
          let (ms, e, few) = read_messages-returns left n buf (offset + msg_size t) room in
          (
            decode (take (msg_size t) (drop offset buf)) ∷ ms,
            read_round left n buf offset t ms before refl
                (omega (arith, msg_size_le t, room, before)) e,
            omega (arith, few),
          )
      | inr done ↦ ([], rw done refl, omega arith)
    ]
