-- ===== src/Live/Groups.antt =====
-- include/live_feed.hpp: the bytes of several messages in one datagram.
use mathlib.Core.List.{append_assoc}
use exchange_market_data_dec.Prelude.{
  ℕ, ◌+◌, ◌*◌, ◌≤◌, ◌≡◌, refl, sym, ◌∙◌, ap, arith, List, [], ◌∷◌, ◌++◌, length, length-append,
}
use exchange_market_data_dec.Protocol.{WireMsg}
use exchange_market_data_dec.Wire.{le_bytes, tag_of, type_of, msg_size, encode}
use exchange_market_data_dec.Wire.RoundTrip.{length-encode}
use exchange_market_data_dec.Live.{Stamped}

abbrev pub stamped_bytes : Stamped → List ℕ
stamped_bytes m = encode m.msg m.timestamp_ns

-- the bytes of messages one after the other
abbrev pub packed : List Stamped → List ℕ
packed [] = []
packed (m ∷ ms) = stamped_bytes m ++ packed ms

-- the datagram of some messages
abbrev pub frame_of : List Stamped → List ℕ
frame_of ms = le_bytes 2 (length ms) ++ packed ms

-- the messages of several datagrams
abbrev pub messages_of : List (List Stamped) → List Stamped
messages_of [] = []
messages_of (g ∷ gs) = g ++ messages_of gs

abbrev pub frames : List (List Stamped) → List (List ℕ)
frames [] = []
frames (g ∷ gs) = frame_of g ∷ frames gs

-- Every group of messages fits a datagram.
abbrev pub AllFit : List (List Stamped) → Type 0
AllFit [] = Unit
AllFit (g ∷ gs) = (2 + length (packed g) ≤ 1200) × AllFit gs

pub msg_size_bounds :
    (m : WireMsg) → (19 ≤ msg_size (tag_of (type_of m))) × (msg_size (tag_of (type_of m)) ≤ 39)
unfolding msg_size
msg_size_bounds (WireMsg.add a) = omega arith
msg_size_bounds (WireMsg.exec e) = omega arith
msg_size_bounds (WireMsg.cancel c) = omega arith
msg_size_bounds (WireMsg.del d) = omega arith
msg_size_bounds (WireMsg.replace r) = omega arith

pub packed_append : (xs ys : List Stamped) → packed (xs ++ ys) ≡ packed xs ++ packed ys
packed_append [] ys = refl
packed_append (x ∷ xs) ys =
    ap (λ zs. stamped_bytes x ++ zs) (packed_append xs ys)
    ∙ sym (append_assoc (stamped_bytes x) (packed xs) (packed ys))

pub messages_of_append :
    (xs ys : List (List Stamped)) → messages_of (xs ++ ys) ≡ messages_of xs ++ messages_of ys
messages_of_append [] ys = refl
messages_of_append (x ∷ xs) ys =
    ap (λ zs. x ++ zs) (messages_of_append xs ys)
    ∙ sym (append_assoc x (messages_of xs) (messages_of ys))

pub frames_append : (xs ys : List (List Stamped)) → frames (xs ++ ys) ≡ frames xs ++ frames ys
frames_append [] ys = refl
frames_append (x ∷ xs) ys = ap (λ zs. frame_of x ∷ zs) (frames_append xs ys)

pub append-AllFit :
    (xs : List (List Stamped)) (g : List Stamped)
    → AllFit xs
    → 2 + length (packed g) ≤ 1200
    → AllFit (xs ++ g ∷ [])
append-AllFit [] g fit small = (small, tt)
append-AllFit (x ∷ xs) g fit small = (fit.0, append-AllFit xs g fit.1 small)

-- Every message has 19 bytes at least.
pub packed_long : (ms : List Stamped) → 19 * length ms ≤ length (packed ms)
packed_long [] = omega arith
packed_long (m ∷ ms) = omega (
  arith,
  packed_long ms,
  length-append (stamped_bytes m) (packed ms),
  length-encode m.msg m.timestamp_ns,
  msg_size_bounds m.msg,
)
