-- ===== src/Live/Loss.antt =====
-- include/live_feed.hpp: datagrams that are lost, repeated or arrive in another order.
use mathlib.Core.List.{append-nil, append_assoc}
use exchange_market_data_dec.Prelude.{
  ℕ, ◌+◌, ◌≤◌, ◌≡◌, refl, sym, ◌∙◌, ap, subst, List, [], ◌∷◌, ◌++◌, map, length, some, inl, inr, In,
  In-append_left, In-append_right,
}
use exchange_market_data_dec.Live.{
  Stamped, Receiver, receive, receive_loop, new_receiver, publish_loop,
}
use exchange_market_data_dec.Live.Groups.{packed, frame_of, frames, messages_of, AllFit}
use exchange_market_data_dec.Live.Publish.{publish_loop_lem}
use exchange_market_data_dec.Live.Receive.{AllWire, received_as}
use exchange_market_data_dec.Live.Feed.{append-AllWire, map_append, after_datagram, receive-frame}

-- Every datagram that arrives was sent.
abbrev pub AllSent : List (List ℕ) → List (List ℕ) → Type 0
AllSent sent [] = Unit
AllSent sent (d ∷ ds) = In d sent × AllSent sent ds

-- Every message read was published.
abbrev pub AllPublished : List Stamped → List Stamped → Type 0
AllPublished ms [] = Unit
AllPublished ms (m ∷ got) = In m ms × AllPublished ms got

append-AllPublished :
    (ms xs ys : List Stamped) → AllPublished ms xs → AllPublished ms ys → AllPublished ms (xs ++ ys)
append-AllPublished ms [] ys left right = right
append-AllPublished ms (x ∷ xs) ys left right = (left.0, append-AllPublished ms xs ys left.1 right)

all-AllPublished : (ms xs : List Stamped) → ((m : Stamped) → In m xs → In m ms) → AllPublished ms xs
all-AllPublished ms [] has = tt
all-AllPublished ms (x ∷ xs) has = (has x (inl refl), all-AllPublished ms xs (λ m h. has m (inr h)))

-- A datagram sent is that of a group.
In-frames :
    (d : List ℕ) (groups : List (List Stamped))
    → In d (frames groups)
    → AllFit groups
    → AllWire (messages_of groups)
    → (g : List Stamped) × (d ≡ frame_of g)
      × (2 + length (packed g) ≤ 1200)
      × AllWire g
      × AllPublished (messages_of groups) g
In-frames d [] h fit wire = absurd h.lower
In-frames d (g ∷ gs) (inl e) fit wire = (
  g,
  e,
  fit.0,
  (append-AllWire g (messages_of gs) wire).0,
  all-AllPublished (g ++ messages_of gs) g (λ m h. In-append_left m g (messages_of gs) h),
)
In-frames d (g ∷ gs) (inr h) fit wire =
    let (g', e, small, fits, known) =
      In-frames d gs h fit.1 (append-AllWire g (messages_of gs) wire).1 in
    (g', e, small, fits, later-AllPublished g (messages_of gs) g' known)
  where
    later-AllPublished :
        (xs ms got : List Stamped) → AllPublished ms got → AllPublished (xs ++ ms) got
    later-AllPublished xs ms [] known = tt
    later-AllPublished xs ms (m ∷ got) known =
        (In-append_right m xs ms known.0, later-AllPublished xs ms got known.1)

receive_loop-arrived :
    (groups : List (List Stamped)) (arrived : List (List ℕ)) (r : Receiver)
    → AllFit groups
    → AllWire (messages_of groups)
    → AllSent (frames groups) arrived
    → (r' : Receiver) × (got : List Stamped) × (receive_loop arrived r ≡ some r')
      × (r'.dispatched ≡ r.dispatched ++ map received_as got)
      × AllPublished (messages_of groups) got
unfolding receive_loop
receive_loop-arrived groups [] r fit wire sent = (r, [], refl, sym (append-nil r.dispatched), tt)
receive_loop-arrived groups ([] ∷ ds) r fit wire sent =
    receive_loop-arrived groups ds r fit wire sent.1
receive_loop-arrived groups ((b ∷ bs) ∷ ds) r fit wire sent =
    let d = b ∷ bs in
    let (g, e, small, fits, known) = In-frames d groups sent.0 fit wire in
    let now : receive d r ≡ some (after_datagram d (map received_as g) r) =
      subst (λ x. receive x r ≡ some (after_datagram x (map received_as g) r)) (sym e)
        (receive-frame g r fits small) in
    let (r', got, later, dispatched, rest) =
      receive_loop-arrived groups ds (after_datagram d (map received_as g) r) fit wire sent.1 in
    (
      r',
      g ++ got,
      rw (receive_loop, now) later,
      dispatched
          ∙ append_assoc r.dispatched (map received_as g) (map received_as got)
          ∙ ap (λ xs. r.dispatched ++ xs) (sym (map_append g got)),
      append-AllPublished (messages_of groups) g got known rest,
    )

-- Whatever datagrams are lost, repeated or reordered, the receiver handles all that arrive, and every
-- message that it hands on is one that was published, with its timestamp, if the members of the messages
-- fit their types.
pub receive_loop-AllPublished :
    (ms : List Stamped) (arrived : List (List ℕ)) (buf : List ℕ)
    → AllWire ms
    → AllSent (publish_loop ms).datagrams arrived
    → (r : Receiver) × (got : List Stamped) × (receive_loop arrived (new_receiver buf) ≡ some r)
      × (r.dispatched ≡ map received_as got)
      × AllPublished ms got
unfolding new_receiver
receive_loop-AllPublished ms arrived buf wire arrives =
    let (groups, sent, fit, same) = publish_loop_lem ms in
    let (r, got, e, dispatched, known) =
      receive_loop-arrived groups arrived (new_receiver buf) fit (subst AllWire (sym same) wire)
        (subst (λ ds. AllSent ds arrived) sent arrives) in
    (r, got, e, dispatched, subst (λ xs. AllPublished xs got) same known)
