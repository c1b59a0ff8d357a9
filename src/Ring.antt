-- ===== src/Ring.antt =====
-- include/ring_buffer.hpp: the ring buffer of one producer and one consumer thread. Each call is a row
-- of atomic steps, at every load and store of shared memory, and the steps of the two threads
-- interleave in any order, so a load of the other thread's index returns the value stored last, where the
-- acquire load of the source may return an older one. `& kMask` is `% Capacity`, since Capacity is a power of two.
-- `pushed` and `popped` record, in order, the items of the calls that returned true.
pub mod Window
pub mod Invariant
pub mod Steps
pub mod Safety
mod Tests
use exchange_market_data_dec.Prelude.{
  ℕ, ◌+◌, ◌-◌, ◌%◌, ◌<◌, ◌≡◌, ◌≢◌, Bool, true, false, List, [], ◌∷◌, ◌++◌, if◌then◌else◌, ◌==◌, put,
}

-- where the producer stands in `push`: outside, after the load of `head_`, before the write of the
-- slot, before the store of `head_`
pub data PushPc (T : Type 0) : Type 0 where
  idle : PushPc T
  loaded : T → ℕ → PushPc T
  writing : T → ℕ → PushPc T
  storing : T → ℕ → PushPc T

-- where the consumer stands in `pop`: outside, after the load of `tail_`, before the read of the
-- slot, before the store of `tail_`
pub data PopPc (T : Type 0) : Type 0 where
  idle : PopPc T
  loaded : ℕ → PopPc T
  reading : ℕ → PopPc T
  storing : ℕ → T → PopPc T

pub record System (T : Type 0) : Type 0 where
  pub head : ℕ
  pub tail : ℕ
  pub buffer : ℕ → T
  pub producer : PushPc T
  pub consumer : PopPc T
  pub pushed : List T
  pub popped : List T

abbrev pub next : ℕ → ℕ → ℕ
next capacity i = (i + 1) % capacity

module _ {T : Type 0} (capacity : ℕ) where
  -- One step of one of the two threads.
  pub data Step (s : System T) : System T → Type 0 where
    load_head :
        (x : T) → s.producer ≡ PushPc.idle → Step s (record s { producer = PushPc.loaded x s.head })
    push_full :
        (x : T) (h : ℕ)
        → s.producer ≡ PushPc.loaded x h
        → next capacity h ≡ s.tail
        → Step s (record s { producer = PushPc.idle })
    push_room :
        (x : T) (h : ℕ)
        → s.producer ≡ PushPc.loaded x h
        → next capacity h ≢ s.tail
        → Step s (record s { producer = PushPc.writing x h })
    write_slot :
        (x : T) (h : ℕ)
        → s.producer ≡ PushPc.writing x h
        → Step s (record s { buffer = put s.buffer h x; producer = PushPc.storing x h })
    store_head :
        (x : T) (h : ℕ)
        → s.producer ≡ PushPc.storing x h
        → Step s (record s {
          head = next capacity h;
          producer = PushPc.idle;
          pushed = s.pushed ++ x ∷ [];
        })
    load_tail : s.consumer ≡ PopPc.idle → Step s (record s { consumer = PopPc.loaded s.tail })
    pop_empty :
        (t : ℕ)
        → s.consumer ≡ PopPc.loaded t
        → t ≡ s.head
        → Step s (record s { consumer = PopPc.idle })
    pop_item :
        (t : ℕ)
        → s.consumer ≡ PopPc.loaded t
        → t ≢ s.head
        → Step s (record s { consumer = PopPc.reading t })
    read_slot :
        (t : ℕ)
        → s.consumer ≡ PopPc.reading t
        → Step s (record s { consumer = PopPc.storing t (s.buffer t) })
    store_tail :
        (t : ℕ) (x : T)
        → s.consumer ≡ PopPc.storing t x
        → Step s (record s {
          tail = next capacity t;
          consumer = PopPc.idle;
          popped = s.popped ++ x ∷ [];
        })

  -- the members' initial values
  abbrev pub start_with : (ℕ → T) → System T
  start_with buffer = record {
    head = 0;
    tail = 0;
    buffer = buffer;
    producer = PushPc.idle;
    consumer = PopPc.idle;
    pushed = [];
    popped = [];
  }

  pub data Reach (buffer : ℕ → T) : System T → Type 0 where
    start : Reach buffer (start_with buffer)
    later : {s t : System T} → Reach buffer s → Step s t → Reach buffer t
