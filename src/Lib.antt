-- ===== src/Lib.antt =====
-- A verification library for the exchange market data decoder: its order book, the replay of
-- a feed into it, the cross-venue best bid and offer, the trade-through guard, the
-- queue-position book, the backtest engine, the simulated order flow, the wire format and
-- the framing of the live feed, the ring buffer and shards of the live decoder, and the
-- fault-injection and benchmark programs.
--
-- The parts, and the files that model them (paths from the repository's root):
--
-- - include/protocol.hpp: Protocol. A message is a value of `WireMsg`, with a constructor
--   for each tag of the union. The timestamp is left out, but in Wire.
-- - include/order_book.hpp: Book. `OrderBook` is the record of the class's members; `init`,
--   `add`, `reduce`, `qty_at` and the touch are the methods of those names. The 16384 levels
--   of a side are a function from the index. Book/Scan has the two loops of `reduce`,
--   Book/Levels the index arithmetic and the change of each level, Book/Invariant the
--   invariant, Book/Depth what the touch promises.
-- - std::unordered_map: Map, as an association list; Map/Laws.
-- - include/backtest_sim.hpp, `apply_to_book`: Replay. Replay/Conservation ties the levels
--   of the book to the orders that rest, Replay/Touch the best bid and offer.
-- - include/nbbo.hpp: Nbbo. Best bid and best offer share one loop over the venues,
--   `best_from`, given the side of the touch. Nbbo/Best is about that loop; Nbbo/Extremes,
--   Nbbo/Pairs and Nbbo/Oracle set each part against a description of its own.
-- - include/trade_through_guard.hpp: Guard; its decisions are characterised in
--   Guard/Verdict.
-- - src/nbbo_fault_injection.cpp: Guard/Injection and its children, the searches and the
--   orders sent.
-- - include/queue_book.hpp: Queue (QueuePositionBook) and Queue/Tracker (FastAheadTracker).
--   An iterator into a level's list is the level and the arrival number of its node.
--   Queue/Linked has the invariant, Queue/Steps what a message does, Queue/Ahead the
--   agreement of the tracker with the oracle, Queue/Fills which messages fill a tracked
--   order.
-- - include/ring_buffer.hpp: Ring (SpscRingBuffer). Each load and store of shared memory in
--   push and pop is a step of Ring.Step, and the steps of the two threads interleave in any
--   order; the release and acquire of the source are taken as sequential consistency.
--   Ring/Invariant and Ring/Steps have the invariant, Ring/Safety what the callers rely on.
-- - include/normalizer.hpp: Normalizer (Shard, Normalizer). The dispatcher's calls and the
--   rounds of the workers come in any order as a list of events; a push or a pop of a queue
--   is one step, as Ring allows. Normalizer/Assign is about the constructor, Apply and Apart
--   about a message in its shard, Serving and Sharding about queues and interleavings, Books
--   about the whole run.
-- - include/venue_feed.hpp: Venue (VenueFeed). Venue/Equivalence is about its apply and
--   Replay's.
-- - include/backtest_sim.hpp, BacktestEngine: Backtest, on Replay, Queue and Queue/Tracker;
--   the messages of the simulator are an argument. Backtest/Finish is about what becomes of
--   the orders placed.
-- - include/market_simulator.hpp: Simulator (LiveOrder, MarketSimulator). The random engine
--   and its distributions are the interface Random; IsLawful says that a number is drawn
--   within its range. Simulator/Flow has what a message may do, as a relation; Mirror and
--   Consistency set the live orders against a book, Owners is about the ids, Stream and Runs
--   about whole runs.
-- - include/live_feed.hpp, OfflineBooks: Offline, on Simulator and Normalizer. Offline/Drain
--   is about how its constructor ends, Offline/Books about the books that it leaves.
-- - include/protocol.hpp, the packed structs: Wire, the bytes of each message;
--   Wire/RoundTrip.
-- - include/live_feed.hpp, LiveFeed: Live, the framing of publish_loop and receive_loop.
--   Live/Groups and Live/Publish have the messages of each datagram, Live/Counts their
--   sizes, Live/Receive what is read of a datagram, Live/Feed both ends together, Live/Loss
--   a network that loses, repeats or reorders, Live/Errors datagrams of other bytes;
--   Live/Lifecycle has start and wait, with the workers that they start and join,
--   Live/Lifecycle/Restart a feed that is started again, Live/Lifecycle/Waiting how wait
--   ends.
-- - src/nbbo_fault_injection.cpp, main: Harness, on Guard/Injection and Venue/Driven (a
--   VenueFeed with its simulator). Harness/Steps is about the stepping and the search,
--   Harness/Verdicts about the report.
-- - src/decoder_bench.cpp: Bench, with the turns of Offline. Bench/Totals has the sums over
--   shards, Bench/Count the number of messages processed.
--
-- Prelude holds the shared tests, lists, vectors, integers and equality; Samples two venues
-- for the tests.
--
-- Numbers. A price is an integer (`int64_t`); differences and sums of prices are exact,
-- since signed overflow is undefined in the source, and the cast to `int` keeps the low 32
-- bits in two's complement. Quantities are natural numbers: the code clamps level quantities
-- at 0 and takes a minimum before it subtracts. The `uint64_t` counters wrap at 2^64, but
-- for the shards' counts of messages, which are exact, and the narrowing casts to `uint32_t`
-- are written out. Each loop recurs on the indices or elements that are left, or on the
-- bound of the source (50000 steps of a search), so no fuel is needed. The vectors of the
-- normalizer that an instrument indexes have 512 elements: theorems about its books ask for
-- instruments below that. A division by zero faults. The simulator's order ids are a
-- `uint64_t`: its theorems ask for fewer messages than there are ids.
--
-- Not modelled: sockets (include/multicast_udp.hpp), timing, latency figures and printing,
-- the other command-line programs, and the Python binding. Nor, so far, are the destructor
-- and the statistics of the live feed.
pub mod Prelude
pub mod Protocol
pub mod Book
pub mod Map
pub mod Replay
pub mod Nbbo
pub mod Guard
pub mod Queue
mod Samples
pub mod Ring
pub mod Normalizer
pub mod Venue
pub mod Backtest
pub mod Simulator
pub mod Offline
pub mod Wire
pub mod Harness
pub mod Bench
pub mod Live
