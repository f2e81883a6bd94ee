-- ===== src/Lib.antt =====
-- Verification of datamancer, a Rust workspace that acquires market data from providers, numbers and
-- caches it, and fans it out to sessions and clients.
--
-- The program's parts and how they interact. A provider's arrivals reach the `Controller` of a session
-- (crates/datamancer/src/session.rs), its single writer: it stamps each event with the next sequence
-- number of the instrument, counts it, appends data to the tap log, and delivers it. A historical
-- session delivers to one consumer, or to an `EventRing` while the consumer is away. An authoritative
-- live session delivers to a `FanOut` (crates/datamancer/src/client.rs) over its referrers, each behind
-- a bounded channel, and keeps `LiveStats`. It first runs a backfill, which streams a plan of cached
-- and fetched segments while live arrivals wait in a ring, then hands over to the live loop.
-- A client session multiplexes such sessions in a `ClientController`, with a `ClientRing` while its consumer is away. Cached history is planned over
-- the `CoverageDoc` of the cache (crates/datamancer/src/storage/coverage.rs). A snapshot samples the
-- sessions and the accounting of providers, and the health view reduces it
-- (crates/datamancer-core/src/snapshot.rs, health.rs). Tasks that fetch the same key take turns by
-- `FetchLocks`, and the iceoryx2 transport carries events as fixed records over interned symbols.
--
-- Files.
--   Base: names of the libraries, Boolean tests, integers, equality, lists and association lists.
--   Core: crates/datamancer-core/src/event.rs (Event, Kinds), instrument.rs (Instrument),
--     adjustment.rs (Adjustment), quantity.rs (Quantity); what is missed with an event (Extent); the requests and keys of traits/provider.rs
--     and traits/storage.rs (Request).
--   Storage: crates/datamancer/src/storage/coverage.rs (Coverage: `merge_in`, `intersect`,
--     `gaps_within`; proofs in Merge, Gaps, Widest) and `TursoCache::gaps` of turso.rs (Turso).
--   Channel: the sending half of a tokio channel, a record of calls with the laws relied on.
--   Client: crates/datamancer/src/client.rs: Stats (`LiveStats`), FanOut (`FanOut`, `PendingGap`,
--     `gap_coords`, `absorb_drop`), Ring (`ClientRing`), Occupancy (`ClientStats`), Session
--     (`ClientController`). `FanOut::remove` is `drop_subscriber`, and the body of the loop of
--     `FanOut::fanout` is `serve`.
--   Provider: `ProviderAccounting` of crates/datamancer/src/accounting.rs (Accounting).
--   Session: crates/datamancer/src/session.rs: Options (`Scope`, `PersistenceOptions`), Tile (`tile`,
--     `confirmed_prefix_end`), Ring (`EventRing`), Controller (`stamp`, `deliver_with`, `tee`,
--     `forward_with`), Lifecycle (arrivals, commands, the backfill seam, teardown, shutdown; sequence
--     numbers in Room), Run (the inner loops of `stream_segments`, and its segments in Segments; proofs
--     in Trace, Rounds, Loops, Plan, Delivery, Settle, Whole, Room, Ends), Live (`run_backfill`,
--     `run_live`; proofs in Seeds, Ending, Backfill, Upstream, Room), Historical (`run_historical`,
--     `run_historical_cached`, `finish_historical`; proofs in Trace, Whole).
--   FetchLocks: crates/datamancer/src/fetch_locks.rs; proofs in Invariant, Exclusion.
--   Transport: crates/datamancer-transport-iceoryx2/src/symbol_table.rs (Symbols) and payload.rs
--     (Payload).
--   Health: Snapshot (crates/datamancer-core/src/snapshot.rs and `assemble_snapshot`), View (health.rs).
--   Examples: a bounded queue as the channel, and the theorems at concrete data.
--
-- State and failure. A method that changes `self` takes the state and returns the new one; atomics and
-- mutexes are fields. A session's `LiveStats` and a client's `ClientStats` have one writer; the
-- `ProviderAccounting` of a provider is shared by its sessions, and a `Controller` holds what it alone
-- adds to it. A snapshot reads the phase of a session twice, and the readings may differ. The panic of
-- `stamp` is `none`. A hash map is an association list. A wall-clock reading, a channel, a database answer and what the engine answers to a
-- client's join are arguments. A `select!` loop is a recursion on its rounds: a list that says, round by
-- round, which source was ready and with what, in any interleaving. `World` is what the cache and the
-- provider answer to a session. Tokio's mutex is the parameter `AsyncMutex`.
--
-- Bounds. Sequence numbers and counters are natural numbers with the source's wrap-around, saturation or
-- check written out. Timestamps are integers; `saturating_add(1)` is written out, and the subtractions
-- of the snapshot and the health view wrap as in a release build. All loops are recursions on the list
-- they walk, so no fuel is needed.
--
-- Not modelled. The engine with its registry and routing, the database and tap log storage, the
-- providers, the announcements, service names and sinks of the iceoryx2 transport, the WebSocket
-- transport, the client library, the credential stores and the daemon; serialisation, floating point
-- conversions and logging; `flush` calls, which store nothing new.
pub mod Base
pub mod Core
pub mod Storage
pub mod Channel
pub mod Client
pub mod Provider
pub mod Session
pub mod Health
pub mod Transport
pub mod FetchLocks
pub mod Examples
