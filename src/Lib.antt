-- ===== src/Lib.antt =====
-- A verification library for quietquic, a QUIC endpoint that stays silent to peers without a key.
--
-- The core crate, proto/, is a state machine without I/O. A datagram enters by
-- `Endpoint::handle_datagram`. Unless its connection ID is one that the endpoint issued, a server
-- first asks the rate limiter, then reads the connection ID from the long header, checks its length,
-- its minute and its selector, and asks the replay guard; what fails is dropped. What passes goes to
-- quinn_proto, and the connections that it opens are kept with the bookkeeping of their streams. The
-- crate in src/ drives that state machine with tokio, and parks the operations that have to wait.
--
-- The files, and what they model:
--   Freshness             proto/src/freshness.rs: now_minutes, is_fresh
--   Replay, Replay/       proto/src/replay.rs: ReplayGuard; History is the specification
--   Selector, Selector/   proto/src/selector.rs: build_dcid, parse_dcid, selector_matches
--   Transport, Transport/ proto/src/transport.rs: peek_dcid; Header is the layout it accepts
--   RateLimit, RateLimit/ proto/src/ratelimit.rs: Bucket is TokenBucket; RateLimit is RateLimiter with
--                         its doubly linked list; Links, Lru and Order relate the list to a plain one
--   Outcome               proto/src/outcome.rs: the answers and the events
--   Conn, Conn/           proto/src/conn.rs: ConnState, over Quinn; Delivered and Drained relate a read and
--                         a servicing pass to what quinn answers
--   Endpoint, Endpoint/   proto/src/endpoint.rs, with the connection ID generator of
--                         proto/src/crypto.rs, over Net: Datagram has the guards of handle_datagram,
--                         and feed and admit; Pass is service_connections, and Drive the calls of the
--                         caller: handle_datagram, poll_transmit, handle_timeout. Their theorems are in
--                         Silence, Unanswered and Admission (the guards), Feeding, Adoption, Reaping and
--                         Rounds (who owns a connection ID), Generations (handles), Exhausted, Deadline and
--                         Clean (what is left to do);
--                         Setup has the constructors, over Host, which stands for TLS
--   Config                proto/src/config.rs: what the constructors are given, and their errors
--   InitialKeys, InitialKeys/  proto/src/initial_keys.rs, over aws-lc-rs: the keys, Packet and Mask the
--                         protection of packets and headers; Config the wrappers of rustls's sessions
--   Parked, Parked/       src/conn.rs: the operations that wait; Pump has the two loops, Tally, Balance,
--                         Answers and Drops account for the reply channels
--   Server, Server/       src/server.rs: what the driver keeps of its connections; `run` there is any
--                         sequence of the arms of its loop
--   Quinn, Net            what the program uses of quinn_proto, which is a parameter
--   HashMap, HashSet      the collections of the standard library, as association lists and lists
--   Prelude, Prelude/     shared names, and lemmas on lists, bits and options
--   Tests, Tests/         concrete stand-ins for the parameters, and the theorems at concrete inputs
--
-- Conventions. Functions of the source keep their names; what is an expression inside a function of
-- the source and a definition here has a comment that says which. A method on `&mut self` takes the
-- state and returns the new one. `Option` around a result of RateLimit and Endpoint is a panic
-- (`expect`, an index out of range, an overflow check) where it is none. Bytes are numbers, and 32-bit
-- and 64-bit values keep their bounds. Floats are a parameter with the laws that the token bucket
-- relies on, which hold of f64 without NaN; blake3 and quinn_proto are parameters too. The map of
-- sources is keyed by any type with decidable equality.
--
-- Fuel. The loop of `stream_read` runs at most once for each byte of the buffer, since a chunk is not
-- empty. The loops of `service_streams` run as often as quinn has events, and streams to accept; quinn
-- consumes what it returns. The loops of `service_connections` run as often as quinn has endpoint
-- events and datagrams. A parked write runs once for each byte that is left, a parked read once for
-- each byte up to its limit and once more, since the core never answers with no bytes.
--
-- Not modelled: the parsing of keys and configuration in proto/src/config.rs, TLS set-up and random
-- bytes in proto/src/crypto.rs, sockets, channels and tasks in src/, since these pass calls to other
-- libraries; the test harness.
pub mod Prelude
pub mod HashMap
pub mod Freshness
pub mod HashSet
pub mod Replay
pub mod Selector
pub mod Transport
pub mod RateLimit
pub mod Outcome
pub mod Config
pub mod Quinn
pub mod Conn
pub mod Net
pub mod Endpoint
pub mod InitialKeys
pub mod Parked
pub mod Server
pub mod Tests
