-- ===== src/Endpoint/Drive.antt =====
-- The calls that the driver of an endpoint makes, in proto/src/endpoint.rs: `handle_datagram`,
-- `poll_transmit` and `handle_timeout`.
use quietquic.Conn.{ConnState}
use quietquic.Endpoint.{Endpoint, Verdict}
use quietquic.Endpoint.Datagram.{feed, screen}
use quietquic.Endpoint.Pass.{service_connections}
use quietquic.Net.{Net}
use quietquic.Outcome.{ConnectionHandle, SocketAddr, Transmit, DatagramOutcome}
use quietquic.Prelude.{ℕ, Bool, false, Option, none, some, ◌>>=◌, List, [], ◌∷◌, if◌then◌else◌}
use quietquic.RateLimit.Bucket.{Floats}
use quietquic.Selector.{Blake3}

module _ {K Instant : Type 0} (net : Net K Instant) where
  -- Whether the deadline of a connection has been reached.
  unfoldable pub is_due : Instant → Option Instant → Bool
  is_due now none = false
  is_due now (some t) = net.le t now

  unfoldable pub expire :
      Instant
      → List (ConnectionHandle × ConnState net.quinn)
      → List (ConnectionHandle × ConnState net.quinn)
  unfolding is_due
  expire now [] = []
  expire now ((ch, s) ∷ m) =
      let (deadline, conn) = net.poll_timeout s.conn in
      (ch, record s { conn = if is_due now deadline then net.handle_timeout now conn else conn })
      ∷ expire now m

module _ {float : Floats} {K : Type 0} {net : Net K float.Instant} where
  unfoldable pub handle_timeout : float.Instant → Endpoint float K net → Endpoint float K net
  unfolding expire
  handle_timeout now ep =
      service_connections now (record ep { connections = expire net now ep.connections })

  -- `self.outbound.pop_front()`
  unfoldable pub pop_outbound :
      List (Transmit K) → Endpoint float K net → Endpoint float K net × Option (Transmit K)
  pop_outbound [] ep = (ep, none)
  pop_outbound (t ∷ ts) ep = (record ep { outbound = ts }, some t)

  -- `poll_transmit` by the queue that it finds.
  unfoldable pub poll_queue :
      List (Transmit K)
      → float.Instant
      → Endpoint float K net
      → Endpoint float K net × Option (Transmit K)
  unfolding pop_outbound
  poll_queue (t ∷ ts) now ep = (record ep { outbound = ts }, some t)
  poll_queue [] now ep =
      let serviced = service_connections now ep in pop_outbound serviced.outbound serviced

  unfoldable pub poll_transmit :
      float.Instant → Endpoint float K net → Endpoint float K net × Option (Transmit K)
  unfolding poll_queue
  poll_transmit now ep = poll_queue ep.outbound now ep

  -- `handle_datagram` after its guards.
  unfoldable pub enter :
      float.Instant
      → SocketAddr K
      → List ℕ
      → Endpoint float K net × Verdict
      → Option (Endpoint float K net × DatagramOutcome)
  enter now from datagram (ep, Verdict.rejected) = some (ep, DatagramOutcome.dropped)
  enter now from datagram (ep, Verdict.passed admitted) = do
    (fed, outcome) ← feed now from datagram admitted ep
    some (service_connections now fed, outcome)

  -- `secs` is the reading of the wall clock.
  unfoldable pub handle_datagram :
      Blake3
      → Discrete K
      → float.Instant
      → Option ℕ
      → SocketAddr K
      → List ℕ
      → Endpoint float K net
      → Option (Endpoint float K net × DatagramOutcome)
  unfolding enter
  handle_datagram blake3 dec now secs from datagram ep = do
    screened ← screen blake3 dec now secs from datagram ep
    enter now from datagram screened
