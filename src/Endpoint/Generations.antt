-- ===== src/Endpoint/Generations.antt =====
-- The generations of handles in proto/src/endpoint.rs: nothing counts them down, so that a handle is
-- given out once in the life of an endpoint.
use quietquic.Conn.{ConnState}
use quietquic.Endpoint.{Endpoint, ConnectionHandle-discrete, poll_event}
use quietquic.Endpoint.Drive.{handle_timeout, poll_transmit, handle_datagram}
use quietquic.HashMap
use quietquic.Net.{Net}
use quietquic.Outcome.{ConnectionHandle, SocketAddr}
use quietquic.Prelude.{ℕ, ◌≤◌, Option, some, ◌>>=◌, List, [], ◌∷◌}
use quietquic.RateLimit.Bucket.{Floats}
use quietquic.Selector.{Blake3}

module _ {float : Floats} {K : Type 0} {net : Net K float.Instant} where
  -- The counter has not gone down.
  Grows : Endpoint float K net → Endpoint float K net → Type 0
  Grows ep s = ep.next_generation ≤ s.next_generation

-- What a driver does with an endpoint: the four calls, and what it changes of a connection through
-- `conn_mut`.
pub data Call (float : Floats) (K : Type 0) (net : Net K float.Instant) : Type 0 where
  datagram : float.Instant → Option ℕ → SocketAddr K → List ℕ → Call float K net
  transmit timeout : float.Instant → Call float K net
  event : Call float K net
  conn : ConnectionHandle → (ConnState net.quinn → ConnState net.quinn) → Call float K net

module _ (blake3 : Blake3) {float : Floats} {K : Type 0} {net : Net K float.Instant}
    (dec : Discrete K) where
  -- The state that a call leaves, unless it panics.
  unfoldable pub perform : Call float K net → Endpoint float K net → Option (Endpoint float K net)
  perform (Call.datagram now secs from bytes) ep = do
    r ← handle_datagram blake3 dec now secs from bytes ep
    some r.0
  perform (Call.transmit now) ep = some (poll_transmit now ep).0
  perform (Call.timeout now) ep = some (handle_timeout now ep)
  perform Call.event ep = some (poll_event ep).0
  perform (Call.conn ch change) ep = some (record ep {
    connections = HashMap.modify ConnectionHandle-discrete ch change ep.connections;
  })

  unfoldable pub perform_all :
      List (Call float K net) → Endpoint float K net → Option (Endpoint float K net)
  perform_all [] ep = some ep
  perform_all (c ∷ cs) ep = do t ← perform c ep; perform_all cs t
