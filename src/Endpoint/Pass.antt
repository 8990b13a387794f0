-- ===== src/Endpoint/Pass.antt =====
-- `service_connections` of proto/src/endpoint.rs: one servicing pass over all connections. A loop that
-- polls quinn gets as many rounds as quinn has left to return, which are enough.
use quietquic.Conn.{ConnState, service_streams, clear_dirty}
use quietquic.Endpoint.{
  Endpoint, ConnectionHandle-discrete, mint, drain_pending_cids, sweep_orphan_cids,
}
use quietquic.Endpoint.Servicing.{progress_events, lost_reason, reap}
use quietquic.HashMap
use quietquic.HashMap.{keys}
use quietquic.Net.{Net}
use quietquic.Outcome.{ConnectionHandle, ConnectionError, SocketAddr, Transmit, Event}
use quietquic.Prelude.{ℕ, zero, suc, Option, none, some, List, [], ◌∷◌, ◌++◌, if◌then◌else◌}
use quietquic.RateLimit.Bucket.{Floats}

-- The three vectors that the second step stages.
pub record Staged (K : Type 0) : Type 0 where
  pub events : List Event
  pub transmits : List (Transmit K)
  pub lost : List (ConnectionHandle × ConnectionError)

-- `lost.push(..)`, if there is a reason.
unfoldable pub push_lost :
    ConnectionHandle
    → Option ConnectionError
    → List (ConnectionHandle × ConnectionError)
    → List (ConnectionHandle × ConnectionError)
push_lost ch none lost = lost
push_lost ch (some reason) lost = lost ++ ((ch, reason) ∷ [])

module _ {K Instant : Type 0} (net : Net K Instant) where
  -- The rounds that a connection needs.
  unfoldable pub event_rounds : Option (ConnState net.quinn) → ℕ
  event_rounds none = 0
  event_rounds (some s) = suc (net.endpoint_events_left s.conn)

  -- The loop over `poll_transmit` stops at the first datagram that is empty.
  unfoldable pub on_transmit :
      (net.quinn.Connection → net.quinn.Connection × List (Transmit K))
      → Option (SocketAddr K × List ℕ)
      → net.quinn.Connection
      → net.quinn.Connection × List (Transmit K)
  on_transmit again none conn = (conn, [])
  on_transmit again (some (to, [])) conn = (conn, [])
  on_transmit again (some (to, b ∷ bs)) conn =
      let (conn', rest) = again conn in
      (conn', record { destination = to; contents = b ∷ bs } ∷ rest)

  unfoldable pub transmit_loop :
      ℕ → Instant → net.quinn.Connection → net.quinn.Connection × List (Transmit K)
  unfolding on_transmit
  transmit_loop zero now conn = (conn, [])
  transmit_loop (suc rounds) now conn =
      let (answer, conn') = net.poll_transmit now conn in
      on_transmit (transmit_loop rounds now) answer conn'

  -- The second step for one connection: its new state, and what it adds to the staged vectors.
  unfoldable pub visit :
      Instant → ConnectionHandle → ConnState net.quinn → Staged K → ConnState net.quinn × Staged K
  unfolding transmit_loop push_lost
  visit now ch s st =
      let (s1, progress) = service_streams net.quinn s in
      let (conn, transmits) = transmit_loop (suc (net.transmits_left now s1.conn)) now s1.conn in
      (
        clear_dirty net.quinn (record s1 { conn = conn }),
        record {
          events = st.events ++ progress_events ch progress;
          transmits = st.transmits ++ transmits;
          lost = push_lost ch (lost_reason progress s1) st.lost;
        },
      )

  -- The second step: the connections are visited in the order of the map.
  unfoldable pub collect :
      Instant
      → List (ConnectionHandle × ConnState net.quinn)
      → Staged K
      → List (ConnectionHandle × ConnState net.quinn) × Staged K
  unfolding visit
  collect now [] st = ([], st)
  collect now ((ch, s) ∷ m) st =
      let (s', st1) = visit now ch s st in let (m', st2) = collect now m st1 in ((ch, s') ∷ m', st2)

  -- The earlier of two deadlines.
  unfoldable pub earlier : Option Instant → Option Instant → Option Instant
  earlier none t = t
  earlier (some t) none = some t
  earlier (some t) (some u) = if net.le t u then some t else some u

  unfoldable pub poll_timeouts :
      List (ConnectionHandle × ConnState net.quinn)
      → List (ConnectionHandle × ConnState net.quinn) × Option Instant
  unfolding earlier
  poll_timeouts [] = ([], none)
  poll_timeouts ((ch, s) ∷ m) =
      let (deadline, conn) = net.poll_timeout s.conn in
      let (m', rest) = poll_timeouts m in
      ((ch, record s { conn = conn }) ∷ m', earlier deadline rest)

module _ {float : Floats} {K : Type 0} {net : Net K float.Instant} where
  -- A write through `get_mut`, where the connection is there.
  unfoldable pub put_conn :
      ConnectionHandle → net.quinn.Connection → Endpoint float K net → Endpoint float K net
  put_conn ch conn ep = record ep {
    connections =
        HashMap.modify ConnectionHandle-discrete ch (λ s. record s { conn = conn }) ep.connections;
  }

  -- `handle_event(cev)` on the connection that asked, if it is there.
  unfoldable pub answer_event :
      ConnectionHandle → Option net.ConnectionEvent → Endpoint float K net → Endpoint float K net
  answer_event ch none ep = ep
  answer_event ch (some cev) ep = record ep {
    connections =
        HashMap.modify ConnectionHandle-discrete ch
          (λ s. record s { conn = net.on_connection_event cev s.conn }) ep.connections;
  }

  -- The body of the loop over endpoint events.
  unfoldable pub route_event :
      ConnectionHandle → net.EndpointEvent → Endpoint float K net → Endpoint float K net
  unfolding answer_event
  route_event ch ev ep =
      let (answer, inner) = net.handle_event ch.quinn ev ep.inner in
      answer_event ch answer.event
        (drain_pending_cids ch (mint answer.minted (record ep { inner = inner })))

  -- One round of it, for what `poll_endpoint_events` returned; `again` is the next round.
  unfoldable pub on_endpoint_event :
      (Endpoint float K net → Endpoint float K net)
      → ConnectionHandle
      → Option net.EndpointEvent
      → Endpoint float K net
      → Endpoint float K net
  unfolding route_event
  on_endpoint_event again ch none ep = ep
  on_endpoint_event again ch (some ev) ep = again (route_event ch ev ep)

  -- The poll on the connection, if it is there.
  unfoldable pub poll_found :
      (Endpoint float K net → Endpoint float K net)
      → ConnectionHandle
      → Option (ConnState net.quinn)
      → Endpoint float K net
      → Endpoint float K net
  unfolding on_endpoint_event put_conn
  poll_found again ch none ep = ep
  poll_found again ch (some s) ep =
      let (answer, conn) = net.poll_endpoint_events s.conn in
      on_endpoint_event again ch answer (put_conn ch conn ep)

  unfoldable pub route_loop : ℕ → ConnectionHandle → Endpoint float K net → Endpoint float K net
  unfolding poll_found
  route_loop zero ch ep = ep
  route_loop (suc rounds) ch ep =
      poll_found (route_loop rounds ch) ch (HashMap.get ConnectionHandle-discrete ch ep.connections)
        ep

  -- The first step of the pass.
  unfoldable pub route_events : List ConnectionHandle → Endpoint float K net → Endpoint float K net
  unfolding route_loop event_rounds
  route_events [] ep = ep
  route_events (ch ∷ chs) ep =
      let rounds = event_rounds net (HashMap.get ConnectionHandle-discrete ch ep.connections) in
      route_events chs (route_loop rounds ch ep)

  unfoldable pub refresh_next_timeout : Endpoint float K net → Endpoint float K net
  unfolding poll_timeouts
  refresh_next_timeout ep =
      let (connections, deadline) = poll_timeouts net ep.connections in
      record ep { connections = connections; next_timeout = deadline }

  -- The second step and what it queues, then the third: the lost connections are reaped.
  unfoldable pub service_and_reap : float.Instant → Endpoint float K net → Endpoint float K net
  unfolding collect
  service_and_reap now ep =
      let (connections, st) =
        collect net now ep.connections (record { events = []; transmits = []; lost = [] }) in
      reap st.lost (record ep {
        connections = connections;
        events = ep.events ++ st.events;
        outbound = ep.outbound ++ st.transmits;
      })

  unfoldable pub service_connections : float.Instant → Endpoint float K net → Endpoint float K net
  unfolding route_events service_and_reap refresh_next_timeout
  service_connections now ep =
      let ep1 = route_events (keys ep.connections) (record ep { last_service = some now }) in
      refresh_next_timeout (sweep_orphan_cids (service_and_reap now ep1))
