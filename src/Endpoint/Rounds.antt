-- ===== src/Endpoint/Rounds.antt =====
-- `service_connections` of proto/src/endpoint.rs against the invariant of the routing set, and what it
-- leaves clean.
use quietquic.Conn.{ConnState}
use quietquic.Endpoint.{Endpoint, ConnectionHandle-discrete, mint, drain_pending_cids}
use quietquic.Endpoint.Attribution.{attribute-IsLive}
use quietquic.Endpoint.Pass.{
  Staged, event_rounds, visit, collect, poll_timeouts, put_conn, answer_event, route_event,
  on_endpoint_event, poll_found, route_loop, route_events, refresh_next_timeout, service_and_reap,
  service_connections,
}
use quietquic.Endpoint.Routing.{IsLive, mint-IsLive, reconnect-IsLive, sweep_orphan_cids-IsLive}
use quietquic.Endpoint.Servicing.{reap-IsLive}
use quietquic.HashMap
use quietquic.HashMap.{keys, is_some-get-modify}
use quietquic.Net.{ConnectionId, Net}
use quietquic.Outcome.{ConnectionHandle}
use quietquic.Prelude.{
  ℕ, zero, suc, ◌≡◌, refl, ap, ◌∙◌, true, Option, none, some, List, [], ◌∷◌, arith, is_some,
}
use quietquic.RateLimit.Bucket.{Floats}

module _ {K Instant : Type 0} (net : Net K Instant) where
  -- Visiting the connections and polling their deadlines adds and removes none.
  is_some-collect :
      (now : Instant) (m : List (ConnectionHandle × ConnState net.quinn)) (st : Staged K)
      (h : ConnectionHandle)
      → is_some (HashMap.get ConnectionHandle-discrete h (collect net now m st).0)
        ≡ is_some (HashMap.get ConnectionHandle-discrete h m)
  unfolding collect HashMap.get
  is_some-collect now [] st h = refl
  is_some-collect now ((ch, s) ∷ m) st h =
      ground (arith, is_some-collect now m (visit net now ch s st).1 h)

  pub is_some-poll_timeouts :
      (m : List (ConnectionHandle × ConnState net.quinn)) (h : ConnectionHandle)
      → is_some (HashMap.get ConnectionHandle-discrete h (poll_timeouts net m).0)
        ≡ is_some (HashMap.get ConnectionHandle-discrete h m)
  unfolding poll_timeouts HashMap.get
  is_some-poll_timeouts [] h = refl
  is_some-poll_timeouts ((ch, s) ∷ m) h = ground (arith, is_some-poll_timeouts m h)

module _ {float : Floats} {K : Type 0} {net : Net K float.Instant} where
  pub connections-mint :
      (cids : List ConnectionId) (ep : Endpoint float K net)
      → (mint cids ep).connections ≡ ep.connections
  unfolding mint
  connections-mint [] ep = refl
  connections-mint (cid ∷ cids) ep = connections-mint cids _

  IsPresent : ConnectionHandle → Endpoint float K net → Type 0
  IsPresent ch ep = is_some (HashMap.get ConnectionHandle-discrete ch ep.connections) ≡ true

  answer_event-IsLive :
      (ch : ConnectionHandle) (o : Option net.ConnectionEvent) (ep : Endpoint float K net)
      → IsLive ep
      → IsLive (answer_event ch o ep)
  unfolding answer_event
  answer_event-IsLive ch none ep l = l
  answer_event-IsLive ch (some cev) ep l =
      reconnect-IsLive _ ep
        (λ h.
          is_some-get-modify ConnectionHandle-discrete ch h
            (λ (s : ConnState net.quinn). record s { conn = net.on_connection_event cev s.conn })
            ep.connections)
        l

  route_event-IsLive :
      (ch : ConnectionHandle) (ev : net.EndpointEvent) (ep : Endpoint float K net)
      → IsLive ep
      → IsPresent ch ep
      → IsLive (route_event ch ev ep)
  unfolding route_event drain_pending_cids IsPresent
  route_event-IsLive ch ev ep l here =
      let (answer, inner) = net.handle_event ch.quinn ev ep.inner in
      let ep1 : Endpoint float K net = record ep { inner = inner } in
      let ep2 = mint answer.minted ep1 in
      answer_event-IsLive ch answer.event _
        (attribute-IsLive ep2.pending_cids ch ep2 refl
          (mint-IsLive answer.minted ep1 (record { routed = l.routed; older = l.older }))
          (ap (λ m. is_some (HashMap.get ConnectionHandle-discrete ch m))
              (connections-mint answer.minted ep1)
            ∙ here)).0

  -- The rounds that are left keep the invariant.
  abbrev Keeping : (Endpoint float K net → Endpoint float K net) → Type 0
  Keeping again = (ep : Endpoint float K net) → IsLive ep → IsLive (again ep)

  on_endpoint_event-IsLive :
      (again : Endpoint float K net → Endpoint float K net) (ch : ConnectionHandle)
      (o : Option net.EndpointEvent) (ep : Endpoint float K net)
      → Keeping again
      → IsLive ep
      → IsPresent ch ep
      → IsLive (on_endpoint_event again ch o ep)
  unfolding on_endpoint_event
  on_endpoint_event-IsLive again ch none ep k l here = l
  on_endpoint_event-IsLive again ch (some ev) ep k l here =
      k (route_event ch ev ep) (route_event-IsLive ch ev ep l here)

  poll_found-IsLive :
      (again : Endpoint float K net → Endpoint float K net) (ch : ConnectionHandle)
      (o : Option (ConnState net.quinn)) (ep : Endpoint float K net)
      → HashMap.get ConnectionHandle-discrete ch ep.connections ≡ o
      → Keeping again
      → IsLive ep
      → IsLive (poll_found again ch o ep)
  unfolding poll_found put_conn IsPresent
  poll_found-IsLive again ch none ep e k l = l
  poll_found-IsLive again ch (some s) ep e k l =
      let same = λ (h : ConnectionHandle).
        is_some-get-modify ConnectionHandle-discrete ch h
          (λ (t : ConnState net.quinn). record t { conn = (net.poll_endpoint_events s.conn).1 })
          ep.connections in
      on_endpoint_event-IsLive again ch (net.poll_endpoint_events s.conn).0 _ k
        (reconnect-IsLive _ ep same l) (same ch ∙ ap is_some e)

  route_loop-IsLive : (rounds : ℕ) (ch : ConnectionHandle) → Keeping (route_loop rounds ch)
  unfolding route_loop
  route_loop-IsLive zero ch ep l = l
  route_loop-IsLive (suc rounds) ch ep l =
      poll_found-IsLive (route_loop rounds ch) ch _ ep refl (route_loop-IsLive rounds ch) l

  route_events-IsLive :
      (chs : List ConnectionHandle) (ep : Endpoint float K net)
      → IsLive ep
      → IsLive (route_events chs ep)
  unfolding route_events
  route_events-IsLive [] ep l = l
  route_events-IsLive (ch ∷ chs) ep l = route_events-IsLive chs _ (
      route_loop-IsLive (event_rounds net (HashMap.get ConnectionHandle-discrete ch ep.connections))
        ch ep l)

  service_and_reap-IsLive :
      (now : float.Instant) (ep : Endpoint float K net)
      → IsLive ep
      → IsLive (service_and_reap now ep)
  unfolding service_and_reap
  service_and_reap-IsLive now ep l =
      let st : Staged K = record { events = []; transmits = []; lost = [] } in
      let r =
        reconnect-IsLive (collect net now ep.connections st).0 ep
          (is_some-collect net now ep.connections st) l in
      reap-IsLive (collect net now ep.connections st).1.lost _
        (record { routed = r.routed; older = r.older })

  -- A servicing pass keeps every connection ID that routes in the list of a live connection, and
  -- leaves none to be attributed.
  pub service_connections-IsLive :
      (now : float.Instant) (ep : Endpoint float K net)
      → IsLive ep
      → IsLive (service_connections now ep) × ((service_connections now ep).pending_cids ≡ [])
  unfolding service_connections refresh_next_timeout
  service_connections-IsLive now ep l =
      let ep1 : Endpoint float K net = record ep { last_service = some now } in
      let routed =
        route_events-IsLive (keys ep.connections) ep1
          (record { routed = l.routed; older = l.older }) in
      let (live, settled) = sweep_orphan_cids-IsLive _ (service_and_reap-IsLive now _ routed) in
      let r = reconnect-IsLive _ _ (is_some-poll_timeouts net _) live in
      (record { routed = r.routed; older = r.older }, settled)
