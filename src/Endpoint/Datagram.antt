-- ===== src/Endpoint/Datagram.antt =====
-- `handle_datagram` of proto/src/endpoint.rs up to the servicing pass that ends it: the guards, and
-- what an admitted datagram does.
use quietquic.Conn
use mathlib.Core.Option
use quietquic.Endpoint.{
  Role, ClientCrypto, Endpoint, Verdict, ConnectionId-discrete, ConnectionHandle-discrete,
  read_dcid_any, mint, drain_pending_cids, sweep_orphan_cids, allocate_handle,
}
use quietquic.Freshness.{now_minutes, is_fresh, window_minutes}
use quietquic.HashMap
use quietquic.HashSet
use quietquic.Net.{DatagramEvent, Net}
use quietquic.Outcome.{ConnectionHandle, SocketAddr, DatagramOutcome}
use quietquic.Prelude.{
  ℕ, suc, Bool, true, false, Option, none, some, ◌>>=◌, ◌>>◌, guard, List, [], ◌∷◌, ◌++◌, ◌==◌,
  if◌then◌else◌, length, get_elem?, set, ℕ_discrete,
}
use quietquic.RateLimit.{check}
use quietquic.RateLimit.Bucket.{Floats}
use quietquic.Replay.{check_and_record}
use quietquic.Selector.{Blake3, DcidParts, dcid_len, parse_dcid, selector_matches}
use quietquic.Transport.{peek_dcid}

module _ {float : Floats} {K : Type 0} {net : Net K float.Instant} where
  unfoldable pub is_active_dcid : List ℕ → Endpoint float K net → Bool
  is_active_dcid datagram ep = elim (read_dcid_any datagram) [
    | none ↦ false
    | some cid ↦ HashSet.contains ConnectionId-discrete cid ep.issued_cids
  ]

  unfoldable pub queue_transmit :
      SocketAddr K → List ℕ → Endpoint float K net → Endpoint float K net
  queue_transmit to [] ep = ep
  queue_transmit to (b ∷ bs) ep = record ep {
    outbound = ep.outbound ++ (record { destination = to; contents = b ∷ bs } ∷ []);
  }

  -- The endpoint's answer: a client queues none.
  unfoldable pub queue_response :
      Role → SocketAddr K → List ℕ → Endpoint float K net → Endpoint float K net
  unfolding queue_transmit
  queue_response Role.server from resp ep = queue_transmit from resp ep
  queue_response Role.client from resp ep = ep

  -- `admit` once `accept` has returned; the connection is missing where it failed.
  unfoldable pub register :
      ℕ
      → List ℕ
      → Option (ℕ × net.quinn.Connection)
      → Endpoint float K net
      → Option (Endpoint float K net × DatagramOutcome)
  unfolding queue_transmit
  register client_idx buf none ep = some (ep, DatagramOutcome.dropped)
  register client_idx buf (some (quinn_ch, conn)) ep = do
    (ep1, ch) ← allocate_handle quinn_ch ep
    let ep2 = drain_pending_cids ch (queue_transmit (net.remote_address conn) buf ep1)
    client ← get_elem? ep.clients client_idx
    some (
      record ep2 {
        connections =
            HashMap.insert ConnectionHandle-discrete ch (Conn.new net.quinn conn) ep2.connections;
        client_ids = HashMap.insert ConnectionHandle-discrete ch client.client_id ep2.client_ids;
      },
      DatagramOutcome.accepted ch,
    )

  unfoldable pub admit :
      float.Instant
      → net.Incoming
      → ℕ
      → Endpoint float K net
      → Option (Endpoint float K net × DatagramOutcome)
  unfolding register
  admit now incoming client_idx ep =
      let (answer, inner) = net.accept incoming now ep.inner in
      register client_idx answer.buf answer.connection
        (mint answer.minted (record ep { inner = inner }))

  -- What is pending once an event is handled belongs to no connection.
  unfoldable pub swept :
      Endpoint float K net × DatagramOutcome → Endpoint float K net × DatagramOutcome
  swept (ep, outcome) = (sweep_orphan_cids ep, outcome)

  -- A new connection: only a server accepts one, and one that no client was admitted for returns
  -- early, before the sweep.
  unfoldable pub on_incoming :
      Role
      → Option ℕ
      → float.Instant
      → net.Incoming
      → Endpoint float K net
      → Option (Endpoint float K net × DatagramOutcome)
  unfolding admit swept
  on_incoming Role.client _ now incoming ep = some (swept (ep, DatagramOutcome.dropped))
  on_incoming Role.server none now incoming ep = some (ep, DatagramOutcome.dropped)
  on_incoming Role.server (some client_idx) now incoming ep = do
    r ← admit now incoming client_idx ep
    some (swept r)

  -- An event for the connection of a slab index, whose handle was looked up.
  unfoldable pub deliver :
      net.ConnectionEvent
      → Option ConnectionHandle
      → Endpoint float K net
      → Endpoint float K net × DatagramOutcome
  deliver cev none ep = (ep, DatagramOutcome.dropped)
  deliver cev (some ch) ep = (
    record ep {
      connections =
          HashMap.modify ConnectionHandle-discrete ch
            (λ s. record s { conn = net.on_connection_event cev s.conn }) ep.connections;
    },
    DatagramOutcome.accepted ch,
  )

  -- The `match` on what `handle` returned, and the sweep after it.
  unfoldable pub on_datagram_event :
      Option (DatagramEvent net.Incoming net.ConnectionEvent)
      → Option ℕ
      → float.Instant
      → Endpoint float K net
      → Option (Endpoint float K net × DatagramOutcome)
  unfolding on_incoming deliver swept
  on_datagram_event none admitted now ep = some (swept (ep, DatagramOutcome.dropped))
  on_datagram_event (some DatagramEvent.response) admitted now ep =
      some (swept (ep, DatagramOutcome.dropped))
  on_datagram_event (some (DatagramEvent.connection_event quinn_ch cev)) admitted now ep =
      some (swept (deliver cev (HashMap.get ℕ_discrete quinn_ch ep.by_quinn) ep))
  on_datagram_event (some (DatagramEvent.new_connection incoming)) admitted now ep =
      on_incoming ep.role admitted now incoming ep

  unfoldable pub feed :
      float.Instant
      → SocketAddr K
      → List ℕ
      → Option ℕ
      → Endpoint float K net
      → Option (Endpoint float K net × DatagramOutcome)
  unfolding on_datagram_event queue_response
  feed now from datagram admitted ep =
      let (handled, inner) = net.handle now from datagram ep.inner in
      on_datagram_event handled.event admitted now (
        queue_response ep.role from handled.resp
          (mint handled.minted (record ep { inner = inner })))

  -- What the guards do with the answer of `prefilter`.
  unfoldable pub install : Endpoint float K net × Option ℕ → Option (Endpoint float K net × Verdict)
  install (ep, none) = some (ep, Verdict.rejected)
  install (ep, some client_idx) = do
    client ← get_elem? ep.clients client_idx
    some (
      record ep { inner = net.set_server_config client.server_config ep.inner },
      Verdict.passed (some client_idx),
    )

-- Iterator::position
unfoldable pub position : {A : Type 0} → (A → Bool) → List A → Option ℕ
position p [] = none
position p (x ∷ xs) = if p x then some 0 else Option.map (λ i. suc i) (position p xs)

module _ (blake3 : Blake3) where
  unfoldable pub select_psk :
      {ServerConfig : Type 0} → List (ClientCrypto ServerConfig) → DcidParts → Option ℕ
  unfolding position
  select_psk clients parts =
      position (λ (c : ClientCrypto _). selector_matches blake3 c.psk parts) clients

  -- The steps of `prefilter` that change nothing: the parts of the selector, and the client.
  unfoldable pub identify :
      {ServerConfig : Type 0}
      → ℕ
      → List (ClientCrypto ServerConfig)
      → List ℕ
      → Option (DcidParts × ℕ)
  unfolding select_psk
  identify minute clients datagram = do
    dcid ← peek_dcid datagram
    guard (length dcid == dcid_len)
    parts ← parse_dcid dcid
    guard (is_fresh parts.freshness minute window_minutes)
    client_idx ← select_psk clients parts
    some (parts, client_idx)

module _ (blake3 : Blake3) {float : Floats} {K : Type 0} {net : Net K float.Instant} where
  -- Its last step, which records the sighting with the client's guard.
  unfoldable pub record_sighting :
      ℕ → Option (DcidParts × ℕ) → Endpoint float K net → Option (Endpoint float K net × Option ℕ)
  record_sighting minute none ep = some (ep, none)
  record_sighting minute (some (parts, client_idx)) ep = do
    replay ← get_elem? ep.replay client_idx
    let (replay', is_new) = check_and_record replay parts.nonce parts.freshness minute
    some (
      record ep { replay = set ep.replay client_idx replay' },
      if is_new then some client_idx else none,
    )

  -- `secs` is the reading of the wall clock.
  unfoldable pub prefilter :
      Option ℕ → List ℕ → Endpoint float K net → Option (Endpoint float K net × Option ℕ)
  unfolding record_sighting
  prefilter secs datagram ep =
      let minute = now_minutes secs in
      record_sighting minute (identify blake3 minute ep.clients datagram) ep

  -- What they do once the rate limiter has answered.
  unfoldable pub examine :
      Bool → Option ℕ → List ℕ → Endpoint float K net → Option (Endpoint float K net × Verdict)
  unfolding prefilter install
  examine false secs datagram ep = some (ep, Verdict.rejected)
  examine true secs datagram ep = do r ← prefilter secs datagram ep; install r

  module _ (dec : Discrete K) where
    -- The guards for a datagram that may open a connection.
    unfoldable pub screen_new :
        float.Instant
        → Option ℕ
        → SocketAddr K
        → List ℕ
        → Endpoint float K net
        → Option (Endpoint float K net × Verdict)
    unfolding examine
    screen_new now secs from datagram ep = do
      (limiter, ok) ← check float dec from.ip now ep.rate_limiter
      let ep1 = record ep { rate_limiter = limiter }
      examine ok secs datagram ep1

    -- A client feeds every datagram, a server those of its own connections and those that pass the
    -- pre-filter.
    unfoldable pub screen_as :
        Role
        → Bool
        → float.Instant
        → Option ℕ
        → SocketAddr K
        → List ℕ
        → Endpoint float K net
        → Option (Endpoint float K net × Verdict)
    unfolding screen_new
    screen_as Role.client active now secs from datagram ep = some (ep, Verdict.passed none)
    screen_as Role.server true now secs from datagram ep = some (ep, Verdict.passed none)
    screen_as Role.server false now secs from datagram ep = screen_new now secs from datagram ep

    -- The guards of `handle_datagram`.
    unfoldable pub screen :
        float.Instant
        → Option ℕ
        → SocketAddr K
        → List ℕ
        → Endpoint float K net
        → Option (Endpoint float K net × Verdict)
    unfolding screen_as
    screen now secs from datagram ep =
        screen_as ep.role (is_active_dcid datagram ep) now secs from datagram ep
