-- ===== src/Endpoint/Setup/Dial.antt =====
-- new_client of proto/src/endpoint.rs: the endpoint that dials.
use Prim.Native.String.{String}
use quietquic.Config.{ClientConfigFile, ConfigError}
use quietquic.Conn
use quietquic.Endpoint.{
  Role, ClientCrypto, Endpoint, ConnectionHandle-discrete, mint, attribute, drain_pending_cids,
  allocate_handle,
}
use quietquic.Endpoint.Adoption.{adopt, adopt-IsLive}
use quietquic.Endpoint.Pass.{poll_timeouts, refresh_next_timeout}
use quietquic.Endpoint.Feeding.{Keeps, mint-Keeps}
use quietquic.Endpoint.Rounds.{is_some-poll_timeouts, connections-mint}
use quietquic.Endpoint.Routing.{IsLive, mint-IsLive, reconnect-IsLive}
use quietquic.Endpoint.Setup.{Host, new_endpoint, dial, dialed, dial_with, new_client}
use quietquic.HashMap
use quietquic.HashMap.{keys}
use quietquic.Conn.{ConnState}
use quietquic.HashSet.{contains}
use quietquic.Net.{ConnectionId, Net}
use quietquic.Outcome.{ConnectionHandle}
use quietquic.Prelude.{
  ℕ, ◌+◌, ◌^◌, ◌≡◌, refl, ap, ◌∙◌, true, Option, some, List, [], ◌∷◌, arith, ltb, ℕ_discrete,
  Result,
}
use quietquic.RateLimit.Bucket.{Floats}
use quietquic.Selector.{Blake3, build_dcid}

module _ {K Instant : Type 0} (net : Net K Instant) where
  keys-poll_timeouts :
      (m : List (ConnectionHandle × ConnState net.quinn)) → keys (poll_timeouts net m).0 ≡ keys m
  unfolding poll_timeouts
  keys-poll_timeouts [] = refl
  keys-poll_timeouts ((ch, s) ∷ m) = ap (λ k. ch ∷ k) (keys-poll_timeouts m)

module _ {float : Floats} {K : Type 0} {net : Net K float.Instant} where
  -- An endpoint whose one connection is quinn's, under the handle that is returned.
  pub Connects : ℕ → Result (Endpoint float K net × ConnectionHandle) ConfigError → Type 0
  Connects quinn_ch r =
      (ep : Endpoint float K net) × (ch : ConnectionHandle) × (r ≡ Result.ok (ep, ch))
      × (ch.quinn ≡ quinn_ch)
      × (keys ep.connections ≡ ch ∷ [])
      × IsLive ep
      × (ep.pending_cids ≡ [])
      × (ep.role ≡ Role.client)

  -- What becomes of the answer of `connect`.
  unfoldable pub Reports :
      Result ((ℕ × net.quinn.Connection) × List ConnectionId) String
      → Result (Endpoint float K net × ConnectionHandle) ConfigError
      → Type 0
  unfolding Connects
  Reports (Result.err text) r = r ≡ Result.err (ConfigError.io text)
  Reports (Result.ok ((quinn_ch, conn), minted)) r = Connects quinn_ch r

  attribute-keeps :
      (pending : List ConnectionId) (ch : ConnectionHandle) (ep : Endpoint float K net)
      → ((attribute pending ch ep).role ≡ ep.role)
        × ((attribute pending ch ep).connections ≡ ep.connections)
  unfolding attribute
  attribute-keeps [] ch ep = (refl, refl)
  attribute-keeps (cid ∷ cids) ch ep = (refl, refl)

  -- The first handle of an endpoint can be allocated, and its connection is put under it.
  dial-Connects :
      (quinn_ch : ℕ) (conn : net.quinn.Connection) (ep : Endpoint float K net)
      → IsLive ep
      → ep.next_generation ≡ 1
      → ep.role ≡ Role.client
      → ep.connections ≡ []
      → (r : Result (Endpoint float K net × ConnectionHandle) ConfigError) × (dial quinn_ch conn ep
          ≡ some r)
        × Connects quinn_ch r
  unfolding dial Connects allocate_handle drain_pending_cids refresh_next_timeout adopt attribute
      HashMap.insert HashMap.remove
  dial-Connects quinn_ch conn ep l first role alone =
      let bound : ltb (ep.next_generation + 1) (2 ^ 64) ≡ true = ground (arith, first) in
      let ch : ConnectionHandle = record { quinn = quinn_ch; generation = ep.next_generation } in
      let ep1 : Endpoint float K net = record ep {
        next_generation = ep.next_generation + 1;
        by_quinn = HashMap.insert ℕ_discrete quinn_ch ch ep.by_quinn;
      } in
      let l1 : IsLive ep1 = record {
        routed = l.routed;
        older = λ h k. omega (arith, l.older h k);
      } in
      let state = Conn.new net.quinn conn in
      let (l2, settled) = adopt-IsLive ep1.pending_cids ch state ep1 refl l1 (omega arith) in
      let ep2 = adopt ep1.pending_cids ch state ep1 in
      let l3 = reconnect-IsLive _ ep2 (is_some-poll_timeouts net ep2.connections) l2 in
      let (same_role, same) = attribute-keeps ep1.pending_cids ch ep1 in
      (
        Result.ok (refresh_next_timeout ep2, ch),
        rw bound refl,
        (
          refresh_next_timeout ep2,
          ch,
          refl,
          refl,
          keys-poll_timeouts net ep2.connections
              ∙ ap (λ m. keys (HashMap.insert ConnectionHandle-discrete ch state m)) (same ∙ alone),
          record { routed = l3.routed; older = l3.older },
          settled,
          same_role ∙ role,
        ),
      )

module _ {float : Floats} {K : Type 0} {net : Net K float.Instant} (host : Host net)
    (dec : Discrete K) where
  new_endpoint-IsLive :
      (clients : List (ClientCrypto net.ServerConfig)) (role : Role)
      (last_service : Option float.Instant) (inner : net.Inner)
      → IsLive (new_endpoint {float = float} host dec role clients last_service inner)
  unfolding new_endpoint contains HashMap.get
  new_endpoint-IsLive clients role last_service inner = record {
    routed = λ cid issued. absurd (ground arith);
    older = λ ch live. absurd (ground arith);
  }

  dialed-Reports :
      (now : float.Instant)
      (answer : Result ((ℕ × net.quinn.Connection) × List ConnectionId) String × net.Inner)
      → (r : Result (Endpoint float K net × ConnectionHandle) ConfigError) × (dialed host dec now
            answer
          ≡ some r)
        × Reports answer.0 r
  unfolding dialed Reports new_endpoint Keeps
  dialed-Reports now (Result.err text, inner) = (_, refl, refl)
  dialed-Reports now (Result.ok ((quinn_ch, conn), minted), inner) =
      let ep : Endpoint float K net = new_endpoint host dec Role.client [] (some now) inner in
      let (first, _, role) = mint-Keeps minted ep in
      dial-Connects quinn_ch conn (mint minted ep)
        (mint-IsLive minted ep (new_endpoint-IsLive [] Role.client (some now) inner)) first role
        (connections-mint minted ep)

  -- What dialing comes to, by what the TLS configuration and `connect` answer.
  pub Dials :
      float.Instant
      → ClientConfigFile K
      → ConnectionId
      → Result host.QuicClientConfig String
      → Result (Endpoint float K net × ConnectionHandle) ConfigError
      → Type 0
  unfolding Reports
  Dials now cfg dcid (Result.err text) r = r ≡ Result.err (ConfigError.io text)
  Dials now cfg dcid (Result.ok quic_client) r =
      Reports (host.connect now quic_client cfg.psk dcid cfg.server host.endpoint).0 r

  dial_with-Dials :
      (now : float.Instant) (cfg : ClientConfigFile K) (dcid : ConnectionId)
      (tls : Result host.QuicClientConfig String)
      → (r : Result (Endpoint float K net × ConnectionHandle) ConfigError) × (dial_with host dec now
            cfg dcid tls
          ≡ some r)
        × Dials now cfg dcid tls r
  unfolding dial_with Dials
  dial_with-Dials now cfg dcid (Result.err text) = (_, refl, refl)
  dial_with-Dials now cfg dcid (Result.ok quic_client) =
      dialed-Reports now (host.connect now quic_client cfg.psk dcid cfg.server host.endpoint)

  -- Dialing does not panic. If the TLS configuration fails, or else `connect` does, it fails with
  -- what they say. Otherwise it gives a client with one connection, whose handle is the one that is
  -- returned and names quinn's connection, and with every issued connection ID attributed.
  pub new_client-Dials :
      (blake3 : Blake3) (nonce : List ℕ) (now : float.Instant) (freshness_minute : ℕ)
      (cfg : ClientConfigFile K)
      → (r : Result (Endpoint float K net × ConnectionHandle) ConfigError) × (new_client host dec
            blake3 nonce now freshness_minute cfg
          ≡ some r)
        × Dials now cfg (build_dcid blake3 cfg.psk nonce freshness_minute) host.quic_client r
  unfolding new_client
  new_client-Dials blake3 nonce now freshness_minute cfg =
      dial_with-Dials now cfg (build_dcid blake3 cfg.psk nonce freshness_minute) host.quic_client
