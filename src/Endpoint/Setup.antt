-- ===== src/Endpoint/Setup.antt =====
-- The constructors of proto/src/endpoint.rs: build_clients, new_server and new_client. What they take
-- from TLS, quinn and the random generator is a parameter.
pub mod Validity
pub mod Dial
use Prim.Native.String.{String}
use quietquic.Config.{
  String_discrete, ClientEntry, ServerSecrets, ClientConfigFile, Reason, ConfigError,
}
use quietquic.Conn
use quietquic.Endpoint.{
  Role, ClientCrypto, Endpoint, ConnectionId-discrete, ConnectionHandle-discrete, mint,
  drain_pending_cids, allocate_handle,
}
use quietquic.Endpoint.Pass.{refresh_next_timeout}
use quietquic.Freshness.{window_minutes}
use quietquic.HashMap
use quietquic.HashSet
use quietquic.Net.{ConnectionId, Accepted, Net}
use quietquic.Outcome.{ConnectionHandle, SocketAddr}
use quietquic.Prelude.{
  ℕ, Bool, not, Option, none, some, ◌>>=◌, List, [], ◌∷◌, map, if◌then◌else◌, Result, and_then,
}
use quietquic.RateLimit.{RateLimiter, default}
use quietquic.RateLimit.Bucket.{Floats}
use quietquic.Replay
use quietquic.Replay.{ReplayGuard}
use quietquic.Selector.{Blake3, build_dcid}

-- The standard library, rustls and quinn_proto, as the constructors use them.
pub record Host {K Instant : Type 0} (net : Net K Instant) : Type 1 where
  -- Whether a string is empty once it is trimmed
  pub trims_to_empty : String → Bool
  pub QuicServerConfig : Type 0
  pub QuicClientConfig : Type 0
  -- SelfSigned::generate and quic_server_config, and quic_client_config
  pub quic_server : Result QuicServerConfig String
  pub quic_client : Result QuicClientConfig String
  -- TransportServerConfig::new for the configuration that PskServerConfig wraps
  pub transport_config : QuicServerConfig → List ℕ → net.ServerConfig
  -- quinn_proto::Endpoint::new without a server configuration
  pub endpoint : net.Inner
  -- Endpoint::connect with a key, the first connection ID and the server's address; it also returns
  -- what the generator minted.
  pub connect :
      Instant
      → QuicClientConfig
      → List ℕ
      → ConnectionId
      → SocketAddr K
      → net.Inner
      → Result ((ℕ × net.quinn.Connection) × List ConnectionId) String × net.Inner

module _ {K Instant : Type 0} {net : Net K Instant} (host : Host net) where
  -- The loop that validates the clients: the first error, for the sets of what was seen.
  unfoldable pub check_entries : List ClientEntry → List String → List (List ℕ) → Option ConfigError
  check_entries [] ids psks = none
  check_entries (entry ∷ entries) ids psks =
      let (ids', new_id) = HashSet.insert String_discrete entry.client_id ids in
      let (psks', new_psk) = HashSet.insert ConnectionId-discrete entry.psk psks in
      let rest = check_entries entries ids' psks' in
      if host.trims_to_empty entry.client_id
      then some (ConfigError.invalid Reason.empty_client_id)
      else if not new_id
      then some (ConfigError.invalid (Reason.duplicate_client_id entry.client_id))
      else if not new_psk
      then some (ConfigError.invalid (Reason.duplicate_psk entry.client_id))
      else rest

  unfoldable pub client_crypto : host.QuicServerConfig → ClientEntry → ClientCrypto net.ServerConfig
  client_crypto quic_server entry = record {
    client_id = entry.client_id;
    psk = entry.psk;
    server_config = host.transport_config quic_server entry.psk;
  }

  -- `map_err` of the errors that TLS reports
  abbrev pub io_error : {A : Type 0} → Result A String → Result A ConfigError
  io_error (Result.ok a) = Result.ok a
  io_error (Result.err text) = Result.err (ConfigError.io text)

  -- `build_clients` once the entries are validated.
  unfoldable pub build_checked :
      Option ConfigError
      → ServerSecrets K
      → Result (List (ClientCrypto net.ServerConfig)) ConfigError
  unfolding client_crypto
  build_checked (some e) secrets = Result.err e
  build_checked none secrets =
      and_then (io_error host.quic_server)
        (λ quic_server. Result.ok (map (client_crypto quic_server) secrets.clients))

  unfoldable pub build_clients :
      ServerSecrets K → Result (List (ClientCrypto net.ServerConfig)) ConfigError
  unfolding build_checked check_entries
  build_clients secrets = build_checked (check_entries secrets.clients [] []) secrets

module _ {float : Floats} {K : Type 0} {net : Net K float.Instant} where
  -- What `new_client` does with the connection that `connect` returns; the panic is that of
  -- `allocate_handle`.
  unfoldable pub dial :
      ℕ
      → net.quinn.Connection
      → Endpoint float K net
      → Option (Result (Endpoint float K net × ConnectionHandle) ConfigError)
  unfolding refresh_next_timeout
  dial quinn_ch conn ep = do
    (ep1, ch) ← allocate_handle quinn_ch ep
    let ep2 = drain_pending_cids ch ep1
    let ep3 = record ep2 {
      connections =
          HashMap.insert ConnectionHandle-discrete ch (Conn.new net.quinn conn) ep2.connections;
    }
    some (Result.ok (refresh_next_timeout ep3, ch))

module _ {float : Floats} {K : Type 0} {net : Net K float.Instant} (host : Host net)
    (dec : Discrete K) where
  -- The fields with which both constructors start.
  unfoldable pub new_endpoint :
      Role
      → List (ClientCrypto net.ServerConfig)
      → Option float.Instant
      → net.Inner
      → Endpoint float K net
  new_endpoint role clients last_service inner = record {
    inner = inner;
    role = role;
    clients = clients;
    replay = map (λ _. Replay.new window_minutes) clients;
    rate_limiter = default float dec;
    issued_cids = [];
    pending_cids = [];
    cids_by_conn = [];
    connections = [];
    client_ids = [];
    by_quinn = [];
    next_generation = 1;
    outbound = [];
    events = [];
    next_timeout = none;
    last_service = last_service;
  }

  unfoldable pub new_server : ServerSecrets K → Result (Endpoint float K net) ConfigError
  unfolding new_endpoint
  new_server secrets =
      and_then (build_clients host secrets)
        (λ clients. Result.ok (new_endpoint Role.server clients none host.endpoint))

  -- `new_client` once `connect` has returned.
  unfoldable pub dialed :
      float.Instant
      → Result ((ℕ × net.quinn.Connection) × List ConnectionId) String × net.Inner
      → Option (Result (Endpoint float K net × ConnectionHandle) ConfigError)
  unfolding new_endpoint dial
  dialed now (Result.err text, inner) = some (Result.err (ConfigError.io text))
  dialed now (Result.ok ((quinn_ch, conn), minted), inner) =
      dial quinn_ch conn (mint minted (new_endpoint Role.client [] (some now) inner))

  -- `new_client` once the TLS configuration is asked for.
  unfoldable pub dial_with :
      float.Instant
      → ClientConfigFile K
      → ConnectionId
      → Result host.QuicClientConfig String
      → Option (Result (Endpoint float K net × ConnectionHandle) ConfigError)
  dial_with now cfg dcid (Result.err text) = some (Result.err (ConfigError.io text))
  dial_with now cfg dcid (Result.ok quic_client) =
      dialed now (host.connect now quic_client cfg.psk dcid cfg.server host.endpoint)

  -- `nonce` is what `random_bytes` gives.
  unfoldable pub new_client :
      Blake3
      → List ℕ
      → float.Instant
      → ℕ
      → ClientConfigFile K
      → Option (Result (Endpoint float K net × ConnectionHandle) ConfigError)
  unfolding dial_with
  new_client blake3 nonce now freshness_minute cfg =
      dial_with now cfg (build_dcid blake3 cfg.psk nonce freshness_minute) host.quic_client
