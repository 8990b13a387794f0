-- ===== src/InitialKeys/Config.antt =====
-- PskServerConfig, PskClientConfig and PskSession of proto/src/initial_keys.rs: they wrap rustls's and
-- take the Initial keys from the client's key. rustls is a parameter.
pub mod Session
use Prim.Native.String.{String}
use quietquic.InitialKeys.{AwsLc, Keys, Side, initial_keys_from_psk, quic_v1}
use quietquic.Prelude.{ℕ, Bool, not, Option, none, some, ◌>>=◌, List, ◌==◌, if◌then◌else◌, Result}

-- quinn_proto's crypto configurations on rustls, and the sessions that they start.
pub record Rustls : Type 1 where
  pub QuicServerConfig : Type 0
  pub QuicClientConfig : Type 0
  pub Session : Type 0
  pub TransportParameters : Type 0
  pub ConnectError : Type 0
  pub TransportError : Type 0
  -- The keys of the handshake, which are not this module's.
  pub HandshakeKeys : Type 0
  pub retry_tag : QuicServerConfig → ℕ → List ℕ → List ℕ → List ℕ
  pub start_server : QuicServerConfig → ℕ → TransportParameters → Session
  pub start_client :
      QuicClientConfig → ℕ → String → TransportParameters → Result Session ConnectError
  -- The calls of a session that change it
  pub read_handshake : List ℕ → Session → Session × Result Bool TransportError
  pub write_handshake : Session → Session × (List ℕ × Option HandshakeKeys)
  pub next_1rtt_keys : Session → Session × Option HandshakeKeys
  -- and those that only read it.
  pub is_handshaking : Session → Bool
  pub is_valid_retry : Session → List ℕ → List ℕ → List ℕ → Bool
  pub transport_parameters : Session → Result (Option TransportParameters) TransportError

pub data UnsupportedVersion : Type 0 where
  unsupported_version : UnsupportedVersion

-- A call of a session that changes it, and what it returns.
pub data HandshakeCall : Type 0 where
  read_handshake : List ℕ → HandshakeCall
  write_handshake next_1rtt_keys : HandshakeCall

pub data HandshakeAnswer (rustls : Rustls) : Type 0 where
  read : Result Bool rustls.TransportError → HandshakeAnswer rustls
  written : List ℕ → Option rustls.HandshakeKeys → HandshakeAnswer rustls
  keys : Option rustls.HandshakeKeys → HandshakeAnswer rustls

module _ (rustls : Rustls) where
  pub record PskServerConfig : Type 0 where
    pub inner : rustls.QuicServerConfig
    pub psk : List ℕ

  pub record PskClientConfig : Type 0 where
    pub inner : rustls.QuicClientConfig
    pub psk : List ℕ

  pub record PskSession : Type 0 where
    pub inner : rustls.Session
    pub psk : List ℕ

  unfoldable pub retry_tag : PskServerConfig → ℕ → List ℕ → List ℕ → List ℕ
  retry_tag config version orig_dst_cid packet =
      rustls.retry_tag config.inner version orig_dst_cid packet

  -- PskServerConfig::start_session
  unfoldable pub start_server_session :
      PskServerConfig → ℕ → rustls.TransportParameters → PskSession
  start_server_session config version params = record {
    inner = rustls.start_server config.inner version params;
    psk = config.psk;
  }

  -- `?` on what rustls's start_session returned.
  unfoldable pub wrap_session :
      List ℕ → Result rustls.Session rustls.ConnectError → Result PskSession rustls.ConnectError
  wrap_session psk (Result.ok session) = Result.ok (record { inner = session; psk = psk })
  wrap_session psk (Result.err e) = Result.err e

  -- PskClientConfig::start_session
  unfoldable pub start_client_session :
      PskClientConfig
      → ℕ
      → String
      → rustls.TransportParameters
      → Result PskSession rustls.ConnectError
  unfolding wrap_session
  start_client_session config version server_name params =
      wrap_session config.psk (rustls.start_client config.inner version server_name params)

  -- A call of rustls's session, and the same call of the wrapper, which passes it on.
  unfoldable pub inner_call :
      HandshakeCall → rustls.Session → rustls.Session × HandshakeAnswer rustls
  inner_call (HandshakeCall.read_handshake buf) s =
      let (s', r) = rustls.read_handshake buf s in (s', HandshakeAnswer.read r)
  inner_call HandshakeCall.write_handshake s =
      let (s', (buf, keys_of)) = rustls.write_handshake s in
      (s', HandshakeAnswer.written buf keys_of)
  inner_call HandshakeCall.next_1rtt_keys s =
      let (s', r) = rustls.next_1rtt_keys s in (s', HandshakeAnswer.keys r)

  unfoldable pub session_call : HandshakeCall → PskSession → PskSession × HandshakeAnswer rustls
  unfolding inner_call
  session_call call s =
      let (inner, answer) = inner_call call s.inner in (record s { inner = inner }, answer)

  unfoldable pub is_handshaking : PskSession → Bool
  is_handshaking s = rustls.is_handshaking s.inner

  unfoldable pub is_valid_retry : PskSession → List ℕ → List ℕ → List ℕ → Bool
  is_valid_retry s orig_dst_cid header payload =
      rustls.is_valid_retry s.inner orig_dst_cid header payload

  unfoldable pub transport_parameters :
      PskSession → Result (Option rustls.TransportParameters) rustls.TransportError
  transport_parameters s = rustls.transport_parameters s.inner

  module _ (aws : AwsLc) where
    -- PskServerConfig::initial_keys; the outer Option is the panic.
    unfoldable pub server_initial_keys :
        PskServerConfig → ℕ → List ℕ → Option (Result (Keys aws) UnsupportedVersion)
    server_initial_keys config version dst_cid =
        if not (version == quic_v1)
        then some (Result.err UnsupportedVersion.unsupported_version)
        else do
          derived ← initial_keys_from_psk aws config.psk dst_cid Side.server
          some (Result.ok derived)

    -- PskSession::initial_keys
    unfoldable pub session_initial_keys : PskSession → List ℕ → Side → Option (Keys aws)
    session_initial_keys s dst_cid side = initial_keys_from_psk aws s.psk dst_cid side
