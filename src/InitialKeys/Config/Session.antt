-- ===== src/InitialKeys/Config/Session.antt =====
-- The wrappers of proto/src/initial_keys.rs over a whole connection: the keys of the two sides.
use Prim.Native.String.{String}
use mathlib.Core.Option.{some_inj}
use quietquic.InitialKeys.{AwsLc, Keys, Side, quic_v1}
use quietquic.InitialKeys.Agreement.{initial_keys_from_psk-peer, peer}
use quietquic.InitialKeys.Config.{
  Rustls, HandshakeCall, HandshakeAnswer, PskServerConfig, PskClientConfig, PskSession,
  wrap_session, start_client_session, inner_call, session_call, server_initial_keys,
  session_initial_keys,
}
use quietquic.Prelude.{ℕ, ◌≡◌, refl, ap, sym, ◌∙◌, arith, none, some, List, [], ◌∷◌, Result}

module _ (rustls : Rustls) where
  -- Calls one after the other, with the answers in their order.
  unfoldable pub inner_calls :
      List HandshakeCall → rustls.Session → rustls.Session × List (HandshakeAnswer rustls)
  inner_calls [] s = (s, [])
  inner_calls (call ∷ calls) s =
      let (s', answer) = inner_call rustls call s in
      let (t, answers) = inner_calls calls s' in (t, answer ∷ answers)

  unfoldable pub session_calls :
      List HandshakeCall → PskSession rustls → PskSession rustls × List (HandshakeAnswer rustls)
  session_calls [] s = (s, [])
  session_calls (call ∷ calls) s =
      let (s', answer) = session_call rustls call s in
      let (t, answers) = session_calls calls s' in (t, answer ∷ answers)

  -- Over any sequence of calls of the handshake the wrapper answers what rustls's own session
  -- answers, and keeps the client's key.
  pub session_calls-inner_calls :
      (calls : List HandshakeCall) (s : PskSession rustls)
      → session_calls calls s
        ≡ (record s { inner = (inner_calls calls s.inner).0 }, (inner_calls calls s.inner).1)
  unfolding session_calls inner_calls session_call
  session_calls-inner_calls [] s = refl
  session_calls-inner_calls (call ∷ calls) s =
      let (inner, answer) = inner_call rustls call s.inner in
      rw (session_calls-inner_calls calls (record s { inner = inner })) refl

  wrap_session-psk :
      (psk : List ℕ) (r : Result rustls.Session rustls.ConnectError) (s : PskSession rustls)
      → wrap_session rustls psk r ≡ Result.ok s
      → s.psk ≡ psk
  unfolding wrap_session
  wrap_session-psk psk (Result.ok inner) s e =
      some_inj.0 (ap (λ r. elim r [ Result.ok t ↦ some t.psk | Result.err _ ↦ none ]) (sym e))
  wrap_session-psk psk (Result.err x) s e = absurd (ground arith)

  module _ (aws : AwsLc) where
    -- The keys with which a server first opens a client's Initial packet are those with which the
    -- client's session seals it, and the other way round: if both have the same key and use the
    -- same connection ID. The session may have made any calls of the handshake since it was started.
    pub server_initial_keys-session :
        (server : PskServerConfig rustls) (client : PskClientConfig rustls) (version : ℕ)
        (server_name : String) (params : rustls.TransportParameters) (session : PskSession rustls)
        (calls : List HandshakeCall) (dst_cid : List ℕ)
        → server.psk ≡ client.psk
        → start_client_session rustls client version server_name params ≡ Result.ok session
        → (ours : Keys aws) × (theirs : Keys aws) × (server_initial_keys rustls aws server quic_v1
              dst_cid
            ≡ some (Result.ok ours))
          × (session_initial_keys rustls aws (session_calls calls session).0 dst_cid Side.client
              ≡ some theirs)
          × (ours.remote ≡ theirs.local)
          × (ours.local ≡ theirs.remote)
    unfolding server_initial_keys session_initial_keys start_client_session peer
    server_initial_keys-session server client version server_name params session calls dst_cid same
          started =
        let key : (session_calls calls session).0.psk ≡ server.psk =
          ap (λ r. r.0.psk) (session_calls-inner_calls calls session)
          ∙ wrap_session-psk client.psk _ session started
          ∙ sym same in
        let (ours, theirs, run, run', local, remote, _) =
          initial_keys_from_psk-peer aws server.psk dst_cid Side.server in
        (ours, theirs, rw run refl, rw key run', remote, local)
