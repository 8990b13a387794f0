-- ===== src/Tests/Keys.antt =====
-- Witnesses for the Initial keys, on a cipher that leaves the plaintext as it is and tags it with
-- zeros.
use quietquic.InitialKeys.{
  AwsLc, InitialPacketKey, Keys, Side, initial_keys_from_psk, nonce, encrypt_packet, decrypt_packet,
  encrypt_header, decrypt_header, tag_len, quic_v1,
}
use quietquic.InitialKeys.Agreement.{peer, protected-peer}
use quietquic.InitialKeys.Config.{
  Rustls, HandshakeCall, PskServerConfig, PskClientConfig, PskSession, start_client_session,
  server_initial_keys, session_initial_keys,
}
use quietquic.InitialKeys.Config.Session.{session_calls, server_initial_keys-session}
use quietquic.InitialKeys.Packet.{nonce_inj}
use mathlib.Core.Option.{some_inj}
use quietquic.Prelude.{
  ℕ, subst, zero, suc, ◌-◌, ◌≡◌, refl, ap, ◌∙◌, true, false, Option, none, some, List, [], ◌∷◌,
  ◌++◌, arith, length, take, drop, replicate, length-append, take_prefix, Result,
}

pub length-fill : (n b : ℕ) → length (replicate n b) ≡ n
length-fill zero b = omega arith
length-fill (suc n) b = omega (arith, length-fill n b)

abbrev zeros : List ℕ
zeros = replicate 16 0

abbrev pub opens : List ℕ → Option (List ℕ)
opens payload = some (take (length payload - 16) payload)

pub opens-seals :
    (plain cipher tag : List ℕ)
    → Path (Option (List ℕ × List ℕ)) (some (plain, replicate 16 0)) (some (cipher, tag))
    → opens (cipher ++ tag) ≡ some plain
opens-seals plain cipher tag e =
    let n : length (plain ++ zeros) - 16 ≡ length plain =
      omega (arith, length-append plain zeros, length-fill 16 0) in
    subst (λ (r : List ℕ × List ℕ). opens (r.0 ++ r.1) ≡ some plain) (some_inj.0 e)
      (ap (λ k. some (take k (plain ++ zeros))) n
        ∙ ap some (take_prefix (length plain) plain zeros refl).0)

pub seals-length :
    (plain cipher tag : List ℕ)
    → Path (Option (List ℕ × List ℕ)) (some (plain, replicate 16 0)) (some (cipher, tag))
    → (length cipher ≡ length plain) × (length tag ≡ 16)
seals-length plain cipher tag e =
    subst (λ (r : List ℕ × List ℕ). (length r.0 ≡ length plain) × (length r.1 ≡ 16)) (some_inj.0 e)
      (refl, refl)

abbrev pub toy_aws : AwsLc
toy_aws = record {
  Prk = List ℕ;
  AeadKey = List ℕ;
  HeaderProtectionKey = List ℕ;
  new_less_safe = λ secret. secret;
  extract = λ salt ikm. salt ++ ikm;
  expand = λ prk info n. some (replicate n 1);
  aead_key = λ key. some key;
  seal = λ k n aad plain. some (plain, replicate 16 0);
  open_in_place = λ k n aad payload. opens payload;
  header_key = λ key. some key;
  new_mask = λ k sample. some (replicate 5 21);
  expand-some = λ prk info n h. (replicate n 1, refl, length-fill n 1);
  aead_key-some = λ key h. (key, refl);
  header_key-some = λ key h. (key, refl);
  new_mask-some = λ k sample h. (replicate 5 21, refl, refl);
  seal-some = λ k n aad plain h. ((plain, replicate 16 0), refl);
  seal-length = λ k n aad plain cipher tag e. seals-length plain cipher tag e;
  open-seal = λ k n aad plain cipher tag e. opens-seals plain cipher tag e;
}

abbrev pub toy_rustls : Rustls
toy_rustls = record {
  QuicServerConfig = ℕ;
  QuicClientConfig = ℕ;
  Session = ℕ;
  TransportParameters = ℕ;
  ConnectError = ℕ;
  TransportError = ℕ;
  HandshakeKeys = ℕ;
  retry_tag = λ config version cid packet. [];
  start_server = λ config version params. params;
  start_client = λ config version name params. Result.ok params;
  read_handshake = λ buf s. (suc s, Result.ok true);
  write_handshake = λ s. (suc s, ([], none));
  next_1rtt_keys = λ s. (suc s, none);
  is_handshaking = λ s. true;
  is_valid_retry = λ s cid header payload. false;
  transport_parameters = λ s. Result.ok none;
}

abbrev packet : List ℕ
packet = 195 ∷ replicate 40 3

abbrev some_key : InitialPacketKey toy_aws
some_key = record { key = []; iv = replicate 12 1 }

apart : nonce toy_aws some_key 7 ≡ nonce toy_aws some_key 7
apart = refl

nonce_inj_example : Path ℕ 7 7
nonce_inj_example = nonce_inj toy_aws some_key 7 7 refl (omega arith) (omega arith) apart

protected-peer_example :
    (ours : Keys toy_aws) × (theirs : Keys toy_aws) × (initial_keys_from_psk toy_aws
        (7 ∷ [])
        (1 ∷ [])
        Side.client
      ≡ some ours)
    × (initial_keys_from_psk toy_aws (7 ∷ []) (1 ∷ []) (peer Side.client) ≡ some theirs)
    × (out : List ℕ) × (wire : List ℕ) × (encrypt_packet toy_aws ours.local.packet 0 packet 5
        ≡ some out)
    × (encrypt_header toy_aws ours.local.header 1 out ≡ some wire)
    × (decrypt_header toy_aws theirs.remote.header 1 wire ≡ some out)
    × (decrypt_packet toy_aws theirs.remote.packet 0 (take 5 out) (drop 5 out)
        ≡ some (take (length packet - 5 - tag_len) (drop 5 packet)))
protected-peer_example =
    protected-peer toy_aws (7 ∷ []) (1 ∷ []) Side.client 0 packet 1 5 (omega arith) (omega arith)
      (omega arith) (omega arith)

abbrev server_config : PskServerConfig toy_rustls
server_config = record { inner = 0; psk = 7 ∷ [] }

abbrev client_config : PskClientConfig toy_rustls
client_config = record { inner = 0; psk = 7 ∷ [] }

abbrev session : PskSession toy_rustls
session = record { inner = 9; psk = 7 ∷ [] }

starts : start_client_session toy_rustls client_config 1 "server" 9 ≡ Result.ok session
unfolding start_client_session
starts = refl

server_initial_keys-session_example :
    (ours : Keys toy_aws) × (theirs : Keys toy_aws) × (server_initial_keys toy_rustls toy_aws
        server_config quic_v1
        (1 ∷ [])
      ≡ some (Result.ok ours))
    × (session_initial_keys toy_rustls toy_aws
          (session_calls toy_rustls (HandshakeCall.write_handshake ∷ []) session).0
          (1 ∷ [])
          Side.client
        ≡ some theirs)
    × (ours.remote ≡ theirs.local)
    × (ours.local ≡ theirs.remote)
server_initial_keys-session_example =
    server_initial_keys-session toy_rustls toy_aws server_config client_config 1 "server" 9 session
      (HandshakeCall.write_handshake ∷ []) (1 ∷ []) refl starts
