-- ===== src/InitialKeys/Agreement.antt =====
-- initial_keys_from_psk of proto/src/initial_keys.rs: the two sides of a connection derive matching
-- keys.
use quietquic.InitialKeys.{
  AwsLc, DirectionalKeys, Keys, Side, expand_label, new_packet_key, directional_keys, keys_of,
  initial_keys_from_psk, encrypt_packet, decrypt_packet, encrypt_header, decrypt_header, client_in,
  server_in, quic_key, quic_iv, quic_hp, aead_key_len, iv_len, tag_len, secret_len,
}
use quietquic.InitialKeys.Mask.{decrypt_header-encrypt_header}
use quietquic.InitialKeys.Packet.{decrypt_packet-encrypt_packet}
use quietquic.Prelude.{ℕ, ◌+◌, ◌-◌, ◌*◌, ◌^◌, ◌≤◌, ◌≡◌, refl, some, List, arith, length, take, drop}

-- The other side of the connection.
unfoldable pub peer : Side → Side
peer Side.client = Side.server
peer Side.server = Side.client

module _ (aws : AwsLc) where
  expand_label-some :
      (prk : aws.Prk) (label : List ℕ) (n : ℕ)
      → n ≤ 8160
      → (okm : List ℕ) × (expand_label aws prk label n ≡ some okm) × (length okm ≡ n)
  unfolding expand_label
  expand_label-some prk label n h = aws.expand-some prk _ n h

  directional_keys-some :
      (secret : List ℕ)
      → (keys : DirectionalKeys aws) × (directional_keys aws secret ≡ some keys)
        × (length keys.packet.iv ≡ iv_len)
  unfolding directional_keys new_packet_key
  directional_keys-some secret =
      let prk = aws.new_less_safe secret in
      let (key, made_key, sixteen) = expand_label-some prk quic_key aead_key_len (omega arith) in
      let (iv, made_iv, twelve) = expand_label-some prk quic_iv iv_len (omega arith) in
      let (hp, made_hp, sixteen') = expand_label-some prk quic_hp aead_key_len (omega arith) in
      let (unbound, bound) = aws.aead_key-some key sixteen in
      let (header, masks) = aws.header_key-some hp sixteen' in
      (
        record { packet = record { key = unbound; iv = iv }; header = header },
        rw (made_key, made_iv, made_hp, bound, masks) refl,
        twelve,
      )

  -- What both sides derive from the same key and connection ID.
  record Derived (psk dcid : List ℕ) : Type 0 where
    of_client : DirectionalKeys aws
    of_server : DirectionalKeys aws
    derives :
        (side : Side)
        → initial_keys_from_psk aws psk dcid side ≡ some (keys_of aws side of_client of_server)
    client_iv : length of_client.packet.iv ≡ iv_len
    server_iv : length of_server.packet.iv ≡ iv_len

  derived : (psk dcid : List ℕ) → Derived psk dcid
  unfolding initial_keys_from_psk
  derived psk dcid =
      let prk = aws.extract psk dcid in
      let (client_secret, made, _) = expand_label-some prk client_in secret_len (omega arith) in
      let (server_secret, made', _) = expand_label-some prk server_in secret_len (omega arith) in
      let (of_client, directed, iv) = directional_keys-some client_secret in
      let (of_server, directed', iv') = directional_keys-some server_secret in
      record {
        of_client = of_client;
        of_server = of_server;
        derives = λ side. rw (made, made', directed, directed') refl;
        client_iv = iv;
        server_iv = iv';
      }

  -- Both sides derive their keys without a panic, and each seals with what the other opens with; the
  -- vectors have the length of a nonce.
  pub initial_keys_from_psk-peer :
      (psk dcid : List ℕ) (side : Side)
      → (ours : Keys aws) × (theirs : Keys aws) × (initial_keys_from_psk aws psk dcid side
          ≡ some ours)
        × (initial_keys_from_psk aws psk dcid (peer side) ≡ some theirs)
        × (ours.local ≡ theirs.remote)
        × (ours.remote ≡ theirs.local)
        × (length ours.local.packet.iv ≡ iv_len)
  unfolding keys_of peer
  initial_keys_from_psk-peer psk dcid Side.client =
      let d = derived psk dcid in
      (_, _, d.derives Side.client, d.derives Side.server, refl, refl, d.client_iv)
  initial_keys_from_psk-peer psk dcid Side.server =
      let d = derived psk dcid in
      (_, _, d.derives Side.server, d.derives Side.client, refl, refl, d.server_iv)

  -- What one side protects the other recovers. Under the keys of the same client key and connection
  -- ID, a packet that has room for the tag and for the sample of the mask, of a size that AES-GCM
  -- takes, can be sealed and then masked; the other side unmasks it and opens it to the payload.
  pub protected-peer :
      (psk dcid : List ℕ) (side : Side) (number : ℕ) (buf : List ℕ) (pn_offset header_len : ℕ)
      → 1 ≤ pn_offset
      → pn_offset + 20 ≤ length buf
      → header_len + tag_len ≤ length buf
      → length buf ≤ (2 ^ 32 - 2) * 16
      → (ours : Keys aws) × (theirs : Keys aws) × (initial_keys_from_psk aws psk dcid side
          ≡ some ours)
        × (initial_keys_from_psk aws psk dcid (peer side) ≡ some theirs)
        × (out : List ℕ) × (wire : List ℕ) × (encrypt_packet aws ours.local.packet number buf
              header_len
            ≡ some out)
        × (encrypt_header aws ours.local.header pn_offset out ≡ some wire)
        × (decrypt_header aws theirs.remote.header pn_offset wire ≡ some out)
        × (decrypt_packet aws theirs.remote.packet number
              (take header_len out)
              (drop header_len out)
            ≡ some (take (length buf - header_len - tag_len) (drop header_len buf)))
  protected-peer psk dcid side number buf pn_offset header_len positive sampled room small =
      let (ours, theirs, own, other, match_, _, _) = initial_keys_from_psk-peer psk dcid side in
      let (out, sealed, l, _, opened) =
        decrypt_packet-encrypt_packet aws ours.local.packet number buf header_len room small in
      let (wire, masked, unmasked, _, _) =
        decrypt_header-encrypt_header aws ours.local.header pn_offset out positive
          (omega (arith, l)) in
      (
        ours,
        theirs,
        own,
        other,
        out,
        wire,
        sealed,
        masked,
        rw⁻¹ match_ unmasked,
        rw⁻¹ match_ opened,
      )
