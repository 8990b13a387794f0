-- ===== src/InitialKeys/Packet.antt =====
-- InitialPacketKey of proto/src/initial_keys.rs: what is sealed can be opened, and no two packet
-- numbers share a nonce.
use quietquic.InitialKeys.{
  AwsLc, InitialPacketKey, nonce, encrypt_packet, decrypt_packet, iv_len, tag_len,
}
use quietquic.InitialKeys.Wire.{length-to_be_bytes, to_be_bytes_inj, xor_from_cancel}
use quietquic.Prelude.{
  ℕ, ◌+◌, ◌-◌, ◌*◌, ◌^◌, ◌≤◌, ◌<◌, ◌≡◌, refl, true, some, List, [], ◌++◌, arith, leb, length, take,
  drop, length-take, length-drop, length-append, take_prefix,
}

module _ (aws : AwsLc) where
  -- Different packet numbers have different nonces.
  pub nonce_inj :
      (k : InitialPacketKey aws) (p q : ℕ)
      → length k.iv ≡ iv_len
      → p < 2 ^ 64
      → q < 2 ^ 64
      → nonce aws k p ≡ nonce aws k q
      → p ≡ q
  unfolding nonce
  nonce_inj k p q l below below' e =
      (to_be_bytes_inj 8 p q [] [] (omega arith) (omega arith) (
        xor_from_cancel 4 k.iv _ _ (omega (arith, length-to_be_bytes 8 p [], l))
          (omega (arith, length-to_be_bytes 8 q [], l)) e)).0

  -- What sealing a buffer comes to, for the plaintext that it holds.
  abbrev Sealed : InitialPacketKey aws → ℕ → List ℕ → ℕ → List ℕ → Type 0
  Sealed k packet buf header_len plain =
      (out : List ℕ) × (encrypt_packet aws k packet buf header_len ≡ some out)
      × (length out ≡ length buf)
      × (take header_len out ≡ take header_len buf)
      × (decrypt_packet aws k packet (take header_len out) (drop header_len out) ≡ some plain)

  sealed :
      (k : InitialPacketKey aws) (packet : ℕ) (buf : List ℕ) (header_len n : ℕ)
      (cipher tag : List ℕ)
      → header_len + (n + tag_len) ≡ length buf
      → aws.seal k.key (nonce aws k packet) (take header_len buf) (take n (drop header_len buf))
        ≡ some (cipher, tag)
      → Sealed k packet buf header_len (take n (drop header_len buf))
  unfolding encrypt_packet decrypt_packet
  sealed k packet buf header_len n cipher tag fits made =
      let header = take header_len buf in
      let l : length header ≡ header_len = omega (arith, length-take header_len buf) in
      let m = length-drop header_len buf in
      let (same, sixteen) = aws.seal-length k.key _ header _ cipher tag made in
      let room : leb header_len (length buf) ≡ true = ground arith in
      let room' : leb tag_len (length (drop header_len buf)) ≡ true = ground (arith, m) in
      let payload : length (drop header_len buf) - tag_len ≡ n = omega (arith, m) in
      let (first, second) = take_prefix header_len header (cipher ++ tag) l in
      (
        header ++ (cipher ++ tag),
        rw (room, room', payload, made) refl,
        omega (
          arith,
          length-append header (cipher ++ tag),
          length-append cipher tag,
          length-take n (drop header_len buf),
          m,
          l,
          same,
          sixteen,
        ),
        first,
        rw (first, second) (aws.open-seal k.key _ header _ cipher tag made),
      )

  -- A buffer that has room for the tag, of a size that AES-GCM takes, can be sealed. The header stays
  -- in front, and the length stays; under the same packet number the rest opens to the payload.
  pub decrypt_packet-encrypt_packet :
      (k : InitialPacketKey aws) (packet : ℕ) (buf : List ℕ) (header_len : ℕ)
      → header_len + tag_len ≤ length buf
      → length buf ≤ (2 ^ 32 - 2) * 16
      → (out : List ℕ) × (encrypt_packet aws k packet buf header_len ≡ some out)
        × (length out ≡ length buf)
        × (take header_len out ≡ take header_len buf)
        × (decrypt_packet aws k packet (take header_len out) (drop header_len out)
            ≡ some (take (length buf - header_len - tag_len) (drop header_len buf)))
  decrypt_packet-encrypt_packet k packet buf header_len fits small =
      let n = length buf - header_len - tag_len in
      let ((cipher, tag), made) =
        aws.seal-some k.key (nonce aws k packet) (take header_len buf)
          (take n (drop header_len buf)) (omega (arith, length-take n (drop header_len buf))) in
      sealed k packet buf header_len n cipher tag (omega arith) made
