-- ===== src/InitialKeys.antt =====
-- proto/src/initial_keys.rs: the keys of the Initial packets, which both sides derive from the
-- client's key and its first connection ID. The primitives of aws-lc-rs are a parameter; a call that
-- can panic returns an Option, whose `none` is the panic.
pub mod Wire
pub mod Mask
pub mod Packet
pub mod Agreement
pub mod Config
use quietquic.Prelude.{
  ℕ, zero, suc, ◌+◌, ◌-◌, ◌*◌, ◌/◌, ◌%◌, ◌^◌, ◌≤◌, ◌≡◌, Bool, true, false, Option, none, some,
  ◌>>=◌, ◌>>◌, guard, List, [], ◌∷◌, ◌++◌, ◌==◌, leb, if◌then◌else◌, length, get_elem?, set, take,
  drop, bit_and, bit_xor,
}
use quietquic.InitialKeys.Wire.{to_be_bytes, xor_from, slice}

-- The crate aws-lc-rs, as the module uses it.
pub record AwsLc : Type 1 where
  pub Prk : Type 0
  pub AeadKey : Type 0
  pub HeaderProtectionKey : Type 0
  -- hkdf::Prk::new_less_safe, and hkdf::Salt::extract for a salt and the input
  pub new_less_safe : List ℕ → Prk
  pub extract : List ℕ → List ℕ → Prk
  -- hkdf::Prk::expand and Okm::fill for the info and a length
  pub expand : Prk → List ℕ → ℕ → Option (List ℕ)
  -- aead::UnboundKey::new for AES_128_GCM
  pub aead_key : List ℕ → Option AeadKey
  -- LessSafeKey::seal_in_place_separate_tag: the ciphertext and the tag
  pub seal : AeadKey → List ℕ → List ℕ → List ℕ → Option (List ℕ × List ℕ)
  -- LessSafeKey::open_in_place
  pub open_in_place : AeadKey → List ℕ → List ℕ → List ℕ → Option (List ℕ)
  -- aead::quic::HeaderProtectionKey::new for AES_128, and new_mask
  pub header_key : List ℕ → Option HeaderProtectionKey
  pub new_mask : HeaderProtectionKey → List ℕ → Option (List ℕ)
  -- HKDF-SHA256 gives at most 255 blocks, and AES-GCM takes at most 2^32 - 2; keys and samples have
  -- 16 bytes, masks 5, tags 16; what was sealed under a nonce can be opened under it.
  pub expand-some :
      (prk : Prk) (info : List ℕ) (n : ℕ)
      → n ≤ 8160
      → (okm : List ℕ) × (expand prk info n ≡ some okm) × (length okm ≡ n)
  pub aead_key-some : (key : List ℕ) → length key ≡ 16 → (k : AeadKey) × (aead_key key ≡ some k)
  pub header_key-some :
      (key : List ℕ) → length key ≡ 16 → (k : HeaderProtectionKey) × (header_key key ≡ some k)
  pub new_mask-some :
      (k : HeaderProtectionKey) (sample : List ℕ)
      → length sample ≡ 16
      → (mask : List ℕ) × (new_mask k sample ≡ some mask) × (length mask ≡ 5)
  pub seal-some :
      (k : AeadKey) (nonce aad plain : List ℕ)
      → length plain ≤ (2 ^ 32 - 2) * 16
      → (sealed : List ℕ × List ℕ) × (seal k nonce aad plain ≡ some sealed)
  pub seal-length :
      (k : AeadKey) (nonce aad plain cipher tag : List ℕ)
      → seal k nonce aad plain ≡ some (cipher, tag)
      → (length cipher ≡ length plain) × (length tag ≡ 16)
  pub open-seal :
      (k : AeadKey) (nonce aad plain cipher tag : List ℕ)
      → seal k nonce aad plain ≡ some (cipher, tag)
      → open_in_place k nonce aad (cipher ++ tag) ≡ some plain

abbrev pub aead_key_len : ℕ
aead_key_len = 16

abbrev pub iv_len : ℕ
iv_len = 12

abbrev pub tag_len : ℕ
tag_len = 16

abbrev pub hp_sample_len : ℕ
hp_sample_len = 16

abbrev pub secret_len : ℕ
secret_len = 32

abbrev pub quic_v1 : ℕ
quic_v1 = 1

-- b"tls13 "
abbrev pub prefix : List ℕ
prefix = b't' ∷ b'l' ∷ b's' ∷ b'1' ∷ b'3' ∷ b' ' ∷ []

-- The context is empty. The length is a u16, the label's length a u8.
unfoldable pub hkdf_label_info : ℕ → List ℕ → List ℕ
unfolding to_be_bytes
hkdf_label_info out_len label =
    to_be_bytes 2 (out_len % 2 ^ 16) []
    ++ ((length prefix + length label) % 256 ∷ (prefix ++ (label ++ (0 ∷ []))))

abbrev pub client_in : List ℕ
client_in = b'c' ∷ b'l' ∷ b'i' ∷ b'e' ∷ b'n' ∷ b't' ∷ b' ' ∷ b'i' ∷ b'n' ∷ []

abbrev pub server_in : List ℕ
server_in = b's' ∷ b'e' ∷ b'r' ∷ b'v' ∷ b'e' ∷ b'r' ∷ b' ' ∷ b'i' ∷ b'n' ∷ []

abbrev pub quic_key : List ℕ
quic_key = b'q' ∷ b'u' ∷ b'i' ∷ b'c' ∷ b' ' ∷ b'k' ∷ b'e' ∷ b'y' ∷ []

abbrev pub quic_iv : List ℕ
quic_iv = b'q' ∷ b'u' ∷ b'i' ∷ b'c' ∷ b' ' ∷ b'i' ∷ b'v' ∷ []

abbrev pub quic_hp : List ℕ
quic_hp = b'q' ∷ b'u' ∷ b'i' ∷ b'c' ∷ b' ' ∷ b'h' ∷ b'p' ∷ []

pub data Side : Type 0 where
  client server : Side

-- How many of the first byte's low bits are masked: four in a long header, five in a short one.
unfoldable pub header_bits : ℕ → ℕ
header_bits first = if bit_and first 0x80 == 0x80 then 0x0f else 0x1f

-- The length of the packet number, from the first byte without its mask.
unfoldable pub pn_length : ℕ → ℕ
pn_length first_plain = bit_and first_plain 0x03 + 1

module _ (aws : AwsLc) where
  pub record InitialPacketKey : Type 0 where
    pub key : aws.AeadKey
    pub iv : List ℕ

  pub record DirectionalKeys : Type 0 where
    pub packet : InitialPacketKey
    pub header : aws.HeaderProtectionKey

  -- quinn_proto's Keys: the pairs of header keys and of packet keys, by direction.
  pub record Keys : Type 0 where
    pub local : DirectionalKeys
    pub remote : DirectionalKeys

  unfoldable pub expand_label : aws.Prk → List ℕ → ℕ → Option (List ℕ)
  unfolding hkdf_label_info
  expand_label prk label out_len = aws.expand prk (hkdf_label_info out_len label) out_len

  -- InitialPacketKey::new
  unfoldable pub new_packet_key : List ℕ → List ℕ → Option InitialPacketKey
  new_packet_key key iv = do unbound ← aws.aead_key key; some (record { key = unbound; iv = iv })

  unfoldable pub directional_keys : List ℕ → Option DirectionalKeys
  unfolding expand_label new_packet_key
  directional_keys secret = do
    let prk = aws.new_less_safe secret
    key ← expand_label prk quic_key aead_key_len
    iv ← expand_label prk quic_iv iv_len
    hp ← expand_label prk quic_hp aead_key_len
    packet ← new_packet_key key iv
    header ← aws.header_key hp
    some (record { packet = packet; header = header })

  -- The keys to encrypt with and those to decrypt with, by the side.
  unfoldable pub keys_of : Side → DirectionalKeys → DirectionalKeys → Keys
  keys_of Side.client of_client of_server = record { local = of_client; remote = of_server }
  keys_of Side.server of_client of_server = record { local = of_server; remote = of_client }

  -- The assertion on the version is of debug builds only.
  unfoldable pub initial_keys_from_psk : List ℕ → List ℕ → Side → Option Keys
  unfolding directional_keys keys_of
  initial_keys_from_psk psk dcid side = do
    let initial_prk = aws.extract psk dcid
    client_secret ← expand_label initial_prk client_in secret_len
    server_secret ← expand_label initial_prk server_in secret_len
    of_client ← directional_keys client_secret
    of_server ← directional_keys server_secret
    some (keys_of side of_client of_server)

  -- InitialPacketKey::nonce: the packet number goes into the last 8 of the 12 bytes.
  unfoldable pub nonce : InitialPacketKey → ℕ → List ℕ
  unfolding xor_from to_be_bytes
  nonce k packet = xor_from (iv_len - 8) (to_be_bytes 8 packet []) k.iv

  -- PacketKey::encrypt: the buffer's last bytes are room for the tag. The panics are those of
  -- `split_at_mut`, of the subtraction, which overflows, and of the AEAD.
  unfoldable pub encrypt_packet : InitialPacketKey → ℕ → List ℕ → ℕ → Option (List ℕ)
  unfolding nonce
  encrypt_packet k packet buf header_len = do
    guard (leb header_len (length buf))
    let header = take header_len buf
    let payload_tag = drop header_len buf
    guard (leb tag_len (length payload_tag))
    let payload_len = length payload_tag - tag_len
    (cipher, tag) ← aws.seal k.key (nonce k packet) header (take payload_len payload_tag)
    some (header ++ (cipher ++ tag))

  -- PacketKey::decrypt: `none` is the error, and the payload is left in its place.
  unfoldable pub decrypt_packet : InitialPacketKey → ℕ → List ℕ → List ℕ → Option (List ℕ)
  decrypt_packet k packet header payload = aws.open_in_place k.key (nonce k packet) header payload

  -- The first byte without its mask: `masked` says that it still carries it.
  unfoldable pub plain_first : Bool → ℕ → ℕ → ℕ
  plain_first true first flip = bit_xor first flip
  plain_first false first flip = first

  -- InitialHeaderKey::apply
  unfoldable pub apply : aws.HeaderProtectionKey → ℕ → List ℕ → Bool → Option (List ℕ)
  unfolding slice xor_from header_bits plain_first pn_length
  apply hp pn_offset packet masked = do
    sample ← slice (pn_offset + 4) hp_sample_len packet
    mask ← aws.new_mask hp sample
    first ← get_elem? packet 0
    mask0 ← get_elem? mask 0
    let flip = bit_and mask0 (header_bits first)
    let pn_len = pn_length (plain_first masked first flip)
    some (xor_from pn_offset (take pn_len (drop 1 mask)) (set packet 0 (bit_xor first flip)))

  -- HeaderKey::encrypt and decrypt
  unfoldable pub encrypt_header : aws.HeaderProtectionKey → ℕ → List ℕ → Option (List ℕ)
  encrypt_header hp pn_offset packet = apply hp pn_offset packet false

  unfoldable pub decrypt_header : aws.HeaderProtectionKey → ℕ → List ℕ → Option (List ℕ)
  decrypt_header hp pn_offset packet = apply hp pn_offset packet true
