-- ===== src/Selector.antt =====
-- proto/src/selector.rs: the blinded selector that a client puts into its first Destination
-- Connection ID. Bytes are numbers, and blake3 is a parameter.
pub mod Bytes
pub mod Wire
use quietquic.Prelude.{
  ℕ, ◌+◌, ◌≤◌, ◌≡◌, Bool, not, Option, none, some, List, [], ◌∷◌, ◌++◌, bit_or, bit_xor, ◌==◌,
  if◌then◌else◌, length, take, drop,
}
use Bytes.{to_le_bytes, from_le_bytes}

-- The crate blake3: the keyed hash of a key and of all the bytes that `update` was given, in order.
pub record Blake3 : Type 0 where
  pub keyed_hash : List ℕ → List ℕ → List ℕ
  pub length-keyed_hash : (key input : List ℕ) → length (keyed_hash key input) ≡ 32

-- b"quietquic/v1/selector"
abbrev pub context : List ℕ
context =
    b'q' ∷ b'u' ∷ b'i' ∷ b'e' ∷ b't' ∷ b'q' ∷ b'u' ∷ b'i' ∷ b'c' ∷ b'/' ∷ b'v' ∷ b'1' ∷ b'/' ∷ b's'
    ∷ b'e' ∷ b'l' ∷ b'e' ∷ b'c' ∷ b't' ∷ b'o' ∷ b'r' ∷ []

abbrev pub dcid_len : ℕ
dcid_len = 20

pub record DcidParts : Type 0 where
  pub nonce : List ℕ
  pub freshness : ℕ
  pub selector : List ℕ

unfoldable pub parse_dcid : List ℕ → Option DcidParts
parse_dcid dcid =
    if not (length dcid == dcid_len)
    then none
    else some (record {
      nonce = take 8 dcid;
      freshness = from_le_bytes (take 4 (drop 8 dcid));
      selector = take 8 (drop 12 dcid);
    })

-- The fold of the comparison: every difference of two bytes is or-ed into the accumulator.
unfoldable pub fold_diff : ℕ → List ℕ → List ℕ → ℕ
fold_diff acc [] ys = acc
fold_diff acc (x ∷ xs) [] = acc
fold_diff acc (x ∷ xs) (y ∷ ys) = fold_diff (bit_or acc (bit_xor x y)) xs ys

module _ (blake3 : Blake3) where
  open blake3 use {keyed_hash}

  unfoldable pub compute_selector : List ℕ → List ℕ → ℕ → List ℕ
  compute_selector psk nonce freshness =
      take 8 (keyed_hash psk (context ++ (nonce ++ to_le_bytes freshness)))

  unfoldable pub build_dcid : List ℕ → List ℕ → ℕ → List ℕ
  build_dcid psk nonce freshness =
      nonce ++ (to_le_bytes freshness ++ compute_selector psk nonce freshness)

  unfoldable pub selector_matches : List ℕ → DcidParts → Bool
  unfolding fold_diff
  selector_matches psk parts =
      let expected = compute_selector psk parts.nonce parts.freshness in
      fold_diff 0 expected parts.selector == 0
