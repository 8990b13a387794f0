-- ===== src/Transport.antt =====
-- proto/src/transport.rs: the Destination Connection ID of a long-header datagram, read without
-- decryption.
pub mod Header
use quietquic.Prelude.{
  ℕ, ◌+◌, not, ◌||◌, Option, none, some, ◌>>=◌, ◌>>◌, guard, List, ◌==◌, ltb, bit_and, length,
  get_elem?, take, drop,
}

unfoldable pub peek_dcid : List ℕ → Option (List ℕ)
peek_dcid datagram = do
  first ← get_elem? datagram 0
  guard (not (bit_and first 0x80 == 0))
  dcid_len ← get_elem? datagram 5
  guard (not (dcid_len == 0 || ltb 20 dcid_len))
  let end = 6 + dcid_len
  guard (not (ltb (length datagram) end))
  some (take dcid_len (drop 6 datagram))
