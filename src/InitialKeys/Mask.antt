-- ===== src/InitialKeys/Mask.antt =====
-- InitialHeaderKey::apply of proto/src/initial_keys.rs: taking the mask off undoes putting it on.
use quietquic.InitialKeys.{
  AwsLc, header_bits, pn_length, plain_first, apply, encrypt_header, decrypt_header, hp_sample_len,
}
use quietquic.InitialKeys.Wire.{
  xor_from, xor_from_twice, length-xor_from, slice, slice-xor_from, drop-xor_from,
}
use quietquic.Prelude.{
  ℕ, zero, suc, ◌+◌, ◌≤◌, ◌<◌, ◌≡◌, refl, ap, ◌∙◌, some, List, [], ◌∷◌, arith, length, take, drop,
  length-take, length-drop, bit_and, bit_xor, bit_and-le, bit_xor_twice, bit_and-bit_xor_high,
}

-- The mask of the first byte spares the bit that tells the form of the header.
header_bits-lt : (first : ℕ) → header_bits first < 128
unfolding header_bits
header_bits-lt first = ground arith

abbrev flip_of : ℕ → ℕ → ℕ
flip_of mask0 first = bit_and mask0 (header_bits first)

header_bits-flip :
    (mask0 first : ℕ) → header_bits (bit_xor first (flip_of mask0 first)) ≡ header_bits first
unfolding header_bits
header_bits-flip mask0 first =
    let small : flip_of mask0 first < 128 =
      omega (arith, bit_and-le mask0 (header_bits first), header_bits-lt first) in
    rw (bit_and-bit_xor_high first (flip_of mask0 first) small) refl

slice_first : (m k b c : ℕ) (bs : List ℕ) → 1 ≤ m → slice m k (b ∷ bs) ≡ slice m k (c ∷ bs)
unfolding slice
slice_first zero k b c bs h = absurd (omega arith)
slice_first (suc m) k b c bs h = refl

slice-some :
    (m k : ℕ) (bs : List ℕ)
    → m + k ≤ length bs
    → (s : List ℕ) × (slice m k bs ≡ some s) × (length s ≡ k)
unfolding slice
slice-some m k bs h =
    (take k (drop m bs), ground arith, omega (arith, length-take k (drop m bs), length-drop m bs))

pn_length-le : (first : ℕ) → pn_length first ≤ 4
unfolding pn_length
pn_length-le first = omega (arith, bit_and-le first 3)

module _ (aws : AwsLc) where
  abbrev masked_tail : ℕ → ℕ → List ℕ → List ℕ → List ℕ
  masked_tail k first ms bs = xor_from k (take (pn_length first) ms) bs

  encrypt_mask :
      (hp : aws.HeaderProtectionKey) (k b m0 : ℕ) (bs ms sample : List ℕ)
      → slice (suc k + 4) hp_sample_len (b ∷ bs) ≡ some sample
      → aws.new_mask hp sample ≡ some (m0 ∷ ms)
      → encrypt_header aws hp (suc k) (b ∷ bs)
        ≡ some (bit_xor b (flip_of m0 b) ∷ masked_tail k b ms bs)
  unfolding encrypt_header apply plain_first xor_from
  encrypt_mask hp k b m0 bs ms sample at mask = rw (at, mask) refl

  decrypt_mask :
      (hp : aws.HeaderProtectionKey) (k b m0 : ℕ) (bs ms sample : List ℕ)
      → slice (suc k + 4) hp_sample_len (b ∷ bs) ≡ some sample
      → aws.new_mask hp sample ≡ some (m0 ∷ ms)
      → decrypt_header aws hp (suc k) (bit_xor b (flip_of m0 b) ∷ masked_tail k b ms bs)
        ≡ some (b ∷ bs)
  unfolding decrypt_header apply plain_first xor_from
  decrypt_mask hp k b m0 bs ms sample at mask =
      rw
        (
          seen,
          mask,
          header_bits-flip m0 b,
          bit_xor_twice b (flip_of m0 b),
          xor_from_twice k (take (pn_length b) ms) bs,
        )
        refl
    where
      c : ℕ
      c = bit_xor b (flip_of m0 b)

      seen : slice (suc k + 4) hp_sample_len (c ∷ masked_tail k b ms bs) ≡ some sample
      seen =
          slice-xor_from (suc k) (suc k + 4) hp_sample_len (take (pn_length b) ms) (c ∷ bs)
            (omega (arith, length-take (pn_length b) ms, pn_length-le b))
          ∙ slice_first (suc k + 4) hp_sample_len c b bs (omega arith)
          ∙ at

  -- What masking a packet comes to.
  abbrev Masked : aws.HeaderProtectionKey → ℕ → List ℕ → Type 0
  Masked hp pn_offset packet =
      (out : List ℕ) × (encrypt_header aws hp pn_offset packet ≡ some out)
      × (decrypt_header aws hp pn_offset out ≡ some packet)
      × (length out ≡ length packet)
      × (drop (pn_offset + 4) out ≡ drop (pn_offset + 4) packet)

  drop_first : (m b c : ℕ) (bs : List ℕ) → 1 ≤ m → drop m (b ∷ bs) ≡ drop m (c ∷ bs)
  drop_first zero b c bs h = absurd (omega arith)
  drop_first (suc m) b c bs h = refl

  masked :
      (hp : aws.HeaderProtectionKey) (k b : ℕ) (bs mask sample : List ℕ)
      → slice (suc k + 4) hp_sample_len (b ∷ bs) ≡ some sample
      → aws.new_mask hp sample ≡ some mask
      → length mask ≡ 5
      → Masked hp (suc k) (b ∷ bs)
  unfolding xor_from
  masked hp k b bs [] sample at made five = absurd (omega arith)
  masked hp k b bs (m0 ∷ ms) sample at made five =
      let tail = take (pn_length b) ms in
      (
        bit_xor b (flip_of m0 b) ∷ masked_tail k b ms bs,
        encrypt_mask hp k b m0 bs ms sample at made,
        decrypt_mask hp k b m0 bs ms sample at made,
        ap (λ n. suc n) (length-xor_from k tail bs),
        drop-xor_from (suc k) (suc k + 4) tail (bit_xor b (flip_of m0 b) ∷ bs)
              (omega (arith, length-take (pn_length b) ms, pn_length-le b))
            ∙ drop_first (suc k + 4) _ b bs (omega arith),
      )

  -- A packet that has the 16 bytes of the sample behind the longest packet number can be masked, and
  -- unmasking gives it back; the mask keeps its length and all that follows the packet number.
  pub decrypt_header-encrypt_header :
      (hp : aws.HeaderProtectionKey) (pn_offset : ℕ) (packet : List ℕ)
      → 1 ≤ pn_offset
      → pn_offset + 20 ≤ length packet
      → (out : List ℕ) × (encrypt_header aws hp pn_offset packet ≡ some out)
        × (decrypt_header aws hp pn_offset out ≡ some packet)
        × (length out ≡ length packet)
        × (drop (pn_offset + 4) out ≡ drop (pn_offset + 4) packet)
  decrypt_header-encrypt_header hp zero packet p q = absurd (omega arith)
  decrypt_header-encrypt_header hp (suc k) [] p q = absurd (omega arith)
  decrypt_header-encrypt_header hp (suc k) (b ∷ bs) p q =
      let (sample, at, l) = slice-some (suc k + 4) hp_sample_len (b ∷ bs) (omega arith) in
      let (mask, made, five) = aws.new_mask-some hp sample l in
      masked hp k b bs mask sample at made five
