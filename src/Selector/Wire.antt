-- ===== src/Selector/Wire.antt =====
-- The wire format of the selector: what is built can be parsed, what is parsed can be rebuilt, and
-- the comparison accepts exactly what the holder of the key builds.
use quietquic.Prelude.{
  ℕ, ◌<◌, ◌^◌, ◌≡◌, refl, ap, sym, ◌∙◌, ◌↔◌, true, some, List, [], ◌∷◌, ◌++◌, arith, bit_or,
  bit_xor, ==_iff, length, take, drop, length-append, length-take, length-drop, take_prefix,
  take_all, take-append-drop, All, All-take, All-drop, drop_split, bit_xor-eq-zero, bit_xor_self,
  bit_or-eq-zero,
}
use quietquic.Selector.Bytes.{
  IsByte, to_le_bytes, from_le_bytes, from_le_bytes-to_le_bytes, from_le_bytes-lt,
  to_le_bytes-from_le_bytes,
}
use quietquic.Selector.{
  Blake3, DcidParts, parse_dcid, fold_diff, compute_selector, build_dcid, selector_matches,
}

fold_diff-zero :
    (acc : ℕ) (xs ys : List ℕ)
    → length xs ≡ length ys
    → fold_diff acc xs ys ≡ 0
    → (acc ≡ 0) × (xs ≡ ys)
unfolding fold_diff
fold_diff-zero acc [] [] l e = (e, refl)
fold_diff-zero acc [] (y ∷ ys) l e = absurd (omega arith)
fold_diff-zero acc (x ∷ xs) [] l e = absurd (omega arith)
fold_diff-zero acc (x ∷ xs) (y ∷ ys) l e =
    let (head, tail) = fold_diff-zero (bit_or acc (bit_xor x y)) xs ys (omega arith) e in
    let (before, same) = bit_or-eq-zero acc (bit_xor x y) head in
    (before, cc (bit_xor-eq-zero x y same))

fold_diff_self : (xs : List ℕ) → fold_diff 0 xs xs ≡ 0
unfolding fold_diff
fold_diff_self [] = refl
fold_diff_self (x ∷ xs) = rw (bit_xor_self x) (fold_diff_self xs)

module _ (blake3 : Blake3) (psk : List ℕ) where
  pub length-compute_selector :
      (nonce : List ℕ) (freshness : ℕ) → length (compute_selector blake3 psk nonce freshness) ≡ 8
  unfolding compute_selector
  length-compute_selector nonce freshness =
      omega (arith, length-take 8 (blake3.keyed_hash psk _), blake3.length-keyed_hash psk _)

  -- The constant-time comparison decides equality with the selector of the key.
  pub selector_matches_iff :
      (parts : DcidParts)
      → length parts.selector ≡ 8
      → (selector_matches blake3 psk parts ≡ true)
        ↔ (compute_selector blake3 psk parts.nonce parts.freshness ≡ parts.selector)
  unfolding selector_matches
  selector_matches_iff parts l = (sound, complete)
    where
      expected : List ℕ
      expected = compute_selector blake3 psk parts.nonce parts.freshness

      sound : selector_matches blake3 psk parts ≡ true → expected ≡ parts.selector
      sound h =
          (fold_diff-zero 0 expected parts.selector
            (length-compute_selector parts.nonce parts.freshness ∙ sym l) ((==_iff _ _).0 h)).1

      complete : expected ≡ parts.selector → selector_matches blake3 psk parts ≡ true
      complete e = (==_iff _ _).1 (rw (← e) (fold_diff_self expected))

-- What the parser returns: the three fields, cut out of exactly twenty bytes.
record IsParsed (dcid : List ℕ) (parts : DcidParts) : Type 0 where
  long : length dcid ≡ 20
  nonce : parts.nonce ≡ take 8 dcid
  freshness : parts.freshness ≡ from_le_bytes (take 4 (drop 8 dcid))
  selector : parts.selector ≡ take 8 (drop 12 dcid)

parse_dcid-IsParsed :
    (dcid : List ℕ) (parts : DcidParts) → parse_dcid dcid ≡ some parts → IsParsed dcid parts
unfolding parse_dcid
parse_dcid-IsParsed dcid parts e = ground arith

pub parse_dcid-length :
    (dcid : List ℕ) (parts : DcidParts) → parse_dcid dcid ≡ some parts → length dcid ≡ 20
parse_dcid-length dcid parts e = (parse_dcid-IsParsed dcid parts e).long

-- A parsed identifier splits into fields of eight, four and eight bytes, which together are the
-- identifier again.
pub parse_dcid_fields :
    (dcid : List ℕ) (parts : DcidParts)
    → All IsByte dcid
    → parse_dcid dcid ≡ some parts
    → (parts.nonce ++ (to_le_bytes parts.freshness ++ parts.selector) ≡ dcid)
      × (length parts.nonce ≡ 8)
      × (parts.freshness < 2 ^ 32)
      × (length parts.selector ≡ 8)
parse_dcid_fields dcid parts h e = (
  ap (λ n. n ++ (to_le_bytes parts.freshness ++ parts.selector)) parsed.nonce
      ∙ ap (λ t. take 8 dcid ++ (t ++ parts.selector)) minute
      ∙ ap (λ s. take 8 dcid ++ (take 4 rest ++ s)) tail
      ∙ ap (λ r. take 8 dcid ++ r) (take-append-drop 4 rest)
      ∙ take-append-drop 8 dcid,
  omega (arith, ap (length {0}) parsed.nonce, length-take 8 dcid, parsed.long),
  rw parsed.freshness (from_le_bytes-lt (take 4 rest) four bytes),
  omega (arith, ap (length {0}) parsed.selector, length-take 8 (drop 12 dcid), eight),
)
  where
    parsed : IsParsed dcid parts
    parsed = parse_dcid-IsParsed dcid parts e

    rest : List ℕ
    rest = drop 8 dcid

    four : length (take 4 rest) ≡ 4
    four = omega (arith, length-take 4 rest, length-drop 8 dcid, parsed.long)

    eight : length (drop 12 dcid) ≡ 8
    eight = omega (arith, length-drop 12 dcid, parsed.long)

    bytes : All IsByte (take 4 rest)
    bytes = All-take IsByte 4 rest (All-drop IsByte 8 dcid h)

    minute : to_le_bytes parts.freshness ≡ take 4 rest
    minute = ap to_le_bytes parsed.freshness ∙ to_le_bytes-from_le_bytes (take 4 rest) four bytes

    tail : parts.selector ≡ drop 4 rest
    tail =
        parsed.selector
        ∙ take_all 8 (drop 12 dcid) (omega (arith, eight))
        ∙ drop_split 8 4 12 dcid (omega arith)

same_selector :
    {nonce selector : List ℕ} {freshness : ℕ} {parts : DcidParts}
    → some (record { nonce = nonce; freshness = freshness; selector = selector }) ≡ some parts
    → selector ≡ parts.selector
same_selector e = ground arith

module _ (blake3 : Blake3) (psk : List ℕ) where
  -- What a client builds, the server parses into the same nonce and minute and the selector of the
  -- client's key.
  pub parse_dcid-build_dcid :
      (nonce : List ℕ) (freshness : ℕ)
      → length nonce ≡ 8
      → freshness < 2 ^ 32
      → parse_dcid (build_dcid blake3 psk nonce freshness)
        ≡ some (record {
          nonce = nonce;
          freshness = freshness;
          selector = compute_selector blake3 psk nonce freshness;
        })
  unfolding parse_dcid build_dcid
  parse_dcid-build_dcid nonce freshness l f =
      rw (long, (take_prefix 8 nonce rest l).0, (take_prefix 8 nonce rest l).1, tail, stamp)
    where
      selector : List ℕ
      selector = compute_selector blake3 psk nonce freshness

      rest : List ℕ
      rest = to_le_bytes freshness ++ selector

      long : length (nonce ++ rest) ≡ 20
      long =
          omega
            (arith, length-append nonce rest, length-compute_selector blake3 psk nonce freshness, l)

      tail : take 8 (drop 12 (nonce ++ rest)) ≡ selector
      tail =
          ap (take 8) (
            drop_split 8 4 12 (nonce ++ rest) (omega arith)
            ∙ ap (drop 4) (take_prefix 8 nonce rest l).1)
          ∙ take_all 8 selector (omega (arith, length-compute_selector blake3 psk nonce freshness))

      stamp : from_le_bytes (to_le_bytes freshness) ≡ freshness
      stamp = from_le_bytes-to_le_bytes freshness f

  -- A well-formed identifier matches a key exactly if it is the one that the holder of the key
  -- builds for its nonce and minute.
  pub selector_matches-build_dcid_iff :
      (dcid : List ℕ) (parts : DcidParts)
      → All IsByte dcid
      → parse_dcid dcid ≡ some parts
      → (selector_matches blake3 psk parts ≡ true)
        ↔ (build_dcid blake3 psk parts.nonce parts.freshness ≡ dcid)
  unfolding build_dcid
  selector_matches-build_dcid_iff dcid parts h e = (sound, complete)
    where
      fields :
          (parts.nonce ++ (to_le_bytes parts.freshness ++ parts.selector) ≡ dcid)
          × (length parts.nonce ≡ 8)
          × (parts.freshness < 2 ^ 32)
          × (length parts.selector ≡ 8)
      fields = parse_dcid_fields dcid parts h e

      selector : List ℕ
      selector = compute_selector blake3 psk parts.nonce parts.freshness

      sound :
          selector_matches blake3 psk parts ≡ true
          → parts.nonce ++ (to_le_bytes parts.freshness ++ selector) ≡ dcid
      sound m = rw ((selector_matches_iff blake3 psk parts fields.3).0 m) fields.0

      complete :
          build_dcid blake3 psk parts.nonce parts.freshness ≡ dcid
          → selector_matches blake3 psk parts ≡ true
      complete b = (selector_matches_iff blake3 psk parts fields.3).1 (
          same_selector (
            sym (parse_dcid-build_dcid parts.nonce parts.freshness fields.1 fields.2)
            ∙ ap parse_dcid b
            ∙ e))
