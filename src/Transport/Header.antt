-- ===== src/Transport/Header.antt =====
-- The parser of the long header against the layout of RFC 9000, section 17.2.
use quietquic.Prelude.{
  ℕ, zero, suc, ◌≤◌, ◌<◌, ◌≡◌, refl, ap, ◌∙◌, ◌↔◌, Bool, true, false, not, ◌&&◌, some, List, ◌∷◌,
  ◌++◌, arith, ◌==◌, ltb, bit_and, length, take, drop, length-append, take_prefix, All, subst,
  take-append-drop, length-take,
}
use quietquic.Selector.Bytes.{IsByte}
use quietquic.Transport.{peek_dcid}

-- A test of a byte, tried at every number under a bound.
passes_under : (ℕ → Bool) → ℕ → Bool
passes_under test zero = true
passes_under test (suc bound) = passes_under test bound && test bound

passes_under-lt :
    (test : ℕ → Bool) (bound x : ℕ) → x < bound → passes_under test bound ≡ true → test x ≡ true
unfolding passes_under
passes_under-lt test zero x lt passed = absurd (omega arith)
passes_under-lt test (suc bound) x lt passed = ground (arith, passes_under-lt test bound x)

same : Bool → Bool → Bool
same true b = b
same false b = not b

same_sound : (a b : Bool) → same a b ≡ true → a ≡ b
unfolding same
same_sound true b h = ground arith
same_sound false b h = ground arith

form_bit_table : passes_under (λ x. same (bit_and x 0x80 == 0) (ltb x 128)) 256 ≡ true
unfolding passes_under same
form_bit_table = refl

-- The high bit of a byte.
pub form_bit : (x : ℕ) → x < 256 → (bit_and x 0x80 == 0) ≡ ltb x 128
form_bit x h = same_sound _ _ (passes_under-lt _ 256 x h form_bit_table)

-- A long header that carries the connection ID: a flag byte with the high bit set, four bytes of
-- version, the length of the ID as a byte between 1 and 20, the ID, and any payload.
pub record LongHeader (datagram cid : List ℕ) : Type 0 where
  pub flags : ℕ
  pub v1 : ℕ
  pub v2 : ℕ
  pub v3 : ℕ
  pub v4 : ℕ
  pub payload : List ℕ
  pub layout : datagram ≡ flags ∷ v1 ∷ v2 ∷ v3 ∷ v4 ∷ length cid ∷ (cid ++ payload)
  pub long : 128 ≤ flags
  pub nonempty : 1 ≤ length cid
  pub short : length cid ≤ 20

-- The tests of the parser, with the bytes that it looks at in hand.
peek_parts :
    (a b c d e l : ℕ) (rest cid : List ℕ)
    → a < 256
    → peek_dcid (a ∷ b ∷ c ∷ d ∷ e ∷ l ∷ rest) ≡ some cid
    → (128 ≤ a) × (1 ≤ l) × (l ≤ 20) × (l ≤ length rest) × (cid ≡ take l rest)
unfolding peek_dcid
peek_parts a b c d e l rest cid h p = ground (arith, form_bit a h)

peek_of_parts :
    (a b c d e l : ℕ) (rest : List ℕ)
    → a < 256
    → 128 ≤ a
    → 1 ≤ l
    → l ≤ 20
    → l ≤ length rest
    → peek_dcid (a ∷ b ∷ c ∷ d ∷ e ∷ l ∷ rest) ≡ some (take l rest)
unfolding peek_dcid
peek_of_parts a b c d e l rest h long nonempty short fits = ground (arith, form_bit a h)

prefix_of_take :
    (l : ℕ) (rest cid : List ℕ)
    → cid ≡ take l rest
    → l ≤ length rest
    → (length cid ≡ l) × (cid ++ drop l rest ≡ rest)
prefix_of_take l rest cid e h = (
  omega (arith, ap (length {0}) e, length-take l rest),
  ap (λ c. c ++ drop l rest) e ∙ take-append-drop l rest,
)

peek_LongHeader :
    (datagram cid : List ℕ)
    → All IsByte datagram
    → peek_dcid datagram ≡ some cid
    → LongHeader datagram cid
unfolding peek_dcid
peek_LongHeader (a ∷ b ∷ c ∷ d ∷ e ∷ l ∷ rest) cid h p =
    let (long, nonempty, short, fits, cut) = peek_parts a b c d e l rest cid h.0 p in
    let (count, whole) = prefix_of_take l rest cid cut fits in
    record {
      flags = a;
      v1 = b;
      v2 = c;
      v3 = d;
      v4 = e;
      payload = drop l rest;
      layout = rw (count, whole) refl;
      long = long;
      nonempty = omega arith;
      short = omega arith;
    }
peek_LongHeader datagram cid h p = absurd (ground arith)

LongHeader-peek :
    (datagram cid : List ℕ)
    → All IsByte datagram
    → LongHeader datagram cid
    → peek_dcid datagram ≡ some cid
LongHeader-peek datagram cid h p =
    let flag = subst (All IsByte) p.layout h in
    let fits : length cid ≤ length (cid ++ p.payload) =
      omega (arith, length-append cid p.payload) in
    ap peek_dcid p.layout
    ∙ peek_of_parts p.flags p.v1 p.v2 p.v3 p.v4 (length cid) (cid ++ p.payload) flag.0 p.long
        p.nonempty p.short fits
    ∙ ap some (take_prefix (length cid) cid p.payload refl).0

-- A datagram yields a connection ID exactly if it is a long header that carries that ID; a short
-- header, a cut one, and an ID that is empty or longer than twenty bytes yield none.
pub peek_dcid_iff :
    (datagram cid : List ℕ)
    → All IsByte datagram
    → (peek_dcid datagram ≡ some cid) ↔ LongHeader datagram cid
peek_dcid_iff datagram cid h = (peek_LongHeader datagram cid h, LongHeader-peek datagram cid h)
