-- ===== src/InitialKeys/Wire.antt =====
-- The byte strings of proto/src/initial_keys.rs: numbers in network order, slices, and masks that are
-- written over a part of a packet.
use quietquic.Prelude.{
  ℕ, zero, suc, ◌+◌, ◌/◌, ◌%◌, ◌^◌, ◌≤◌, ◌<◌, ◌≡◌, refl, ap, Option, none, some, List, [], ◌∷◌,
  arith, leb, if◌then◌else◌, length, take, drop, bit_xor, bit_xor_twice, bit_xor_cancel,
}
use mathlib.Core.List.{cons-eq-cons}
use native.Mathlib.Nat.{pow-suc}

-- `to_be_bytes` of a number of n bytes, before the bytes acc.
unfoldable pub to_be_bytes : ℕ → ℕ → List ℕ → List ℕ
to_be_bytes zero x acc = acc
to_be_bytes (suc n) x acc = to_be_bytes n (x / 256) (x % 256 ∷ acc)

-- The loop `*n ^= *p` over two byte strings: it ends with the shorter one.
unfoldable pub xor_bytes : List ℕ → List ℕ → List ℕ
xor_bytes ms [] = []
xor_bytes [] (b ∷ bs) = b ∷ bs
xor_bytes (m ∷ ms) (b ∷ bs) = bit_xor b m ∷ xor_bytes ms bs

-- The same from an offset.
unfoldable pub xor_from : ℕ → List ℕ → List ℕ → List ℕ
unfolding xor_bytes
xor_from zero ms bs = xor_bytes ms bs
xor_from (suc n) ms [] = []
xor_from (suc n) ms (b ∷ bs) = b ∷ xor_from n ms bs

-- `packet[from..from + n]`, which panics where the packet is shorter.
unfoldable pub slice : ℕ → ℕ → List ℕ → Option (List ℕ)
slice from n packet =
    if leb (from + n) (length packet) then some (take n (drop from packet)) else none

length-xor_bytes : (ms bs : List ℕ) → length (xor_bytes ms bs) ≡ length bs
unfolding xor_bytes
length-xor_bytes ms [] = refl
length-xor_bytes [] (b ∷ bs) = refl
length-xor_bytes (m ∷ ms) (b ∷ bs) = ap (λ n. suc n) (length-xor_bytes ms bs)

pub length-xor_from : (n : ℕ) (ms bs : List ℕ) → length (xor_from n ms bs) ≡ length bs
unfolding xor_from
length-xor_from zero ms bs = length-xor_bytes ms bs
length-xor_from (suc n) ms [] = refl
length-xor_from (suc n) ms (b ∷ bs) = ap (λ k. suc k) (length-xor_from n ms bs)

xor_bytes_twice : (ms bs : List ℕ) → xor_bytes ms (xor_bytes ms bs) ≡ bs
unfolding xor_bytes
xor_bytes_twice ms [] = refl
xor_bytes_twice [] (b ∷ bs) = refl
xor_bytes_twice (m ∷ ms) (b ∷ bs) = rw (bit_xor_twice b m, xor_bytes_twice ms bs) refl

-- The same mask twice gives the packet back.
pub xor_from_twice : (n : ℕ) (ms bs : List ℕ) → xor_from n ms (xor_from n ms bs) ≡ bs
unfolding xor_from
xor_from_twice zero ms bs = xor_bytes_twice ms bs
xor_from_twice (suc n) ms [] = refl
xor_from_twice (suc n) ms (b ∷ bs) = ap (λ t. b ∷ t) (xor_from_twice n ms bs)

drop-xor_bytes : (d : ℕ) (ms bs : List ℕ) → length ms ≤ d → drop d (xor_bytes ms bs) ≡ drop d bs
unfolding xor_bytes
drop-xor_bytes d ms [] h = refl
drop-xor_bytes d [] (b ∷ bs) h = refl
drop-xor_bytes zero (m ∷ ms) (b ∷ bs) h = absurd (omega arith)
drop-xor_bytes (suc d) (m ∷ ms) (b ∷ bs) h = drop-xor_bytes d ms bs (omega arith)

pub drop-xor_from :
    (n m : ℕ) (ms bs : List ℕ) → n + length ms ≤ m → drop m (xor_from n ms bs) ≡ drop m bs
unfolding xor_from
drop-xor_from zero m ms bs h = drop-xor_bytes m ms bs (omega arith)
drop-xor_from (suc n) m ms [] h = refl
drop-xor_from (suc n) zero ms (b ∷ bs) h = absurd (omega arith)
drop-xor_from (suc n) (suc m) ms (b ∷ bs) h = drop-xor_from n m ms bs (omega arith)

-- A slice beyond the mask is the same as before.
pub slice-xor_from :
    (n m k : ℕ) (ms bs : List ℕ) → n + length ms ≤ m → slice m k (xor_from n ms bs) ≡ slice m k bs
unfolding slice
slice-xor_from n m k ms bs h = rw (length-xor_from n ms bs, drop-xor_from n m ms bs h) refl

xor_bytes_cancel :
    (bs xs ys : List ℕ)
    → length xs ≡ length bs
    → length ys ≡ length bs
    → xor_bytes xs bs ≡ xor_bytes ys bs
    → xs ≡ ys
unfolding xor_bytes
xor_bytes_cancel [] [] [] p q e = refl
xor_bytes_cancel [] [] (y ∷ ys) p q e = absurd (omega arith)
xor_bytes_cancel [] (x ∷ xs) ys p q e = absurd (omega arith)
xor_bytes_cancel (b ∷ bs) [] ys p q e = absurd (omega arith)
xor_bytes_cancel (b ∷ bs) (x ∷ xs) [] p q e = absurd (omega arith)
xor_bytes_cancel (b ∷ bs) (x ∷ xs) (y ∷ ys) p q e =
    let (head, tail) = cons-eq-cons.0 e in
    let same = bit_xor_cancel b x y head in
    let rest = xor_bytes_cancel bs xs ys (omega arith) (omega arith) tail in cc (same, rest)

-- What is masked tells the mask, if it covers the rest.
pub xor_from_cancel :
    (n : ℕ) (bs xs ys : List ℕ)
    → n + length xs ≡ length bs
    → n + length ys ≡ length bs
    → xor_from n xs bs ≡ xor_from n ys bs
    → xs ≡ ys
unfolding xor_from
xor_from_cancel zero bs xs ys p q e = xor_bytes_cancel bs xs ys (omega arith) (omega arith) e
xor_from_cancel (suc n) [] xs ys p q e = absurd (omega arith)
xor_from_cancel (suc n) (b ∷ bs) xs ys p q e =
    xor_from_cancel n bs xs ys (omega arith) (omega arith) (cons-eq-cons.0 e).1

pub length-to_be_bytes : (n x : ℕ) (acc : List ℕ) → length (to_be_bytes n x acc) ≡ n + length acc
unfolding to_be_bytes
length-to_be_bytes zero x acc = omega arith
length-to_be_bytes (suc n) x acc = omega (arith, length-to_be_bytes n (x / 256) (x % 256 ∷ acc))

pub to_be_bytes_inj :
    (n x y : ℕ) (acc acc' : List ℕ)
    → x < 256 ^ n
    → y < 256 ^ n
    → to_be_bytes n x acc ≡ to_be_bytes n y acc'
    → (x ≡ y) × (acc ≡ acc')
unfolding to_be_bytes
to_be_bytes_inj zero x y acc acc' p q e = (omega arith, e)
to_be_bytes_inj (suc n) x y acc acc' p q e =
    let (high, low) =
      to_be_bytes_inj n (x / 256) (y / 256) (x % 256 ∷ acc) (y % 256 ∷ acc')
        (omega (arith, pow-suc 256 n)) (omega (arith, pow-suc 256 n)) e in
    let (digit, rest) = cons-eq-cons.0 low in (omega arith, rest)
