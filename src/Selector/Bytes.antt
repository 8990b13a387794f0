-- ===== src/Selector/Bytes.antt =====
-- u32::to_le_bytes and u32::from_le_bytes.
use quietquic.Prelude.{ℕ, ◌+◌, ◌*◌, ◌/◌, ◌%◌, ◌^◌, ◌<◌, ◌≡◌, List, [], ◌∷◌, arith, length, All}

abbrev pub IsByte : ℕ → Type 0
IsByte b = b < 256

abbrev pub to_le_bytes : ℕ → List ℕ
to_le_bytes x = x % 256 ∷ x / 256 % 256 ∷ x / 65536 % 256 ∷ x / 16777216 % 256 ∷ []

unfoldable pub from_le_bytes : List ℕ → ℕ
from_le_bytes [] = 0
from_le_bytes (b ∷ bs) = b + 256 * from_le_bytes bs

pub from_le_bytes-to_le_bytes : (x : ℕ) → x < 2 ^ 32 → from_le_bytes (to_le_bytes x) ≡ x
unfolding from_le_bytes
from_le_bytes-to_le_bytes x h = omega arith

pub to_le_bytes-from_le_bytes :
    (bs : List ℕ) → length bs ≡ 4 → All IsByte bs → to_le_bytes (from_le_bytes bs) ≡ bs
unfolding from_le_bytes
to_le_bytes-from_le_bytes (a ∷ b ∷ c ∷ d ∷ []) e h = ground arith
to_le_bytes-from_le_bytes bs e h = absurd (omega arith)

pub from_le_bytes-lt : (bs : List ℕ) → length bs ≡ 4 → All IsByte bs → from_le_bytes bs < 2 ^ 32
unfolding from_le_bytes
from_le_bytes-lt (a ∷ b ∷ c ∷ d ∷ []) e h = omega arith
from_le_bytes-lt bs e h = absurd (omega arith)
