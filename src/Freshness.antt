-- ===== src/Freshness.antt =====
-- proto/src/freshness.rs: the coarse timestamp of the selector, and the acceptance window.
use quietquic.Prelude.{
  ℕ, ◌+◌, ◌-◌, ◌/◌, ◌%◌, ◌^◌, ◌≤◌, ◌<◌, ◌≡◌, ◌↔◌, Bool, true, ◌&&◌, arith, leb, min, Option, none,
  some,
}

abbrev pub u32_max : ℕ
u32_max = 2 ^ 32 - 1

-- u32::saturating_sub and u32::saturating_add
abbrev pub saturating_sub : ℕ → ℕ → ℕ
saturating_sub a b = a - b

abbrev pub saturating_add : ℕ → ℕ → ℕ
saturating_add a b = min (a + b) u32_max

abbrev pub window_minutes : ℕ
window_minutes = 2

-- `secs` is what `SystemTime::now().duration_since(UNIX_EPOCH)` returns, `none` before the epoch.
unfoldable pub now_minutes : Option ℕ → ℕ
now_minutes none = 0 / 60 % 2 ^ 32
now_minutes (some secs) = secs / 60 % 2 ^ 32

unfoldable pub is_fresh : ℕ → ℕ → ℕ → Bool
is_fresh freshness now window =
    leb (saturating_sub now window) freshness && leb freshness (saturating_add now window)

-- For values of type u32, a stamp is fresh exactly if it is at most `window` away from now.
pub is_fresh_iff :
    (freshness now window : ℕ)
    → freshness < 2 ^ 32
    → (is_fresh freshness now window ≡ true)
      ↔ ((now ≤ freshness + window) × (freshness ≤ now + window))
unfolding is_fresh
is_fresh_iff freshness now window h = ground arith
