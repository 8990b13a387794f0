-- ===== src/RateLimit/Bucket.antt =====
-- `TokenBucket` of proto/src/ratelimit.rs, over the floats and instants of the platform.
pub mod Budget
use quietquic.Prelude.{
  ℕ, zero, ◌+◌, ◌^◌, ◌≤◌, ◌≡◌, ◌↔◌, Bool, true, false, Option, none, some, if◌then◌else◌,
}

-- f64 and std::time::Instant. The values are those that are not NaN; `floor` is the whole part, and
-- 0 below zero. Up to 2^53 subtracting one from a number that is at least one is exact.
pub record Floats : Type 1 where
  pub F : Type 0
  pub Instant : Type 0
  pub zero_f : F
  pub one_f : F
  -- The literals of the source are whole numbers.
  pub of_nat : ℕ → F
  pub add : F → F → F
  pub sub : F → F → F
  pub mul : F → F → F
  pub min_f : F → F → F
  pub lt : F → F → Bool
  pub le : F → F → Bool
  -- now.saturating_duration_since(last).as_secs_f64()
  pub seconds_since : Instant → Instant → F
  pub floor : F → ℕ
  pub le-one_iff : (x : F) → (le one_f x ≡ true) ↔ (1 ≤ floor x)
  pub floor-sub_one : (x : F) → 1 ≤ floor x → floor x ≤ 2 ^ 53 → floor (sub x one_f) + 1 ≡ floor x
  pub floor-min_le : (x y : F) → floor (min_f x y) ≤ floor y
  pub floor-of_nat : (n : ℕ) → n ≤ 2 ^ 53 → floor (of_nat n) ≡ n
  pub since_self : (t : Instant) → lt zero_f (seconds_since t t) ≡ false

pub record TokenBucket (float : Floats) : Type 0 where
  pub capacity : float.F
  pub refill_per_sec : float.F
  pub tokens : float.F
  pub last_update : Option float.Instant

module _ (float : Floats) where
  open float use {F, Instant, zero_f, one_f, add, sub, mul, min_f, lt, le, seconds_since}

  unfoldable pub new : F → F → TokenBucket float
  new capacity refill_per_sec = record {
    capacity = capacity;
    refill_per_sec = refill_per_sec;
    tokens = capacity;
    last_update = none;
  }

  -- The `match` on the last update.
  unfoldable pub refill_since : Option Instant → Instant → TokenBucket float → TokenBucket float
  refill_since none now b = record b { last_update = some now }
  refill_since (some last) now b =
      let elapsed = seconds_since now last in
      if lt zero_f elapsed
      then record b {
        tokens = min_f (add b.tokens (mul elapsed b.refill_per_sec)) b.capacity;
        last_update = some now;
      }
      else b

  unfoldable pub refill : Instant → TokenBucket float → TokenBucket float
  unfolding refill_since
  refill now b = refill_since b.last_update now b

  unfoldable pub try_take : TokenBucket float → Instant → TokenBucket float × Bool
  unfolding refill
  try_take b now =
      let b' = refill now b in
      if le one_f b'.tokens then (record b' { tokens = sub b'.tokens one_f }, true) else (b', false)
