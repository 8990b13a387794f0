-- ===== src/RateLimit/Bucket/Budget.antt =====
-- How many packets a bucket lets through.
use quietquic.Prelude.{
  ℕ, zero, leb, suc, ◌-◌, ◌^◌, ◌≤◌, ◌≡◌, refl, ap, min, false, Option, none, some, arith,
  if◌then◌else◌, Option-cases, Bool-cases, inl, inr,
}
use quietquic.RateLimit.Bucket.{Floats, TokenBucket, new, refill_since, refill, try_take}

module _ (float : Floats) where
  open float use {Instant, zero_f, one_f, lt, le, floor, seconds_since}

  -- A bucket never holds more than its capacity.
  abbrev pub IsBounded : TokenBucket float → Type 0
  IsBounded b = floor b.tokens ≤ floor b.capacity

  -- Subtracting one is exact up to here.
  abbrev pub IsExact : TokenBucket float → Type 0
  IsExact b = floor b.capacity ≤ 2 ^ 53

  pub new-IsBounded : (capacity rate : float.F) → IsBounded (new float capacity rate)
  unfolding new
  new-IsBounded capacity rate = omega arith

  capacity-refill :
      (now : Instant) (b : TokenBucket float) → (refill float now b).capacity ≡ b.capacity
  unfolding refill
  capacity-refill now b = ground arith

  pub capacity-try_take :
      (b : TokenBucket float) (now : Instant) → (try_take float b now).0.capacity ≡ b.capacity
  unfolding try_take
  capacity-try_take b now = ground arith

  pub refill-IsBounded :
      (now : Instant) (b : TokenBucket float) → IsBounded b → IsBounded (refill float now b)
  unfolding refill
  refill-IsBounded now b h = ground (
    arith,
    float.floor-min_le (float.add b.tokens (float.mul (elapsed b.last_update) b.refill_per_sec))
        b.capacity,
  )
    where
      elapsed : Option Instant → float.F
      elapsed none = zero_f
      elapsed (some last) = seconds_since now last

  le_one-floor : (x : float.F) → le one_f x ≡ leb 1 (floor x)
  le_one-floor x = grind (arith, float.le-one_iff x)

  -- `try_take` in whole tokens: it succeeds exactly if the refilled bucket holds one, and takes it.
  pub try_take_lem :
      (b : TokenBucket float) (now : Instant)
      → IsBounded b
      → IsExact b
      → let n = floor (refill float now b).tokens in
        ((try_take float b now).1 ≡ leb 1 n) × (floor (try_take float b now).0.tokens ≡ n - 1)
  unfolding try_take
  try_take_lem b now h x = ground (
    arith,
    le_one-floor (refill float now b).tokens,
    float.floor-sub_one (refill float now b).tokens,
    refill-IsBounded now b h,
    capacity-refill now b,
  )

  pub try_take-IsBounded :
      (b : TokenBucket float) (now : Instant)
      → IsBounded b
      → IsExact b
      → IsBounded (try_take float b now).0
  try_take-IsBounded b now h x = ground (
    arith,
    (try_take_lem b now h x).1,
    refill-IsBounded now b h,
    capacity-refill now b,
    capacity-try_take b now,
  )

  -- At its own instant the bucket gains nothing.
  abbrev Settled : Instant → TokenBucket float → Type 0
  Settled now b =
      (last : Instant) × (b.last_update ≡ some last) × (lt zero_f (seconds_since now last) ≡ false)

  refill-Settled : (now : Instant) (b : TokenBucket float) → Settled now (refill float now b)
  unfolding refill refill_since
  refill-Settled now b = elim (Option-cases b.last_update) [
    | inl e ↦ (now, ground arith, float.since_self now)
    | inr (last, e) ↦ elim (Bool-cases (lt zero_f (seconds_since now last))) [
      | inl later ↦ (now, ground arith, float.since_self now)
      | inr early ↦ (last, ground arith, early)
    ]
  ]

  try_take-Settled : (b : TokenBucket float) (now : Instant) → Settled now (try_take float b now).0
  unfolding try_take
  try_take-Settled b now =
      let (last, e, early) = refill-Settled now b in (last, ground arith, early)

  refill-Settled_once :
      (now : Instant) (b : TokenBucket float) → Settled now b → refill float now b ≡ b
  unfolding refill refill_since
  refill-Settled_once now b s = ground arith

  -- `k` packets in a row at one instant: the bucket, and how many of them pass.
  unfoldable pub take_many : ℕ → Instant → TokenBucket float → TokenBucket float × ℕ
  take_many zero now b = (b, 0)
  take_many (suc k) now b =
      let (b1, ok) = try_take float b now in
      let (b2, n) = take_many k now b1 in (b2, if ok then suc n else n)

  take_many-Settled :
      (k : ℕ) (now : Instant) (b : TokenBucket float)
      → IsBounded b
      → IsExact b
      → Settled now b
      → (take_many k now b).1 ≡ min k (floor b.tokens)
  unfolding take_many
  take_many-Settled zero now b h x s = omega arith
  take_many-Settled (suc k) now b h x s = ground (
    arith,
    refill-Settled_once now b s,
    try_take_lem b now h x,
    take_many-Settled k now (try_take float b now).0 (try_take-IsBounded b now h x)
        (rw (capacity-try_take b now) x) (try_take-Settled b now),
  )

  try_take-refill :
      (b : TokenBucket float) (now : Instant)
      → try_take float (refill float now b) now ≡ try_take float b now
  unfolding try_take
  try_take-refill b now =
      rw (refill-Settled_once now (refill float now b) (refill-Settled now b)) refl

  take_many-refill :
      (k : ℕ) (now : Instant) (b : TokenBucket float)
      → (take_many k now (refill float now b)).1 ≡ (take_many k now b).1
  unfolding take_many
  take_many-refill zero now b = refl
  take_many-refill (suc k) now b = rw (try_take-refill b now) refl

  -- Of `k` packets at one instant exactly as many pass as the refilled bucket has whole tokens, and
  -- never more than its capacity.
  pub take_many_burst :
      (k : ℕ) (now : Instant) (b : TokenBucket float)
      → IsBounded b
      → IsExact b
      → ((take_many k now b).1 ≡ min k (floor (refill float now b).tokens))
        × ((take_many k now b).1 ≤ floor b.capacity)
  take_many_burst k now b h x =
      let full = refill-IsBounded now b h in
      let count =
        take_many-Settled k now (refill float now b) full (rw (capacity-refill now b) x)
          (refill-Settled now b) in
      omega (arith, count, take_many-refill k now b, full, ap floor (capacity-refill now b))
