-- ===== src/Tests/Limits.antt =====
-- Witnesses for the token bucket and the rate limiter, on a limiter that has just been made.
use quietquic.RateLimit.{default}
use quietquic.RateLimit.Check.{default-capped}
use quietquic.HashMap
use quietquic.HashSet.{contains}
use quietquic.Prelude.{ℕ, ◌≤◌, ◌≡◌, min, refl, Bool, some, [], ◌∷◌, arith, ℕ_discrete}
use quietquic.RateLimit.{RateLimiter, with_params, check, touch_source}
use quietquic.RateLimit.Bucket.{TokenBucket, new, refill}
use quietquic.RateLimit.Bucket.Budget.{take_many, take_many_burst}
use quietquic.RateLimit.Check.{
  Checked, Within, check-Checked, check-Within, check_many, check_many_capped,
}
use quietquic.RateLimit.Order.{Tracks, Touched, touch_source-Touched}
use quietquic.Tests.{floats, limiter}

abbrev bucket : TokenBucket floats
bucket = record { capacity = 3; refill_per_sec = 1; tokens = 1; last_update = some 10 }

take_many_burst_example :
    ((take_many floats 5 11 bucket).1 ≡ min 5 (refill floats 11 bucket).tokens)
    × ((take_many floats 5 11 bucket).1 ≤ 3)
take_many_burst_example = take_many_burst floats 5 11 bucket (omega arith) (omega arith)

pub limiter-Tracks : Tracks floats ℕ_discrete limiter []
unfolding with_params HashMap.get contains
limiter-Tracks = record {
  strung = record { segment = tt; head = refl; tail = refl; simple = tt };
  covers = λ k. refl;
  distinct = tt;
  count = refl;
}

touch_source-Touched_example :
    (s : RateLimiter floats ℕ) × (b : TokenBucket floats) × (touch_source floats ℕ_discrete 1
        limiter
      ≡ some (s, b))
    × Touched floats ℕ_discrete 1 limiter s [] b
touch_source-Touched_example = touch_source-Touched floats ℕ_discrete 1 limiter [] limiter-Tracks

check-Checked_example :
    (s : RateLimiter floats ℕ) × (ok : Bool) × (check floats ℕ_discrete 1 10 limiter ≡ some (s, ok))
    × Checked floats ℕ_discrete 1 10 limiter s [] ok
check-Checked_example = check-Checked floats ℕ_discrete 1 10 limiter [] limiter-Tracks

check-Within_example :
    (s : RateLimiter floats ℕ) × (ok : Bool) × (check floats ℕ_discrete 1 10 limiter ≡ some (s, ok))
    × Within floats ℕ_discrete s
unfolding with_params
check-Within_example = check-Within floats ℕ_discrete 1 10 limiter [] limiter-Tracks (omega arith)

check_many_capped_example :
    (s : RateLimiter floats ℕ) × (n : ℕ) × (check_many floats ℕ_discrete
        (1 ∷ 2 ∷ 3 ∷ 4 ∷ [])
        10
        limiter
      ≡ some (s, n))
    × (n ≤ (refill floats 10 limiter.global).tokens)
    × (n ≤ limiter.global.capacity)
unfolding with_params new
check_many_capped_example =
    check_many_capped floats ℕ_discrete (1 ∷ 2 ∷ 3 ∷ 4 ∷ []) 10 limiter [] limiter-Tracks
      (omega arith) (omega arith)

default-capped_example :
    (s : RateLimiter floats ℕ) × (n : ℕ) × (check_many floats ℕ_discrete
        (1 ∷ 1 ∷ 2 ∷ [])
        10
        (default floats ℕ_discrete)
      ≡ some (s, n))
    × (n ≤ 2048)
default-capped_example = default-capped floats ℕ_discrete (1 ∷ 1 ∷ 2 ∷ []) 10
