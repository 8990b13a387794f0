-- ===== src/RateLimit.antt =====
-- proto/src/ratelimit.rs: token buckets, and the limiter that keeps one for the whole server and one
-- for each recent source, in an intrusive doubly linked list by recency.
pub mod Bucket
pub mod Links
pub mod Lru
pub mod Order
pub mod Check
use quietquic.HashMap
use quietquic.Prelude.{
  ℕ, ◌≤◌, max, Bool, true, false, Option, none, some, ◌>>=◌, List, [], leb, length, if◌then◌else◌,
}
use Bucket.{Floats, TokenBucket, try_take}

-- Instances of `IpAddr` are the keys `K`.
pub record SourceEntry (float : Floats) (K : Type 0) : Type 0 where
  pub bucket : TokenBucket float
  pub older : Option K
  pub newer : Option K

pub record RateLimiter (float : Floats) (K : Type 0) : Type 0 where
  pub global : TokenBucket float
  pub per_source : List (K × SourceEntry float K)
  pub lru_head : Option K
  pub lru_tail : Option K
  pub per_source_capacity : float.F
  pub per_source_refill : float.F
  pub max_tracked : ℕ

abbrev pub max_tracked_sources : ℕ
max_tracked_sources = 4096

module _ (float : Floats) {K : Type 0} (dec : Discrete K) where
  unfoldable pub with_params : float.F → float.F → float.F → float.F → ℕ → RateLimiter float K
  with_params global_capacity global_refill per_source_capacity per_source_refill max_tracked =
      record {
        global = Bucket.new float global_capacity global_refill;
        per_source = [];
        lru_head = none;
        lru_tail = none;
        per_source_capacity = per_source_capacity;
        per_source_refill = per_source_refill;
        max_tracked = max_tracked;
      }

  -- RateLimiter::new, with the default parameters.
  unfoldable pub default : RateLimiter float K
  unfolding with_params
  default =
      with_params (float.of_nat 2048) (float.of_nat 512) (float.of_nat 32) (float.of_nat 8)
        max_tracked_sources

  -- A write through `get_mut(key).expect(..)`: `none` is the panic on a missing key.
  unfoldable pub write :
      K
      → (SourceEntry float K → SourceEntry float K)
      → RateLimiter float K
      → Option (RateLimiter float K)
  write k f r = do
    _ ← HashMap.get dec k r.per_source
    some (record r { per_source = HashMap.modify dec k f r.per_source })

  -- The first `match` of `detach`.
  unfoldable pub unlink_older :
      Option K → Option K → RateLimiter float K → Option (RateLimiter float K)
  unfolding write
  unlink_older (some ip) newer r = write ip (λ e. record e { newer = newer }) r
  unlink_older none newer r = some (record r { lru_head = newer })

  -- Its second one.
  unfoldable pub unlink_newer :
      Option K → Option K → RateLimiter float K → Option (RateLimiter float K)
  unfolding write
  unlink_newer older (some ip) r = write ip (λ e. record e { older = older }) r
  unlink_newer older none r = some (record r { lru_tail = older })

  unfoldable pub detach : K → RateLimiter float K → Option (RateLimiter float K)
  unfolding unlink_older unlink_newer
  detach src r = do
    entry ← HashMap.get dec src r.per_source
    r1 ← unlink_older entry.older entry.newer r
    r2 ← unlink_newer entry.older entry.newer r1
    write src (λ e. record e { older = none; newer = none }) r2

  -- The `if let` of `attach_newest`.
  unfoldable pub link_tail : Option K → K → RateLimiter float K → Option (RateLimiter float K)
  unfolding write
  link_tail (some tail) src r = write tail (λ e. record e { newer = some src }) r
  link_tail none src r = some (record r { lru_head = some src })

  unfoldable pub attach_newest : K → RateLimiter float K → Option (RateLimiter float K)
  unfolding link_tail
  attach_newest src r = do
    let old_tail = r.lru_tail
    r1 ← write src (λ e. record e { older = old_tail; newer = none }) r
    r2 ← link_tail old_tail src r1
    some (record r2 { lru_tail = some src })

  -- The eviction of the least recently used source, if the list has one.
  unfoldable pub evict : Option K → RateLimiter float K → Option (RateLimiter float K)
  unfolding detach
  evict none r = some r
  evict (some oldest) r = do
    r1 ← detach oldest r
    some (record r1 { per_source = HashMap.remove dec oldest r1.per_source })

  unfoldable pub make_room : RateLimiter float K → Option (RateLimiter float K)
  unfolding evict
  make_room r =
      if leb (max r.max_tracked 1) (length r.per_source) then evict r.lru_head r else some r

  -- The branch of `touch_source` for a source that has no entry.
  unfoldable pub add_source : K → RateLimiter float K → Option (RateLimiter float K)
  unfolding make_room
  add_source src r = do
    r1 ← make_room r
    let entry : SourceEntry float K = record {
      bucket = Bucket.new float r1.per_source_capacity r1.per_source_refill;
      older = none;
      newer = none;
    }
    some (record r1 { per_source = HashMap.insert dec src entry r1.per_source })

  unfoldable pub find_source : K → RateLimiter float K → Option (RateLimiter float K)
  unfolding add_source detach
  find_source src r = elim (HashMap.get dec src r.per_source) [
    | some _ ↦ detach src r
    | none ↦ add_source src r
  ]

  -- The limiter after the call, and the bucket that the returned reference points to.
  unfoldable pub touch_source :
      K → RateLimiter float K → Option (RateLimiter float K × TokenBucket float)
  touch_source src r = do
    r1 ← find_source src r
    r2 ← attach_newest src r1
    entry ← HashMap.get dec src r2.per_source
    some (r2, entry.bucket)

  -- `try_take` on the bucket behind that reference, written back.
  unfoldable pub take_from :
      K → float.Instant → RateLimiter float K → TokenBucket float → RateLimiter float K × Bool
  take_from src now r bucket =
      let (taken, ok) = try_take float bucket now in
      (
        record r {
          per_source = HashMap.modify dec src (λ e. record e { bucket = taken }) r.per_source;
        },
        ok,
      )

  -- What `check` does once the global bucket has answered.
  unfoldable pub check_source :
      Bool → K → float.Instant → RateLimiter float K → Option (RateLimiter float K × Bool)
  check_source false src now r = some (r, false)
  check_source true src now r = do
    (r1, bucket) ← touch_source src r
    some (take_from src now r1 bucket)

  unfoldable pub check :
      K → float.Instant → RateLimiter float K → Option (RateLimiter float K × Bool)
  unfolding check_source
  check src now r =
      let (global, ok) = try_take float r.global now in
      check_source ok src now (record r { global = global })
