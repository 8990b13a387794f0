-- ===== src/RateLimit/Check.antt =====
-- `check` of proto/src/ratelimit.rs: both buckets, the bound on memory, and floods from many sources.
use quietquic.HashMap
use quietquic.HashMap.{get-modify, length-modify, Distinct-modify}
use quietquic.HashSet.{contains, length-remove-lt}
use quietquic.Prelude.{
  ℕ, suc, ◌+◌, ◌≤◌, ◌≡◌, refl, ap, ◌∙◌, Bool, true, false, ◌&&◌, Option, none, some, List, [], ◌∷◌,
  ◌++◌, arith, length, length-append, Bool-cases, inl, inr, ◌>>=◌, max, is_some, if◌then◌else◌,
}
use mathlib.Core.Option
use quietquic.RateLimit.Bucket.{Floats, TokenBucket, new, refill, try_take}
use quietquic.RateLimit.Bucket.Budget.{take_many, take_many_burst, IsBounded, IsExact}
use quietquic.RateLimit.Links.{Seg-frame}
use quietquic.RateLimit.Lru.{link, bucket_of, entry_link}
use quietquic.RateLimit.Order.{Tracks, others, touch_source-Touched}
use quietquic.RateLimit.{
  default, with_params, max_tracked_sources, SourceEntry, RateLimiter, take_from, check_source,
  check,
}

module _ (float : Floats) {K : Type 0} (dec : Discrete K) where
  -- The sources on the list after a check.
  abbrev pub after : Bool → ℕ → K → List K → List K
  after false max_tracked src xs = xs
  after true max_tracked src xs = others float dec max_tracked src xs ++ (src ∷ [])

  -- The bucket of a source, or the full one that it would be given.
  abbrev pub own_bucket : RateLimiter float K → K → TokenBucket float
  own_bucket r src =
      Option.get_or (bucket_of float dec r src)
        (new float r.per_source_capacity r.per_source_refill)

  same_link :
      (b : TokenBucket float) (o : Option (SourceEntry float K))
      → Option.map
          (entry_link float dec)
          (Option.map (λ (e : SourceEntry float K). record e { bucket = b }) o)
        ≡ Option.map (entry_link float dec) o
  same_link b none = refl
  same_link b (some e) = refl

  same_presence :
      (b : TokenBucket float) (o : Option (SourceEntry float K))
      → is_some (
          Option.map
            (λ (e : SourceEntry float K). e.bucket)
            (Option.map (λ (e : SourceEntry float K). record e { bucket = b }) o))
        ≡ is_some (Option.map (λ (e : SourceEntry float K). e.bucket) o)
  same_presence b none = refl
  same_presence b (some e) = refl

  Tracks-take_from :
      (src : K) (now : float.Instant) (r : RateLimiter float K) (b : TokenBucket float)
      (xs : List K)
      → Tracks float dec r xs
      → Tracks float dec (take_from float dec src now r b).0 xs
  unfolding take_from
  Tracks-take_from src now r b xs t =
      let b' = (try_take float b now).0 in
      let f = λ (e : SourceEntry float K). record e { bucket = b' } in
      record {
        strung = record {
          segment =
              Seg-frame dec (link float dec r) _ none xs none
                (λ k c. ground (
                  arith,
                  get-modify dec src k f r.per_source,
                  same_link b' (HashMap.get dec k r.per_source),
                ))
                t.strung.segment;
          head = t.strung.head;
          tail = t.strung.tail;
          simple = t.strung.simple;
        };
        covers = λ k. ground (
          arith,
          get-modify dec src k f r.per_source,
          same_presence b' (HashMap.get dec k r.per_source),
          t.covers k,
        );
        distinct = Distinct-modify dec src f r.per_source t.distinct;
        count = length-modify dec src f r.per_source ∙ t.count;
      }

  Tracks-charged :
      (g : TokenBucket float) (r : RateLimiter float K) (xs : List K)
      → Tracks float dec r xs
      → Tracks float dec (record r { global = g }) xs
  Tracks-charged g r xs t = record {
    strung = record {
      segment = t.strung.segment;
      head = t.strung.head;
      tail = t.strung.tail;
      simple = t.strung.simple;
    };
    covers = t.covers;
    distinct = t.distinct;
    count = t.count;
  }

  -- What `check` answers and leaves.
  pub record Checked (src : K) (now : float.Instant) (r s : RateLimiter float K) (xs : List K)
      (ok : Bool) : Type 0 where
    pub answer : ok ≡ ((try_take float r.global now).1 && (try_take float (own_bucket r src) now).1)
    pub global : s.global ≡ (try_take float r.global now).0
    pub tracks : Tracks float dec s (after (try_take float r.global now).1 r.max_tracked src xs)
    pub capacity : s.per_source_capacity ≡ r.per_source_capacity
    pub rate : s.per_source_refill ≡ r.per_source_refill
    pub tracked : s.max_tracked ≡ r.max_tracked

  -- `check` never panics: it answers yes exactly if both the global bucket and the source's own one
  -- have a token, and touches the tracked sources only if the global bucket had one.
  pub check-Checked :
      (src : K) (now : float.Instant) (r : RateLimiter float K) (xs : List K)
      → Tracks float dec r xs
      → (s : RateLimiter float K) × (ok : Bool) × (check float dec src now r ≡ some (s, ok))
        × Checked src now r s xs ok
  unfolding check check_source take_from
  check-Checked src now r xs t = elim (Bool-cases (try_take float r.global now).1) [
    | inl has ↦
        let charged = record r { global = (try_take float r.global now).0 } in
        let (s1, bucket, run, td) =
          touch_source-Touched float dec src charged xs
            (Tracks-charged (try_take float r.global now).0 r xs t) in
        (
          (take_from float dec src now s1 bucket).0,
          (take_from float dec src now s1 bucket).1,
          ap (λ o. check_source float dec o src now charged) has ∙ rw run refl,
          record {
            answer = rw has (ap (λ b. (try_take float b now).1) td.returned);
            global = td.params.global;
            tracks = rw has (Tracks-take_from src now s1 bucket _ td.tracks);
            capacity = td.params.capacity;
            rate = td.params.rate;
            tracked = td.params.tracked;
          },
        )
    | inr empty ↦
        let charged = record r { global = (try_take float r.global now).0 } in
        (
          charged,
          false,
          ap (λ o. check_source float dec o src now charged) empty,
          record {
            answer = rw empty refl;
            global = refl;
            tracks = rw empty (Tracks-charged (try_take float r.global now).0 r xs t);
            capacity = refl;
            rate = refl;
            tracked = refl;
          },
        )
  ]

  -- The bound on the sources tracked.
  abbrev pub Within : RateLimiter float K → Type 0
  Within r = length r.per_source ≤ max r.max_tracked 1

  length-others :
      (m : ℕ) (src : K) (xs : List K)
      → length xs ≤ max m 1
      → length (others float dec m src xs) + 1 ≤ max m 1
  length-others m src [] h = ground (arith, length-remove-lt dec src [])
  length-others m src (x ∷ xs) h = ground (arith, length-remove-lt dec src (x ∷ xs))

  -- No check makes the limiter track more sources than its maximum, whatever sources it sees.
  pub check-Within :
      (src : K) (now : float.Instant) (r : RateLimiter float K) (xs : List K)
      → Tracks float dec r xs
      → Within r
      → (s : RateLimiter float K) × (ok : Bool) × (check float dec src now r ≡ some (s, ok))
        × Within s
  check-Within src now r xs t w =
      let (s, ok, run, c) = check-Checked src now r xs t in
      (
        s,
        ok,
        run,
        ground (
          arith,
          c.tracks.count,
          c.tracked,
          length-append (others float dec r.max_tracked src xs) (src ∷ []),
          length-others r.max_tracked src xs,
          t.count,
        ),
      )

  -- The checks of packets that arrive at one instant: the limiter, and how many passed.
  unfoldable pub check_many :
      List K → float.Instant → RateLimiter float K → Option (RateLimiter float K × ℕ)
  check_many [] now r = some (r, 0)
  check_many (src ∷ srcs) now r = do
    (r1, ok) ← check float dec src now r
    (r2, n) ← check_many srcs now r1
    some (r2, if ok then suc n else n)

  check_many-take_many :
      (srcs : List K) (now : float.Instant) (r : RateLimiter float K) (xs : List K)
      → Tracks float dec r xs
      → (s : RateLimiter float K) × (n : ℕ) × (check_many srcs now r ≡ some (s, n))
        × (n ≤ (take_many float (length srcs) now r.global).1)
  unfolding check_many take_many
  check_many-take_many [] now r xs t = (r, 0, refl, omega arith)
  check_many-take_many (src ∷ srcs) now r xs t =
      let (s1, ok, run1, c) = check-Checked src now r xs t in
      let (s2, n, run2, below) =
        check_many-take_many srcs now s1
          (after (try_take float r.global now).1 r.max_tracked src xs) c.tracks in
      (
        s2,
        if ok then suc n else n,
        rw (run1, run2) refl,
        ground (arith, c.answer, below, ap (λ g. (take_many float (length srcs) now g).1) c.global),
      )

  -- The global bucket caps a flood: of packets that arrive at one instant no more pass than it has
  -- whole tokens after its refill, hence no more than its capacity, however many sources they claim
  -- to come from and however small the source table is. No check panics.
  pub check_many_capped :
      (srcs : List K) (now : float.Instant) (r : RateLimiter float K) (xs : List K)
      → Tracks float dec r xs
      → IsBounded float r.global
      → IsExact float r.global
      → (s : RateLimiter float K) × (n : ℕ) × (check_many srcs now r ≡ some (s, n))
        × (n ≤ float.floor (refill float now r.global).tokens)
        × (n ≤ float.floor r.global.capacity)
  check_many_capped srcs now r xs t b x =
      let (s, n, run, below) = check_many-take_many srcs now r xs t in
      let burst = take_many_burst float (length srcs) now r.global b x in
      (s, n, run, omega arith, omega arith)

  with_params-Tracks :
      (global_capacity global_refill capacity rate : float.F) (max_tracked : ℕ)
      → Tracks float dec
          (with_params float dec global_capacity global_refill capacity rate max_tracked)
          []
  unfolding with_params HashMap.get contains
  with_params-Tracks global_capacity global_refill capacity rate max_tracked = record {
    strung = record { segment = tt; head = refl; tail = refl; simple = tt };
    covers = λ k. refl;
    distinct = tt;
    count = refl;
  }

  pub default-Tracks : Tracks float dec (default float dec) []
  unfolding default
  default-Tracks =
      with_params-Tracks (float.of_nat 2048) (float.of_nat 512) (float.of_nat 32) (float.of_nat 8)
        max_tracked_sources

  -- With the default parameters at most 2048 of the packets that arrive at one instant pass a fresh
  -- limiter, from whatever sources; no check panics.
  pub default-capped :
      (srcs : List K) (now : float.Instant)
      → (s : RateLimiter float K) × (n : ℕ) × (check_many srcs now (default float dec)
          ≡ some (s, n))
        × (n ≤ 2048)
  unfolding default with_params new
  default-capped srcs now =
      let exact = float.floor-of_nat 2048 (omega arith) in
      let (s, n, run, _, below) =
        check_many_capped srcs now (default float dec) []
          (with_params-Tracks (float.of_nat 2048) (float.of_nat 512) (float.of_nat 32)
            (float.of_nat 8) max_tracked_sources)
          (omega arith) (omega (arith, exact)) in
      (s, n, run, omega (arith, below, exact))
