-- ===== src/RateLimit/Order.antt =====
-- `touch_source` of proto/src/ratelimit.rs against a plain list of sources by recency, oldest first.
use quietquic.HashMap
use quietquic.HashMap.{
  get-remove, get-insert, Distinct, Distinct-remove, Distinct-insert, length-remove,
  length-insert_new,
}
use quietquic.HashSet.{contains, remove}
use quietquic.Prelude.{
  ℕ, suc, ◌+◌, ◌≡◌, refl, ap, subst, ◌∙◌, sym, ite, true, false, Option, none, some, List, [], ◌∷◌,
  ◌++◌, arith, length, length-append, Option-cases, Bool-cases, inl, inr, ◌>>=◌, leb, max, is_some,
  if◌then◌else◌,
}
use mathlib.Core.Option
use quietquic.RateLimit.Bucket.{Floats, TokenBucket, new}
use quietquic.RateLimit.Links.{
  Seg-frame, IsSimple-Around, contains-append, find_split, remove_split,
}
use quietquic.RateLimit.Lru.{
  entry_link, link, bucket_of, SameBuckets, Strung, Detached, detach-Detached, attach_newest-Strung,
}
use quietquic.RateLimit.{
  SourceEntry, RateLimiter, detach, evict, make_room, add_source, find_source, touch_source,
}

module _ (float : Floats) {K : Type 0} (dec : Discrete K) where
  -- The limiter tracks exactly these sources, each once, the least recently used first.
  pub record Tracks (r : RateLimiter float K) (xs : List K) : Type 0 where
    pub strung : Strung float dec r xs
    pub covers : (k : K) → is_some (bucket_of float dec r k) ≡ contains dec k xs
    pub distinct : Distinct dec r.per_source
    pub count : length r.per_source ≡ length xs

  -- The parameters that no call changes.
  pub record SameParams (r s : RateLimiter float K) : Type 0 where
    pub global : s.global ≡ r.global
    pub capacity : s.per_source_capacity ≡ r.per_source_capacity
    pub rate : s.per_source_refill ≡ r.per_source_refill
    pub tracked : s.max_tracked ≡ r.max_tracked

  abbrev tail : List K → List K
  tail [] = []
  tail (x ∷ xs) = xs

  -- The sources that stay when one more is to be tracked.
  abbrev pub room : ℕ → List K → List K
  room max_tracked xs = if leb (max max_tracked 1) (length xs) then tail xs else xs

  -- The sources that stay when `src` is used: all the others, less the oldest where `src` is new and
  -- the limiter is full.
  abbrev pub others : ℕ → K → List K → List K
  others max_tracked src xs = if contains dec src xs then remove dec src xs else room max_tracked xs

  abbrev drop_source : K → RateLimiter float K → RateLimiter float K
  drop_source x r = record r { per_source = HashMap.remove dec x r.per_source }

  abbrev put_source : K → SourceEntry float K → RateLimiter float K → RateLimiter float K
  put_source x e r = record r { per_source = HashMap.insert dec x e r.per_source }

  module _ (x k : K) (r : RateLimiter float K) where
    link-drop_source : link float dec (drop_source x r) k ≡ ite (dec x k) none (link float dec r k)
    link-drop_source = ground (arith, get-remove dec x k r.per_source)

    bucket_of-drop_source :
        bucket_of float dec (drop_source x r) k ≡ ite (dec x k) none (bucket_of float dec r k)
    bucket_of-drop_source = ground (arith, get-remove dec x k r.per_source)

    link-put_source :
        (e : SourceEntry float K)
        → link float dec (put_source x e r) k
          ≡ ite (dec x k) (some (entry_link float dec e)) (link float dec r k)
    link-put_source e = ground (arith, get-insert dec x k e r.per_source)

    bucket_of-put_source :
        (e : SourceEntry float K)
        → bucket_of float dec (put_source x e r) k
          ≡ ite (dec x k) (some e.bucket) (bucket_of float dec r k)
    bucket_of-put_source e = ground (arith, get-insert dec x k e r.per_source)

  length-drop_source :
      (x : K) (r : RateLimiter float K) {p : Option K × Option K}
      → Distinct dec r.per_source
      → link float dec r x ≡ some p
      → length (drop_source x r).per_source + 1 ≡ length r.per_source
  length-drop_source x r d e = elim (Option-cases (HashMap.get dec x r.per_source)) [
    | inl missing ↦ absurd (ground arith)
    | inr (v, found) ↦ length-remove dec x r.per_source v d found
  ]

  record Evicted (r s : RateLimiter float K) (xs : List K) : Type 0 where
    tracks : Tracks s xs
    params : SameParams r s
    kept : (k : K) → contains dec k xs ≡ true → bucket_of float dec s k ≡ bucket_of float dec r k

  evict_oldest :
      (x : K) (xs : List K) (r : RateLimiter float K)
      → Tracks r (x ∷ xs)
      → (s : RateLimiter float K) × (evict float dec (some x) r ≡ some s) × Evicted r s xs
  unfolding evict contains
  evict_oldest x xs r t =
      let (s1, run1, d) = detach-Detached float dec x [] xs r t.strung in
      let same = d.same in
      let absent = t.strung.simple.0 in
      (
        record s1 { per_source = HashMap.remove dec x s1.per_source },
        rw run1 refl,
        record {
          tracks = record {
            strung = record {
              segment =
                  Seg-frame dec (link float dec s1) _ none xs none
                    (λ k c. ground (arith, link-drop_source x k s1, absent)) d.strung.segment;
              head = d.strung.head;
              tail = d.strung.tail;
              simple = d.strung.simple;
            };
            covers = λ k.
                ground (arith, bucket_of-drop_source x k s1, same.buckets k, t.covers k, absent);
            distinct = Distinct-remove dec x s1.per_source (same.distinct t.distinct);
            count = omega (
              arith,
              length-drop_source x s1 (same.distinct t.distinct) d.loose,
              same.count,
              t.count,
            );
          };
          params = record {
            global = same.global;
            capacity = same.capacity;
            rate = same.rate;
            tracked = same.tracked;
          };
          kept = λ k c. ground (arith, bucket_of-drop_source x k s1, same.buckets k, absent);
        },
      )

  Evicted-refl : (r : RateLimiter float K) (xs : List K) → Tracks r xs → Evicted r r xs
  Evicted-refl r xs t = record {
    tracks = t;
    params = record { global = refl; capacity = refl; rate = refl; tracked = refl };
    kept = λ k c. refl;
  }

  make_room-Evicted :
      (r : RateLimiter float K) (xs : List K)
      → Tracks r xs
      → (s : RateLimiter float K) × (make_room float dec r ≡ some s)
        × Evicted r s (room r.max_tracked xs)
  unfolding make_room
  make_room-Evicted r [] t =
      let below : leb (max r.max_tracked 1) 0 ≡ false = ground arith in
      (r, rw (ap (leb (max r.max_tracked 1)) t.count ∙ below) refl, rw below (Evicted-refl r [] t))
  make_room-Evicted r (x ∷ xs) t = elim (Bool-cases (leb (max r.max_tracked 1) (suc (length xs)))) [
    | inl full ↦
        let (s, run, ev) = evict_oldest x xs r t in
        (
          s,
          rw (ap (leb (max r.max_tracked 1)) t.count ∙ full)
              (ap (λ h. evict float dec h r) t.strung.head ∙ run),
          rw full ev,
        )
    | inr below ↦ (
      r,
      rw (ap (leb (max r.max_tracked 1)) t.count ∙ below) refl,
      rw below (Evicted-refl r (x ∷ xs) t),
    )
  ]

  -- After `find_source`: the source has an entry and is off the list.
  record Found (r s : RateLimiter float K) (src : K) (rest : List K) : Type 0 where
    strung : Strung float dec s rest
    absent : contains dec src rest ≡ false
    link_at : (p : Option K × Option K) × (link float dec s src ≡ some p)
    bucket_at :
        bucket_of float dec s src
        ≡ some (
            Option.get_or
              (bucket_of float dec r src)
              (new float r.per_source_capacity r.per_source_refill))
    kept : (k : K) → contains dec k rest ≡ true → bucket_of float dec s k ≡ bucket_of float dec r k
    covers :
        (k : K) → is_some (bucket_of float dec s k) ≡ ite (dec src k) true (contains dec k rest)
    distinct : Distinct dec s.per_source
    count : length s.per_source ≡ length rest + 1
    params : SameParams r s

  find_source_present :
      (src : K) (r : RateLimiter float K)
      → is_some (bucket_of float dec r src) ≡ true
      → find_source float dec src r ≡ detach float dec src r
  unfolding find_source
  find_source_present src r c = elim (Option-cases (HashMap.get dec src r.per_source)) [
    | inl missing ↦ absurd (ground arith)
    | inr (entry, found) ↦
        ap
          (λ o. elim o as (λ _. Option (RateLimiter float K)) [
            | none ↦ add_source float dec src r
            | some _ ↦ detach float dec src r
          ])
          found
  ]

  find_source_missing :
      (src : K) (r : RateLimiter float K)
      → is_some (bucket_of float dec r src) ≡ false
      → (find_source float dec src r ≡ add_source float dec src r)
        × (HashMap.get dec src r.per_source ≡ none)
  unfolding find_source
  find_source_missing src r c = elim (Option-cases (HashMap.get dec src r.per_source)) [
    | inl missing ↦ (
      ap
          (λ o. elim o as (λ _. Option (RateLimiter float K)) [
            | none ↦ add_source float dec src r
            | some _ ↦ detach float dec src r
          ])
          missing,
      missing,
    )
    | inr (entry, found) ↦ absurd (ground arith)
  ]

  bucket_present :
      (o : Option (TokenBucket float)) (b : TokenBucket float)
      → is_some o ≡ true
      → o ≡ some (Option.get_or o b)
  bucket_present none b c = ground arith
  bucket_present (some a) b c = refl

  hit-Found :
      (src : K) (ys zs : List K) (r s : RateLimiter float K)
      → Tracks r (ys ++ (src ∷ zs))
      → Detached float dec src ys zs r s
      → Found r s src (ys ++ zs)
  unfolding contains
  hit-Found src ys zs r s t d =
      let around = IsSimple-Around dec src ys zs t.strung.simple in
      let same = d.same in
      record {
        strung = d.strung;
        absent = ground (arith, contains-append dec src ys zs, around.not_before, around.not_after);
        link_at = ((none, none), d.loose);
        bucket_at =
            same.buckets src
            ∙ bucket_present (bucket_of float dec r src) _
                (t.covers src ∙ ground (arith, contains-append dec src ys (src ∷ zs)));
        kept = λ k _. same.buckets k;
        covers = λ k.
            ap is_some (same.buckets k)
            ∙ t.covers k
            ∙ ground (arith, contains-append dec k ys (src ∷ zs), contains-append dec k ys zs);
        distinct = same.distinct t.distinct;
        count =
            omega (arith, same.count, t.count, length-append ys (src ∷ zs), length-append ys zs);
        params = record {
          global = same.global;
          capacity = same.capacity;
          rate = same.rate;
          tracked = same.tracked;
        };
      }

  find_hit :
      (src : K) (r : RateLimiter float K) (xs : List K)
      → Tracks r xs
      → contains dec src xs ≡ true
      → (s : RateLimiter float K) × (find_source float dec src r ≡ some s)
        × Found r s src (remove dec src xs)
  find_hit src r xs t c =
      let (ys, zs, e) = find_split dec src xs c in
      let t' = subst (Tracks r) e t in
      let around = IsSimple-Around dec src ys zs t'.strung.simple in
      let (s, run, d) = detach-Detached float dec src ys zs r t'.strung in
      (
        s,
        find_source_present src r (t.covers src ∙ c) ∙ run,
        subst (Found r s src) (sym (ap (remove dec src) e ∙ remove_split dec src ys zs around))
            (hit-Found src ys zs r s t' d),
      )

  room-absent :
      (m : ℕ) (src : K) (xs : List K)
      → contains dec src xs ≡ false
      → contains dec src (room m xs) ≡ false
  unfolding contains
  room-absent m src [] c = ground arith
  room-absent m src (x ∷ xs) c = ground arith

  abbrev new_entry : RateLimiter float K → SourceEntry float K
  new_entry r = record {
    bucket = new float r.per_source_capacity r.per_source_refill;
    older = none;
    newer = none;
  }

  none_of_missing :
      (r : RateLimiter float K) (k : K)
      → is_some (bucket_of float dec r k) ≡ false
      → HashMap.get dec k r.per_source ≡ none
  none_of_missing r k c = elim (Option-cases (HashMap.get dec k r.per_source)) [
    | inl missing ↦ missing
    | inr (entry, found) ↦ absurd (ground arith)
  ]

  miss-Found :
      (src : K) (r s : RateLimiter float K) (rest : List K)
      → HashMap.get dec src r.per_source ≡ none
      → contains dec src rest ≡ false
      → Evicted r s rest
      → Found r (put_source src (new_entry s) s) src rest
  miss-Found src r s rest missing absent ev =
      let entry = new_entry s in
      let params = ev.params in
      let t = ev.tracks in
      record {
        strung = record {
          segment =
              Seg-frame dec (link float dec s) _ none rest none
                (λ k d. ground (arith, link-put_source src k s entry, absent)) t.strung.segment;
          head = t.strung.head;
          tail = t.strung.tail;
          simple = t.strung.simple;
        };
        absent = absent;
        link_at = ((none, none), ground (arith, link-put_source src src s entry));
        bucket_at =
            ground
              (arith, bucket_of-put_source src src s entry, missing, params.capacity, params.rate);
        kept = λ k d. ground (arith, bucket_of-put_source src k s entry, ev.kept k d, absent);
        covers = λ k. ground (arith, bucket_of-put_source src k s entry, t.covers k);
        distinct = Distinct-insert dec src entry s.per_source t.distinct;
        count =
            length-insert_new dec src entry s.per_source
              (none_of_missing s src (t.covers src ∙ absent))
            ∙ ap (λ n. n + 1) t.count;
        params = record {
          global = params.global;
          capacity = params.capacity;
          rate = params.rate;
          tracked = params.tracked;
        };
      }

  find_miss :
      (src : K) (r : RateLimiter float K) (xs : List K)
      → Tracks r xs
      → contains dec src xs ≡ false
      → (s : RateLimiter float K) × (find_source float dec src r ≡ some s)
        × Found r s src (room r.max_tracked xs)
  unfolding add_source
  find_miss src r xs t c =
      let (run, missing) = find_source_missing src r (t.covers src ∙ c) in
      let (s, made, ev) = make_room-Evicted r xs t in
      let absent = room-absent r.max_tracked src xs c in
      let entry = new_entry s in
      (
        put_source src entry s,
        run ∙ rw made refl,
        miss-Found src r s (room r.max_tracked xs) missing absent ev,
      )

  find_source-Found :
      (src : K) (r : RateLimiter float K) (xs : List K)
      → Tracks r xs
      → (s : RateLimiter float K) × (find_source float dec src r ≡ some s)
        × Found r s src (others r.max_tracked src xs)
  find_source-Found src r xs t = elim (Bool-cases (contains dec src xs)) [
    | inl c ↦ rw c (find_hit src r xs t c)
    | inr c ↦ rw c (find_miss src r xs t c)
  ]

  -- What `touch_source` leaves and returns.
  pub record Touched (src : K) (r s : RateLimiter float K) (xs : List K)
      (bucket : TokenBucket float) : Type 0 where
    pub tracks : Tracks s (others r.max_tracked src xs ++ (src ∷ []))
    pub params : SameParams r s
    pub returned :
        bucket
        ≡ Option.get_or
            (bucket_of float dec r src)
            (new float r.per_source_capacity r.per_source_refill)
    pub stored : bucket_of float dec s src ≡ some bucket
    pub kept :
        (k : K)
        → contains dec k (others r.max_tracked src xs) ≡ true
        → bucket_of float dec s k ≡ bucket_of float dec r k

  contains-snoc :
      (k x : K) (xs : List K)
      → ite (dec x k) true (contains dec k xs) ≡ contains dec k (xs ++ (x ∷ []))
  unfolding contains
  contains-snoc k x xs = ground (arith, contains-append dec k xs (x ∷ []))

  returned_bucket :
      (s : RateLimiter float K) (k : K) (b : TokenBucket float)
      → bucket_of float dec s k ≡ some b
      → ◌>>=◌ {B = RateLimiter float K × TokenBucket float}
          (HashMap.get dec k s.per_source)
          (λ e. some (s, e.bucket))
        ≡ some (s, b)
  returned_bucket s k b e = elim (Option-cases (HashMap.get dec k s.per_source)) [
    | inl missing ↦ absurd (ground arith)
    | inr (entry, found) ↦ rw found (ground arith)
  ]

  touched :
      (src : K) (r s1 s2 : RateLimiter float K) (xs : List K)
      → Found r s1 src (others r.max_tracked src xs)
      → Strung float dec s2 (others r.max_tracked src xs ++ (src ∷ []))
      → SameBuckets float dec s1 s2
      → Touched src r s2 xs (
          Option.get_or
            (bucket_of float dec r src)
            (new float r.per_source_capacity r.per_source_refill))
  unfolding contains
  touched src r s1 s2 xs f strung same =
      let rest = others r.max_tracked src xs in
      record {
        tracks = record {
          strung = strung;
          covers = λ k. ap is_some (same.buckets k) ∙ f.covers k ∙ contains-snoc k src rest;
          distinct = same.distinct f.distinct;
          count = same.count ∙ f.count ∙ sym (length-append rest (src ∷ []));
        };
        params = record {
          global = same.global ∙ f.params.global;
          capacity = same.capacity ∙ f.params.capacity;
          rate = same.rate ∙ f.params.rate;
          tracked = same.tracked ∙ f.params.tracked;
        };
        returned = refl;
        stored = same.buckets src ∙ f.bucket_at;
        kept = λ k c. same.buckets k ∙ f.kept k c;
      }

  -- `touch_source` never panics. It moves the source to the newest end, or adds it there with a full
  -- bucket after it has evicted the oldest source if the limiter is full; the bucket returned is the
  -- source's own, and the other sources that stay keep theirs.
  pub touch_source-Touched :
      (src : K) (r : RateLimiter float K) (xs : List K)
      → Tracks r xs
      → (s : RateLimiter float K) × (bucket : TokenBucket float) × (touch_source float dec src r
          ≡ some (s, bucket))
        × Touched src r s xs bucket
  unfolding touch_source
  touch_source-Touched src r xs t =
      let rest = others r.max_tracked src xs in
      let (s1, run1, f) = find_source-Found src r xs t in
      let (s2, run2, strung, same) =
        attach_newest-Strung float dec src rest s1 f.strung f.absent f.link_at.1 in
      let bucket =
        Option.get_or (bucket_of float dec r src)
          (new float r.per_source_capacity r.per_source_refill) in
      let stored = same.buckets src ∙ f.bucket_at in
      (
        s2,
        bucket,
        rw (run1, run2) (returned_bucket s2 src bucket stored),
        touched src r s1 s2 xs f strung same,
      )
