-- ===== src/RateLimit/Lru.antt =====
-- `detach` and `attach_newest` of proto/src/ratelimit.rs, against the list of sources that the links
-- string together, oldest first.
use quietquic.HashMap
use quietquic.HashMap.{get-modify, length-modify, Distinct, Distinct-modify}
use quietquic.HashSet.{contains}
use quietquic.Prelude.{
  ◌≡◌, refl, ap, ◌∙◌, sym, ite, true, false, Option, none, some, List, [], ◌∷◌, ◌++◌, arith, length,
  Option-cases, inl, inr, ◌>>=◌, >>=_assoc,
}
use quietquic.RateLimit.Bucket.{Floats, TokenBucket}
use quietquic.RateLimit.Links.{
  Links, first, last_or, Seg, Seg-split, Seg-join, Seg-frame, Seg-first, Seg-last, Seg-entry,
  last_some, last_or-append, last_or-contains, IsSimple, Around, IsSimple-Around, Around-IsSimple,
  IsSimple-append, contains-append,
}
use quietquic.RateLimit.{
  SourceEntry, RateLimiter, write, unlink_older, unlink_newer, detach, link_tail, attach_newest,
}
use mathlib.Core.List.{append-nil}
use mathlib.Core.Option

module _ (float : Floats) {K : Type 0} (dec : Discrete K) where
  abbrev pub entry_link : SourceEntry float K → Option K × Option K
  entry_link e = (e.older, e.newer)

  abbrev pub link : RateLimiter float K → Links K
  link r k = Option.map entry_link (HashMap.get dec k r.per_source)

  abbrev pub bucket_of : RateLimiter float K → K → Option (TokenBucket float)
  bucket_of r k =
      Option.map (λ (e : SourceEntry float K). e.bucket) (HashMap.get dec k r.per_source)

  -- Two limiters with the same buckets: only links differ.
  pub record SameBuckets (r s : RateLimiter float K) : Type 0 where
    pub global : s.global ≡ r.global
    pub capacity : s.per_source_capacity ≡ r.per_source_capacity
    pub rate : s.per_source_refill ≡ r.per_source_refill
    pub tracked : s.max_tracked ≡ r.max_tracked
    pub count : length s.per_source ≡ length r.per_source
    pub buckets : (k : K) → bucket_of s k ≡ bucket_of r k
    pub distinct : Distinct dec r.per_source → Distinct dec s.per_source

  pub SameBuckets_refl : (r : RateLimiter float K) → SameBuckets r r
  SameBuckets_refl r = record {
    global = refl;
    capacity = refl;
    rate = refl;
    tracked = refl;
    count = refl;
    buckets = λ k. refl;
    distinct = λ d. d;
  }

  pub SameBuckets_trans :
      {r s t : RateLimiter float K} → SameBuckets r s → SameBuckets s t → SameBuckets r t
  SameBuckets_trans a b = record {
    global = b.global ∙ a.global;
    capacity = b.capacity ∙ a.capacity;
    rate = b.rate ∙ a.rate;
    tracked = b.tracked ∙ a.tracked;
    count = b.count ∙ a.count;
    buckets = λ k. b.buckets k ∙ a.buckets k;
    distinct = λ d. b.distinct (a.distinct d);
  }

  -- What a write does to the links and to the buckets.
  pub record Written (k : K) (change : Option K × Option K → Option K × Option K)
      (r s : RateLimiter float K) : Type 0 where
    pub same : SameBuckets r s
    pub links : (j : K) → link s j ≡ ite (dec k j) (Option.map change (link r j)) (link r j)
    pub head : s.lru_head ≡ r.lru_head
    pub tail : s.lru_tail ≡ r.lru_tail

  module _ (k : K) (f : SourceEntry float K → SourceEntry float K)
      (change : Option K × Option K → Option K × Option K) (r : RateLimiter float K) where
    written_link :
        ((e : SourceEntry float K) → entry_link (f e) ≡ change (entry_link e))
        → (o : Option (SourceEntry float K))
        → Option.map entry_link (Option.map f o) ≡ Option.map change (Option.map entry_link o)
    written_link h none = refl
    written_link h (some e) = ap some (h e)

    written_bucket :
        ((e : SourceEntry float K) → (f e).bucket ≡ e.bucket)
        → (o : Option (SourceEntry float K))
        → Option.map (λ (e : SourceEntry float K). e.bucket) (Option.map f o)
          ≡ Option.map (λ (e : SourceEntry float K). e.bucket) o
    written_bucket h none = refl
    written_bucket h (some e) = ap some (h e)

    -- A write to a key that has an entry succeeds and changes the links of that key alone.
    pub write-Written :
        {p : Option K × Option K}
        → link r k ≡ some p
        → ((e : SourceEntry float K) → entry_link (f e) ≡ change (entry_link e))
        → ((e : SourceEntry float K) → (f e).bucket ≡ e.bucket)
        → (s : RateLimiter float K) × (write float dec k f r ≡ some s) × Written k change r s
    unfolding write
    write-Written {p} here hl hb = (
      record r { per_source = HashMap.modify dec k f r.per_source },
      ground arith,
      record {
        same = record {
          global = refl;
          capacity = refl;
          rate = refl;
          tracked = refl;
          count = length-modify dec k f r.per_source;
          buckets = λ j. ground (
            arith,
            get-modify dec k j f r.per_source,
            written_bucket hb (HashMap.get dec j r.per_source),
          );
          distinct = Distinct-modify dec k f r.per_source;
        };
        links = λ j. ground (
          arith,
          get-modify dec k j f r.per_source,
          written_link hl (HashMap.get dec j r.per_source),
        );
        head = refl;
        tail = refl;
      },
    )

  -- The links of the limiter string these sources together, the oldest first.
  pub record Strung (r : RateLimiter float K) (xs : List K) : Type 0 where
    pub segment : Seg (link r) none xs none
    pub head : r.lru_head ≡ first xs none
    pub tail : r.lru_tail ≡ last_or none xs
    pub simple : IsSimple dec xs

  -- The list while `src` is being taken out of it.
  record Torn (r : RateLimiter float K) (src : K) (ys zs : List K) (before after : Option K)
      : Type 0 where
    front : Seg (link r) none ys before
    back : Seg (link r) after zs none

  relabel :
      (r : RateLimiter float K) (head tail : Option K)
      → SameBuckets r (record r { lru_head = head; lru_tail = tail })
  relabel r head tail = record {
    global = refl;
    capacity = refl;
    rate = refl;
    tracked = refl;
    count = refl;
    buckets = λ k. refl;
    distinct = λ d. d;
  }

  module _ (src : K) where
    -- After the first `match` of `detach`.
    record Unlinked (ys zs : List K) (r s : RateLimiter float K) : Type 0 where
      torn : Torn s src ys zs (first zs none) (some src)
      same : SameBuckets r s
      own : link s src ≡ link r src
      head : s.lru_head ≡ first (ys ++ zs) none
      tail : s.lru_tail ≡ r.lru_tail

    unlink_older-some :
        (y : K) (ys zs : List K) (r : RateLimiter float K)
        → Around dec src ys zs
        → last_or none ys ≡ some y
        → contains dec y ys ≡ true
        → first (ys ++ (src ∷ zs)) none ≡ first (ys ++ zs) none
        → Torn r src ys zs (some src) (some src)
        → r.lru_head ≡ first (ys ++ (src ∷ zs)) none
        → (s : RateLimiter float K) × (unlink_older float dec (some y) (first zs none) r ≡ some s)
          × Unlinked ys zs r s
    unfolding unlink_older
    unlink_older-some y ys zs r around e c same_first t h =
        let (p, here) = Seg-entry dec (link r) none ys (some src) y t.front c in
        let (s, run, w) =
          write-Written y (λ e. record e { newer = first zs none }) (λ p. (p.0, first zs none)) r
            here (λ e. refl) (λ e. refl) in
        (
          s,
          run,
          record {
            torn = record {
              front =
                  Seg-last dec (link r) (link s) none ys (some src) (first zs none) y w.links
                    around.before e c t.front;
              back =
                  Seg-frame dec (link r) (link s) (some src) zs none
                    (λ k d. ground (arith, w.links k, around.apart y c)) t.back;
            };
            same = w.same;
            own = ground (arith, w.links src, around.not_before);
            head = w.head ∙ h ∙ same_first;
            tail = w.tail;
          },
        )

    unlink_older-Unlinked :
        (ys zs : List K) (r : RateLimiter float K)
        → Around dec src ys zs
        → Torn r src ys zs (some src) (some src)
        → r.lru_head ≡ first (ys ++ (src ∷ zs)) none
        → (s : RateLimiter float K) × (unlink_older float dec (last_or none ys) (first zs none) r
            ≡ some s)
          × Unlinked ys zs r s
    unfolding unlink_older
    unlink_older-Unlinked [] zs r around t h = (
      record r { lru_head = first zs none },
      refl,
      record {
        torn = record { front = tt; back = t.back };
        same = relabel r (first zs none) r.lru_tail;
        own = refl;
        head = refl;
        tail = refl;
      },
    )
    unlink_older-Unlinked (y0 ∷ ys) zs r around t h =
        let (y, e) = last_some y0 ys in
        let (s, run, u) =
          unlink_older-some y (y0 ∷ ys) zs r around e (last_or-contains dec y0 ys y e) refl t h in
        (s, rw e run, u)

    -- After the second one: the two parts are joined, and `src` still has its own links.
    record Closed (ys zs : List K) (r s : RateLimiter float K) : Type 0 where
      strung : Strung s (ys ++ zs)
      same : SameBuckets r s
      own : link s src ≡ link r src

    unlink_newer-Closed :
        (ys zs : List K) (r : RateLimiter float K)
        → Around dec src ys zs
        → Torn r src ys zs (first zs none) (some src)
        → r.lru_head ≡ first (ys ++ zs) none
        → r.lru_tail ≡ last_or none (ys ++ (src ∷ zs))
        → (s : RateLimiter float K) × (unlink_newer float dec (last_or none ys) (first zs none) r
            ≡ some s)
          × Closed ys zs r s
    unfolding unlink_newer contains
    unlink_newer-Closed ys [] r around t h l = (
      record r { lru_tail = last_or none ys },
      refl,
      record {
        strung = record {
          segment = Seg-join (link r) none ys [] none t.front tt;
          head = h;
          tail = ap (last_or none) (sym (append-nil ys));
          simple = Around-IsSimple dec src ys [] around;
        };
        same = relabel r r.lru_head (last_or none ys);
        own = refl;
      },
    )
    unlink_newer-Closed ys (z ∷ zs) r around t h l =
        let (s, run, w) =
          write-Written z (λ e. record e { older = last_or none ys }) (λ p. (last_or none ys, p.1))
            r t.back.0 (λ e. refl) (λ e. refl) in
        (
          s,
          run,
          record {
            strung = record {
              segment =
                  Seg-join (link s) none ys (z ∷ zs) none
                    (Seg-frame dec (link r) (link s) none ys (some z)
                      (λ k d. ground (arith, w.links k, around.apart k d)) t.front)
                    (Seg-first dec (link r) (link s) (some src) (last_or none ys) z zs none w.links
                      around.after t.back);
              head = w.head ∙ h;
              tail =
                  w.tail
                  ∙ l
                  ∙ last_or-append none ys src (z ∷ zs)
                  ∙ sym (last_or-append none ys z zs);
              simple = Around-IsSimple dec src ys (z ∷ zs) around;
            };
            same = w.same;
            own = ground (arith, w.links src, around.not_after);
          },
        )

    -- `detach` never panics on a source of the list; it takes that source out, and changes no bucket.
    pub record Detached (ys zs : List K) (r s : RateLimiter float K) : Type 0 where
      pub strung : Strung s (ys ++ zs)
      pub same : SameBuckets r s
      pub loose : link s src ≡ some (none, none)

    detach-Closed :
        (ys zs : List K) (r : RateLimiter float K)
        → Strung r (ys ++ (src ∷ zs))
        → link r src ≡ some (last_or none ys, first zs none)
        → (s : RateLimiter float K) × ((do
          r1 ← unlink_older float dec (last_or none ys) (first zs none) r
          unlink_newer float dec (last_or none ys) (first zs none) r1)
            ≡ some s)
          × Closed ys zs r s
    detach-Closed ys zs r g e =
        let around = IsSimple-Around dec src ys zs g.simple in
        let (front, back) = Seg-split (link r) none ys (src ∷ zs) none g.segment in
        let (s1, run1, u) =
          unlink_older-Unlinked ys zs r around (record { front = front; back = back.1 }) g.head in
        let (s2, run2, c) = unlink_newer-Closed ys zs s1 around u.torn u.head (u.tail ∙ g.tail) in
        (
          s2,
          rw run1 run2,
          record { strung = c.strung; same = SameBuckets_trans u.same c.same; own = c.own ∙ u.own },
        )

    -- The steps of `detach` from the links of the entry on.
    detach_links : Option K → Option K → RateLimiter float K → Option (RateLimiter float K)
    detach_links older newer r = do
      r2 ← (do r1 ← unlink_older float dec older newer r; unlink_newer float dec older newer r1)
      write float dec src (λ e. record e { older = none; newer = none }) r2

    detach-detach_links :
        (r : RateLimiter float K) (older newer : Option K)
        → link r src ≡ some (older, newer)
        → detach float dec src r ≡ detach_links older newer r
    unfolding detach detach_links
    detach-detach_links r older newer e = elim (Option-cases (HashMap.get dec src r.per_source)) [
      | inl missing ↦ absurd (ground arith)
      | inr (entry, found) ↦
          let same_older : entry.older ≡ older = ground arith in
          let same_newer : entry.newer ≡ newer = ground arith in
          rw (found, same_older, same_newer)
            (sym (>>=_assoc (unlink_older float dec older newer r) _ _))
    ]

    pub detach-Detached :
        (ys zs : List K) (r : RateLimiter float K)
        → Strung r (ys ++ (src ∷ zs))
        → (s : RateLimiter float K) × (detach float dec src r ≡ some s) × Detached ys zs r s
    unfolding detach_links
    detach-Detached ys zs r g =
        let around = IsSimple-Around dec src ys zs g.simple in
        let (front, back) = Seg-split (link r) none ys (src ∷ zs) none g.segment in
        let (s2, run2, c) = detach-Closed ys zs r g back.0 in
        let (s, run, w) =
          write-Written src (λ e. record e { older = none; newer = none }) (λ p. (none, none)) s2
            (c.own ∙ back.0) (λ e. refl) (λ e. refl) in
        (
          s,
          detach-detach_links r (last_or none ys) (first zs none) back.0 ∙ rw run2 run,
          record {
            strung = record {
              segment =
                  Seg-frame dec (link s2) (link s) none (ys ++ zs) none
                    (λ k d. ground (
                      arith,
                      w.links k,
                      contains-append dec k ys zs,
                      around.not_before,
                      around.not_after,
                    ))
                    c.strung.segment;
              head = w.head ∙ c.strung.head;
              tail = w.tail ∙ c.strung.tail;
              simple = c.strung.simple;
            };
            same = SameBuckets_trans c.same w.same;
            loose = ground (arith, w.links src, c.own, back.0);
          },
        )

    record Appended (xs : List K) (r s : RateLimiter float K) : Type 0 where
      segment : Seg (link s) none (xs ++ (src ∷ [])) none
      same : SameBuckets r s
      head : s.lru_head ≡ first (xs ++ (src ∷ [])) none

    link_tail-Appended :
        (xs : List K) (r : RateLimiter float K)
        → IsSimple dec xs
        → contains dec src xs ≡ false
        → Seg (link r) none xs none
        → link r src ≡ some (last_or none xs, none)
        → r.lru_head ≡ first xs none
        → (s : RateLimiter float K) × (link_tail float dec (last_or none xs) src r ≡ some s)
          × Appended xs r s
    unfolding link_tail
    link_tail-Appended [] r simple absent g here h = (
      record r { lru_head = some src },
      refl,
      record { segment = (here, tt); same = relabel r (some src) r.lru_tail; head = refl },
    )
    link_tail-Appended (x ∷ xs) r simple absent g here h =
        let (y, e) = last_some x xs in
        let c = last_or-contains dec x xs y e in
        let (p, entry) = Seg-entry dec (link r) none (x ∷ xs) none y g c in
        let (s, run, w) =
          write-Written y (λ e. record e { newer = some src }) (λ p. (p.0, some src)) r entry
            (λ e. refl) (λ e. refl) in
        (
          s,
          rw e run,
          record {
            segment =
                Seg-join (link s) none (x ∷ xs) (src ∷ []) none
                  (Seg-last dec (link r) (link s) none (x ∷ xs) none (some src) y w.links simple e c
                    g)
                  (ground (arith, w.links src, c, absent, here), tt);
            same = w.same;
            head = w.head ∙ h;
          },
        )

    -- `attach_newest` never panics on a source that has an entry and is not on the list; it appends
    -- the source.
    pub attach_newest-Strung :
        (xs : List K) (r : RateLimiter float K) {p : Option K × Option K}
        → Strung r xs
        → contains dec src xs ≡ false
        → link r src ≡ some p
        → (s : RateLimiter float K) × (attach_newest float dec src r ≡ some s)
          × Strung s (xs ++ (src ∷ []))
          × SameBuckets r s
    unfolding attach_newest
    attach_newest-Strung xs r {p} g absent here =
        let (s1, run1, w) =
          write-Written src (λ e. record e { older = r.lru_tail; newer = none })
            (λ q. (r.lru_tail, none)) r here (λ e. refl) (λ e. refl) in
        let own : link s1 src ≡ some (last_or none xs, none) =
          ground (arith, w.links src, here, g.tail) in
        let kept =
          Seg-frame dec (link r) (link s1) none xs none (λ k d. ground (arith, w.links k, absent))
            g.segment in
        let (s2, run2, a) = link_tail-Appended xs s1 g.simple absent kept own (w.head ∙ g.head) in
        (
          record s2 { lru_tail = some src },
          rw (run1, ap (λ t. link_tail float dec t src s1) g.tail ∙ run2) refl,
          record {
            segment = a.segment;
            head = a.head;
            tail = sym (last_or-append none xs src []);
            simple = IsSimple-append dec xs src g.simple absent;
          },
          SameBuckets_trans w.same (SameBuckets_trans a.same (relabel s2 s2.lru_head (some src))),
        )
