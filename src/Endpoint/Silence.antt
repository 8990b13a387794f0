-- ===== src/Endpoint/Silence.antt =====
-- The guards of `handle_datagram` in proto/src/endpoint.rs: what a rejected datagram leaves, and
-- that no guard panics.
use quietquic.Endpoint.{Role, ClientCrypto, Endpoint, Verdict}
use quietquic.Endpoint.Datagram.{
  is_active_dcid, position, select_psk, identify, record_sighting, prefilter, install, examine,
  screen_new, screen_as, screen,
}
use quietquic.Freshness.{now_minutes, is_fresh, window_minutes}
use quietquic.Net.{Net}
use quietquic.Outcome.{SocketAddr}
use mathlib.Core.Option.{some_inj}
use quietquic.Prelude.{
  subst, ℕ, zero, suc, ◌<◌, ◌≡◌, refl, ap, ◌∙◌, sym, Bool, true, false, Option, none, some, List,
  [], ◌∷◌, arith, length, get_elem?, set, length-set, Bool-cases, Option-cases, inl, inr,
  if◌then◌else◌, ◌==◌, bind_some, guard-some,
}
use quietquic.RateLimit.Bucket.{Floats}
use quietquic.RateLimit.Check.{check-Checked}
use quietquic.RateLimit.Order.{Tracks}
use quietquic.Replay.{check_and_record}
use quietquic.Selector.{Blake3, DcidParts, dcid_len, parse_dcid}
use quietquic.Transport.{peek_dcid}

position-lt :
    {A : Type 0} (p : A → Bool) (xs : List A) (i : ℕ) → position p xs ≡ some i → i < length xs
unfolding position
position-lt p [] i e = absurd (ground arith)
position-lt p (x ∷ xs) i e = elim (Bool-cases (p x)) [
  | inl here ↦ ground arith
  | inr there ↦ elim (Option-cases (position p xs)) [
    | inl missing ↦ absurd (ground arith)
    | inr (j, found) ↦ ground (arith, position-lt p xs j found)
  ]
]

pub get_elem?_of_lt :
    {A : Type 0} (xs : List A) (i : ℕ) → i < length xs → (a : A) × (get_elem? xs i ≡ some a)
get_elem?_of_lt [] i h = absurd (omega arith)
get_elem?_of_lt (x ∷ xs) zero h = (x, refl)
get_elem?_of_lt (x ∷ xs) (suc i) h = get_elem?_of_lt xs i (omega arith)

module _ (blake3 : Blake3) where
  -- What `identify` has established of a datagram.
  pub record Identified {S : Type 0} (minute : ℕ) (clients : List (ClientCrypto S))
      (datagram : List ℕ) (parts : DcidParts) (i : ℕ) : Type 0 where
    pub dcid : List ℕ
    pub peeked : peek_dcid datagram ≡ some dcid
    pub parsed : parse_dcid dcid ≡ some parts
    pub fresh : is_fresh parts.freshness minute window_minutes ≡ true
    pub selected : select_psk blake3 clients parts ≡ some i

  pub identify-Identified :
      {S : Type 0} (minute : ℕ) (clients : List (ClientCrypto S)) (datagram : List ℕ)
      (parts : DcidParts) (i : ℕ)
      → identify blake3 minute clients datagram ≡ some (parts, i)
      → Identified minute clients datagram parts i
  unfolding identify
  identify-Identified minute clients datagram parts i e =
      let (dcid, peeked, e1) = bind_some (peek_dcid datagram) _ _ e in
      let (exact, e2) = guard-some (length dcid == dcid_len) _ _ e1 in
      let (q, parsed, e3) = bind_some (parse_dcid dcid) _ _ e2 in
      let (fresh, e4) = guard-some (is_fresh q.freshness minute window_minutes) _ _ e3 in
      let (j, selected, e5) = bind_some (select_psk blake3 clients q) _ _ e4 in
      let same = some_inj.0 e5 in
      record {
        dcid = dcid;
        peeked = peeked;
        parsed = parsed ∙ ap (λ r. some r.0) same;
        fresh = subst (λ r. is_fresh r.0.freshness minute window_minutes ≡ true) same fresh;
        selected = subst (λ r. select_psk blake3 clients r.0 ≡ some r.1) same selected;
      }

  identify-lt :
      {S : Type 0} (minute : ℕ) (clients : List (ClientCrypto S)) (datagram : List ℕ)
      (parts : DcidParts) (i : ℕ)
      → identify blake3 minute clients datagram ≡ some (parts, i)
      → i < length clients
  unfolding select_psk
  identify-lt minute clients datagram parts i e =
      position-lt _ clients i (identify-Identified minute clients datagram parts i e).selected

module _ {float : Floats} {K : Type 0} {net : Net K float.Instant} where
  -- What the pre-filter may change: its guards against replays, one of which exists for each client.
  pub record Filtered (ep s : Endpoint float K net) (o : Option ℕ) : Type 0 where
    pub only_replay : s ≡ record ep { replay = s.replay }
    pub aligned : length s.replay ≡ length s.clients
    pub client : (i : ℕ) → o ≡ some i → i < length s.clients

  module _ (dec : Discrete K) where
    -- The state that the guards rely on: the table of the rate limiter, and a guard for each client.
    pub record IsGuarded (ep : Endpoint float K net) (xs : List K) : Type 0 where
      pub tracks : Tracks float dec ep.rate_limiter xs
      pub aligned : length ep.replay ≡ length ep.clients

    -- What the guards of `handle_datagram` leave.
    pub record Screened (ep s : Endpoint float K net) (v : Verdict) : Type 0 where
      pub only_guards :
          s ≡ record ep { inner = s.inner; rate_limiter = s.rate_limiter; replay = s.replay }
      pub silent : v ≡ Verdict.rejected → s.inner ≡ ep.inner
      pub guarded : (xs : List K) × IsGuarded s xs

module _ (blake3 : Blake3) {float : Floats} {K : Type 0} {net : Net K float.Instant} where
  -- The pre-filter never panics, and changes nothing but the guards against replays.
  pub prefilter-Filtered :
      (secs : Option ℕ) (datagram : List ℕ) (ep : Endpoint float K net)
      → length ep.replay ≡ length ep.clients
      → (s : Endpoint float K net) × (o : Option ℕ) × (prefilter blake3 secs datagram ep
          ≡ some (s, o))
        × Filtered ep s o
  unfolding prefilter record_sighting
  prefilter-Filtered secs datagram ep h =
      elim (Option-cases (identify blake3 (now_minutes secs) ep.clients datagram)) [
        | inl none_found ↦ (
          ep,
          none,
          rw none_found refl,
          record { only_replay = refl; aligned = h; client = λ i e. absurd (ground arith) },
        )
        | inr ((parts, i), found) ↦
            let lt = identify-lt blake3 (now_minutes secs) ep.clients datagram parts i found in
            let (g, at) = get_elem?_of_lt ep.replay i (omega (arith, h, lt)) in
            let r = check_and_record g parts.nonce parts.freshness (now_minutes secs) in
            (
              record ep { replay = set ep.replay i r.0 },
              if r.1 then some i else none,
              rw (found, at) refl,
              record {
                only_replay = refl;
                aligned = length-set ep.replay i r.0 ∙ h;
                client = λ j e. elim (Bool-cases r.1) [
                  | inl new ↦ ground (arith, lt, e, new)
                  | inr old ↦ absurd (ground (arith, e, old))
                ];
              },
            )
      ]

  module _ (dec : Discrete K) where
    unchanged :
        (ep : Endpoint float K net) (xs : List K) (v : Verdict)
        → IsGuarded dec ep xs
        → Screened dec ep ep v
    unchanged ep xs v g = record { only_guards = refl; silent = λ _. refl; guarded = (xs, g) }

    examine-Screened :
        (ok : Bool) (secs : Option ℕ) (datagram : List ℕ) (ep : Endpoint float K net) (xs : List K)
        → IsGuarded dec ep xs
        → (s : Endpoint float K net) × (v : Verdict) × (examine blake3 ok secs datagram ep
            ≡ some (s, v))
          × Screened dec ep s v
    unfolding examine install
    examine-Screened false secs datagram ep xs g =
        (ep, Verdict.rejected, refl, unchanged ep xs Verdict.rejected g)
    examine-Screened true secs datagram ep xs g =
        let (s, o, run, f) = prefilter-Filtered secs datagram ep g.aligned in
        let tracks = subst (λ t. Tracks float dec t.rate_limiter xs) (sym f.only_replay) g.tracks in
        let widen : s
            ≡ record ep { inner = s.inner; rate_limiter = s.rate_limiter; replay = s.replay } =
          f.only_replay
          ∙ sym (
              ap {A = Endpoint float K net} {B = Endpoint float K net}
                (λ t. record ep {
                  inner = t.inner;
                  rate_limiter = t.rate_limiter;
                  replay = t.replay;
                })
                f.only_replay) in
        elim (Option-cases o) [
          | inl refused ↦ (
            s,
            Verdict.rejected,
            rw (run, refused) refl,
            record {
              only_guards = widen;
              silent = λ _. ap (λ t. t.inner) f.only_replay;
              guarded = (xs, record { tracks = tracks; aligned = f.aligned });
            },
          )
          | inr (i, found) ↦
              let (c, at) = get_elem?_of_lt s.clients i (f.client i found) in
              (
                record s { inner = net.set_server_config c.server_config s.inner },
                Verdict.passed (some i),
                rw (run, found, at) refl,
                record {
                  only_guards =
                      ap {A = Endpoint float K net} {B = Endpoint float K net}
                        (λ t. record t { inner = net.set_server_config c.server_config s.inner })
                        widen;
                  silent = λ e. absurd (ground arith);
                  guarded = (xs, record { tracks = tracks; aligned = f.aligned });
                },
              )
        ]

    screen_as-Screened :
        (role : Role) (active : Bool) (now : float.Instant) (secs : Option ℕ) (from : SocketAddr K)
        (datagram : List ℕ) (ep : Endpoint float K net) (xs : List K)
        → IsGuarded dec ep xs
        → (s : Endpoint float K net) × (v : Verdict) × (screen_as blake3 dec role active now secs
              from datagram ep
            ≡ some (s, v))
          × Screened dec ep s v
    unfolding screen_as screen_new
    screen_as-Screened Role.client active now secs from datagram ep xs g =
        (ep, Verdict.passed none, refl, unchanged ep xs (Verdict.passed none) g)
    screen_as-Screened Role.server true now secs from datagram ep xs g =
        (ep, Verdict.passed none, refl, unchanged ep xs (Verdict.passed none) g)
    screen_as-Screened Role.server false now secs from datagram ep xs g =
        let (limiter, ok, run, c) =
          check-Checked float dec from.ip now ep.rate_limiter xs g.tracks in
        let (s, v, run', d) =
          examine-Screened ok secs datagram (record ep { rate_limiter = limiter }) _
            (record { tracks = c.tracks; aligned = g.aligned }) in
        (
          s,
          v,
          rw (run, run') refl,
          record { only_guards = d.only_guards; silent = d.silent; guarded = d.guarded },
        )

    -- On every datagram the guards of `handle_datagram` return without a panic and leave the
    -- connections, the routing table, the queues and the timers as they were; a datagram that they
    -- reject has not reached quinn either, so it changes only the rate limiter and the replay guards.
    pub screen-Screened :
        (now : float.Instant) (secs : Option ℕ) (from : SocketAddr K) (datagram : List ℕ)
        (ep : Endpoint float K net) (xs : List K)
        → IsGuarded dec ep xs
        → (s : Endpoint float K net) × (v : Verdict) × (screen blake3 dec now secs from datagram ep
            ≡ some (s, v))
          × Screened dec ep s v
    unfolding screen
    screen-Screened now secs from datagram ep xs g =
        screen_as-Screened ep.role (is_active_dcid datagram ep) now secs from datagram ep xs g
