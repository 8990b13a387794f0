-- ===== src/Endpoint/Admission.antt =====
-- `prefilter` of proto/src/endpoint.rs: which datagrams it admits, and that it admits none twice.
use quietquic.Endpoint.{ClientCrypto, Endpoint}
use quietquic.Endpoint.Datagram.{position, select_psk, identify, record_sighting, prefilter}
use quietquic.Endpoint.Silence.{Identified, identify-Identified, prefilter-Filtered}
use quietquic.Freshness.{now_minutes, is_fresh, is_fresh_iff, window_minutes}
use quietquic.Net.{Net}
use quietquic.Prelude.{
  ℕ, zero, suc, ◌+◌, ◌<◌, ◌≤◌, ◌^◌, ◌≡◌, ◌≢◌, ◌↔◌, refl, ap, ◌∙◌, sym, subst, Bool, true, false,
  Option, none, some, List, [], ◌∷◌, ◌++◌, arith, length, get_elem?, set, Bool-cases, Option-cases,
  inl, inr, ◌>>=◌, ◌==◌, ==_iff, ℕ_discrete, get_elem?-set_self, get_elem?-set_other, bind_some,
  All,
}
use mathlib.Core.Option.{some_inj}
use quietquic.RateLimit.Bucket.{Floats}
use quietquic.Replay.{Sighting, ReplayGuard, check_and_record}
use quietquic.Replay.History.{
  is_in, accepted-check_and_record, seen-check_and_record, window-check_and_record,
}
use quietquic.Selector.{
  Blake3, DcidParts, dcid_len, parse_dcid, build_dcid, compute_selector, selector_matches,
}
use quietquic.Selector.Bytes.{IsByte}
use quietquic.Selector.Wire.{
  parse_dcid-length, parse_dcid_fields, parse_dcid-build_dcid, selector_matches-build_dcid_iff,
}
use quietquic.Transport.{peek_dcid}
use quietquic.Transport.Header.{LongHeader, peek_dcid_iff}

position_found :
    {A : Type 0} (p : A → Bool) (xs : List A) (i : ℕ)
    → position p xs ≡ some i
    → (x : A) × (get_elem? xs i ≡ some x) × (p x ≡ true)
unfolding position
position_found p [] i e = absurd (ground arith)
position_found p (x ∷ xs) i e = elim (Bool-cases (p x)) [
  | inl here ↦ (x, ground (arith, here, e), here)
  | inr there ↦ elim (Option-cases (position p xs)) [
    | inl missing ↦ absurd (ground arith)
    | inr (j, found) ↦
        let (y, at, holds) = position_found p xs j found in
        (y, ground (arith, at, there, found, e), holds)
  ]
]

position_first :
    {A : Type 0} (p : A → Bool) (xs : List A) (i : ℕ) (x : A)
    → get_elem? xs i ≡ some x
    → p x ≡ true
    → ((j : ℕ) (y : A) → j < i → get_elem? xs j ≡ some y → p y ≡ false)
    → position p xs ≡ some i
unfolding position
position_first p [] i x at holds first = absurd (ground arith)
position_first p (y ∷ xs) zero x at holds first = ground arith
position_first p (y ∷ xs) (suc i) x at holds first =
    rw
      (
        first 0 y (omega arith) refl,
        position_first p xs i x at holds (λ j z h e. first (suc j) z (omega arith) e),
      )
      refl

All-prefix : {A : Type 0} (P : A → Type 0) (xs ys : List A) → All P (xs ++ ys) → All P xs
All-prefix P [] ys h = tt
All-prefix P (x ∷ xs) ys h = (h.0, All-prefix P xs ys h.1)

dcid_bytes :
    (datagram dcid : List ℕ) → All IsByte datagram → LongHeader datagram dcid → All IsByte dcid
dcid_bytes datagram dcid h p =
    let flag = subst (All IsByte) p.layout h in All-prefix IsByte dcid p.payload flag.1.1.1.1.1.1

All-get_elem? :
    {A : Type 0} (P : A → Type 0) (xs : List A) (i : ℕ) (x : A)
    → All P xs
    → get_elem? xs i ≡ some x
    → P x
All-get_elem? P [] i x h e = absurd (ground arith)
All-get_elem? P (y ∷ xs) zero x h e = subst P (some_inj.0 e) h.0
All-get_elem? P (y ∷ xs) (suc i) x h e = All-get_elem? P xs i x h.1 e

All-weaken :
    {A : Type 0} {P Q : A → Type 0} → ((a : A) → P a → Q a) → (xs : List A) → All P xs → All Q xs
All-weaken f [] h = tt
All-weaken f (x ∷ xs) h = (f x h.0, All-weaken f xs h.1)

is_fresh-le :
    (freshness now : ℕ)
    → is_fresh freshness now window_minutes ≡ true
    → now ≤ freshness + window_minutes
unfolding is_fresh
is_fresh-le freshness now h = ground arith

module _ (blake3 : Blake3) {S : Type 0} where
  -- What the holder of a client's key has to have sent.
  pub record Authorized (clients : List (ClientCrypto S)) (minute : ℕ) (datagram : List ℕ) (i : ℕ)
      : Type 0 where
    pub client : ClientCrypto S
    pub nonce : List ℕ
    pub freshness : ℕ
    pub at : get_elem? clients i ≡ some client
    pub header : LongHeader datagram (build_dcid blake3 client.psk nonce freshness)
    pub early : minute ≤ freshness + window_minutes
    pub late : freshness ≤ minute + window_minutes

  pub identify-Authorized :
      (clients : List (ClientCrypto S)) (minute : ℕ) (datagram : List ℕ) (parts : DcidParts) (i : ℕ)
      → All IsByte datagram
      → identify blake3 minute clients datagram ≡ some (parts, i)
      → Authorized clients minute datagram i
  unfolding select_psk
  identify-Authorized clients minute datagram parts i h e =
      let d = identify-Identified blake3 minute clients datagram parts i e in
      let (client, at, matches) = position_found _ clients i d.selected in
      let header = (peek_dcid_iff datagram d.dcid h).0 d.peeked in
      let bytes = dcid_bytes datagram d.dcid h header in
      let (_, _, small, _) = parse_dcid_fields d.dcid parts bytes d.parsed in
      let (early, late) = (is_fresh_iff parts.freshness minute window_minutes small).0 d.fresh in
      let built =
        (selector_matches-build_dcid_iff blake3 client.psk d.dcid parts bytes d.parsed).0 matches in
      record {
        client = client;
        nonce = parts.nonce;
        freshness = parts.freshness;
        at = at;
        header = rw built header;
        early = early;
        late = late;
      }

module _ (blake3 : Blake3) {float : Floats} {K : Type 0} {net : Net K float.Instant} where
  -- What an admission has established, and what it records.
  pub record Admitted (minute : ℕ) (found : Option (DcidParts × ℕ)) (ep s : Endpoint float K net)
      (i : ℕ) : Type 0 where
    pub parts : DcidParts
    pub replay : ReplayGuard
    pub identified : found ≡ some (parts, i)
    pub indexed : get_elem? ep.replay i ≡ some replay
    pub is_new : (check_and_record replay parts.nonce parts.freshness minute).1 ≡ true
    pub recorded : s ≡ record ep {
      replay = set ep.replay i (check_and_record replay parts.nonce parts.freshness minute).0;
    }

  record_sighting-Admitted :
      (minute : ℕ) (found : Option (DcidParts × ℕ)) (ep s : Endpoint float K net) (i : ℕ)
      → record_sighting blake3 minute found ep ≡ some (s, some i)
      → Admitted minute found ep s i
  unfolding record_sighting
  record_sighting-Admitted minute none ep s i e = absurd (ground arith)
  record_sighting-Admitted minute (some (parts, j)) ep s i e =
      let (g, at, e1) = bind_some (get_elem? ep.replay j) _ _ e in
      let same = some_inj.0 e1 in
      let r = check_and_record g parts.nonce parts.freshness minute in
      elim (Bool-cases r.1) [
        | inl new ↦
            let index : j ≡ i = ground (arith, ap (λ x. x.1) same, new) in
            subst (λ k. Admitted minute (some (parts, j)) ep s k) index
              (record {
                parts = parts;
                replay = g;
                identified = refl;
                indexed = at;
                is_new = new;
                recorded = sym (ap (λ x. x.0) same);
              })
        | inr old ↦ absurd (ground (arith, ap (λ x. x.1) same, old))
      ]

  prefilter-Admitted :
      (secs : Option ℕ) (datagram : List ℕ) (ep s : Endpoint float K net) (i : ℕ)
      → prefilter blake3 secs datagram ep ≡ some (s, some i)
      → Admitted (now_minutes secs) (identify blake3 (now_minutes secs) ep.clients datagram) ep s i
  unfolding prefilter
  prefilter-Admitted secs datagram ep s i e = record_sighting-Admitted _ _ ep s i e

  -- A datagram that the pre-filter admits is a long header whose connection ID is the one that the
  -- holder of the selected client's key builds, for a minute at most the window away from now.
  pub prefilter_sound :
      (secs : Option ℕ) (datagram : List ℕ) (ep s : Endpoint float K net) (i : ℕ)
      → All IsByte datagram
      → prefilter blake3 secs datagram ep ≡ some (s, some i)
      → (client : ClientCrypto net.ServerConfig) × (nonce : List ℕ) × (freshness : ℕ) × (get_elem?
            ep.clients i
          ≡ some client)
        × LongHeader datagram (build_dcid blake3 client.psk nonce freshness)
        × (now_minutes secs ≤ freshness + window_minutes)
        × (freshness ≤ now_minutes secs + window_minutes)
  prefilter_sound secs datagram ep s i h e =
      let a = prefilter-Admitted secs datagram ep s i e in
      let u =
        identify-Authorized blake3 ep.clients (now_minutes secs) datagram a.parts i h
          a.identified in
      (u.client, u.nonce, u.freshness, u.at, u.header, u.early, u.late)

  -- The datagram of a client is admitted as that client: if its minute is at most the window away
  -- from now, its key is the first of the list that builds its connection ID, and the client's guard
  -- has not seen its nonce and minute.
  pub prefilter_complete :
      (secs : Option ℕ) (datagram : List ℕ) (ep : Endpoint float K net) (i : ℕ)
      (client : ClientCrypto net.ServerConfig) (guard_of : ReplayGuard) (nonce : List ℕ)
      (freshness : ℕ)
      → All IsByte datagram
      → LongHeader datagram (build_dcid blake3 client.psk nonce freshness)
      → length nonce ≡ 8
      → freshness < 2 ^ 32
      → now_minutes secs ≤ freshness + window_minutes
      → freshness ≤ now_minutes secs + window_minutes
      → get_elem? ep.clients i ≡ some client
      → ((j : ℕ) (other : ClientCrypto net.ServerConfig)
          → j < i
          → get_elem? ep.clients j ≡ some other
          → build_dcid blake3 other.psk nonce freshness
            ≢ build_dcid blake3 client.psk nonce freshness)
      → get_elem? ep.replay i ≡ some guard_of
      → is_in (nonce, freshness) guard_of ≡ false
      → (s : Endpoint float K net) × (prefilter blake3 secs datagram ep ≡ some (s, some i))
  unfolding prefilter record_sighting identify select_psk
  prefilter_complete secs datagram ep i client g nonce freshness h header l small early late at
        first guarded unseen =
      (
        record ep {
          replay = set ep.replay i (check_and_record g nonce freshness (now_minutes secs)).0;
        },
        rw (peeked, exact, parsed, fresh, selected, guarded, new) refl,
      )
    where
      dcid : List ℕ
      dcid = build_dcid blake3 client.psk nonce freshness

      parts : DcidParts
      parts = record {
        nonce = nonce;
        freshness = freshness;
        selector = compute_selector blake3 client.psk nonce freshness;
      }

      peeked : peek_dcid datagram ≡ some dcid
      peeked = (peek_dcid_iff datagram dcid h).1 header

      bytes : All IsByte dcid
      bytes = dcid_bytes datagram dcid h header

      parsed : parse_dcid dcid ≡ some parts
      parsed = parse_dcid-build_dcid blake3 client.psk nonce freshness l small

      exact : (length dcid == dcid_len) ≡ true
      exact = (==_iff _ _).1 (parse_dcid-length dcid parts parsed)

      fresh : is_fresh freshness (now_minutes secs) window_minutes ≡ true
      fresh = (is_fresh_iff freshness (now_minutes secs) window_minutes small).1 (early, late)

      matches :
          (psk : List ℕ)
          → (selector_matches blake3 psk parts ≡ true)
            ↔ (build_dcid blake3 psk nonce freshness ≡ dcid)
      matches psk = selector_matches-build_dcid_iff blake3 psk dcid parts bytes parsed

      selected : select_psk blake3 ep.clients parts ≡ some i
      selected =
          position_first _ ep.clients i client at ((matches client.psk).1 refl) (λ j other lt e.
            elim (Bool-cases (selector_matches blake3 other.psk parts)) [
              | inl yes_ ↦ absurd (first j other lt e ((matches other.psk).0 yes_))
              | inr no_ ↦ no_
            ])

      new : (check_and_record g nonce freshness (now_minutes secs)).1 ≡ true
      new = ground (arith, accepted-check_and_record g nonce freshness (now_minutes secs), unseen)

  -- A guard of the configured window that holds a sighting.
  record Holds (i : ℕ) (s : Sighting) (ep : Endpoint float K net) : Type 0 where
    replay : ReplayGuard
    indexed : get_elem? ep.replay i ≡ some replay
    window : replay.window ≡ window_minutes
    seen : is_in s replay ≡ true

  -- Calls of the pre-filter, one after the other, with what they answer left aside.
  unfoldable pub prefilter_many :
      List (Option ℕ × List ℕ) → Endpoint float K net → Option (Endpoint float K net)
  prefilter_many [] ep = some ep
  prefilter_many ((secs, datagram) ∷ calls) ep = do
    r ← prefilter blake3 secs datagram ep
    prefilter_many calls r.0

  Holds-record_sighting :
      (minute : ℕ) (found : Option (DcidParts × ℕ)) (ep t : Endpoint float K net) (o : Option ℕ)
      (i : ℕ) (s : Sighting)
      → record_sighting blake3 minute found ep ≡ some (t, o)
      → minute ≤ s.1 + window_minutes
      → Holds i s ep
      → Holds i s t
  unfolding record_sighting
  Holds-record_sighting minute none ep t o i s e le h =
      subst (Holds i s) (ap (λ x. x.0) (some_inj.0 e)) h
  Holds-record_sighting minute (some (parts, j)) ep t o i s e le h =
      let (g, at, e1) = bind_some (get_elem? ep.replay j) _ _ e in
      let r = check_and_record g parts.nonce parts.freshness minute in
      subst (Holds i s) (ap (λ x. x.0) (some_inj.0 e1)) (elim (ℕ_discrete j i) [
        | yes same ↦
            let here : g ≡ h.replay =
              some_inj.0 (sym at ∙ ap (get_elem? ep.replay) same ∙ h.indexed) in
            record {
              replay = r.0;
              indexed =
                  subst (λ k. get_elem? (set ep.replay j r.0) k ≡ some r.0) same
                    (get_elem?-set_self ep.replay j r.0 at);
              window =
                  window-check_and_record g parts.nonce parts.freshness minute
                  ∙ ap (λ x. x.window) here
                  ∙ h.window;
              seen = ground (
                arith,
                seen-check_and_record g parts.nonce parts.freshness minute s,
                ap (λ x. x.window) here,
                ap (is_in s) here,
                h.window,
                h.seen,
                le,
              );
            }
        | no other ↦ record {
          replay = h.replay;
          indexed = get_elem?-set_other ep.replay j i r.0 other ∙ h.indexed;
          window = h.window;
          seen = h.seen;
        }
      ])

  Holds-prefilter_many :
      (calls : List (Option ℕ × List ℕ)) (ep t : Endpoint float K net) (i : ℕ) (s : Sighting)
      → prefilter_many calls ep ≡ some t
      → All (λ (c : Option ℕ × List ℕ). now_minutes c.0 ≤ s.1 + window_minutes) calls
      → Holds i s ep
      → Holds i s t
  unfolding prefilter_many prefilter
  Holds-prefilter_many [] ep t i s e le h = subst (Holds i s) (some_inj.0 e) h
  Holds-prefilter_many ((secs, datagram) ∷ calls) ep t i s e le h =
      let ((u, o), run, e1) = bind_some (prefilter blake3 secs datagram ep) _ _ e in
      Holds-prefilter_many calls u t i s e1 le.1
        (Holds-record_sighting (now_minutes secs) _ ep u o i s run le.0 h)

  -- The clients stay, and each keeps its guard.
  clients-prefilter :
      (secs : Option ℕ) (datagram : List ℕ) (ep t : Endpoint float K net) (o : Option ℕ)
      → length ep.replay ≡ length ep.clients
      → prefilter blake3 secs datagram ep ≡ some (t, o)
      → (t.clients ≡ ep.clients) × (length t.replay ≡ length t.clients)
  clients-prefilter secs datagram ep t o h e =
      let (u, _, run, f) = prefilter-Filtered blake3 secs datagram ep h in
      let same = ap (λ x. x.0) (some_inj.0 (sym run ∙ e)) in
      (
        sym (ap (λ (x : Endpoint float K net). x.clients) same)
            ∙ ap (λ (x : Endpoint float K net). x.clients) f.only_replay,
        subst (λ (x : Endpoint float K net). length x.replay ≡ length x.clients) same f.aligned,
      )

  clients-prefilter_many :
      (calls : List (Option ℕ × List ℕ)) (ep t : Endpoint float K net)
      → length ep.replay ≡ length ep.clients
      → prefilter_many calls ep ≡ some t
      → t.clients ≡ ep.clients
  unfolding prefilter_many
  clients-prefilter_many [] ep t h e =
      ap (λ (x : Endpoint float K net). x.clients) (some_inj.0 (sym e))
  clients-prefilter_many ((secs, datagram) ∷ calls) ep t h e =
      let ((u, o), run, e1) = bind_some (prefilter blake3 secs datagram ep) _ _ e in
      let (same, aligned) = clients-prefilter secs datagram ep u o h run in
      clients-prefilter_many calls u t aligned e1 ∙ same

  Holds-refuses :
      (secs : Option ℕ) (datagram : List ℕ) (ep : Endpoint float K net) (i : ℕ) (parts : DcidParts)
      → identify blake3 (now_minutes secs) ep.clients datagram ≡ some (parts, i)
      → Holds i (parts.nonce, parts.freshness) ep
      → now_minutes secs ≤ parts.freshness + window_minutes
      → (u : Endpoint float K net) × (prefilter blake3 secs datagram ep ≡ some (u, none))
  unfolding prefilter record_sighting
  Holds-refuses secs datagram ep i parts e h le =
      let r = check_and_record h.replay parts.nonce parts.freshness (now_minutes secs) in
      let old : r.1 ≡ false = ground (
        arith,
        accepted-check_and_record h.replay parts.nonce parts.freshness (now_minutes secs),
        h.seen,
        h.window,
        le,
      ) in
      (record ep { replay = set ep.replay i r.0 }, rw (e, h.indexed, old) refl)

  Admitted-Holds :
      (minute : ℕ) (found : Option (DcidParts × ℕ)) (ep s : Endpoint float K net) (i : ℕ)
      → All (λ (g : ReplayGuard). g.window ≡ window_minutes) ep.replay
      → (a : Admitted minute found ep s i) → Holds i (a.parts.nonce, a.parts.freshness) s
  Admitted-Holds minute found ep s i w a =
      let r = check_and_record a.replay a.parts.nonce a.parts.freshness minute in
      subst (Holds i (a.parts.nonce, a.parts.freshness)) (sym a.recorded) (record {
        replay = r.0;
        indexed = get_elem?-set_self ep.replay i r.0 a.indexed;
        window =
            window-check_and_record a.replay a.parts.nonce a.parts.freshness minute
            ∙ All-get_elem? _ ep.replay i a.replay w a.indexed;
        seen = ground (
          arith,
          seen-check_and_record a.replay a.parts.nonce a.parts.freshness minute
              (a.parts.nonce, a.parts.freshness),
        );
      })

  -- No connection ID is admitted twice: whatever the pre-filter sees after it has admitted one, it
  -- rejects every datagram that carries the same one, as long as the clock is not set back between
  -- the calls. Each client has a guard, and the guards have the configured window.
  pub prefilter_once :
      (secs secs' : Option ℕ) (datagram datagram' : List ℕ) (ep s t : Endpoint float K net) (i : ℕ)
      (calls : List (Option ℕ × List ℕ))
      → length ep.replay ≡ length ep.clients
      → All (λ (g : ReplayGuard). g.window ≡ window_minutes) ep.replay
      → prefilter blake3 secs datagram ep ≡ some (s, some i)
      → prefilter_many calls s ≡ some t
      → All (λ (c : Option ℕ × List ℕ). now_minutes c.0 ≤ now_minutes secs') calls
      → peek_dcid datagram' ≡ peek_dcid datagram
      → (u : Endpoint float K net) × (prefilter blake3 secs' datagram' t ≡ some (u, none))
  unfolding prefilter record_sighting identify
  prefilter_once secs secs' datagram datagram' ep s t i calls h w e many clock same =
      elim (Bool-cases (is_fresh a.parts.freshness (now_minutes secs') window_minutes)) [
        | inl fresh ↦
            let le = is_fresh-le a.parts.freshness (now_minutes secs') fresh in
            Holds-refuses secs' datagram' t i a.parts
              (rw (peeked, exact, d.parsed, fresh, selected) refl)
              (Holds-prefilter_many calls s t i (a.parts.nonce, a.parts.freshness) many
                (All-weaken (λ c k. omega arith) calls clock)
                (Admitted-Holds (now_minutes secs) _ ep s i w a))
              le
        | inr stale ↦ (t, rw (peeked, exact, d.parsed, stale) refl)
      ]
    where
      a :
          Admitted
            (now_minutes secs)
            (identify blake3 (now_minutes secs) ep.clients datagram)
            ep
            s
            i
      a = prefilter-Admitted secs datagram ep s i e

      d : Identified blake3 (now_minutes secs) ep.clients datagram a.parts i
      d = identify-Identified blake3 (now_minutes secs) ep.clients datagram a.parts i a.identified

      peeked : peek_dcid datagram' ≡ some d.dcid
      peeked = same ∙ d.peeked

      exact : (length d.dcid == dcid_len) ≡ true
      exact = (==_iff _ _).1 (parse_dcid-length d.dcid a.parts d.parsed)

      kept : (s.clients ≡ ep.clients) × (length s.replay ≡ length s.clients)
      kept = clients-prefilter secs datagram ep s (some i) h e

      selected : select_psk blake3 t.clients a.parts ≡ some i
      selected =
          ap (λ c. select_psk blake3 c a.parts)
            (clients-prefilter_many calls s t kept.1 many ∙ kept.0)
          ∙ d.selected
