-- ===== src/Endpoint/Unanswered.antt =====
-- `handle_datagram` of proto/src/endpoint.rs on a datagram that no client has sent.
use quietquic.Endpoint.{Role, ClientCrypto, Endpoint, Verdict}
use quietquic.Endpoint.Admission.{identify-Authorized}
use quietquic.Endpoint.Datagram.{
  is_active_dcid, identify, record_sighting, prefilter, install, examine, screen_new, screen_as,
  screen,
}
use quietquic.Endpoint.Drive.{enter, handle_datagram}
use quietquic.Endpoint.Silence.{IsGuarded}
use quietquic.Freshness.{now_minutes, window_minutes}
use quietquic.Net.{Net}
use quietquic.Outcome.{SocketAddr, DatagramOutcome}
use quietquic.Prelude.{
  ℕ, ◌+◌, ◌≤◌, ◌≡◌, refl, arith, Bool, true, false, Option, none, some, List, get_elem?,
  Option-cases, inl, inr, All,
}
use quietquic.RateLimit.{RateLimiter}
use quietquic.RateLimit.Bucket.{Floats}
use quietquic.RateLimit.Check.{check-Checked}
use quietquic.Selector.{Blake3, build_dcid}
use quietquic.Selector.Bytes.{IsByte}
use quietquic.Transport.Header.{LongHeader}

module _ (blake3 : Blake3) {S : Type 0} where
  -- No client holds a key that builds the datagram's connection ID for a fresh minute.
  unfoldable pub IsForeign : List (ClientCrypto S) → ℕ → List ℕ → Type 0
  IsForeign clients minute datagram =
      (i : ℕ) (client : ClientCrypto S) (nonce : List ℕ) (freshness : ℕ)
      → get_elem? clients i ≡ some client
      → minute ≤ freshness + window_minutes
      → freshness ≤ minute + window_minutes
      → ¬ (LongHeader datagram (build_dcid blake3 client.psk nonce freshness))

  identify-IsForeign :
      (clients : List (ClientCrypto S)) (minute : ℕ) (datagram : List ℕ)
      → All IsByte datagram
      → IsForeign clients minute datagram
      → identify blake3 minute clients datagram ≡ none
  unfolding IsForeign
  identify-IsForeign clients minute datagram h foreign =
      elim (Option-cases (identify blake3 minute clients datagram)) [
        | inl nobody ↦ nobody
        | inr ((parts, i), found) ↦
            let a = identify-Authorized blake3 clients minute datagram parts i h found in
            absurd (foreign i a.client a.nonce a.freshness a.at a.early a.late a.header)
      ]

module _ (blake3 : Blake3) {float : Floats} {K : Type 0} {net : Net K float.Instant} where
  examine-IsForeign :
      (ok : Bool) (secs : Option ℕ) (datagram : List ℕ) (ep : Endpoint float K net)
      → identify blake3 (now_minutes secs) ep.clients datagram ≡ none
      → examine blake3 ok secs datagram ep ≡ some (ep, Verdict.rejected)
  unfolding examine prefilter record_sighting install
  examine-IsForeign false secs datagram ep nobody = refl
  examine-IsForeign true secs datagram ep nobody = rw nobody refl

  screen_as-IsForeign :
      (dec : Discrete K) (role : Role) (active : Bool) (now : float.Instant) (secs : Option ℕ)
      (from : SocketAddr K) (datagram : List ℕ) (ep : Endpoint float K net) (xs : List K)
      → IsGuarded dec ep xs
      → role ≡ Role.server
      → active ≡ false
      → identify blake3 (now_minutes secs) ep.clients datagram ≡ none
      → (limiter : RateLimiter float K) × (screen_as blake3 dec role active now secs from datagram
            ep
          ≡ some (record ep { rate_limiter = limiter }, Verdict.rejected))
  unfolding screen_as screen_new
  screen_as-IsForeign dec Role.client active now secs from datagram ep xs g e inactive nobody =
      absurd (ground arith)
  screen_as-IsForeign dec Role.server true now secs from datagram ep xs g e inactive nobody =
      absurd (ground arith)
  screen_as-IsForeign dec Role.server false now secs from datagram ep xs g e inactive nobody =
      let (limiter, ok, run, _) = check-Checked float dec from.ip now ep.rate_limiter xs g.tracks in
      (limiter, rw run (examine-IsForeign ok secs datagram _ nobody))

  -- The endpoint is silent to strangers: a server answers a datagram that carries none of its own
  -- connection IDs, and whose connection ID no client's key builds for a minute at most the window
  -- away from now, by dropping it. Nothing but the rate limiter changes: quinn does not see the
  -- datagram, nothing is queued to be sent, no event is raised and no replay guard records it.
  pub handle_datagram_silent :
      (dec : Discrete K) (now : float.Instant) (secs : Option ℕ) (from : SocketAddr K)
      (datagram : List ℕ) (ep : Endpoint float K net) (xs : List K)
      → IsGuarded dec ep xs
      → ep.role ≡ Role.server
      → is_active_dcid datagram ep ≡ false
      → All IsByte datagram
      → IsForeign blake3 ep.clients (now_minutes secs) datagram
      → (s : Endpoint float K net) × (handle_datagram blake3 dec now secs from datagram ep
          ≡ some (s, DatagramOutcome.dropped))
        × (s ≡ record ep { rate_limiter = s.rate_limiter })
  unfolding handle_datagram screen enter
  handle_datagram_silent dec now secs from datagram ep xs g server inactive h foreign =
      let (limiter, run) =
        screen_as-IsForeign dec ep.role _ now secs from datagram ep xs g server inactive
          (identify-IsForeign blake3 ep.clients (now_minutes secs) datagram h foreign) in
      (record ep { rate_limiter = limiter }, rw run refl, refl)
