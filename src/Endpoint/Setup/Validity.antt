-- ===== src/Endpoint/Setup/Validity.antt =====
-- What the constructors of proto/src/endpoint.rs accept, and the state that they start with.
use Prim.Native.String.{String}
use mathlib.Core.Option.{some_inj}
use quietquic.Config.{String_discrete, ClientEntry, ServerSecrets, ConfigError}
use quietquic.Endpoint.{Role, ClientCrypto, Endpoint, ConnectionId-discrete}
use quietquic.Endpoint.Routing.{IsLive}
use quietquic.Endpoint.Setup.{
  Host, check_entries, client_crypto, io_error, build_checked, build_clients, new_endpoint,
}
use quietquic.Endpoint.Silence.{IsGuarded}
use quietquic.Freshness.{window_minutes}
use quietquic.HashMap
use quietquic.HashSet
use quietquic.HashSet.{contains, contains-insert, insert_new}
use quietquic.Net.{Net}
use quietquic.Prelude.{
  ℕ, zero, suc, ◌≡◌, ◌≢◌, ◌⊎◌, refl, ap, sym, ◌∙◌, subst, arith, false, Option, none, some, List,
  [], ◌∷◌, map, length, get_elem?, All, Result, and_then, ok_inj, err-ne-ok, inl, inr,
}
use quietquic.RateLimit.{default}
use quietquic.RateLimit.Bucket.{Floats}
use quietquic.RateLimit.Check.{default-Tracks}
use quietquic.Replay
use quietquic.Replay.{ReplayGuard}

module _ {K Instant : Type 0} {net : Net K Instant} (host : Host net) where
  -- What the loop has found of the first entry, if it accepts the rest.
  record Accepts (entry : ClientEntry) (entries : List ClientEntry) (ids : List String)
      (psks : List (List ℕ)) : Type 0 where
    named : host.trims_to_empty entry.client_id ≡ false
    new_id : contains String_discrete entry.client_id ids ≡ false
    new_psk : contains ConnectionId-discrete entry.psk psks ≡ false
    rest :
        check_entries host entries
          (HashSet.insert String_discrete entry.client_id ids).0
          (HashSet.insert ConnectionId-discrete entry.psk psks).0
        ≡ none

  check_entries-Accepts :
      (entry : ClientEntry) (entries : List ClientEntry) (ids : List String) (psks : List (List ℕ))
      → check_entries host (entry ∷ entries) ids psks ≡ none
      → Accepts entry entries ids psks
  unfolding check_entries
  check_entries-Accepts entry entries ids psks e =
      let i = insert_new String_discrete entry.client_id ids in
      let p = insert_new ConnectionId-discrete entry.psk psks in ground (arith, e, i, p)

  -- What was seen is still seen after an insert.
  unseen_before :
      {A : Type 0} (dec : Discrete A) (a b : A) (xs : List A)
      → contains dec b (HashSet.insert dec a xs).0 ≡ false
      → (contains dec b xs ≡ false) × (a ≢ b)
  unseen_before dec a b xs h = elim (dec a b) [
    | yes same ↦ absurd (ground (arith, contains-insert dec a b xs, h, same))
    | no other ↦ (ground (arith, contains-insert dec a b xs, h, other), other)
  ]

  -- Nothing that is accepted was seen before.
  accepted_unseen :
      (entries : List ClientEntry) (ids : List String) (psks : List (List ℕ)) (i : ℕ)
      (entry : ClientEntry)
      → check_entries host entries ids psks ≡ none
      → get_elem? entries i ≡ some entry
      → (host.trims_to_empty entry.client_id ≡ false)
        × (contains String_discrete entry.client_id ids ≡ false)
        × (contains ConnectionId-discrete entry.psk psks ≡ false)
  accepted_unseen [] ids psks i entry e at = absurd (ground arith)
  accepted_unseen (x ∷ entries) ids psks zero entry e at =
      let a = check_entries-Accepts x entries ids psks e in
      subst
        (λ (y : ClientEntry).
          (host.trims_to_empty y.client_id ≡ false)
          × (contains String_discrete y.client_id ids ≡ false)
          × (contains ConnectionId-discrete y.psk psks ≡ false))
        (some_inj.0 at) (a.named, a.new_id, a.new_psk)
  accepted_unseen (x ∷ entries) ids psks (suc i) entry e at =
      let a = check_entries-Accepts x entries ids psks e in
      let (named, id, psk) = accepted_unseen entries _ _ i entry a.rest at in
      (
        named,
        (unseen_before String_discrete x.client_id entry.client_id ids id).0,
        (unseen_before ConnectionId-discrete x.psk entry.psk psks psk).0,
      )

  -- A later entry differs from the first one.
  later_differs :
      (x : ClientEntry) (entries : List ClientEntry) (ids : List String) (psks : List (List ℕ))
      (i : ℕ) (entry : ClientEntry)
      → check_entries host (x ∷ entries) ids psks ≡ none
      → get_elem? entries i ≡ some entry
      → (x.client_id ≢ entry.client_id) × (x.psk ≢ entry.psk)
  later_differs x entries ids psks i entry e at =
      let a = check_entries-Accepts x entries ids psks e in
      let (_, id, psk) = accepted_unseen entries _ _ i entry a.rest at in
      (
        (unseen_before String_discrete x.client_id entry.client_id ids id).1,
        (unseen_before ConnectionId-discrete x.psk entry.psk psks psk).1,
      )

  entries_apart :
      (entries : List ClientEntry) (ids : List String) (psks : List (List ℕ)) (i j : ℕ)
      (a b : ClientEntry)
      → check_entries host entries ids psks ≡ none
      → get_elem? entries i ≡ some a
      → get_elem? entries j ≡ some b
      → (a.client_id ≡ b.client_id) ⊎ (a.psk ≡ b.psk)
      → i ≡ j
  entries_apart [] ids psks i j a b e at at' same = absurd (ground arith)
  entries_apart (x ∷ entries) ids psks zero zero a b e at at' same = refl
  entries_apart (x ∷ entries) ids psks zero (suc j) a b e at at' same =
      let (id, psk) = later_differs x entries ids psks j b e at' in
      let first = some_inj.0 at in
      elim same [
        | inl h ↦ absurd (id (ap (λ (y : ClientEntry). y.client_id) first ∙ h))
        | inr h ↦ absurd (psk (ap (λ (y : ClientEntry). y.psk) first ∙ h))
      ]
  entries_apart (x ∷ entries) ids psks (suc i) zero a b e at at' same =
      let (id, psk) = later_differs x entries ids psks i a e at in
      let first = some_inj.0 at' in
      elim same [
        | inl h ↦ absurd (id (ap (λ (y : ClientEntry). y.client_id) first ∙ sym h))
        | inr h ↦ absurd (psk (ap (λ (y : ClientEntry). y.psk) first ∙ sym h))
      ]
  entries_apart (x ∷ entries) ids psks (suc i) (suc j) a b e at at' same =
      ap (λ k. suc k)
        (entries_apart entries _ _ i j a b (check_entries-Accepts x entries ids psks e).rest at at'
          same)

  get_elem?-client_crypto :
      (quic_server : host.QuicServerConfig) (entries : List ClientEntry) (i : ℕ)
      (client : ClientCrypto net.ServerConfig)
      → get_elem? (map (client_crypto host quic_server) entries) i ≡ some client
      → (entry : ClientEntry) × (get_elem? entries i ≡ some entry)
        × (entry.client_id ≡ client.client_id)
        × (entry.psk ≡ client.psk)
  unfolding client_crypto
  get_elem?-client_crypto quic_server [] i client at = absurd (ground arith)
  get_elem?-client_crypto quic_server (x ∷ entries) zero client at = (
    x,
    refl,
    ap (λ (c : ClientCrypto _). c.client_id) (some_inj.0 at),
    ap (λ (c : ClientCrypto _). c.psk) (some_inj.0 at),
  )
  get_elem?-client_crypto quic_server (x ∷ entries) (suc i) client at =
      get_elem?-client_crypto quic_server entries i client at

  -- No two clients share a name or a key.
  pub IsApart : List (ClientCrypto net.ServerConfig) → Type 0
  IsApart clients =
      (i j : ℕ) (a b : ClientCrypto net.ServerConfig)
      → get_elem? clients i ≡ some a
      → get_elem? clients j ≡ some b
      → (a.client_id ≡ b.client_id) ⊎ (a.psk ≡ b.psk)
      → i ≡ j

  -- Every client has a name.
  pub IsNamed : List (ClientCrypto net.ServerConfig) → Type 0
  IsNamed clients =
      (i : ℕ) (a : ClientCrypto net.ServerConfig)
      → get_elem? clients i ≡ some a
      → host.trims_to_empty a.client_id ≡ false

  tls_answered :
      (r : Result host.QuicServerConfig String) (entries : List ClientEntry)
      (clients : List (ClientCrypto net.ServerConfig))
      → ◌≡◌ {A = Result (List (ClientCrypto net.ServerConfig)) ConfigError}
          (and_then
            (io_error host r)
            (λ quic_server. Result.ok (map (client_crypto host quic_server) entries)))
          (Result.ok clients)
      → (quic_server : host.QuicServerConfig) × (map (client_crypto host quic_server) entries
          ≡ clients)
  tls_answered (Result.ok quic_server) entries clients e = (quic_server, ok_inj e)
  tls_answered (Result.err text) entries clients e = absurd (err-ne-ok e)

  checked :
      (o : Option ConfigError) (secrets : ServerSecrets K)
      (clients : List (ClientCrypto net.ServerConfig))
      → build_checked host o secrets ≡ Result.ok clients
      → (o ≡ none)
        × ((quic_server : host.QuicServerConfig) × (map
                (client_crypto host quic_server)
                secrets.clients
              ≡ clients))
  unfolding build_checked
  checked (some x) secrets clients e = absurd (err-ne-ok e)
  checked none secrets clients e = (refl, tls_answered host.quic_server secrets.clients clients e)

  build_clients-IsApart :
      (secrets : ServerSecrets K) (clients : List (ClientCrypto net.ServerConfig))
      → build_clients host secrets ≡ Result.ok clients
      → IsApart clients × IsNamed clients
  unfolding build_clients IsApart IsNamed
  build_clients-IsApart secrets clients e =
      let (valid, (quic_server, built)) =
        checked (check_entries host secrets.clients [] []) secrets clients e in
      (
        λ i j a b at at' same.
            let (x, at_x, id, psk) =
              get_elem?-client_crypto quic_server secrets.clients i a
                (ap (λ c. get_elem? c i) built ∙ at) in
            let (y, at_y, id', psk') =
              get_elem?-client_crypto quic_server secrets.clients j b
                (ap (λ c. get_elem? c j) built ∙ at') in
            entries_apart secrets.clients [] [] i j x y valid at_x at_y
              (elim same [ inl h ↦ inl (id ∙ h ∙ sym id') | inr h ↦ inr (psk ∙ h ∙ sym psk') ]),
        λ i a at.
            let (x, at_x, id, _) =
              get_elem?-client_crypto quic_server secrets.clients i a
                (ap (λ c. get_elem? c i) built ∙ at) in
            ap host.trims_to_empty (sym id)
            ∙ (accepted_unseen secrets.clients [] [] i x valid at_x).0,
      )

length-replay :
    {S : Type 0} (clients : List (ClientCrypto S))
    → length (map (λ _. Replay.new window_minutes) clients) ≡ length clients
length-replay [] = refl
length-replay (c ∷ clients) = omega (arith, length-replay clients)

windows-replay :
    {S : Type 0} (clients : List (ClientCrypto S))
    → All
        (λ (g : ReplayGuard). g.window ≡ window_minutes)
        (map (λ _. Replay.new window_minutes) clients)
unfolding Replay.new
windows-replay [] = tt
windows-replay (c ∷ clients) = (refl, windows-replay clients)

module _ {float : Floats} {K : Type 0} {net : Net K float.Instant} (host : Host net)
    (dec : Discrete K) where
  -- The state in which a server starts.
  pub record Started (ep : Endpoint float K net) : Type 0 where
    pub apart : IsApart host ep.clients
    pub named : IsNamed host ep.clients
    pub guarded : IsGuarded dec ep []
    pub windows : All (λ (g : ReplayGuard). g.window ≡ window_minutes) ep.replay
    pub live : IsLive ep
    pub limiter : ep.rate_limiter ≡ default float dec
    pub nothing_routes : ep.issued_cids ≡ []
    pub nothing_pending : ep.pending_cids ≡ []
    pub no_connections : ep.connections ≡ []
    pub idle : (ep.outbound ≡ []) × (ep.events ≡ []) × (ep.next_timeout ≡ none)
    pub serves : ep.role ≡ Role.server

  started :
      (clients : List (ClientCrypto net.ServerConfig))
      → IsApart host clients × IsNamed host clients
      → Started (new_endpoint host dec Role.server clients none host.endpoint)
  unfolding new_endpoint contains HashMap.get
  started clients valid = record {
    apart = valid.0;
    named = valid.1;
    guarded = record { tracks = default-Tracks float dec; aligned = length-replay clients };
    windows = windows-replay clients;
    live = record {
      routed = λ cid issued. absurd (ground arith);
      older = λ ch live. absurd (ground arith);
    };
    limiter = refl;
    nothing_routes = refl;
    nothing_pending = refl;
    no_connections = refl;
    idle = (refl, refl, refl);
    serves = refl;
  }

  built :
      (r : Result (List (ClientCrypto net.ServerConfig)) ConfigError) (secrets : ServerSecrets K)
      (ep : Endpoint float K net)
      → build_clients host secrets ≡ r
      → ◌≡◌ {A = Result (Endpoint float K net) ConfigError}
          (and_then r
            (λ clients. Result.ok (new_endpoint host dec Role.server clients none host.endpoint)))
          (Result.ok ep)
      → Started ep
  built (Result.ok clients) secrets ep b e =
      subst Started (ok_inj e) (started clients (build_clients-IsApart host secrets clients b))
  built (Result.err x) secrets ep b e = absurd (err-ne-ok e)
