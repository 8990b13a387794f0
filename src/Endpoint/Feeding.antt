-- ===== src/Endpoint/Feeding.antt =====
-- `feed` of proto/src/endpoint.rs against the invariant of the routing set.
use quietquic.Endpoint.{Role, Endpoint, mint, sweep_orphan_cids}
use quietquic.Endpoint.Datagram.{
  queue_transmit, queue_response, admit, swept, on_incoming, deliver, on_datagram_event, feed,
}
use quietquic.HashMap
use quietquic.HashMap.{get-insert, get-remove, is_some-get-modify, is_some-get-insert}
use quietquic.Net.{ConnectionId, DatagramEvent, Net}
use quietquic.Outcome.{SocketAddr, DatagramOutcome}
use quietquic.Prelude.{
  ℕ, ◌+◌, ◌<◌, ◌^◌, ◌≡◌, ◌⊎◌, inl, inr, refl, ◌∙◌, sym, subst, Option, none, some, List, [], ◌∷◌,
  arith, length, ℕ_discrete,
}
use quietquic.RateLimit.Bucket.{Floats}
use quietquic.Endpoint.Routing.{
  IsLive, mint-IsLive, queue_transmit-IsLive, sweep_orphan_cids-IsLive, deliver-IsLive,
}
use quietquic.Endpoint.Adoption.{register-Live}

module _ {K Instant : Type 0} (net : Net K Instant) where
  abbrev Handling : Type 0
  Handling = Option (DatagramEvent net.Incoming net.ConnectionEvent)

  -- The event opens a connection at a server, and no client was admitted for it.
  IsUnadmitted : Handling → Role → Option ℕ → Type 0
  IsUnadmitted event role admitted =
      (admitted ≡ none)
      × (role ≡ Role.server)
      × ((incoming : net.Incoming) × (event ≡ some (DatagramEvent.new_connection incoming)))

module _ {float : Floats} {K : Type 0} {net : Net K float.Instant} where
  -- The fields that `mint` and the queues leave alone.
  unfoldable pub Keeps : Endpoint float K net → Endpoint float K net → Type 0
  Keeps ep s =
      (s.next_generation ≡ ep.next_generation) × (s.clients ≡ ep.clients) × (s.role ≡ ep.role)

  pub mint-Keeps : (cids : List ConnectionId) (ep : Endpoint float K net) → Keeps ep (mint cids ep)
  unfolding mint Keeps
  mint-Keeps [] ep = (refl, refl, refl)
  mint-Keeps (cid ∷ cids) ep = mint-Keeps cids _

  pub queue_response-Keeps :
      (role : Role) (from : SocketAddr K) (resp : List ℕ) (ep : Endpoint float K net)
      → Keeps ep (queue_response role from resp ep)
  unfolding queue_response queue_transmit Keeps
  queue_response-Keeps Role.client from resp ep = (refl, refl, refl)
  queue_response-Keeps Role.server from [] ep = (refl, refl, refl)
  queue_response-Keeps Role.server from (b ∷ bs) ep = (refl, refl, refl)

  queue_response-IsLive :
      (role : Role) (from : SocketAddr K) (resp : List ℕ) (ep : Endpoint float K net)
      → IsLive ep
      → IsLive (queue_response role from resp ep)
  unfolding queue_response
  queue_response-IsLive Role.client from resp ep l = l
  queue_response-IsLive Role.server from resp ep l = queue_transmit-IsLive from resp ep l

  -- What handling an event comes to.
  Settles :
      Handling net → Role → Option ℕ → Option (Endpoint float K net × DatagramOutcome) → Type 0
  Settles event role admitted r =
      (s : Endpoint float K net) × (o : DatagramOutcome) × (r ≡ some (s, o))
      × IsLive s
      × ((s.pending_cids ≡ []) ⊎ IsUnadmitted net event role admitted)

  swept-Settles :
      (event : Handling net) (role : Role) (admitted : Option ℕ) (ep : Endpoint float K net)
      (o : DatagramOutcome)
      → IsLive ep
      → Settles event role admitted (some (swept (ep, o)))
  unfolding Settles swept
  swept-Settles event role admitted ep o l =
      let (live, settled) = sweep_orphan_cids-IsLive ep l in
      (sweep_orphan_cids ep, o, refl, live, inl settled)

  on_incoming-Settles :
      (role : Role) (admitted : Option ℕ) (now : float.Instant) (incoming : net.Incoming)
      (ep : Endpoint float K net)
      → IsLive ep
      → ep.next_generation + 1 < 2 ^ 64
      → ((i : ℕ) → admitted ≡ some i → i < length ep.clients)
      → Settles
          (some (DatagramEvent.new_connection incoming))
          role
          admitted
          (on_incoming role admitted now incoming ep)
  unfolding on_incoming admit Settles IsUnadmitted Keeps swept
  on_incoming-Settles Role.client admitted now incoming ep l fits known =
      swept-Settles _ Role.client admitted ep DatagramOutcome.dropped l
  on_incoming-Settles Role.server none now incoming ep l fits known =
      (ep, DatagramOutcome.dropped, refl, l, inr (refl, refl, (incoming, refl)))
  on_incoming-Settles Role.server (some i) now incoming ep l fits known =
      let (answer, inner) = net.accept incoming now ep.inner in
      let ep1 : Endpoint float K net = record ep { inner = inner } in
      let (same, clients, _) = mint-Keeps answer.minted ep1 in
      let (s, o, run, live) =
        register-Live i answer.buf answer.connection (mint answer.minted ep1)
          (mint-IsLive answer.minted ep1 (record { routed = l.routed; older = l.older }))
          (omega (arith, same, fits)) (subst (λ c. i < length c) (sym clients) (known i refl)) in
      let (live', settled) = sweep_orphan_cids-IsLive s live in
      (sweep_orphan_cids s, o, rw run refl, live', inl settled)

  on_datagram_event-Settles :
      (event : Handling net) (admitted : Option ℕ) (now : float.Instant) (ep : Endpoint float K net)
      → IsLive ep
      → ep.next_generation + 1 < 2 ^ 64
      → ((i : ℕ) → admitted ≡ some i → i < length ep.clients)
      → Settles event ep.role admitted (on_datagram_event event admitted now ep)
  unfolding on_datagram_event
  on_datagram_event-Settles none admitted now ep l fits known =
      swept-Settles _ ep.role admitted ep DatagramOutcome.dropped l
  on_datagram_event-Settles (some DatagramEvent.response) admitted now ep l fits known =
      swept-Settles _ ep.role admitted ep DatagramOutcome.dropped l
  on_datagram_event-Settles (some (DatagramEvent.connection_event ch cev)) admitted now ep l fits
        known =
      let o = HashMap.get ℕ_discrete ch ep.by_quinn in
      swept-Settles _ ep.role admitted (deliver cev o ep).0 (deliver cev o ep).1
        (deliver-IsLive cev o ep l)
  on_datagram_event-Settles (some (DatagramEvent.new_connection incoming)) admitted now ep l fits
        known =
      on_incoming-Settles ep.role admitted now incoming ep l fits known

  -- A datagram that a client was admitted for is handled without a panic, as long as the handles
  -- are not used up; the same holds for one that opens no connection. Afterwards every connection ID
  -- that routes is in the list of a live connection, unless quinn_proto took the datagram for a new
  -- connection at a server and no client was admitted for it.
  pub feed-IsLive :
      (now : float.Instant) (from : SocketAddr K) (datagram : List ℕ) (admitted : Option ℕ)
      (ep : Endpoint float K net)
      → IsLive ep
      → ep.next_generation + 1 < 2 ^ 64
      → ((i : ℕ) → admitted ≡ some i → i < length ep.clients)
      → (s : Endpoint float K net) × (o : DatagramOutcome) × (feed now from datagram admitted ep
          ≡ some (s, o))
        × IsLive s
        × ((s.pending_cids ≡ [])
            ⊎ ((admitted ≡ none)
                × (ep.role ≡ Role.server)
                × ((incoming : net.Incoming) × ((net.handle now from datagram ep.inner).0.event
                      ≡ some (DatagramEvent.new_connection incoming)))))
  unfolding feed Settles IsUnadmitted Keeps
  feed-IsLive now from datagram admitted ep l fits known =
      let (handled, inner) = net.handle now from datagram ep.inner in
      let ep1 : Endpoint float K net = record ep { inner = inner } in
      let ep2 = mint handled.minted ep1 in
      let (same1, clients1, role1) = mint-Keeps handled.minted ep1 in
      let (same2, clients2, role2) = queue_response-Keeps ep.role from handled.resp ep2 in
      let l2 =
        queue_response-IsLive ep.role from handled.resp ep2
          (mint-IsLive handled.minted ep1 (record { routed = l.routed; older = l.older })) in
      let (s, o, run, live, end) =
        on_datagram_event-Settles handled.event admitted now
          (queue_response ep.role from handled.resp ep2) l2 (omega (arith, same1, same2, fits))
          (λ i e. subst (λ c. i < length c) (sym (clients2 ∙ clients1)) (known i e)) in
      (
        s,
        o,
        run,
        live,
        elim end [
          | inl settled ↦ inl settled
          | inr (refused, server, opens) ↦ inr (refused, sym (role2 ∙ role1) ∙ server, opens)
        ],
      )
