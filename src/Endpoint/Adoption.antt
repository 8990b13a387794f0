-- ===== src/Endpoint/Adoption.antt =====
-- `allocate_handle`, `drain_pending_cids` and `admit` of proto/src/endpoint.rs: a new connection gets
-- its handle and its connection IDs.
use quietquic.Conn
use quietquic.Conn.{ConnState}
use quietquic.Endpoint.{
  Endpoint, ConnectionHandle-discrete, attribute, drain_pending_cids, allocate_handle,
}
use quietquic.Endpoint.Datagram.{queue_transmit, register}
use quietquic.Endpoint.Silence.{get_elem?_of_lt}
use quietquic.HashMap
use quietquic.HashMap.{get-insert, get-remove, is_some-get-modify, is_some-get-insert}
use quietquic.Net.{ConnectionId, Net}
use quietquic.Outcome.{ConnectionHandle, SocketAddr, DatagramOutcome}
use quietquic.Prelude.{
  ℕ, ◌+◌, ◌<◌, ◌^◌, ◌≡◌, inl, inr, refl, ap, ◌∙◌, sym, subst, true, false, Option, none, some, List,
  [], ◌∷◌, arith, length, Bool-cases, ltb, is_some, guard-some, if_pos, if_neg, ℕ_discrete,
}
use mathlib.Core.Option.{some_inj}
use quietquic.RateLimit.Bucket.{Floats}
use quietquic.Endpoint.Attribution.{attribute-IsLive}
use quietquic.Endpoint.Routing.{IsLive, queue_transmit-IsLive}

pub present :
    {V : Type 0} (ch : ConnectionHandle) (v : V) (m : List (ConnectionHandle × V))
    → is_some
        (HashMap.get ConnectionHandle-discrete ch (HashMap.insert ConnectionHandle-discrete ch v m))
      ≡ true
present ch v m = ap is_some (
    get-insert ConnectionHandle-discrete ch ch v m
    ∙ if_pos (ConnectionHandle-discrete ch ch) refl _ _)

module _ {float : Floats} {K : Type 0} {net : Net K float.Instant} where
  -- A handle is allocated once: no connection of the endpoint has it yet, and its generation is below
  -- every later one.
  pub allocate_handle-fresh :
      (quinn : ℕ) (ep s : Endpoint float K net) (ch : ConnectionHandle)
      → IsLive ep
      → allocate_handle quinn ep ≡ some (s, ch)
      → (is_some (HashMap.get ConnectionHandle-discrete ch ep.connections) ≡ false)
        × IsLive s
        × (ch.generation < s.next_generation)
  unfolding allocate_handle
  allocate_handle-fresh quinn ep s ch l e =
      let handle : ConnectionHandle = record { quinn = quinn; generation = ep.next_generation } in
      let (fits, e1) = guard-some (ltb (ep.next_generation + 1) (2 ^ 64)) _ _ e in
      let same = some_inj.0 e1 in
      subst
        (λ (r : Endpoint float K net × ConnectionHandle).
          (is_some (HashMap.get ConnectionHandle-discrete r.1 ep.connections) ≡ false)
          × IsLive r.0
          × (r.1.generation < r.0.next_generation))
        same
        (
          elim (Bool-cases
              (is_some (HashMap.get ConnectionHandle-discrete handle ep.connections))) [
                | inl taken ↦ absurd (omega (arith, l.older handle taken))
                | inr free ↦ free
              ],
          record { routed = l.routed; older = λ h k. omega (arith, l.older h k) },
          omega arith,
        )

  -- The connection is put under its handle, after what is pending has been attributed to it.
  unfoldable pub adopt :
      List ConnectionId
      → ConnectionHandle
      → ConnState net.quinn
      → Endpoint float K net
      → Endpoint float K net
  unfolding attribute
  adopt pending ch state ep = record (attribute pending ch ep) {
    connections =
        HashMap.insert ConnectionHandle-discrete ch state (attribute pending ch ep).connections;
  }

  adopt-older :
      (ch : ConnectionHandle) (state : ConnState net.quinn) (ep : Endpoint float K net)
      → IsLive ep
      → ch.generation < ep.next_generation
      → (h : ConnectionHandle)
      → is_some (
          HashMap.get ConnectionHandle-discrete h
            (HashMap.insert ConnectionHandle-discrete ch state ep.connections))
        ≡ true
      → h.generation < ep.next_generation
  adopt-older ch state ep l lt h live = elim (ConnectionHandle-discrete ch h) [
    | yes same ↦ subst (λ (x : ConnectionHandle). x.generation < ep.next_generation) same lt
    | no other ↦ l.older h (
        ap is_some (
          sym (if_neg (ConnectionHandle-discrete ch h) other _ _)
          ∙ sym (get-insert ConnectionHandle-discrete ch h state ep.connections))
        ∙ live)
  ]

  insert-IsLive :
      (ch : ConnectionHandle) (state : ConnState net.quinn) (ep : Endpoint float K net)
      → IsLive ep
      → ch.generation < ep.next_generation
      → IsLive (record ep {
        connections = HashMap.insert ConnectionHandle-discrete ch state ep.connections;
      })
  insert-IsLive ch state ep l lt = record {
    routed = λ c issued. elim (l.routed c issued) [
      | inl waits ↦ inl waits
      | inr (h, cids, at, has, live) ↦ inr (
        h,
        cids,
        at,
        has,
        is_some-get-insert ConnectionHandle-discrete ch h state ep.connections live,
      )
    ];
    older = adopt-older ch state ep l lt;
  }

  pub adopt-IsLive :
      (pending : List ConnectionId) (ch : ConnectionHandle) (state : ConnState net.quinn)
      (ep : Endpoint float K net)
      → pending ≡ ep.pending_cids
      → IsLive ep
      → ch.generation < ep.next_generation
      → IsLive (adopt pending ch state ep) × ((adopt pending ch state ep).pending_cids ≡ [])
  unfolding adopt
  adopt-IsLive [] ch state ep p l lt =
      attribute-IsLive [] ch
        (record ep {
          connections = HashMap.insert ConnectionHandle-discrete ch state ep.connections;
        })
        p (insert-IsLive ch state ep l lt) (present ch state ep.connections)
  adopt-IsLive (cid ∷ cids) ch state ep p l lt =
      attribute-IsLive (cid ∷ cids) ch
        (record ep {
          connections = HashMap.insert ConnectionHandle-discrete ch state ep.connections;
        })
        p (insert-IsLive ch state ep l lt) (present ch state ep.connections)

  pub generation-queue_transmit :
      (to : SocketAddr K) (bytes : List ℕ) (ep : Endpoint float K net)
      → (queue_transmit to bytes ep).next_generation ≡ ep.next_generation
  unfolding queue_transmit
  generation-queue_transmit to [] ep = refl
  generation-queue_transmit to (b ∷ bs) ep = refl

  pub register-Live :
      (client_idx : ℕ) (buf : List ℕ) (connection : Option (ℕ × net.quinn.Connection))
      (ep : Endpoint float K net)
      → IsLive ep
      → ep.next_generation + 1 < 2 ^ 64
      → client_idx < length ep.clients
      → (s : Endpoint float K net) × (o : DatagramOutcome) × (register client_idx buf connection ep
          ≡ some (s, o))
        × IsLive s
  unfolding register allocate_handle drain_pending_cids adopt
  register-Live client_idx buf none ep l fits at = (ep, DatagramOutcome.dropped, refl, l)
  register-Live client_idx buf (some (quinn_ch, conn)) ep l fits at =
      let (client, found) = get_elem?_of_lt ep.clients client_idx at in
      let bound : ltb (ep.next_generation + 1) (2 ^ 64) ≡ true = ground arith in
      let handle : ConnectionHandle = record {
        quinn = quinn_ch;
        generation = ep.next_generation;
      } in
      let ep1 : Endpoint float K net = record ep {
        next_generation = ep.next_generation + 1;
        by_quinn = HashMap.insert ℕ_discrete quinn_ch handle ep.by_quinn;
      } in
      let ep2 = queue_transmit (net.remote_address conn) buf ep1 in
      let l1 : IsLive ep1 = record {
        routed = l.routed;
        older = λ h k. omega (arith, l.older h k);
      } in
      let l2 =
        adopt-IsLive ep2.pending_cids handle (Conn.new net.quinn conn) ep2 refl
          (queue_transmit-IsLive (net.remote_address conn) buf ep1 l1)
          (omega (arith, generation-queue_transmit (net.remote_address conn) buf ep1)) in
      let ep3 = attribute ep2.pending_cids handle ep2 in
      (
        record ep3 {
          connections =
              HashMap.insert ConnectionHandle-discrete handle (Conn.new net.quinn conn)
                ep3.connections;
          client_ids =
              HashMap.insert ConnectionHandle-discrete handle client.client_id ep3.client_ids;
        },
        DatagramOutcome.accepted handle,
        rw (bound, found) refl,
        record { routed = l2.0.routed; older = l2.0.older },
      )
