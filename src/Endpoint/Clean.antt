-- ===== src/Endpoint/Clean.antt =====
-- What a servicing pass of proto/src/endpoint.rs leaves clean: no connection has work that waits, and
-- `poll_transmit` answers nothing only then.
use quietquic.Conn.{ConnState, clear_dirty, service_streams}
use quietquic.Endpoint.{
  Endpoint, ConnectionHandle-discrete, sweep_orphan_cids, any_dirty, forget_cids,
  prune_connection_cids, next_timeout,
}
use quietquic.Endpoint.Pass.{
  Staged, on_transmit, transmit_loop, visit, collect, earlier, poll_timeouts, refresh_next_timeout,
  service_and_reap, service_connections,
}
use quietquic.Endpoint.Servicing.{reap, reap_present}
use quietquic.HashMap
use quietquic.HashMap.{keys, is_some-get-modify}
use mathlib.Core.Option.{some_inj}
use quietquic.Net.{ConnectionId, Net}
use quietquic.Outcome.{ConnectionHandle, ConnectionError}
use quietquic.Prelude.{
  ℕ, zero, suc, ◌<◌, All, ◌≡◌, refl, ap, ◌∙◌, sym, subst, true, false, ◌||◌, Option, none, some,
  List, [], ◌∷◌, arith, ◌⊎◌, inl, inr, if_pos, if_neg, Bool-cases,
}
use quietquic.RateLimit.Bucket.{Floats}
use quietquic.Endpoint.Drive.{pop_outbound, poll_queue, poll_transmit}
use quietquic.Outcome.{Transmit, SocketAddr}

module _ {K Instant : Type 0} (net : Net K Instant) where
  any_dirty-collect :
      (now : Instant) (m : List (ConnectionHandle × ConnState net.quinn)) (st : Staged K)
      → any_dirty (collect net now m st).0 ≡ false
  unfolding collect any_dirty visit clear_dirty
  any_dirty-collect now [] st = refl
  any_dirty-collect now ((ch, s) ∷ m) st = any_dirty-collect now m _

  -- The answer that ends the loop over the datagrams of a connection.
  Stops : Option (SocketAddr K × List ℕ) → Type 0
  Stops none = Unit
  Stops (some (to, [])) = Unit
  Stops (some (to, b ∷ bs)) = ⊥

  -- quinn was asked for a datagram last, and had none.
  pub Flushed : Instant → net.quinn.Connection → Type 0
  Flushed now conn =
      (before : net.quinn.Connection) × (answer : Option (SocketAddr K × List ℕ))
      × (net.poll_transmit now before ≡ (answer, conn))
      × Stops answer

  on_transmit-Flushed :
      (rounds : ℕ) (now : Instant) (c conn : net.quinn.Connection)
      (answer : Option (SocketAddr K × List ℕ))
      → ((d : net.quinn.Connection)
          → net.transmits_left now d < rounds
          → Flushed now (transmit_loop net rounds now d).0)
      → net.transmits_left now c < suc rounds
      → net.poll_transmit now c ≡ (answer, conn)
      → Flushed now (on_transmit net (transmit_loop net rounds now) answer conn).0
  unfolding on_transmit Flushed Stops
  on_transmit-Flushed rounds now c conn none again n e = (c, none, e, tt)
  on_transmit-Flushed rounds now c conn (some (to, [])) again n e = (c, some (to, []), e, tt)
  on_transmit-Flushed rounds now c conn (some (to, b ∷ bs)) again n e =
      again conn (omega (arith, net.poll_transmit_consumes now c conn (to, b ∷ bs) e, n))

  -- As many rounds as quinn has datagrams, and one more, are enough.
  transmit_loop-Flushed :
      (rounds : ℕ) (now : Instant) (c : net.quinn.Connection)
      → net.transmits_left now c < rounds
      → Flushed now (transmit_loop net rounds now c).0
  unfolding transmit_loop
  transmit_loop-Flushed zero now c n = absurd (omega arith)
  transmit_loop-Flushed (suc rounds) now c n =
      on_transmit-Flushed rounds now c (net.poll_transmit now c).1 (net.poll_transmit now c).0
        (transmit_loop-Flushed rounds now) n refl

  abbrev pub AllFlushed : Instant → List (ConnectionHandle × ConnState net.quinn) → Type 0
  AllFlushed now m =
      All (λ (entry : ConnectionHandle × ConnState net.quinn). Flushed now entry.1.conn) m

  collect-Flushed :
      (now : Instant) (m : List (ConnectionHandle × ConnState net.quinn)) (st : Staged K)
      → AllFlushed now (collect net now m st).0
  unfolding collect visit clear_dirty
  collect-Flushed now [] st = tt
  collect-Flushed now ((ch, s) ∷ m) st =
      let s1 = (service_streams net.quinn s).0 in
      (
        transmit_loop-Flushed (suc (net.transmits_left now s1.conn)) now s1.conn (omega arith),
        collect-Flushed now m _,
      )

  remove-Flushed :
      (now : Instant) (ch : ConnectionHandle) (m : List (ConnectionHandle × ConnState net.quinn))
      → AllFlushed now m
      → AllFlushed now (HashMap.remove ConnectionHandle-discrete ch m)
  unfolding HashMap.remove
  remove-Flushed now ch [] h = tt
  remove-Flushed now ch ((j, s) ∷ m) h = elim (ConnectionHandle-discrete j ch) [
    | yes same ↦ rw (if_pos (ConnectionHandle-discrete j ch) same) (remove-Flushed now ch m h.1)
    | no other ↦
        rw (if_neg (ConnectionHandle-discrete j ch) other) (h.0, remove-Flushed now ch m h.1)
  ]

  any_dirty-poll_timeouts :
      (m : List (ConnectionHandle × ConnState net.quinn))
      → any_dirty (poll_timeouts net m).0 ≡ any_dirty m
  unfolding poll_timeouts any_dirty
  any_dirty-poll_timeouts [] = refl
  any_dirty-poll_timeouts ((ch, s) ∷ m) = ap (λ b. s.dirty || b) (any_dirty-poll_timeouts m)

  any_dirty-remove :
      (ch : ConnectionHandle) (m : List (ConnectionHandle × ConnState net.quinn))
      → any_dirty m ≡ false
      → any_dirty (HashMap.remove ConnectionHandle-discrete ch m) ≡ false
  unfolding any_dirty HashMap.remove
  any_dirty-remove ch [] h = refl
  any_dirty-remove ch ((j, s) ∷ m) h = ground (arith, any_dirty-remove ch m)

  poll_timeouts-reads :
      (m : List (ConnectionHandle × ConnState net.quinn)) → (poll_timeouts net m).0 ≡ m
  unfolding poll_timeouts
  poll_timeouts-reads [] = refl
  poll_timeouts-reads ((ch, s) ∷ m) = rw (net.poll_timeout_reads s.conn, poll_timeouts-reads m) refl

  le_same : (t u : Instant) → t ≡ u → net.le t u ≡ true
  le_same t u e = elim (net.le_total t u) [
    | inl le ↦ le
    | inr ge ↦ subst (λ x. net.le t x ≡ true) e (subst (λ x. net.le x t ≡ true) (sym e) ge)
  ]

  le_other : (t u : Instant) → net.le t u ≡ false → net.le u t ≡ true
  le_other t u h = elim (net.le_total t u) [ inl le ↦ absurd (ground (arith, le, h)) | inr ge ↦ ge ]

  -- The earlier of two deadlines is no later than either.
  earlier_bounds :
      (a b : Option Instant) (t : Instant)
      → (a ≡ some t) ⊎ (b ≡ some t)
      → (d : Instant) × (earlier net a b ≡ some d) × (net.le d t ≡ true)
  unfolding earlier
  earlier_bounds none none t e = absurd (ground arith)
  earlier_bounds none (some u) t e = (u, refl, le_same u t (ground arith))
  earlier_bounds (some u) none t e = (u, refl, le_same u t (ground arith))
  earlier_bounds (some u) (some v) t e = elim (Bool-cases (net.le u v)) [
    | inl first ↦ (
      u,
      rw first refl,
      elim e [
        | inl here ↦ le_same u t (some_inj.0 here)
        | inr here ↦ subst (λ x. net.le u x ≡ true) (some_inj.0 here) first
      ],
    )
    | inr later ↦ (
      v,
      rw later refl,
      elim e [
        | inl here ↦ subst (λ x. net.le v x ≡ true) (some_inj.0 here) (le_other u v later)
        | inr here ↦ le_same v t (some_inj.0 here)
      ],
    )
  ]

  -- The deadline that is cached is no later than the one of any connection.
  poll_timeouts-earliest :
      (m : List (ConnectionHandle × ConnState net.quinn)) (ch : ConnectionHandle)
      (s : ConnState net.quinn) (t : Instant)
      → HashMap.get ConnectionHandle-discrete ch m ≡ some s
      → (net.poll_timeout s.conn).0 ≡ some t
      → (d : Instant) × ((poll_timeouts net m).1 ≡ some d) × (net.le d t ≡ true)
  unfolding poll_timeouts HashMap.get
  poll_timeouts-earliest [] ch s t h e = absurd (ground arith)
  poll_timeouts-earliest ((j, v) ∷ m) ch s t h e = elim (ConnectionHandle-discrete j ch) [
    | yes same ↦
        let here : v ≡ s =
          some_inj.0 (sym (if_pos (ConnectionHandle-discrete j ch) same _ _) ∙ h) in
        earlier_bounds (net.poll_timeout v.conn).0 (poll_timeouts net m).1 t
          (inl (ap (λ (x : ConnState net.quinn). (net.poll_timeout x.conn).0) here ∙ e))
    | no other ↦
        let (d, found, below) =
          poll_timeouts-earliest m ch s t
            (sym (if_neg (ConnectionHandle-discrete j ch) other _ _) ∙ h) e in
        let (d', found', below') =
          earlier_bounds (net.poll_timeout v.conn).0 (poll_timeouts net m).1 d (inr found) in
        (d', found', net.le_trans d' d t below' below)
  ]

module _ {float : Floats} {K : Type 0} {net : Net K float.Instant} where
  connections-forget_cids :
      (o : Option (List ConnectionId)) (ch : ConnectionHandle) (ep : Endpoint float K net)
      → (forget_cids o ch ep).connections ≡ ep.connections
  unfolding forget_cids
  connections-forget_cids none ch ep = refl
  connections-forget_cids (some cids) ch ep = refl

  any_dirty-reap_present :
      (found : Option (ConnState net.quinn)) (ch : ConnectionHandle) (reason : ConnectionError)
      (ep : Endpoint float K net)
      → any_dirty ep.connections ≡ false
      → any_dirty (reap_present found ch reason ep).connections ≡ false
  unfolding reap_present prune_connection_cids
  any_dirty-reap_present none ch reason ep h = h
  any_dirty-reap_present (some s) ch reason ep h =
      ap any_dirty
        (connections-forget_cids (HashMap.get ConnectionHandle-discrete ch ep.cids_by_conn) ch _)
      ∙ any_dirty-remove net ch ep.connections h

  any_dirty-reap :
      (lost : List (ConnectionHandle × ConnectionError)) (ep : Endpoint float K net)
      → any_dirty ep.connections ≡ false
      → any_dirty (reap lost ep).connections ≡ false
  unfolding reap
  any_dirty-reap [] ep h = h
  any_dirty-reap ((ch, reason) ∷ lost) ep h =
      any_dirty-reap lost _ (any_dirty-reap_present _ ch reason ep h)

  any_dirty-service_connections :
      (now : float.Instant) (ep : Endpoint float K net)
      → any_dirty (service_connections now ep).connections ≡ false
  unfolding service_connections service_and_reap refresh_next_timeout sweep_orphan_cids
  any_dirty-service_connections now ep =
      any_dirty-poll_timeouts net _ ∙ any_dirty-reap _ _ (any_dirty-collect net now _ _)

  reap_present-Flushed :
      (now : float.Instant) (found : Option (ConnState net.quinn)) (ch : ConnectionHandle)
      (reason : ConnectionError) (ep : Endpoint float K net)
      → AllFlushed net now ep.connections
      → AllFlushed net now (reap_present found ch reason ep).connections
  unfolding reap_present prune_connection_cids
  reap_present-Flushed now none ch reason ep h = h
  reap_present-Flushed now (some s) ch reason ep h =
      subst (AllFlushed net now)
        (sym
          (connections-forget_cids (HashMap.get ConnectionHandle-discrete ch ep.cids_by_conn) ch _))
        (remove-Flushed net now ch ep.connections h)

  reap-Flushed :
      (now : float.Instant) (lost : List (ConnectionHandle × ConnectionError))
      (ep : Endpoint float K net)
      → AllFlushed net now ep.connections
      → AllFlushed net now (reap lost ep).connections
  unfolding reap
  reap-Flushed now [] ep h = h
  reap-Flushed now ((ch, reason) ∷ lost) ep h =
      reap-Flushed now lost _ (reap_present-Flushed now _ ch reason ep h)

  service_connections-Flushed :
      (now : float.Instant) (ep : Endpoint float K net)
      → AllFlushed net now (service_connections now ep).connections
  unfolding service_connections service_and_reap refresh_next_timeout sweep_orphan_cids
  service_connections-Flushed now ep =
      subst (AllFlushed net now) (sym (poll_timeouts-reads net _))
        (reap-Flushed now _ _ (collect-Flushed net now _ _))

  pop_outbound-none :
      (q : List (Transmit K)) (ep s : Endpoint float K net)
      → ep.outbound ≡ q
      → pop_outbound q ep ≡ (s, none)
      → (s ≡ ep) × (ep.outbound ≡ [])
  unfolding pop_outbound
  pop_outbound-none [] ep s e h = (sym (ap (λ r. r.0) h), e)
  pop_outbound-none (t ∷ ts) ep s e h = absurd (ground arith)

  deadline-service_connections :
      (now : float.Instant) (ep : Endpoint float K net)
      → (service_connections now ep).next_timeout
        ≡ (poll_timeouts net (service_connections now ep).connections).1
  unfolding service_connections refresh_next_timeout
  deadline-service_connections now ep =
      sym (ap (λ m. (poll_timeouts net m).1) (poll_timeouts-reads net _))

  -- What `poll_transmit` has settled when it answers nothing.
  Settled : float.Instant → Endpoint float K net → Type 0
  Settled now s =
      (s.outbound ≡ [])
      × AllFlushed net now s.connections
      × (any_dirty s.connections ≡ false)
      × (s.next_timeout ≡ (poll_timeouts net s.connections).1)

  poll_queue-Settled :
      (q : List (Transmit K)) (now : float.Instant) (ep s : Endpoint float K net)
      → poll_queue q now ep ≡ (s, none)
      → Settled now s
  unfolding poll_queue Settled
  poll_queue-Settled (t ∷ ts) now ep s h = absurd (ground arith)
  poll_queue-Settled [] now ep s h =
      let serviced = service_connections now ep in
      let (same, empty) = pop_outbound-none serviced.outbound serviced s refl h in
      subst
        (λ (e : Endpoint float K net).
          (e.outbound ≡ [])
          × AllFlushed net now e.connections
          × (any_dirty e.connections ≡ false)
          × (e.next_timeout ≡ (poll_timeouts net e.connections).1))
        (sym same)
        (
          empty,
          service_connections-Flushed now ep,
          any_dirty-service_connections now ep,
          deadline-service_connections now ep,
        )

  -- When `poll_transmit` answers nothing, nothing is queued, quinn was asked of every connection for a
  -- datagram until it had none, no connection is dirty, and `next_timeout` is no later than the
  -- deadline of any connection.
  pub poll_transmit-settled :
      (now : float.Instant) (ep s : Endpoint float K net)
      → poll_transmit now ep ≡ (s, none)
      → (s.outbound ≡ [])
        × AllFlushed net now s.connections
        × (any_dirty s.connections ≡ false)
        × ((ch : ConnectionHandle) (state : ConnState net.quinn) (t : float.Instant)
            → HashMap.get ConnectionHandle-discrete ch s.connections ≡ some state
            → (net.poll_timeout state.conn).0 ≡ some t
            → (d : float.Instant) × (next_timeout s ≡ some d) × (net.le d t ≡ true))
  unfolding poll_transmit next_timeout Settled
  poll_transmit-settled now ep s h =
      let (empty, flushed, clean, cached) = poll_queue-Settled ep.outbound now ep s h in
      (
        empty,
        flushed,
        clean,
        λ ch state t at deadline.
            let (d, found, below) =
              poll_timeouts-earliest net s.connections ch state t at deadline in
            (d, rw clean (cached ∙ found), below),
      )
