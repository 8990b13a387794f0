-- ===== src/Server/Retained.antt =====
-- The handles that the driver of src/server.rs keeps.
use quietquic.Conn.{ConnState}
use quietquic.Endpoint.{Endpoint, ConnectionHandle-discrete, client_id}
use quietquic.Endpoint.Servicing.{conn_mut}
use quietquic.HashMap
use quietquic.HashMap.{get-insert, get-remove, is_some-get-modify}
use quietquic.HashSet
use quietquic.HashSet.{contains, contains-insert, contains-remove, retain}
use quietquic.Net.{Net}
use quietquic.Outcome.{ConnectionHandle, ConnectionError, Event}
use quietquic.Parked
use quietquic.Parked.{Cmd, Parked, apply_cmd}
use quietquic.Prelude.{
  ℕ, ◌+◌, ◌≤◌, ◌≡◌, refl, ap, sym, ◌∙◌, subst, Bool, true, false, Option, none, some, List, [], ◌∷◌,
  ◌++◌, arith, ite, is_some, Bool-cases, inl, inr, if_pos, if_neg,
}
use quietquic.RateLimit.Bucket.{Floats}
use quietquic.Server.{
  Connection, Driver, is_other, new, with_both, on_conn, offer, surface, on_lost, on_event, deliver,
  deliver_from, obey, on_command, Input, step, run,
}

pub tally : Bool → ℕ
tally true = 1
tally false = 0

-- How many connections of the queue have the handle.
pub offers : {K : Type 0} → ConnectionHandle → List (Connection K) → ℕ
offers h [] = 0
offers h (c ∷ cs) = ite (ConnectionHandle-discrete h c.handle) 1 0 + offers h cs

offers-append :
    {K : Type 0} (h : ConnectionHandle) (cs cs' : List (Connection K))
    → offers h (cs ++ cs') ≡ offers h cs + offers h cs'
unfolding offers
offers-append h [] cs' = omega arith
offers-append h (c ∷ cs) cs' = omega (arith, offers-append h cs cs')

offers-retain :
    {K : Type 0} (h ch : ConnectionHandle) (cs : List (Connection K))
    → offers h (retain (is_other ch) cs) ≡ ite (ConnectionHandle-discrete ch h) 0 (offers h cs)
unfolding offers retain is_other
offers-retain h ch [] = ground arith
offers-retain h ch (c ∷ cs) = ground (arith, offers-retain h ch cs)

-- A handle that was new and is taken out again leaves the set as it was.
contains-remove-insert :
    (ch h : ConnectionHandle) (seen : List ConnectionHandle)
    → contains ConnectionHandle-discrete ch seen ≡ false
    → contains ConnectionHandle-discrete h (
        HashSet.remove ConnectionHandle-discrete ch
          (HashSet.insert ConnectionHandle-discrete ch seen).0)
      ≡ contains ConnectionHandle-discrete h seen
contains-remove-insert ch h seen unseen =
    let removed = contains-remove ConnectionHandle-discrete ch h _ in
    let inserted = contains-insert ConnectionHandle-discrete ch h seen in
    elim (ConnectionHandle-discrete ch h) [
      | yes same ↦
          removed
          ∙ if_pos (ConnectionHandle-discrete ch h) same _ _
          ∙ sym (ap (λ k. contains ConnectionHandle-discrete k seen) (sym same) ∙ unseen)
      | no other ↦
          removed
          ∙ if_neg (ConnectionHandle-discrete ch h) other _ _
          ∙ inserted
          ∙ if_neg (ConnectionHandle-discrete ch h) other _ _
    ]

module _ {float : Floats} {K : Type 0} {net : Net K float.Instant} where
  -- A handle is surfaced while it has parked operations, and waits in the queue once at most.
  pub record Retains (d : Driver float K net) : Type 0 where
    pub held :
        (h : ConnectionHandle)
        → is_some (HashMap.get ConnectionHandle-discrete h d.parked)
          ≡ contains ConnectionHandle-discrete h d.surfaced
    pub offered :
        (h : ConnectionHandle)
        → offers h d.pending_accept ≤ tally (contains ConnectionHandle-discrete h d.surfaced)

  -- Nothing of the driver names the handle.
  pub IsForgotten : ConnectionHandle → Driver float K net → Type 0
  IsForgotten ch d =
      (HashMap.get ConnectionHandle-discrete ch d.parked ≡ none)
      × (contains ConnectionHandle-discrete ch d.surfaced ≡ false)
      × (offers ch d.pending_accept ≡ 0)

  with_both-Retains :
      (o : Option Parked) (o' : Option (ConnState net.quinn)) (ch : ConnectionHandle)
      (f : Parked → ConnState net.quinn → Parked × ConnState net.quinn) (d : Driver float K net)
      → Retains d
      → Retains (with_both o o' ch f d)
  unfolding with_both
  with_both-Retains (some pk) (some s) ch f d r = record {
    held = λ h.
        is_some-get-modify ConnectionHandle-discrete ch h (λ _. (f pk s).0) d.parked ∙ r.held h;
    offered = r.offered;
  }
  with_both-Retains (some pk) none ch f d r = r
  with_both-Retains none o ch f d r = r

  on_lost-Retains :
      (ch : ConnectionHandle) (reason : ConnectionError) (d : Driver float K net)
      → Retains d
      → Retains (on_lost ch reason d)
  unfolding on_lost tally
  on_lost-Retains ch reason d r = record {
    held = λ h. ground (
      arith,
      get-remove ConnectionHandle-discrete ch h d.parked,
      contains-remove ConnectionHandle-discrete ch h d.surfaced,
      r.held h,
    );
    offered = λ h. ground (
      arith,
      offers-retain h ch d.pending_accept,
      contains-remove ConnectionHandle-discrete ch h d.surfaced,
      r.offered h,
    );
  }

  on_lost-IsForgotten :
      (ch : ConnectionHandle) (reason : ConnectionError) (d : Driver float K net)
      → IsForgotten ch (on_lost ch reason d)
  unfolding on_lost IsForgotten
  on_lost-IsForgotten ch reason d = (
    ground (arith, get-remove ConnectionHandle-discrete ch ch d.parked),
    ground (arith, contains-remove ConnectionHandle-discrete ch ch d.surfaced),
    ground (arith, offers-retain ch ch d.pending_accept),
  )

  -- A handle that is not surfaced is not in the queue.
  unsurfaced :
      (d : Driver float K net) (ch h : ConnectionHandle)
      → Retains d
      → contains ConnectionHandle-discrete ch d.surfaced ≡ false
      → ch ≡ h
      → offers h d.pending_accept ≡ 0
  unfolding tally
  unsurfaced d ch h r unseen same =
      subst (λ k. offers k d.pending_accept ≡ 0) same
        (omega (arith, subst (λ b. offers ch d.pending_accept ≤ tally b) unseen (r.offered ch)))

  -- An offer of a handle that has just been put into the set.
  offer-Retains :
      (o : Option (ConnState net.quinn)) (ch : ConnectionHandle) (d : Driver float K net)
      → Retains d
      → contains ConnectionHandle-discrete ch d.surfaced ≡ false
      → Retains (
          offer o ch
            (record d { surfaced = (HashSet.insert ConnectionHandle-discrete ch d.surfaced).0 }))
  unfolding offer tally offers
  offer-Retains none ch d r unseen = record {
    held = λ h. r.held h ∙ sym (contains-remove-insert ch h d.surfaced unseen);
    offered = λ h.
        subst (λ b. offers h d.pending_accept ≤ tally b)
          (sym (contains-remove-insert ch h d.surfaced unseen)) (r.offered h);
  }
  offer-Retains (some state) ch d r unseen = record {
    held = λ h. ground (
      arith,
      get-insert ConnectionHandle-discrete ch h Parked.new d.parked,
      contains-insert ConnectionHandle-discrete ch h d.surfaced,
      r.held h,
    );
    offered = λ h.
        let c : Connection K = record {
          handle = ch;
          remote = net.remote_address state.conn;
          client = client_id ch d.core;
        } in
        let more = offers-append h d.pending_accept (c ∷ []) in
        let inserted = contains-insert ConnectionHandle-discrete ch h d.surfaced in
        elim (ConnectionHandle-discrete ch h) [
          | yes same ↦ ground (arith, more, inserted, unsurfaced d ch h r unseen same, same)
          | no other ↦
              ground (arith, more, inserted, r.offered h, other, λ (k : h ≡ ch). other (sym k))
        ];
  }

  surface-Retains :
      (ch : ConnectionHandle) (d : Driver float K net) → Retains d → Retains (surface ch d)
  unfolding surface
  surface-Retains ch d r = elim (Bool-cases (contains ConnectionHandle-discrete ch d.surfaced)) [
    | inl seen ↦ rw seen r
    | inr unseen ↦ rw unseen (offer-Retains (conn_mut ch d.core) ch d r unseen)
  ]

  on_event-Retains : (e : Event) (d : Driver float K net) → Retains d → Retains (on_event e d)
  unfolding on_event on_conn
  on_event-Retains (Event.connected ch) d r = surface-Retains ch d r
  on_event-Retains (Event.stream_opened ch id) d r = with_both-Retains _ _ ch _ d r
  on_event-Retains (Event.stream_readable ch id) d r = with_both-Retains _ _ ch _ d r
  on_event-Retains (Event.stream_writable ch id) d r = with_both-Retains _ _ ch _ d r
  on_event-Retains (Event.stream_fin_acked ch id) d r = record {
    held = λ h. is_some-get-modify ConnectionHandle-discrete ch h _ d.parked ∙ r.held h;
    offered = r.offered;
  }
  on_event-Retains (Event.stream_stopped ch id code) d r = with_both-Retains _ _ ch _ d r
  on_event-Retains (Event.connection_lost ch reason) d r = on_lost-Retains ch reason d r

  deliver-Retains : (d : Driver float K net) → Retains d → Retains (deliver d).0
  unfolding deliver deliver_from offers
  deliver-Retains d r = taken d.pending_accept refl
    where
      taken : (cs : List (Connection K)) → d.pending_accept ≡ cs → Retains (deliver_from cs d).0
      taken [] e = r
      taken (c ∷ cs) e = record {
        held = r.held;
        offered = λ h. omega (arith, r.offered h, ap (offers h) e);
      }

module _ {float : Floats} {K : Type 0} {net : Net K float.Instant}
    (close_conn : float.Instant → ℕ → List ℕ → net.quinn.Connection → net.quinn.Connection) where
  obey-Retains :
      (o : Option Parked) (o' : Option (ConnState net.quinn)) (now : float.Instant)
      (ch : ConnectionHandle) (cmd : Cmd) (d : Driver float K net)
      → Retains d
      → Retains (obey close_conn o o' now ch cmd d)
  unfolding obey
  obey-Retains (some pk) (some s) now ch cmd d r =
      with_both-Retains (some pk) (some s) ch (apply_cmd net.quinn close_conn now cmd) d r
  obey-Retains (some pk) none now ch cmd d r = record { held = r.held; offered = r.offered }
  obey-Retains none o now ch cmd d r = record { held = r.held; offered = r.offered }

  step-Retains :
      (i : Input float K net) (d : Driver float K net) → Retains d → Retains (step close_conn i d)
  unfolding step on_command
  step-Retains (Input.drives core) d r = record { held = r.held; offered = r.offered }
  step-Retains (Input.event e) d r = on_event-Retains e d r
  step-Retains (Input.command now ch cmd) d r =
      obey-Retains (HashMap.get ConnectionHandle-discrete ch d.parked) (conn_mut ch d.core) now ch
        cmd d r
  step-Retains Input.delivery d r = deliver-Retains d r

  kept :
      (is : List (Input float K net)) (d : Driver float K net)
      → Retains d
      → Retains (run close_conn is d)
  unfolding run
  kept [] d r = r
  kept (i ∷ is) d r = kept is (step close_conn i d) (step-Retains i d r)

  -- Whatever order the driver's inputs arrive in, a handle is surfaced exactly while it has parked
  -- operations, and waits in the queue at most once and only while it is surfaced; and once its
  -- connection is lost, the driver keeps no copy of it.
  pub run-Retains :
      (is : List (Input float K net)) (core : Endpoint float K net) (ch : ConnectionHandle)
      (reason : ConnectionError)
      → Retains (run close_conn is (new core))
        × IsForgotten ch (on_lost ch reason (run close_conn is (new core)))
  unfolding new HashMap.get contains offers tally
  run-Retains is core ch reason = (
    kept is (new core) (record { held = λ h. refl; offered = λ h. omega arith }),
    on_lost-IsForgotten ch reason (run close_conn is (new core)),
  )
