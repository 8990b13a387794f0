-- ===== src/Endpoint/Routing.antt =====
-- The bookkeeping of connection IDs and of handles in proto/src/endpoint.rs, and the invariant that every
-- operation keeps.
use quietquic.Conn.{ConnState}
use quietquic.Endpoint.{
  Endpoint, ConnectionId-discrete, ConnectionHandle-discrete, mint, sweep_orphan_cids,
}
use quietquic.Endpoint.Datagram.{queue_transmit, deliver}
use quietquic.HashMap
use quietquic.HashMap.{get-insert, get-remove, is_some-get-modify, is_some-get-insert}
use quietquic.HashSet.{contains, contains-insert, contains-remove_all}
use quietquic.Net.{ConnectionId, Net}
use quietquic.Outcome.{ConnectionHandle, SocketAddr}
use quietquic.Prelude.{
  ℕ, ◌<◌, ◌≡◌, ◌⊎◌, inl, inr, refl, ◌∙◌, sym, true, ◌||◌, ◌&&◌, not, Option, none, some, List, [],
  ◌∷◌, ◌++◌, arith, Bool-cases, is_some, ite, if_pos, if_neg,
}
use quietquic.RateLimit.Bucket.{Floats}

pub contains-append :
    {A : Type 0} (dec : Discrete A) (a : A) (xs ys : List A)
    → contains dec a (xs ++ ys) ≡ (contains dec a xs || contains dec a ys)
unfolding contains
contains-append dec a [] ys = refl
contains-append dec a (x ∷ xs) ys = ground (arith, contains-append dec a xs ys)

pub contains-snoc :
    {A : Type 0} (dec : Discrete A) (a b : A) (xs : List A)
    → contains dec b (xs ++ (a ∷ [])) ≡ ite (dec a b) true (contains dec b xs)
unfolding contains
contains-snoc dec a b xs = ground (arith, contains-append dec b xs (a ∷ []))

module _ {float : Floats} {K : Type 0} {net : Net K float.Instant} where
  -- The connection ID is in the list of a live connection.
  abbrev pub IsOwned : ConnectionId → Endpoint float K net → Type 0
  IsOwned cid ep =
      (ch : ConnectionHandle) × (cids : List ConnectionId) × (HashMap.get ConnectionHandle-discrete
          ch ep.cids_by_conn
        ≡ some cids)
      × (contains ConnectionId-discrete cid cids ≡ true)
      × (is_some (HashMap.get ConnectionHandle-discrete ch ep.connections) ≡ true)

  abbrev pub IsIssued : ConnectionId → Endpoint float K net → Type 0
  IsIssued cid ep = contains ConnectionId-discrete cid ep.issued_cids ≡ true

  pub record IsLive (ep : Endpoint float K net) : Type 0 where
    -- A connection ID that routes has a live owner, or is still to be attributed.
    pub routed :
        (cid : ConnectionId)
        → IsIssued cid ep
        → (contains ConnectionId-discrete cid ep.pending_cids ≡ true) ⊎ IsOwned cid ep
    -- The handles of connections are older than the next one.
    pub older :
        (ch : ConnectionHandle)
        → is_some (HashMap.get ConnectionHandle-discrete ch ep.connections) ≡ true
        → ch.generation < ep.next_generation

  pub mint-IsLive :
      (cids : List ConnectionId) (ep : Endpoint float K net) → IsLive ep → IsLive (mint cids ep)
  unfolding mint
  mint-IsLive [] ep l = l
  mint-IsLive (cid ∷ cids) ep l = mint-IsLive cids _ (record {
    routed = λ c issued.
        let snoc = contains-snoc ConnectionId-discrete cid c ep.pending_cids in
        elim (ConnectionId-discrete cid c) [
          | yes same ↦ inl (snoc ∙ if_pos (ConnectionId-discrete cid c) same _ _)
          | no other ↦
              elim (l.routed c (
                sym (if_neg (ConnectionId-discrete cid c) other _ _)
                ∙ sym (contains-insert ConnectionId-discrete cid c ep.issued_cids)
                ∙ issued)) [
                  | inl waits ↦ inl (snoc ∙ if_neg (ConnectionId-discrete cid c) other _ _ ∙ waits)
                  | inr owned ↦ inr owned
                ]
        ];
    older = l.older;
  })

  pub queue_transmit-IsLive :
      (to : SocketAddr K) (bytes : List ℕ) (ep : Endpoint float K net)
      → IsLive ep
      → IsLive (queue_transmit to bytes ep)
  unfolding queue_transmit
  queue_transmit-IsLive to [] ep l = l
  queue_transmit-IsLive to (b ∷ bs) ep l = record { routed = l.routed; older = l.older }

  -- What is still pending is taken out of the routing set.
  pub sweep_orphan_cids-routed :
      (ep : Endpoint float K net) (cid : ConnectionId)
      → contains ConnectionId-discrete cid (sweep_orphan_cids ep).issued_cids ≡ (
          contains ConnectionId-discrete cid ep.issued_cids
          && not (contains ConnectionId-discrete cid ep.pending_cids))
  unfolding sweep_orphan_cids
  sweep_orphan_cids-routed ep cid =
      contains-remove_all ConnectionId-discrete ep.pending_cids cid ep.issued_cids

  pub sweep_orphan_cids-IsLive :
      (ep : Endpoint float K net)
      → IsLive ep
      → IsLive (sweep_orphan_cids ep) × ((sweep_orphan_cids ep).pending_cids ≡ [])
  unfolding sweep_orphan_cids
  sweep_orphan_cids-IsLive ep l = (
    record {
      routed = λ c issued.
          let both = sym (sweep_orphan_cids-routed ep c) ∙ issued in
          elim (Bool-cases (contains ConnectionId-discrete c ep.pending_cids)) [
            | inl waits ↦ absurd (ground (arith, both, waits))
            | inr settled ↦ elim (l.routed c (ground (arith, both))) [
              | inl waits ↦ absurd (ground (arith, waits, settled))
              | inr owned ↦ inr owned
            ]
          ];
      older = l.older;
    },
    refl,
  )

  -- Connections may change as long as none comes or goes.
  pub reconnect-IsLive :
      (m : List (ConnectionHandle × ConnState net.quinn)) (ep : Endpoint float K net)
      → ((h : ConnectionHandle)
          → is_some (HashMap.get ConnectionHandle-discrete h m)
            ≡ is_some (HashMap.get ConnectionHandle-discrete h ep.connections))
      → IsLive ep
      → IsLive (record ep { connections = m })
  reconnect-IsLive m ep same l = record {
    routed = λ c issued. elim (l.routed c issued) [
      | inl waits ↦ inl waits
      | inr (h, cids, at, has, live) ↦ inr (h, cids, at, has, same h ∙ live)
    ];
    older = λ h live. l.older h (sym (same h) ∙ live);
  }

  pub deliver-IsLive :
      (cev : net.ConnectionEvent) (o : Option ConnectionHandle) (ep : Endpoint float K net)
      → IsLive ep
      → IsLive (deliver cev o ep).0
  unfolding deliver
  deliver-IsLive cev none ep l = l
  deliver-IsLive cev (some ch) ep l =
      reconnect-IsLive _ ep
        (λ h.
          is_some-get-modify ConnectionHandle-discrete ch h
            (λ (s : ConnState net.quinn). record s { conn = net.on_connection_event cev s.conn })
            ep.connections)
        l
