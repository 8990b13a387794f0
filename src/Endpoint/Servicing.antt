-- ===== src/Endpoint/Servicing.antt =====
-- Parts of `service_connections` in proto/src/endpoint.rs: what a pass reports of one connection, how
-- it finds that a connection is lost, and how it reaps the lost ones.
use quietquic.Conn
use quietquic.Conn.{ConnProgress, ConnState}
use quietquic.Endpoint.{Endpoint, ConnectionHandle-discrete, prune_connection_cids}
use quietquic.Endpoint.Reaping.{prune_connection_cids-IsLive}
use quietquic.Endpoint.Routing.{IsLive}
use quietquic.HashMap
use quietquic.HashMap.{get-remove}
use quietquic.Net.{Net}
use quietquic.Outcome.{ConnectionHandle, ConnectionError, Event}
use quietquic.Prelude.{ℕ, Option, none, some, List, [], ◌∷◌, ◌++◌, map, if◌then◌else◌, ℕ_discrete}
use quietquic.Quinn.{Quinn}
use quietquic.RateLimit.Bucket.{Floats}

-- The events of one pass over one connection, in the order in which they are pushed.
unfoldable pub progress_events : ConnectionHandle → ConnProgress → List Event
progress_events ch p =
    (if p.connected then Event.connected ch ∷ [] else [])
    ++ map (λ id. Event.stream_opened ch id) p.opened
    ++ map (λ id. Event.stream_readable ch id) p.readable
    ++ map (λ id. Event.stream_writable ch id) p.writable
    ++ map (λ id. Event.stream_fin_acked ch id) p.fin_acked
    ++ map (λ (s : ℕ × ℕ). Event.stream_stopped ch s.0 s.1) p.stopped

-- Why the connection is lost, if it is: quinn has reported it, or the connection is drained.
unfoldable pub lost_reason :
    {quinn : Quinn} → ConnProgress → ConnState quinn → Option ConnectionError
lost_reason {quinn} p s = elim p.lost [
  | some reason ↦ some reason
  | none ↦ if Conn.is_drained quinn s then some ConnectionError.locally_closed else none
]

module _ {float : Floats} {K : Type 0} {net : Net K float.Instant} where
  unfoldable pub conn_mut : ConnectionHandle → Endpoint float K net → Option (ConnState net.quinn)
  conn_mut ch ep = HashMap.get ConnectionHandle-discrete ch ep.connections

  -- The body of the reaping loop, for a connection that is there or not.
  unfoldable pub reap_present :
      Option (ConnState net.quinn)
      → ConnectionHandle
      → ConnectionError
      → Endpoint float K net
      → Endpoint float K net
  reap_present none ch reason ep = ep
  reap_present (some _) ch reason ep =
      let pruned = prune_connection_cids ch (record ep {
        connections = HashMap.remove ConnectionHandle-discrete ch ep.connections;
        by_quinn = HashMap.remove ℕ_discrete ch.quinn ep.by_quinn;
        client_ids = HashMap.remove ConnectionHandle-discrete ch ep.client_ids;
      }) in
      record pruned { events = pruned.events ++ (Event.connection_lost ch reason ∷ []) }

  unfoldable pub reap :
      List (ConnectionHandle × ConnectionError) → Endpoint float K net → Endpoint float K net
  unfolding reap_present
  reap [] ep = ep
  reap ((ch, reason) ∷ lost) ep =
      reap lost
        (reap_present (HashMap.get ConnectionHandle-discrete ch ep.connections) ch reason ep)

  reap_present-IsLive :
      (found : Option (ConnState net.quinn)) (ch : ConnectionHandle) (reason : ConnectionError)
      (ep : Endpoint float K net)
      → IsLive ep
      → IsLive (reap_present found ch reason ep)
  unfolding reap_present
  reap_present-IsLive none ch reason ep l = l
  reap_present-IsLive (some s) ch reason ep l =
      let maps : Endpoint float K net = record ep {
        by_quinn = HashMap.remove ℕ_discrete ch.quinn ep.by_quinn;
        client_ids = HashMap.remove ConnectionHandle-discrete ch ep.client_ids;
      } in
      let r =
        (prune_connection_cids-IsLive ch maps (record { routed = l.routed; older = l.older })).0 in
      record { routed = r.routed; older = r.older }

  -- After a reaping loop every connection ID that routes still has a live owner, or is still to be
  -- attributed, whatever the list of lost connections names and however often it names it.
  pub reap-IsLive :
      (lost : List (ConnectionHandle × ConnectionError)) (ep : Endpoint float K net)
      → IsLive ep
      → IsLive (reap lost ep)
  unfolding reap
  reap-IsLive [] ep l = l
  reap-IsLive ((ch, reason) ∷ lost) ep l = reap-IsLive lost _ (reap_present-IsLive _ ch reason ep l)
