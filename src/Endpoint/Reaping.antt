-- ===== src/Endpoint/Reaping.antt =====
-- `prune_connection_cids` of proto/src/endpoint.rs: what a connection that is reaped leaves.
use quietquic.Endpoint.{
  Endpoint, ConnectionId-discrete, ConnectionHandle-discrete, forget_cids, prune_connection_cids,
}
use quietquic.HashMap
use quietquic.HashMap.{get-insert, get-remove, is_some-get-modify, is_some-get-insert}
use quietquic.HashSet.{contains, contains-remove_all}
use quietquic.Net.{ConnectionId, Net}
use quietquic.Outcome.{ConnectionHandle}
use quietquic.Prelude.{
  ◌≡◌, inl, inr, refl, ap, ◌∙◌, sym, Bool, true, ◌&&◌, not, Option, none, some, List, [], arith,
  is_some, if_neg,
}
use mathlib.Core.Option
use mathlib.Core.Option.{some_inj, none-ne-some}
use quietquic.RateLimit.Bucket.{Floats}
use quietquic.Endpoint.Routing.{IsLive}

and_left : (a b : Bool) → (a && b) ≡ true → a ≡ true
and_left a b h = ground arith

not_both : (a b : Bool) → (a && not b) ≡ true → b ≡ true → ⊥
not_both a b h k = ground arith

get-remove_other :
    {V : Type 0} (ch h : ConnectionHandle) (m : List (ConnectionHandle × V))
    → ¬ (ch ≡ h)
    → HashMap.get ConnectionHandle-discrete h (HashMap.remove ConnectionHandle-discrete ch m)
      ≡ HashMap.get ConnectionHandle-discrete h m
get-remove_other ch h m other =
    get-remove ConnectionHandle-discrete ch h m ∙ if_neg (ConnectionHandle-discrete ch h) other _ _

module _ {float : Floats} {K : Type 0} {net : Net K float.Instant} where
  pruned :
      (ch : ConnectionHandle) (ep : Endpoint float K net) (h : ConnectionHandle)
      → is_some (
          HashMap.get ConnectionHandle-discrete h
            (HashMap.remove ConnectionHandle-discrete ch ep.connections))
        ≡ true
      → is_some (HashMap.get ConnectionHandle-discrete h ep.connections) ≡ true
  pruned ch ep h live =
      ground (arith, get-remove ConnectionHandle-discrete ch h ep.connections, live)

  forget_cids-IsLive :
      (o : Option (List ConnectionId)) (ch : ConnectionHandle) (ep : Endpoint float K net)
      → HashMap.get ConnectionHandle-discrete ch ep.cids_by_conn ≡ o
      → IsLive ep
      → let s = forget_cids o ch (record ep {
        connections = HashMap.remove ConnectionHandle-discrete ch ep.connections;
      }) in
        IsLive s
        × ((cid : ConnectionId)
            → contains ConnectionId-discrete cid s.issued_cids ≡ (
                contains ConnectionId-discrete cid ep.issued_cids
                && not (contains ConnectionId-discrete cid (Option.get_or o []))))
  unfolding forget_cids contains
  forget_cids-IsLive none ch ep at l = (
    record {
      routed = λ c issued. elim (l.routed c issued) [
        | inl waits ↦ inl waits
        | inr (h, cids, at', has, live) ↦ elim (ConnectionHandle-discrete ch h) [
          | yes same ↦ absurd (
              none-ne-some cids (
                sym at
                ∙ ap (λ x. HashMap.get ConnectionHandle-discrete x ep.cids_by_conn) same
                ∙ at'))
          | no other ↦
              inr
                (h, cids, at', has, ap is_some (get-remove_other ch h ep.connections other) ∙ live)
        ]
      ];
      older = λ h live. l.older h (pruned ch ep h live);
    },
    λ cid. ground arith,
  )
  forget_cids-IsLive (some gone) ch ep at l = (
    record {
      routed = λ c issued.
          let both =
            sym (contains-remove_all ConnectionId-discrete gone c ep.issued_cids) ∙ issued in
          elim (l.routed c (and_left _ _ both)) [
            | inl waits ↦ inl waits
            | inr (h, cids, at', has, live) ↦ elim (ConnectionHandle-discrete ch h) [
              | yes same ↦
                  let mine : gone ≡ cids = some_inj.0 (
                    sym at
                    ∙ ap (λ x. HashMap.get ConnectionHandle-discrete x ep.cids_by_conn) same
                    ∙ at') in
                  absurd (not_both _ _ both (ap (contains ConnectionId-discrete c) mine ∙ has))
              | no other ↦ inr (
                h,
                cids,
                get-remove_other ch h ep.cids_by_conn other ∙ at',
                has,
                ap is_some (get-remove_other ch h ep.connections other) ∙ live,
              )
            ]
          ];
      older = λ h live. l.older h (pruned ch ep h live);
    },
    λ cid. contains-remove_all ConnectionId-discrete gone cid ep.issued_cids,
  )

  -- A connection that is reaped takes its connection IDs, and no others, out of the routing set;
  -- those that are left have a live owner each, or are still to be attributed.
  pub prune_connection_cids-IsLive :
      (ch : ConnectionHandle) (ep : Endpoint float K net)
      → IsLive ep
      → let s = prune_connection_cids ch (record ep {
        connections = HashMap.remove ConnectionHandle-discrete ch ep.connections;
      }) in
        IsLive s
        × ((cid : ConnectionId)
            → contains ConnectionId-discrete cid s.issued_cids ≡ (
                contains ConnectionId-discrete cid ep.issued_cids
                && not (
                    contains ConnectionId-discrete cid (
                      Option.get_or
                        (HashMap.get ConnectionHandle-discrete ch ep.cids_by_conn)
                        []))))
  unfolding prune_connection_cids
  prune_connection_cids-IsLive ch ep l =
      forget_cids-IsLive (HashMap.get ConnectionHandle-discrete ch ep.cids_by_conn) ch ep refl l
