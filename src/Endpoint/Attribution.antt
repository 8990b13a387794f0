-- ===== src/Endpoint/Attribution.antt =====
-- `drain_pending_cids` of proto/src/endpoint.rs: what is pending goes to a connection.
use quietquic.Endpoint.{
  Endpoint, ConnectionId-discrete, ConnectionHandle-discrete, extend_cids, attribute,
}
use quietquic.HashMap
use quietquic.HashMap.{get-insert, get-remove, is_some-get-modify, is_some-get-insert}
use quietquic.HashSet.{contains}
use quietquic.Net.{ConnectionId, Net}
use quietquic.Outcome.{ConnectionHandle}
use quietquic.Prelude.{
  ◌≡◌, inl, inr, refl, ap, ◌∙◌, sym, Bool, true, ◌||◌, some, List, [], ◌∷◌, ◌++◌, arith, is_some,
  ite, if_pos, if_neg,
}
use mathlib.Core.Option
use mathlib.Core.Option.{some_inj, none-ne-some}
use quietquic.RateLimit.Bucket.{Floats}
use quietquic.Endpoint.Routing.{contains-append, IsLive}

get-extend_cids :
    (ch h : ConnectionHandle) (new_ : List ConnectionId)
    (m : List (ConnectionHandle × List ConnectionId))
    → HashMap.get ConnectionHandle-discrete h (extend_cids ch new_ m)
      ≡ ite
          (ConnectionHandle-discrete ch h)
          (some (Option.get_or (HashMap.get ConnectionHandle-discrete ch m) [] ++ new_))
          (HashMap.get ConnectionHandle-discrete h m)
unfolding extend_cids
get-extend_cids ch h new_ m = get-insert ConnectionHandle-discrete ch h _ m

owned-extend_cids :
    (ch h : ConnectionHandle) (new_ cids : List ConnectionId)
    (m : List (ConnectionHandle × List ConnectionId)) (cid : ConnectionId)
    → HashMap.get ConnectionHandle-discrete h m ≡ some cids
    → contains ConnectionId-discrete cid cids ≡ true
    → (all_ : List ConnectionId) × (HashMap.get ConnectionHandle-discrete h (extend_cids ch new_ m)
        ≡ some all_)
      × (contains ConnectionId-discrete cid all_ ≡ true)
owned-extend_cids ch h new_ cids m cid at has = elim (ConnectionHandle-discrete ch h) [
  | yes same ↦
      let old : Option.get_or (HashMap.get ConnectionHandle-discrete ch m) [] ≡ cids =
        ap (λ o. Option.get_or o [])
          (ap (λ x. HashMap.get ConnectionHandle-discrete x m) same ∙ at) in
      (
        _,
        get-extend_cids ch h new_ m ∙ if_pos (ConnectionHandle-discrete ch h) same _ _,
        contains-append ConnectionId-discrete cid _ new_
            ∙ ap (λ b. b || contains ConnectionId-discrete cid new_)
                (ap (contains ConnectionId-discrete cid) old ∙ has),
      )
  | no other ↦ (
    cids,
    get-extend_cids ch h new_ m ∙ if_neg (ConnectionHandle-discrete ch h) other _ _ ∙ at,
    has,
  )
]

or_true : (a : Bool) {b : Bool} → b ≡ true → (a || b) ≡ true
or_true a h = ground arith

module _ {float : Floats} {K : Type 0} {net : Net K float.Instant} where
  -- A connection that is there takes what is pending.
  pub attribute-IsLive :
      (pending : List ConnectionId) (ch : ConnectionHandle) (ep : Endpoint float K net)
      → pending ≡ ep.pending_cids
      → IsLive ep
      → is_some (HashMap.get ConnectionHandle-discrete ch ep.connections) ≡ true
      → IsLive (attribute pending ch ep) × ((attribute pending ch ep).pending_cids ≡ [])
  unfolding attribute
  attribute-IsLive [] ch ep p l here = (l, sym p)
  attribute-IsLive (cid ∷ cids) ch ep p l here = (
    record {
      routed = λ c issued. elim (l.routed c issued) [
        | inl waits ↦ inr (
          ch,
          Option.get_or (HashMap.get ConnectionHandle-discrete ch ep.cids_by_conn) []
              ++ (cid ∷ cids),
          get-extend_cids ch ch (cid ∷ cids) ep.cids_by_conn
              ∙ if_pos (ConnectionHandle-discrete ch ch) refl _ _,
          contains-append ConnectionId-discrete c _ (cid ∷ cids)
              ∙ or_true _ (ap (contains ConnectionId-discrete c) p ∙ waits),
          here,
        )
        | inr (h, old, at, has, live) ↦
            let (all_, at', has') =
              owned-extend_cids ch h (cid ∷ cids) old ep.cids_by_conn c at has in
            inr (h, all_, at', has', live)
      ];
      older = l.older;
    },
    refl,
  )
