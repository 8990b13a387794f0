-- ===== src/Endpoint/Deadline.antt =====
-- `next_timeout` of proto/src/endpoint.rs after the stream operations of a caller.
use quietquic.Conn.{ConnState}
use quietquic.Conn.Dirty.{StreamCall, apply, apply-dirty}
use quietquic.Endpoint.{Endpoint, ConnectionHandle-discrete, any_dirty, or, next_timeout}
use quietquic.HashMap
use quietquic.HashMap.{get-modify}
use quietquic.Net.{Net}
use quietquic.Outcome.{ConnectionHandle}
use quietquic.Prelude.{
  ◌≡◌, ◌⊎◌, inl, inr, refl, ap, ◌∙◌, sym, true, some, List, [], ◌∷◌, arith, if_pos, if_neg,
}
use mathlib.Core.Option
use mathlib.Core.Option.{some_inj}
use quietquic.Quinn.{Quinn}
use quietquic.RateLimit.Bucket.{Floats}

any_dirty-get :
    {quinn : Quinn} (ch : ConnectionHandle) (state : ConnState quinn)
    (m : List (ConnectionHandle × ConnState quinn))
    → HashMap.get ConnectionHandle-discrete ch m ≡ some state
    → state.dirty ≡ true
    → any_dirty m ≡ true
unfolding any_dirty HashMap.get
any_dirty-get ch state [] h d = absurd (ground arith)
any_dirty-get ch state ((j, v) ∷ m) h d = elim (ConnectionHandle-discrete j ch) [
  | yes same ↦
      let here : v ≡ state =
        some_inj.0 (sym (if_pos (ConnectionHandle-discrete j ch) same _ _) ∙ h) in
      ground (arith, ap (λ (x : ConnState _). x.dirty) here, d)
  | no other ↦ ground (
    arith,
    any_dirty-get ch state m,
    sym (if_neg (ConnectionHandle-discrete j ch) other _ _) ∙ h,
    d,
  )
]

module _ {float : Floats} {K : Type 0} {net : Net K float.Instant} where
  -- After a stream operation on a live connection the deadline is the instant of the last servicing
  -- pass, which has elapsed, or the operation has left the connection as it was.
  pub next_timeout-apply :
      (call : StreamCall) (ch : ConnectionHandle) (state : ConnState net.quinn)
      (ep : Endpoint float K net) (last : float.Instant)
      → HashMap.get ConnectionHandle-discrete ch ep.connections ≡ some state
      → ep.last_service ≡ some last
      → (next_timeout (record ep {
        connections =
            HashMap.modify ConnectionHandle-discrete ch (apply net.quinn call) ep.connections;
      })
          ≡ some last)
        ⊎ (apply net.quinn call state ≡ state)
  unfolding next_timeout or
  next_timeout-apply call ch state ep last live serviced = elim (apply-dirty net.quinn call state) [
    | inr same ↦ inr same
    | inl dirty ↦
        let after =
          get-modify ConnectionHandle-discrete ch ch (apply net.quinn call) ep.connections
          ∙ if_pos (ConnectionHandle-discrete ch ch) refl _ _
          ∙ ap (Option.map (apply net.quinn call)) live in
        inl (rw (any_dirty-get ch (apply net.quinn call state) _ after dirty, serviced) refl)
  ]
