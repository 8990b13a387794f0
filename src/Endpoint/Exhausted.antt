-- ===== src/Endpoint/Exhausted.antt =====
-- The loop over endpoint events in `service_connections` of proto/src/endpoint.rs ends when quinn has
-- none: the rounds that it gets are enough.
use quietquic.Conn.{ConnState}
use quietquic.Endpoint.{Endpoint, ConnectionHandle-discrete}
use quietquic.Endpoint.Pass.{answer_event, event_rounds}
use quietquic.HashMap
use quietquic.HashMap.{get-modify}
use quietquic.Net.{Net}
use quietquic.Outcome.{ConnectionHandle}
use quietquic.Prelude.{◌≤◌, ◌≡◌, refl, ap, ◌∙◌, Option, none, some, List, arith, if_pos}
use mathlib.Core.Option
use quietquic.RateLimit.Bucket.{Floats}

module _ {K Instant : Type 0} (net : Net K Instant) where
  -- quinn was asked for an endpoint event last, and had none.
  pub Exhausted : Option (ConnState net.quinn) → Type 0
  Exhausted none = Unit
  Exhausted (some s) =
      (before : net.quinn.Connection) × (net.poll_endpoint_events before ≡ (none, s.conn))

  modified :
      (ch : ConnectionHandle) (f : ConnState net.quinn → ConnState net.quinn)
      (m : List (ConnectionHandle × ConnState net.quinn))
      → HashMap.get ConnectionHandle-discrete ch (HashMap.modify ConnectionHandle-discrete ch f m)
        ≡ Option.map f (HashMap.get ConnectionHandle-discrete ch m)
  modified ch f m =
      get-modify ConnectionHandle-discrete ch ch f m
      ∙ if_pos (ConnectionHandle-discrete ch ch) refl _ _

module _ {float : Floats} {K : Type 0} {net : Net K float.Instant} where
  -- The connection of a handle.
  abbrev at : ConnectionHandle → Endpoint float K net → Option (ConnState net.quinn)
  at ch ep = HashMap.get ConnectionHandle-discrete ch ep.connections

  -- The answer to an endpoint event leaves the connection with no more of them.
  answered :
      (ch : ConnectionHandle) (ev : net.EndpointEvent) (inner : net.Inner)
      (cev : Option net.ConnectionEvent) (ep : Endpoint float K net) (s : ConnState net.quinn)
      → (net.handle_event ch.quinn ev inner).0.event ≡ cev
      → at ch ep ≡ some s
      → event_rounds net (at ch (answer_event ch cev ep)) ≤ event_rounds net (some s)
  unfolding answer_event event_rounds
  answered ch ev inner none ep s e found = omega (arith, ap (event_rounds net) found)
  answered ch ev inner (some cev) ep s e found =
      let here =
        modified net ch (λ t. record t { conn = net.on_connection_event cev t.conn }) ep.connections
        ∙ ap
            (Option.map
              (λ (t : ConnState net.quinn). record t { conn = net.on_connection_event cev t.conn }))
            found in
      omega (arith, ap (event_rounds net) here, net.answer_events ch.quinn ev inner cev s.conn e)
