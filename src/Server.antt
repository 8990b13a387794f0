-- ===== src/Server.antt =====
-- Driver of src/server.rs: what the task of an async server keeps of the connections of its endpoint.
-- Sockets, timers and channels are those of tokio.
pub mod Retained
use Prim.Native.String.{String}
use quietquic.Conn.{ConnState}
use quietquic.Endpoint.{Endpoint, ConnectionHandle-discrete, client_id}
use quietquic.Endpoint.Servicing.{conn_mut}
use quietquic.HashMap
use quietquic.HashSet
use quietquic.HashSet.{contains, retain}
use quietquic.Net.{Net}
use quietquic.Outcome.{ConnectionHandle, SocketAddr, ConnectionError, Event}
use quietquic.Parked
use quietquic.Parked.{
  Answer, Cmd, Parked, lose, on_stream_opened, on_readable, on_writable, on_fin_acked, on_stopped,
  apply_cmd,
}
use quietquic.Prelude.{
  ℕ, Bool, true, false, Option, none, some, List, [], ◌∷◌, ◌++◌, if◌then◌else◌, ite,
}
use quietquic.RateLimit.Bucket.{Floats}

-- The handle that an application gets. Its channels are left out.
pub record Connection (K : Type 0) : Type 0 where
  pub handle : ConnectionHandle
  pub remote : SocketAddr K
  pub client : Option String

-- `ended` is the log of the parked operations that are gone, and `ignored` that of the commands whose
-- reply channels were dropped.
pub record Driver (float : Floats) (K : Type 0) (net : Net K float.Instant) : Type 0 where
  pub core : Endpoint float K net
  pub parked : List (ConnectionHandle × Parked)
  pub surfaced : List ConnectionHandle
  pub pending_accept : List (Connection K)
  pub ended : List (ℕ × Answer)
  pub ignored : List Cmd

-- The test of `retain`
unfoldable pub is_other : {K : Type 0} → ConnectionHandle → Connection K → Bool
is_other ch c = ite (ConnectionHandle-discrete ch c.handle) false true

-- The answers of the operations that were parked, which end with the connection.
unfoldable pub ends : ConnectionError → Option Parked → List (ℕ × Answer)
ends reason none = []
ends reason (some pk) = (lose reason pk).sent

-- What an arm of the loop of `run` does: the core is driven, an event of the core is handled, a
-- command arrives, or a connection is delivered.
pub data Input (float : Floats) (K : Type 0) (net : Net K float.Instant) : Type 0 where
  drives : Endpoint float K net → Input float K net
  event : Event → Input float K net
  command : float.Instant → ConnectionHandle → Cmd → Input float K net
  delivery : Input float K net

module _ {float : Floats} {K : Type 0} {net : Net K float.Instant} where
  unfoldable pub new : Endpoint float K net → Driver float K net
  new core = record {
    core = core;
    parked = [];
    surfaced = [];
    pending_accept = [];
    ended = [];
    ignored = [];
  }

  -- `if let (Some(parked), Some(state))`, for what the two maps hold.
  unfoldable pub with_both :
      Option Parked
      → Option (ConnState net.quinn)
      → ConnectionHandle
      → (Parked → ConnState net.quinn → Parked × ConnState net.quinn)
      → Driver float K net
      → Driver float K net
  with_both (some pk) (some s) ch f d =
      let (pk', s') = f pk s in
      record d {
        parked = HashMap.modify ConnectionHandle-discrete ch (λ _. pk') d.parked;
        core = record d.core {
          connections = HashMap.modify ConnectionHandle-discrete ch (λ _. s') d.core.connections;
        };
      }
  with_both (some pk) none ch f d = d
  with_both none o ch f d = d

  unfoldable pub on_conn :
      ConnectionHandle
      → (Parked → ConnState net.quinn → Parked × ConnState net.quinn)
      → Driver float K net
      → Driver float K net
  unfolding with_both
  on_conn ch f d =
      with_both (HashMap.get ConnectionHandle-discrete ch d.parked) (conn_mut ch d.core) ch f d

  -- `surface` once the handle is in the set.
  unfoldable pub offer :
      Option (ConnState net.quinn) → ConnectionHandle → Driver float K net → Driver float K net
  offer none ch d = record d { surfaced = HashSet.remove ConnectionHandle-discrete ch d.surfaced }
  offer (some state) ch d = record d {
    parked = HashMap.insert ConnectionHandle-discrete ch Parked.new d.parked;
    pending_accept =
        d.pending_accept
        ++ (record {
          handle = ch;
          remote = net.remote_address state.conn;
          client = client_id ch d.core;
        }
            ∷ []);
  }

  unfoldable pub surface : ConnectionHandle → Driver float K net → Driver float K net
  unfolding offer
  surface ch d =
      if contains ConnectionHandle-discrete ch d.surfaced
      then d
      else offer (conn_mut ch d.core) ch
          (record d { surfaced = (HashSet.insert ConnectionHandle-discrete ch d.surfaced).0 })

  unfoldable pub on_lost :
      ConnectionHandle → ConnectionError → Driver float K net → Driver float K net
  unfolding ends is_other
  on_lost ch reason d = record d {
    parked = HashMap.remove ConnectionHandle-discrete ch d.parked;
    ended = d.ended ++ ends reason (HashMap.get ConnectionHandle-discrete ch d.parked);
    surfaced = HashSet.remove ConnectionHandle-discrete ch d.surfaced;
    pending_accept = retain (is_other ch) d.pending_accept;
  }

  unfoldable pub on_event : Event → Driver float K net → Driver float K net
  unfolding surface on_lost on_conn
  on_event (Event.connected ch) d = surface ch d
  on_event (Event.stream_opened ch id) d = on_conn ch (on_stream_opened net.quinn) d
  on_event (Event.stream_readable ch id) d = on_conn ch (on_readable net.quinn id) d
  on_event (Event.stream_writable ch id) d = on_conn ch (on_writable net.quinn id) d
  on_event (Event.stream_fin_acked ch id) d = record d {
    parked = HashMap.modify ConnectionHandle-discrete ch (on_fin_acked id) d.parked;
  }
  on_event (Event.stream_stopped ch id code) d = on_conn ch (on_stopped net.quinn id code) d
  on_event (Event.connection_lost ch reason) d = on_lost ch reason d

  -- `pop_front`, for what the queue holds.
  unfoldable pub deliver_from :
      List (Connection K) → Driver float K net → Driver float K net × Option (Connection K)
  deliver_from [] d = (d, none)
  deliver_from (c ∷ cs) d = (record d { pending_accept = cs }, some c)

  -- The arm of `run` that delivers the first connection in the queue.
  unfoldable pub deliver : Driver float K net → Driver float K net × Option (Connection K)
  unfolding deliver_from
  deliver d = deliver_from d.pending_accept d

module _ {float : Floats} {K : Type 0} {net : Net K float.Instant}
    (close_conn : float.Instant → ℕ → List ℕ → net.quinn.Connection → net.quinn.Connection) where
  -- What `on_command` does with what the two maps hold.
  unfoldable pub obey :
      Option Parked
      → Option (ConnState net.quinn)
      → float.Instant
      → ConnectionHandle
      → Cmd
      → Driver float K net
      → Driver float K net
  unfolding with_both
  obey (some pk) (some s) now ch cmd d =
      with_both (some pk) (some s) ch (apply_cmd net.quinn close_conn now cmd) d
  obey (some pk) none now ch cmd d = record d { ignored = d.ignored ++ (cmd ∷ []) }
  obey none o now ch cmd d = record d { ignored = d.ignored ++ (cmd ∷ []) }

  unfoldable pub on_command :
      float.Instant → ConnectionHandle → Cmd → Driver float K net → Driver float K net
  unfolding obey
  on_command now ch cmd d =
      obey (HashMap.get ConnectionHandle-discrete ch d.parked) (conn_mut ch d.core) now ch cmd d

  unfoldable pub step : Input float K net → Driver float K net → Driver float K net
  unfolding on_event on_command deliver
  step (Input.drives core) d = record d { core = core }
  step (Input.event e) d = on_event e d
  step (Input.command now ch cmd) d = on_command now ch cmd d
  step Input.delivery d = (deliver d).0

  unfoldable pub run : List (Input float K net) → Driver float K net → Driver float K net
  unfolding step
  run [] d = d
  run (i ∷ is) d = run is (step i d)
