-- ===== src/Net.antt =====
-- quinn_proto::Endpoint, which is not part of this repository: its state and the calls that the
-- program makes of it are a parameter. Each call also returns the connection IDs that the
-- endpoint's generator minted during it, in order.
use quietquic.Outcome.{SocketAddr}
use quietquic.Prelude.{ℕ, ◌≡◌, ◌<◌, ◌≤◌, ◌⊎◌, Bool, true, Option, some, List}
use quietquic.Quinn.{Quinn}

abbrev pub ConnectionId : Type 0
ConnectionId = List ℕ

-- `handle` returns one of these or nothing.
pub data DatagramEvent (Incoming ConnectionEvent : Type 0) : Type 0 where
  new_connection : Incoming → DatagramEvent Incoming ConnectionEvent
  connection_event : ℕ → ConnectionEvent → DatagramEvent Incoming ConnectionEvent
  response : DatagramEvent Incoming ConnectionEvent

-- What `handle` returns, with the response that it put into the buffer.
pub record Handled (Incoming ConnectionEvent : Type 0) : Type 0 where
  pub event : Option (DatagramEvent Incoming ConnectionEvent)
  pub resp : List ℕ
  pub minted : List ConnectionId

-- What `accept` returns: the slab index and the connection, or nothing where it fails.
pub record Accepted (Connection : Type 0) : Type 0 where
  pub connection : Option (ℕ × Connection)
  pub buf : List ℕ
  pub minted : List ConnectionId

-- What `Endpoint::handle_event` returns.
pub record EventAnswer (ConnectionEvent : Type 0) : Type 0 where
  pub event : Option ConnectionEvent
  pub minted : List ConnectionId

pub record Net (K Instant : Type 0) : Type 1 where
  pub quinn : Quinn
  pub Inner : Type 0
  pub ServerConfig : Type 0
  pub Incoming : Type 0
  pub ConnectionEvent : Type 0
  pub EndpointEvent : Type 0
  pub set_server_config : ServerConfig → Inner → Inner
  pub handle : Instant → SocketAddr K → List ℕ → Inner → Handled Incoming ConnectionEvent × Inner
  pub accept : Incoming → Instant → Inner → Accepted quinn.Connection × Inner
  -- Endpoint::handle_event
  pub handle_event : ℕ → EndpointEvent → Inner → EventAnswer ConnectionEvent × Inner
  pub remote_address : quinn.Connection → SocketAddr K
  -- Connection::handle_event
  pub on_connection_event : ConnectionEvent → quinn.Connection → quinn.Connection
  pub poll_endpoint_events : quinn.Connection → Option EndpointEvent × quinn.Connection
  -- Connection::poll_transmit for one datagram, with what it put into the empty buffer
  pub poll_transmit : Instant → quinn.Connection → Option (SocketAddr K × List ℕ) × quinn.Connection
  pub poll_timeout : quinn.Connection → Option Instant × quinn.Connection
  pub handle_timeout : Instant → quinn.Connection → quinn.Connection
  -- The order of instants
  pub le : Instant → Instant → Bool
  -- How many endpoint events and datagrams a connection can still return.
  pub endpoint_events_left : quinn.Connection → ℕ
  pub transmits_left : Instant → quinn.Connection → ℕ
  -- These calls consume what they return, and the answer to an endpoint event raises no other.
  pub poll_endpoint_events_consumes :
      (c c' : quinn.Connection) (e : EndpointEvent)
      → poll_endpoint_events c ≡ (some e, c')
      → endpoint_events_left c' < endpoint_events_left c
  pub answer_events :
      (ch : ℕ) (ev : EndpointEvent) (inner : Inner) (cev : ConnectionEvent) (c : quinn.Connection)
      → (handle_event ch ev inner).0.event ≡ some cev
      → endpoint_events_left (on_connection_event cev c) ≤ endpoint_events_left c
  pub poll_transmit_consumes :
      (now : Instant) (c c' : quinn.Connection) (t : SocketAddr K × List ℕ)
      → poll_transmit now c ≡ (some t, c')
      → transmits_left now c' < transmits_left now c
  -- Asking for the deadline only reads it.
  pub poll_timeout_reads : (c : quinn.Connection) → (poll_timeout c).1 ≡ c
  pub le_total : (t u : Instant) → (le t u ≡ true) ⊎ (le u t ≡ true)
  pub le_trans : (t u v : Instant) → le t u ≡ true → le u v ≡ true → le t v ≡ true
