-- ===== src/Endpoint.antt =====
-- proto/src/endpoint.rs: the endpoint that the caller drives. A function that can panic returns an
-- Option, whose `none` is the panic; the others return the new state.
pub mod Datagram
pub mod Silence
pub mod Admission
pub mod Routing
pub mod Attribution
pub mod Adoption
pub mod Feeding
pub mod Generations
pub mod Exhausted
pub mod Reaping
pub mod Deadline
pub mod Servicing
pub mod Pass
pub mod Drive
pub mod Rounds
pub mod Clean
pub mod Unanswered
pub mod Setup
use Prim.Native.String.{String}
use mathlib.Core.Option
use quietquic.Conn.{ConnState}
use quietquic.Freshness.{now_minutes, is_fresh, window_minutes}
use quietquic.HashMap
use quietquic.HashSet
use quietquic.Net.{ConnectionId, DatagramEvent, Net}
use quietquic.Outcome.{ConnectionHandle, SocketAddr, Transmit, DatagramOutcome, Event}
use quietquic.Prelude.{
  ℕ, zero, suc, ◌+◌, ◌<◌, ◌^◌, Bool, true, false, not, ◌&&◌, ◌||◌, Option, none, some, ◌>>=◌, ◌>>◌,
  guard, List, [], ◌∷◌, ◌++◌, ◌==◌, ltb, if◌then◌else◌, length, get_elem?, set, take, drop, bit_and,
  ℕ_discrete,
}
use quietquic.Quinn.{Quinn}
use quietquic.RateLimit.{RateLimiter, check}
use quietquic.RateLimit.Bucket.{Floats}
use quietquic.Replay.{ReplayGuard, check_and_record}
use quietquic.Selector.{Blake3, DcidParts, dcid_len, parse_dcid, selector_matches}
use quietquic.Transport.{peek_dcid}

pub data Role : Type 0 where
  server client : Role

abbrev pub local_cid_len : ℕ
local_cid_len = 8

unfoldable pub ConnectionId-discrete : Discrete ConnectionId
unfolding ℕ_discrete
ConnectionId-discrete = hlevel ℕ_discrete

unfoldable pub ConnectionHandle-discrete : Discrete ConnectionHandle
unfolding ℕ_discrete
ConnectionHandle-discrete = hlevel ℕ_discrete

-- The two forms of a header.
unfoldable pub read_dcid_form : Bool → List ℕ → Option (List ℕ)
read_dcid_form true datagram = peek_dcid datagram
read_dcid_form false datagram =
    if ltb (length datagram) (1 + local_cid_len)
    then none
    else some (take local_cid_len (drop 1 datagram))

unfoldable pub read_dcid_any : List ℕ → Option (List ℕ)
unfolding read_dcid_form
read_dcid_any datagram = do
  first ← get_elem? datagram 0
  read_dcid_form (not (bit_and first 0x80 == 0)) datagram

pub record ClientCrypto (ServerConfig : Type 0) : Type 0 where
  pub client_id : String
  pub psk : List ℕ
  pub server_config : ServerConfig

pub record Endpoint (float : Floats) (K : Type 0) (net : Net K float.Instant) : Type 0 where
  pub inner : net.Inner
  pub role : Role
  pub clients : List (ClientCrypto net.ServerConfig)
  pub replay : List ReplayGuard
  pub rate_limiter : RateLimiter float K
  pub issued_cids : List ConnectionId
  pub pending_cids : List ConnectionId
  pub cids_by_conn : List (ConnectionHandle × List ConnectionId)
  pub connections : List (ConnectionHandle × ConnState net.quinn)
  pub client_ids : List (ConnectionHandle × String)
  pub by_quinn : List (ℕ × ConnectionHandle)
  pub next_generation : ℕ
  pub outbound : List (Transmit K)
  pub events : List Event
  pub next_timeout : Option float.Instant
  pub last_service : Option float.Instant

-- Option::or
unfoldable pub or : {A : Type 0} → Option A → Option A → Option A
or (some a) _ = some a
or none other = other

-- `entry(ch).or_default().extend(..)`
unfoldable pub extend_cids :
    ConnectionHandle
    → List ConnectionId
    → List (ConnectionHandle × List ConnectionId)
    → List (ConnectionHandle × List ConnectionId)
extend_cids ch drained m =
    HashMap.insert ConnectionHandle-discrete ch
      (Option.get_or (HashMap.get ConnectionHandle-discrete ch m) [] ++ drained) m

-- `values().any(ConnState::is_dirty)`
unfoldable pub any_dirty : {quinn : Quinn} → List (ConnectionHandle × ConnState quinn) → Bool
any_dirty [] = false
any_dirty ((ch, s) ∷ m) = s.dirty || any_dirty m

-- A verdict of the guards of `handle_datagram`: an early return, or the client that is admitted,
-- if the datagram opens a connection.
pub data Verdict : Type 0 where
  rejected : Verdict
  passed : Option ℕ → Verdict

module _ {float : Floats} {K : Type 0} {net : Net K float.Instant} where
  -- RecordingCidGenerator::generate_cid, once for each connection ID that a call minted.
  unfoldable pub mint : List ConnectionId → Endpoint float K net → Endpoint float K net
  mint [] ep = ep
  mint (cid ∷ cids) ep = mint cids (record ep {
    issued_cids = (HashSet.insert ConnectionId-discrete cid ep.issued_cids).0;
    pending_cids = ep.pending_cids ++ (cid ∷ []);
  })

  -- What `drain_pending_cids` does with the list that it finds.
  unfoldable pub attribute :
      List ConnectionId → ConnectionHandle → Endpoint float K net → Endpoint float K net
  unfolding extend_cids
  attribute [] ch ep = ep
  attribute (cid ∷ cids) ch ep = record ep {
    pending_cids = [];
    cids_by_conn = extend_cids ch (cid ∷ cids) ep.cids_by_conn;
  }

  unfoldable pub drain_pending_cids : ConnectionHandle → Endpoint float K net → Endpoint float K net
  unfolding attribute
  drain_pending_cids ch ep = attribute ep.pending_cids ch ep

  -- Where there is no orphan, the early return, nothing changes.
  unfoldable pub sweep_orphan_cids : Endpoint float K net → Endpoint float K net
  sweep_orphan_cids ep = record ep {
    pending_cids = [];
    issued_cids = HashSet.remove_all ConnectionId-discrete ep.pending_cids ep.issued_cids;
  }

  -- What `prune_connection_cids` does with the list that it finds.
  unfoldable pub forget_cids :
      Option (List ConnectionId) → ConnectionHandle → Endpoint float K net → Endpoint float K net
  forget_cids none ch ep = ep
  forget_cids (some cids) ch ep = record ep {
    cids_by_conn = HashMap.remove ConnectionHandle-discrete ch ep.cids_by_conn;
    issued_cids = HashSet.remove_all ConnectionId-discrete cids ep.issued_cids;
  }

  unfoldable pub prune_connection_cids :
      ConnectionHandle → Endpoint float K net → Endpoint float K net
  unfolding forget_cids
  prune_connection_cids ch ep =
      forget_cids (HashMap.get ConnectionHandle-discrete ch ep.cids_by_conn) ch ep

  -- The panic is that of `checked_add`; the assertion is of debug builds only.
  unfoldable pub allocate_handle :
      ℕ → Endpoint float K net → Option (Endpoint float K net × ConnectionHandle)
  allocate_handle quinn ep = do
    let handle : ConnectionHandle = record { quinn = quinn; generation = ep.next_generation }
    guard (ltb (ep.next_generation + 1) (2 ^ 64))
    some (
      record ep {
        next_generation = ep.next_generation + 1;
        by_quinn = HashMap.insert ℕ_discrete quinn handle ep.by_quinn;
      },
      handle,
    )

  unfoldable pub poll_event : Endpoint float K net → Endpoint float K net × Option Event
  poll_event ep = elim ep.events [
    | [] ↦ (ep, none)
    | ◌∷◌ e es ↦ (record ep { events = es }, some e)
  ]

  unfoldable pub next_timeout : Endpoint float K net → Option float.Instant
  unfolding any_dirty or
  next_timeout ep =
      if any_dirty ep.connections then or ep.last_service ep.next_timeout else ep.next_timeout

  unfoldable pub client_id : ConnectionHandle → Endpoint float K net → Option String
  client_id ch ep = HashMap.get ConnectionHandle-discrete ch ep.client_ids

  unfoldable pub issued_cid_count : Endpoint float K net → ℕ
  issued_cid_count ep = length ep.issued_cids
