-- ===== src/Outcome.antt =====
-- proto/src/outcome.rs: what the core answers, and the reasons for which a connection is lost.
use Prim.Native.String.{String}
use quietquic.Prelude.{ℕ, Option, none, List}

-- quinn_proto::ConnectionError, with the parts of its variants that the program reads.
pub data QuinnError : Type 0 where
  version_mismatch : QuinnError
  transport_error : ℕ → String → QuinnError
  connection_closed : ℕ → List ℕ → QuinnError
  application_closed : ℕ → List ℕ → QuinnError
  reset : QuinnError
  timed_out : QuinnError
  locally_closed : QuinnError
  cids_exhausted : QuinnError

-- The fields are the code, the frame type and the reason.
pub data ConnectionError : Type 0 where
  application_closed : ℕ → List ℕ → ConnectionError
  connection_closed : ℕ → Option ℕ → List ℕ → ConnectionError
  transport_error : ℕ → Option ℕ → String → ConnectionError
  reset : ConnectionError
  timed_out : ConnectionError
  locally_closed : ConnectionError
  version_mismatch : ConnectionError
  cids_exhausted : ConnectionError

unfoldable pub from_quinn : QuinnError → ConnectionError
from_quinn QuinnError.version_mismatch = ConnectionError.version_mismatch
from_quinn (QuinnError.transport_error code reason) =
    ConnectionError.transport_error code none reason
from_quinn (QuinnError.connection_closed code reason) =
    ConnectionError.connection_closed code none reason
from_quinn (QuinnError.application_closed code reason) =
    ConnectionError.application_closed code reason
from_quinn QuinnError.reset = ConnectionError.reset
from_quinn QuinnError.timed_out = ConnectionError.timed_out
from_quinn QuinnError.locally_closed = ConnectionError.locally_closed
from_quinn QuinnError.cids_exhausted = ConnectionError.cids_exhausted

-- A quinn slab index with the generation that the endpoint gave it.
pub record ConnectionHandle : Type 0 where
  pub quinn : ℕ
  pub generation : ℕ

pub record SocketAddr (K : Type 0) : Type 0 where
  pub ip : K
  pub port : ℕ

pub record Transmit (K : Type 0) : Type 0 where
  pub destination : SocketAddr K
  pub contents : List ℕ

pub data DatagramOutcome : Type 0 where
  dropped : DatagramOutcome
  accepted : ConnectionHandle → DatagramOutcome

pub data ReadOutcome : Type 0 where
  read : ℕ → ReadOutcome
  blocked : ReadOutcome
  finished : ReadOutcome

pub data WriteOutcome : Type 0 where
  wrote : ℕ → WriteOutcome
  blocked : WriteOutcome

-- Streams are named by numbers; every stream that is reported is bidirectional.
pub data Event : Type 0 where
  connected : ConnectionHandle → Event
  stream_opened : ConnectionHandle → ℕ → Event
  stream_readable : ConnectionHandle → ℕ → Event
  stream_writable : ConnectionHandle → ℕ → Event
  stream_fin_acked : ConnectionHandle → ℕ → Event
  stream_stopped : ConnectionHandle → ℕ → ℕ → Event
  connection_lost : ConnectionHandle → ConnectionError → Event
