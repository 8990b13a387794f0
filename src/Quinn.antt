-- ===== src/Quinn.antt =====
-- quinn_proto::Connection, which is not part of this repository: its state and the calls that the
-- program makes of it are a parameter. A call on `&mut self` returns the new state.
use quietquic.Outcome.{QuinnError}
use quietquic.Prelude.{ℕ, ◌≤◌, ◌<◌, ◌≡◌, Bool, Option, some, List, length}

pub data ReadableError : Type 0 where
  closed_stream illegal_ordered_read : ReadableError

-- What `Chunks::next` returns: Ok(Some(..)), Ok(None), or one of its two errors.
pub data Next : Type 0 where
  chunk : List ℕ → Next
  fin : Next
  blocked : Next
  reset : ℕ → Next

pub data Readable (Chunks : Type 0) : Type 0 where
  ok : Chunks → Readable Chunks
  err : ReadableError → Readable Chunks

pub data WriteResult : Type 0 where
  ok : ℕ → WriteResult
  blocked : WriteResult
  stopped : ℕ → WriteResult
  closed_stream : WriteResult

pub data FinishResult : Type 0 where
  ok : FinishResult
  stopped : ℕ → FinishResult
  closed_stream : FinishResult

-- The application events; `other` stands for those that the program ignores.
pub data QuinnEvent : Type 0 where
  connected : QuinnEvent
  connection_lost : QuinnError → QuinnEvent
  opened_bi : QuinnEvent
  readable : ℕ → QuinnEvent
  writable : ℕ → QuinnEvent
  finished : ℕ → QuinnEvent
  stopped : ℕ → ℕ → QuinnEvent
  other : QuinnEvent

pub record Quinn : Type 1 where
  pub Connection : Type 0
  pub Chunks : Type 0
  pub is_closed : Connection → Bool
  pub is_drained : Connection → Bool
  -- streams().open(Dir::Bi) and streams().accept(Dir::Bi)
  pub open_bi : Connection → Option ℕ × Connection
  pub accept_bi : Connection → Option ℕ × Connection
  -- recv_stream(id).read(true), with what it leaves where it fails
  pub read : ℕ → Connection → Readable Chunks × Connection
  pub next : ℕ → Chunks → Next × Chunks
  pub finalize : Chunks → Connection
  pub write : ℕ → List ℕ → Connection → WriteResult × Connection
  pub finish : ℕ → Connection → FinishResult × Connection
  -- whether send_stream(id).reset(code) and recv_stream(id).stop(code) succeed
  pub reset : ℕ → ℕ → Connection → Bool × Connection
  pub stop : ℕ → ℕ → Connection → Bool × Connection
  pub poll : Connection → Option QuinnEvent × Connection
  pub varint_from_u64 : ℕ → Option ℕ
  -- How many events `poll` and how many streams `accept` can still return.
  pub events_left : Connection → ℕ
  pub streams_left : Connection → ℕ
  -- `next` yields at least one byte and never more than it was asked for.
  pub next_bounds :
      (max : ℕ) (c c' : Chunks) (bytes : List ℕ)
      → next max c ≡ (chunk bytes, c')
      → 0 < max
      → (0 < length bytes) × (length bytes ≤ max)
  pub write_bound :
      (id : ℕ) (bytes : List ℕ) (c c' : Connection) (n : ℕ)
      → write id bytes c ≡ (WriteResult.ok n, c')
      → n ≤ length bytes
  -- A write that cannot take any byte is blocked.
  pub write_progress :
      (id : ℕ) (bytes : List ℕ) (c c' : Connection) (n : ℕ)
      → write id bytes c ≡ (WriteResult.ok n, c')
      → 0 < length bytes
      → 0 < n
  -- `poll` and `accept` consume what they return.
  pub poll_consumes :
      (c c' : Connection) (e : QuinnEvent) → poll c ≡ (some e, c') → events_left c' < events_left c
  pub accept_consumes :
      (c c' : Connection) (id : ℕ) → accept_bi c ≡ (some id, c') → streams_left c' < streams_left c
  pub accept_events :
      (c c' : Connection) (r : Option ℕ) → accept_bi c ≡ (r, c') → events_left c' ≤ events_left c
