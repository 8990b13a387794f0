-- ===== src/Conn.antt =====
-- proto/src/conn.rs: one connection with the bookkeeping of its streams. Every operation takes the
-- state and returns the new one with its answer; streams are named by numbers.
pub mod Read
pub mod Service
pub mod Drained
pub mod Delivered
pub mod Ends
pub mod Dirty
use Prim.Native.String.{String}
use quietquic.HashMap
use quietquic.HashSet
use quietquic.Outcome.{ConnectionError, from_quinn, ReadOutcome, WriteOutcome}
use quietquic.Prelude.{
  ℕ, zero, suc, ◌+◌, ◌-◌, Bool, true, false, Option, none, some, List, [], ◌∷◌, ◌++◌, ◌==◌, ltb,
  if◌then◌else◌, length, drop, ℕ_discrete,
}
use quietquic.Quinn.{Quinn, ReadableError, Next, Readable, WriteResult, FinishResult, QuinnEvent}

pub data ConnError : Type 0 where
  closed : ConnError
  stopped : ℕ → ConnError
  reset : ℕ → ConnError
  closed_stream : ConnError
  read_limit_exceeded : ℕ → ConnError
  invalid_error_code : ℕ → ConnError
  transport : String → ConnError

pub data Result (A : Type 0) : Type 0 where
  ok : A → Result A
  err : ConnError → Result A

pub data SendFin : Type 0 where
  queued : SendFin
  acked : SendFin
  stopped : ℕ → SendFin

pub record ConnProgress : Type 0 where
  pub connected : Bool
  pub lost : Option ConnectionError
  pub opened : List ℕ
  pub readable : List ℕ
  pub writable : List ℕ
  pub fin_acked : List ℕ
  pub stopped : List (ℕ × ℕ)

abbrev pub no_progress : ConnProgress
no_progress = record {
  connected = false;
  lost = none;
  opened = [];
  readable = [];
  writable = [];
  fin_acked = [];
  stopped = [];
}

pub record ConnState (quinn : Quinn) : Type 0 where
  pub conn : quinn.Connection
  pub ready_accepts : List ℕ
  pub finished_reads : List ℕ
  pub send_fins : List (ℕ × SendFin)
  pub dirty : Bool

-- Where the read loop stopped: the buffer is full, or the `break` that it took.
pub data ReadEnd : Type 0 where
  full : ReadEnd
  finished : ReadEnd
  blocked : ReadEnd
  errored : ConnError → ReadEnd

-- Whether `record_send_fin` replaces what is known, and whether it reports the new fact.
abbrev pub is_terminal : SendFin → Bool
is_terminal SendFin.queued = false
is_terminal SendFin.acked = true
is_terminal (SendFin.stopped _) = true

abbrev pub is_settled : Option SendFin → Bool
is_settled none = false
is_settled (some fact) = is_terminal fact

module _ (quinn : Quinn) where
  open quinn use {Connection, Chunks}

  unfoldable pub new : Connection → ConnState quinn
  new conn = record {
    conn = conn;
    ready_accepts = [];
    finished_reads = [];
    send_fins = [];
    dirty = false;
  }

  -- The answer of `streams().open(..)`.
  unfoldable pub opened : ConnState quinn → Option ℕ → ConnState quinn × Result ℕ
  opened s none = (s, Result.err ConnError.closed_stream)
  opened s (some id) = (s, Result.ok id)

  unfoldable pub open_bi : ConnState quinn → ConnState quinn × Result ℕ
  unfolding opened
  open_bi s =
      if quinn.is_closed s.conn
      then (s, Result.err ConnError.closed)
      else let (answer, conn) = quinn.open_bi s.conn in opened (record s { conn = conn }) answer

  -- `accept_bi` by the queue of streams that no call has claimed yet.
  unfoldable pub accept_from : List ℕ → ConnState quinn → ConnState quinn × Result (Option ℕ)
  accept_from (id ∷ rest) s = (record s { ready_accepts = rest }, Result.ok (some id))
  accept_from [] s =
      let (answer, conn) = quinn.accept_bi s.conn in (record s { conn = conn }, Result.ok answer)

  unfoldable pub accept_bi : ConnState quinn → ConnState quinn × Result (Option ℕ)
  unfolding accept_from
  accept_bi s = accept_from s.ready_accepts s

  -- The `match` on `chunks.next(..)` in the read loop; `again` is the next round.
  unfoldable pub on_next :
      (ℕ → Chunks → List ℕ → ReadEnd × List ℕ × Chunks)
      → ℕ
      → List ℕ
      → Next
      → Chunks
      → ReadEnd × List ℕ × Chunks
  on_next again room got (Next.chunk bytes) rest = again (room - length bytes) rest (got ++ bytes)
  on_next again room got Next.fin rest = (finished, got, rest)
  on_next again room got Next.blocked rest = (ReadEnd.blocked, got, rest)
  on_next again room got (Next.reset code) rest = (errored (ConnError.reset code), got, rest)

  -- The rounds of `while filled < buf.len()`, with `room` the bytes that are left of the buffer and
  -- `got` those read so far. Every chunk has at least one byte, so as many rounds as there is room
  -- are enough.
  unfoldable pub read_loop : ℕ → ℕ → Chunks → List ℕ → ReadEnd × List ℕ × Chunks
  unfolding on_next
  read_loop zero room chunks got = (full, got, chunks)
  read_loop (suc rounds) zero chunks got = (full, got, chunks)
  read_loop (suc rounds) (suc room) chunks got =
      let (answer, rest) = quinn.next (suc room) chunks in
      on_next (read_loop rounds) (suc room) got answer rest

  -- The answer of a read that copied `n` bytes and stopped at `end`.
  unfoldable pub read_answer : ℕ → ReadEnd → Result ReadOutcome
  read_answer (suc n) end = Result.ok (ReadOutcome.read (suc n))
  read_answer zero (errored e) = Result.err e
  read_answer zero finished = Result.ok ReadOutcome.finished
  read_answer zero ReadEnd.blocked = Result.ok ReadOutcome.blocked
  read_answer zero full = Result.ok ReadOutcome.blocked

  unfoldable pub note_end : ℕ → ReadEnd → List ℕ → List ℕ
  note_end id finished ids = (HashSet.insert ℕ_discrete id ids).0
  note_end id end ids = ids

  -- `stream_read` once the stream has answered: the state, the buffer and the outcome.
  unfoldable pub read_stream :
      ℕ → List ℕ → ConnState quinn → Readable Chunks → ConnState quinn × List ℕ × Result ReadOutcome
  unfolding read_loop read_answer note_end HashSet.insert
  read_stream id buf s (Readable.err ReadableError.closed_stream) =
      (s, buf, Result.err ConnError.closed_stream)
  read_stream id buf s (Readable.err ReadableError.illegal_ordered_read) =
      (s, buf, Result.err (ConnError.transport "ordered read after unordered read"))
  read_stream id buf s (Readable.ok chunks) =
      let (end, got, rest) = read_loop (length buf) (length buf) chunks [] in
      (
        record s { conn = quinn.finalize rest; finished_reads = note_end id end s.finished_reads },
        got ++ drop (length got) buf,
        read_answer (length got) end,
      )

  unfoldable pub stream_read :
      ℕ → List ℕ → ConnState quinn → ConnState quinn × List ℕ × Result ReadOutcome
  unfolding read_stream HashSet.contains
  stream_read id buf s =
      if HashSet.contains ℕ_discrete id s.finished_reads
      then (s, buf, Result.ok ReadOutcome.finished)
      else if length buf == 0
      then (s, buf, Result.ok ReadOutcome.blocked)
      else let (answer, conn) = quinn.read id s.conn in
        read_stream id buf (record s { conn = conn; dirty = true }) answer

  unfoldable pub write_answer : WriteResult → Result WriteOutcome
  write_answer (WriteResult.ok n) = Result.ok (WriteOutcome.wrote n)
  write_answer WriteResult.blocked = Result.ok WriteOutcome.blocked
  write_answer (WriteResult.stopped code) = Result.err (ConnError.stopped code)
  write_answer WriteResult.closed_stream = Result.err ConnError.closed_stream

  unfoldable pub stream_write : ℕ → List ℕ → ConnState quinn → ConnState quinn × Result WriteOutcome
  unfolding write_answer
  stream_write id buf s =
      if length buf == 0
      then (s, Result.ok (WriteOutcome.wrote 0))
      else let (answer, conn) = quinn.write id buf s.conn in
        (record s { conn = conn; dirty = true }, write_answer answer)

  unfoldable pub send_fin : ℕ → ConnState quinn → Option SendFin
  unfolding HashMap.get
  send_fin id s = HashMap.get ℕ_discrete id s.send_fins

  -- The state, and whether a terminal fact was learnt.
  unfoldable pub record_send_fin : ℕ → SendFin → ConnState quinn → ConnState quinn × Bool
  unfolding HashMap.insert send_fin
  record_send_fin id fact s = if is_settled (send_fin id s) then (s, false) else (
    record s { send_fins = HashMap.insert ℕ_discrete id fact s.send_fins },
    is_terminal fact,
  )

  unfoldable pub finish_answer :
      ℕ → ConnState quinn → FinishResult → ConnState quinn × Result (Unit {0})
  unfolding HashMap.insert record_send_fin
  finish_answer id s FinishResult.ok = (
    record s { send_fins = HashMap.insert ℕ_discrete id SendFin.queued s.send_fins },
    Result.ok tt,
  )
  finish_answer id s (FinishResult.stopped code) =
      ((record_send_fin id (SendFin.stopped code) s).0, Result.err (ConnError.stopped code))
  finish_answer id s FinishResult.closed_stream = (s, Result.err ConnError.closed_stream)

  -- `stream_finish` by what is known of the send half.
  unfoldable pub finish_known :
      ℕ → ConnState quinn → Option SendFin → ConnState quinn × Result (Unit {0})
  unfolding finish_answer
  finish_known id s (some (SendFin.stopped code)) = (s, Result.err (ConnError.stopped code))
  finish_known id s (some SendFin.acked) = (s, Result.err ConnError.closed_stream)
  finish_known id s (some SendFin.queued) = (s, Result.err ConnError.closed_stream)
  finish_known id s none =
      let (answer, conn) = quinn.finish id s.conn in
      finish_answer id (record s { conn = conn; dirty = true }) answer

  unfoldable pub stream_finish : ℕ → ConnState quinn → ConnState quinn × Result (Unit {0})
  unfolding finish_known send_fin
  stream_finish id s = finish_known id s (send_fin id s)

  unfoldable pub forget_recv : ℕ → ConnState quinn → ConnState quinn
  unfolding HashSet.remove
  forget_recv id s = record s { finished_reads = HashSet.remove ℕ_discrete id s.finished_reads }

  unfoldable pub forget_send : ℕ → ConnState quinn → ConnState quinn
  unfolding HashMap.remove
  forget_send id s = record s { send_fins = HashMap.remove ℕ_discrete id s.send_fins }

  unfoldable pub forget_stream : ℕ → ConnState quinn → ConnState quinn
  unfolding forget_recv forget_send
  forget_stream id s = forget_send id (forget_recv id s)

  abbrev pub stream_done : Bool → Result (Unit {0})
  stream_done true = Result.ok tt
  stream_done false = Result.err ConnError.closed_stream

  unfoldable pub reset_with :
      ℕ → ConnState quinn → ℕ → Option ℕ → ConnState quinn × Result (Unit {0})
  unfolding forget_stream
  reset_with id s code none = (s, Result.err (ConnError.invalid_error_code code))
  reset_with id s code (some varint) =
      let s1 = forget_stream id (record s { dirty = true }) in
      let (done, conn) = quinn.reset id varint s1.conn in
      (record s1 { conn = conn }, stream_done done)

  unfoldable pub stream_reset : ℕ → ℕ → ConnState quinn → ConnState quinn × Result (Unit {0})
  unfolding reset_with
  stream_reset id code s = reset_with id s code (quinn.varint_from_u64 code)

  unfoldable pub stop_with :
      ℕ → ConnState quinn → ℕ → Option ℕ → ConnState quinn × Result (Unit {0})
  unfolding forget_recv
  stop_with id s code none = (s, Result.err (ConnError.invalid_error_code code))
  stop_with id s code (some varint) =
      let s1 = forget_recv id (record s { dirty = true }) in
      let (done, conn) = quinn.stop id varint s1.conn in
      (record s1 { conn = conn }, stream_done done)

  unfoldable pub stream_stop : ℕ → ℕ → ConnState quinn → ConnState quinn × Result (Unit {0})
  unfolding stop_with
  stream_stop id code s = stop_with id s code (quinn.varint_from_u64 code)

  unfoldable pub is_drained : ConnState quinn → Bool
  is_drained s = quinn.is_drained s.conn

  unfoldable pub clear_dirty : ConnState quinn → ConnState quinn
  clear_dirty s = record s { dirty = false }

  -- The body of `while let Some(id) = accept(..)`; `again` is the next round.
  unfoldable pub on_accept :
      (ConnState quinn → ConnProgress → ConnState quinn × ConnProgress)
      → ConnState quinn
      → ConnProgress
      → Option ℕ
      → ConnState quinn × ConnProgress
  on_accept again s p none = (s, p)
  on_accept again s p (some id) =
      again (record s { ready_accepts = s.ready_accepts ++ (id ∷ []) })
        (record p { opened = p.opened ++ (id ∷ []) })

  unfoldable pub accept_loop : ℕ → ConnState quinn → ConnProgress → ConnState quinn × ConnProgress
  unfolding on_accept
  accept_loop zero s p = (s, p)
  accept_loop (suc rounds) s p =
      let (answer, conn) = quinn.accept_bi s.conn in
      on_accept (accept_loop rounds) (record s { conn = conn }) p answer

  -- The arms for a finished and for a stopped stream.
  unfoldable pub on_finished : ℕ → ConnState quinn → ConnProgress → ConnState quinn × ConnProgress
  unfolding record_send_fin
  on_finished id s p =
      let (s', learnt) = record_send_fin id SendFin.acked s in
      (s', if learnt then record p { fin_acked = p.fin_acked ++ (id ∷ []) } else p)

  unfoldable pub on_stopped :
      ℕ → ℕ → ConnState quinn → ConnProgress → ConnState quinn × ConnProgress
  unfolding record_send_fin
  on_stopped id code s p =
      let (s', learnt) = record_send_fin id (SendFin.stopped code) s in
      (s', if learnt then record p { stopped = p.stopped ++ ((id, code) ∷ []) } else p)

  -- One event of `service_streams`. As many rounds as there are streams to accept are enough.
  unfoldable pub on_event :
      QuinnEvent → ConnState quinn → ConnProgress → ConnState quinn × ConnProgress
  unfolding accept_loop on_finished on_stopped
  on_event QuinnEvent.connected s p = (s, record p { connected = true })
  on_event (QuinnEvent.connection_lost reason) s p =
      (s, record p { lost = some (from_quinn reason) })
  on_event QuinnEvent.opened_bi s p = accept_loop (suc (quinn.streams_left s.conn)) s p
  on_event (QuinnEvent.readable id) s p = (s, record p { readable = p.readable ++ (id ∷ []) })
  on_event (QuinnEvent.writable id) s p = (s, record p { writable = p.writable ++ (id ∷ []) })
  on_event (QuinnEvent.finished id) s p = on_finished id s p
  on_event (QuinnEvent.stopped id code) s p = on_stopped id code s p
  on_event QuinnEvent.other s p = (s, p)

  -- The body of `while let Some(ev) = poll()`; `again` is the next round.
  unfoldable pub on_poll :
      (ConnState quinn → ConnProgress → ConnState quinn × ConnProgress)
      → ConnState quinn
      → ConnProgress
      → Option QuinnEvent
      → ConnState quinn × ConnProgress
  unfolding on_event
  on_poll again s p none = (s, p)
  on_poll again s p (some event) = let (s', p') = on_event event s p in again s' p'

  unfoldable pub service_loop : ℕ → ConnState quinn → ConnProgress → ConnState quinn × ConnProgress
  unfolding on_poll
  service_loop zero s p = (s, p)
  service_loop (suc rounds) s p =
      let (answer, conn) = quinn.poll s.conn in
      on_poll (service_loop rounds) (record s { conn = conn }) p answer

  -- As many rounds as there are events to poll are enough.
  unfoldable pub service_streams : ConnState quinn → ConnState quinn × ConnProgress
  unfolding service_loop
  service_streams s = service_loop (suc (quinn.events_left s.conn)) s no_progress
