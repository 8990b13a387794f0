-- ===== src/Parked.antt =====
-- src/conn.rs: the operations of an async connection that wait. A driver offers them to the core, and
-- parks those that it cannot answer yet. The channels of tokio are not modelled; a reply channel is a
-- number, and `sent` is the log of what went into the reply channels.
pub mod Pump
pub mod Loops
pub mod Tally
pub mod Balance
pub mod Answers
pub mod Drops
pub mod Limits
use quietquic.Conn
use quietquic.Conn.{ConnError, Result, SendFin, ConnState}
use quietquic.HashMap
use quietquic.Outcome.{ConnectionError}
use quietquic.Parked.Pump.{
  PendingWrite, PendingRead, WriteEnd, ReadStop, write_rounds, pump_write, read_rounds, pump_read,
}
use quietquic.Prelude.{
  ℕ, Bool, true, false, max, Option, none, some, List, [], ◌∷◌, ◌++◌, if◌then◌else◌, ℕ_discrete,
}
use quietquic.Quinn.{Quinn}

-- The commands of a handle, each with its reply channel.
pub data Cmd : Type 0 where
  open_bi accept_bi : ℕ → Cmd
  write : ℕ → List ℕ → ℕ → Cmd
  finish wait_finished : ℕ → ℕ → Cmd
  reset stop : ℕ → ℕ → ℕ → Cmd
  release_send : ℕ → Cmd
  read_to_end read : ℕ → ℕ → ℕ → Cmd
  close : ℕ → List ℕ → Cmd

-- What goes into a reply channel; `dropped` says that its sender was dropped.
pub data Answer : Type 0 where
  stream : Result ℕ → Answer
  done : Result (Unit {0}) → Answer
  bytes : Result (List ℕ) → Answer
  dropped : Answer

-- `closed` is the value of the watch channel.
pub record Parked : Type 0 where
  pub pending_accepts : List ℕ
  pub blocked_writes : List (ℕ × PendingWrite)
  pub pending_reads : List (ℕ × PendingRead)
  pub fin_waiters : List (ℕ × List ℕ)
  pub closed : Option ConnectionError
  pub sent : List (ℕ × Answer)

unfoldable pub new : Parked
new = record {
  pending_accepts = [];
  blocked_writes = [];
  pending_reads = [];
  fin_waiters = [];
  closed = none;
  sent = [];
}

-- `let _ = reply.send(..)`
unfoldable pub send : ℕ → Answer → Parked → Parked
send reply answer pk = record pk { sent = pk.sent ++ ((reply, answer) ∷ []) }

-- The same answer for a list of replies.
unfoldable pub send_all : List ℕ → Answer → Parked → Parked
unfolding send
send_all [] answer pk = pk
send_all (reply ∷ replies) answer pk = send_all replies answer (send reply answer pk)

unfoldable pub mark_closed : ConnectionError → Parked → Parked
mark_closed reason pk = record pk { closed = some reason }

-- The reply channels of a parked operation that a map holds, or of none.
unfoldable pub found : {V : Type 0} → (V → List ℕ) → Option V → List ℕ
found replies none = []
found replies (some p) = replies p

abbrev pub of_write : PendingWrite → List ℕ
of_write p = p.reply ∷ []

abbrev pub of_read : PendingRead → List ℕ
of_read p = p.reply ∷ []

-- `blocked_writes.insert(..)` and `pending_reads.insert(..)`: what they replace is dropped.
unfoldable pub park_write : ℕ → PendingWrite → Parked → Parked
unfolding send_all found
park_write id p pk =
    send_all (found of_write (HashMap.get ℕ_discrete id pk.blocked_writes)) Answer.dropped
      (record pk { blocked_writes = HashMap.insert ℕ_discrete id p pk.blocked_writes })

unfoldable pub park_read : ℕ → PendingRead → Parked → Parked
unfolding send_all found
park_read id p pk =
    send_all (found of_read (HashMap.get ℕ_discrete id pk.pending_reads)) Answer.dropped
      (record pk { pending_reads = HashMap.insert ℕ_discrete id p pk.pending_reads })

-- `entry(id).or_default().push(reply)`
unfoldable pub park_fin : ℕ → ℕ → Parked → Parked
unfolding found
park_fin id reply pk = record pk {
  fin_waiters =
      HashMap.insert ℕ_discrete id
        (found (λ replies. replies) (HashMap.get ℕ_discrete id pk.fin_waiters) ++ (reply ∷ []))
        pk.fin_waiters;
}

unfoldable pub answer_waiters : ℕ → Result (Unit {0}) → Parked → Parked
unfolding send_all found
answer_waiters id r pk =
    send_all (found (λ replies. replies) (HashMap.get ℕ_discrete id pk.fin_waiters)) (Answer.done r)
      (record pk { fin_waiters = HashMap.remove ℕ_discrete id pk.fin_waiters })

unfoldable pub fail_fin_waiters : ℕ → ConnError → Parked → Parked
unfolding answer_waiters
fail_fin_waiters id e pk = answer_waiters id (Result.err e) pk

unfoldable pub on_fin_acked : ℕ → Parked → Parked
unfolding answer_waiters
on_fin_acked id pk = answer_waiters id (Result.ok tt) pk

unfoldable pub fail_blocked_write : ℕ → ConnError → Parked → Parked
unfolding send_all found
fail_blocked_write id e pk =
    send_all (found of_write (HashMap.get ℕ_discrete id pk.blocked_writes))
      (Answer.done (Result.err e))
      (record pk { blocked_writes = HashMap.remove ℕ_discrete id pk.blocked_writes })

unfoldable pub fail_pending_read : ℕ → ConnError → Parked → Parked
unfolding send_all found
fail_pending_read id e pk =
    send_all (found of_read (HashMap.get ℕ_discrete id pk.pending_reads))
      (Answer.bytes (Result.err e))
      (record pk { pending_reads = HashMap.remove ℕ_discrete id pk.pending_reads })

-- The replies that wait in a map.
unfoldable pub waiting : {V : Type 0} → (V → List ℕ) → List (ℕ × V) → List ℕ
waiting replies [] = []
waiting replies ((id, p) ∷ m) = replies p ++ waiting replies m

unfoldable pub fail_all : Parked → Parked
unfolding send_all waiting
fail_all pk =
    let gone = ConnError.closed in
    let cleared = record pk {
      pending_accepts = [];
      blocked_writes = [];
      pending_reads = [];
      fin_waiters = [];
    } in
    send_all (waiting (λ replies. replies) pk.fin_waiters) (Answer.done (Result.err gone)) (
      send_all (waiting of_read pk.pending_reads) (Answer.bytes (Result.err gone)) (
        send_all (waiting of_write pk.blocked_writes) (Answer.done (Result.err gone))
          (send_all pk.pending_accepts (Answer.stream (Result.err gone)) cleared)))

-- What a driver does when the connection is lost.
unfoldable pub lose : ConnectionError → Parked → Parked
unfolding fail_all mark_closed
lose reason pk = fail_all (mark_closed reason pk)

-- Whether an operation succeeded.
unfoldable pub is_ok : Result (Unit {0}) → Bool
is_ok (Result.ok _) = true
is_ok (Result.err _) = false

-- What a pump leaves: the answer, or the operation that stays parked.
unfoldable pub settle_write : ℕ → ℕ → WriteEnd → Parked → Parked
unfolding send park_write
settle_write id reply (WriteEnd.done r) pk = send reply (Answer.done r) pk
settle_write id reply (WriteEnd.waits p) pk = park_write id p pk

unfoldable pub settle_read : ℕ → ℕ → ReadStop → Parked → Parked
unfolding send park_read
settle_read id reply (ReadStop.done r) pk = send reply (Answer.bytes r) pk
settle_read id reply (ReadStop.waits p) pk = park_read id p pk

-- A command to wait for the end of a send half, by what is known of it.
unfoldable pub wait_fin : ℕ → ℕ → Option SendFin → Parked → Parked
unfolding send park_fin
wait_fin id reply (some SendFin.acked) pk = send reply (Answer.done (Result.ok tt)) pk
wait_fin id reply (some (SendFin.stopped code)) pk =
    send reply (Answer.done (Result.err (ConnError.stopped code))) pk
wait_fin id reply (some SendFin.queued) pk = park_fin id reply pk
wait_fin id reply none pk = send reply (Answer.done (Result.err ConnError.closed_stream)) pk

-- A command to accept a stream, by the core's answer.
unfoldable pub accepted : ℕ → Result (Option ℕ) → Parked → Parked
unfolding send
accepted reply (Result.ok (some id)) pk = send reply (Answer.stream (Result.ok id)) pk
accepted reply (Result.ok none) pk = record pk {
  pending_accepts = pk.pending_accepts ++ (reply ∷ []);
}
accepted reply (Result.err e) pk = send reply (Answer.stream (Result.err e)) pk

-- What a reset and a stop do where they succeed.
unfoldable pub after_reset : Bool → ℕ → Parked → Parked
unfolding fail_fin_waiters fail_blocked_write
after_reset true id pk =
    fail_blocked_write id ConnError.closed_stream (fail_fin_waiters id ConnError.closed_stream pk)
after_reset false id pk = pk

unfoldable pub after_stop : Bool → ℕ → Parked → Parked
unfolding fail_pending_read
after_stop true id pk = fail_pending_read id ConnError.closed_stream pk
after_stop false id pk = pk

module _ (quinn : Quinn) where
  -- The body of the loop over parked accepts: what is still parked, and what was answered.
  unfoldable pub on_accepted :
      (ConnState quinn → List ℕ × List (ℕ × Answer) × ConnState quinn)
      → ℕ
      → List ℕ
      → Result (Option ℕ)
      → ConnState quinn
      → List ℕ × List (ℕ × Answer) × ConnState quinn
  on_accepted again reply replies (Result.ok (some id)) s =
      let (rest, answers, s') = again s in
      (rest, (reply, Answer.stream (Result.ok id)) ∷ answers, s')
  on_accepted again reply replies (Result.ok none) s = (reply ∷ replies, [], s)
  on_accepted again reply replies (Result.err e) s =
      (replies, (reply, Answer.stream (Result.err e)) ∷ [], s)

  unfoldable pub serve_accepts :
      List ℕ → ConnState quinn → List ℕ × List (ℕ × Answer) × ConnState quinn
  unfolding on_accepted
  serve_accepts [] s = ([], [], s)
  serve_accepts (reply ∷ replies) s =
      let (s', r) = Conn.accept_bi quinn s in on_accepted (serve_accepts replies) reply replies r s'

  unfoldable pub on_stream_opened : Parked → ConnState quinn → Parked × ConnState quinn
  unfolding serve_accepts
  on_stream_opened pk s =
      let (rest, answers, s') = serve_accepts pk.pending_accepts s in
      (record pk { pending_accepts = rest; sent = pk.sent ++ answers }, s')

  -- `remove` and, while the loop is still blocked, `insert` again.
  unfoldable pub offer_write :
      ℕ → Option PendingWrite → Parked → ConnState quinn → Parked × ConnState quinn
  unfolding settle_write
  offer_write id none pk s = (pk, s)
  offer_write id (some p) pk s =
      let (s', end) = pump_write quinn (write_rounds p) id p s in
      (
        settle_write id p.reply end
            (record pk { blocked_writes = HashMap.remove ℕ_discrete id pk.blocked_writes }),
        s',
      )

  unfoldable pub on_writable : ℕ → Parked → ConnState quinn → Parked × ConnState quinn
  unfolding offer_write
  on_writable id pk s = offer_write id (HashMap.get ℕ_discrete id pk.blocked_writes) pk s

  unfoldable pub offer_read :
      ℕ → Option PendingRead → Parked → ConnState quinn → Parked × ConnState quinn
  unfolding settle_read
  offer_read id none pk s = (pk, s)
  offer_read id (some p) pk s =
      let (s', end) = pump_read quinn (read_rounds p) id p s in
      (
        settle_read id p.reply end
            (record pk { pending_reads = HashMap.remove ℕ_discrete id pk.pending_reads }),
        s',
      )

  unfoldable pub on_readable : ℕ → Parked → ConnState quinn → Parked × ConnState quinn
  unfolding offer_read
  on_readable id pk s = offer_read id (HashMap.get ℕ_discrete id pk.pending_reads) pk s

  unfoldable pub on_stopped : ℕ → ℕ → Parked → ConnState quinn → Parked × ConnState quinn
  unfolding on_writable fail_fin_waiters
  on_stopped id code pk s = on_writable id (fail_fin_waiters id (ConnError.stopped code) pk) s

  -- A new write and a new read are offered before they are parked.
  unfoldable pub start_write :
      ℕ → PendingWrite → Parked → ConnState quinn → Parked × ConnState quinn
  unfolding settle_write
  start_write id p pk s =
      let (s', end) = pump_write quinn (write_rounds p) id p s in
      (settle_write id p.reply end pk, s')

  unfoldable pub start_read : ℕ → PendingRead → Parked → ConnState quinn → Parked × ConnState quinn
  unfolding settle_read
  start_read id p pk s =
      let (s', end) = pump_read quinn (read_rounds p) id p s in (settle_read id p.reply end pk, s')

  -- `close_conn` is quinn's Connection::close.
  unfoldable pub apply_cmd :
      {Instant : Type 0}
      → (Instant → ℕ → List ℕ → quinn.Connection → quinn.Connection)
      → Instant
      → Cmd
      → Parked
      → ConnState quinn
      → Parked × ConnState quinn
  unfolding start_write start_read accepted wait_fin after_reset after_stop is_ok send
  apply_cmd close_conn now (Cmd.open_bi reply) pk s =
      let (s', r) = Conn.open_bi quinn s in (send reply (Answer.stream r) pk, s')
  apply_cmd close_conn now (Cmd.accept_bi reply) pk s =
      let (s', r) = Conn.accept_bi quinn s in (accepted reply r pk, s')
  apply_cmd close_conn now (Cmd.write id contents reply) pk s =
      start_write id (record { contents = contents; offset = 0; reply = reply }) pk s
  apply_cmd close_conn now (Cmd.finish id reply) pk s =
      let (s', r) = Conn.stream_finish quinn id s in (send reply (Answer.done r) pk, s')
  apply_cmd close_conn now (Cmd.wait_finished id reply) pk s =
      (wait_fin id reply (Conn.send_fin quinn id s) pk, s)
  apply_cmd close_conn now (Cmd.reset id code reply) pk s =
      let (s', r) = Conn.stream_reset quinn id code s in
      (send reply (Answer.done r) (after_reset (is_ok r) id pk), s')
  apply_cmd close_conn now (Cmd.stop id code reply) pk s =
      let (s', r) = Conn.stream_stop quinn id code s in
      (send reply (Answer.done r) (after_stop (is_ok r) id pk), s')
  apply_cmd close_conn now (Cmd.release_send id) pk s = (pk, Conn.forget_send quinn id s)
  apply_cmd close_conn now (Cmd.read_to_end id limit reply) pk s =
      start_read id (record { buf = []; end_limit = some limit; max_len = none; reply = reply }) pk
        s
  apply_cmd close_conn now (Cmd.read id most reply) pk s =
      start_read id
        (record { buf = []; end_limit = none; max_len = some (max most 1); reply = reply }) pk s
  apply_cmd close_conn now (Cmd.close code reason) pk s =
      (pk, record s { conn = close_conn now code reason s.conn })
