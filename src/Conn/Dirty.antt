-- ===== src/Conn/Dirty.antt =====
-- The dirty flag of proto/src/conn.rs: the stream operations of a caller set it whenever they reach
-- quinn.
use quietquic.Conn.{
  SendFin, ConnState, is_settled, send_fin, record_send_fin, finish_answer, finish_known,
  read_stream, stream_read, stream_write, stream_finish, forget_recv, forget_send, forget_stream,
  reset_with, stream_reset, stop_with, stream_stop,
}
use quietquic.HashSet
use quietquic.Prelude.{
  ℕ, ◌≡◌, ◌⊎◌, inl, inr, refl, true, Option, none, some, List, Bool-cases, length, ◌==◌, ℕ_discrete,
}
use quietquic.Quinn.{Quinn, Readable, ReadableError, FinishResult}

-- What a caller does to the streams of a connection.
pub data StreamCall : Type 0 where
  read : ℕ → List ℕ → StreamCall
  write : ℕ → List ℕ → StreamCall
  finish : ℕ → StreamCall
  reset : ℕ → ℕ → StreamCall
  stop : ℕ → ℕ → StreamCall

module _ (quinn : Quinn) where
  -- The state that a call leaves.
  unfoldable pub apply : StreamCall → ConnState quinn → ConnState quinn
  apply (StreamCall.read id buf) s = (stream_read quinn id buf s).0
  apply (StreamCall.write id buf) s = (stream_write quinn id buf s).0
  apply (StreamCall.finish id) s = (stream_finish quinn id s).0
  apply (StreamCall.reset id code) s = (stream_reset quinn id code s).0
  apply (StreamCall.stop id code) s = (stream_stop quinn id code s).0

  read_stream-dirty :
      (id : ℕ) (buf : List ℕ) (s : ConnState quinn) (answer : Readable quinn.Chunks)
      → (read_stream quinn id buf s answer).0.dirty ≡ s.dirty
  unfolding read_stream
  read_stream-dirty id buf s (Readable.err ReadableError.closed_stream) = refl
  read_stream-dirty id buf s (Readable.err ReadableError.illegal_ordered_read) = refl
  read_stream-dirty id buf s (Readable.ok chunks) = refl

  finish_answer-dirty :
      (id : ℕ) (s : ConnState quinn) (answer : FinishResult)
      → (finish_answer quinn id s answer).0.dirty ≡ s.dirty
  unfolding finish_answer record_send_fin
  finish_answer-dirty id s FinishResult.ok = refl
  finish_answer-dirty id s (FinishResult.stopped code) =
      elim (Bool-cases (is_settled (send_fin quinn id s))) [
        | inl known ↦ rw known refl
        | inr open_ ↦ rw open_ refl
      ]
  finish_answer-dirty id s FinishResult.closed_stream = refl

  finish_known-dirty :
      (id : ℕ) (s : ConnState quinn) (known : Option SendFin)
      → ((finish_known quinn id s known).0.dirty ≡ true) ⊎ ((finish_known quinn id s known).0 ≡ s)
  unfolding finish_known
  finish_known-dirty id s (some (SendFin.stopped code)) = inr refl
  finish_known-dirty id s (some SendFin.acked) = inr refl
  finish_known-dirty id s (some SendFin.queued) = inr refl
  finish_known-dirty id s none = inl (
      finish_answer-dirty id (record s { conn = (quinn.finish id s.conn).1; dirty = true })
        (quinn.finish id s.conn).0)

  reset_with-dirty :
      (id code : ℕ) (s : ConnState quinn) (varint : Option ℕ)
      → ((reset_with quinn id s code varint).0.dirty ≡ true)
        ⊎ ((reset_with quinn id s code varint).0 ≡ s)
  unfolding reset_with forget_stream forget_recv forget_send
  reset_with-dirty id code s none = inr refl
  reset_with-dirty id code s (some varint) = inl refl

  stop_with-dirty :
      (id code : ℕ) (s : ConnState quinn) (varint : Option ℕ)
      → ((stop_with quinn id s code varint).0.dirty ≡ true)
        ⊎ ((stop_with quinn id s code varint).0 ≡ s)
  unfolding stop_with forget_recv
  stop_with-dirty id code s none = inr refl
  stop_with-dirty id code s (some varint) = inl refl

  stream_read-dirty :
      (id : ℕ) (buf : List ℕ) (s : ConnState quinn)
      → ((stream_read quinn id buf s).0.dirty ≡ true) ⊎ ((stream_read quinn id buf s).0 ≡ s)
  unfolding stream_read
  stream_read-dirty id buf s = elim (Bool-cases (HashSet.contains ℕ_discrete id s.finished_reads)) [
    | inl known ↦ inr (rw known refl)
    | inr unknown ↦ elim (Bool-cases (length buf == 0)) [
      | inl nothing_asked ↦ inr (rw (unknown, nothing_asked) refl)
      | inr asked ↦ inl (
          rw (unknown, asked)
            (read_stream-dirty id buf (record s { conn = (quinn.read id s.conn).1; dirty = true })
              (quinn.read id s.conn).0))
    ]
  ]

  stream_write-dirty :
      (id : ℕ) (buf : List ℕ) (s : ConnState quinn)
      → ((stream_write quinn id buf s).0.dirty ≡ true) ⊎ ((stream_write quinn id buf s).0 ≡ s)
  unfolding stream_write
  stream_write-dirty id buf s = elim (Bool-cases (length buf == 0)) [
    | inl nothing_offered ↦ inr (rw nothing_offered refl)
    | inr offered ↦ inl (rw offered refl)
  ]

  -- A stream operation leaves the connection dirty, or leaves it exactly as it was.
  pub apply-dirty :
      (call : StreamCall) (s : ConnState quinn) → ((apply call s).dirty ≡ true) ⊎ (apply call s ≡ s)
  unfolding apply stream_finish stream_reset stream_stop
  apply-dirty (StreamCall.read id buf) s = stream_read-dirty id buf s
  apply-dirty (StreamCall.write id buf) s = stream_write-dirty id buf s
  apply-dirty (StreamCall.finish id) s = finish_known-dirty id s (send_fin quinn id s)
  apply-dirty (StreamCall.reset id code) s = reset_with-dirty id code s (quinn.varint_from_u64 code)
  apply-dirty (StreamCall.stop id code) s = stop_with-dirty id code s (quinn.varint_from_u64 code)
