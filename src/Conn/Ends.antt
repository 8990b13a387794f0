-- ===== src/Conn/Ends.antt =====
-- The end of a receive half in proto/src/conn.rs, over the operations that follow.
use quietquic.Conn.{
  Result, SendFin, ConnState, open_bi, opened, accept_bi, accept_from, is_settled, send_fin,
  record_send_fin, finish_answer, finish_known, stream_read, stream_write, stream_finish,
  forget_recv, forget_send, forget_stream, reset_with, stream_reset, stop_with, stream_stop,
  clear_dirty, service_streams,
}
use quietquic.Conn.Delivered.{Notes-keeps, Delivered, stream_read-Delivered}
use quietquic.Conn.Dirty.{StreamCall, apply}
use quietquic.Conn.Read.{stream_read-ReadContract, stream_read_known}
use quietquic.Conn.Service.{service_streams_queue}
use quietquic.HashSet
use quietquic.HashSet.{contains, contains-remove}
use quietquic.Outcome.{ReadOutcome}
use quietquic.Prelude.{
  ℕ, ◌≡◌, ◌≢◌, refl, ap, ◌∙◌, inl, inr, true, Option, none, some, List, [], ◌∷◌, ◌==◌, length,
  ℕ_discrete, Bool-cases, All, if_neg,
}
use quietquic.Quinn.{Quinn, FinishResult}

-- What a caller or a servicing pass does to a connection.
pub data Use : Type 0 where
  call : StreamCall → Use
  opens accepts services clears : Use
  forgets_recv forgets_send forgets_stream : ℕ → Use

-- The use does not give up the receive half of the stream.
unfoldable pub Spares : ℕ → Use → Type 0
Spares id (Use.call (StreamCall.reset j code)) = j ≢ id
Spares id (Use.call (StreamCall.stop j code)) = j ≢ id
Spares id (Use.forgets_recv j) = j ≢ id
Spares id (Use.forgets_stream j) = j ≢ id
Spares id _ = Unit

module _ (quinn : Quinn) where
  unfoldable pub after : Use → ConnState quinn → ConnState quinn
  after (Use.call c) s = apply quinn c s
  after Use.opens s = (open_bi quinn s).0
  after Use.accepts s = (accept_bi quinn s).0
  after Use.services s = (service_streams quinn s).0
  after Use.clears s = clear_dirty quinn s
  after (Use.forgets_recv id) s = forget_recv quinn id s
  after (Use.forgets_send id) s = forget_send quinn id s
  after (Use.forgets_stream id) s = forget_stream quinn id s

  unfoldable pub after_all : List Use → ConnState quinn → ConnState quinn
  after_all [] s = s
  after_all (u ∷ us) s = after_all us (after u s)

  -- The end of the receive half is known.
  Known : ℕ → ConnState quinn → Type 0
  Known id s = contains ℕ_discrete id s.finished_reads ≡ true

  Delivered-Known :
      (id j : ℕ) (buf : List ℕ) (s : ConnState quinn)
      (r : ConnState quinn × List ℕ × Result ReadOutcome)
      → Delivered quinn j buf s r
      → Known id s
      → Known id r.0
  unfolding Known
  Delivered-Known id j buf s r (Delivered.at_end _ e) k =
      ap (λ t. contains ℕ_discrete id t.0.finished_reads) e ∙ k
  Delivered-Known id j buf s r (Delivered.nothing_asked _ _ e) k =
      ap (λ t. contains ℕ_discrete id t.0.finished_reads) e ∙ k
  Delivered-Known id j buf s r (Delivered.refused _ _ _ _ _ _ _ e) k =
      ap (λ t. contains ℕ_discrete id t.0.finished_reads) e ∙ k
  Delivered-Known id j buf s r (Delivered.delivered _ _ _ _ _ c) k =
      Notes-keeps quinn id j c.end s.finished_reads r.0.finished_reads c.notes k

  write-reads :
      (id : ℕ) (buf : List ℕ) (s : ConnState quinn)
      → (stream_write quinn id buf s).0.finished_reads ≡ s.finished_reads
  unfolding stream_write
  write-reads id buf s = elim (Bool-cases (length buf == 0)) [
    | inl nothing_offered ↦ rw nothing_offered refl
    | inr offered ↦ rw offered refl
  ]

  answer-reads :
      (id : ℕ) (s : ConnState quinn) (answer : FinishResult)
      → (finish_answer quinn id s answer).0.finished_reads ≡ s.finished_reads
  unfolding finish_answer record_send_fin
  answer-reads id s FinishResult.ok = refl
  answer-reads id s (FinishResult.stopped code) =
      elim (Bool-cases (is_settled (send_fin quinn id s))) [
        | inl known ↦ rw known refl
        | inr open_ ↦ rw open_ refl
      ]
  answer-reads id s FinishResult.closed_stream = refl

  finish-reads :
      (id : ℕ) (s : ConnState quinn) (known : Option SendFin)
      → (finish_known quinn id s known).0.finished_reads ≡ s.finished_reads
  unfolding finish_known
  finish-reads id s (some (SendFin.stopped code)) = refl
  finish-reads id s (some SendFin.acked) = refl
  finish-reads id s (some SendFin.queued) = refl
  finish-reads id s none = answer-reads id _ (quinn.finish id s.conn).0

  open-reads : (s : ConnState quinn) → (open_bi quinn s).0.finished_reads ≡ s.finished_reads
  unfolding open_bi
  open-reads s = elim (Bool-cases (quinn.is_closed s.conn)) [
    | inl gone ↦ rw gone refl
    | inr here ↦ rw here (given (quinn.open_bi s.conn).0)
  ]
    where
      given :
          (answer : Option ℕ)
          → (opened quinn (record s { conn = (quinn.open_bi s.conn).1 }) answer).0.finished_reads
            ≡ s.finished_reads
      given none = refl
      given (some id) = refl

  accept-reads :
      (ids : List ℕ) (s : ConnState quinn)
      → (accept_from quinn ids s).0.finished_reads ≡ s.finished_reads
  unfolding accept_from
  accept-reads [] s = refl
  accept-reads (id ∷ ids) s = refl

  -- Giving up the receive half of another stream.
  remove-Known :
      (id j : ℕ) (ids : List ℕ)
      → j ≢ id
      → contains ℕ_discrete id ids ≡ true
      → contains ℕ_discrete id (HashSet.remove ℕ_discrete j ids) ≡ true
  remove-Known id j ids other k =
      contains-remove ℕ_discrete j id ids ∙ if_neg (ℕ_discrete j id) other _ _ ∙ k

  reset-Known :
      (id j code : ℕ) (s : ConnState quinn) (varint : Option ℕ)
      → j ≢ id
      → Known id s
      → Known id (reset_with quinn j s code varint).0
  unfolding reset_with forget_stream forget_recv forget_send Known
  reset-Known id j code s none other k = k
  reset-Known id j code s (some varint) other k = remove-Known id j s.finished_reads other k

  stop-Known :
      (id j code : ℕ) (s : ConnState quinn) (varint : Option ℕ)
      → j ≢ id
      → Known id s
      → Known id (stop_with quinn j s code varint).0
  unfolding stop_with forget_recv Known
  stop-Known id j code s none other k = k
  stop-Known id j code s (some varint) other k = remove-Known id j s.finished_reads other k

  after-Known :
      (id : ℕ) (u : Use) (s : ConnState quinn) → Spares id u → Known id s → Known id (after u s)
  unfolding after apply stream_finish stream_reset stream_stop accept_bi clear_dirty forget_recv
      forget_send forget_stream Known Spares
  after-Known id (Use.call (StreamCall.read j buf)) s spares k =
      Delivered-Known id j buf s _ (stream_read-Delivered quinn j buf s).0 k
  after-Known id (Use.call (StreamCall.write j buf)) s spares k =
      ap (contains ℕ_discrete id) (write-reads j buf s) ∙ k
  after-Known id (Use.call (StreamCall.finish j)) s spares k =
      ap (contains ℕ_discrete id) (finish-reads j s (send_fin quinn j s)) ∙ k
  after-Known id (Use.call (StreamCall.reset j code)) s spares k =
      reset-Known id j code s (quinn.varint_from_u64 code) spares k
  after-Known id (Use.call (StreamCall.stop j code)) s spares k =
      stop-Known id j code s (quinn.varint_from_u64 code) spares k
  after-Known id Use.opens s spares k = ap (contains ℕ_discrete id) (open-reads s) ∙ k
  after-Known id Use.accepts s spares k =
      ap (contains ℕ_discrete id) (accept-reads s.ready_accepts s) ∙ k
  after-Known id Use.services s spares k =
      let (_, reads, _) = service_streams_queue quinn s in ap (contains ℕ_discrete id) reads ∙ k
  after-Known id Use.clears s spares k = k
  after-Known id (Use.forgets_recv j) s spares k = remove-Known id j s.finished_reads spares k
  after-Known id (Use.forgets_send j) s spares k = k
  after-Known id (Use.forgets_stream j) s spares k = remove-Known id j s.finished_reads spares k

  after_all-Known :
      (id : ℕ) (us : List Use) (s : ConnState quinn)
      → All (Spares id) us
      → Known id s
      → Known id (after_all us s)
  unfolding after_all
  after_all-Known id [] s spares k = k
  after_all-Known id (u ∷ us) s spares k =
      after_all-Known id us (after u s) spares.1 (after-Known id u s spares.0 k)

  -- Once a read has answered end-of-stream, a read of that stream answers the same after any other
  -- operations and servicing passes, as long as none of them stops, resets or forgets the stream; and
  -- it leaves the connection and the buffer untouched.
  pub stream_read_later :
      (id : ℕ) (buf later : List ℕ) (s : ConnState quinn) (us : List Use)
      → (stream_read quinn id buf s).2 ≡ Result.ok ReadOutcome.finished
      → All (Spares id) us
      → let s' = after_all us (stream_read quinn id buf s).0 in
        stream_read quinn id later s' ≡ (s', later, Result.ok ReadOutcome.finished)
  unfolding Known
  stream_read_later id buf later s us e spares = stream_read_known quinn id later _ (
      after_all-Known id us (stream_read quinn id buf s).0 spares
        ((stream_read-ReadContract quinn id buf s).remembered e))
