-- ===== src/Conn/Read.antt =====
-- `stream_read` of proto/src/conn.rs: its three answers, the buffer, and the end of a stream.
use quietquic.HashSet
use quietquic.HashSet.{contains-insert}
use quietquic.Outcome.{ReadOutcome}
use quietquic.Prelude.{
  ℕ, zero, suc, ◌+◌, ◌-◌, ◌≤◌, ◌<◌, ◌≡◌, refl, ap, sym, subst, take_prefix, ◌∙◌, inl, inr, true,
  List, [], ◌∷◌, ◌++◌, arith, ◌==◌, length, drop, length-append, length-drop, ℕ_discrete,
  Bool-cases,
}
use quietquic.Quinn.{Quinn, ReadableError, Next, Readable}
use quietquic.Conn.{
  ConnError, Result, ConnState, ReadEnd, full, finished, errored, read_loop, read_answer, note_end,
  on_next, read_stream, stream_read,
}

-- What the read loop has read when it stops: no more than there was room, and all of it where it
-- stopped for want of room.
record Bounded (room before after : ℕ) (end : ReadEnd) : Type 0 where
  fits : after ≤ before + room
  grows : before ≤ after
  filled : end ≡ full → after ≡ before + room

stopped_early : (room n : ℕ) (end : ReadEnd) → (end ≡ full → ⊥) → Bounded room n n end
stopped_early room n end early = record {
  fits = omega arith;
  grows = omega arith;
  filled = λ e. absurd (early e);
}

module _ (quinn : Quinn) where
  -- What the rounds that are left promise, with at most `rounds` bytes of room.
  abbrev Promise : ℕ → (ℕ → quinn.Chunks → List ℕ → ReadEnd × List ℕ × quinn.Chunks) → Type 0
  Promise rounds again =
      (room : ℕ) (chunks : quinn.Chunks) (got : List ℕ)
      → room ≤ rounds
      → Bounded room (length got) (length (again room chunks got).1) (again room chunks got).0

  on_next-Bounded :
      (rounds room : ℕ) (chunks rest : quinn.Chunks) (got : List ℕ) (answer : Next)
      (again : ℕ → quinn.Chunks → List ℕ → ReadEnd × List ℕ × quinn.Chunks)
      → Promise rounds again
      → room ≤ rounds
      → quinn.next (suc room) chunks ≡ (answer, rest)
      → Bounded
          (suc room)
          (length got)
          (length (on_next quinn again (suc room) got answer rest).1)
          (on_next quinn again (suc room) got answer rest).0
  unfolding on_next
  on_next-Bounded rounds room chunks rest got (Next.chunk bytes) again promise h e =
      let (some_bytes, few) = quinn.next_bounds (suc room) chunks rest bytes e (omega arith) in
      let later = promise (suc room - length bytes) rest (got ++ bytes) (omega arith) in
      let sum = length-append got bytes in
      record {
        fits = omega (arith, later.fits, sum);
        grows = omega (arith, later.grows, sum);
        filled = λ x. omega (arith, later.filled x, sum);
      }
  on_next-Bounded rounds room chunks rest got Next.fin again promise h e =
      stopped_early (suc room) (length got) finished (λ x. cc)
  on_next-Bounded rounds room chunks rest got Next.blocked again promise h e =
      stopped_early (suc room) (length got) ReadEnd.blocked (λ x. cc)
  on_next-Bounded rounds room chunks rest got (Next.reset code) again promise h e =
      stopped_early (suc room) (length got) (errored (ConnError.reset code)) (λ x. cc)

  read_loop-Bounded : (rounds : ℕ) → Promise rounds (read_loop quinn rounds)
  unfolding read_loop
  read_loop-Bounded zero zero chunks got h = record {
    fits = omega arith;
    grows = omega arith;
    filled = λ e. omega arith;
  }
  read_loop-Bounded zero (suc room) chunks got h = absurd (omega arith)
  read_loop-Bounded (suc rounds) zero chunks got h = record {
    fits = omega arith;
    grows = omega arith;
    filled = λ e. omega arith;
  }
  read_loop-Bounded (suc rounds) (suc room) chunks got h =
      on_next-Bounded rounds room chunks (quinn.next (suc room) chunks).1 got
        (quinn.next (suc room) chunks).0 (read_loop quinn rounds) (read_loop-Bounded rounds)
        (omega arith) refl

  -- What a read promises of the buffer and of its answer.
  pub record ReadContract (id : ℕ) (buf buf' : List ℕ) (s s' : ConnState quinn)
      (answer : Result ReadOutcome) : Type 0 where
    pub size : length buf' ≡ length buf
    pub untouched : ((n : ℕ) → answer ≡ Result.ok (ReadOutcome.read n) → ⊥) → buf' ≡ buf
    pub positive : (n : ℕ) → answer ≡ Result.ok (ReadOutcome.read n) → (0 < n) × (n ≤ length buf)
    pub rest_kept : (n : ℕ) → answer ≡ Result.ok (ReadOutcome.read n) → drop n buf' ≡ drop n buf
    pub remembered :
        answer ≡ Result.ok ReadOutcome.finished
        → HashSet.contains ℕ_discrete id s'.finished_reads ≡ true
    pub accepts : s'.ready_accepts ≡ s.ready_accepts
    pub fins : s'.send_fins ≡ s.send_fins

  read_answer_read :
      (n m : ℕ) (end : ReadEnd)
      → read_answer quinn n end ≡ Result.ok (ReadOutcome.read m)
      → (n ≡ m) × (0 < n)
  unfolding read_answer
  read_answer_read zero m full e = cc
  read_answer_read zero m finished e = cc
  read_answer_read zero m ReadEnd.blocked e = cc
  read_answer_read zero m (errored x) e = cc
  read_answer_read (suc n) m end e = ground arith

  read_answer_finished :
      (n : ℕ) (end : ReadEnd)
      → read_answer quinn n end ≡ Result.ok ReadOutcome.finished
      → (n ≡ 0) × (end ≡ finished)
  unfolding read_answer
  read_answer_finished zero full e = cc
  read_answer_finished zero finished e = (refl, refl)
  read_answer_finished zero ReadEnd.blocked e = cc
  read_answer_finished zero (errored x) e = cc
  read_answer_finished (suc n) end e = cc

  note_end_finished :
      (id : ℕ) (ids : List ℕ)
      → HashSet.contains ℕ_discrete id (note_end quinn id finished ids) ≡ true
  unfolding note_end
  note_end_finished id ids = ground (arith, contains-insert ℕ_discrete id id ids)

  pub stream_read_known :
      (id : ℕ) (buf : List ℕ) (s : ConnState quinn)
      → HashSet.contains ℕ_discrete id s.finished_reads ≡ true
      → stream_read quinn id buf s ≡ (s, buf, Result.ok ReadOutcome.finished)
  unfolding stream_read
  stream_read_known id buf s known = rw known refl

  -- An answer that is no bytes.
  unread :
      (id : ℕ) (buf : List ℕ) (s s' : ConnState quinn) (answer : Result ReadOutcome)
      → ((n : ℕ) → answer ≡ Result.ok (ReadOutcome.read n) → ⊥)
      → (answer ≡ Result.ok ReadOutcome.finished
          → HashSet.contains ℕ_discrete id s'.finished_reads ≡ true)
      → s'.ready_accepts ≡ s.ready_accepts
      → s'.send_fins ≡ s.send_fins
      → ReadContract id buf buf s s' answer
  unread id buf s s' answer no_bytes known a f = record {
    size = refl;
    untouched = λ _. refl;
    positive = λ n e. absurd (no_bytes n e);
    rest_kept = λ n e. refl;
    remembered = known;
    accepts = a;
    fins = f;
  }

  untouched_buffer :
      (got buf : List ℕ) (end : ReadEnd)
      → ((n : ℕ) → read_answer quinn (length got) end ≡ Result.ok (ReadOutcome.read n) → ⊥)
      → got ++ drop (length got) buf ≡ buf
  unfolding read_answer
  untouched_buffer [] buf end h = refl
  untouched_buffer (x ∷ got) buf end h = absurd (h (suc (length got)) refl)

  copied :
      (id : ℕ) (buf got : List ℕ) (end : ReadEnd) (s : ConnState quinn) (conn : quinn.Connection)
      → length got ≤ length buf
      → ReadContract id buf
          (got ++ drop (length got) buf)
          s
          (record s { conn = conn; finished_reads = note_end quinn id end s.finished_reads })
          (read_answer quinn (length got) end)
  copied id buf got end s conn fits = record {
    size = omega (arith, length-append got (drop (length got) buf), length-drop (length got) buf);
    untouched = untouched_buffer got buf end;
    positive = λ n e. omega (arith, read_answer_read (length got) n end e);
    rest_kept = λ n e.
        ap (λ m. drop m (got ++ drop (length got) buf))
          (sym (read_answer_read (length got) n end e).0)
        ∙ (take_prefix (length got) got (drop (length got) buf) refl).1
        ∙ ap (λ m. drop m buf) (read_answer_read (length got) n end e).0;
    remembered = λ e.
        subst (λ t. HashSet.contains ℕ_discrete id (note_end quinn id t s.finished_reads) ≡ true)
          (sym (read_answer_finished (length got) end e).1) (note_end_finished id s.finished_reads);
    accepts = refl;
    fins = refl;
  }

  read_stream-ReadContract :
      (id : ℕ) (buf : List ℕ) (s : ConnState quinn) (answer : Readable quinn.Chunks)
      → let r = read_stream quinn id buf s answer in ReadContract id buf r.1 s r.0 r.2
  unfolding read_stream
  read_stream-ReadContract id buf s (Readable.err ReadableError.closed_stream) =
      unread id buf s s _ (λ n e. cc) (λ e. cc) refl refl
  read_stream-ReadContract id buf s (Readable.err ReadableError.illegal_ordered_read) =
      unread id buf s s _ (λ n e. cc) (λ e. cc) refl refl
  read_stream-ReadContract id buf s (Readable.ok chunks) =
      copied id buf (read_loop quinn (length buf) (length buf) chunks []).1
        (read_loop quinn (length buf) (length buf) chunks []).0 s _
        (omega (arith, (read_loop-Bounded (length buf) (length buf) chunks [] (omega arith)).fits))

  -- The contract speaks of no field that marking the connection changes.
  started :
      (id : ℕ) (buf : List ℕ) (s : ConnState quinn) (conn : quinn.Connection)
      {r : ConnState quinn × List ℕ × Result ReadOutcome}
      → ReadContract id buf r.1 (record s { conn = conn; dirty = true }) r.0 r.2
      → ReadContract id buf r.1 s r.0 r.2
  started id buf s conn c = record {
    size = c.size;
    untouched = c.untouched;
    positive = c.positive;
    rest_kept = c.rest_kept;
    remembered = c.remembered;
    accepts = c.accepts;
    fins = c.fins;
  }

  -- A read keeps the length of the buffer; an answer of n bytes has 1 ≤ n ≤ the buffer's length and
  -- leaves what stands behind the first n; any other answer leaves the buffer as it was. An answer
  -- of end-of-stream is remembered. No read touches the accept queue or the send halves.
  pub stream_read-ReadContract :
      (id : ℕ) (buf : List ℕ) (s : ConnState quinn)
      → let r = stream_read quinn id buf s in ReadContract id buf r.1 s r.0 r.2
  unfolding stream_read
  stream_read-ReadContract id buf s =
      elim (Bool-cases (HashSet.contains ℕ_discrete id s.finished_reads)) [
        | inl known ↦ rw known (unread id buf s s _ (λ n e. cc) (λ e. known) refl refl)
        | inr unknown ↦ rw unknown (elim (Bool-cases (length buf == 0)) [
          | inl none_asked ↦ rw none_asked (unread id buf s s _ (λ n e. cc) (λ e. cc) refl refl)
          | inr asked ↦ rw asked (
              started id buf s _ (
                read_stream-ReadContract id buf
                  (record s { conn = (quinn.read id s.conn).1; dirty = true })
                  (quinn.read id s.conn).0))
        ])
      ]
