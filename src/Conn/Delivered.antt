-- ===== src/Conn/Delivered.antt =====
-- `stream_read` of proto/src/conn.rs against the chunks that quinn answers: what it copies, and what it
-- takes down of the end of the stream.
use Prim.Native.String.{String}
use quietquic.HashSet.{contains, contains-insert}
use quietquic.Outcome.{ReadOutcome}
use quietquic.Prelude.{
  ℕ, zero, suc, ◌-◌, ◌≤◌, ◌<◌, ◌≡◌, refl, ap, sym, subst, ◌∙◌, inl, inr, true, false, List, [], ◌∷◌,
  ◌++◌, arith, ite, ◌==◌, length, drop, ℕ_discrete, Bool-cases,
}
use quietquic.Quinn.{Quinn, ReadableError, Next, Readable}
use quietquic.Conn.{
  ConnError, Result, ConnState, ReadEnd, full, finished, errored, read_loop, read_answer, note_end,
  on_next, read_stream, stream_read,
}
use quietquic.Conn.Read.{ReadContract, stream_read-ReadContract}
use mathlib.Core.List.{append-nil, append_assoc}

module _ (quinn : Quinn) where
  -- With room for so many bytes the chunks are these bytes, and then this end.
  pub data Reads : ℕ → quinn.Chunks → List ℕ → ReadEnd → quinn.Chunks → Type 0 where
    no_room : (c : quinn.Chunks) → Reads 0 c [] full c
    chunk :
        (room : ℕ) (c c' d : quinn.Chunks) (bytes got : List ℕ) (end : ReadEnd)
        → quinn.next (suc room) c ≡ (Next.chunk bytes, c')
        → Reads (suc room - length bytes) c' got end d
        → Reads (suc room) c (bytes ++ got) end d
    fin :
        (room : ℕ) (c d : quinn.Chunks)
        → quinn.next (suc room) c ≡ (Next.fin, d)
        → Reads (suc room) c [] finished d
    no_more :
        (room : ℕ) (c d : quinn.Chunks)
        → quinn.next (suc room) c ≡ (Next.blocked, d)
        → Reads (suc room) c [] ReadEnd.blocked d
    was_reset :
        (room : ℕ) (c d : quinn.Chunks) (code : ℕ)
        → quinn.next (suc room) c ≡ (Next.reset code, d)
        → Reads (suc room) c [] (errored (ConnError.reset code)) d

  -- What a read says of the bytes that it copied and of where it stopped.
  pub Says : List ℕ → ReadEnd → Result ReadOutcome → Type 0
  Says (b ∷ got) end r = r ≡ Result.ok (ReadOutcome.read (suc (length got)))
  Says [] finished r = r ≡ Result.ok ReadOutcome.finished
  Says [] (errored e) r = r ≡ Result.err e
  Says [] ReadEnd.blocked r = r ≡ Result.ok ReadOutcome.blocked
  Says [] full r = r ≡ Result.ok ReadOutcome.blocked

  -- The end of the stream is taken down where the read met it, and nothing else is.
  pub Notes : ℕ → ReadEnd → List ℕ → List ℕ → Type 0
  Notes id finished ids ids' =
      (j : ℕ) → contains ℕ_discrete j ids' ≡ ite (ℕ_discrete id j) true (contains ℕ_discrete j ids)
  Notes id _ ids ids' = ids' ≡ ids

  pub Notes-keeps :
      (id j : ℕ) (end : ReadEnd) (ids ids' : List ℕ)
      → Notes j end ids ids'
      → contains ℕ_discrete id ids ≡ true
      → contains ℕ_discrete id ids' ≡ true
  unfolding Notes
  Notes-keeps id j finished ids ids' n k = ground (arith, n id, k)
  Notes-keeps id j (errored e) ids ids' n k = ap (contains ℕ_discrete id) n ∙ k
  Notes-keeps id j ReadEnd.blocked ids ids' n k = ap (contains ℕ_discrete id) n ∙ k
  Notes-keeps id j full ids ids' n k = ap (contains ℕ_discrete id) n ∙ k

  -- What an error of quinn becomes.
  pub Refuses : ReadableError → ConnError → Type 0
  Refuses ReadableError.closed_stream x = x ≡ ConnError.closed_stream
  Refuses ReadableError.illegal_ordered_read x = (text : String) × (x ≡ ConnError.transport text)

  -- The bytes of the chunks stand at the front of the buffer.
  pub record Copied (id : ℕ) (buf : List ℕ) (s : ConnState quinn) (chunks : quinn.Chunks)
      (r : ConnState quinn × List ℕ × Result ReadOutcome) : Type 0 where
    pub got : List ℕ
    pub end : ReadEnd
    pub rest : quinn.Chunks
    pub reads : Reads (length buf) chunks got end rest
    pub buffer : r.1 ≡ got ++ drop (length got) buf
    pub conn : r.0.conn ≡ quinn.finalize rest
    pub dirty : r.0.dirty ≡ true
    pub notes : Notes id end s.finished_reads r.0.finished_reads
    pub says : Says got end r.2

  -- What becomes of a read: the end is known, no byte is asked for, quinn refuses, or it delivers.
  pub data Delivered (id : ℕ) (buf : List ℕ) (s : ConnState quinn)
      (r : ConnState quinn × List ℕ × Result ReadOutcome) : Type 0 where
    at_end :
        contains ℕ_discrete id s.finished_reads ≡ true
        → r ≡ (s, buf, Result.ok ReadOutcome.finished)
        → Delivered id buf s r
    nothing_asked :
        contains ℕ_discrete id s.finished_reads ≡ false
        → length buf ≡ 0
        → r ≡ (s, buf, Result.ok ReadOutcome.blocked)
        → Delivered id buf s r
    refused :
        contains ℕ_discrete id s.finished_reads ≡ false
        → 0 < length buf
        → (e : ReadableError) (conn : quinn.Connection) (x : ConnError)
        → quinn.read id s.conn ≡ (Readable.err e, conn)
        → Refuses e x
        → r ≡ (record s { conn = conn; dirty = true }, buf, Result.err x)
        → Delivered id buf s r
    delivered :
        contains ℕ_discrete id s.finished_reads ≡ false
        → 0 < length buf
        → (chunks : quinn.Chunks) (conn : quinn.Connection)
        → quinn.read id s.conn ≡ (Readable.ok chunks, conn)
        → Copied id buf s chunks r
        → Delivered id buf s r

  -- What the rounds that are left read, with at most `rounds` bytes of room.
  abbrev Continues : ℕ → (ℕ → quinn.Chunks → List ℕ → ReadEnd × List ℕ × quinn.Chunks) → Type 0
  Continues rounds again =
      (room : ℕ) (chunks : quinn.Chunks) (before : List ℕ)
      → room ≤ rounds
      → (got : List ℕ) × ((again room chunks before).1 ≡ before ++ got)
        × Reads room chunks got (again room chunks before).0 (again room chunks before).2

  on_next-Reads :
      (rounds room : ℕ) (chunks rest : quinn.Chunks) (before : List ℕ) (answer : Next)
      (again : ℕ → quinn.Chunks → List ℕ → ReadEnd × List ℕ × quinn.Chunks)
      → Continues rounds again
      → room ≤ rounds
      → quinn.next (suc room) chunks ≡ (answer, rest)
      → let r = on_next quinn again (suc room) before answer rest in
        (got : List ℕ) × (r.1 ≡ before ++ got) × Reads (suc room) chunks got r.0 r.2
  unfolding on_next
  on_next-Reads rounds room chunks rest before (Next.chunk bytes) again more h e =
      let (some_bytes, few) = quinn.next_bounds (suc room) chunks rest bytes e (omega arith) in
      let (got, same, reads) =
        more (suc room - length bytes) rest (before ++ bytes) (omega arith) in
      (
        bytes ++ got,
        same ∙ append_assoc before bytes got,
        chunk room chunks rest _ bytes got _ e reads,
      )
  on_next-Reads rounds room chunks rest before Next.fin again more h e =
      ([], sym (append-nil before), fin room chunks rest e)
  on_next-Reads rounds room chunks rest before Next.blocked again more h e =
      ([], sym (append-nil before), no_more room chunks rest e)
  on_next-Reads rounds room chunks rest before (Next.reset code) again more h e =
      ([], sym (append-nil before), was_reset room chunks rest code e)

  read_loop-Reads : (rounds : ℕ) → Continues rounds (read_loop quinn rounds)
  unfolding read_loop
  read_loop-Reads zero zero chunks before h = ([], sym (append-nil before), no_room chunks)
  read_loop-Reads zero (suc room) chunks before h = absurd (omega arith)
  read_loop-Reads (suc rounds) zero chunks before h = ([], sym (append-nil before), no_room chunks)
  read_loop-Reads (suc rounds) (suc room) chunks before h =
      on_next-Reads rounds room chunks (quinn.next (suc room) chunks).1 before
        (quinn.next (suc room) chunks).0 (read_loop quinn rounds) (read_loop-Reads rounds)
        (omega arith) refl

  read_answer-Says :
      (got : List ℕ) (end : ReadEnd) → Says got end (read_answer quinn (length got) end)
  unfolding read_answer Says
  read_answer-Says (b ∷ got) end = refl
  read_answer-Says [] finished = refl
  read_answer-Says [] (errored e) = refl
  read_answer-Says [] ReadEnd.blocked = refl
  read_answer-Says [] full = refl

  note_end-Notes :
      (id : ℕ) (end : ReadEnd) (ids : List ℕ) → Notes id end ids (note_end quinn id end ids)
  unfolding note_end Notes
  note_end-Notes id finished ids = λ j. contains-insert ℕ_discrete id j ids
  note_end-Notes id (errored e) ids = refl
  note_end-Notes id ReadEnd.blocked ids = refl
  note_end-Notes id full ids = refl

  read_stream-Delivered :
      (id : ℕ) (buf : List ℕ) (s : ConnState quinn) (conn : quinn.Connection)
      (answer : Readable quinn.Chunks)
      → contains ℕ_discrete id s.finished_reads ≡ false
      → 0 < length buf
      → quinn.read id s.conn ≡ (answer, conn)
      → Delivered id buf s
          (read_stream quinn id buf (record s { conn = conn; dirty = true }) answer)
  unfolding read_stream Refuses
  read_stream-Delivered id buf s conn (Readable.err ReadableError.closed_stream) u room e =
      refused u room ReadableError.closed_stream conn ConnError.closed_stream e refl refl
  read_stream-Delivered id buf s conn (Readable.err ReadableError.illegal_ordered_read) u room e =
      refused u room ReadableError.illegal_ordered_read conn (ConnError.transport _) e (_, refl)
        refl
  read_stream-Delivered id buf s conn (Readable.ok chunks) u room e =
      let out = read_loop quinn (length buf) (length buf) chunks [] in
      let (got, same, reads) = read_loop-Reads (length buf) (length buf) chunks [] (omega arith) in
      delivered u room chunks conn e (record {
        got = out.1;
        end = out.0;
        rest = out.2;
        reads = subst (λ g. Reads (length buf) chunks g out.0 out.2) (sym same) reads;
        buffer = refl;
        conn = refl;
        dirty = refl;
        notes = note_end-Notes id out.0 s.finished_reads;
        says = read_answer-Says out.1 out.0;
      })

  -- A read whose end is known, or that asks for no byte, changes nothing; one that quinn refuses
  -- leaves the buffer. Otherwise the bytes that quinn delivers, as many as there is room for or until
  -- it stops, are copied to the front of the buffer and the rest is kept; the connection is dirty,
  -- the end of the stream is taken down exactly if the read met it, and the answer is the count of
  -- the bytes, or where there is none what the read met. No read touches the accept queue or the send
  -- halves.
  pub stream_read-Delivered :
      (id : ℕ) (buf : List ℕ) (s : ConnState quinn)
      → let r = stream_read quinn id buf s in
        Delivered id buf s r × ReadContract quinn id buf r.1 s r.0 r.2
  unfolding stream_read
  stream_read-Delivered id buf s = (cases, stream_read-ReadContract quinn id buf s)
    where
      cases : Delivered id buf s (stream_read quinn id buf s)
      cases = elim (Bool-cases (contains ℕ_discrete id s.finished_reads)) [
        | inl known ↦ rw known (at_end known refl)
        | inr unknown ↦ elim (Bool-cases (length buf == 0)) [
          | inl empty ↦ rw (unknown, empty) (nothing_asked unknown (ground (arith, empty)) refl)
          | inr asked ↦
              rw (unknown, asked)
                (read_stream-Delivered id buf s (quinn.read id s.conn).1 (quinn.read id s.conn).0
                  unknown (ground (arith, asked)) refl)
        ]
      ]
