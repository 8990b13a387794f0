-- ===== src/Parked/Loops.antt =====
-- The loops of src/conn.rs end: more rounds than they get change nothing.
use mathlib.Core.Option.{some_inj}
use quietquic.Conn.{Result, ConnState, stream_read, stream_write, write_answer}
use quietquic.Conn.Read.{stream_read-ReadContract}
use quietquic.Outcome.{ReadOutcome, WriteOutcome}
use quietquic.Parked.Limits.{RoomFor, IsRead}
use quietquic.Parked.Pump.{
  PendingRead, PendingWrite, ReadStop, WriteEnd, request_len, exceeded, read_rounds, read_rounds_by,
  on_filled, on_read, pump_read, write_rounds, on_write, pump_write,
}
use quietquic.Prelude.{
  ℕ, zero, suc, ◌+◌, ◌≤◌, ◌<◌, ◌≡◌, refl, ap, sym, subst, false, Option, none, some, List, ◌++◌,
  arith, ltb, leb, ◌==◌, length, take, drop, replicate, length-take, length-append, length-drop,
  Bool-cases, inl, inr,
}
use quietquic.Quinn.{Quinn, WriteResult}

module _ (quinn : Quinn) (id : ℕ) where
  abbrev Rounds : Type 0
  Rounds = PendingRead → ConnState quinn → ConnState quinn × ReadStop

  -- Two ways to go on agree on a read to the end that has got more bytes, within its limit.
  abbrev Agree : Rounds → Rounds → Option ℕ → ℕ → Type 0
  Agree again again' limit filled =
      (q : PendingRead) (u : ConnState quinn)
      → q.max_len ≡ none
      → q.end_limit ≡ limit
      → RoomFor none limit (length q.buf)
      → filled < length q.buf
      → again q u ≡ again' q u

  on_filled-Agree :
      (again again' : Rounds) (buf : List ℕ) (reply : ℕ) (most limit : Option ℕ) (filled : ℕ)
      (s : ConnState quinn)
      → RoomFor most limit filled
      → filled < length buf
      → Agree again again' limit filled
      → let p : PendingRead = record {
        buf = buf;
        end_limit = limit;
        max_len = most;
        reply = reply;
      } in
        on_filled quinn again p (exceeded limit buf) most s
        ≡ on_filled quinn again' p (exceeded limit buf) most s
  unfolding on_filled exceeded RoomFor
  on_filled-Agree again again' buf reply (some m) none filled s room grown agree = refl
  on_filled-Agree again again' buf reply (some m) (some l) filled s room grown agree =
      elim (Bool-cases (ltb l (length buf))) [
        | inl over ↦ rw over refl
        | inr within ↦ rw within refl
      ]
  on_filled-Agree again again' buf reply none none filled s room grown agree = absurd room
  on_filled-Agree again again' buf reply none (some l) filled s room grown agree =
      elim (Bool-cases (ltb l (length buf))) [
        | inl over ↦ rw over refl
        | inr within ↦ rw within (agree _ s refl refl (ground (arith, within)) grown)
      ]

  on_read-Agree :
      (again again' : Rounds) (p : PendingRead) (got : List ℕ) (r : Result ReadOutcome)
      (s : ConnState quinn)
      → IsRead p
      → ((n : ℕ) → r ≡ Result.ok (ReadOutcome.read n) → (0 < n) × (n ≤ length got))
      → Agree again again' p.end_limit (length p.buf)
      → on_read quinn again id p got r s ≡ on_read quinn again' id p got r s
  unfolding on_read IsRead
  on_read-Agree again again' p got (Result.ok (ReadOutcome.read n)) s room positive agree =
      on_filled-Agree again again' (p.buf ++ take n got) p.reply p.max_len p.end_limit
        (length p.buf) s room
        (omega (arith, length-append p.buf (take n got), length-take n got, positive n refl)) agree
  on_read-Agree again again' p got (Result.ok ReadOutcome.blocked) s room positive agree = refl
  on_read-Agree again again' p got (Result.ok ReadOutcome.finished) s room positive agree = refl
  on_read-Agree again again' p got (Result.err e) s room positive agree = refl

  some_rounds : (limit : Option ℕ) (filled : ℕ) → 0 < read_rounds_by limit filled
  some_rounds none filled = omega arith
  some_rounds (some l) filled = omega arith

  fewer_rounds :
      (limit limit' : Option ℕ) (filled more n : ℕ)
      → limit' ≡ limit
      → RoomFor none limit more
      → filled < more
      → read_rounds_by limit filled ≤ suc n
      → read_rounds_by limit' more ≤ n
  unfolding RoomFor
  fewer_rounds none limit' filled more n e room grown h = absurd room
  fewer_rounds (some l) none filled more n e room grown h = absurd (ground arith)
  fewer_rounds (some l) (some k) filled more n e room grown h = omega (arith, some_inj.0 e)

  -- The loop of a parked read ends: as many rounds as `read_rounds` gives are enough, and more leave
  -- the same answer and the same state of the connection.
  pub pump_read-enough :
      (n m : ℕ) (p : PendingRead) (s : ConnState quinn)
      → IsRead p
      → read_rounds p ≤ n
      → read_rounds p ≤ m
      → pump_read quinn n id p s ≡ pump_read quinn m id p s
  unfolding pump_read IsRead
  pump_read-enough zero m p s room h k =
      absurd (omega (arith, some_rounds p.end_limit (length p.buf)))
  pump_read-enough (suc n) zero p s room h k =
      absurd (omega (arith, some_rounds p.end_limit (length p.buf)))
  pump_read-enough (suc n) (suc m) p s room h k =
      let asked = replicate (request_len p) 0 in
      let c = stream_read-ReadContract quinn id asked s in
      on_read-Agree (pump_read quinn n id) (pump_read quinn m id) p _
        (stream_read quinn id asked s).2 _ room
        (λ j e. ((c.positive j e).0, omega (arith, (c.positive j e).1, c.size)))
        (λ q u most limit full grown.
          pump_read-enough n m q u
            (subst (λ x. RoomFor x q.end_limit (length q.buf)) (sym most)
              (subst (λ x. RoomFor none x (length q.buf)) (sym limit) full))
            (fewer_rounds p.end_limit q.end_limit (length p.buf) (length q.buf) n limit full grown
              h)
            (fewer_rounds p.end_limit q.end_limit (length p.buf) (length q.buf) m limit full grown
              k))

  write_answer-wrote :
      (r : WriteResult) (n : ℕ)
      → write_answer quinn r ≡ Result.ok (WriteOutcome.wrote n)
      → r ≡ WriteResult.ok n
  unfolding write_answer
  write_answer-wrote (WriteResult.ok k) n e = ground arith
  write_answer-wrote WriteResult.blocked n e = cc
  write_answer-wrote (WriteResult.stopped code) n e = cc
  write_answer-wrote WriteResult.closed_stream n e = cc

  -- A write of some bytes takes at least one, if it is not blocked and does not fail.
  stream_write-positive :
      (buf : List ℕ) (s : ConnState quinn) (n : ℕ)
      → 0 < length buf
      → (stream_write quinn id buf s).1 ≡ Result.ok (WriteOutcome.wrote n)
      → 0 < n
  unfolding stream_write
  stream_write-positive buf s n some_ e =
      let asked : (length buf == 0) ≡ false = ground arith in
      let answered : write_answer quinn (quinn.write id buf s.conn).0
          ≡ Result.ok (WriteOutcome.wrote n) =
        rw asked at e in
      quinn.write_progress id buf s.conn (quinn.write id buf s.conn).1 n
        (ap (λ r. (r, (quinn.write id buf s.conn).1)) (write_answer-wrote _ n answered)) some_

  abbrev Writes : Type 0
  Writes = PendingWrite → ConnState quinn → ConnState quinn × WriteEnd

  on_write_cong :
      (again again' : Writes) (p : PendingWrite) (r : Result WriteOutcome) (s : ConnState quinn)
      → ((n : ℕ) → r ≡ Result.ok (WriteOutcome.wrote n) → 0 < n)
      → ((n : ℕ)
          → 0 < n
          → again (record p { offset = p.offset + n }) s
            ≡ again' (record p { offset = p.offset + n }) s)
      → on_write quinn again p r s ≡ on_write quinn again' p r s
  unfolding on_write
  on_write_cong again again' p (Result.ok (WriteOutcome.wrote n)) s positive agree =
      agree n (positive n refl)
  on_write_cong again again' p (Result.ok WriteOutcome.blocked) s positive agree = refl
  on_write_cong again again' p (Result.err e) s positive agree = refl

  -- The loop of a parked write ends too: every write that is not blocked takes at least one byte, so
  -- more rounds than `write_rounds` gives leave the same answer and the same state.
  pub pump_write-enough :
      (n m : ℕ) (p : PendingWrite) (s : ConnState quinn)
      → write_rounds p ≤ n
      → write_rounds p ≤ m
      → pump_write quinn n id p s ≡ pump_write quinn m id p s
  unfolding pump_write
  pump_write-enough zero m p s h k = absurd (omega arith)
  pump_write-enough (suc n) zero p s h k = absurd (omega arith)
  pump_write-enough (suc n) (suc m) p s h k = elim (Bool-cases (leb (length p.contents) p.offset)) [
    | inl all_ ↦ rw all_ refl
    | inr rest ↦
        let more : p.offset < length p.contents = ground (arith, rest) in
        let (s', r) = stream_write quinn id (drop p.offset p.contents) s in
        rw rest (
          on_write_cong (pump_write quinn n id) (pump_write quinn m id) p r s'
            (λ j e.
              stream_write-positive (drop p.offset p.contents) s j
                (omega (arith, more, length-drop p.offset p.contents)) e)
            (λ j positive.
              pump_write-enough n m (record p { offset = p.offset + j }) s'
                (omega (arith, h, more, positive)) (omega (arith, k, more, positive))))
  ]
