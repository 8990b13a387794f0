-- ===== src/Parked/Answers.antt =====
-- src/conn.rs over the life of a connection: every reply channel is answered exactly once.
use quietquic.Conn
use quietquic.Conn.{ConnError, Result, ConnState}
use quietquic.HashMap
use quietquic.HashMap.{keys}
use quietquic.Outcome.{ConnectionError, ReadOutcome, WriteOutcome}
use quietquic.Parked.{
  Answer, Cmd, Parked, new, lose, mark_closed, send, send_all, found, of_write, of_read, waiting,
  fail_all, on_fin_acked, fail_fin_waiters, is_ok, on_accepted, serve_accepts, on_stream_opened,
  offer_write, on_writable, offer_read, on_readable, on_stopped, start_write, start_read, apply_cmd,
}
use quietquic.Parked.Balance.{
  send-Counted, then-Counted, answer_waiters-Counted, KeepsWrite, KeepsRead, settle_write-Counted,
  settle_read-Counted, wait_fin-Counted, accepted-Counted, idle-Counted, after_reset-Counted,
  after_stop-Counted, remove_write-IsKeyed, remove_read-IsKeyed,
}
use quietquic.Parked.Pump.{
  PendingWrite, PendingRead, WriteEnd, ReadStop, write_rounds, pump_write, on_write, read_rounds,
  pump_read, on_read, on_filled, exceeded, request_len,
}
use quietquic.Parked.Tally.{
  one, occ, occ-append, occ-keys-append, answered, parked, IsKeyed, Counted, waiting-remove,
}
use quietquic.Prelude.{
  ℕ, zero, suc, ◌+◌, ◌≡◌, refl, ap, ◌∙◌, max, Option, none, some, List, [], ◌∷◌, ◌++◌, arith, leb,
  length, drop, take, replicate, ℕ_discrete, inl, inr, Bool-cases,
}
use quietquic.Quinn.{Quinn}

module _ (quinn : Quinn) where
  on_write-KeepsWrite :
      (again : PendingWrite → ConnState quinn → ConnState quinn × WriteEnd) (p : PendingWrite)
      (r : Result WriteOutcome) (s : ConnState quinn)
      → ((q : PendingWrite) (u : ConnState quinn) → KeepsWrite q.reply (again q u).1)
      → KeepsWrite p.reply (on_write quinn again p r s).1
  unfolding on_write KeepsWrite
  on_write-KeepsWrite again p (Result.ok (WriteOutcome.wrote n)) s keeps =
      keeps (record p { offset = p.offset + n }) s
  on_write-KeepsWrite again p (Result.ok WriteOutcome.blocked) s keeps = refl
  on_write-KeepsWrite again p (Result.err e) s keeps = tt

  pump_write-KeepsWrite :
      (rounds id : ℕ) (p : PendingWrite) (s : ConnState quinn)
      → KeepsWrite p.reply (pump_write quinn rounds id p s).1
  unfolding pump_write KeepsWrite
  pump_write-KeepsWrite zero id p s = refl
  pump_write-KeepsWrite (suc rounds) id p s =
      let (s', r) = Conn.stream_write quinn id (drop p.offset p.contents) s in
      elim (Bool-cases (leb (length p.contents) p.offset)) [
        | inl all_ ↦ rw all_ tt
        | inr rest ↦ rw rest (
            on_write-KeepsWrite (pump_write quinn rounds id) p r s'
              (pump_write-KeepsWrite rounds id))
      ]

  on_read-KeepsRead :
      (again : PendingRead → ConnState quinn → ConnState quinn × ReadStop) (id : ℕ)
      (p : PendingRead) (got : List ℕ) (r : Result ReadOutcome) (s : ConnState quinn)
      → ((q : PendingRead) (u : ConnState quinn) → KeepsRead q.reply (again q u).1)
      → KeepsRead p.reply (on_read quinn again id p got r s).1
  unfolding on_read on_filled KeepsRead
  on_read-KeepsRead again id p got (Result.ok (ReadOutcome.read n)) s keeps =
      filled (exceeded p.end_limit (p.buf ++ take n got)) p.max_len
    where
      filled :
          (over most : Option ℕ)
          → KeepsRead p.reply
              (on_filled quinn again (record p { buf = p.buf ++ take n got }) over most s).1
      filled (some limit) most = tt
      filled none (some m) = tt
      filled none none = keeps (record p { buf = p.buf ++ take n got }) s
  on_read-KeepsRead again id p got (Result.ok ReadOutcome.blocked) s keeps = refl
  on_read-KeepsRead again id p got (Result.ok ReadOutcome.finished) s keeps = tt
  on_read-KeepsRead again id p got (Result.err e) s keeps = tt

  pump_read-KeepsRead :
      (rounds id : ℕ) (p : PendingRead) (s : ConnState quinn)
      → KeepsRead p.reply (pump_read quinn rounds id p s).1
  unfolding pump_read KeepsRead
  pump_read-KeepsRead zero id p s = refl
  pump_read-KeepsRead (suc rounds) id p s =
      let (s', got, r) = Conn.stream_read quinn id (replicate (request_len p) 0) s in
      on_read-KeepsRead (pump_read quinn rounds id) id p got r s' (pump_read-KeepsRead rounds id)

  offer_write-Counted :
      (id : ℕ) (o : Option PendingWrite) (t : ℕ) (pk : Parked) (s : ConnState quinn)
      → HashMap.get ℕ_discrete id pk.blocked_writes ≡ o
      → IsKeyed pk
      → Counted t 0 pk (offer_write quinn id o pk s).0
  unfolding offer_write parked answered found occ
  offer_write-Counted id none t pk s e k = idle-Counted t pk k
  offer_write-Counted id (some p) t pk s e k =
      let c =
        settle_write-Counted id p.reply (pump_write quinn (write_rounds p) id p s).1 t _
          (pump_write-KeepsWrite (write_rounds p) id p s) (remove_write-IsKeyed id pk k) in
      let taken =
        waiting-remove of_write t id pk.blocked_writes k.writes
        ∙ ap
            (λ q.
              occ t (found of_write q)
              + occ t (waiting of_write (HashMap.remove ℕ_discrete id pk.blocked_writes)))
            e in
      record { account = omega (arith, c.account, taken); keyed = c.keyed }

  offer_read-Counted :
      (id : ℕ) (o : Option PendingRead) (t : ℕ) (pk : Parked) (s : ConnState quinn)
      → HashMap.get ℕ_discrete id pk.pending_reads ≡ o
      → IsKeyed pk
      → Counted t 0 pk (offer_read quinn id o pk s).0
  unfolding offer_read parked answered found occ
  offer_read-Counted id none t pk s e k = idle-Counted t pk k
  offer_read-Counted id (some p) t pk s e k =
      let c =
        settle_read-Counted id p.reply (pump_read quinn (read_rounds p) id p s).1 t _
          (pump_read-KeepsRead (read_rounds p) id p s) (remove_read-IsKeyed id pk k) in
      let taken =
        waiting-remove of_read t id pk.pending_reads k.reads
        ∙ ap
            (λ q.
              occ t (found of_read q)
              + occ t (waiting of_read (HashMap.remove ℕ_discrete id pk.pending_reads)))
            e in
      record { account = omega (arith, c.account, taken); keyed = c.keyed }

  on_accepted-occ :
      (t reply : ℕ) (replies : List ℕ) (r : Result (Option ℕ)) (s : ConnState quinn)
      → ((u : ConnState quinn)
          → occ t (serve_accepts quinn replies u).0 + occ t (keys (serve_accepts quinn replies u).1)
            ≡ occ t replies)
      → occ t (on_accepted quinn (serve_accepts quinn replies) reply replies r s).0
          + occ t (keys (on_accepted quinn (serve_accepts quinn replies) reply replies r s).1)
        ≡ one t reply + occ t replies
  unfolding on_accepted occ
  on_accepted-occ t reply replies (Result.ok (some id)) s rest = omega (arith, rest s)
  on_accepted-occ t reply replies (Result.ok none) s rest = omega arith
  on_accepted-occ t reply replies (Result.err e) s rest = omega arith

  serve_accepts-occ :
      (t : ℕ) (replies : List ℕ) (s : ConnState quinn)
      → occ t (serve_accepts quinn replies s).0 + occ t (keys (serve_accepts quinn replies s).1)
        ≡ occ t replies
  unfolding serve_accepts occ
  serve_accepts-occ t [] s = omega arith
  serve_accepts-occ t (reply ∷ replies) s =
      let (s', r) = Conn.accept_bi quinn s in
      on_accepted-occ t reply replies r s' (serve_accepts-occ t replies)

  on_stream_opened-Counted :
      (t : ℕ) (pk : Parked) (s : ConnState quinn)
      → IsKeyed pk
      → Counted t 0 pk (on_stream_opened quinn pk s).0
  unfolding on_stream_opened parked answered
  on_stream_opened-Counted t pk s k = record {
    account = omega (
      arith,
      serve_accepts-occ t pk.pending_accepts s,
      occ-keys-append t pk.sent (serve_accepts quinn pk.pending_accepts s).1,
    );
    keyed = record { writes = k.writes; reads = k.reads; fins = k.fins };
  }

  on_stopped-Counted :
      (id code t : ℕ) (pk : Parked) (s : ConnState quinn)
      → IsKeyed pk
      → Counted t 0 pk (on_stopped quinn id code pk s).0
  unfolding on_stopped on_writable fail_fin_waiters
  on_stopped-Counted id code t pk s k =
      let a = answer_waiters-Counted id (Result.err (ConnError.stopped code)) t pk k in
      then-Counted t 0 0 pk _ _ a (offer_write-Counted id _ t _ s refl a.keyed)

-- The reply channel that a command hands in.
unfoldable pub reply_of : Cmd → List ℕ
reply_of (Cmd.open_bi reply) = reply ∷ []
reply_of (Cmd.accept_bi reply) = reply ∷ []
reply_of (Cmd.write id contents reply) = reply ∷ []
reply_of (Cmd.finish id reply) = reply ∷ []
reply_of (Cmd.wait_finished id reply) = reply ∷ []
reply_of (Cmd.reset id code reply) = reply ∷ []
reply_of (Cmd.stop id code reply) = reply ∷ []
reply_of (Cmd.release_send id) = []
reply_of (Cmd.read_to_end id limit reply) = reply ∷ []
reply_of (Cmd.read id most reply) = reply ∷ []
reply_of (Cmd.close code reason) = []

-- What reaches a parked connection: a command of a handle, or an event of the core.
pub data Step (Instant : Type 0) : Type 0 where
  cmd : Instant → Cmd → Step Instant
  stream_opened : Step Instant
  readable writable fin_acked : ℕ → Step Instant
  stopped : ℕ → ℕ → Step Instant

module _ (quinn : Quinn) {Instant : Type 0}
    (close_conn : Instant → ℕ → List ℕ → quinn.Connection → quinn.Connection) where
  -- One of them, for the state that the core has then.
  unfoldable pub step : Step Instant → ConnState quinn → Parked → Parked
  step (Step.cmd now c) s pk = (apply_cmd quinn close_conn now c pk s).0
  step Step.stream_opened s pk = (on_stream_opened quinn pk s).0
  step (Step.readable id) s pk = (on_readable quinn id pk s).0
  step (Step.writable id) s pk = (on_writable quinn id pk s).0
  step (Step.fin_acked id) s pk = on_fin_acked id pk
  step (Step.stopped id code) s pk = (on_stopped quinn id code pk s).0

  unfoldable pub run : List (Step Instant × ConnState quinn) → Parked → Parked
  run [] pk = pk
  run ((st, s) ∷ steps) pk = run steps (step st s pk)

  -- The reply channels that the commands hand in.
  unfoldable pub handed_in : List (Step Instant × ConnState quinn) → List ℕ
  unfolding reply_of
  handed_in [] = []
  handed_in ((Step.cmd now c, s) ∷ steps) = reply_of c ++ handed_in steps
  handed_in ((_, s) ∷ steps) = handed_in steps

  -- A command with a reply channel.
  replying :
      (reply t : ℕ) (pk pk' : Parked)
      → Counted t (one t reply) pk pk'
      → Counted t (occ t (reply ∷ [])) pk pk'
  unfolding occ
  replying reply t pk pk' c = record { account = omega (arith, c.account); keyed = c.keyed }

  after_idle :
      (t n : ℕ) (pk pk1 pk2 : Parked)
      → Counted t 0 pk pk1
      → Counted t n pk1 pk2
      → Counted t n pk pk2
  after_idle t n pk pk1 pk2 a b = record {
    account = omega (arith, a.account, b.account);
    keyed = b.keyed;
  }

  apply_cmd-Counted :
      (now : Instant) (c : Cmd) (t : ℕ) (pk : Parked) (s : ConnState quinn)
      → IsKeyed pk
      → Counted t (occ t (reply_of c)) pk (apply_cmd quinn close_conn now c pk s).0
  unfolding apply_cmd start_write start_read reply_of occ
  apply_cmd-Counted now (Cmd.open_bi reply) t pk s k =
      replying reply t pk _ (send-Counted reply _ t pk k)
  apply_cmd-Counted now (Cmd.accept_bi reply) t pk s k =
      replying reply t pk _ (accepted-Counted reply _ t pk k)
  apply_cmd-Counted now (Cmd.write id contents reply) t pk s k =
      let p : PendingWrite = record { contents = contents; offset = 0; reply = reply } in
      replying reply t pk _ (
        settle_write-Counted id reply _ t pk (pump_write-KeepsWrite quinn (write_rounds p) id p s)
          k)
  apply_cmd-Counted now (Cmd.finish id reply) t pk s k =
      replying reply t pk _ (send-Counted reply _ t pk k)
  apply_cmd-Counted now (Cmd.wait_finished id reply) t pk s k =
      replying reply t pk _ (wait_fin-Counted id reply _ t pk k)
  apply_cmd-Counted now (Cmd.reset id code reply) t pk s k =
      let a = after_reset-Counted (is_ok (Conn.stream_reset quinn id code s).1) id t pk k in
      replying reply t pk _ (after_idle t (one t reply) pk _ _ a (send-Counted reply _ t _ a.keyed))
  apply_cmd-Counted now (Cmd.stop id code reply) t pk s k =
      let a = after_stop-Counted (is_ok (Conn.stream_stop quinn id code s).1) id t pk k in
      replying reply t pk _ (after_idle t (one t reply) pk _ _ a (send-Counted reply _ t _ a.keyed))
  apply_cmd-Counted now (Cmd.release_send id) t pk s k = idle-Counted t pk k
  apply_cmd-Counted now (Cmd.read_to_end id limit reply) t pk s k =
      let p : PendingRead = record {
        buf = [];
        end_limit = some limit;
        max_len = none;
        reply = reply;
      } in
      replying reply t pk _
        (settle_read-Counted id reply _ t pk (pump_read-KeepsRead quinn (read_rounds p) id p s) k)
  apply_cmd-Counted now (Cmd.read id most reply) t pk s k =
      let p : PendingRead = record {
        buf = [];
        end_limit = none;
        max_len = some (max most 1);
        reply = reply;
      } in
      replying reply t pk _
        (settle_read-Counted id reply _ t pk (pump_read-KeepsRead quinn (read_rounds p) id p s) k)
  apply_cmd-Counted now (Cmd.close code reason) t pk s k = idle-Counted t pk k

  step-Counted :
      (st : Step Instant) (t : ℕ) (pk : Parked) (s : ConnState quinn)
      → IsKeyed pk
      → Counted t (occ t (handed_in ((st, s) ∷ []))) pk (step st s pk)
  unfolding step on_readable on_writable on_fin_acked handed_in occ
  step-Counted (Step.cmd now c) t pk s k =
      let a = apply_cmd-Counted now c t pk s k in
      record { account = omega (arith, a.account, occ-append t (reply_of c) []); keyed = a.keyed }
  step-Counted Step.stream_opened t pk s k = on_stream_opened-Counted quinn t pk s k
  step-Counted (Step.readable id) t pk s k = offer_read-Counted quinn id _ t pk s refl k
  step-Counted (Step.writable id) t pk s k = offer_write-Counted quinn id _ t pk s refl k
  step-Counted (Step.fin_acked id) t pk s k = answer_waiters-Counted id _ t pk k
  step-Counted (Step.stopped id code) t pk s k = on_stopped-Counted quinn id code t pk s k

  handed_in-cons :
      (t : ℕ) (st : Step Instant × ConnState quinn) (steps : List (Step Instant × ConnState quinn))
      → occ t (handed_in (st ∷ steps)) ≡ occ t (handed_in (st ∷ [])) + occ t (handed_in steps)
  unfolding handed_in occ
  handed_in-cons t (Step.cmd now c, s) steps =
      omega (arith, occ-append t (reply_of c) (handed_in steps), occ-append t (reply_of c) [])
  handed_in-cons t (Step.stream_opened, s) steps = omega arith
  handed_in-cons t (Step.readable id, s) steps = omega arith
  handed_in-cons t (Step.writable id, s) steps = omega arith
  handed_in-cons t (Step.fin_acked id, s) steps = omega arith
  handed_in-cons t (Step.stopped id code, s) steps = omega arith

  run-Counted :
      (steps : List (Step Instant × ConnState quinn)) (t : ℕ) (pk : Parked)
      → IsKeyed pk
      → Counted t (occ t (handed_in steps)) pk (run steps pk)
  unfolding run handed_in occ
  run-Counted [] t pk k = idle-Counted t pk k
  run-Counted ((st, s) ∷ steps) t pk k =
      let a = step-Counted st t pk s k in
      let b = run-Counted steps t (step st s pk) a.keyed in
      record {
        account = omega (arith, a.account, b.account, handed_in-cons t (st, s) steps);
        keyed = b.keyed;
      }

send_all-parked :
    (replies : List ℕ) (answer : Answer) (t : ℕ) (pk : Parked)
    → parked t (send_all replies answer pk) ≡ parked t pk
unfolding send_all parked
send_all-parked [] answer t pk = refl
send_all-parked (reply ∷ replies) answer t pk = send_all-parked replies answer t _

send_all-answered :
    (replies : List ℕ) (answer : Answer) (t : ℕ) (pk : Parked)
    → answered t (send_all replies answer pk) ≡ occ t replies + answered t pk
unfolding send_all send answered occ
send_all-answered [] answer t pk = omega arith
send_all-answered (reply ∷ replies) answer t pk = omega (
  arith,
  send_all-answered replies answer t (send reply answer pk),
  occ-keys-append t pk.sent ((reply, answer) ∷ []),
)

-- The maps that `fail_all` has drained.
abbrev cleared : Parked → Parked
cleared pk = record pk {
  pending_accepts = [];
  blocked_writes = [];
  pending_reads = [];
  fin_waiters = [];
}

cleared-parked : (t : ℕ) (pk : Parked) → parked t (cleared pk) ≡ 0
unfolding parked waiting occ
cleared-parked t pk = refl

fail_all-parked : (t : ℕ) (pk : Parked) → parked t (fail_all pk) ≡ 0
unfolding fail_all
fail_all-parked t pk = simp send_all-parked (cleared-parked t pk)

sorted :
    (t : ℕ) (pk : Parked)
    → occ t (waiting (λ replies. replies) pk.fin_waiters)
        + (occ t (waiting of_read pk.pending_reads)
            + (occ t (waiting of_write pk.blocked_writes)
                + (occ t pk.pending_accepts + answered t (cleared pk))))
      ≡ parked t pk + answered t pk
unfolding parked answered
sorted t pk = omega arith

fail_all-answered : (t : ℕ) (pk : Parked) → answered t (fail_all pk) ≡ parked t pk + answered t pk
unfolding fail_all
fail_all-answered t pk = simp send_all-answered (sorted t pk)

module _ (quinn : Quinn) {Instant : Type 0}
    (close_conn : Instant → ℕ → List ℕ → quinn.Connection → quinn.Connection) where
  -- No waiting operation is forgotten and none is answered twice: whatever commands and events reach
  -- a connection, and whatever the core answers to each, once the connection is lost no reply channel
  -- is still held, and each has been answered, or its sender dropped, as often as it was handed in.
  pub run-answered :
      (steps : List (Step Instant × ConnState quinn)) (reason : ConnectionError) (t : ℕ)
      → (answered t (lose reason (run quinn close_conn steps new))
          ≡ occ t (handed_in quinn close_conn steps))
        × (parked t (lose reason (run quinn close_conn steps new)) ≡ 0)
  unfolding lose mark_closed answered parked new occ waiting
  run-answered steps reason t =
      let k : IsKeyed new = record { writes = tt; reads = tt; fins = tt } in
      let c = run-Counted quinn close_conn steps t new k in
      (
        fail_all-answered t (mark_closed reason (run quinn close_conn steps new))
            ∙ omega (arith, c.account),
        fail_all-parked t (mark_closed reason (run quinn close_conn steps new)),
      )
