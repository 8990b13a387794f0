-- ===== src/Parked/Balance.antt =====
-- Each step of src/conn.rs against the tally of the reply channels.
use quietquic.Conn.{ConnError, Result, SendFin}
use quietquic.HashMap
use quietquic.HashMap.{keys, Distinct-remove, Distinct-insert}
use quietquic.Parked.{
  Answer, Parked, send, send_all, found, of_write, of_read, waiting, park_write, park_read,
  park_fin, answer_waiters, fail_fin_waiters, fail_blocked_write, fail_pending_read, settle_write,
  settle_read, wait_fin, accepted, after_reset, after_stop,
}
use quietquic.Parked.Pump.{PendingWrite, PendingRead, WriteEnd, ReadStop}
use quietquic.Parked.Tally.{
  one, occ, occ-append, answered, parked, IsKeyed, Counted, waiting-remove, send_all-Counted,
}
use quietquic.Prelude.{
  ℕ, ◌+◌, ◌≡◌, subst, Bool, true, false, Option, none, some, [], ◌∷◌, ◌++◌, arith, ℕ_discrete,
}

pub send-Counted :
    (reply : ℕ) (answer : Answer) (t : ℕ) (pk : Parked)
    → IsKeyed pk
    → Counted t (one t reply) pk (send reply answer pk)
unfolding send_all occ
send-Counted reply answer t pk k =
    let c = send_all-Counted (reply ∷ []) answer t pk k in
    record { account = omega (arith, c.account); keyed = c.keyed }

-- Two steps in a row.
pub then-Counted :
    (t n m : ℕ) (pk pk1 pk2 : Parked)
    → Counted t n pk pk1
    → Counted t m pk1 pk2
    → Counted t (m + n) pk pk2
then-Counted t n m pk pk1 pk2 a b = record {
  account = omega (arith, a.account, b.account);
  keyed = b.keyed;
}

park_write-Counted :
    (id : ℕ) (p : PendingWrite) (t : ℕ) (pk : Parked)
    → IsKeyed pk
    → Counted t (one t p.reply) pk (park_write id p pk)
unfolding park_write parked answered occ waiting HashMap.insert
park_write-Counted id p t pk k =
    let c =
      send_all-Counted (found of_write (HashMap.get ℕ_discrete id pk.blocked_writes)) Answer.dropped
        t (record pk { blocked_writes = HashMap.insert ℕ_discrete id p pk.blocked_writes })
        (record {
          writes = Distinct-insert ℕ_discrete id p pk.blocked_writes k.writes;
          reads = k.reads;
          fins = k.fins;
        }) in
    record {
      account = omega (arith, c.account, waiting-remove of_write t id pk.blocked_writes k.writes);
      keyed = c.keyed;
    }

park_read-Counted :
    (id : ℕ) (p : PendingRead) (t : ℕ) (pk : Parked)
    → IsKeyed pk
    → Counted t (one t p.reply) pk (park_read id p pk)
unfolding park_read parked answered occ waiting HashMap.insert
park_read-Counted id p t pk k =
    let c =
      send_all-Counted (found of_read (HashMap.get ℕ_discrete id pk.pending_reads)) Answer.dropped t
        (record pk { pending_reads = HashMap.insert ℕ_discrete id p pk.pending_reads })
        (record {
          writes = k.writes;
          reads = Distinct-insert ℕ_discrete id p pk.pending_reads k.reads;
          fins = k.fins;
        }) in
    record {
      account = omega (arith, c.account, waiting-remove of_read t id pk.pending_reads k.reads);
      keyed = c.keyed;
    }

park_fin-Counted :
    (id reply t : ℕ) (pk : Parked) → IsKeyed pk → Counted t (one t reply) pk (park_fin id reply pk)
unfolding park_fin parked answered occ waiting HashMap.insert found
park_fin-Counted id reply t pk k =
    let old = found (λ replies. replies) (HashMap.get ℕ_discrete id pk.fin_waiters) in
    let rest = waiting (λ replies. replies) (HashMap.remove ℕ_discrete id pk.fin_waiters) in
    record {
      account = omega (
        arith,
        occ-append t (old ++ (reply ∷ [])) rest,
        occ-append t old (reply ∷ []),
        waiting-remove (λ replies. replies) t id pk.fin_waiters k.fins,
      );
      keyed = record {
        writes = k.writes;
        reads = k.reads;
        fins = Distinct-insert ℕ_discrete id (old ++ (reply ∷ [])) pk.fin_waiters k.fins;
      };
    }

pub answer_waiters-Counted :
    (id : ℕ) (r : Result (Unit {0})) (t : ℕ) (pk : Parked)
    → IsKeyed pk
    → Counted t 0 pk (answer_waiters id r pk)
unfolding answer_waiters parked answered
answer_waiters-Counted id r t pk k =
    let c =
      send_all-Counted (found (λ replies. replies) (HashMap.get ℕ_discrete id pk.fin_waiters))
        (Answer.done r) t (record pk { fin_waiters = HashMap.remove ℕ_discrete id pk.fin_waiters })
        (record {
          writes = k.writes;
          reads = k.reads;
          fins = Distinct-remove ℕ_discrete id pk.fin_waiters k.fins;
        }) in
    record {
      account =
          omega (arith, c.account, waiting-remove (λ replies. replies) t id pk.fin_waiters k.fins);
      keyed = c.keyed;
    }

-- Taking a blocked write out, with an answer or to offer it again.
pub remove_write-IsKeyed :
    (id : ℕ) (pk : Parked)
    → IsKeyed pk
    → IsKeyed (record pk { blocked_writes = HashMap.remove ℕ_discrete id pk.blocked_writes })
remove_write-IsKeyed id pk k = record {
  writes = Distinct-remove ℕ_discrete id pk.blocked_writes k.writes;
  reads = k.reads;
  fins = k.fins;
}

pub remove_read-IsKeyed :
    (id : ℕ) (pk : Parked)
    → IsKeyed pk
    → IsKeyed (record pk { pending_reads = HashMap.remove ℕ_discrete id pk.pending_reads })
remove_read-IsKeyed id pk k = record {
  writes = k.writes;
  reads = Distinct-remove ℕ_discrete id pk.pending_reads k.reads;
  fins = k.fins;
}

fail_blocked_write-Counted :
    (id : ℕ) (e : ConnError) (t : ℕ) (pk : Parked)
    → IsKeyed pk
    → Counted t 0 pk (fail_blocked_write id e pk)
unfolding fail_blocked_write parked answered
fail_blocked_write-Counted id e t pk k =
    let c =
      send_all-Counted (found of_write (HashMap.get ℕ_discrete id pk.blocked_writes))
        (Answer.done (Result.err e)) t _ (remove_write-IsKeyed id pk k) in
    record {
      account = omega (arith, c.account, waiting-remove of_write t id pk.blocked_writes k.writes);
      keyed = c.keyed;
    }

fail_pending_read-Counted :
    (id : ℕ) (e : ConnError) (t : ℕ) (pk : Parked)
    → IsKeyed pk
    → Counted t 0 pk (fail_pending_read id e pk)
unfolding fail_pending_read parked answered
fail_pending_read-Counted id e t pk k =
    let c =
      send_all-Counted (found of_read (HashMap.get ℕ_discrete id pk.pending_reads))
        (Answer.bytes (Result.err e)) t _ (remove_read-IsKeyed id pk k) in
    record {
      account = omega (arith, c.account, waiting-remove of_read t id pk.pending_reads k.reads);
      keyed = c.keyed;
    }

-- The loops keep the reply channel of what they leave blocked.
unfoldable pub KeepsWrite : ℕ → WriteEnd → Type 0
KeepsWrite reply (WriteEnd.done r) = Unit
KeepsWrite reply (WriteEnd.waits p) = p.reply ≡ reply

unfoldable pub KeepsRead : ℕ → ReadStop → Type 0
KeepsRead reply (ReadStop.done r) = Unit
KeepsRead reply (ReadStop.waits p) = p.reply ≡ reply

pub settle_write-Counted :
    (id reply : ℕ) (end : WriteEnd) (t : ℕ) (pk : Parked)
    → KeepsWrite reply end
    → IsKeyed pk
    → Counted t (one t reply) pk (settle_write id reply end pk)
unfolding settle_write KeepsWrite
settle_write-Counted id reply (WriteEnd.done r) t pk same k = send-Counted reply _ t pk k
settle_write-Counted id reply (WriteEnd.waits p) t pk same k =
    subst (λ r. Counted t (one t r) pk (park_write id p pk)) same (park_write-Counted id p t pk k)

pub settle_read-Counted :
    (id reply : ℕ) (end : ReadStop) (t : ℕ) (pk : Parked)
    → KeepsRead reply end
    → IsKeyed pk
    → Counted t (one t reply) pk (settle_read id reply end pk)
unfolding settle_read KeepsRead
settle_read-Counted id reply (ReadStop.done r) t pk same k = send-Counted reply _ t pk k
settle_read-Counted id reply (ReadStop.waits p) t pk same k =
    subst (λ r. Counted t (one t r) pk (park_read id p pk)) same (park_read-Counted id p t pk k)

pub wait_fin-Counted :
    (id reply : ℕ) (fact : Option SendFin) (t : ℕ) (pk : Parked)
    → IsKeyed pk
    → Counted t (one t reply) pk (wait_fin id reply fact pk)
unfolding wait_fin
wait_fin-Counted id reply none t pk k = send-Counted reply _ t pk k
wait_fin-Counted id reply (some SendFin.acked) t pk k = send-Counted reply _ t pk k
wait_fin-Counted id reply (some (SendFin.stopped code)) t pk k = send-Counted reply _ t pk k
wait_fin-Counted id reply (some SendFin.queued) t pk k = park_fin-Counted id reply t pk k

pub accepted-Counted :
    (reply : ℕ) (r : Result (Option ℕ)) (t : ℕ) (pk : Parked)
    → IsKeyed pk
    → Counted t (one t reply) pk (accepted reply r pk)
unfolding accepted parked answered occ
accepted-Counted reply (Result.ok (some id)) t pk k = send-Counted reply _ t pk k
accepted-Counted reply (Result.ok none) t pk k = record {
  account = omega (arith, occ-append t pk.pending_accepts (reply ∷ []));
  keyed = record { writes = k.writes; reads = k.reads; fins = k.fins };
}
accepted-Counted reply (Result.err e) t pk k = send-Counted reply _ t pk k

pub idle-Counted : (t : ℕ) (pk : Parked) → IsKeyed pk → Counted t 0 pk pk
idle-Counted t pk k = record { account = omega arith; keyed = k }

pub after_reset-Counted :
    (ok : Bool) (id t : ℕ) (pk : Parked) → IsKeyed pk → Counted t 0 pk (after_reset ok id pk)
unfolding after_reset fail_fin_waiters
after_reset-Counted false id t pk k = idle-Counted t pk k
after_reset-Counted true id t pk k =
    let a = answer_waiters-Counted id (Result.err ConnError.closed_stream) t pk k in
    then-Counted t 0 0 pk _ _ a (fail_blocked_write-Counted id _ t _ a.keyed)

pub after_stop-Counted :
    (ok : Bool) (id t : ℕ) (pk : Parked) → IsKeyed pk → Counted t 0 pk (after_stop ok id pk)
unfolding after_stop
after_stop-Counted false id t pk k = idle-Counted t pk k
after_stop-Counted true id t pk k = fail_pending_read-Counted id _ t pk k
