-- ===== src/Parked/Drops.antt =====
-- src/conn.rs: a reply channel is dropped without an answer only where a parked operation is replaced.
use quietquic.Conn
use quietquic.Conn.{ConnState}
use quietquic.HashMap
use quietquic.Parked.{Answer, Cmd, Parked}
use quietquic.Parked.Answers.{Step, step}
use quietquic.Prelude.{ℕ, ◌+◌, Option, none, some, List, [], ◌∷◌, ℕ_discrete}
use quietquic.Quinn.{Quinn}

pub lost : Answer → ℕ
lost Answer.dropped = 1
lost _ = 0

-- How many entries of a log are drops.
pub drops_in : List (ℕ × Answer) → ℕ
drops_in [] = 0
drops_in ((reply, answer) ∷ log) = lost answer + drops_in log

pub drops : Parked → ℕ
drops pk = drops_in pk.sent

pub one_if : {V : Type 0} → Option V → ℕ
one_if none = 0
one_if (some v) = 1

-- How many operations of its stream a command finds parked that it may replace: a write another
-- write, and a read another read.
pub replaces : Cmd → Parked → ℕ
replaces (Cmd.write id contents reply) pk = one_if (HashMap.get ℕ_discrete id pk.blocked_writes)
replaces (Cmd.read_to_end id limit reply) pk = one_if (HashMap.get ℕ_discrete id pk.pending_reads)
replaces (Cmd.read id most reply) pk = one_if (HashMap.get ℕ_discrete id pk.pending_reads)
replaces _ pk = 0

module _ (quinn : Quinn) {Instant : Type 0}
    (close_conn : Instant → ℕ → List ℕ → quinn.Connection → quinn.Connection) where
  -- The replacements of a whole run.
  pub replacements : List (Step Instant × ConnState quinn) → Parked → ℕ
  replacements [] pk = 0
  replacements ((Step.cmd now c, s) ∷ steps) pk =
      replaces c pk + replacements steps (step quinn close_conn (Step.cmd now c) s pk)
  replacements ((st, s) ∷ steps) pk = replacements steps (step quinn close_conn st s pk)
