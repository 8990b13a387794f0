-- ===== src/Tests/Waits.antt =====
-- Witnesses for the parked operations, on a scripted connection.
use quietquic.Conn.{ConnState}
use quietquic.Parked.{Cmd}
use quietquic.Parked.Answers.{Step}
use quietquic.Parked.Limits.{IsRead, Within, pump_read-Within}
use quietquic.Parked.Loops.{pump_read-enough, pump_write-enough}
use quietquic.Parked.Pump.{
  PendingRead, PendingWrite, pump_read, pump_write, read_rounds, write_rounds,
}
use quietquic.Prelude.{ℕ, false, ◌≡◌, none, some, List, [], ◌∷◌, arith}
use quietquic.Tests.{Script, toy_quinn}

abbrev busy : ConnState toy_quinn
busy = record {
  conn = record { events = []; accepts = []; bytes = 9 ∷ 8 ∷ [] };
  ready_accepts = [];
  finished_reads = [];
  send_fins = [];
  dirty = false;
}

abbrev keep : ℕ → ℕ → List ℕ → Script → Script
keep now code reason c = c

-- Two accepts that wait, a read, and a stream that the peer opens.
abbrev steps : List (Step ℕ × ConnState toy_quinn)
steps =
    (Step.cmd 10 (Cmd.accept_bi 100), busy)
    ∷ (Step.cmd 10 (Cmd.accept_bi 101), busy)
    ∷ (Step.cmd 11 (Cmd.read_to_end 0 1 102), busy)
    ∷ (
      Step.stream_opened,
      record busy { conn = record { events = []; accepts = 1 ∷ []; bytes = [] } },
    )
    ∷ []

abbrev to_end : PendingRead
to_end = record { buf = []; end_limit = some 1; max_len = none; reply = 102 }

to_end-IsRead : IsRead to_end
unfolding IsRead
to_end-IsRead = omega arith

pump_read-Within_example : Within none (some 1) (pump_read toy_quinn 3 0 to_end busy).1
pump_read-Within_example = pump_read-Within toy_quinn 0 3 to_end busy to_end-IsRead

pump_read-enough_example :
    pump_read toy_quinn (read_rounds to_end) 0 to_end busy ≡ pump_read toy_quinn 9 0 to_end busy
pump_read-enough_example =
    pump_read-enough toy_quinn 0 (read_rounds to_end) 9 to_end busy to_end-IsRead (omega arith)
      (omega arith)

abbrev unsent : PendingWrite
unsent = record { contents = 1 ∷ 2 ∷ 3 ∷ []; offset = 1; reply = 103 }

pump_write-enough_example :
    pump_write toy_quinn (write_rounds unsent) 0 unsent busy ≡ pump_write toy_quinn 9 0 unsent busy
pump_write-enough_example =
    pump_write-enough toy_quinn 0 (write_rounds unsent) 9 unsent busy (omega arith) (omega arith)
