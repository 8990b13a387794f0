-- ===== src/Tests/Servers.antt =====
-- Witnesses for the driver of a server, whose one connection is surfaced, used, and lost.
use quietquic.Outcome.{ConnectionHandle, ConnectionError, Event}
use quietquic.Parked.{Cmd}
use quietquic.Prelude.{ℕ, List, [], ◌∷◌}
use quietquic.Server.{Input, new, on_lost, run}
use quietquic.Server.Retained.{Retains, IsForgotten, run-Retains}
use quietquic.Tests.{floats, toy_net}
use quietquic.Tests.Datagrams.{serving}

abbrev first : ConnectionHandle
first = record { quinn = 0; generation = 1 }

abbrev inputs : List (Input floats ℕ toy_net)
inputs =
    Input.event (Event.connected first)
    ∷ Input.command 11 first (Cmd.write 4 (1 ∷ []) 20)
    ∷ Input.event (Event.stream_writable first 4)
    ∷ []

run-Retains_example :
    Retains (run (λ now code reason c. c) inputs (new serving))
    × IsForgotten first (
        on_lost first ConnectionError.timed_out (run (λ now code reason c. c) inputs (new serving)))
run-Retains_example =
    run-Retains (λ now code reason c. c) inputs serving first ConnectionError.timed_out
