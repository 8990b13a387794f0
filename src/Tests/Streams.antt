-- ===== src/Tests/Streams.antt =====
-- Witnesses for the bookkeeping of streams, on a scripted connection.
use quietquic.Conn.{
  ConnState, SendFin, Result, is_settled, send_fin, no_progress, stream_read, service_streams,
}
use quietquic.Conn.Delivered.{Delivered, stream_read-Delivered}
use quietquic.Conn.Dirty.{StreamCall}
use quietquic.Conn.Drained.{Polls, Reported, AnyEnds, service_streams-Drained}
use quietquic.Conn.Ends.{Use, Spares, after_all, stream_read_later}
use quietquic.Conn.Read.{ReadContract}
use quietquic.Conn.Service.{reports, known_end, service_streams_once, service_streams_queue}
use quietquic.Outcome.{ReadOutcome}
use quietquic.Prelude.{ℕ, All, List, arith, ◌+◌, ◌≡◌, refl, true, false, [], ◌∷◌, ◌++◌}
use quietquic.Quinn.{QuinnEvent}
use quietquic.Tests.{toy_quinn}

abbrev busy : ConnState toy_quinn
busy = record {
  conn = record {
    events =
        QuinnEvent.connected
        ∷ QuinnEvent.opened_bi
        ∷ QuinnEvent.finished 4
        ∷ QuinnEvent.stopped 4 1
        ∷ [];
    accepts = 1 ∷ 5 ∷ [];
    bytes = 9 ∷ 8 ∷ [];
  };
  ready_accepts = [];
  finished_reads = [];
  send_fins = (4, SendFin.queued) ∷ [];
  dirty = false;
}

abbrev drained : ConnState toy_quinn
drained = record busy { conn = record { events = []; accepts = []; bytes = [] } }

stream_read-Delivered_example :
    let r = stream_read toy_quinn 0 (0 ∷ 0 ∷ 0 ∷ []) busy in
    Delivered toy_quinn 0 (0 ∷ 0 ∷ 0 ∷ []) busy r
    × ReadContract toy_quinn 0 (0 ∷ 0 ∷ 0 ∷ []) r.1 busy r.0 r.2
stream_read-Delivered_example = stream_read-Delivered toy_quinn 0 (0 ∷ 0 ∷ 0 ∷ []) busy

at_end : (stream_read toy_quinn 0 (0 ∷ []) drained).2 ≡ Result.ok ReadOutcome.finished
unfolding stream_read
at_end = refl

abbrev uses : List Use
uses =
    Use.call (StreamCall.reset 4 1)
    ∷ Use.services
    ∷ Use.call (StreamCall.write 0 (1 ∷ []))
    ∷ Use.forgets_send 0
    ∷ []

uses-Spares : All (Spares 0) uses
unfolding Spares
uses-Spares = ((λ same. absurd (omega (arith, same))), (tt, (tt, (tt, tt))))

stream_read_later_example :
    let s = after_all toy_quinn uses (stream_read toy_quinn 0 (0 ∷ []) drained).0 in
    stream_read toy_quinn 0 (7 ∷ 7 ∷ []) s ≡ (s, 7 ∷ 7 ∷ [], Result.ok ReadOutcome.finished)
stream_read_later_example =
    stream_read_later toy_quinn 0 (0 ∷ []) (7 ∷ 7 ∷ []) drained uses at_end uses-Spares

service_streams_once_example :
    let r = service_streams toy_quinn busy in
    (reports 4 r.1 + known_end toy_quinn 4 busy ≡ known_end toy_quinn 4 r.0)
    × (is_settled (send_fin toy_quinn 4 busy) ≡ true
        → send_fin toy_quinn 4 r.0 ≡ send_fin toy_quinn 4 busy)
service_streams_once_example = service_streams_once toy_quinn busy 4

service_streams_queue_example :
    let r = service_streams toy_quinn busy in
    (r.0.ready_accepts ≡ busy.ready_accepts ++ r.1.opened)
    × (r.0.finished_reads ≡ busy.finished_reads)
    × (r.0.dirty ≡ busy.dirty)
service_streams_queue_example = service_streams_queue toy_quinn busy

service_streams-Drained_example :
    (es : List QuinnEvent) × (ids : List ℕ) × Polls toy_quinn busy.conn es ids
      (service_streams toy_quinn busy).0.conn
    × Reported toy_quinn es ids no_progress (service_streams toy_quinn busy).1
    × ((id : ℕ)
        → AnyEnds id es
        → is_settled (send_fin toy_quinn id (service_streams toy_quinn busy).0) ≡ true)
service_streams-Drained_example = service_streams-Drained toy_quinn busy
