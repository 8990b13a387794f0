-- ===== src/Tests/Drives.antt =====
-- Witnesses for the calls of the driver, on a server of one client.
use quietquic.Conn.{ConnState, service_streams, is_drained, clear_dirty}
use quietquic.Endpoint.{
  Endpoint, any_dirty, next_timeout, ConnectionHandle-discrete, read_dcid_any, sweep_orphan_cids,
}
use quietquic.Endpoint.Servicing.{reap, lost_reason, progress_events}
use quietquic.Endpoint.Clean.{AllFlushed, poll_transmit-settled}
use quietquic.Endpoint.Datagram.{is_active_dcid}
use quietquic.Endpoint.Drive.{handle_datagram, poll_transmit}
use quietquic.Endpoint.Pass.{service_connections}
use quietquic.Endpoint.Exhausted.{Exhausted}
use quietquic.Endpoint.Rounds.{service_connections-IsLive}
use quietquic.Endpoint.Routing.{IsLive}
use quietquic.Endpoint.Unanswered.{IsForeign, handle_datagram_silent}
use quietquic.Freshness.{now_minutes}
use quietquic.HashMap
use quietquic.HashSet
use quietquic.Outcome.{ConnectionHandle, DatagramOutcome}
use quietquic.Prelude.{ℕ, ◌≡◌, refl, true, false, none, some, List, [], ◌∷◌, arith, ℕ_discrete, leb}
use quietquic.Tests.{toy_hash, floats, toy_net, toy_quinn, idle}
use quietquic.Tests.Datagrams.{idle-IsGuarded, serving, serving-IsLive}
use quietquic.Transport.{peek_dcid}
use quietquic.Transport.Header.{peek_dcid_iff}

abbrev stray : List ℕ
stray = 192 ∷ 2 ∷ []

stray-IsForeign : IsForeign toy_hash idle.clients (now_minutes (some 6000)) stray
unfolding IsForeign peek_dcid
stray-IsForeign i client nonce freshness at early late header =
    ground (arith, (peek_dcid_iff stray _ (omega arith, (omega arith, tt))).1 header)

inactive : is_active_dcid stray idle ≡ false
unfolding is_active_dcid peek_dcid HashSet.contains read_dcid_any
inactive = refl

handle_datagram_silent_example :
    (s : Endpoint floats ℕ toy_net) × (handle_datagram toy_hash ℕ_discrete 10
        (some 6000)
        (record { ip = 1; port = 2 })
        stray
        idle
      ≡ some (s, DatagramOutcome.dropped))
    × (s ≡ record idle { rate_limiter = s.rate_limiter })
handle_datagram_silent_example =
    handle_datagram_silent toy_hash ℕ_discrete 10 (some 6000) (record { ip = 1; port = 2 }) stray
      idle [] idle-IsGuarded refl inactive (omega arith, (omega arith, tt)) stray-IsForeign

service_connections-IsLive_example :
    IsLive (service_connections 12 serving) × ((service_connections 12 serving).pending_cids ≡ [])
service_connections-IsLive_example = service_connections-IsLive 12 serving serving-IsLive

-- A servicing pass has nothing to send, and the connection's timer stands at 20.
abbrev serviced : Endpoint floats ℕ toy_net
serviced = record serving { last_service = some 12; next_timeout = some 20 }

answers_nothing : poll_transmit 12 serving ≡ (serviced, none)
unfolding poll_transmit service_connections sweep_orphan_cids reap HashMap.get
    ConnectionHandle-discrete HashMap.modify lost_reason service_streams is_drained
    HashSet.remove_all clear_dirty progress_events
answers_nothing = refl

poll_transmit-settled_example :
    (serviced.outbound ≡ [])
    × AllFlushed toy_net 12 serviced.connections
    × (any_dirty serviced.connections ≡ false)
    × ((ch : ConnectionHandle) (state : ConnState toy_quinn) (t : ℕ)
        → HashMap.get ConnectionHandle-discrete ch serviced.connections ≡ some state
        → (toy_net.poll_timeout state.conn).0 ≡ some t
        → (d : ℕ) × (next_timeout serviced ≡ some d) × (leb d t ≡ true))
poll_transmit-settled_example = poll_transmit-settled 12 serving serviced answers_nothing
