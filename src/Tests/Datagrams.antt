-- ===== src/Tests/Datagrams.antt =====
-- Witnesses for the endpoint, on a server of one client that receives the client's first datagram.
use quietquic.Conn.{ConnState}
use quietquic.Conn.Dirty.{StreamCall, apply}
use quietquic.Endpoint.Deadline.{next_timeout-apply}
use quietquic.Endpoint.{
  Role, ClientCrypto, Endpoint, Verdict, ConnectionId-discrete, ConnectionHandle-discrete,
  next_timeout, prune_connection_cids,
}
use quietquic.Endpoint.Admission.{
  prefilter_many, prefilter_sound, prefilter_complete, prefilter_once,
}
use quietquic.Endpoint.Datagram.{
  position, select_psk, identify, record_sighting, prefilter, feed, screen,
}
use quietquic.Endpoint.Feeding.{feed-IsLive}
use quietquic.Endpoint.Reaping.{prune_connection_cids-IsLive}
use quietquic.Endpoint.Routing.{IsLive}
use quietquic.Endpoint.Silence.{IsGuarded, Screened, screen-Screened}
use quietquic.Freshness.{now_minutes, window_minutes, is_fresh}
use quietquic.HashMap
use quietquic.HashSet
use quietquic.HashSet.{contains}
use quietquic.Net.{DatagramEvent, ConnectionId}
use quietquic.Outcome.{ConnectionHandle, DatagramOutcome}
use quietquic.Prelude.{
  ℕ, ◌+◌, ◌<◌, ◌≤◌, ◌≡◌, ◌⊎◌, inr, ◌&&◌, refl, false, not, Option, none, some, List, [], ◌∷◌, arith,
  get_elem?, subst, ℕ_discrete,
}
use mathlib.Core.Option
use quietquic.Replay.{Sighting-discrete, check_and_record}
use quietquic.Selector.{build_dcid, compute_selector, parse_dcid, selector_matches, fold_diff}
use quietquic.Selector.Bytes.{from_le_bytes}
use quietquic.Tests.{
  toy_hash, floats, toy_net, toy_quinn, idle, server_client, guard_of_client, cid_of_client,
  initial_packet,
}
use quietquic.Tests.Bytes.{packet_bytes}
use quietquic.Tests.Limits.{limiter-Tracks}
use quietquic.Transport.{peek_dcid}
use quietquic.Transport.Header.{LongHeader, peek_dcid_iff}

pub idle-IsGuarded : IsGuarded ℕ_discrete idle []
idle-IsGuarded = record { tracks = limiter-Tracks; aligned = refl }

screen-Screened_example :
    (s : Endpoint floats ℕ toy_net) × (v : Verdict) × (screen toy_hash ℕ_discrete 10
        (some 6000)
        (record { ip = 1; port = 2 })
        initial_packet
        idle
      ≡ some (s, v))
    × Screened ℕ_discrete idle s v
screen-Screened_example =
    screen-Screened toy_hash ℕ_discrete 10 (some 6000) (record { ip = 1; port = 2 }) initial_packet
      idle [] idle-IsGuarded

program : Unit {0}
unfolding prefilter record_sighting identify select_psk position selector_matches compute_selector
    build_dcid fold_diff parse_dcid from_le_bytes peek_dcid is_fresh now_minutes check_and_record
    HashSet.insert HashSet.retain HashSet.contains HashMap.get Sighting-discrete
    ConnectionId-discrete
program = tt

abbrev nonce : List ℕ
nonce = 1 ∷ 2 ∷ 3 ∷ 4 ∷ 5 ∷ 6 ∷ 7 ∷ 8 ∷ []

-- The server once it has admitted the datagram.
abbrev admitted : Endpoint floats ℕ toy_net
admitted = record idle { replay = record guard_of_client { seen = (nonce, 100) ∷ [] } ∷ [] }

admits : prefilter toy_hash (some 6000) initial_packet idle ≡ some (admitted, some 0)
unfolding program
admits = refl

prefilter_sound_example :
    (client : ClientCrypto ℕ) × (n : List ℕ) × (freshness : ℕ) × (get_elem? idle.clients 0
      ≡ some client)
    × LongHeader initial_packet (build_dcid toy_hash client.psk n freshness)
    × (now_minutes (some 6000) ≤ freshness + window_minutes)
    × (freshness ≤ now_minutes (some 6000) + window_minutes)
prefilter_sound_example =
    prefilter_sound toy_hash (some 6000) initial_packet idle admitted 0 packet_bytes admits

built : LongHeader initial_packet (build_dcid toy_hash (7 ∷ []) nonce 100)
unfolding program
built = (peek_dcid_iff initial_packet cid_of_client packet_bytes).0 refl

now_small : (now_minutes (some 6000) ≤ 100 + 2) × (100 ≤ now_minutes (some 6000) + 2)
unfolding program
now_small = (omega arith, omega arith)

unseen : contains Sighting-discrete (nonce, 100) guard_of_client.seen ≡ false
unfolding contains
unseen = refl

prefilter_complete_example :
    (s : Endpoint floats ℕ toy_net) × (prefilter toy_hash (some 6000) initial_packet idle
      ≡ some (s, some 0))
prefilter_complete_example =
    prefilter_complete toy_hash (some 6000) initial_packet idle 0 server_client guard_of_client
      nonce 100 packet_bytes built refl (omega arith) now_small.0 now_small.1 refl
      (λ j other h e. absurd (omega arith)) refl unseen

-- The client sends again in minute 102, after something else has been seen.
junk_seen : prefilter_many toy_hash ((some 6060, 1 ∷ 2 ∷ []) ∷ []) admitted ≡ some admitted
unfolding program prefilter_many
junk_seen = refl

in_order : now_minutes (some 6060) ≤ now_minutes (some 6120)
unfolding now_minutes
in_order = omega arith

prefilter_once_example :
    (u : Endpoint floats ℕ toy_net) × (prefilter toy_hash (some 6120) initial_packet admitted
      ≡ some (u, none))
prefilter_once_example =
    prefilter_once toy_hash (some 6000) (some 6120) initial_packet initial_packet idle admitted
      admitted 0 ((some 6060, 1 ∷ 2 ∷ []) ∷ []) refl (refl, tt) admits junk_seen (in_order, tt) refl

pub idle-IsLive : IsLive idle
unfolding contains HashMap.get
idle-IsLive = record {
  routed = λ cid issued. absurd (ground arith);
  older = λ ch live. absurd (ground arith);
}

only_client : (i : ℕ) → Path (Option ℕ) (some 0) (some i) → i < 1
only_client i e = ground arith

feed-IsLive_example :
    (s : Endpoint floats ℕ toy_net) × (o : DatagramOutcome) × (feed 10
        (record { ip = 1; port = 2 })
        initial_packet
        (some 0)
        idle
      ≡ some (s, o))
    × IsLive s
    × ((s.pending_cids ≡ [])
        ⊎ (Path (Option ℕ) (some 0) none
            × (idle.role ≡ Role.server)
            × ((incoming : ℕ) × Path
                  (Option (DatagramEvent ℕ ℕ))
                  (some (DatagramEvent.new_connection 0))
                  (some (DatagramEvent.new_connection incoming)))))
feed-IsLive_example =
    feed-IsLive 10 (record { ip = 1; port = 2 }) initial_packet (some 0) idle idle-IsLive
      (omega arith) only_client

abbrev pub allocated : Endpoint floats ℕ toy_net
allocated = record idle {
  next_generation = 2;
  by_quinn = (0, record { quinn = 0; generation = 1 }) ∷ [];
}

-- The connection of the first handle is lost, and quinn gives out its slab index again.
abbrev vacated : Endpoint floats ℕ toy_net
vacated = record allocated { connections = [] }

abbrev reallocated : Endpoint floats ℕ toy_net
reallocated = record idle {
  next_generation = 3;
  by_quinn = (0, record { quinn = 0; generation = 2 }) ∷ [];
}

-- A server with one connection that has one connection ID.
abbrev pub handle : ConnectionHandle
handle = record { quinn = 0; generation = 1 }

abbrev pub serving : Endpoint floats ℕ toy_net
serving = record allocated {
  issued_cids = (1 ∷ []) ∷ [];
  cids_by_conn = (handle, (1 ∷ []) ∷ []) ∷ [];
  connections =
      (
        handle,
        record {
          conn = record { events = []; accepts = []; bytes = [] };
          ready_accepts = [];
          finished_reads = [];
          send_fins = [];
          dirty = false;
        },
      )
      ∷ [];
}

pub serving-IsLive : IsLive serving
unfolding contains HashMap.get ConnectionHandle-discrete
serving-IsLive = record {
  routed = λ cid issued. inr (handle, (1 ∷ []) ∷ [], refl, issued, refl);
  older = λ ch live. elim (ConnectionHandle-discrete handle ch) [
    | yes same ↦ subst (λ (h : ConnectionHandle). h.generation < 2) same (omega arith)
    | no other ↦ absurd (ground arith)
  ];
}

prune_connection_cids-IsLive_example :
    let s = prune_connection_cids handle (record serving {
      connections = HashMap.remove ConnectionHandle-discrete handle serving.connections;
    }) in
    IsLive s
    × ((cid : ConnectionId)
        → contains ConnectionId-discrete cid s.issued_cids ≡ (
            contains ConnectionId-discrete cid serving.issued_cids
            && not (
                contains ConnectionId-discrete cid (
                  Option.get_or
                    (HashMap.get ConnectionHandle-discrete handle serving.cids_by_conn)
                    []))))
prune_connection_cids-IsLive_example = prune_connection_cids-IsLive handle serving serving-IsLive

abbrev quiet : ConnState toy_quinn
quiet = record {
  conn = record { events = []; accepts = []; bytes = [] };
  ready_accepts = [];
  finished_reads = [];
  send_fins = [];
  dirty = false;
}

served : HashMap.get ConnectionHandle-discrete handle serving.connections ≡ some quiet
unfolding HashMap.get ConnectionHandle-discrete
served = refl

abbrev orphaned : Endpoint floats ℕ toy_net
orphaned = record serving { issued_cids = (2 ∷ []) ∷ (1 ∷ []) ∷ []; pending_cids = (2 ∷ []) ∷ [] }

-- The caller writes to a stream of that connection, after a servicing pass at instant 9.
next_timeout-apply_example :
    (next_timeout (record serving {
      last_service = some 9;
      connections =
          HashMap.modify ConnectionHandle-discrete handle
            (apply toy_net.quinn (StreamCall.write 4 (1 ∷ [])))
            serving.connections;
    })
      ≡ some 9)
    ⊎ (apply toy_net.quinn (StreamCall.write 4 (1 ∷ [])) quiet ≡ quiet)
next_timeout-apply_example =
    next_timeout-apply (StreamCall.write 4 (1 ∷ [])) handle quiet
      (record serving { last_service = some 9 }) 9 served refl
