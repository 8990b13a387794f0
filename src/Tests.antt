-- ===== src/Tests.antt =====
-- Concrete stand-ins for what the program does not define, and data for the tests: floats and
-- instants are natural numbers, the hash repeats the first byte of its key, a connection of quinn is
-- a script of what it will report.

pub mod Bytes
pub mod Limits
pub mod Streams
pub mod Datagrams
pub mod Drives
pub mod Keys
pub mod Servers
pub mod Setups
pub mod Waits
use quietquic.Conn.{ConnState, SendFin}
use quietquic.Endpoint.{Role, ClientCrypto, Endpoint}
use quietquic.Net.{DatagramEvent, Net}
use quietquic.Prelude.{
  ℕ, zero, suc, ◌+◌, ◌*◌, ◌-◌, ◌<◌, ◌≤◌, ◌≡◌, ◌⊎◌, ◌↔◌, min, refl, true, false, Bool, Option, none,
  some, List, [], ◌∷◌, arith, leb, ltb, length, take, drop, replicate, length-take, ap, ℕ_discrete,
}
use quietquic.Quinn.{Quinn, Next, Readable, WriteResult, FinishResult, QuinnEvent}
use quietquic.RateLimit.{RateLimiter, with_params}
use quietquic.RateLimit.Bucket.{Floats, TokenBucket}
use quietquic.Replay.{ReplayGuard}
use quietquic.Selector.{Blake3}

pub one_le_iff : (x : ℕ) → (leb 1 x ≡ true) ↔ (1 ≤ x)
one_le_iff x = ground arith

pub none_since : (t : ℕ) → ltb 0 (t - t) ≡ false
none_since t = ground arith

abbrev pub floats : Floats
floats = record {
  F = ℕ;
  Instant = ℕ;
  zero_f = 0;
  one_f = 1;
  of_nat = λ n. n;
  add = λ x y. x + y;
  sub = λ x y. x - y;
  mul = λ x y. x * y;
  min_f = λ x y. min x y;
  lt = ltb;
  le = leb;
  seconds_since = λ now last. now - last;
  floor = λ x. x;
  le-one_iff = one_le_iff;
  floor-sub_one = λ x h b. omega arith;
  floor-min_le = λ x y. omega arith;
  floor-of_nat = λ n h. refl;
  since_self = none_since;
}

abbrev pub first_or_zero : List ℕ → ℕ
first_or_zero [] = 0
first_or_zero (x ∷ xs) = x

abbrev pub toy_hash : Blake3
toy_hash = record {
  keyed_hash = λ key input. replicate 32 (first_or_zero key);
  length-keyed_hash = λ key input. refl;
}

-- What a connection of the toy still has to report, and the bytes of its one stream.
pub record Script : Type 0 where
  pub events : List QuinnEvent
  pub accepts : List ℕ
  pub bytes : List ℕ

abbrev pub poll_from : List QuinnEvent → Script → Option QuinnEvent × Script
poll_from [] s = (none, s)
poll_from (e ∷ es) s = (some e, record s { events = es })

abbrev pub accept_from : List ℕ → Script → Option ℕ × Script
accept_from [] s = (none, s)
accept_from (id ∷ ids) s = (some id, record s { accepts = ids })

-- Chunks of the stream: as many bytes as were asked for, and its end when none is left.
abbrev pub next_from : ℕ → List ℕ → Script → Next × Script
next_from max [] s = (Next.fin, s)
next_from max (b ∷ bs) s = (Next.chunk (take max (b ∷ bs)), record s { bytes = drop max (b ∷ bs) })

-- How many events and how many streams are left.
abbrev pub left : {A : Type 0} → List A → ℕ
left xs = length xs

pub next_from-bounds :
    (max : ℕ) (all_ : List ℕ) (s s' : Script) (bytes : List ℕ)
    → next_from max all_ s ≡ (Next.chunk bytes, s')
    → 0 < max
    → (0 < length bytes) × (length bytes ≤ max)
next_from-bounds max [] s s' bytes e h = absurd (ground arith)
next_from-bounds zero (b ∷ bs) s s' bytes e h = absurd (omega arith)
next_from-bounds (suc max) (b ∷ bs) s s' bytes e h =
    let same : b ∷ take max bs ≡ bytes = ground arith in
    omega (arith, ap (length {0}) same, length-take max bs)

pub poll_from-consumes :
    (all_ : List QuinnEvent) (s s' : Script) (e : QuinnEvent)
    → s.events ≡ all_
    → poll_from all_ s ≡ (some e, s')
    → length s'.events < length s.events
poll_from-consumes [] s s' e h k = absurd (ground arith)
poll_from-consumes (x ∷ xs) s s' e h k =
    omega (
      arith,
      ap {B = ℕ} (λ (r : Option QuinnEvent × Script). length r.1.events) k,
      ap (length {0}) h,
    )

pub accept_from-consumes :
    (all_ : List ℕ) (s s' : Script) (id : ℕ)
    → s.accepts ≡ all_
    → accept_from all_ s ≡ (some id, s')
    → length s'.accepts < length s.accepts
accept_from-consumes [] s s' id h k = absurd (ground arith)
accept_from-consumes (x ∷ xs) s s' id h k =
    omega (arith, ap {B = ℕ} (λ (r : Option ℕ × Script). length r.1.accepts) k, ap (length {0}) h)

pub accept_from-events :
    (all_ : List ℕ) (s s' : Script) (r : Option ℕ)
    → accept_from all_ s ≡ (r, s')
    → length s'.events ≤ length s.events
accept_from-events [] s s' r k =
    omega (arith, ap {B = ℕ} (λ (r : Option ℕ × Script). length r.1.events) k)
accept_from-events (x ∷ xs) s s' r k =
    omega (arith, ap {B = ℕ} (λ (r : Option ℕ × Script). length r.1.events) k)

pub wrote_all :
    (bytes : List ℕ) (c c' : Script) (n : ℕ)
    → Path (WriteResult × Script) (WriteResult.ok (length bytes), c) (WriteResult.ok n, c')
    → n ≤ length bytes
wrote_all bytes c c' n e = ground arith

pub wrote_some :
    (bytes : List ℕ) (c c' : Script) (n : ℕ)
    → Path (WriteResult × Script) (WriteResult.ok (length bytes), c) (WriteResult.ok n, c')
    → 0 < length bytes
    → 0 < n
wrote_some bytes c c' n e h = ground arith

abbrev pub toy_quinn : Quinn
toy_quinn = record {
  Connection = Script;
  Chunks = Script;
  is_closed = λ c. false;
  is_drained = λ c. false;
  open_bi = λ c. (some 4, c);
  accept_bi = λ c. accept_from c.accepts c;
  read = λ id c. (Readable.ok c, c);
  next = λ max c. next_from max c.bytes c;
  finalize = λ c. c;
  write = λ id bytes c. (WriteResult.ok (length bytes), c);
  finish = λ id c. (FinishResult.ok, c);
  reset = λ id code c. (true, c);
  stop = λ id code c. (true, c);
  poll = λ c. poll_from c.events c;
  varint_from_u64 = λ n. some n;
  events_left = λ c. length c.events;
  streams_left = λ c. length c.accepts;
  next_bounds = λ max c c' bytes e h. next_from-bounds max c.bytes c c' bytes e h;
  write_bound = λ id bytes c c' n e. wrote_all bytes c c' n e;
  write_progress = λ id bytes c c' n e h. wrote_some bytes c c' n e h;
  poll_consumes = λ c c' e k. poll_from-consumes c.events c c' e refl k;
  accept_consumes = λ c c' id k. accept_from-consumes c.accepts c c' id refl k;
  accept_events = λ c c' r k. accept_from-events c.accepts c c' r k;
}

pub leb_total : (t u : ℕ) → (leb t u ≡ true) ⊎ (leb u t ≡ true)
leb_total t u = ground arith

pub leb_trans : (t u v : ℕ) → leb t u ≡ true → leb u v ≡ true → leb t v ≡ true
leb_trans t u v h k = ground arith

pub none_left : 0 ≤ 0
none_left = omega arith

pub nothing_polled :
    {A : Type 0} (c c' : Script) (a : A) → Path (Option A × Script) (none, c) (some a, c') → 0 < 0
nothing_polled c c' a h = absurd (ground arith)

-- Every datagram asks for a connection; accepting it mints one connection ID.
abbrev pub toy_net : Net ℕ ℕ
toy_net = record {
  quinn = toy_quinn;
  Inner = ℕ;
  ServerConfig = ℕ;
  Incoming = ℕ;
  ConnectionEvent = ℕ;
  EndpointEvent = ℕ;
  set_server_config = λ config inner. config;
  handle = λ now from datagram inner.
      (record { event = some (DatagramEvent.new_connection 0); resp = []; minted = [] }, inner);
  accept = λ incoming now inner. (
    record {
      connection = some (0, record { events = []; accepts = []; bytes = [] });
      buf = 5 ∷ [];
      minted = (1 ∷ 2 ∷ 3 ∷ 4 ∷ 5 ∷ 6 ∷ 7 ∷ 8 ∷ []) ∷ [];
    },
    inner,
  );
  remote_address = λ c. record { ip = 1; port = 2 };
  on_connection_event = λ event c. c;
  handle_event = λ ch event inner. (record { event = none; minted = [] }, inner);
  poll_endpoint_events = λ c. (none, c);
  poll_transmit = λ now c. (none, c);
  poll_timeout = λ c. (some 20, c);
  handle_timeout = λ now c. c;
  le = leb;
  endpoint_events_left = λ c. 0;
  transmits_left = λ now c. 0;
  poll_endpoint_events_consumes = λ c c' e h. nothing_polled c c' e h;
  answer_events = λ ch ev inner cev c e. none_left;
  poll_transmit_consumes = λ now c c' t h. nothing_polled c c' t h;
  poll_timeout_reads = λ c. refl;
  le_total = leb_total;
  le_trans = leb_trans;
}

abbrev pub server_client : ClientCrypto ℕ
server_client = record { client_id = "a"; psk = 7 ∷ []; server_config = 3 }

-- A limiter of three packets for the server and two for each source, which tracks two sources.
abbrev pub limiter : RateLimiter floats ℕ
limiter = with_params floats ℕ_discrete 3 1 2 1 2

abbrev pub guard_of_client : ReplayGuard
guard_of_client = record { window = 2; seen = [] }

-- A server of one client before its first datagram.
abbrev pub idle : Endpoint floats ℕ toy_net
idle = record {
  inner = 0;
  role = Role.server;
  clients = server_client ∷ [];
  replay = guard_of_client ∷ [];
  rate_limiter = limiter;
  issued_cids = [];
  pending_cids = [];
  cids_by_conn = [];
  connections = [];
  client_ids = [];
  by_quinn = [];
  next_generation = 1;
  outbound = [];
  events = [];
  next_timeout = none;
  last_service = none;
}

-- What the client of the key sends in minute 100, and its connection ID.
abbrev pub cid_of_client : List ℕ
cid_of_client = 1 ∷ 2 ∷ 3 ∷ 4 ∷ 5 ∷ 6 ∷ 7 ∷ 8 ∷ 100 ∷ 0 ∷ 0 ∷ 0 ∷ 7 ∷ 7 ∷ 7 ∷ 7 ∷ 7 ∷ 7 ∷ 7 ∷ 7 ∷ []

abbrev pub initial_packet : List ℕ
initial_packet = 192 ∷ 0 ∷ 0 ∷ 0 ∷ 1 ∷ 20 ∷ cid_of_client
