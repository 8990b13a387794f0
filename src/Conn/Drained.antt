-- ===== src/Conn/Drained.antt =====
-- `service_streams` of proto/src/conn.rs against the events that quinn answers: each of them is polled,
-- and reported in its order.
use quietquic.HashMap.{get-insert}
use quietquic.Prelude.{
  ℕ, zero, suc, ◌≤◌, ◌<◌, ◌≡◌, ◌⊎◌, refl, ap, sym, subst, ◌∙◌, Bool, true, false, ◌||◌, Option,
  none, some, List, [], ◌∷◌, ◌++◌, arith, ℕ_discrete, Bool-cases, inl, inr,
}
use quietquic.Quinn.{Quinn, QuinnEvent}
use quietquic.Conn.{
  SendFin, ConnProgress, no_progress, ConnState, is_terminal, is_settled, send_fin, record_send_fin,
  on_accept, accept_loop, on_finished, on_stopped, on_event, on_poll, service_loop, service_streams,
}
use quietquic.Conn.Service.{service_loop-Serviced}
use quietquic.Outcome.{ConnectionError, from_quinn}
use mathlib.Core.List.{append-nil, append_assoc}

-- What a list of events says of the handshake, of the loss, and of the streams.
pub any_connected : List QuinnEvent → Bool
any_connected [] = false
any_connected (QuinnEvent.connected ∷ es) = true
any_connected (e ∷ es) = any_connected es

pub last_lost : Option ConnectionError → List QuinnEvent → Option ConnectionError
last_lost lost [] = lost
last_lost lost (QuinnEvent.connection_lost reason ∷ es) = last_lost (some (from_quinn reason)) es
last_lost lost (e ∷ es) = last_lost lost es

pub readables : List QuinnEvent → List ℕ
readables [] = []
readables (QuinnEvent.readable id ∷ es) = id ∷ readables es
readables (e ∷ es) = readables es

pub writables : List QuinnEvent → List ℕ
writables [] = []
writables (QuinnEvent.writable id ∷ es) = id ∷ writables es
writables (e ∷ es) = writables es

-- The event is the end of the send half.
pub Ends : ℕ → QuinnEvent → Type 0
Ends id (QuinnEvent.finished j) = j ≡ id
Ends id (QuinnEvent.stopped j code) = j ≡ id
Ends id _ = ⊥

pub AnyEnds : ℕ → List QuinnEvent → Type 0
AnyEnds id [] = ⊥
AnyEnds id (e ∷ es) = Ends id e ⊎ AnyEnds id es

module _ (quinn : Quinn) where
  -- quinn answers these streams, one after the other, and then none.
  pub data Accepts : quinn.Connection → List ℕ → quinn.Connection → Type 0 where
    no_stream : (c d : quinn.Connection) → quinn.accept_bi c ≡ (none, d) → Accepts c [] d
    stream :
        (c c' d : quinn.Connection) (id : ℕ) (ids : List ℕ)
        → quinn.accept_bi c ≡ (some id, c')
        → Accepts c' ids d
        → Accepts c (id ∷ ids) d

  -- What is called between two polls.
  pub Between : QuinnEvent → quinn.Connection → List ℕ → quinn.Connection → Type 0
  Between QuinnEvent.opened_bi c ids d = Accepts c ids d
  Between _ c ids d = (ids ≡ []) × (d ≡ c)

  -- quinn answers these events, one after the other, and then none; the streams are those that it
  -- answers when it has reported that there are some.
  pub data Polls : quinn.Connection → List QuinnEvent → List ℕ → quinn.Connection → Type 0 where
    no_event : (c d : quinn.Connection) → quinn.poll c ≡ (none, d) → Polls c [] [] d
    polled :
        (c c' c'' d : quinn.Connection) (e : QuinnEvent) (es : List QuinnEvent) (ids ids' : List ℕ)
        → quinn.poll c ≡ (some e, c')
        → Between e c' ids c''
        → Polls c'' es ids' d
        → Polls c (e ∷ es) (ids ++ ids') d

  -- The progress reports the events and the streams.
  pub record Reported (es : List QuinnEvent) (ids : List ℕ) (p p' : ConnProgress) : Type 0 where
    pub connected : p'.connected ≡ (p.connected || any_connected es)
    pub lost : p'.lost ≡ last_lost p.lost es
    pub streams : p'.opened ≡ p.opened ++ ids
    pub readable : p'.readable ≡ p.readable ++ readables es
    pub writable : p'.writable ≡ p.writable ++ writables es

  on_accept-Accepts :
      (rounds : ℕ) (s : ConnState quinn) (p : ConnProgress) (conn : quinn.Connection)
      (answer : Option ℕ) (again : ConnState quinn → ConnProgress → ConnState quinn × ConnProgress)
      → ((t : ConnState quinn) (q : ConnProgress)
          → quinn.streams_left t.conn < rounds
          → (ids : List ℕ) × Accepts t.conn ids (again t q).0.conn
            × ((again t q).1 ≡ record q { opened = q.opened ++ ids }))
      → quinn.streams_left s.conn < suc rounds
      → quinn.accept_bi s.conn ≡ (answer, conn)
      → let r = on_accept quinn again (record s { conn = conn }) p answer in
        (ids : List ℕ) × Accepts s.conn ids r.0.conn × (r.1 ≡ record p { opened = p.opened ++ ids })
  unfolding on_accept
  on_accept-Accepts rounds s p conn none again h n e =
      ([], no_stream s.conn conn e, ap (λ l. record p { opened = l }) (sym (append-nil p.opened)))
  on_accept-Accepts rounds s p conn (some id) again h n e =
      let (ids, accepts, same) =
        h (record s { conn = conn; ready_accepts = s.ready_accepts ++ (id ∷ []) })
          (record p { opened = p.opened ++ (id ∷ []) })
          (omega (arith, quinn.accept_consumes s.conn conn id e, n)) in
      (
        id ∷ ids,
        stream s.conn conn _ id ids e accepts,
        same ∙ ap (λ l. record p { opened = l }) (append_assoc p.opened (id ∷ []) ids),
      )

  accept_loop-Accepts :
      (rounds : ℕ) (s : ConnState quinn) (p : ConnProgress)
      → quinn.streams_left s.conn < rounds
      → (ids : List ℕ) × Accepts s.conn ids (accept_loop quinn rounds s p).0.conn
        × ((accept_loop quinn rounds s p).1 ≡ record p { opened = p.opened ++ ids })
  unfolding accept_loop
  accept_loop-Accepts zero s p n = absurd (omega arith)
  accept_loop-Accepts (suc rounds) s p n =
      on_accept-Accepts rounds s p (quinn.accept_bi s.conn).1 (quinn.accept_bi s.conn).0
        (accept_loop quinn rounds) (accept_loop-Accepts rounds) n refl

  -- A step that reports one event which opens no stream.
  alone :
      (e : QuinnEvent) (p p' : ConnProgress)
      → p'.connected ≡ (p.connected || any_connected (e ∷ []))
      → p'.lost ≡ last_lost p.lost (e ∷ [])
      → p'.opened ≡ p.opened
      → p'.readable ≡ p.readable ++ readables (e ∷ [])
      → p'.writable ≡ p.writable ++ writables (e ∷ [])
      → Reported (e ∷ []) [] p p'
  alone e p p' c l o r w = record {
    connected = c;
    lost = l;
    streams = o ∙ sym (append-nil p.opened);
    readable = r;
    writable = w;
  }

  or_false : (b : Bool) → b ≡ (b || false)
  or_false true = refl
  or_false false = refl

  -- What an event changes of the progress when it is of no use to the handshake, the loss, or the
  -- streams.
  silent :
      (e : QuinnEvent) (p p' : ConnProgress)
      → any_connected (e ∷ []) ≡ false
      → last_lost p.lost (e ∷ []) ≡ p.lost
      → readables (e ∷ []) ≡ []
      → writables (e ∷ []) ≡ []
      → p'.connected ≡ p.connected
      → p'.lost ≡ p.lost
      → p'.opened ≡ p.opened
      → p'.readable ≡ p.readable
      → p'.writable ≡ p.writable
      → Reported (e ∷ []) [] p p'
  silent e p p' ce le re we c l o r w =
      alone e p p' (c ∙ or_false p.connected ∙ ap (λ b. p.connected || b) (sym ce)) (l ∙ sym le) o
        (r ∙ sym (append-nil p.readable) ∙ ap (λ l. p.readable ++ l) (sym re))
        (w ∙ sym (append-nil p.writable) ∙ ap (λ l. p.writable ++ l) (sym we))

  on_finished-Reported :
      (id : ℕ) (s : ConnState quinn) (p : ConnProgress)
      → ((on_finished quinn id s p).0.conn ≡ s.conn)
        × Reported (QuinnEvent.finished id ∷ []) [] p (on_finished quinn id s p).1
  unfolding on_finished record_send_fin any_connected last_lost readables writables
  on_finished-Reported id s p = elim (Bool-cases (is_settled (send_fin quinn id s))) [
    | inl known ↦ rw known (refl, silent _ p _ refl refl refl refl refl refl refl refl refl)
    | inr open_ ↦ rw open_ (refl, silent _ p _ refl refl refl refl refl refl refl refl refl)
  ]

  on_stopped-Reported :
      (id code : ℕ) (s : ConnState quinn) (p : ConnProgress)
      → ((on_stopped quinn id code s p).0.conn ≡ s.conn)
        × Reported (QuinnEvent.stopped id code ∷ []) [] p (on_stopped quinn id code s p).1
  unfolding on_stopped record_send_fin any_connected last_lost readables writables
  on_stopped-Reported id code s p = elim (Bool-cases (is_settled (send_fin quinn id s))) [
    | inl known ↦ rw known (refl, silent _ p _ refl refl refl refl refl refl refl refl refl)
    | inr open_ ↦ rw open_ (refl, silent _ p _ refl refl refl refl refl refl refl refl refl)
  ]

  -- What one event comes to.
  Handles : QuinnEvent → ConnState quinn → ConnProgress → ConnState quinn × ConnProgress → Type 0
  Handles e s p r = (ids : List ℕ) × Between e s.conn ids r.0.conn × Reported (e ∷ []) ids p r.1

  on_event-Handles :
      (e : QuinnEvent) (s : ConnState quinn) (p : ConnProgress)
      → Handles e s p (on_event quinn e s p)
  unfolding on_event Handles Between any_connected last_lost readables writables
  on_event-Handles QuinnEvent.connected s p = (
    [],
    (refl, refl),
    alone QuinnEvent.connected p _ (ground arith) refl refl (sym (append-nil p.readable))
        (sym (append-nil p.writable)),
  )
  on_event-Handles (QuinnEvent.connection_lost reason) s p = (
    [],
    (refl, refl),
    alone (QuinnEvent.connection_lost reason) p _ (or_false p.connected) refl refl
        (sym (append-nil p.readable)) (sym (append-nil p.writable)),
  )
  on_event-Handles QuinnEvent.opened_bi s p =
      let (ids, accepts, same) =
        accept_loop-Accepts (suc (quinn.streams_left s.conn)) s p (omega arith) in
      (
        ids,
        accepts,
        record {
          connected = ap (λ q. q.connected) same ∙ or_false p.connected;
          lost = ap (λ q. q.lost) same;
          streams = ap (λ q. q.opened) same;
          readable = ap (λ q. q.readable) same ∙ sym (append-nil p.readable);
          writable = ap (λ q. q.writable) same ∙ sym (append-nil p.writable);
        },
      )
  on_event-Handles (QuinnEvent.readable id) s p = (
    [],
    (refl, refl),
    alone (QuinnEvent.readable id) p _ (or_false p.connected) refl refl refl
        (sym (append-nil p.writable)),
  )
  on_event-Handles (QuinnEvent.writable id) s p = (
    [],
    (refl, refl),
    alone (QuinnEvent.writable id) p _ (or_false p.connected) refl refl
        (sym (append-nil p.readable)) refl,
  )
  on_event-Handles (QuinnEvent.finished id) s p =
      let (same, r) = on_finished-Reported id s p in ([], (refl, same), r)
  on_event-Handles (QuinnEvent.stopped id code) s p =
      let (same, r) = on_stopped-Reported id code s p in ([], (refl, same), r)
  on_event-Handles QuinnEvent.other s p =
      ([], (refl, refl), silent QuinnEvent.other p p refl refl refl refl refl refl refl refl refl)

  any_connected-cons :
      (e : QuinnEvent) (es : List QuinnEvent)
      → any_connected (e ∷ es) ≡ (any_connected (e ∷ []) || any_connected es)
  unfolding any_connected
  any_connected-cons QuinnEvent.connected es = refl
  any_connected-cons _ es = refl

  last_lost-cons :
      (lost : Option ConnectionError) (e : QuinnEvent) (es : List QuinnEvent)
      → last_lost lost (e ∷ es) ≡ last_lost (last_lost lost (e ∷ [])) es
  unfolding last_lost
  last_lost-cons lost (QuinnEvent.connection_lost reason) es = refl
  last_lost-cons lost _ es = refl

  readables-cons :
      (e : QuinnEvent) (es : List QuinnEvent)
      → readables (e ∷ es) ≡ readables (e ∷ []) ++ readables es
  unfolding readables
  readables-cons (QuinnEvent.readable id) es = refl
  readables-cons _ es = refl

  writables-cons :
      (e : QuinnEvent) (es : List QuinnEvent)
      → writables (e ∷ es) ≡ writables (e ∷ []) ++ writables es
  unfolding writables
  writables-cons (QuinnEvent.writable id) es = refl
  writables-cons _ es = refl

  or_assoc : (a b c : Bool) → ((a || b) || c) ≡ (a || (b || c))
  or_assoc a b c = ground arith

  then-Reported :
      (e : QuinnEvent) (es : List QuinnEvent) (ids ids' : List ℕ) (p q r : ConnProgress)
      → Reported (e ∷ []) ids p q
      → Reported es ids' q r
      → Reported (e ∷ es) (ids ++ ids') p r
  then-Reported e es ids ids' p q r a b = record {
    connected =
        b.connected
        ∙ ap (λ c. c || any_connected es) a.connected
        ∙ or_assoc p.connected (any_connected (e ∷ [])) (any_connected es)
        ∙ ap (λ c. p.connected || c) (sym (any_connected-cons e es));
    lost = b.lost ∙ ap (λ l. last_lost l es) a.lost ∙ sym (last_lost-cons p.lost e es);
    streams = b.streams ∙ ap (λ l. l ++ ids') a.streams ∙ append_assoc p.opened ids ids';
    readable =
        b.readable
        ∙ ap (λ l. l ++ readables es) a.readable
        ∙ append_assoc p.readable (readables (e ∷ [])) (readables es)
        ∙ ap (λ l. p.readable ++ l) (sym (readables-cons e es));
    writable =
        b.writable
        ∙ ap (λ l. l ++ writables es) a.writable
        ∙ append_assoc p.writable (writables (e ∷ [])) (writables es)
        ∙ ap (λ l. p.writable ++ l) (sym (writables-cons e es));
  }

  Accepts-events :
      {c d : quinn.Connection} {ids : List ℕ}
      → Accepts c ids d
      → quinn.events_left d ≤ quinn.events_left c
  Accepts-events (no_stream c d e) = quinn.accept_events c d none e
  Accepts-events (stream c c' d id rest e more) =
      omega (arith, quinn.accept_events c c' (some id) e, Accepts-events more)

  Between-events :
      (e : QuinnEvent) (c d : quinn.Connection) (ids : List ℕ)
      → Between e c ids d
      → quinn.events_left d ≤ quinn.events_left c
  unfolding Between
  Between-events QuinnEvent.opened_bi c d ids b = Accepts-events b
  Between-events _ c d ids (none_, same) = omega (arith, ap quinn.events_left same)

  -- An event that ends a send half is recorded.
  recorded :
      (id : ℕ) (fact : SendFin) (s : ConnState quinn)
      → is_terminal fact ≡ true
      → is_settled (send_fin quinn id (record_send_fin quinn id fact s).0) ≡ true
  unfolding record_send_fin send_fin
  recorded id fact s t = elim (Bool-cases (is_settled (send_fin quinn id s))) [
    | inl known ↦ rw known known
    | inr open_ ↦ rw open_ (ground (arith, get-insert ℕ_discrete id id fact s.send_fins, t))
  ]

  on_event-settles :
      (id : ℕ) (e : QuinnEvent) (s : ConnState quinn) (p : ConnProgress)
      → Ends id e
      → is_settled (send_fin quinn id (on_event quinn e s p).0) ≡ true
  unfolding on_event Ends on_finished on_stopped
  on_event-settles id (QuinnEvent.finished j) s p same =
      subst (λ k. is_settled (send_fin quinn k (record_send_fin quinn j SendFin.acked s).0) ≡ true)
        same (recorded j SendFin.acked s refl)
  on_event-settles id (QuinnEvent.stopped j code) s p same =
      subst
        (λ k.
          is_settled (send_fin quinn k (record_send_fin quinn j (SendFin.stopped code) s).0) ≡ true)
        same (recorded j (SendFin.stopped code) s refl)
  on_event-settles id QuinnEvent.connected s p no_end = absurd no_end
  on_event-settles id (QuinnEvent.connection_lost reason) s p no_end = absurd no_end
  on_event-settles id QuinnEvent.opened_bi s p no_end = absurd no_end
  on_event-settles id (QuinnEvent.readable j) s p no_end = absurd no_end
  on_event-settles id (QuinnEvent.writable j) s p no_end = absurd no_end
  on_event-settles id QuinnEvent.other s p no_end = absurd no_end

  -- What a pass comes to, from a state and a progress.
  Drains : ConnState quinn → ConnProgress → ConnState quinn × ConnProgress → Type 0
  Drains s p r =
      (es : List QuinnEvent) × (ids : List ℕ) × Polls s.conn es ids r.0.conn
      × Reported es ids p r.1
      × ((id : ℕ) → AnyEnds id es → is_settled (send_fin quinn id r.0) ≡ true)

  on_poll-Drains :
      (rounds : ℕ) (s : ConnState quinn) (conn : quinn.Connection) (p : ConnProgress)
      (answer : Option QuinnEvent)
      → ((t : ConnState quinn) (q : ConnProgress)
          → quinn.events_left t.conn < rounds
          → Drains t q (service_loop quinn rounds t q))
      → quinn.events_left s.conn < suc rounds
      → quinn.poll s.conn ≡ (answer, conn)
      → Drains s p (on_poll quinn (service_loop quinn rounds) (record s { conn = conn }) p answer)
  unfolding on_poll Drains Handles any_connected last_lost readables writables AnyEnds
  on_poll-Drains rounds s conn p none h n e = (
    [],
    [],
    no_event s.conn conn e,
    record {
      connected = or_false p.connected;
      lost = refl;
      streams = sym (append-nil p.opened);
      readable = sym (append-nil p.readable);
      writable = sym (append-nil p.writable);
    },
    λ id none_. absurd none_,
  )
  on_poll-Drains rounds s conn p (some event) h n e =
      let s1 = record s { conn = conn } in
      let r = on_event quinn event s1 p in
      let (ids, between, first) = on_event-Handles event s1 p in
      let (es, ids', polls, rest, settled) = h r.0 r.1 (
        omega (
          arith,
          quinn.poll_consumes s.conn conn event e,
          Between-events event conn r.0.conn ids between,
          n,
        )) in
      let later = service_loop-Serviced quinn rounds r.0 r.1 in
      (
        event ∷ es,
        ids ++ ids',
        polled s.conn conn r.0.conn _ event es ids ids' e between polls,
        then-Reported event es ids ids' p r.1 _ first rest,
        λ id ends. elim ends [
          | inl here ↦
              let known = on_event-settles id event s1 p here in
              ap is_settled (later.fixed id known) ∙ known
          | inr there ↦ settled id there
        ],
      )

  service_loop-Drains :
      (rounds : ℕ) (s : ConnState quinn) (p : ConnProgress)
      → quinn.events_left s.conn < rounds
      → Drains s p (service_loop quinn rounds s p)
  unfolding service_loop
  service_loop-Drains zero s p n = absurd (omega arith)
  service_loop-Drains (suc rounds) s p n =
      on_poll-Drains rounds s (quinn.poll s.conn).1 p (quinn.poll s.conn).0
        (service_loop-Drains rounds) n refl

  -- One pass polls events until quinn answers that there is none, and when quinn says that there are
  -- streams, accepts until there is none. The progress reports the connect and the last loss of those
  -- events, and, in their order, the streams accepted and those that became readable and writable; a
  -- send half that one of the events ends is known to have ended.
  pub service_streams-Drained :
      (s : ConnState quinn)
      → (es : List QuinnEvent) × (ids : List ℕ) × Polls s.conn es ids
          (service_streams quinn s).0.conn
        × Reported es ids no_progress (service_streams quinn s).1
        × ((id : ℕ)
            → AnyEnds id es
            → is_settled (send_fin quinn id (service_streams quinn s).0) ≡ true)
  unfolding service_streams Drains
  service_streams-Drained s =
      service_loop-Drains (suc (quinn.events_left s.conn)) s no_progress (omega arith)
