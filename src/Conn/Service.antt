-- ===== src/Conn/Service.antt =====
-- `service_streams` of proto/src/conn.rs: it queues every stream that the peer opened, and reports the end of each send half once.
use quietquic.HashMap
use quietquic.HashMap.{get-insert}
use quietquic.Prelude.{
  ℕ, zero, suc, ◌+◌, ◌≡◌, refl, ap, sym, ◌∙◌, ite, true, false, Option, none, some, List, [], ◌∷◌,
  ◌++◌, arith, if◌then◌else◌, ℕ_discrete, Bool-cases, inl, inr,
}
use quietquic.Quinn.{Quinn, QuinnEvent}
use quietquic.Conn.{
  SendFin, ConnProgress, no_progress, ConnState, is_terminal, is_settled, send_fin, record_send_fin,
  on_accept, accept_loop, on_finished, on_stopped, on_event, on_poll, service_loop, service_streams,
}
use mathlib.Core.List.{append-nil, append_assoc}

-- How often a stream stands in a list of reports.
abbrev pub count : ℕ → List ℕ → ℕ
count id [] = 0
count id (x ∷ xs) = ite (ℕ_discrete x id) (suc (count id xs)) (count id xs)

abbrev pub count_stopped : ℕ → List (ℕ × ℕ) → ℕ
count_stopped id [] = 0
count_stopped id ((x, code) ∷ xs) =
    ite (ℕ_discrete x id) (suc (count_stopped id xs)) (count_stopped id xs)

count-snoc :
    (id x : ℕ) (xs : List ℕ) → count id (xs ++ (x ∷ [])) ≡ count id xs + ite (ℕ_discrete x id) 1 0
count-snoc id x [] = ground arith
count-snoc id x (y ∷ xs) = ground (arith, count-snoc id x xs)

count_stopped-snoc :
    (id x code : ℕ) (xs : List (ℕ × ℕ))
    → count_stopped id (xs ++ ((x, code) ∷ [])) ≡ count_stopped id xs + ite (ℕ_discrete x id) 1 0
count_stopped-snoc id x code [] = ground arith
count_stopped-snoc id x code ((y, c) ∷ xs) = ground (arith, count_stopped-snoc id x code xs)

-- The reports of the end of a send half: acknowledged, or stopped by the peer.
abbrev pub reports : ℕ → ConnProgress → ℕ
reports id p = count id p.fin_acked + count_stopped id p.stopped

module _ (quinn : Quinn) where
  -- 1 if the end of the send half is known, else 0.
  abbrev pub known_end : ℕ → ConnState quinn → ℕ
  known_end id s = if is_settled (send_fin quinn id s) then 1 else 0

  -- What a part of `service_streams` does to the state and to the progress.
  pub record Serviced (s s' : ConnState quinn) (p p' : ConnProgress) : Type 0 where
    pub conserved : (id : ℕ) → reports id p' + known_end id s ≡ reports id p + known_end id s'
    pub fixed :
        (id : ℕ)
        → is_settled (send_fin quinn id s) ≡ true
        → send_fin quinn id s' ≡ send_fin quinn id s
    pub queued :
        (ids : List ℕ) × (s'.ready_accepts ≡ s.ready_accepts ++ ids) × (p'.opened ≡ p.opened ++ ids)
    pub reads : s'.finished_reads ≡ s.finished_reads
    pub dirty : s'.dirty ≡ s.dirty

  -- A step that leaves the bookkeeping alone and reports no end.
  pub quiet :
      (s s' : ConnState quinn) (p p' : ConnProgress)
      → s'.send_fins ≡ s.send_fins
      → s'.ready_accepts ≡ s.ready_accepts
      → s'.finished_reads ≡ s.finished_reads
      → s'.dirty ≡ s.dirty
      → p'.fin_acked ≡ p.fin_acked
      → p'.stopped ≡ p.stopped
      → p'.opened ≡ p.opened
      → Serviced s s' p p'
  unfolding send_fin
  quiet s s' p p' f a r d pf ps po = record {
    conserved = λ id. omega (
      arith,
      ap (count id) pf,
      ap (count_stopped id) ps,
      ap {B = ℕ} (λ m. if is_settled (HashMap.get ℕ_discrete id m) then 1 else 0) f,
    );
    fixed = λ id k. ap (HashMap.get ℕ_discrete id) f;
    queued = ([], a ∙ sym (append-nil _), po ∙ sym (append-nil _));
    reads = r;
    dirty = d;
  }

  Serviced-trans :
      {s t u : ConnState quinn} {p q r : ConnProgress}
      → Serviced s t p q
      → Serviced t u q r
      → Serviced s u p r
  Serviced-trans a b = record {
    conserved = λ id. omega (arith, a.conserved id, b.conserved id);
    fixed = λ id k. b.fixed id (ap is_settled (a.fixed id k) ∙ k) ∙ a.fixed id k;
    queued =
        let (xs, ax, px) = a.queued in
        let (ys, ay, py) = b.queued in
        (
          xs ++ ys,
          ay ∙ ap (λ l. l ++ ys) ax ∙ append_assoc _ xs ys,
          py ∙ ap (λ l. l ++ ys) px ∙ append_assoc _ xs ys,
        );
    reads = b.reads ∙ a.reads;
    dirty = b.dirty ∙ a.dirty;
  }

  -- The step that learns of an end, and reports it.
  learn :
      (id : ℕ) (fact : SendFin) (s : ConnState quinn) (p p' : ConnProgress)
      → is_terminal fact ≡ true
      → is_settled (send_fin quinn id s) ≡ false
      → ((j : ℕ) → reports j p' ≡ reports j p + ite (ℕ_discrete id j) 1 0)
      → p'.opened ≡ p.opened
      → Serviced s (record s { send_fins = HashMap.insert ℕ_discrete id fact s.send_fins }) p p'
  unfolding send_fin
  learn id fact s p p' t open_ more same = record {
    conserved = λ j. ground (arith, more j, get-insert ℕ_discrete id j fact s.send_fins, open_, t);
    fixed = λ j k. ground (arith, get-insert ℕ_discrete id j fact s.send_fins, open_);
    queued = ([], sym (append-nil _), same ∙ sym (append-nil _));
    reads = refl;
    dirty = refl;
  }

  on_finished-Serviced :
      (id : ℕ) (s : ConnState quinn) (p : ConnProgress)
      → Serviced s (on_finished quinn id s p).0 p (on_finished quinn id s p).1
  unfolding on_finished
  on_finished-Serviced id s p = elim (Bool-cases (is_settled (send_fin quinn id s))) [
    | inl known ↦ rw (known, record_send_fin) (quiet s s p p refl refl refl refl refl refl refl)
    | inr open_ ↦
        rw (open_, record_send_fin)
          (learn id SendFin.acked s p (record p { fin_acked = p.fin_acked ++ (id ∷ []) }) refl open_
            (λ j. omega (arith, count-snoc j id p.fin_acked)) refl)
  ]

  on_stopped-Serviced :
      (id code : ℕ) (s : ConnState quinn) (p : ConnProgress)
      → Serviced s (on_stopped quinn id code s p).0 p (on_stopped quinn id code s p).1
  unfolding on_stopped
  on_stopped-Serviced id code s p = elim (Bool-cases (is_settled (send_fin quinn id s))) [
    | inl known ↦ rw (known, record_send_fin) (quiet s s p p refl refl refl refl refl refl refl)
    | inr open_ ↦
        rw (open_, record_send_fin)
          (learn id (SendFin.stopped code) s p
            (record p { stopped = p.stopped ++ ((id, code) ∷ []) }) refl open_
            (λ j. omega (arith, count_stopped-snoc j id code p.stopped)) refl)
  ]

  -- What the rounds that are left do.
  abbrev Continues : (ConnState quinn → ConnProgress → ConnState quinn × ConnProgress) → Type 0
  Continues again =
      (s : ConnState quinn) (p : ConnProgress) → Serviced s (again s p).0 p (again s p).1

  on_accept-Serviced :
      (s : ConnState quinn) (conn : quinn.Connection) (p : ConnProgress) (answer : Option ℕ)
      (again : ConnState quinn → ConnProgress → ConnState quinn × ConnProgress)
      → Continues again
      → let r = on_accept quinn again (record s { conn = conn }) p answer in Serviced s r.0 p r.1
  unfolding on_accept send_fin
  on_accept-Serviced s conn p none again h = quiet s _ p p refl refl refl refl refl refl refl
  on_accept-Serviced s conn p (some id) again h =
      Serviced-trans
        (record {
          conserved = λ j. refl;
          fixed = λ j k. refl;
          queued = (id ∷ [], refl, refl);
          reads = refl;
          dirty = refl;
        })
        (h _ _)

  accept_loop-Serviced :
      (rounds : ℕ) (s : ConnState quinn) (p : ConnProgress)
      → Serviced s (accept_loop quinn rounds s p).0 p (accept_loop quinn rounds s p).1
  unfolding accept_loop
  accept_loop-Serviced zero s p = quiet s s p p refl refl refl refl refl refl refl
  accept_loop-Serviced (suc rounds) s p =
      on_accept-Serviced s (quinn.accept_bi s.conn).1 p (quinn.accept_bi s.conn).0
        (accept_loop quinn rounds) (accept_loop-Serviced rounds)

  pub on_event-Serviced :
      (event : QuinnEvent) (s : ConnState quinn) (p : ConnProgress)
      → Serviced s (on_event quinn event s p).0 p (on_event quinn event s p).1
  unfolding on_event
  on_event-Serviced QuinnEvent.opened_bi s p =
      accept_loop-Serviced (suc (quinn.streams_left s.conn)) s p
  on_event-Serviced (QuinnEvent.finished id) s p = on_finished-Serviced id s p
  on_event-Serviced (QuinnEvent.stopped id code) s p = on_stopped-Serviced id code s p
  on_event-Serviced _ s p = quiet s s p _ refl refl refl refl refl refl refl

  on_poll-Serviced :
      (s : ConnState quinn) (conn : quinn.Connection) (p : ConnProgress)
      (answer : Option QuinnEvent)
      (again : ConnState quinn → ConnProgress → ConnState quinn × ConnProgress)
      → Continues again
      → let r = on_poll quinn again (record s { conn = conn }) p answer in Serviced s r.0 p r.1
  unfolding on_poll
  on_poll-Serviced s conn p none again h = quiet s _ p p refl refl refl refl refl refl refl
  on_poll-Serviced s conn p (some event) again h =
      Serviced-trans (quiet s (record s { conn = conn }) p p refl refl refl refl refl refl refl)
        (Serviced-trans (on_event-Serviced event (record s { conn = conn }) p) (h _ _))

  pub service_loop-Serviced :
      (rounds : ℕ) (s : ConnState quinn) (p : ConnProgress)
      → Serviced s (service_loop quinn rounds s p).0 p (service_loop quinn rounds s p).1
  unfolding service_loop
  service_loop-Serviced zero s p = quiet s s p p refl refl refl refl refl refl refl
  service_loop-Serviced (suc rounds) s p =
      on_poll-Serviced s (quinn.poll s.conn).1 p (quinn.poll s.conn).0 (service_loop quinn rounds)
        (service_loop-Serviced rounds)

  -- One pass reports the end of a send half exactly if it was not known before and is known after:
  -- never twice, and never again once it is known; an end that is known does not change.
  pub service_streams_once :
      (s : ConnState quinn) (id : ℕ)
      → let r = service_streams quinn s in
        (reports id r.1 + known_end id s ≡ known_end id r.0)
        × (is_settled (send_fin quinn id s) ≡ true → send_fin quinn id r.0 ≡ send_fin quinn id s)
  unfolding service_streams
  service_streams_once s id =
      let d = service_loop-Serviced (suc (quinn.events_left s.conn)) s no_progress in
      (omega (arith, d.conserved id), d.fixed id)

  -- The streams that one pass reports as opened are those that it appends, in this order, to the
  -- queue of `accept_bi`; it changes neither the ends of reads nor the dirty flag.
  pub service_streams_queue :
      (s : ConnState quinn)
      → let r = service_streams quinn s in
        (r.0.ready_accepts ≡ s.ready_accepts ++ r.1.opened)
        × (r.0.finished_reads ≡ s.finished_reads)
        × (r.0.dirty ≡ s.dirty)
  unfolding service_streams
  service_streams_queue s =
      let d = service_loop-Serviced (suc (quinn.events_left s.conn)) s no_progress in
      let (ids, accepts, opened) = d.queued in
      (accepts ∙ ap (λ l. s.ready_accepts ++ l) (sym opened), d.reads, d.dirty)
