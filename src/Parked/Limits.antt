-- ===== src/Parked/Limits.antt =====
-- pump_read of src/conn.rs: a read never returns more than it was asked for, and its loop ends.
use mathlib.Core.Option.{some_inj}
use quietquic.Conn.{Result, ConnState, stream_read}
use quietquic.Conn.Read.{stream_read-ReadContract}
use quietquic.Outcome.{ReadOutcome}
use quietquic.Parked.Pump.{
  PendingRead, ReadStop, request_by, request_len, exceeded, on_filled, on_read, pump_read,
}
use quietquic.Prelude.{
  ℕ, zero, suc, ◌+◌, ◌≤◌, ◌<◌, ◌≡◌, refl, sym, subst, max, Option, none, some, List, ◌++◌, arith,
  ltb, length, take, replicate, length-take, length-append, Bool-cases, inl, inr,
}
use quietquic.Quinn.{Quinn}

-- How many bytes an answer may have.
unfoldable pub cap_by : Option ℕ → Option ℕ → ℕ
cap_by (some most) limit = most
cap_by none (some limit) = limit
cap_by none none = 0

-- What is parked: a read of at most so many bytes that has none yet, or one to the end that has no
-- more than its limit.
unfoldable pub RoomFor : Option ℕ → Option ℕ → ℕ → Type 0
RoomFor (some most) limit filled = filled < most
RoomFor none (some limit) filled = filled ≤ limit
RoomFor none none filled = ⊥

unfoldable pub IsRead : PendingRead → Type 0
unfolding RoomFor
IsRead p = RoomFor p.max_len p.end_limit (length p.buf)

-- An answer within the bounds, or the same read, blocked.
unfoldable pub Within : Option ℕ → Option ℕ → ReadStop → Type 0
unfolding cap_by RoomFor
Within most limit (ReadStop.done (Result.ok buf)) = length buf ≤ cap_by most limit
Within most limit (ReadStop.done (Result.err e)) = Unit
Within most limit (ReadStop.waits q) =
    RoomFor most limit (length q.buf) × (q.max_len ≡ most) × (q.end_limit ≡ limit)

pub length-replicate : (n b : ℕ) → length (replicate n b) ≡ n
length-replicate zero b = omega arith
length-replicate (suc n) b = omega (arith, length-replicate n b)

room_cap :
    (most limit : Option ℕ) (filled : ℕ) → RoomFor most limit filled → filled ≤ cap_by most limit
unfolding RoomFor cap_by
room_cap (some most) limit filled h = omega arith
room_cap none none filled h = absurd h
room_cap none (some limit) filled h = h

request_fits :
    (most limit : Option ℕ) (filled n m : ℕ)
    → RoomFor most limit filled
    → n ≤ max (request_by most limit filled) 1
    → most ≡ some m
    → filled + n ≤ m
unfolding request_by RoomFor
request_fits none limit filled n m room asked e = absurd (ground arith)
request_fits (some k) limit filled n m room asked e = omega (arith, some_inj.0 e)

to_end_limit :
    (most limit : Option ℕ) (filled : ℕ)
    → RoomFor most limit filled
    → most ≡ none
    → (l : ℕ) × (limit ≡ some l)
unfolding RoomFor
to_end_limit (some k) limit filled room e = absurd (ground arith)
to_end_limit none none filled room e = absurd room
to_end_limit none (some l) filled room e = (l, refl)

module _ (quinn : Quinn) (id : ℕ) where
  -- The next round keeps the bounds.
  abbrev Keeping :
      Option ℕ → Option ℕ → (PendingRead → ConnState quinn → ConnState quinn × ReadStop) → Type 0
  Keeping most limit again =
      (q : PendingRead) (s : ConnState quinn)
      → RoomFor most limit (length q.buf)
      → q.max_len ≡ most
      → q.end_limit ≡ limit
      → Within most limit (again q s).1

  filled-Within :
      (again : PendingRead → ConnState quinn → ConnState quinn × ReadStop) (buf : List ℕ)
      (reply : ℕ) (most limit : Option ℕ) (s : ConnState quinn)
      → Keeping most limit again
      → ((m : ℕ) → most ≡ some m → length buf ≤ m)
      → ((most ≡ none) → (l : ℕ) × (limit ≡ some l))
      → Within most limit
          (on_filled quinn again
            (record { buf = buf; end_limit = limit; max_len = most; reply = reply })
            (exceeded limit buf)
            most
            s).1
  unfolding on_filled exceeded Within cap_by RoomFor
  filled-Within again buf reply (some m) none s keeps fits bounded = fits m refl
  filled-Within again buf reply (some m) (some l) s keeps fits bounded =
      elim (Bool-cases (ltb l (length buf))) [
        | inl over ↦ rw over tt
        | inr within ↦ rw within (fits m refl)
      ]
  filled-Within again buf reply none none s keeps fits bounded =
      let (l, e) = bounded refl in absurd (ground arith)
  filled-Within again buf reply none (some l) s keeps fits bounded =
      elim (Bool-cases (ltb l (length buf))) [
        | inl over ↦ rw over tt
        | inr within ↦ rw within (
            keeps (record { buf = buf; end_limit = some l; max_len = none; reply = reply }) s
              (ground (arith, within)) refl refl)
      ]

  answer-Within :
      (again : PendingRead → ConnState quinn → ConnState quinn × ReadStop) (p : PendingRead)
      (got : List ℕ) (r : Result ReadOutcome) (s : ConnState quinn)
      → Keeping p.max_len p.end_limit again
      → IsRead p
      → ((n : ℕ) → r ≡ Result.ok (ReadOutcome.read n) → n ≤ request_len p)
      → Within p.max_len p.end_limit (on_read quinn again id p got r s).1
  unfolding on_read Within request_len IsRead
  answer-Within again p got (Result.ok (ReadOutcome.read n)) s keeps room asked =
      filled-Within again (p.buf ++ take n got) p.reply p.max_len p.end_limit s keeps
        (λ m e. omega (
          arith,
          request_fits p.max_len p.end_limit (length p.buf) n m room (asked n refl) e,
          length-append p.buf (take n got),
          length-take n got,
        ))
        (to_end_limit p.max_len p.end_limit (length p.buf) room)
  answer-Within again p got (Result.ok ReadOutcome.blocked) s keeps room asked = (room, refl, refl)
  answer-Within again p got (Result.ok ReadOutcome.finished) s keeps room asked =
      room_cap p.max_len p.end_limit (length p.buf) room
  answer-Within again p got (Result.err e) s keeps room asked = tt

  -- However many rounds its loop takes, a parked read never returns more bytes than it was asked for,
  -- nor, where it reads to the end, more than its limit; while it is blocked it holds no more either.
  pub pump_read-Within :
      (rounds : ℕ) (p : PendingRead) (s : ConnState quinn)
      → IsRead p
      → Within p.max_len p.end_limit (pump_read quinn rounds id p s).1
  unfolding pump_read Within IsRead
  pump_read-Within zero p s room = (room, refl, refl)
  pump_read-Within (suc rounds) p s room =
      let asked = replicate (request_len p) 0 in
      let c = stream_read-ReadContract quinn id asked s in
      answer-Within (pump_read quinn rounds id) p _ (stream_read quinn id asked s).2 _
        (λ q u full most limit.
          let end = (pump_read quinn rounds id q u).1 in
          subst (λ k. Within k p.end_limit end) most
            (subst (λ l. Within q.max_len l end) limit
              (pump_read-Within rounds q u (
                subst (λ k. RoomFor k q.end_limit (length q.buf)) (sym most)
                  (subst (λ l. RoomFor p.max_len l (length q.buf)) (sym limit) full)))))
        room (λ n e. omega (arith, (c.positive n e).1, length-replicate (request_len p) 0))
