-- ===== src/Parked/Pump.antt =====
-- The two loops of src/conn.rs that offer a parked operation to the core.
use quietquic.Conn.{ConnError, Result, ConnState, stream_read, stream_write, forget_recv}
use quietquic.Outcome.{ReadOutcome, WriteOutcome}
use quietquic.Prelude.{
  ℕ, zero, suc, ◌+◌, ◌-◌, ◌*◌, ◌^◌, min, max, Option, none, some, List, ◌++◌, ltb, leb, is_some,
  if◌then◌else◌, length, take, drop, replicate,
}
use quietquic.Quinn.{Quinn}

pub record PendingWrite : Type 0 where
  pub contents : List ℕ
  pub offset : ℕ
  pub reply : ℕ

pub record PendingRead : Type 0 where
  pub buf : List ℕ
  pub end_limit : Option ℕ
  pub max_len : Option ℕ
  pub reply : ℕ

-- What a loop comes to: its answer, or the operation, which is still blocked.
pub data WriteEnd : Type 0 where
  done : Result (Unit {0}) → WriteEnd
  waits : PendingWrite → WriteEnd

pub data ReadStop : Type 0 where
  done : Result (List ℕ) → ReadStop
  waits : PendingRead → ReadStop

abbrev pub read_chunk : ℕ
read_chunk = 16 * 1024

-- usize::MAX
abbrev pub usize_max : ℕ
usize_max = 2 ^ 64 - 1

-- How many bytes the next read asks for.
unfoldable pub request_by : Option ℕ → Option ℕ → ℕ → ℕ
request_by (some most) end_limit filled = min (most - filled) read_chunk
request_by none (some limit) filled = min (min (limit + 1) usize_max - filled) read_chunk
request_by none none filled = read_chunk

unfoldable pub request_len : PendingRead → ℕ
unfolding request_by
request_len p = max (request_by p.max_len p.end_limit (length p.buf)) 1

-- The limit that the bytes read so far exceed.
unfoldable pub exceeded : Option ℕ → List ℕ → Option ℕ
exceeded none buf = none
exceeded (some limit) buf = if ltb limit (length buf) then some limit else none

-- Every write takes at least one byte, and every read gives one, up to the limit and one more.
abbrev pub write_rounds : PendingWrite → ℕ
write_rounds p = suc (length p.contents - p.offset)

abbrev pub read_rounds_by : Option ℕ → ℕ → ℕ
read_rounds_by none filled = 1
read_rounds_by (some limit) filled = suc (suc limit - filled)

abbrev pub read_rounds : PendingRead → ℕ
read_rounds p = read_rounds_by p.end_limit (length p.buf)

module _ (quinn : Quinn) where
  -- The `match` on the core's answer; `again` is the next round.
  unfoldable pub on_write :
      (PendingWrite → ConnState quinn → ConnState quinn × WriteEnd)
      → PendingWrite
      → Result WriteOutcome
      → ConnState quinn
      → ConnState quinn × WriteEnd
  on_write again p (Result.ok (WriteOutcome.wrote n)) s =
      again (record p { offset = p.offset + n }) s
  on_write again p (Result.ok WriteOutcome.blocked) s = (s, WriteEnd.waits p)
  on_write again p (Result.err e) s = (s, WriteEnd.done (Result.err e))

  unfoldable pub pump_write : ℕ → ℕ → PendingWrite → ConnState quinn → ConnState quinn × WriteEnd
  unfolding on_write
  pump_write zero id p s = (s, WriteEnd.waits p)
  pump_write (suc rounds) id p s =
      if leb (length p.contents) p.offset
      then (s, WriteEnd.done (Result.ok tt))
      else let (s', r) = stream_write quinn id (drop p.offset p.contents) s in
        on_write (pump_write rounds id) p r s'

  -- The checks after a read that got bytes: the limit first, then a read that any bytes complete.
  unfoldable pub on_filled :
      (PendingRead → ConnState quinn → ConnState quinn × ReadStop)
      → PendingRead
      → Option ℕ
      → Option ℕ
      → ConnState quinn
      → ConnState quinn × ReadStop
  on_filled again p (some limit) most s =
      (s, ReadStop.done (Result.err (ConnError.read_limit_exceeded limit)))
  on_filled again p none (some _) s = (s, ReadStop.done (Result.ok p.buf))
  on_filled again p none none s = again p s

  -- `got` is the tail of the buffer that the core has filled.
  unfoldable pub on_read :
      (PendingRead → ConnState quinn → ConnState quinn × ReadStop)
      → ℕ
      → PendingRead
      → List ℕ
      → Result ReadOutcome
      → ConnState quinn
      → ConnState quinn × ReadStop
  unfolding on_filled exceeded
  on_read again id p got (Result.ok (ReadOutcome.read n)) s =
      let filled = record p { buf = p.buf ++ take n got } in
      on_filled again filled (exceeded p.end_limit filled.buf) p.max_len s
  on_read again id p got (Result.ok ReadOutcome.blocked) s = (s, ReadStop.waits p)
  on_read again id p got (Result.ok ReadOutcome.finished) s =
      (if is_some p.end_limit then forget_recv quinn id s else s, ReadStop.done (Result.ok p.buf))
  on_read again id p got (Result.err e) s = (s, ReadStop.done (Result.err e))

  unfoldable pub pump_read : ℕ → ℕ → PendingRead → ConnState quinn → ConnState quinn × ReadStop
  unfolding on_read request_len
  pump_read zero id p s = (s, ReadStop.waits p)
  pump_read (suc rounds) id p s =
      let (s', got, r) = stream_read quinn id (replicate (request_len p) 0) s in
      on_read (pump_read rounds id) id p got r s'
