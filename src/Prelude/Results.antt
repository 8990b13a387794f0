-- ===== src/Prelude/Results.antt =====
-- std::result::Result.
use mathlib.Core.Path.{◌≡◌, ap}
use mathlib.Core.Option.{Option, none, some, some_inj}

pub data Result (A E : Type 0) : Type 0 where
  ok : A → Result A E
  err : E → Result A E

-- `?`: the first error ends the chain.
abbrev pub and_then : {A B E : Type 0} → Result A E → (A → Result B E) → Result B E
and_then (Result.ok a) f = f a
and_then (Result.err e) f = Result.err e

-- Result::ok
abbrev to_option : {A E : Type 0} → Result A E → Option A
to_option (Result.ok a) = some a
to_option (Result.err e) = none

pub ok_inj : {A E : Type 0} {a b : A} → ◌≡◌ {A = Result A E} (Result.ok a) (Result.ok b) → a ≡ b
ok_inj e = some_inj.0 (ap to_option e)

pub err-ne-ok :
    {A E : Type 0} {a : A} {x : E} → ◌≡◌ {A = Result A E} (Result.err x) (Result.ok a) → ⊥
err-ne-ok e = cc e
