-- ===== src/Replay/History.antt =====
-- The replay guard against the plain history of its calls.
use quietquic.HashSet
use quietquic.HashSet.{contains, contains-retain, contains-insert, insert_new}
use quietquic.Prelude.{
  ◌++◌, ◌∙◌, ◌⊎◌, ◌+◌, ℕ, ◌≤◌, ◌≡◌, refl, ite, Bool, true, false, not, ◌&&◌, List, [], ◌∷◌, arith,
  leb, All,
}
use quietquic.Freshness.{saturating_sub}
use quietquic.Replay.{Sighting, Sighting-discrete, ReplayGuard, new, check_and_record}

pub record Call : Type 0 where
  pub nonce : List ℕ
  pub freshness : ℕ
  pub now : ℕ

-- The guard after a history of calls, the newest first.
unfoldable pub run : ℕ → List Call → ReplayGuard
run window [] = new window
run window (c ∷ h) = (check_and_record (run window h) c.nonce c.freshness c.now).0

-- A sighting counts if some call brought it and no later call found it older than its window.
unfoldable pub recorded : ℕ → List Call → Sighting → Bool
recorded window [] s = false
recorded window (c ∷ h) s =
    ite (Sighting-discrete (c.nonce, c.freshness) s) true
      (leb (saturating_sub c.now window) s.1 && recorded window h s)

abbrev pub is_in : Sighting → ReplayGuard → Bool
is_in s g = contains Sighting-discrete s g.seen

module _ (g : ReplayGuard) (nonce : List ℕ) (freshness now : ℕ) where
  pub window-check_and_record : (check_and_record g nonce freshness now).0.window ≡ g.window
  unfolding check_and_record
  window-check_and_record = refl

  pub seen-check_and_record :
      (s : Sighting)
      → is_in s (check_and_record g nonce freshness now).0
        ≡ ite
            (Sighting-discrete (nonce, freshness) s)
            true
            (leb (saturating_sub now g.window) s.1 && is_in s g)
  unfolding check_and_record
  seen-check_and_record s = ground (
    arith,
    contains-insert Sighting-discrete (nonce, freshness) s
        (HashSet.retain (λ (x : Sighting). leb (saturating_sub now g.window) x.1) g.seen),
    contains-retain Sighting-discrete (λ (x : Sighting). leb (saturating_sub now g.window) x.1) s
        g.seen,
  )

  pub accepted-check_and_record :
      (check_and_record g nonce freshness now).1
      ≡ not (leb (saturating_sub now g.window) freshness && is_in (nonce, freshness) g)
  unfolding check_and_record
  accepted-check_and_record = ground (
    arith,
    insert_new Sighting-discrete (nonce, freshness)
        (HashSet.retain (λ (x : Sighting). leb (saturating_sub now g.window) x.1) g.seen),
    contains-retain Sighting-discrete (λ (x : Sighting). leb (saturating_sub now g.window) x.1)
        (nonce, freshness) g.seen,
  )

module _ (window : ℕ) where
  window-run : (h : List Call) → (run window h).window ≡ window
  unfolding run new
  window-run [] = refl
  window-run (c ∷ h) =
      window-check_and_record (run window h) c.nonce c.freshness c.now ∙ window-run h

  -- The guard holds exactly the sightings that the history of its calls records.
  pub run-recorded : (h : List Call) (s : Sighting) → is_in s (run window h) ≡ recorded window h s
  unfolding run recorded new contains
  run-recorded [] s = refl
  run-recorded (c ∷ h) s = ground (
    arith,
    seen-check_and_record (run window h) c.nonce c.freshness c.now s,
    run-recorded h s,
    window-run h,
  )

  -- After any history a call accepts a sighting exactly if the history does not record it, or
  -- records it with a stamp older than the call's cutoff.
  pub check_and_record-recorded :
      (h : List Call) (nonce : List ℕ) (freshness now : ℕ)
      → (check_and_record (run window h) nonce freshness now).1
        ≡ not (leb (saturating_sub now window) freshness && recorded window h (nonce, freshness))
  check_and_record-recorded h nonce freshness now = ground (
    arith,
    accepted-check_and_record (run window h) nonce freshness now,
    run-recorded h (nonce, freshness),
    window-run h,
  )

  recorded_kept :
      (later h : List Call) (s : Sighting)
      → All (λ (c : Call). c.now ≤ s.1 + window) later
      → recorded window h s ≡ true
      → recorded window (later ++ h) s ≡ true
  unfolding recorded
  recorded_kept [] h s t r = r
  recorded_kept (c ∷ later) h s t r = ground (arith, recorded_kept later h s t.1 r)

  -- Once a sighting has been presented, accepted or not, it is refused as long as its stamp stays
  -- within the window of every later call, whatever those calls bring.
  pub check_and_record_once :
      (later h : List Call) (c : Call) (now : ℕ)
      → All (λ (d : Call). d.now ≤ c.freshness + window) later
      → now ≤ c.freshness + window
      → (check_and_record (run window (later ++ c ∷ h)) c.nonce c.freshness now).1 ≡ false
  unfolding recorded
  check_and_record_once later h c now t n = ground (
    arith,
    check_and_record-recorded (later ++ c ∷ h) c.nonce c.freshness now,
    recorded_kept later (c ∷ h) (c.nonce, c.freshness) t,
  )

-- Every sighting that stays in the guard is the one presented or has a stamp of the window, so
-- what is older than the window takes no memory.
pub check_and_record_bounded :
    (g : ReplayGuard) (nonce : List ℕ) (freshness now : ℕ) (s : Sighting)
    → is_in s (check_and_record g nonce freshness now).0 ≡ true
    → (s ≡ (nonce, freshness)) ⊎ (now ≤ s.1 + g.window)
check_and_record_bounded g nonce freshness now s h =
    ground (arith, seen-check_and_record g nonce freshness now s)
