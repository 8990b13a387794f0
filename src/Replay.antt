-- ===== src/Replay.antt =====
-- proto/src/replay.rs: the bounded anti-replay set over (nonce, freshness).
pub mod History
use quietquic.HashSet
use quietquic.Prelude.{ℕ, ◌≡◌, refl, Bool, List, [], ◌∷◌, arith, leb, length, ℕ_discrete}
use quietquic.Freshness.{saturating_sub}

-- A nonce of eight bytes and the minute that it was sent with.
abbrev pub Sighting : Type 0
Sighting = List ℕ × ℕ

unfoldable pub Sighting-discrete : Discrete Sighting
unfolding ℕ_discrete
Sighting-discrete = hlevel ℕ_discrete

pub record ReplayGuard : Type 0 where
  pub window : ℕ
  pub seen : List Sighting

unfoldable pub new : ℕ → ReplayGuard
new window_minutes = record { window = window_minutes; seen = [] }

unfoldable pub len : ReplayGuard → ℕ
len g = length g.seen

unfoldable pub is_empty : ReplayGuard → Bool
is_empty g = elim g.seen [ [] ↦ Bool.true | ◌∷◌ _ _ ↦ Bool.false ]

-- The guard after the call, and whether the sighting is accepted.
unfoldable pub check_and_record : ReplayGuard → List ℕ → ℕ → ℕ → ReplayGuard × Bool
unfolding HashSet.insert HashSet.retain Sighting-discrete
check_and_record g nonce freshness now =
    let cutoff = saturating_sub now g.window in
    let kept = HashSet.retain (λ (s : Sighting). leb cutoff s.1) g.seen in
    let (seen, is_new) = HashSet.insert Sighting-discrete (nonce, freshness) kept in
    (record g { seen = seen }, is_new)
