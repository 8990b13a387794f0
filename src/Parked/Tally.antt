-- ===== src/Parked/Tally.antt =====
-- How often a reply channel is held by the waiting operations of src/conn.rs or has been answered:
-- every operation accounts for it.
use quietquic.HashMap
use quietquic.HashMap.{Distinct, Distinct-remove, Distinct-insert, keys, remove_absent}
use quietquic.Parked.{Answer, Parked, send, send_all, found, of_write, of_read, waiting}
use quietquic.Prelude.{
  ℕ, ◌+◌, ◌≡◌, refl, ap, ◌∙◌, none, List, [], ◌∷◌, ◌++◌, arith, ◌==◌, if◌then◌else◌, ℕ_discrete,
  subst,
}

abbrev pub one : ℕ → ℕ → ℕ
one t reply = if t == reply then 1 else 0

unfoldable pub occ : ℕ → List ℕ → ℕ
occ t [] = 0
occ t (reply ∷ replies) = one t reply + occ t replies

pub occ-append : (t : ℕ) (xs ys : List ℕ) → occ t (xs ++ ys) ≡ occ t xs + occ t ys
unfolding occ
occ-append t [] ys = omega arith
occ-append t (x ∷ xs) ys = omega (arith, occ-append t xs ys)

keys-append : (xs ys : List (ℕ × Answer)) → keys (xs ++ ys) ≡ keys xs ++ keys ys
keys-append [] ys = refl
keys-append ((t, a) ∷ xs) ys = ap (λ k. t ∷ k) (keys-append xs ys)

pub occ-keys-append :
    (t : ℕ) (xs ys : List (ℕ × Answer))
    → occ t (keys (xs ++ ys)) ≡ occ t (keys xs) + occ t (keys ys)
occ-keys-append t xs ys = ap (occ t) (keys-append xs ys) ∙ occ-append t (keys xs) (keys ys)

-- The waiting replies, and those that have been answered.
unfoldable pub answered : ℕ → Parked → ℕ
answered t pk = occ t (keys pk.sent)

unfoldable pub parked : ℕ → Parked → ℕ
parked t pk =
    occ t pk.pending_accepts
    + (occ t (waiting of_write pk.blocked_writes)
        + (occ t (waiting of_read pk.pending_reads)
            + occ t (waiting (λ replies. replies) pk.fin_waiters)))

-- No stream waits twice in a map.
pub record IsKeyed (pk : Parked) : Type 0 where
  pub writes : Distinct ℕ_discrete pk.blocked_writes
  pub reads : Distinct ℕ_discrete pk.pending_reads
  pub fins : Distinct ℕ_discrete pk.fin_waiters

-- A step that takes in a reply channel n times.
pub record Counted (t n : ℕ) (pk pk' : Parked) : Type 0 where
  pub account : parked t pk' + answered t pk' ≡ n + (parked t pk + answered t pk)
  pub keyed : IsKeyed pk'

-- What a key has is what is taken out with it.
pub waiting-remove :
    {V : Type 0} (replies : V → List ℕ) (t id : ℕ) (m : List (ℕ × V))
    → Distinct ℕ_discrete m
    → occ t (waiting replies m)
      ≡ occ t (found replies (HashMap.get ℕ_discrete id m))
        + occ t (waiting replies (HashMap.remove ℕ_discrete id m))
unfolding waiting found HashMap.get HashMap.remove occ
waiting-remove replies t id [] d = refl
waiting-remove replies t id ((j, p) ∷ m) d = elim (ℕ_discrete j id) [
  | yes same ↦
      let gone =
        remove_absent ℕ_discrete id m (subst (λ k. HashMap.get ℕ_discrete k m ≡ none) same d.0) in
      ground (arith, occ-append t (replies p) (waiting replies m), same, gone)
  | no other ↦ ground (
    arith,
    other,
    occ-append t (replies p) (waiting replies m),
    occ-append t (replies p) (waiting replies (HashMap.remove ℕ_discrete id m)),
    waiting-remove replies t id m d.1,
  )
]

pub send_all-Counted :
    (replies : List ℕ) (answer : Answer) (t : ℕ) (pk : Parked)
    → IsKeyed pk
    → Counted t (occ t replies) pk (send_all replies answer pk)
unfolding send_all send parked answered occ
send_all-Counted [] answer t pk k = record { account = omega arith; keyed = k }
send_all-Counted (reply ∷ replies) answer t pk k =
    let c =
      send_all-Counted replies answer t (send reply answer pk)
        (record { writes = k.writes; reads = k.reads; fins = k.fins }) in
    record {
      account = omega (arith, c.account, occ-keys-append t pk.sent ((reply, answer) ∷ []));
      keyed = c.keyed;
    }
