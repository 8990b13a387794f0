-- ===== src/Tests/Bytes.antt =====
-- Witnesses for the freshness window, the replay guard, the selector and the header.
use quietquic.HashSet
use quietquic.Freshness.{is_fresh, is_fresh_iff}
use quietquic.Prelude.{
  ℕ, ◌+◌, ◌≤◌, ◌≡◌, ◌↔◌, ◌⊎◌, ◌&&◌, refl, Bool, true, false, some, List, [], ◌∷◌, arith, All, ltb,
}
use quietquic.Replay.{Sighting, Sighting-discrete, ReplayGuard, check_and_record}
use quietquic.Replay.History.{
  Call, run, recorded, is_in, run-recorded, check_and_record_once, check_and_record_bounded,
}
use quietquic.Selector.{DcidParts, compute_selector, parse_dcid, build_dcid, selector_matches}
use quietquic.Selector.Bytes.{IsByte, from_le_bytes}
use quietquic.Selector.Wire.{parse_dcid-build_dcid, selector_matches-build_dcid_iff}
use quietquic.Tests.{toy_hash, cid_of_client, initial_packet}
use quietquic.Transport.{peek_dcid}
use quietquic.Transport.Header.{LongHeader, peek_dcid_iff}

is_fresh_iff_example : (is_fresh 100 102 2 ≡ true) ↔ ((102 ≤ 100 + 2) × (100 ≤ 102 + 2))
is_fresh_iff_example = is_fresh_iff 100 102 2 (omega arith)

abbrev nonce : List ℕ
nonce = 1 ∷ 2 ∷ 3 ∷ 4 ∷ 5 ∷ 6 ∷ 7 ∷ 8 ∷ []

abbrev first_call : Call
first_call = record { nonce = nonce; freshness = 100; now = 100 }

abbrev other_call : Call
other_call = record { nonce = []; freshness = 101; now = 101 }

run-recorded_example :
    is_in (nonce, 100) (run 2 (other_call ∷ first_call ∷ []))
    ≡ recorded 2 (other_call ∷ first_call ∷ []) (nonce, 100)
run-recorded_example = run-recorded 2 (other_call ∷ first_call ∷ []) (nonce, 100)

check_and_record_once_example :
    (check_and_record (run 2 (other_call ∷ first_call ∷ [])) nonce 100 102).1 ≡ false
check_and_record_once_example =
    check_and_record_once 2 (other_call ∷ []) [] first_call 102 (omega arith, tt) (omega arith)

abbrev one_seen : ReplayGuard
one_seen = record { window = 2; seen = (nonce, 100) ∷ [] }

one_kept : is_in (nonce, 100) (check_and_record one_seen [] 101 101).0 ≡ true
unfolding check_and_record HashSet.insert HashSet.contains HashSet.retain Sighting-discrete
one_kept = refl

check_and_record_bounded_example : (Path Sighting (nonce, 100) ([], 101)) ⊎ (101 ≤ 100 + 2)
check_and_record_bounded_example =
    check_and_record_bounded one_seen [] 101 101 (nonce, 100) one_kept

abbrev parts : DcidParts
parts = record { nonce = nonce; freshness = 100; selector = 7 ∷ 7 ∷ 7 ∷ 7 ∷ 7 ∷ 7 ∷ 7 ∷ 7 ∷ [] }

abbrev all_small : List ℕ → Bool
all_small [] = true
all_small (b ∷ bs) = ltb b 256 && all_small bs

all_small-IsByte : (bs : List ℕ) → all_small bs ≡ true → All IsByte bs
all_small-IsByte [] h = tt
all_small-IsByte (b ∷ bs) h = (ground (arith, h), all_small-IsByte bs (ground (arith, h)))

pub cid_bytes : All IsByte cid_of_client
cid_bytes = all_small-IsByte cid_of_client refl

parsed : parse_dcid cid_of_client ≡ some parts
unfolding parse_dcid from_le_bytes
parsed = refl

parse_dcid-build_dcid_example :
    parse_dcid (build_dcid toy_hash (7 ∷ []) nonce 100)
    ≡ some (record {
      nonce = nonce;
      freshness = 100;
      selector = compute_selector toy_hash (7 ∷ []) nonce 100;
    })
parse_dcid-build_dcid_example = parse_dcid-build_dcid toy_hash (7 ∷ []) nonce 100 refl (omega arith)

selector_matches-build_dcid_iff_example :
    (selector_matches toy_hash (7 ∷ []) parts ≡ true)
    ↔ (build_dcid toy_hash (7 ∷ []) parts.nonce parts.freshness ≡ cid_of_client)
selector_matches-build_dcid_iff_example =
    selector_matches-build_dcid_iff toy_hash (7 ∷ []) cid_of_client parts cid_bytes parsed

pub packet_bytes : All IsByte initial_packet
packet_bytes = all_small-IsByte initial_packet refl

peek_dcid_iff_example :
    (peek_dcid initial_packet ≡ some cid_of_client) ↔ LongHeader initial_packet cid_of_client
peek_dcid_iff_example = peek_dcid_iff initial_packet cid_of_client packet_bytes
