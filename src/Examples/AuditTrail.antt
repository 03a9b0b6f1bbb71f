-- ===== src/Examples/AuditTrail.antt =====
-- A trail of two events.
use bhiv_qcg.Prelude.{◌≡◌, refl, ap, ◌⊎◌, Bool, true, List, map}
use bhiv_qcg.Prelude.Hashing.{Clash, object, end}
use bhiv_qcg.AuditTrail.{
  AuditEntry, MerkleAuditTrail, empty, append, leaf_hash, leaf_hashes, verify_integrity,
  integrity_errors, root_errors, gaps,
}
use bhiv_qcg.AuditTrail.Invariant.{IsValid, empty-IsValid, append-IsValid}
use bhiv_qcg.AuditTrail.Checks.{verify_integrity-IsValid}
use bhiv_qcg.AuditTrail.Tamper.{verify_integrity_detects}
use bhiv_qcg.Merkle.Tamper.{tree_texts}
use bhiv_qcg.Examples.Toy.{sized, sized-IsDocumented}

abbrev one_event : MerkleAuditTrail
one_event = append sized "CONTRACT_SIGNED" (object end) "NODE_0" "t0" empty

abbrev two_events : MerkleAuditTrail
two_events = append sized "CONSENSUS_REACHED" (object end) "NODE_1" "t1" one_event

append-IsValid_example : IsValid sized one_event
append-IsValid_example =
    append-IsValid sized "CONTRACT_SIGNED" (object end) "NODE_0" "t0" empty (empty-IsValid sized)

two_events-IsValid : IsValid sized two_events
two_events-IsValid =
    append-IsValid sized "CONSENSUS_REACHED" (object end) "NODE_1" "t1" one_event
      append-IsValid_example

-- The event of the second entry is rewritten, which the leaf hash does not cover.
abbrev edited : List AuditEntry
edited = map (λ (e : AuditEntry). record e { timestamp = "later" }) two_events.entries

edited_passes : (verify_integrity sized (record two_events { entries = edited })).0 ≡ true
unfolding append leaf_hash verify_integrity integrity_errors root_errors gaps
edited_passes =
    ap (λ (r : Bool × List _). r.0) (verify_integrity-IsValid sized two_events two_events-IsValid)

verify_integrity_detects_example :
    (leaf_hashes sized edited ≡ leaf_hashes sized two_events.entries)
    ⊎ Clash sized
        (tree_texts sized (leaf_hashes sized edited))
        (tree_texts sized (leaf_hashes sized two_events.entries))
unfolding append
verify_integrity_detects_example =
    verify_integrity_detects sized sized-IsDocumented two_events edited two_events-IsValid refl
      edited_passes
