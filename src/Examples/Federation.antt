-- ===== src/Examples/Federation.antt =====
-- Two nodes that record one event.
use bhiv_qcg.Prelude.{◌≡◌, refl, true, false, [], ◌∷◌, arith, eq_iff}
use bhiv_qcg.Prelude.Hashing.{Hashing, str}
use bhiv_qcg.Chain.{verify_from}
use bhiv_qcg.Federation.{
  FederationEvent, other, Store, AuditLog, genesis, new_log, deref, record_event, verify_chain,
}
use bhiv_qcg.Federation.Shared.{record_event_shared}
use bhiv_qcg.Examples.Toy.{plain}

abbrev h : Hashing
h = plain "previous_hash"

abbrev event : FederationEvent
event = record {
  event_id = "e";
  event_type = "SERVICE_REGISTERED";
  source_node_id = "a";
  target_node_id = "";
  payload = other (str "p");
  vector_clock = ("a", 1) ∷ [];
  timestamp = "t";
  nonce = "n";
  event_hash = "";
  previous_event_hash = "";
}

abbrev store : Store
store = event ∷ []

-- The peer has recorded other events before.
abbrev peer : AuditLog
peer = record { events = []; head_hash = "other"; sequence = 4 }

empty_verifies : verify_chain h store (new_log h) ≡ true
unfolding verify_chain deref verify_from
empty_verifies = refl

record_event_shared_example :
    let (store', a') = record_event h 0 store (new_log h) in
    let (store'', b') = record_event h 0 store' peer in
    (verify_chain h store' a' ≡ true) × (verify_chain h store'' a' ≡ false)
record_event_shared_example =
    record_event_shared h store (new_log h) peer 0 event refl tt empty_verifies
      (λ e. ground (arith, (eq_iff "other" (genesis h)).1 e))
