-- ===== src/Examples/Ledgers.antt =====
-- An evidence ledger and a lease manager on which the theorems are applied.
use bhiv_qcg.Prelude.{ℕ, String, ◌≡◌, refl, ◌⊎◌, true, false, none, some, List, [], ◌∷◌}
use bhiv_qcg.Prelude.Dict.{lookup, insert}
use bhiv_qcg.Prelude.Hashing.{Clash}
use bhiv_qcg.Merkle.{root_of, build_merkle_tree}
use bhiv_qcg.EvidenceLedger.{
  ExecutionRecord, EvidenceLedger, genesis, open_ledger, get_merkle_root, verify_chain,
}
use bhiv_qcg.EvidenceLedger
use bhiv_qcg.EvidenceLedger.Root.{get_merkle_root-eq-root_of}
use bhiv_qcg.EvidenceLedger.Verified.{ledger_verifies}
use bhiv_qcg.EvidenceLedger.Tamper.{chain_texts, execution_hashes, ledger_detects}
use bhiv_qcg.Leases
use bhiv_qcg.Leases.{
  HeartbeatManager, Call, grants, beats, revokes, checks, has_active_lease, receive_heartbeat,
}
use bhiv_qcg.Leases.Expiry.{cover, in_force, has_active_lease-eq-in_force}
use bhiv_qcg.Leases.Stopped.{IsStopped}
use bhiv_qcg.Examples.Toy.{plain, sized, sized-IsDocumented}

abbrev execution : String → String → ExecutionRecord
execution hash previous = record {
  execution_id = "e";
  trace_id = "t";
  replay_reference = "r";
  execution_sequence = 1;
  producer_identity = "p";
  runtime_identity = "q";
  governance_identity = "g";
  execution_status = "SUCCESS";
  runtime_hash = "x";
  execution_hash = hash;
  previous_execution_hash = previous;
  execution_root_hash = "y";
  schema_version = "1";
}

abbrev executions : List ExecutionRecord
executions = execution "a" "" ∷ execution "b" "wrong" ∷ execution "c" "" ∷ []

get_merkle_root-eq-root_of_example :
    get_merkle_root (plain "k") ("a" ∷ "b" ∷ "c" ∷ [])
    ≡ root_of (build_merkle_tree (plain "k") ("a" ∷ "b" ∷ "c" ∷ []))
get_merkle_root-eq-root_of_example = get_merkle_root-eq-root_of (plain "k") "a" ("b" ∷ "c" ∷ [])

ledger_verifies_example :
    (verify_chain
        (plain "k")
        (EvidenceLedger.run (plain "k") executions (open_ledger (plain "k") false none))
      ≡ some true)
    × (open_ledger
          (plain "k")
          true
          (EvidenceLedger.run (plain "k") executions (open_ledger (plain "k") true none)).file
        ≡ EvidenceLedger.run (plain "k") executions (open_ledger (plain "k") true none))
ledger_verifies_example = ledger_verifies (plain "k") false executions

abbrev kept : EvidenceLedger.EvidenceLedger
kept = EvidenceLedger.run sized executions (open_ledger sized false none)

-- A ledger of other executions, with one head under the constant digest.
abbrev others : List ExecutionRecord
others = execution "d" "" ∷ execution "b" "wrong" ∷ execution "c" "" ∷ []

abbrev other_ledger : EvidenceLedger.EvidenceLedger
other_ledger = EvidenceLedger.run sized others (open_ledger sized false none)

ledger_detects_example :
    (execution_hashes sized sized-IsDocumented kept.records
      ≡ execution_hashes sized sized-IsDocumented other_ledger.records)
    ⊎ Clash sized
        (chain_texts sized (genesis sized) kept.records)
        (chain_texts sized (genesis sized) other_ledger.records)
unfolding EvidenceLedger.run EvidenceLedger.append EvidenceLedger.extended
    EvidenceLedger.save_to_disk open_ledger EvidenceLedger.hash_pair
ledger_detects_example =
    ledger_detects sized sized-IsDocumented kept other_ledger refl refl
      (ledger_verifies sized false executions).0 (ledger_verifies sized false others).0

abbrev no_leases : HeartbeatManager
no_leases = record { ttl = 30; leases = [] }

abbrev calls : List (ℕ × Call)
calls = (0, grants "svc" none "u") ∷ (5, beats "svc") ∷ (40_000_000, checks) ∷ []

has_active_lease-eq-in_force_example :
    has_active_lease "svc" 7 (Leases.run calls no_leases) ≡ in_force 7 (cover 30 "svc" calls none)
has_active_lease-eq-in_force_example = has_active_lease-eq-in_force 30 calls "svc" 7

abbrev stopped : HeartbeatManager
stopped = Leases.run ((0, grants "svc" none "u") ∷ (1, revokes "svc") ∷ []) no_leases

svc-IsStopped : IsStopped "svc" stopped
unfolding Leases.run Leases.run_call Leases.grant_lease Leases.revoke_lease Leases.revoke_found
    lookup insert
svc-IsStopped = refl
