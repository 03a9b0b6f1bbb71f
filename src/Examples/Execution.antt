-- ===== src/Examples/Execution.antt =====
-- A contract is signed, checked by the governance layer, executed, and agreed on by two nodes of three.
use text.Mathlib.TextLemmas.{append-eq-nil_iff}
use bhiv_qcg.Prelude.{
  String, ◌≡◌, refl, ◌≢◌, ◌↔◌, true, false, none, some, List, [], ◌∷◌, arith, ◌==◌, eq_iff, eq_refl,
  length,
}
use Prim.Native.String.{◌++◌ as text_append}
use bhiv_qcg.Prelude.Dict.{lookup, insert}
use bhiv_qcg.Prelude.Order.{pos, lex}
use bhiv_qcg.Prelude.Hashing.{Hashing, str, object, end}
use bhiv_qcg.Trust.Proof.{sign_payload, verify_node_proof, Verifier, NodeSigner, IsSound}
use bhiv_qcg.Execution.Contract.{
  default_config, FloatText, ComputationExecutionContract, unauthorized_producer, below_minimum,
  error_text, validate_contract, version_error, parse_semver, canonical_hash, with_hash,
}
use bhiv_qcg.Execution.Contract.Valid.{IsContract, validate_contract-iff-IsContract}
use bhiv_qcg.Execution.Core.{
  ok, Invocation, responded, execute, ExecutionResult, result, path_seed, ack_text, ack_of,
  ack_by_confidence, ack_of_invocation,
}
use bhiv_qcg.Execution.Core.Acknowledged.{IsAcknowledged}
use bhiv_qcg.Sdk.Breaker.{current, allow_request}
use bhiv_qcg.Sdk.Evidence.{record_evidence}
use bhiv_qcg.Sdk.Manifest.{response, validate_manifest_raises, fetch_metadata}
use bhiv_qcg.Sdk.Invocation.{
  Network, get_breaker, try_from, conclude as conclude_invocation, invoke_service,
  invoke_capability,
}
use bhiv_qcg.Sdk.Invocation.Served.{IsServed}
use bhiv_qcg.Execution.Remote.{
  SdkConfig, contract_dict, remote_request, invocation_of, new_sdk, execute_remotely,
}
use bhiv_qcg.Execution.Remote.Answered.{execute_remotely-IsServed}
use bhiv_qcg.Execution.Governance.{GovernanceLayer, executed, enforce}
use bhiv_qcg.Execution.Governance.Admitted.{enforce_strict}
use bhiv_qcg.Execution.Provenance.{
  verified, with_producer, det_dict, producer_proof, contract_proof, sign_contract,
  verify_contract_provenance,
}
use bhiv_qcg.Execution.Provenance.Signed.{sign_contract_verifies}
use bhiv_qcg.Execution.Consensus.{
  DistributedConsensusNode, ConsensusProof, run_consensus, verified_attestations, collect,
  attestation_of, process, count_round, hash_counts, vote, majority, conclude,
}
use bhiv_qcg.Execution.Consensus.Votes.{IsQuorum}
use bhiv_qcg.Execution.Consensus.Quorum.{run_consensus-iff-IsQuorum}
use bhiv_qcg.Examples.Toy.{plain}

abbrev h : Hashing
h = plain "none"

abbrev fl : FloatText
fl = record { plain = λ c. "0.95"; fixed4 = λ c. "0.9500" }

abbrev contract : ComputationExecutionContract
contract = record {
  producer_type = "QUANTUM";
  payload = ("data", str "pair") ∷ [];
  confidence = pos 9500;
  trace_id = "tr-1";
  contract_version = "2.0.1";
  execution_constraints = [];
  payload_hash = "#";
  execution_classification = "CLASSICAL";
  execution_path = "LOCAL";
  producer_id = "";
  producer_signature = "";
  contract_signature = "";
  timestamp = "now";
}

accepted : validate_contract h default_config none none contract ≡ none
unfolding validate_contract version_error parse_semver canonical_hash lex
accepted = refl

refused :
    validate_contract h default_config none none (record contract { contract_version = "1.9.9" })
    ≡ some (below_minimum "1.9.9" "2.0.0")
unfolding validate_contract version_error parse_semver canonical_hash lex
refused = refl

error_words :
    error_text fl (unauthorized_producer "X" ("QUANTUM" ∷ "CLASSICAL" ∷ []))
    ≡ "Unauthorized producer type 'X'. Allowed: ['CLASSICAL', 'QUANTUM']"
unfolding error_text lex
error_words = refl

validate_contract-iff-IsContract_example :
    (validate_contract h default_config none none contract ≡ none)
    ↔ IsContract h default_config.allowed_producer_types default_config.minimum_contract_version
        contract
validate_contract-iff-IsContract_example =
    validate_contract-iff-IsContract h default_config none none contract

abbrev invoke : ComputationExecutionContract → Invocation
invoke c = responded "SUCCESS" ""

abbrev core : ComputationExecutionContract → ExecutionResult
core = execute h fl default_config true invoke ""

-- The remote runtime answers at the first attempt.
abbrev answering : Network
answering = record {
  negotiation = record {
    status = "COMPATIBLE";
    negotiated_version = none;
    message = "";
    as_dict = object end;
  };
  service_found = true;
  metadata = [];
  attempt = λ i. response (object end);
  attempt_time = λ i. 0;
  now = 0;
}

abbrev settings : SdkConfig
settings = record { max_retries = 3; threshold = 5; timeout = 60000; trust_method = "CLASSICAL" }

execute_remotely-IsServed_example :
    IsAcknowledged h fl default_config false
      (invocation_of
        (λ j. responded "OK" "")
        (invoke_capability h false
          (remote_request fl "inv-1" contract)
          answering
          (new_sdk h settings)).0)
      contract
    × IsServed (remote_request fl "inv-1" contract) answering (new_sdk h settings)
unfolding validate_manifest_raises fetch_metadata execute_remotely execute result ack_of
    ack_by_confidence ack_of_invocation invocation_of invoke_capability invoke_service try_from
    conclude_invocation allow_request current get_breaker remote_request contract_dict
    validate_contract version_error parse_semver canonical_hash lex lookup record_evidence
execute_remotely-IsServed_example =
    execute_remotely-IsServed h fl (λ j. responded "OK" "") default_config settings "inv-1"
      answering "" contract (result h fl contract ok "") refl refl

abbrev strict_layer : GovernanceLayer
strict_layer = record {
  strict = true;
  allowed_producers = "QUANTUM" ∷ [];
  minimum_version = "2.0.0";
  violations = [];
}

enforce_strict_example :
    ((enforce h fl default_config core strict_layer contract).0 ≡ executed (core contract))
    ↔ IsContract h strict_layer.allowed_producers strict_layer.minimum_version contract
enforce_strict_example =
    enforce_strict h fl default_config core strict_layer contract refl refl
      (λ e. ground (arith, eq_iff "2.0.0" "", e))

abbrev lenient_layer : GovernanceLayer
lenient_layer = record strict_layer { strict = false; allowed_producers = "HYBRID" ∷ [] }

abbrev signer : String → NodeSigner
signer name = record {
  identity = record { node_id = name; public_key = "key"; node_role = ""; version = "" };
  sign = λ text. text_append "s" text;
}

abbrev verify : Verifier
verify key signature text = signature == text_append "s" text

signer-IsSound : (name : String) → IsSound verify (signer name)
signer-IsSound name text = eq_refl (text_append "s" text)

signs : (text : String) → text_append "s" text ≢ ""
signs text e = ground (arith, eq_iff "s" "", (append-eq-nil_iff.0 e).0)

sign_contract_verifies_example :
    verify_contract_provenance h fl verify (sign_contract h fl contract (signer "P")) "key"
    ≡ verified
sign_contract_verifies_example =
    sign_contract_verifies h fl verify contract (signer "P") (signer-IsSound "P") signs
      (λ e. ground (arith, eq_iff "P" "", e)) (λ e. ground (arith, eq_iff "#" "", e))
      (unfold canonical_hash in refl)

abbrev nodes : List DistributedConsensusNode
nodes =
    record { signer = signer "A"; runtime = core }
    ∷ record { signer = signer "B"; runtime = core }
    ∷ record { signer = signer "C"; runtime = core }
    ∷ []

abbrev proof : ConsensusProof
proof =
    run_consensus h fl verify 66 nodes (sign_contract h fl contract (signer "P")) "key" none
      (some "C") 1

run_consensus-iff-IsQuorum_example :
    ((proof.consensus_reached ≡ true) × (proof.final_hash ≡ "#"))
    ↔ IsQuorum 66 (length nodes) "#" (verified_attestations h fl verify proof.node_attestations)
run_consensus-iff-IsQuorum_example =
    run_consensus-iff-IsQuorum h fl verify 66 nodes (sign_contract h fl contract (signer "P")) "key"
      none (some "C") 1 "#" (omega arith)

agreed : (proof.consensus_reached ≡ true) × (proof.final_hash ≡ "#")
unfolding run_consensus collect attestation_of process verify_contract_provenance sign_contract
    with_producer sign_payload det_dict with_hash canonical_hash producer_proof contract_proof
    verify_node_proof execute result path_seed ack_text ack_of ack_by_confidence validate_contract
    version_error parse_semver lex count_round verified_attestations hash_counts vote majority
    conclude lookup insert
agreed = (refl, refl)
