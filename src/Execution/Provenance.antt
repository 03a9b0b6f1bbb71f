-- ===== src/Execution/Provenance.antt =====
-- provenance.py: a producer's signatures on a contract.
pub mod Signed
use bhiv_qcg.Prelude.{String, not, ◌||◌, ◌==◌, if◌then◌else◌}
use bhiv_qcg.Prelude.Hashing.{Hashing, Json, str, real, object, Fields, end, field}
use bhiv_qcg.Services.{any_dict}
use bhiv_qcg.Trust.Proof.{NodeProof, Verifier, NodeSigner, sign_payload, verify_node_proof}
use bhiv_qcg.Execution.Contract.{FloatText, ComputationExecutionContract, canonical_hash, with_hash}

pub data ProvenanceStatus : Type 0 where
  verified unverified tampered : ProvenanceStatus

-- `contract.to_dict()` without "timestamp" and "contract_signature"
unfoldable pub det_dict : FloatText → ComputationExecutionContract → Json
det_dict fl c = object (
    field "producer_type" (str c.producer_type) (
      field "payload" (any_dict c.payload) (
        field "confidence" (real (fl.plain c.confidence)) (
          field "trace_id" (str c.trace_id) (
            field "contract_version" (str c.contract_version) (
              field "execution_constraints" (any_dict c.execution_constraints) (
                field "payload_hash" (str c.payload_hash) (
                  field "execution_classification" (str c.execution_classification) (
                    field "execution_path" (str c.execution_path) (
                      field "producer_id" (str c.producer_id)
                        (field "producer_signature" (str c.producer_signature) end)))))))))))

module _ (h : Hashing) (fl : FloatText) where
  -- The contract with the producer's id and its signature of the payload hash
  unfoldable pub with_producer :
      ComputationExecutionContract → NodeSigner → ComputationExecutionContract
  with_producer c signer = record c {
    producer_id = signer.identity.node_id;
    producer_signature = (sign_payload h signer c.payload_hash).signature;
  }

  -- `sign_contract`
  unfoldable pub sign_contract :
      ComputationExecutionContract → NodeSigner → ComputationExecutionContract
  sign_contract c signer =
      let c' = with_producer c signer in
      with_hash h (record c' {
        contract_signature = (sign_payload h signer (h.dumps (det_dict fl c'))).signature;
      })

  unfoldable pub producer_proof : ComputationExecutionContract → NodeProof
  producer_proof c = record {
    node_id = c.producer_id;
    signature = c.producer_signature;
    signed_hash = h.sha256 c.payload_hash;
  }

  unfoldable pub contract_proof : ComputationExecutionContract → NodeProof
  contract_proof c = record {
    node_id = c.producer_id;
    signature = c.contract_signature;
    signed_hash = h.sha256 (h.dumps (det_dict fl c));
  }

  -- `verify_contract_provenance`
  unfoldable pub verify_contract_provenance :
      Verifier → ComputationExecutionContract → String → ProvenanceStatus
  verify_contract_provenance verify c key =
      if c.producer_signature == "" || c.contract_signature == "" || c.producer_id == ""
      then unverified
      else if not (c.payload_hash == canonical_hash h c.payload)
      then tampered
      else if not (verify_node_proof h verify (producer_proof c) key c.payload_hash)
      then tampered
      else if not (verify_node_proof h verify (contract_proof c) key (h.dumps (det_dict fl c)))
      then tampered
      else verified
