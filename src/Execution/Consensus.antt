-- ===== src/Execution/Consensus.antt =====
-- consensus_simulation.py: nodes that attest to the hash of an execution, and the engine that counts
-- their votes. The threshold is in hundredths; the share of the votes is kept as their number.
pub mod Votes
pub mod Quorum
use Prim.Native.String.{◌++◌ as text_append}
use bhiv_qcg.Prelude.{
  ℕ, ◌+◌, ◌*◌, ◌/◌, String, Bool, true, false, not, ◌&&◌, Option, none, some, List, [], ◌∷◌, ◌++◌,
  ◌==◌, ltb, leb, if◌then◌else◌, length,
}
use bhiv_qcg.Prelude.Dict.{Dict, lookup, insert}
use bhiv_qcg.Prelude.Hashing.{Hashing}
use bhiv_qcg.Trust.Proof.{NodeProof, Verifier, NodeSigner, sign_payload, verify_node_proof}
use bhiv_qcg.Execution.Contract.{FloatText, ComputationExecutionContract, is_empty}
use bhiv_qcg.Execution.Core.{Ack, ack_text, ExecutionResult, is_part}
use bhiv_qcg.Execution.Provenance.{
  ProvenanceStatus, verified, unverified, tampered, verify_contract_provenance,
}

pub record NodeAttestation : Type 0 where
  pub node_id : String
  pub agreement_hash : String
  pub status : String
  pub signature : String
  pub public_key : String

-- A node signs, and executes through its own `RuntimeCore`.
pub record DistributedConsensusNode : Type 0 where
  pub signer : NodeSigner
  pub runtime : ComputationExecutionContract → ExecutionResult

-- Why a node disagrees; of a divergent hash the program shows the first eight characters.
pub data Disagreement : Type 0 where
  missing_participant signature_invalid : Disagreement
  by_status : String → Disagreement
  divergent_hash : String → Disagreement

pub record ConsensusProof : Type 0 where
  pub participating_nodes : List String
  pub final_hash : String
  pub agreement_count : ℕ
  pub consensus_reached : Bool
  pub disagreements : Dict Disagreement
  pub consensus_round : ℕ
  pub quorum_size : ℕ
  pub node_attestations : Dict NodeAttestation

unfoldable pub provenance_text : ProvenanceStatus → String
provenance_text verified = "VERIFIED"
provenance_text unverified = "UNVERIFIED"
provenance_text tampered = "TAMPERED"

abbrev pub is_verified : ProvenanceStatus → Bool
is_verified verified = true
is_verified _ = false

-- The three things that the loop over the nodes collects
pub record Round : Type 0 where
  pub attestations : Dict NodeAttestation
  pub disagreements : Dict Disagreement
  pub participating : List String

-- The hash that an attestation votes for, if it does
unfoldable pub vote : NodeAttestation → Option String
vote a =
    if not (a.agreement_hash == "") && not (is_part "PROVENANCE_FAILURE" a.status)
    then some a.agreement_hash
    else none

abbrev pub or_zero : Option ℕ → ℕ
or_zero none = 0
or_zero (some n) = n

abbrev pub count_vote : Option String → Dict ℕ → Dict ℕ
count_vote none counts = counts
count_vote (some hash) counts = insert hash (or_zero (lookup hash counts) + 1) counts

-- `hash_counts`
unfoldable pub hash_counts : Dict NodeAttestation → Dict ℕ → Dict ℕ
hash_counts [] counts = counts
hash_counts ((nid, a) ∷ rest) counts = hash_counts rest (count_vote (vote a) counts)

-- `max(hash_counts, key=hash_counts.get)`: the first of the largest, after the one found so far
unfoldable pub majority : String × ℕ → Dict ℕ → String × ℕ
majority best [] = best
majority (hash, n) ((hash', n') ∷ rest) =
    if ltb n n' then majority (hash', n') rest else majority (hash, n) rest

-- The loop that tells who diverges from the majority
unfoldable pub divergences : String → Dict NodeAttestation → Dict Disagreement → Dict Disagreement
divergences hash [] ds = ds
divergences hash ((nid, a) ∷ rest) ds = divergences hash rest (
    if a.agreement_hash == hash
    then ds
    else insert nid
        (if a.status == "OK" then divergent_hash a.agreement_hash else by_status a.status) ds)

unfoldable pub all_disagree : Dict NodeAttestation → Dict Disagreement → Dict Disagreement
all_disagree [] ds = ds
all_disagree ((nid, a) ∷ rest) ds = all_disagree rest (insert nid (by_status a.status) ds)

abbrev pub is_named : Option String → String → Bool
is_named none nid = false
is_named (some s) nid = nid == s

module _ (h : Hashing) (fl : FloatText) (verify : Verifier) where
  abbrev pub attest : NodeSigner → String → String → NodeAttestation
  attest signer hash status = record {
    node_id = signer.identity.node_id;
    agreement_hash = hash;
    status = status;
    signature = (sign_payload h signer hash).signature;
    public_key = signer.identity.public_key;
  }

  -- `DistributedConsensusNode.process`
  unfoldable pub process :
      ComputationExecutionContract → String → DistributedConsensusNode → NodeAttestation
  process c producer_pub_key node =
      let status = verify_contract_provenance h fl verify c producer_pub_key in
      let executed = node.runtime c in
      let text = ack_text fl executed.ack in
      if not (is_verified status)
      then attest node.signer "" (text_append "PROVENANCE_FAILURE:" (provenance_text status))
      else attest node.signer executed.runtime_hash
          (if is_part "HALT" text then text_append "EXECUTION_HALT:" text else "OK")

  -- A node whose fault is simulated signs another hash.
  unfoldable pub attestation_of :
      ComputationExecutionContract
      → String
      → Option String
      → DistributedConsensusNode
      → NodeAttestation
  attestation_of c key simulate_faulty node =
      let honest = process c key node in
      if is_named simulate_faulty node.signer.identity.node_id
      then attest node.signer (h.sha256 "faulty_data") honest.status
      else honest

  -- The loop over the nodes
  unfoldable pub collect :
      ComputationExecutionContract
      → String
      → Option String
      → Option String
      → List DistributedConsensusNode
      → Round
      → Round
  collect c key faulty missing [] r = r
  collect c key faulty missing (node ∷ nodes) r =
      let nid = node.signer.identity.node_id in
      collect c key faulty missing nodes (
        if is_named missing nid
        then record r { disagreements = insert nid missing_participant r.disagreements }
        else record r {
          attestations = insert nid (attestation_of c key faulty node) r.attestations;
          participating = r.participating ++ nid ∷ [];
        })

  abbrev pub is_signed : String → NodeAttestation → Bool
  is_signed nid a =
      verify_node_proof h verify
        (record { node_id = nid; signature = a.signature; signed_hash = h.sha256 a.agreement_hash })
        a.public_key a.agreement_hash

  -- `verified_attestations`
  unfoldable pub verified_attestations : Dict NodeAttestation → Dict NodeAttestation
  verified_attestations [] = []
  verified_attestations ((nid, a) ∷ rest) =
      let others = verified_attestations rest in
      if is_signed nid a then (nid, a) ∷ others else others

  unfoldable pub unsigned : Dict NodeAttestation → Dict Disagreement → Dict Disagreement
  unsigned [] ds = ds
  unsigned ((nid, a) ∷ rest) ds =
      unsigned rest (if is_signed nid a then ds else insert nid signature_invalid ds)

  -- The answer, from the counted votes
  unfoldable pub conclude :
      ℕ → ℕ → ℕ → Round → Dict Disagreement → Dict NodeAttestation → Dict ℕ → ConsensusProof
  conclude threshold total round r ds voters [] = record {
    participating_nodes = r.participating;
    final_hash = "NO_CONSENSUS";
    agreement_count = 0;
    consensus_reached = false;
    disagreements = all_disagree voters ds;
    consensus_round = round;
    quorum_size = (total * threshold + 99) / 100;
    node_attestations = r.attestations;
  }
  conclude threshold total round r ds voters (first ∷ rest) =
      let (hash, n) = majority first rest in
      let reached = leb (threshold * total) (100 * n) in
      record {
        participating_nodes = r.participating;
        final_hash = if reached then hash else "NO_CONSENSUS";
        agreement_count = n;
        consensus_reached = reached;
        disagreements = divergences hash voters ds;
        consensus_round = round;
        quorum_size = (total * threshold + 99) / 100;
        node_attestations = r.attestations;
      }

  unfoldable pub count_round : ℕ → ℕ → ℕ → Round → ConsensusProof
  count_round threshold total round r =
      let voters = verified_attestations r.attestations in
      if is_empty r.participating
      then record {
        participating_nodes = [];
        final_hash = "";
        agreement_count = 0;
        consensus_reached = false;
        disagreements = r.disagreements;
        consensus_round = round;
        quorum_size = (total * threshold + 99) / 100;
        node_attestations = [];
      }
      else conclude threshold total round r (unsigned r.attestations r.disagreements) voters
          (hash_counts voters [])

  -- `run_consensus`
  unfoldable pub run_consensus :
      ℕ
      → List DistributedConsensusNode
      → ComputationExecutionContract
      → String
      → Option String
      → Option String
      → ℕ
      → ConsensusProof
  run_consensus threshold nodes c producer_pub_key simulate_faulty simulate_missing round =
      count_round threshold (length nodes) round (
        collect c producer_pub_key simulate_faulty simulate_missing nodes
          (record { attestations = []; disagreements = []; participating = [] }))
