-- ===== src/Trust/Custody.antt =====
-- trust_chain.py: `NodeRegistry` and `TrustChain`. An error text is kept as the numbers and ids it words.
use bhiv_qcg.Prelude.{
  ℕ, ◌+◌, String, Bool, not, Option, none, some, List, [], ◌∷◌, ◌++◌, ◌==◌, eqb, if◌then◌else◌,
  length,
}
use bhiv_qcg.Prelude.Dict.{Dict, lookup, insert, contains}
use bhiv_qcg.Prelude.Hashing.{Hashing, Json, str, object, end, field}
use bhiv_qcg.Trust.Proof.{
  NodeIdentity, NodeProof, Verifier, NodeSigner, sign_payload, verify_node_proof,
}

abbrev pub NodeRegistry : Type 0
NodeRegistry = Dict NodeIdentity

unfoldable pub register : NodeIdentity → NodeRegistry → NodeRegistry
register identity nodes = insert identity.node_id identity nodes

unfoldable pub is_registered : String → NodeRegistry → Bool
is_registered node_id nodes = contains node_id nodes

pub record TrustChainLink : Type 0 where
  pub from_node : String
  pub to_node : String
  pub action : String
  pub signature : String
  pub payload_hash : String

pub data TrustError : Type 0 where
  not_registered bad_signature : ℕ → String → TrustError
  chain_break : ℕ → String → String → TrustError

unfoldable pub handoff_data : String → String → String → String → Json
handoff_data from_node to_node action payload_hash = object (
    field "from_node" (str from_node) (
      field "to_node" (str to_node)
        (field "action" (str action) (field "payload_hash" (str payload_hash) end))))

module _ (h : Hashing) where
  -- The text that a link's sender signs.
  abbrev pub handoff_text : TrustChainLink → String
  handoff_text l = h.dumps (handoff_data l.from_node l.to_node l.action l.payload_hash)

  unfoldable pub handoff_hash : TrustChainLink → String
  handoff_hash l = h.sha256 (handoff_text l)

  unfoldable pub add_handoff :
      NodeSigner
      → NodeIdentity
      → String
      → String
      → List TrustChainLink
      → TrustChainLink × List TrustChainLink
  add_handoff signer to_identity action payload_hash links =
      let text =
        h.dumps (handoff_data signer.identity.node_id to_identity.node_id action payload_hash) in
      let link : TrustChainLink = record {
        from_node = signer.identity.node_id;
        to_node = to_identity.node_id;
        action = action;
        signature = (sign_payload h signer text).signature;
        payload_hash = payload_hash;
      } in
      (link, links ++ link ∷ [])

  -- The proof that `verify_chain` rebuilds from a link
  unfoldable pub proof_of : TrustChainLink → NodeProof
  proof_of l = record {
    node_id = l.from_node;
    signature = l.signature;
    signed_hash = h.sha256 (handoff_text l);
  }

  module _ (verify : Verifier) where
    unfoldable pub signature_errors : ℕ → TrustChainLink → NodeIdentity → List TrustError
    signature_errors i l sender =
        if not (verify_node_proof h verify (proof_of l) sender.public_key (handoff_text l))
        then bad_signature i l.from_node ∷ []
        else []

    unfoldable pub break_errors : ℕ → Option TrustChainLink → TrustChainLink → List TrustError
    break_errors i none l = []
    break_errors i (some prev) l =
        if not (prev.to_node == l.from_node)
        then chain_break i prev.to_node l.from_node ∷ []
        else []

    -- The body of the loop, from what the registry holds of the sender
    unfoldable pub link_errors :
        ℕ → Option TrustChainLink → TrustChainLink → Option NodeIdentity → List TrustError
    link_errors i prev l none = not_registered i l.from_node ∷ []
    link_errors i prev l (some sender) = signature_errors i l sender ++ break_errors i prev l

    unfoldable pub errors_from :
        NodeRegistry → ℕ → Option TrustChainLink → List TrustChainLink → List TrustError
    errors_from nodes i prev [] = []
    errors_from nodes i prev (l ∷ links) =
        link_errors i prev l (lookup l.from_node nodes) ++ errors_from nodes (i + 1) (some l) links

    unfoldable pub verify_chain : NodeRegistry → List TrustChainLink → Bool × List TrustError
    verify_chain nodes links =
        let errors = errors_from nodes 0 none links in (eqb (length errors) 0, errors)
