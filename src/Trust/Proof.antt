-- ===== src/Trust/Proof.antt =====
-- node_identity.py: proofs over a payload. ECDSA is a parameter: of a signer its function from a text to
-- a signature, and the verifier, which is False also where the `cryptography` package raises.
use bhiv_qcg.Prelude.{String, ◌≡◌, Bool, true, false, not, ◌==◌, if◌then◌else◌}
use bhiv_qcg.Prelude.Hashing.{Hashing}

pub record NodeIdentity : Type 0 where
  pub node_id : String
  pub public_key : String
  pub node_role : String
  pub version : String

pub record NodeProof : Type 0 where
  pub node_id : String
  pub signature : String
  pub signed_hash : String

-- Public key, signature and text.
abbrev pub Verifier : Type 0
Verifier = String → String → String → Bool

pub record NodeSigner : Type 0 where
  pub identity : NodeIdentity
  pub sign : String → String

-- What the documentation of ECDSA says: a signature verifies under the public key of its signer.
abbrev pub IsSound : Verifier → NodeSigner → Type 0
IsSound verify signer =
    (text : String) → verify signer.identity.public_key (signer.sign text) text ≡ true

module _ (h : Hashing) where
  -- `sign_payload`, on the text of the payload
  unfoldable pub sign_payload : NodeSigner → String → NodeProof
  sign_payload signer text = record {
    node_id = signer.identity.node_id;
    signature = signer.sign text;
    signed_hash = h.sha256 text;
  }

  -- `verify_node_proof` with a payload, on its text
  unfoldable pub verify_node_proof : Verifier → NodeProof → String → String → Bool
  verify_node_proof verify proof public_key text =
      if not (h.sha256 text == proof.signed_hash)
      then false
      else verify public_key proof.signature text
