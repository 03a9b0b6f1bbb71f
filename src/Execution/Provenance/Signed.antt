-- ===== src/Execution/Provenance/Signed.antt =====
-- provenance.py: what `verify_contract_provenance` answers of a contract, and of a signed one.
use bhiv_qcg.Prelude.{
  String, ◌≡◌, refl, sym, ◌∙◌, ◌≢◌, ◌↔◌, Bool, true, false, not, ◌||◌, arith, ◌==◌, eq_iff, eq_refl,
  if◌then◌else◌, eq_false,
}
use bhiv_qcg.Prelude.Hashing.{Hashing}
use bhiv_qcg.Trust.Proof.{NodeProof, Verifier, NodeSigner, IsSound, sign_payload, verify_node_proof}
use bhiv_qcg.Execution.Contract.{FloatText, ComputationExecutionContract, canonical_hash, with_hash}
use bhiv_qcg.Execution.Provenance.{
  verified, unverified, tampered, det_dict, with_producer, sign_contract, producer_proof,
  contract_proof, verify_contract_provenance,
}

module _ (h : Hashing) (fl : FloatText) (verify : Verifier) where
  -- Signed by the key, over a payload hash that is that of the payload.
  pub record IsOriginal (c : ComputationExecutionContract) (key : String) : Type 0 where
    pub has_producer : c.producer_id ≢ ""
    pub has_signature : c.producer_signature ≢ ""
    pub has_contract_signature : c.contract_signature ≢ ""
    pub is_intact : c.payload_hash ≡ canonical_hash h c.payload
    pub payload_signed : verify key c.producer_signature c.payload_hash ≡ true
    pub contract_signed : verify key c.contract_signature (h.dumps (det_dict fl c)) ≡ true

  proof_iff :
      (proof : NodeProof) (key text : String)
      → proof.signed_hash ≡ h.sha256 text
      → verify_node_proof h verify proof key text ≡ verify key proof.signature text
  unfolding verify_node_proof
  proof_iff proof key text e = rw (e, eq_refl (h.sha256 text)) refl

  -- The chain of tests ends in VERIFIED exactly when each passes.
  tests_iff :
      (b1 b2 b3 b4 b5 b6 : Bool)
      → ((if b1 || b2 || b3
            then unverified
            else if not b4
            then tampered
            else if not b5
            then tampered
            else if not b6
            then tampered
            else verified)
          ≡ verified)
        ↔ ((b1 ≡ false) × (b2 ≡ false) × (b3 ≡ false) × (b4 ≡ true) × (b5 ≡ true) × (b6 ≡ true))
  tests_iff b1 b2 b3 b4 b5 b6 = (
    (λ e. (ground arith, ground arith, ground arith, ground arith, ground arith, ground arith)),
    (λ k. ground arith),
  )

  -- A contract is VERIFIED under a key exactly when its producer and both signatures are named, its
  -- payload hash is that of its payload, and the signatures verify under the key, that of the producer
  -- over the payload hash and that of the contract over all its deterministic fields.
  verify_contract_provenance-iff-IsOriginal :
      (c : ComputationExecutionContract) (key : String)
      → (verify_contract_provenance h fl verify c key ≡ verified) ↔ IsOriginal c key
  unfolding verify_contract_provenance producer_proof contract_proof
  verify_contract_provenance-iff-IsOriginal c key =
      let hash = canonical_hash h c.payload in
      let text = h.dumps (det_dict fl c) in
      let payload = proof_iff (producer_proof h fl c) key c.payload_hash refl in
      let whole = proof_iff (contract_proof h fl c) key text refl in
      let tests =
        tests_iff (c.producer_signature == "") (c.contract_signature == "") (c.producer_id == "")
          (c.payload_hash == hash)
          (verify_node_proof h verify (producer_proof h fl c) key c.payload_hash)
          (verify_node_proof h verify (contract_proof h fl c) key text) in
      (
        (λ e.
            let k = tests.0 e in
            record {
              has_producer = λ p. ground (arith, (eq_iff c.producer_id "").1 p, k.2);
              has_signature = λ p. ground (arith, (eq_iff c.producer_signature "").1 p, k.0);
              has_contract_signature =
                  λ p. ground (arith, (eq_iff c.contract_signature "").1 p, k.1);
              is_intact = (eq_iff c.payload_hash hash).0 k.3;
              payload_signed = sym payload ∙ k.4;
              contract_signed = sym whole ∙ k.5;
            }),
        (λ o. tests.1 (
          eq_false c.producer_signature "" o.has_signature,
          eq_false c.contract_signature "" o.has_contract_signature,
          eq_false c.producer_id "" o.has_producer,
          (eq_iff c.payload_hash hash).1 o.is_intact,
          payload ∙ o.payload_signed,
          whole ∙ o.contract_signed,
        )),
      )

  -- A contract whose payload hash is that of its payload, signed by a producer with a name and with
  -- signatures that verify under its key and are not empty, is VERIFIED under that key.
  pub sign_contract_verifies :
      (c : ComputationExecutionContract) (signer : NodeSigner)
      → IsSound verify signer
      → ((text : String) → signer.sign text ≢ "")
      → signer.identity.node_id ≢ ""
      → c.payload_hash ≢ ""
      → c.payload_hash ≡ canonical_hash h c.payload
      → verify_contract_provenance h fl verify
          (sign_contract h fl c signer)
          signer.identity.public_key
        ≡ verified
  unfolding sign_contract with_hash with_producer sign_payload det_dict
  sign_contract_verifies c signer sound signs named hashed intact =
      rw (eq_false c.payload_hash "" hashed) (
        (verify_contract_provenance-iff-IsOriginal _ signer.identity.public_key).1 (record {
          has_producer = named;
          has_signature = signs _;
          has_contract_signature = signs _;
          is_intact = intact;
          payload_signed = sound _;
          contract_signed = sound _;
        }))
