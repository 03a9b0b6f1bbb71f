-- ===== src/Sdk/Evidence.antt =====
-- platform_capability_sdk.py: `SDKEvidenceChain`; sdk_models.py: `InvocationEvidence`.
use bhiv_qcg.Prelude.{String, ◌≡◌, refl, Bool, true, List, [], ◌∷◌, ◌++◌}
use bhiv_qcg.Prelude.Hashing.{Hashing, Json, str, object, end, field}
use bhiv_qcg.Chain.{digest, verify_from, verify_from-append}

pub record InvocationEvidence : Type 0 where
  pub invocation_id : String
  pub service_id : String
  pub operation : String
  pub request_hash : String
  pub response_hash : String
  pub trust_method : String
  pub status : String
  pub evidence_hash : String
  pub previous_evidence_hash : String

pub record SdkEvidenceChain : Type 0 where
  pub evidence : List InvocationEvidence
  pub head_hash : String

abbrev pub previous_hash_of : InvocationEvidence → String
previous_hash_of e = e.previous_evidence_hash

abbrev pub evidence_hash_of : InvocationEvidence → String
evidence_hash_of e = e.evidence_hash

-- `hash_seed` before it is dumped
unfoldable pub evidence_seed : String → InvocationEvidence → Json
evidence_seed head e = object (
    field "invocation_id" (str e.invocation_id) (
      field "service_id" (str e.service_id) (
        field "operation" (str e.operation) (
          field "request_hash" (str e.request_hash) (
            field "response_hash" (str e.response_hash) (
              field "trust_method" (str e.trust_method) (field "previous_hash" (str head) end)))))))

module _ (h : Hashing) where
  abbrev pub genesis : String
  genesis = h.sha256 "SDK_EVIDENCE_GENESIS"

  abbrev pub new_chain : SdkEvidenceChain
  new_chain = record { evidence = []; head_hash = genesis }

  -- `record`: the entry with its two hashes filled in
  unfoldable pub record_evidence :
      InvocationEvidence → SdkEvidenceChain → InvocationEvidence × SdkEvidenceChain
  record_evidence e chain =
      let e' = record e { previous_evidence_hash = chain.head_hash } in
      let hash = digest h previous_hash_of evidence_hash_of evidence_seed chain.head_hash e' in
      let entry = record e' { evidence_hash = hash } in
      (entry, record { evidence = chain.evidence ++ entry ∷ []; head_hash = hash })

  -- `verify_chain`
  unfoldable pub verify_chain : SdkEvidenceChain → Bool
  verify_chain chain =
      verify_from h previous_hash_of evidence_hash_of evidence_seed genesis chain.evidence
        chain.head_hash

  pub record_evidence_intact :
      (e : InvocationEvidence) (chain : SdkEvidenceChain)
      → verify_chain chain ≡ true
      → verify_chain (record_evidence e chain).1 ≡ true
  unfolding verify_chain record_evidence evidence_seed
  record_evidence_intact e chain v =
      verify_from-append h previous_hash_of evidence_hash_of evidence_seed genesis chain.evidence
        chain.head_hash _ v refl refl
