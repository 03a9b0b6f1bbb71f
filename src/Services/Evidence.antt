-- ===== src/Services/Evidence.antt =====
-- platform_service_registry.py: `RegistrationEvidenceRecorder`, a hash chain of evidence. A fresh id
-- and the time are given in a stamp.
use bhiv_qcg.Prelude.{ℕ, String, Bool, List, [], ◌∷◌, ◌++◌, length}
use bhiv_qcg.Prelude.Hashing.{Hashing, Json, str, object, end, field}
use bhiv_qcg.Chain.{digest, verify_from}

pub record RegistrationEvidence : Type 0 where
  pub evidence_id : String
  pub event_type : String
  pub service_id : String
  pub timestamp : String
  pub details : Json
  pub evidence_hash : String
  pub previous_evidence_hash : String

pub record Recorder : Type 0 where
  pub evidence : List RegistrationEvidence
  pub head_hash : String

-- What the recorder takes from outside: `uuid.uuid4()` and `datetime.now()`.
pub record Stamp : Type 0 where
  pub fresh_id : String
  pub now : String

abbrev pub previous_hash_of : RegistrationEvidence → String
previous_hash_of e = e.previous_evidence_hash

abbrev pub evidence_hash_of : RegistrationEvidence → String
evidence_hash_of e = e.evidence_hash

-- `hash_seed` before it is dumped
unfoldable pub evidence_seed : String → RegistrationEvidence → Json
evidence_seed head e = object (
    field "evidence_id" (str e.evidence_id) (
      field "event_type" (str e.event_type) (
        field "service_id" (str e.service_id)
          (field "details" e.details (field "previous_hash" (str head) end)))))

module _ (h : Hashing) where
  abbrev pub genesis : String
  genesis = h.sha256 "EVIDENCE_GENESIS"

  abbrev pub new_recorder : Recorder
  new_recorder = record { evidence = []; head_hash = genesis }

  -- The entry before its hash is filled in
  abbrev pub draft : String → String → Json → Stamp → Recorder → RegistrationEvidence
  draft event_type service_id details stamp r = record {
    evidence_id = stamp.fresh_id;
    event_type = event_type;
    service_id = service_id;
    timestamp = stamp.now;
    details = details;
    evidence_hash = "";
    previous_evidence_hash = r.head_hash;
  }

  -- `record`
  unfoldable pub record_evidence :
      String → String → Json → Stamp → Recorder → RegistrationEvidence × Recorder
  record_evidence event_type service_id details stamp r =
      let e = draft event_type service_id details stamp r in
      let evidence_hash = digest h previous_hash_of evidence_hash_of evidence_seed r.head_hash e in
      let entry = record e { evidence_hash = evidence_hash } in
      (entry, record { evidence = r.evidence ++ entry ∷ []; head_hash = evidence_hash })

  -- `verify_chain`
  unfoldable pub verify_chain : Recorder → Bool
  verify_chain r =
      verify_from h previous_hash_of evidence_hash_of evidence_seed genesis r.evidence r.head_hash

-- `get_chain_length`
abbrev pub get_chain_length : Recorder → ℕ
get_chain_length r = length r.evidence
