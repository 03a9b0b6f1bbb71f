-- ===== src/Services.antt =====
-- platform_service_registry.py: the records that the registry keeps, and their hashes. Python's `Any`
-- is a value that `json.dumps` takes.
pub mod Negotiation
pub mod Evidence
pub mod Registry
pub mod Mutations
pub mod Queries
pub mod Session
use bhiv_qcg.Prelude.{String, Bool, List, [], ◌∷◌}
use bhiv_qcg.Prelude.Dict.{Dict}
use bhiv_qcg.Prelude.Hashing.{
  Hashing, Json, str, object, null, flag, array, Items, nil, item, texts, fields_from, Fields, end,
  field,
}

pub record PlatformServiceRecord : Type 0 where
  pub platform_service_id : String
  pub capability_id : String
  pub service_name : String
  pub version : String
  pub provider : String
  pub owner : Dict String
  pub runtime_type : String
  pub service_classification : String
  pub capability_category : String
  pub status : String
  pub registration_timestamp : String
  pub description : String
  pub tags : List String
  pub endpoints : Dict String
  pub dependencies : List String

pub record OperationContract : Type 0 where
  pub operation_name : String
  pub description : String
  pub input_contract : Dict Json
  pub output_contract : Dict Json
  pub execution_modes : List String
  pub idempotent : Bool

pub record CapabilityManifest : Type 0 where
  pub manifest_id : String
  pub service_name : String
  pub version : String
  pub supported_operations : List OperationContract
  pub execution_modes : List String
  pub determinism_guarantees : Dict Json
  pub replay_guarantees : Dict Json
  pub trust_requirements : Dict Json
  pub evidence_guarantees : Dict Json
  pub runtime_dependencies : List (Dict String)
  -- the lists of versions under the keys that the registry reads
  pub version_compatibility : Dict (List String)
  pub security_requirements : Dict Json
  pub resource_requirements : Dict Json
  pub publication_timestamp : String

abbrev pub text_dict : Dict String → Json
text_dict d = object (fields_from str d)

abbrev pub any_dict : Dict Json → Json
any_dict d = object (fields_from (λ j. j) d)

-- `to_dict()` of a service, as it is dumped
unfoldable pub record_dict : PlatformServiceRecord → Json
record_dict r = object (
    field "platform_service_id" (str r.platform_service_id) (
      field "capability_id" (str r.capability_id) (
        field "service_name" (str r.service_name) (
          field "version" (str r.version) (
            field "provider" (str r.provider) (
              field "owner" (text_dict r.owner) (
                field "runtime_type" (str r.runtime_type) (
                  field "service_classification" (str r.service_classification) (
                    field "capability_category" (str r.capability_category) (
                      field "status" (str r.status) (
                        field "registration_timestamp" (str r.registration_timestamp) (
                          field "description" (str r.description) (
                            field "tags" (texts r.tags) (
                              field "endpoints" (text_dict r.endpoints)
                                (field "dependencies" (texts r.dependencies) end)))))))))))))))

-- The projection that `deterministic_hash` dumps
unfoldable pub record_seed : PlatformServiceRecord → Json
record_seed r = object (
    field "platform_service_id" (str r.platform_service_id) (
      field "capability_id" (str r.capability_id) (
        field "service_name" (str r.service_name) (
          field "version" (str r.version) (
            field "provider" (str r.provider) (
              field "owner" (text_dict r.owner) (
                field "runtime_type" (str r.runtime_type) (
                  field "service_classification" (str r.service_classification)
                    (field "capability_category" (str r.capability_category) end)))))))))

unfoldable pub operation_dict : OperationContract → Json
operation_dict o = object (
    field "operation_name" (str o.operation_name) (
      field "description" (str o.description) (
        field "input_contract" (any_dict o.input_contract) (
          field "output_contract" (any_dict o.output_contract) (
            field "execution_modes" (texts o.execution_modes)
              (field "idempotent" (flag o.idempotent) end))))))

unfoldable pub operation_dicts : List OperationContract → Items
operation_dicts [] = nil
operation_dicts (o ∷ os) = item (operation_dict o) (operation_dicts os)

unfoldable pub dependency_dicts : List (Dict String) → Items
dependency_dicts [] = nil
dependency_dicts (d ∷ ds) = item (text_dict d) (dependency_dicts ds)

-- `to_dict()` of a manifest
unfoldable pub manifest_dict : CapabilityManifest → Json
manifest_dict m = object (
    field "manifest_id" (str m.manifest_id) (
      field "service_name" (str m.service_name) (
        field "version" (str m.version) (
          field "supported_operations" (array (operation_dicts m.supported_operations)) (
            field "execution_modes" (texts m.execution_modes) (
              field "determinism_guarantees" (any_dict m.determinism_guarantees) (
                field "replay_guarantees" (any_dict m.replay_guarantees) (
                  field "trust_requirements" (any_dict m.trust_requirements) (
                    field "evidence_guarantees" (any_dict m.evidence_guarantees) (
                      field "runtime_dependencies" (array (dependency_dicts m.runtime_dependencies))
                        (field "version_compatibility"
                          (object (fields_from texts m.version_compatibility))
                          (field "security_requirements" (any_dict m.security_requirements) (
                            field "resource_requirements" (any_dict m.resource_requirements) (
                              field "publication_timestamp" (str m.publication_timestamp)
                                end))))))))))))))

unfoldable pub manifest_seed : CapabilityManifest → Json
manifest_seed m = object (
    field "manifest_id" (str m.manifest_id) (
      field "service_name" (str m.service_name) (
        field "version" (str m.version) (
          field "operations" (array (operation_dicts m.supported_operations)) (
            field "execution_modes" (texts m.execution_modes) (
              field "determinism_guarantees" (any_dict m.determinism_guarantees)
                (field "replay_guarantees" (any_dict m.replay_guarantees) end)))))))

module _ (h : Hashing) where
  -- `PlatformServiceRecord.deterministic_hash`
  unfoldable pub record_hash : PlatformServiceRecord → String
  record_hash r = h.sha256 (h.dumps (record_seed r))

  -- `CapabilityManifest.deterministic_hash`
  unfoldable pub manifest_hash : CapabilityManifest → String
  manifest_hash m = h.sha256 (h.dumps (manifest_seed m))
