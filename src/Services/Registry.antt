-- ===== src/Services/Registry.antt =====
-- platform_service_registry.py: the state of `PlatformServiceRegistry`, its receipts, and the parts
-- that its methods share. The caller is taken not to change a record after it was registered.
use bhiv_qcg.Prelude.{String, Bool, true, false, Option, none, some, List, [], ◌∷◌, ◌==◌}
use bhiv_qcg.Prelude.Dict.{Dict, lookup, insert}
use bhiv_qcg.Prelude.Hashing.{Hashing, Json, str, null}
use bhiv_qcg.Services.{PlatformServiceRecord, CapabilityManifest}
use bhiv_qcg.Services.Negotiation.{VersionNegotiator, new_negotiator, register_compatibility}
use bhiv_qcg.Services.Evidence.{RegistrationEvidence, Recorder, new_recorder}

pub record PlatformServiceRegistry : Type 0 where
  pub services : Dict PlatformServiceRecord
  pub manifests : Dict CapabilityManifest
  pub evidence : Recorder
  pub negotiator : VersionNegotiator

pub data Receipt : Type 0 where
  already_registered : String → RegistrationEvidence → Receipt
  registered : String → String → RegistrationEvidence → Receipt
  not_found : String → Receipt
  updated : String → RegistrationEvidence → Receipt
  invalid_status : String → Receipt
  status_changed : String → String → String → RegistrationEvidence → Receipt
  merged : String → String → RegistrationEvidence → Receipt
  removed : String → String → RegistrationEvidence → Receipt

abbrev pub valid_statuses : List String
valid_statuses = "DRAFT" ∷ "ACTIVE" ∷ "DEPRECATED" ∷ "RETIRED" ∷ []

-- An item of `updates`, by its key, with a value of the declared type. `fixed` stands for the two keys
-- that are passed over, `unknown` for a key that names no attribute.
pub data Update : Type 0 where
  capability_id : String → Update
  service_name : String → Update
  version : String → Update
  provider : String → Update
  owner : Dict String → Update
  runtime_type : String → Update
  service_classification : String → Update
  capability_category : String → Update
  status : String → Update
  description : String → Update
  tags : List String → Update
  endpoints : Dict String → Update
  dependencies : List String → Update
  fixed : String → Update
  unknown : String → Update

-- `setattr(record, key, value)`
unfoldable pub set_attribute : Update → PlatformServiceRecord → PlatformServiceRecord
set_attribute (capability_id v) r = record r { capability_id = v }
set_attribute (service_name v) r = record r { service_name = v }
set_attribute (version v) r = record r { version = v }
set_attribute (provider v) r = record r { provider = v }
set_attribute (owner v) r = record r { owner = v }
set_attribute (runtime_type v) r = record r { runtime_type = v }
set_attribute (service_classification v) r = record r { service_classification = v }
set_attribute (capability_category v) r = record r { capability_category = v }
set_attribute (status v) r = record r { status = v }
set_attribute (description v) r = record r { description = v }
set_attribute (tags v) r = record r { tags = v }
set_attribute (endpoints v) r = record r { endpoints = v }
set_attribute (dependencies v) r = record r { dependencies = v }
set_attribute (fixed v) r = r
set_attribute (unknown v) r = r

-- The loop over `updates.items()`
unfoldable pub apply_updates : List Update → PlatformServiceRecord → PlatformServiceRecord
apply_updates [] r = r
apply_updates (u ∷ updates) r = apply_updates updates (set_attribute u r)

-- `vc[key]` where the key is there
abbrev pub or_default : List String → Option (List String) → List String
or_default default none = default
or_default default (some versions) = versions

-- The lists of versions that `register_service` and `merge_remote_service` hand to the negotiator
unfoldable pub publish_versions :
    PlatformServiceRecord → Option CapabilityManifest → VersionNegotiator → VersionNegotiator
publish_versions r none n =
    register_compatibility r.platform_service_id (r.version ∷ []) (some []) (some []) n
publish_versions r (some m) n =
    let vc = m.version_compatibility in
    register_compatibility r.platform_service_id
      (or_default (r.version ∷ []) (lookup "compatible" vc))
      (some (or_default [] (lookup "deprecated" vc)))
      (some (or_default [] (lookup "unsupported" vc))) n

-- `if manifest: self._manifests[sid] = manifest`
unfoldable pub keep_manifest :
    String → Option CapabilityManifest → Dict CapabilityManifest → Dict CapabilityManifest
keep_manifest sid none ms = ms
keep_manifest sid (some m) ms = insert sid m ms

abbrev pub is_given : Option CapabilityManifest → Bool
is_given none = false
is_given (some m) = true

abbrev pub or_null : Option String → Json
or_null none = null
or_null (some s) = str s

-- `existing.version == record.version`, for a service that is there
unfoldable pub is_same_version : Option PlatformServiceRecord → PlatformServiceRecord → Bool
is_same_version none r = false
is_same_version (some existing) r = existing.version == r.version

-- What a registration and a merge write before the evidence is recorded
abbrev pub adopted :
    PlatformServiceRecord
    → Option CapabilityManifest
    → PlatformServiceRegistry
    → PlatformServiceRegistry
adopted r manifest reg = record {
  services = insert r.platform_service_id r reg.services;
  manifests = keep_manifest r.platform_service_id manifest reg.manifests;
  evidence = reg.evidence;
  negotiator = publish_versions r manifest reg.negotiator;
}

module _ (h : Hashing) where
  abbrev pub new_registry : PlatformServiceRegistry
  new_registry = record {
    services = [];
    manifests = [];
    evidence = new_recorder h;
    negotiator = new_negotiator;
  }
