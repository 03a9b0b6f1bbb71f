-- ===== src/Services/Queries.antt =====
-- platform_service_registry.py: the queries of `PlatformServiceRegistry`.
use bhiv_qcg.Prelude.{String, Option, none, some, List, map, ◌==◌, if◌then◌else◌}
use bhiv_qcg.Prelude.Dict.{Dict, lookup}
use bhiv_qcg.Services.{PlatformServiceRecord, CapabilityManifest}
use bhiv_qcg.Services.Negotiation.{VersionInfo, get_version_info}
use bhiv_qcg.Services.Registry.{PlatformServiceRegistry}

unfoldable pub list_services : PlatformServiceRegistry → List PlatformServiceRecord
list_services reg = map (λ entry. entry.1) reg.services

unfoldable pub get_service : String → PlatformServiceRegistry → Option PlatformServiceRecord
get_service service_id reg = lookup service_id reg.services

unfoldable pub get_manifest : String → PlatformServiceRegistry → Option CapabilityManifest
get_manifest service_id reg = lookup service_id reg.manifests

unfoldable pub get_endpoints : String → PlatformServiceRegistry → Option (Dict String)
get_endpoints service_id reg = elim (lookup service_id reg.services) [
  | none ↦ none
  | some r ↦ some r.endpoints
]

-- `get_health`: UNKNOWN, or UP or DOWN with what is reported of the service.
pub data Health : Type 0 where
  unknown : Health
  up : String → String → Health
  down : String → String → String → Health

unfoldable pub health_of : Option PlatformServiceRecord → Health
health_of none = unknown
health_of (some r) =
    if r.status == "ACTIVE"
    then up r.version r.registration_timestamp
    else down r.status r.version r.registration_timestamp

unfoldable pub get_health : String → PlatformServiceRegistry → Health
get_health service_id reg = health_of (lookup service_id reg.services)

pub record Compatibility : Type 0 where
  pub current_version : String
  pub version_matrix : VersionInfo
  pub runtime_type : String
  pub capability_category : String

unfoldable pub get_compatibility : String → PlatformServiceRegistry → Option Compatibility
get_compatibility service_id reg = elim (lookup service_id reg.services) [
  | none ↦ none
  | some r ↦ some (record {
    current_version = r.version;
    version_matrix = get_version_info service_id reg.negotiator;
    runtime_type = r.runtime_type;
    capability_category = r.capability_category;
  })
]

pub record Metadata : Type 0 where
  pub service : PlatformServiceRecord
  pub manifest : Option CapabilityManifest
  pub versions : VersionInfo

unfoldable pub get_metadata : String → PlatformServiceRegistry → Option Metadata
get_metadata service_id reg = elim (lookup service_id reg.services) [
  | none ↦ none
  | some r ↦ some (record {
    service = r;
    manifest = lookup service_id reg.manifests;
    versions = get_version_info service_id reg.negotiator;
  })
]
