-- ===== src/Examples/Services.antt =====
-- A service is registered with a manifest, deprecated, asked for a version, and removed.
use bhiv_qcg.Prelude.{◌≡◌, refl, ◌≢◌, none, some, List, [], ◌∷◌}
use bhiv_qcg.Prelude.Dict.{lookup, insert}
use bhiv_qcg.Prelude.Hashing.{Hashing}
use bhiv_qcg.Services.{PlatformServiceRecord, CapabilityManifest}
use bhiv_qcg.Services.Negotiation.{
  deprecated, unknown_service, negotiate, register_compatibility, negotiate_found, last_or,
}
use bhiv_qcg.Services.Evidence.{Stamp, record_evidence}
use bhiv_qcg.Services.Registry.{
  PlatformServiceRegistry, new_registry, is_same_version, publish_versions, keep_manifest,
}
use bhiv_qcg.Services.Mutations.{
  remove_service, log, register_service, set_status as change_status, set_status_found,
  deprecate_service, negotiate_version,
}
use bhiv_qcg.Services.Queries.{get_service, get_manifest}
use bhiv_qcg.Services.Session.{Call, register, deprecate, negotiate as ask, run_call, run}
use bhiv_qcg.Services.Session.Catalog.{catalog_of, replay}
use bhiv_qcg.Services.Session.Refined.{run_refines}
use bhiv_qcg.Services.Session.Published.{run_publishes, remove_service_leaves}
use bhiv_qcg.Examples.Toy.{plain}

abbrev h : Hashing
h = plain "previous_hash"

abbrev stamp : Stamp
stamp = record { fresh_id = "id"; now = "now" }

abbrev service : PlatformServiceRecord
service = record {
  platform_service_id = "svc";
  capability_id = "cap";
  service_name = "Solver";
  version = "1.1.0";
  provider = "P";
  owner = ("team", "T") ∷ [];
  runtime_type = "PROCESS";
  service_classification = "PLATFORM_SERVICE";
  capability_category = "OPTIMIZATION";
  status = "ACTIVE";
  registration_timestamp = "2026";
  description = "";
  tags = [];
  endpoints = [];
  dependencies = [];
}

abbrev manifest : CapabilityManifest
manifest = record {
  manifest_id = "m";
  service_name = "Solver";
  version = "1.1.0";
  supported_operations = [];
  execution_modes = [];
  determinism_guarantees = [];
  replay_guarantees = [];
  trust_requirements = [];
  evidence_guarantees = [];
  runtime_dependencies = [];
  version_compatibility = ("compatible", "1.1.0" ∷ []) ∷ ("deprecated", "1.0.0" ∷ []) ∷ [];
  security_requirements = [];
  resource_requirements = [];
  publication_timestamp = "2026";
}

abbrev started : List (Call × Stamp)
started =
    (register service (some manifest), stamp)
    ∷ (deprecate "svc" "", stamp)
    ∷ (ask "svc" "1.0.0", stamp)
    ∷ []

abbrev held : PlatformServiceRegistry
held = run h started (new_registry h)

held_service : get_service "svc" held ≡ some (record service { status = "DEPRECATED" })
unfolding run run_call register_service change_status set_status_found deprecate_service
    negotiate_version log record_evidence is_same_version publish_versions keep_manifest
    register_compatibility lookup insert get_service
held_service = refl

old_version : negotiate "svc" "1.0.0" held.negotiator ≡ deprecated "1.1.0" ("1.1.0" ∷ [])
unfolding run run_call register_service change_status set_status_found deprecate_service
    negotiate_version log record_evidence is_same_version publish_versions keep_manifest
    register_compatibility lookup insert negotiate negotiate_found last_or
old_version = refl

there : get_service "svc" held ≢ none
there missing = cc (held_service, missing)

run_refines_example :
    catalog_of (run h started (new_registry h)) ≡ replay started (catalog_of (new_registry h))
run_refines_example = run_refines h started (new_registry h) (unfold lookup in λ k e. refl)

run_publishes_example :
    (service.platform_service_id ≡ "svc")
    × (negotiate "svc" "9.9.9" held.negotiator ≢ unknown_service)
run_publishes_example =
    run_publishes h started "svc" (record service { status = "DEPRECATED" }) "9.9.9" held_service

remove_service_leaves_example :
    let reg' = (remove_service h "svc" "Lease expired" stamp held).1 in
    (get_manifest "svc" reg' ≡ none)
    × (get_service "svc" reg' ≡ none)
    × (negotiate "svc" "1.1.0" reg'.negotiator ≡ negotiate "svc" "1.1.0" held.negotiator)
remove_service_leaves_example =
    remove_service_leaves h "svc" "Lease expired" stamp held "svc" "1.1.0" there
