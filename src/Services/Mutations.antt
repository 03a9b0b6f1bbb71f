-- ===== src/Services/Mutations.antt =====
-- platform_service_registry.py: the methods of `PlatformServiceRegistry` that change it. A call takes
-- the registry to its receipt and the new registry; a method that holds the lock is one step.
use Prim.Native.String.{◌++◌ as text_append}
use bhiv_qcg.Prelude.{String, not, Option, none, some, List, ◌==◌, if◌then◌else◌, mem}
use bhiv_qcg.Prelude.Dict.{lookup, insert, erase}
use bhiv_qcg.Prelude.Hashing.{Hashing, Json, str, object, flag, end, field}
use bhiv_qcg.Services.{PlatformServiceRecord, CapabilityManifest, record_dict, record_hash}
use bhiv_qcg.Services.Negotiation.{Answer, answer_status, negotiated_version, negotiate}
use bhiv_qcg.Services.Evidence.{RegistrationEvidence, Stamp, record_evidence}
use bhiv_qcg.Services.Registry.{
  PlatformServiceRegistry, Receipt, already_registered, registered, not_found, updated,
  invalid_status, status_changed, merged, removed, valid_statuses, Update, apply_updates, is_given,
  or_null, is_same_version, adopted,
}

-- `reason or default`
abbrev pub or_reason : String → String → String
or_reason reason default = if reason == "" then default else reason

module _ (h : Hashing) where
  -- `self.evidence.record(...)`, in the registry
  unfoldable pub log :
      String
      → String
      → Json
      → Stamp
      → PlatformServiceRegistry
      → RegistrationEvidence × PlatformServiceRegistry
  log event_type service_id details stamp reg =
      let (entry, evidence) = record_evidence h event_type service_id details stamp reg.evidence in
      (entry, record reg { evidence = evidence })

  unfoldable pub register_service :
      PlatformServiceRecord
      → Option CapabilityManifest
      → Stamp
      → PlatformServiceRegistry
      → Receipt × PlatformServiceRegistry
  register_service r manifest stamp reg =
      let sid = r.platform_service_id in
      if is_same_version (lookup sid reg.services) r
      then (let (entry, reg') =
            log "REGISTRATION_IDEMPOTENT" sid
              (object (field "message" (str "Service already registered with same version.") end))
              stamp reg in
          (already_registered sid entry, reg'))
      else let (entry, reg') =
          log "SERVICE_REGISTERED" sid
            (object (
              field "service_name" (str r.service_name) (
                field "version" (str r.version) (
                  field "capability_id" (str r.capability_id) (
                    field "status" (str r.status) (
                      field "registration_hash" (str (record_hash h r))
                        (field "has_manifest" (flag (is_given manifest)) end)))))))
            stamp (adopted r manifest reg) in
        (registered sid (record_hash h r) entry, reg')

  unfoldable pub update_found :
      Option PlatformServiceRecord
      → String
      → List Update
      → Stamp
      → PlatformServiceRegistry
      → Receipt × PlatformServiceRegistry
  update_found none service_id updates stamp reg = (not_found service_id, reg)
  update_found (some r) service_id updates stamp reg =
      let r' = apply_updates updates r in
      let (entry, reg') =
        log "SERVICE_UPDATED" service_id
          (object (field "before" (record_dict r) (field "after" (record_dict r') end))) stamp
          (record reg { services = insert service_id r' reg.services }) in
      (updated service_id entry, reg')

  unfoldable pub update_service :
      String → List Update → Stamp → PlatformServiceRegistry → Receipt × PlatformServiceRegistry
  update_service service_id updates stamp reg =
      update_found (lookup service_id reg.services) service_id updates stamp reg

  unfoldable pub set_status_found :
      Option PlatformServiceRecord
      → String
      → String
      → String
      → Stamp
      → PlatformServiceRegistry
      → Receipt × PlatformServiceRegistry
  set_status_found none service_id new_status reason stamp reg = (not_found service_id, reg)
  set_status_found (some r) service_id new_status reason stamp reg =
      if not (mem new_status valid_statuses)
      then (invalid_status service_id, reg)
      else let (entry, reg') =
          log (text_append "SERVICE_" new_status) service_id
            (object (
              field "previous_status" (str r.status)
                (field "new_status" (str new_status) (field "reason" (str reason) end))))
            stamp
            (record reg {
              services = insert service_id (record r { status = new_status }) reg.services;
            }) in
        (status_changed service_id r.status new_status entry, reg')

  unfoldable pub set_status :
      String → String → String → Stamp → PlatformServiceRegistry → Receipt × PlatformServiceRegistry
  set_status service_id new_status reason stamp reg =
      set_status_found (lookup service_id reg.services) service_id new_status reason stamp reg

  unfoldable pub merge_remote_service :
      PlatformServiceRecord
      → Option CapabilityManifest
      → String
      → Stamp
      → PlatformServiceRegistry
      → Receipt × PlatformServiceRegistry
  merge_remote_service r manifest source_node_id stamp reg =
      let sid = r.platform_service_id in
      let (entry, reg') =
        log "SERVICE_MERGED_FROM_PEER" sid
          (object (
            field "source_node_id" (str source_node_id) (
              field "service_name" (str r.service_name) (
                field "version" (str r.version)
                  (field "registration_hash" (str (record_hash h r)) end)))))
          stamp (adopted r manifest reg) in
      (merged sid source_node_id entry, reg')

  unfoldable pub remove_found :
      Option PlatformServiceRecord
      → String
      → String
      → Stamp
      → PlatformServiceRegistry
      → Receipt × PlatformServiceRegistry
  remove_found none service_id reason stamp reg = (not_found service_id, reg)
  remove_found (some r) service_id reason stamp reg =
      let (entry, reg') =
        log "SERVICE_REMOVED" service_id
          (object (
            field "service_name" (str r.service_name)
              (field "version" (str r.version) (field "reason" (str reason) end))))
          stamp
          (record reg {
            services = erase service_id reg.services;
            manifests = erase service_id reg.manifests;
          }) in
      (removed service_id reason entry, reg')

  unfoldable pub remove_service :
      String → String → Stamp → PlatformServiceRegistry → Receipt × PlatformServiceRegistry
  remove_service service_id reason stamp reg =
      remove_found (lookup service_id reg.services) service_id reason stamp reg

  unfoldable pub negotiate_version :
      String → String → Stamp → PlatformServiceRegistry → Answer × PlatformServiceRegistry
  negotiate_version service_id requested stamp reg =
      let answer = negotiate service_id requested reg.negotiator in
      let (entry, reg') =
        log "VERSION_NEGOTIATION" service_id
          (object (
            field "requested_version" (str requested) (
              field "negotiation_status" (str (answer_status answer))
                (field "negotiated_version" (or_null (negotiated_version requested answer)) end))))
          stamp reg in
      (answer, reg')

  unfoldable pub enable_service :
      String → Stamp → PlatformServiceRegistry → Receipt × PlatformServiceRegistry
  enable_service service_id stamp reg = set_status service_id "ACTIVE" "Service enabled" stamp reg

  unfoldable pub disable_service :
      String → Stamp → PlatformServiceRegistry → Receipt × PlatformServiceRegistry
  disable_service service_id stamp reg = set_status service_id "DRAFT" "Service disabled" stamp reg

  unfoldable pub deprecate_service :
      String → String → Stamp → PlatformServiceRegistry → Receipt × PlatformServiceRegistry
  deprecate_service service_id reason stamp reg =
      set_status service_id "DEPRECATED" (or_reason reason "Deprecated by operator") stamp reg

  unfoldable pub retire_service :
      String → String → Stamp → PlatformServiceRegistry → Receipt × PlatformServiceRegistry
  retire_service service_id reason stamp reg =
      set_status service_id "RETIRED" (or_reason reason "Retired by operator") stamp reg
