-- ===== src/Services/Session/Logged.antt =====
-- The evidence of a `PlatformServiceRegistry`: every call leaves a chain that verifies.
use bhiv_qcg.Prelude.{
  String, ◌≡◌, refl, inl, inr, true, Option, none, some, List, [], ◌∷◌, eq_refl, Bool-cases, mem,
}
use bhiv_qcg.Prelude.Dict.{lookup}
use bhiv_qcg.Prelude.Hashing.{Hashing, Json}
use bhiv_qcg.Services.{PlatformServiceRecord, CapabilityManifest}
use bhiv_qcg.Services.Evidence.{
  Recorder, Stamp, record_evidence, verify_chain, previous_hash_of, evidence_hash_of, evidence_seed,
  genesis,
}
use bhiv_qcg.Services.Registry.{
  PlatformServiceRegistry, Update, valid_statuses, is_same_version, adopted, new_registry,
}
use bhiv_qcg.Services.Mutations.{
  log, register_service, update_service, update_found, set_status as change_status,
  set_status_found, merge_remote_service, remove_service, remove_found, negotiate_version,
  enable_service, disable_service, deprecate_service, retire_service,
}
use bhiv_qcg.Services.Session.{
  Call, register, update, set_status, enable, disable, deprecate, retire, merge, remove,
  negotiate as ask, run_call, run,
}
use bhiv_qcg.Chain.{verify_from, verify_from-append}

module _ (h : Hashing) where
  -- How a call may end: nothing has changed, or something other than the evidence has, and then one
  -- entry is recorded.
  pub data Outcome (reg : PlatformServiceRegistry) : PlatformServiceRegistry → Type 0 where
    kept : Outcome reg reg
    logged :
        (event_type service_id : String) (details : Json) (stamp : Stamp)
        (reg' : PlatformServiceRegistry)
        → reg'.evidence ≡ reg.evidence
        → Outcome reg (log h event_type service_id details stamp reg').1

  set_status_found-Outcome :
      (o : Option PlatformServiceRecord) (sid s reason : String) (stamp : Stamp)
      (reg : PlatformServiceRegistry)
      → Outcome reg (set_status_found h o sid s reason stamp reg).1
  unfolding set_status_found
  set_status_found-Outcome none sid s reason stamp reg = kept
  set_status_found-Outcome (some r) sid s reason stamp reg =
      elim (Bool-cases (mem s valid_statuses)) [
        | inl good ↦ rw good (logged _ sid _ stamp _ refl)
        | inr bad ↦ rw bad kept
      ]

  set_status-Outcome :
      (sid s reason : String) (stamp : Stamp) (reg : PlatformServiceRegistry)
      → Outcome reg (change_status h sid s reason stamp reg).1
  unfolding change_status
  set_status-Outcome sid s reason stamp reg =
      set_status_found-Outcome (lookup sid reg.services) sid s reason stamp reg

  register_service-Outcome :
      (r : PlatformServiceRecord) (m : Option CapabilityManifest) (stamp : Stamp)
      (reg : PlatformServiceRegistry)
      → Outcome reg (register_service h r m stamp reg).1
  unfolding register_service
  register_service-Outcome r m stamp reg =
      elim (Bool-cases (is_same_version (lookup r.platform_service_id reg.services) r)) [
        | inl same ↦ rw same (logged _ _ _ stamp reg refl)
        | inr new ↦ rw new (logged _ _ _ stamp (adopted r m reg) refl)
      ]

  update_found-Outcome :
      (o : Option PlatformServiceRecord) (sid : String) (us : List Update) (stamp : Stamp)
      (reg : PlatformServiceRegistry)
      → Outcome reg (update_found h o sid us stamp reg).1
  unfolding update_found
  update_found-Outcome none sid us stamp reg = kept
  update_found-Outcome (some r) sid us stamp reg = logged _ sid _ stamp _ refl

  remove_found-Outcome :
      (o : Option PlatformServiceRecord) (sid reason : String) (stamp : Stamp)
      (reg : PlatformServiceRegistry)
      → Outcome reg (remove_found h o sid reason stamp reg).1
  unfolding remove_found
  remove_found-Outcome none sid reason stamp reg = kept
  remove_found-Outcome (some r) sid reason stamp reg = logged _ sid _ stamp _ refl

  pub run_call-Outcome :
      (c : Call) (stamp : Stamp) (reg : PlatformServiceRegistry)
      → Outcome reg (run_call h c stamp reg)
  unfolding run_call update_service merge_remote_service remove_service negotiate_version
      enable_service disable_service deprecate_service retire_service
  run_call-Outcome (register r m) stamp reg = register_service-Outcome r m stamp reg
  run_call-Outcome (update sid us) stamp reg =
      update_found-Outcome (lookup sid reg.services) sid us stamp reg
  run_call-Outcome (set_status sid s reason) stamp reg = set_status-Outcome sid s reason stamp reg
  run_call-Outcome (enable sid) stamp reg = set_status-Outcome sid _ _ stamp reg
  run_call-Outcome (disable sid) stamp reg = set_status-Outcome sid _ _ stamp reg
  run_call-Outcome (deprecate sid reason) stamp reg = set_status-Outcome sid _ _ stamp reg
  run_call-Outcome (retire sid reason) stamp reg = set_status-Outcome sid _ _ stamp reg
  run_call-Outcome (merge r m node) stamp reg = logged _ _ _ stamp (adopted r m reg) refl
  run_call-Outcome (remove sid reason) stamp reg =
      remove_found-Outcome (lookup sid reg.services) sid reason stamp reg
  run_call-Outcome (ask sid requested) stamp reg = logged _ sid _ stamp reg refl

  pub record_evidence_intact :
      (t sid : String) (details : Json) (stamp : Stamp) (r : Recorder)
      → verify_chain h r ≡ true
      → verify_chain h (record_evidence h t sid details stamp r).1 ≡ true
  unfolding verify_chain record_evidence evidence_seed
  record_evidence_intact t sid details stamp r v =
      verify_from-append h previous_hash_of evidence_hash_of evidence_seed (genesis h) r.evidence
        r.head_hash _ v refl refl

  Outcome_verifies :
      {reg reg' : PlatformServiceRegistry}
      → Outcome reg reg'
      → verify_chain h reg.evidence ≡ true
      → verify_chain h reg'.evidence ≡ true
  unfolding log
  Outcome_verifies kept v = v
  Outcome_verifies (logged t sid details stamp reg' same) v =
      record_evidence_intact t sid details stamp reg'.evidence (rw same v)

  run_keeps_intact :
      (calls : List (Call × Stamp)) (reg : PlatformServiceRegistry)
      → verify_chain h reg.evidence ≡ true
      → verify_chain h (run h calls reg).evidence ≡ true
  unfolding run
  run_keeps_intact [] reg v = v
  run_keeps_intact ((c, stamp) ∷ calls) reg v =
      run_keeps_intact calls (run_call h c stamp reg)
        (Outcome_verifies (run_call-Outcome c stamp reg) v)

  -- After any calls of a new registry, whatever they were answered, its evidence chain verifies.
  run_evidence_verifies :
      (calls : List (Call × Stamp)) → verify_chain h (run h calls (new_registry h)).evidence ≡ true
  run_evidence_verifies calls =
      run_keeps_intact calls (new_registry h) (unfold verify_chain verify_from in eq_refl _)
