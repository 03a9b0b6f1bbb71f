-- ===== src/Services/Session/Published.antt =====
-- The negotiator beside the services: every service has its versions published, and a removed service
-- keeps them.
use bhiv_qcg.Prelude.{
  String, ◌≡◌, refl, ◌∙◌, ◌≢◌, inl, inr, Option, none, some, List, [], ◌∷◌, arith, ◌==◌, eq_refl,
  if◌then◌else◌, Bool-cases, Option-cases, mem,
}
use bhiv_qcg.Prelude.Dict.{lookup, lookup-erase}
use bhiv_qcg.Prelude.Hashing.{Hashing, Json}
use bhiv_qcg.Services.{PlatformServiceRecord, CapabilityManifest}
use bhiv_qcg.Services.Negotiation.{negotiate, unknown_service}
use bhiv_qcg.Services.Evidence.{Stamp}
use bhiv_qcg.Services.Registry.{
  PlatformServiceRegistry, Update, valid_statuses, is_same_version, new_registry,
}
use bhiv_qcg.Services.Mutations.{
  log, register_service, update_service, update_found, set_status as change_status,
  set_status_found, merge_remote_service, remove_service, remove_found, negotiate_version,
  enable_service, disable_service, deprecate_service, retire_service,
}
use bhiv_qcg.Services.Queries.{get_service, get_manifest}
use bhiv_qcg.Services.Session.{
  Call, register, update, set_status, enable, disable, deprecate, retire, merge, remove,
  negotiate as ask, run_call, run,
}
use bhiv_qcg.Services.Session.Well.{
  IsWell, adopted-IsWell, apply_updates_id, changed-IsWell, erase-IsWell, negotiate_found_known,
}

module _ (h : Hashing) where
  log-IsWell :
      (t sid : String) (d : Json) (stamp : Stamp) (reg : PlatformServiceRegistry)
      → IsWell reg.services reg.negotiator
      → let reg' = (log h t sid d stamp reg).1 in IsWell reg'.services reg'.negotiator
  unfolding log
  log-IsWell t sid d stamp reg w = w

  set_status-IsWell :
      (o : Option PlatformServiceRecord) (sid s reason : String) (stamp : Stamp)
      (reg : PlatformServiceRegistry)
      → lookup sid reg.services ≡ o
      → IsWell reg.services reg.negotiator
      → let reg' = (set_status_found h o sid s reason stamp reg).1 in
        IsWell reg'.services reg'.negotiator
  unfolding set_status_found
  set_status-IsWell none sid s reason stamp reg e w = w
  set_status-IsWell (some r) sid s reason stamp reg e w = elim (Bool-cases (mem s valid_statuses)) [
    | inl good ↦
        rw good
          (log-IsWell _ _ _ stamp _ (changed-IsWell sid r _ reg.services reg.negotiator e refl w))
    | inr bad ↦ rw bad w
  ]

  register-IsWell :
      (r : PlatformServiceRecord) (m : Option CapabilityManifest) (stamp : Stamp)
      (reg : PlatformServiceRegistry)
      → IsWell reg.services reg.negotiator
      → let reg' = (register_service h r m stamp reg).1 in IsWell reg'.services reg'.negotiator
  unfolding register_service
  register-IsWell r m stamp reg w =
      elim (Bool-cases (is_same_version (lookup r.platform_service_id reg.services) r)) [
        | inl same ↦ rw same (log-IsWell _ _ _ stamp reg w)
        | inr new ↦ rw new (log-IsWell _ _ _ stamp _ (adopted-IsWell r m reg w))
      ]

  update-IsWell :
      (o : Option PlatformServiceRecord) (sid : String) (us : List Update) (stamp : Stamp)
      (reg : PlatformServiceRegistry)
      → lookup sid reg.services ≡ o
      → IsWell reg.services reg.negotiator
      → let reg' = (update_found h o sid us stamp reg).1 in IsWell reg'.services reg'.negotiator
  unfolding update_found
  update-IsWell none sid us stamp reg e w = w
  update-IsWell (some r) sid us stamp reg e w =
      log-IsWell _ _ _ stamp _
        (changed-IsWell sid r _ reg.services reg.negotiator e (apply_updates_id us r) w)

  remove-IsWell :
      (o : Option PlatformServiceRecord) (sid reason : String) (stamp : Stamp)
      (reg : PlatformServiceRegistry)
      → IsWell reg.services reg.negotiator
      → let reg' = (remove_found h o sid reason stamp reg).1 in IsWell reg'.services reg'.negotiator
  unfolding remove_found
  remove-IsWell none sid reason stamp reg w = w
  remove-IsWell (some r) sid reason stamp reg w =
      log-IsWell _ _ _ stamp _ (erase-IsWell sid reg.services reg.negotiator w)

  run_call-IsWell :
      (c : Call) (stamp : Stamp) (reg : PlatformServiceRegistry)
      → IsWell reg.services reg.negotiator
      → let reg' = run_call h c stamp reg in IsWell reg'.services reg'.negotiator
  unfolding run_call update_service change_status merge_remote_service remove_service
      negotiate_version enable_service disable_service deprecate_service retire_service
  run_call-IsWell (register r m) stamp reg w = register-IsWell r m stamp reg w
  run_call-IsWell (update sid us) stamp reg w =
      update-IsWell (lookup sid reg.services) sid us stamp reg refl w
  run_call-IsWell (set_status sid s reason) stamp reg w =
      set_status-IsWell (lookup sid reg.services) sid s _ stamp reg refl w
  run_call-IsWell (enable sid) stamp reg w =
      set_status-IsWell (lookup sid reg.services) sid _ _ stamp reg refl w
  run_call-IsWell (disable sid) stamp reg w =
      set_status-IsWell (lookup sid reg.services) sid _ _ stamp reg refl w
  run_call-IsWell (deprecate sid reason) stamp reg w =
      set_status-IsWell (lookup sid reg.services) sid _ _ stamp reg refl w
  run_call-IsWell (retire sid reason) stamp reg w =
      set_status-IsWell (lookup sid reg.services) sid _ _ stamp reg refl w
  run_call-IsWell (merge r m node) stamp reg w = log-IsWell _ _ _ stamp _ (adopted-IsWell r m reg w)
  run_call-IsWell (remove sid reason) stamp reg w =
      remove-IsWell (lookup sid reg.services) sid reason stamp reg w
  run_call-IsWell (ask sid requested) stamp reg w = log-IsWell _ _ _ stamp reg w

  run-IsWell :
      (calls : List (Call × Stamp)) (reg : PlatformServiceRegistry)
      → IsWell reg.services reg.negotiator
      → let reg' = run h calls reg in IsWell reg'.services reg'.negotiator
  unfolding run
  run-IsWell [] reg w = w
  run-IsWell ((c, stamp) ∷ calls) reg w =
      run-IsWell calls (run_call h c stamp reg) (run_call-IsWell c stamp reg w)

  new-IsWell : IsWell [] (new_registry h).negotiator
  unfolding lookup
  new-IsWell = record { filed = λ k r e. cc; published = λ k e. absurd (e refl) }

  -- After any calls of a new registry, a service that it holds stands under its own id, and a version
  -- asked of it is negotiated: the answer is not that the service is unknown.
  pub run_publishes :
      (calls : List (Call × Stamp)) (k : String) (r : PlatformServiceRecord) (requested : String)
      → get_service k (run h calls (new_registry h)) ≡ some r
      → (r.platform_service_id ≡ k)
        × (negotiate k requested (run h calls (new_registry h)).negotiator ≢ unknown_service)
  unfolding get_service negotiate
  run_publishes calls k r requested found =
      let w = run-IsWell calls (new_registry h) new-IsWell in
      (
        w.filed k r found,
        negotiate_found_known _ _ _ requested
            (w.published k (λ missing. ground (arith, missing, found))),
      )

  -- Remove a service that is registered: it and its manifest are gone, every other service stays, and
  -- a version of any service, of the removed one too, is negotiated as before.
  pub remove_service_leaves :
      (sid reason : String) (stamp : Stamp) (reg : PlatformServiceRegistry) (k requested : String)
      → get_service sid reg ≢ none
      → let reg' = (remove_service h sid reason stamp reg).1 in
        (get_manifest sid reg' ≡ none)
        × (get_service k reg' ≡ (if sid == k then none else get_service k reg))
        × (negotiate k requested reg'.negotiator ≡ negotiate k requested reg.negotiator)
  unfolding remove_service remove_found log get_service get_manifest
  remove_service_leaves sid reason stamp reg k requested there =
      elim (Option-cases (lookup sid reg.services)) [
        | inl missing ↦ absurd (there missing)
        | inr (r, found) ↦ rw found (
          lookup-erase sid sid reg.manifests ∙ rw (eq_refl sid) refl,
          lookup-erase sid k reg.services,
          refl,
        )
      ]
