-- ===== src/Services/Session/Refined.antt =====
-- What a `PlatformServiceRegistry` promises: it is a pair of finite maps, one of services and one of
-- manifests, and each call is an update of them at one id.
use bhiv_qcg.Services.Session.Catalog.{
  put_found, modify_missing, drop_missing, catalog_of, adopt, with_status, restate, specified,
  replay, same_catalog, keep_manifest-put_given, IsTidy, specified-IsTidy,
}
use bhiv_qcg.Prelude.{
  String, ◌≡◌, refl, sym, ap, ◌∙◌, inl, inr, Option, none, some, List, [], ◌∷◌, Bool-cases, mem,
}
use mathlib.Core.Path.{subst}
use bhiv_qcg.Prelude.Dict.{lookup, lookup-insert, lookup-erase}
use bhiv_qcg.Prelude.Hashing.{Hashing, Json}
use bhiv_qcg.Services.{PlatformServiceRecord, CapabilityManifest}
use bhiv_qcg.Services.Evidence.{Stamp}
use bhiv_qcg.Services.Registry.{
  PlatformServiceRegistry, Update, valid_statuses, apply_updates, is_same_version, adopted,
}
use bhiv_qcg.Services.Mutations.{
  log, register_service, update_service, update_found, set_status as change_status,
  set_status_found, merge_remote_service, remove_service, remove_found, negotiate_version,
  enable_service, disable_service, deprecate_service, retire_service,
}
use bhiv_qcg.Services.Session.{
  Call, register, update, set_status, enable, disable, deprecate, retire, merge, remove,
  negotiate as ask, run_call, run,
}

adopted-adopt :
    (r : PlatformServiceRecord) (m : Option CapabilityManifest) (reg : PlatformServiceRegistry)
    → catalog_of (adopted r m reg) ≡ adopt r m (catalog_of reg)
adopted-adopt r m reg =
    same_catalog (λ k. lookup-insert r.platform_service_id k r reg.services)
      (λ k. keep_manifest-put_given r.platform_service_id m reg.manifests k)

module _ (h : Hashing) where
  log-catalog_of :
      (t sid : String) (d : Json) (stamp : Stamp) (reg : PlatformServiceRegistry)
      → catalog_of (log h t sid d stamp reg).1 ≡ catalog_of reg
  unfolding log
  log-catalog_of t sid d stamp reg = refl

  register_refines :
      (r : PlatformServiceRecord) (m : Option CapabilityManifest) (stamp : Stamp)
      (reg : PlatformServiceRegistry)
      → catalog_of (register_service h r m stamp reg).1 ≡ specified (register r m) (catalog_of reg)
  unfolding register_service
  register_refines r m stamp reg =
      elim (Bool-cases (is_same_version (lookup r.platform_service_id reg.services) r)) [
        | inl same ↦ rw same (log-catalog_of _ _ _ stamp reg)
        | inr new ↦ rw new (log-catalog_of _ _ _ stamp (adopted r m reg) ∙ adopted-adopt r m reg)
      ]

  update_refines :
      (o : Option PlatformServiceRecord) (sid : String) (us : List Update) (stamp : Stamp)
      (reg : PlatformServiceRegistry)
      → lookup sid reg.services ≡ o
      → catalog_of (update_found h o sid us stamp reg).1
        ≡ specified (update sid us) (catalog_of reg)
  unfolding update_found
  update_refines none sid us stamp reg e =
      same_catalog (modify_missing sid (apply_updates us) (λ k. lookup k reg.services) e)
        (λ k. refl)
  update_refines (some r) sid us stamp reg e =
      log-catalog_of _ _ _ stamp _
      ∙ same_catalog
          (λ k.
            lookup-insert sid k (apply_updates us r) reg.services
            ∙ put_found sid (apply_updates us) r (λ i. lookup i reg.services) e k)
          (λ k. refl)

  set_status_refines :
      (o : Option PlatformServiceRecord) (sid s reason : String) (stamp : Stamp)
      (reg : PlatformServiceRegistry)
      → lookup sid reg.services ≡ o
      → catalog_of (set_status_found h o sid s reason stamp reg).1 ≡ restate sid s (catalog_of reg)
  unfolding set_status_found
  set_status_refines none sid s reason stamp reg e = elim (Bool-cases (mem s valid_statuses)) [
    | inl good ↦ rw good (
        same_catalog (modify_missing sid (with_status s) (λ k. lookup k reg.services) e)
          (λ k. refl))
    | inr bad ↦ rw bad refl
  ]
  set_status_refines (some r) sid s reason stamp reg e = elim (Bool-cases (mem s valid_statuses)) [
    | inl good ↦ rw good (
        log-catalog_of _ _ _ stamp _
        ∙ same_catalog
            (λ k.
              lookup-insert sid k (with_status s r) reg.services
              ∙ put_found sid (with_status s) r (λ i. lookup i reg.services) e k)
            (λ k. refl))
    | inr bad ↦ rw bad refl
  ]

  remove_refines :
      (o : Option PlatformServiceRecord) (sid reason : String) (stamp : Stamp)
      (reg : PlatformServiceRegistry)
      → lookup sid reg.services ≡ o
      → (lookup sid reg.services ≡ none → lookup sid reg.manifests ≡ none)
      → catalog_of (remove_found h o sid reason stamp reg).1
        ≡ specified (remove sid reason) (catalog_of reg)
  unfolding remove_found
  remove_refines none sid reason stamp reg e w =
      same_catalog (drop_missing sid (λ k. lookup k reg.services) e)
        (drop_missing sid (λ k. lookup k reg.manifests) (w e))
  remove_refines (some r) sid reason stamp reg e w =
      log-catalog_of _ _ _ stamp _
      ∙ same_catalog (λ k. lookup-erase sid k reg.services) (λ k. lookup-erase sid k reg.manifests)

  run_call_refines :
      (c : Call) (stamp : Stamp) (reg : PlatformServiceRegistry)
      → IsTidy (catalog_of reg)
      → catalog_of (run_call h c stamp reg) ≡ specified c (catalog_of reg)
  unfolding run_call update_service change_status merge_remote_service remove_service
      negotiate_version enable_service disable_service deprecate_service retire_service
  run_call_refines (register r m) stamp reg t = register_refines r m stamp reg
  run_call_refines (update sid us) stamp reg t =
      update_refines (lookup sid reg.services) sid us stamp reg refl
  run_call_refines (set_status sid s reason) stamp reg t =
      set_status_refines (lookup sid reg.services) sid s _ stamp reg refl
  run_call_refines (enable sid) stamp reg t =
      set_status_refines (lookup sid reg.services) sid "ACTIVE" _ stamp reg refl
  run_call_refines (disable sid) stamp reg t =
      set_status_refines (lookup sid reg.services) sid "DRAFT" _ stamp reg refl
  run_call_refines (deprecate sid reason) stamp reg t =
      set_status_refines (lookup sid reg.services) sid "DEPRECATED" _ stamp reg refl
  run_call_refines (retire sid reason) stamp reg t =
      set_status_refines (lookup sid reg.services) sid "RETIRED" _ stamp reg refl
  run_call_refines (merge r m node) stamp reg t =
      log-catalog_of _ _ _ stamp (adopted r m reg) ∙ adopted-adopt r m reg
  run_call_refines (remove sid reason) stamp reg t =
      remove_refines (lookup sid reg.services) sid reason stamp reg refl (t sid)
  run_call_refines (ask sid requested) stamp reg t = log-catalog_of _ _ _ stamp reg

  -- Run calls on a registry that holds no manifest without its service, as the new one and all that
  -- come of it: the two maps it stands for are those that the same calls make of the maps it stood
  -- for, each call an update at one id.
  pub run_refines :
      (calls : List (Call × Stamp)) (reg : PlatformServiceRegistry)
      → IsTidy (catalog_of reg)
      → catalog_of (run h calls reg) ≡ replay calls (catalog_of reg)
  unfolding run
  run_refines [] reg t = refl
  run_refines ((c, stamp) ∷ calls) reg t =
      run_refines calls (run_call h c stamp reg) (
        subst IsTidy (sym (run_call_refines c stamp reg t)) (specified-IsTidy c (catalog_of reg) t))
      ∙ ap (replay calls) (run_call_refines c stamp reg t)
