-- ===== src/Services/Session/Catalog.antt =====
-- The abstract registry that a `PlatformServiceRegistry` stands for, and what each call does to it.
use bhiv_qcg.Prelude.{
  String, ◌≡◌, refl, ap₂, inl, inr, Option, none, some, List, [], ◌∷◌, arith, ◌==◌, eq_refl,
  if◌then◌else◌, Bool-cases, Option-cases, String-cases, eq_false, mem,
}
use mathlib.Core.Path.{fun_ext}
use mathlib.Core.Option.{map as option_map}
use bhiv_qcg.Prelude.Dict.{Dict, lookup, lookup-insert}
use bhiv_qcg.Services.{PlatformServiceRecord, CapabilityManifest}
use bhiv_qcg.Services.Evidence.{Stamp}
use bhiv_qcg.Services.Registry.{
  PlatformServiceRegistry, valid_statuses, apply_updates, is_same_version, keep_manifest,
}
use bhiv_qcg.Services.Session.{
  Call, register, update, set_status, enable, disable, deprecate, retire, merge, remove,
  negotiate as ask,
}

-- The abstract registry.
pub record Catalog : Type 0 where
  pub service : String → Option PlatformServiceRecord
  pub manifest : String → Option CapabilityManifest

-- What the dicts of a registry stand for.
abbrev pub catalog_of : PlatformServiceRegistry → Catalog
catalog_of reg = record {
  service = λ k. lookup k reg.services;
  manifest = λ k. lookup k reg.manifests;
}

module _ {ℓ} {V : Type ℓ} where
  abbrev pub put : String → V → (String → Option V) → String → Option V
  put k v c j = if k == j then some v else c j

  abbrev pub modify : String → (V → V) → (String → Option V) → String → Option V
  modify k f c j = if k == j then option_map f (c j) else c j

  abbrev pub drop : String → (String → Option V) → String → Option V
  drop k c j = if k == j then none else c j

  pub put_found :
      (k : String) (f : V → V) (v : V) (c : String → Option V)
      → c k ≡ some v
      → (j : String) → put k (f v) c j ≡ modify k f c j
  put_found k f v c e j = elim (String-cases k j) [
    | inl same ↦ rw⁻¹ same (rw (eq_refl k, e) refl)
    | inr other ↦ rw (eq_false k j other) refl
  ]

  pub modify_missing :
      (k : String) (f : V → V) (c : String → Option V)
      → c k ≡ none
      → (j : String) → c j ≡ modify k f c j
  modify_missing k f c e j = elim (String-cases k j) [
    | inl same ↦ rw⁻¹ same (rw (eq_refl k, e) refl)
    | inr other ↦ rw (eq_false k j other) refl
  ]

  pub drop_missing :
      (k : String) (c : String → Option V) → c k ≡ none → (j : String) → c j ≡ drop k c j
  drop_missing k c e j = elim (String-cases k j) [
    | inl same ↦ rw⁻¹ same (rw (eq_refl k, e) refl)
    | inr other ↦ rw (eq_false k j other) refl
  ]

abbrev pub put_given :
    String
    → Option CapabilityManifest
    → (String → Option CapabilityManifest)
    → String
    → Option CapabilityManifest
put_given k none c = c
put_given k (some m) c = put k m c

abbrev pub adopt : PlatformServiceRecord → Option CapabilityManifest → Catalog → Catalog
adopt r m c = record {
  service = put r.platform_service_id r c.service;
  manifest = put_given r.platform_service_id m c.manifest;
}

abbrev pub with_status : String → PlatformServiceRecord → PlatformServiceRecord
with_status s r = record r { status = s }

abbrev pub restate : String → String → Catalog → Catalog
restate sid s c =
    if mem s valid_statuses then record c { service = modify sid (with_status s) c.service } else c

-- What a call does to the two maps.
abbrev pub specified : Call → Catalog → Catalog
specified (register r m) c =
    if is_same_version (c.service r.platform_service_id) r then c else adopt r m c
specified (update sid us) c = record c { service = modify sid (apply_updates us) c.service }
specified (set_status sid s reason) c = restate sid s c
specified (enable sid) c = restate sid "ACTIVE" c
specified (disable sid) c = restate sid "DRAFT" c
specified (deprecate sid reason) c = restate sid "DEPRECATED" c
specified (retire sid reason) c = restate sid "RETIRED" c
specified (merge r m node) c = adopt r m c
specified (remove sid reason) c = record {
  service = drop sid c.service;
  manifest = drop sid c.manifest;
}
specified (ask sid requested) c = c

abbrev pub replay : List (Call × Stamp) → Catalog → Catalog
replay [] c = c
replay ((call, stamp) ∷ calls) c = replay calls (specified call c)

pub same_catalog :
    {c d : Catalog}
    → ((k : String) → c.service k ≡ d.service k)
    → ((k : String) → c.manifest k ≡ d.manifest k)
    → c ≡ d
same_catalog s m = ap₂ (λ a b. record { service = a; manifest = b }) (fun_ext s) (fun_ext m)

pub keep_manifest-put_given :
    (k : String) (m : Option CapabilityManifest) (ms : Dict CapabilityManifest) (j : String)
    → lookup j (keep_manifest k m ms) ≡ put_given k m (λ i. lookup i ms) j
unfolding keep_manifest
keep_manifest-put_given k none ms j = refl
keep_manifest-put_given k (some m) ms j = lookup-insert k j m ms

-- No manifest without its service.
abbrev pub IsTidy : Catalog → Type 0
IsTidy c = (k : String) → c.service k ≡ none → c.manifest k ≡ none

adopt-IsTidy :
    (r : PlatformServiceRecord) (m : Option CapabilityManifest) (c : Catalog)
    → IsTidy c
    → IsTidy (adopt r m c)
adopt-IsTidy r none c t k e = elim (Bool-cases (r.platform_service_id == k)) [
  | inl same ↦ absurd (ground (arith, e, same))
  | inr other ↦ t k (rw other at e)
]
adopt-IsTidy r (some m) c t k e = elim (Bool-cases (r.platform_service_id == k)) [
  | inl same ↦ absurd (ground (arith, e, same))
  | inr other ↦ rw other (t k (rw other at e))
]

modify-IsTidy :
    (sid : String) (f : PlatformServiceRecord → PlatformServiceRecord) (c : Catalog)
    → IsTidy c
    → IsTidy (record c { service = modify sid f c.service })
modify-IsTidy sid f c t k e = t k (elim (Option-cases (c.service k)) [
  | inl missing ↦ missing
  | inr (r, found) ↦ absurd (ground (arith, e, found))
])

restate-IsTidy : (sid s : String) (c : Catalog) → IsTidy c → IsTidy (restate sid s c)
restate-IsTidy sid s c t k e = elim (Bool-cases (mem s valid_statuses)) [
  | inl good ↦ rw good (modify-IsTidy sid (with_status s) c t k (rw good at e))
  | inr bad ↦ rw bad (t k (rw bad at e))
]

drop-IsTidy :
    (sid : String) (c : Catalog)
    → IsTidy c
    → IsTidy (record { service = drop sid c.service; manifest = drop sid c.manifest })
drop-IsTidy sid c t k e = elim (Bool-cases (sid == k)) [
  | inl same ↦ rw same refl
  | inr other ↦ rw other (t k (rw other at e))
]

pub specified-IsTidy : (call : Call) (c : Catalog) → IsTidy c → IsTidy (specified call c)
specified-IsTidy (register r m) c t =
    elim (Bool-cases (is_same_version (c.service r.platform_service_id) r)) [
      | inl same ↦ rw same t
      | inr new ↦ rw new (adopt-IsTidy r m c t)
    ]
specified-IsTidy (update sid us) c t = modify-IsTidy sid (apply_updates us) c t
specified-IsTidy (set_status sid s reason) c t = restate-IsTidy sid s c t
specified-IsTidy (enable sid) c t = restate-IsTidy sid "ACTIVE" c t
specified-IsTidy (disable sid) c t = restate-IsTidy sid "DRAFT" c t
specified-IsTidy (deprecate sid reason) c t = restate-IsTidy sid "DEPRECATED" c t
specified-IsTidy (retire sid reason) c t = restate-IsTidy sid "RETIRED" c t
specified-IsTidy (merge r m node) c t = adopt-IsTidy r m c t
specified-IsTidy (remove sid reason) c t = drop-IsTidy sid c t
specified-IsTidy (ask sid requested) c t = t
