-- ===== src/Services/Session/Well.antt =====
-- The invariant of a `PlatformServiceRegistry`: every service stands under its own id and has its
-- versions published, and what keeps it.
use bhiv_qcg.Prelude.{
  String, ◌≡◌, refl, ◌∙◌, ◌≢◌, ◌⊎◌, inl, inr, Option, none, some, List, [], ◌∷◌, arith, ◌==◌,
  eq_iff, Bool-cases, String-cases, eq_false,
}
use bhiv_qcg.Prelude.Dict.{Dict, lookup, insert, erase, lookup-insert, lookup-erase}
use bhiv_qcg.Services.{PlatformServiceRecord, CapabilityManifest}
use bhiv_qcg.Services.Negotiation.{
  VersionNegotiator, register_compatibility, negotiate_found, unknown_service,
}
use bhiv_qcg.Services.Registry.{
  capability_id, service_name, version, provider, owner, runtime_type, service_classification,
  capability_category, status, description, tags, endpoints, dependencies, fixed, unknown,
  PlatformServiceRegistry, Update, apply_updates, adopted, publish_versions, set_attribute,
}

abbrev IsAnswered : VersionNegotiator → String → Type 0
IsAnswered n k = lookup k n.compatible_versions ≢ none

pub negotiate_found_known :
    (o : Option (List String)) (d u : List String) (requested : String)
    → o ≢ none
    → negotiate_found o d u requested ≢ unknown_service
unfolding negotiate_found
negotiate_found_known none d u requested n e = n refl
negotiate_found_known (some c) d u requested n e = ground arith

-- Every service stands under its own id and has its versions published.
pub record IsWell (services : Dict PlatformServiceRecord) (n : VersionNegotiator) : Type 0 where
  pub filed :
      (k : String) (r : PlatformServiceRecord)
      → lookup k services ≡ some r
      → r.platform_service_id ≡ k
  pub published : (k : String) → lookup k services ≢ none → IsAnswered n k

set_attribute_id :
    (u : Update) (r : PlatformServiceRecord)
    → (set_attribute u r).platform_service_id ≡ r.platform_service_id
unfolding set_attribute
set_attribute_id (capability_id v) r = refl
set_attribute_id (service_name v) r = refl
set_attribute_id (version v) r = refl
set_attribute_id (provider v) r = refl
set_attribute_id (owner v) r = refl
set_attribute_id (runtime_type v) r = refl
set_attribute_id (service_classification v) r = refl
set_attribute_id (capability_category v) r = refl
set_attribute_id (status v) r = refl
set_attribute_id (description v) r = refl
set_attribute_id (tags v) r = refl
set_attribute_id (endpoints v) r = refl
set_attribute_id (dependencies v) r = refl
set_attribute_id (fixed v) r = refl
set_attribute_id (unknown v) r = refl

pub apply_updates_id :
    (us : List Update) (r : PlatformServiceRecord)
    → (apply_updates us r).platform_service_id ≡ r.platform_service_id
unfolding apply_updates
apply_updates_id [] r = refl
apply_updates_id (u ∷ us) r = apply_updates_id us (set_attribute u r) ∙ set_attribute_id u r

-- A registered service is answered.
register_compatibility-IsAnswered :
    (sid k : String) (c : List String) (d u : Option (List String)) (n : VersionNegotiator)
    → (sid ≡ k) ⊎ IsAnswered n k
    → IsAnswered (register_compatibility sid c d u n) k
unfolding register_compatibility
register_compatibility-IsAnswered sid k c d u n why e =
    ground (arith, lookup-insert sid k c n.compatible_versions, eq_iff sid k, why, e)

publish_versions-IsAnswered :
    (r : PlatformServiceRecord) (m : Option CapabilityManifest) (k : String) (n : VersionNegotiator)
    → (r.platform_service_id ≡ k) ⊎ IsAnswered n k
    → IsAnswered (publish_versions r m n) k
unfolding publish_versions
publish_versions-IsAnswered r none k n why =
    register_compatibility-IsAnswered r.platform_service_id k _ _ _ n why
publish_versions-IsAnswered r (some m) k n why =
    register_compatibility-IsAnswered r.platform_service_id k _ _ _ n why

insert-IsWell :
    (sid : String) (r : PlatformServiceRecord) (services : Dict PlatformServiceRecord)
    (n n' : VersionNegotiator)
    → r.platform_service_id ≡ sid
    → ((k : String) → (sid ≡ k) ⊎ IsAnswered n k → IsAnswered n' k)
    → IsWell services n
    → IsWell (insert sid r services) n'
insert-IsWell sid r services n n' own grows w = record {
  filed = λ k s e. elim (String-cases sid k) [
    | inl same ↦ ground (arith, lookup-insert sid k r services, eq_iff sid k, own, same, e)
    | inr other ↦ w.filed k s (rw (lookup-insert sid k r services, eq_false sid k other) at e)
  ];
  published = λ k e. grows k (elim (String-cases sid k) [
    | inl same ↦ inl same
    | inr other ↦
        inr (w.published k (rw (lookup-insert sid k r services, eq_false sid k other) at e))
  ]);
}

pub erase-IsWell :
    (sid : String) (services : Dict PlatformServiceRecord) (n : VersionNegotiator)
    → IsWell services n
    → IsWell (erase sid services) n
erase-IsWell sid services n w = record {
  filed = λ k s e. elim (Bool-cases (sid == k)) [
    | inl same ↦ absurd (ground (arith, lookup-erase sid k services, e, same))
    | inr other ↦ w.filed k s (rw (lookup-erase sid k services, other) at e)
  ];
  published = λ k e. elim (Bool-cases (sid == k)) [
    | inl same ↦ absurd (e (lookup-erase sid k services ∙ rw same refl))
    | inr other ↦ w.published k (rw (lookup-erase sid k services, other) at e)
  ];
}

pub adopted-IsWell :
    (r : PlatformServiceRecord) (m : Option CapabilityManifest) (reg : PlatformServiceRegistry)
    → IsWell reg.services reg.negotiator
    → IsWell (adopted r m reg).services (adopted r m reg).negotiator
adopted-IsWell r m reg w =
    insert-IsWell r.platform_service_id r reg.services reg.negotiator
      (publish_versions r m reg.negotiator) refl
      (λ k why. publish_versions-IsAnswered r m k reg.negotiator why) w

-- A service that is there is changed in place.
pub changed-IsWell :
    (sid : String) (r r' : PlatformServiceRecord) (services : Dict PlatformServiceRecord)
    (n : VersionNegotiator)
    → lookup sid services ≡ some r
    → r'.platform_service_id ≡ r.platform_service_id
    → IsWell services n
    → IsWell (insert sid r' services) n
changed-IsWell sid r r' services n found same w =
    insert-IsWell sid r' services n n (same ∙ w.filed sid r found)
      (λ k why. elim why [
        | inl here ↦ rw⁻¹ here (w.published sid (λ missing. ground (arith, missing, found)))
        | inr answered ↦ answered
      ])
      w
