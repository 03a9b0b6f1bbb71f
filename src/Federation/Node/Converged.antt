-- ===== src/Federation/Node/Converged.antt =====
-- federated_registry.py: two nodes to which the same registrations of a service arrive in any orders.
use bhiv_qcg.Prelude.{
  String, ◌≡◌, refl, sym, ap, ◌∙◌, ◌↔◌, inl, inr, Option, some, List, [], ◌∷◌, map, eq_iff, eq_refl,
  String-cases, eq_false, All,
}
use bhiv_qcg.Prelude.Dict.{lookup}
use bhiv_qcg.Prelude.Hashing.{Hashing}
use bhiv_qcg.Prelude.Order.{codes-inj}
use bhiv_qcg.Services.{PlatformServiceRecord, CapabilityManifest}
use bhiv_qcg.Services.Queries.{get_service}
use bhiv_qcg.Federation.{registration}
use bhiv_qcg.Federation.Conflict.{resolve}
use bhiv_qcg.Federation.Conflict.Order.{Stands, resolve_all, resolve_converges}
use bhiv_qcg.Federation.Node.{FederatedRegistryNode, Supply, handle_remote_registration}
use bhiv_qcg.Federation.Node.Received.{kept, resolve-cases, adopt_services}

-- A registration that arrives, from whom, and the clocks and random sources at that time.
pub record Arrival : Type 0 where
  pub service : PlatformServiceRecord
  pub manifest : Option CapabilityManifest
  pub source : String
  pub supply : Supply

abbrev pub services_of : List Arrival → List PlatformServiceRecord
services_of xs = map (λ (x : Arrival). x.service) xs

-- Records with one time stamp are the same record.
abbrev pub Apart : List PlatformServiceRecord → Type 0
Apart rs =
    (a b : PlatformServiceRecord)
    → Stands a rs
    → Stands b rs
    → a.registration_timestamp ≡ b.registration_timestamp
    → a ≡ b

module _ (h : Hashing) where
  unfoldable pub absorb : List Arrival → FederatedRegistryNode → FederatedRegistryNode
  absorb [] n = n
  absorb (x ∷ xs) n =
      absorb xs
        (handle_remote_registration h (registration x.service x.manifest) x.source x.supply n)

  abbrev keep_all : PlatformServiceRecord → List PlatformServiceRecord → PlatformServiceRecord
  keep_all r [] = r
  keep_all r (x ∷ xs) = keep_all (kept h (some r) x) xs

  absorb_lem :
      (sid : String) (xs : List Arrival) (n : FederatedRegistryNode) (r : PlatformServiceRecord)
      → All (λ (x : PlatformServiceRecord). x.platform_service_id ≡ sid) (services_of xs)
      → lookup sid n.registry.services ≡ some r
      → lookup sid (absorb xs n).registry.services ≡ some (keep_all r (services_of xs))
  unfolding absorb
  absorb_lem sid [] n r ids held = held
  absorb_lem sid (x ∷ xs) n r ids held =
      absorb_lem sid xs
        (handle_remote_registration h (registration x.service x.manifest) x.source x.supply n)
        (kept h (some r) x.service) ids.1
        (unfold handle_remote_registration in
          (adopt_services h (lookup x.service.platform_service_id n.registry.services) x.service
              x.manifest x.source x.supply n sid refl
            ∙ rw (ids.0, held, eq_refl sid) refl))

  -- With distinct time stamps the node keeps what the resolution chooses.
  kept-resolve :
      (r x : PlatformServiceRecord)
      → (r.registration_timestamp ≡ x.registration_timestamp → r ≡ x)
      → kept h (some r) x ≡ resolve h r x
  kept-resolve r x apart = elim (String-cases r.registration_timestamp x.registration_timestamp) [
    | inr other ↦ rw (eq_false r.registration_timestamp x.registration_timestamp other) refl
    | inl same ↦
        rw ((eq_iff r.registration_timestamp x.registration_timestamp).1 same)
          (elim (resolve-cases h r x) [
            | inl theirs ↦ sym theirs
            | inr ours ↦ sym (ours ∙ apart same)
          ])
  ]

  chosen-Stands :
      (r x a : PlatformServiceRecord) (xs : List PlatformServiceRecord)
      → Stands a (resolve h r x ∷ xs)
      → Stands a (r ∷ x ∷ xs)
  chosen-Stands r x a xs (inr later) = inr (inr later)
  chosen-Stands r x a xs (inl first) = elim (resolve-cases h r x) [
    | inl theirs ↦ inr (inl (first ∙ theirs))
    | inr ours ↦ inl (first ∙ ours)
  ]

  keep_all-resolve_all :
      (r : PlatformServiceRecord) (xs : List PlatformServiceRecord)
      → Apart (r ∷ xs)
      → keep_all r xs ≡ resolve_all h r xs
  keep_all-resolve_all r [] apart = refl
  keep_all-resolve_all r (x ∷ xs) apart =
      rw (kept-resolve r x (apart r x (inl refl) (inr (inl refl)))) (
        keep_all-resolve_all (resolve h r x) xs
          (λ a b s t e. apart a b (chosen-Stands r x a xs s) (chosen-Stands r x b xs t) e))

  -- Two nodes each hold a service under one id, and registrations under that id arrive at each, in any
  -- orders, so that both have met the same records, the held ones included. If records with one time
  -- stamp are the same record, both nodes then hold the same one. With equal time stamps they need not:
  -- a node keeps what came last.
  pub registrations_converge :
      (sid : String) (n m : FederatedRegistryNode) (r s : PlatformServiceRecord)
      (xs ys : List Arrival)
      → get_service sid n.registry ≡ some r
      → get_service sid m.registry ≡ some s
      → All (λ (x : PlatformServiceRecord). x.platform_service_id ≡ sid) (services_of xs)
      → All (λ (x : PlatformServiceRecord). x.platform_service_id ≡ sid) (services_of ys)
      → ((a : PlatformServiceRecord)
          → Stands a (r ∷ services_of xs) ↔ Stands a (s ∷ services_of ys))
      → Apart (r ∷ services_of xs)
      → get_service sid (absorb xs n).registry ≡ get_service sid (absorb ys m).registry
  unfolding get_service
  registrations_converge sid n m r s xs ys here there ids ids' same apart =
      let apart' : Apart (s ∷ services_of ys) =
        λ a b u v e. apart a b ((same a).1 u) ((same b).1 v) e in
      absorb_lem sid xs n r ids here
      ∙ ap some (
          keep_all-resolve_all r (services_of xs) apart
          ∙ resolve_converges h r s (services_of xs) (services_of ys) same
              (λ a b u v e. apart a b u v (codes-inj _ _ (ap (λ k. k.1.0) e)))
          ∙ sym (keep_all-resolve_all s (services_of ys) apart'))
      ∙ sym (absorb_lem sid ys m s ids' there)
