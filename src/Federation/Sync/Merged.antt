-- ===== src/Federation/Sync/Merged.antt =====
-- federated_registry.py: what a node holds after it has pulled the services of a peer, and what the two
-- hold after each has pulled those of the other.
use bhiv_qcg.Prelude.{
  ℕ, ◌+◌, String, ◌≡◌, refl, sym, ap, ◌∙◌, inl, inr, Option, none, some, List, [], ◌∷◌, map, ◌==◌,
  eq_refl, if◌then◌else◌, Bool-cases, String-cases, eq_false,
}
use bhiv_qcg.Prelude.Dict.{Dict, lookup, insert, lookup-insert}
use bhiv_qcg.Prelude.Order.{codes-inj}
use bhiv_qcg.Prelude.Hashing.{Hashing}
use bhiv_qcg.Services.{PlatformServiceRecord, CapabilityManifest}
use bhiv_qcg.Services.Registry.{PlatformServiceRegistry}
use bhiv_qcg.Services.Mutations.{log, merge_remote_service}
use bhiv_qcg.Services.Queries.{get_service, list_services}
use bhiv_qcg.Federation.{Store, Payload}
use bhiv_qcg.Federation.Conflict.Order.{resolve_commutes}
use bhiv_qcg.Federation.Node.{
  FederatedRegistryNode, Supply, adopt_found, remote_wins, record_in_log,
}
use bhiv_qcg.Federation.Node.Received.{kept, resolve-cases, adopt_services}
use bhiv_qcg.Federation.Sync.{Counts, Fresh, pull, publish, sync_found, increment_clock}

-- A dict of services: each stands under its own id, and no id stands twice.
abbrev pub IsListing : Dict PlatformServiceRecord → Type 0
IsListing [] = Unit
IsListing ((k, r) ∷ d) = (r.platform_service_id ≡ k) × (lookup k d ≡ none) × IsListing d

insert-IsListing :
    (r : PlatformServiceRecord) (d : Dict PlatformServiceRecord)
    → IsListing d
    → IsListing (insert r.platform_service_id r d)
unfolding insert
insert-IsListing r [] l = (refl, unfold lookup in refl, tt)
insert-IsListing r ((k, s) ∷ d) l = elim (String-cases k r.platform_service_id) [
  | inl same ↦ rw (same, eq_refl r.platform_service_id) (refl, rw⁻¹ same l.1, l.2)
  | inr differ ↦ rw (eq_false k r.platform_service_id differ) (
    l.0,
    lookup-insert r.platform_service_id k r d
        ∙ rw (eq_false r.platform_service_id k (λ e. differ (sym e))) l.1,
    insert-IsListing r d l.2,
  )
]

module _ (h : Hashing) where
  -- Under an id, the service held and the peer's.
  abbrev pub met :
      Option PlatformServiceRecord → Option PlatformServiceRecord → Option PlatformServiceRecord
  met o none = o
  met o (some r) = some (kept h o r)

  adopt-IsListing :
      (o : Option PlatformServiceRecord) (r : PlatformServiceRecord) (m : Option CapabilityManifest)
      (source : String) (supply : Supply) (n : FederatedRegistryNode)
      → IsListing n.registry.services
      → IsListing (adopt_found h o r m source supply n).registry.services
  unfolding adopt_found merge_remote_service log
  adopt-IsListing none r m source supply n l = insert-IsListing r n.registry.services l
  adopt-IsListing (some local) r m source supply n l = elim (Bool-cases (remote_wins h local r)) [
    | inl theirs ↦ rw theirs (insert-IsListing r n.registry.services l)
    | inr ours ↦ rw ours l
  ]

  pull-IsListing :
      (peer : PlatformServiceRegistry) (id : String) (supply : ℕ → Supply)
      (rs : List PlatformServiceRecord) (n : FederatedRegistryNode) (c : Counts)
      → IsListing n.registry.services
      → IsListing (pull h peer id supply rs (n, c)).0.registry.services
  unfolding pull
  pull-IsListing peer id supply [] n c l = l
  pull-IsListing peer id supply (r ∷ rs) n c l =
      pull-IsListing peer id (λ i. supply (i + 1)) rs _ _
        (adopt-IsListing (get_service r.platform_service_id n.registry) r _ id (supply 0) n l)

  met_first :
      (j k : String) (r : PlatformServiceRecord) (d services : Dict PlatformServiceRecord)
      → r.platform_service_id ≡ j
      → lookup j d ≡ none
      → met
          (if r.platform_service_id == k
            then some (kept h (lookup r.platform_service_id services) r)
            else lookup k services)
          (lookup k d)
        ≡ met (lookup k services) (if j == k then some r else lookup k d)
  met_first j k r d services own once = elim (String-cases j k) [
    | inl same ↦ rw⁻¹ same (rw (own, eq_refl j, once) refl)
    | inr differ ↦ rw (own, eq_false j k differ) refl
  ]

  pull_services :
      (peer : PlatformServiceRegistry) (id : String) (supply : ℕ → Supply)
      (d : Dict PlatformServiceRecord) (n : FederatedRegistryNode) (c : Counts) (k : String)
      → IsListing d
      → lookup k (pull h peer id supply (map (λ entry. entry.1) d) (n, c)).0.registry.services
        ≡ met (lookup k n.registry.services) (lookup k d)
  unfolding pull lookup get_service
  pull_services peer id supply [] n c k l = refl
  pull_services peer id supply ((j, r) ∷ d) n c k l =
      pull_services peer id (λ i. supply (i + 1)) d _ _ k l.2
      ∙ rw
          (adopt_services h (lookup r.platform_service_id n.registry.services) r _ id (supply 0) n k
            refl)
          (met_first j k r d n.registry.services l.0 l.1)

  publish_registry :
      (t target : String) (p : Payload) (fresh : Fresh) (store : Store) (n : FederatedRegistryNode)
      → (publish h t target p fresh store n).1.registry ≡ n.registry
  unfolding publish record_in_log increment_clock
  publish_registry t target p fresh store n = refl

  -- After a node has pulled the services of a peer, it holds under each id what the meeting of its
  -- service with the peer's leaves: its own where the peer has none, the peer's where it has none or
  -- the time stamps are equal, and else the one that the resolution chooses.
  sync_merges :
      (peer n : FederatedRegistryNode) (supply : ℕ → Supply) (fresh : Fresh) (store : Store)
      (k : String)
      → IsListing peer.registry.services
      → get_service k (sync_found h peer supply fresh store n).2.registry
        ≡ met (get_service k n.registry) (get_service k peer.registry)
  unfolding get_service sync_found list_services
  sync_merges peer n supply fresh store k l =
      ap (λ reg. lookup k reg.services) (publish_registry _ _ _ fresh store _)
      ∙ pull_services peer.registry peer.node_id supply peer.registry.services n _ k l

  sync-IsListing :
      (peer n : FederatedRegistryNode) (supply : ℕ → Supply) (fresh : Fresh) (store : Store)
      → IsListing n.registry.services
      → IsListing (sync_found h peer supply fresh store n).2.registry.services
  unfolding sync_found
  sync-IsListing peer n supply fresh store l =
      rw (publish_registry _ _ _ fresh store _)
        (pull-IsListing peer.registry peer.node_id supply (list_services peer.registry) n _ l)

  kept_back :
      (a b : PlatformServiceRecord) → kept h (some b) (kept h (some a) b) ≡ kept h (some a) b
  kept_back a b = elim (String-cases a.registration_timestamp b.registration_timestamp) [
    | inl tie ↦
        rw (tie, eq_refl b.registration_timestamp) (rw (eq_refl b.registration_timestamp) refl)
    | inr differ ↦ rw (eq_false _ _ differ) (elim (resolve-cases h a b) [
      | inl theirs ↦ rw (theirs, eq_refl b.registration_timestamp) refl
      | inr ours ↦
          rw (ours, eq_false _ _ (λ e. differ (sym e)))
            (elim (resolve_commutes h a b) [
              | inl same ↦ sym same ∙ ours
              | inr ranks ↦ absurd (differ (codes-inj _ _ (ap (λ r. r.1.0) ranks)))
            ])
    ])
  ]

  met_back : (a b : Option PlatformServiceRecord) → met b (met a b) ≡ met a b
  met_back none none = refl
  met_back none (some b) = rw (eq_refl b.registration_timestamp) refl
  met_back (some a) none = refl
  met_back (some a) (some b) = ap some (kept_back a b)

  -- Two nodes with any services, each under its own id: the first pulls from the second, then the second
  -- from the first. Then both hold the same service under every id, whatever the versions and time
  -- stamps are.
  pub sync_converges :
      (a b : FederatedRegistryNode) (supply supply' : ℕ → Supply) (fresh fresh' : Fresh)
      (store : Store) (k : String)
      → IsListing a.registry.services
      → IsListing b.registry.services
      → let (c, store', a') = sync_found h b supply fresh store a in
        let (c', store'', b') = sync_found h a' supply' fresh' store' b in
        get_service k b'.registry ≡ get_service k a'.registry
  sync_converges a b supply supply' fresh fresh' store k la lb =
      let merged = sync_merges b a supply fresh store k lb in
      sync_merges (sync_found h b supply fresh store a).2 b supply' fresh' _ k
        (sync-IsListing b a supply fresh store la)
      ∙ rw merged (met_back (get_service k a.registry) (get_service k b.registry))
