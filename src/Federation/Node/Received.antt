-- ===== src/Federation/Node/Received.antt =====
-- federated_registry.py: which service a node holds after a registration arrived from a peer.
use bhiv_qcg.Prelude.{
  ℕ, zero, suc, String, ◌≡◌, refl, ◌∙◌, ◌⊎◌, inl, inr, false, Option, none, some, List, [], ◌∷◌,
  ◌++◌, arith, ◌==◌, eq_refl, ltb, if◌then◌else◌, Bool-cases, String-cases, eq_false, length,
  get_elem?, mem,
}
use bhiv_qcg.Prelude.Dict.{lookup, lookup-insert}
use bhiv_qcg.Prelude.Hashing.{Hashing}
use bhiv_qcg.Services.{PlatformServiceRecord, CapabilityManifest}
use bhiv_qcg.Services.Mutations.{log, merge_remote_service}
use bhiv_qcg.Services.Queries.{get_service}
use bhiv_qcg.Federation.{FederationEvent, registration, Store}
use bhiv_qcg.Federation.Conflict.{resolve, by_timestamp, by_hash}
use bhiv_qcg.Federation.Node.{
  FederatedRegistryNode, Supply, remote_wins, adopt_found, handle_remote_registration, process,
  record_in_log, accept, receive, receive_found, remember, evict, evict_first, merge, merge_clock,
}

module _ (h : Hashing) where
  -- The service that is held after a meeting: at equal time stamps the remote one, else the one that
  -- the resolution chooses.
  abbrev pub kept : Option PlatformServiceRecord → PlatformServiceRecord → PlatformServiceRecord
  kept none remote = remote
  kept (some local) remote =
      if local.registration_timestamp == remote.registration_timestamp
      then remote
      else resolve h local remote

  pub resolve-cases :
      (local remote : PlatformServiceRecord)
      → (resolve h local remote ≡ remote) ⊎ (resolve h local remote ≡ local)
  unfolding resolve by_timestamp by_hash
  resolve-cases local remote = ground arith

  -- The test of the code, and what is kept when it answers.
  remote_wins-kept :
      (local remote : PlatformServiceRecord)
      → kept (some local) remote ≡ (if remote_wins h local remote then remote else local)
  unfolding remote_wins
  remote_wins-kept local remote = elim (resolve-cases local remote) [
    | inl theirs ↦ rw (theirs, eq_refl remote.registration_timestamp) (ground arith)
    | inr ours ↦ rw ours refl
  ]

  merge_services :
      (r : PlatformServiceRecord) (m : Option CapabilityManifest) (source : String)
      (supply : Supply) (n : FederatedRegistryNode) (k : String)
      → lookup k (merge h r m source supply n).registry.services
        ≡ (if r.platform_service_id == k then some r else lookup k n.registry.services)
  unfolding merge_remote_service log
  merge_services r m source supply n k = lookup-insert r.platform_service_id k r n.registry.services

  pub adopt_services :
      (o : Option PlatformServiceRecord) (r : PlatformServiceRecord) (m : Option CapabilityManifest)
      (source : String) (supply : Supply) (n : FederatedRegistryNode) (k : String)
      → lookup r.platform_service_id n.registry.services ≡ o
      → lookup k (adopt_found h o r m source supply n).registry.services
        ≡ (if r.platform_service_id == k then some (kept o r) else lookup k n.registry.services)
  unfolding adopt_found
  adopt_services none r m source supply n k e = merge_services r m source supply n k
  adopt_services (some local) r m source supply n k e =
      rw (remote_wins-kept local r) (elim (Bool-cases (remote_wins h local r)) [
        | inl theirs ↦ rw theirs (merge_services r m source supply n k)
        | inr ours ↦ rw ours (elim (String-cases r.platform_service_id k) [
          | inl same ↦ rw⁻¹ same (rw (eq_refl r.platform_service_id) e)
          | inr other ↦ rw (eq_false r.platform_service_id k other) refl
        ])
      ])

  evict_first_registry :
      (n : FederatedRegistryNode) (order : List String)
      → (evict_first n order).registry ≡ n.registry
  unfolding evict_first
  evict_first_registry n [] = refl
  evict_first_registry n (old ∷ order) = refl

  evict_registry : (count : ℕ) (n : FederatedRegistryNode) → (evict count n).registry ≡ n.registry
  unfolding evict
  evict_registry zero n = refl
  evict_registry (suc count) n =
      evict_registry count (evict_first n n.nonce_order) ∙ evict_first_registry n n.nonce_order

  remember_registry :
      (cap : ℕ) (nonce : String) (n : FederatedRegistryNode)
      → (remember cap nonce n).registry ≡ n.registry
  unfolding remember
  remember_registry cap nonce n =
      elim (Bool-cases (ltb cap (length (n.seen_nonces ++ nonce ∷ [])))) [
        | inl over ↦ rw over (evict_registry _ _)
        | inr within ↦ rw within refl
      ]

  record_in_log_registry :
      (ref : ℕ) (store : Store) (n : FederatedRegistryNode)
      → (record_in_log h ref store n).1.registry ≡ n.registry
  unfolding record_in_log
  record_in_log_registry ref store n = refl

  -- A registration arrives that the node has not seen: under the id of its record the node then holds
  -- the record if it held none, the record too if the one it held has the same time stamp, and else
  -- the one that the resolution chooses; under every other id it holds what it held.
  pub receive_registers :
      (cap ref : ℕ) (supply : Supply) (store : Store) (n : FederatedRegistryNode)
      (e : FederationEvent) (r : PlatformServiceRecord) (m : Option CapabilityManifest) (k : String)
      → get_elem? store ref ≡ some e
      → mem e.nonce n.seen_nonces ≡ false
      → e.event_type ≡ "SERVICE_REGISTERED"
      → e.payload ≡ registration r m
      → get_service k (receive h cap ref supply store n).1.registry ≡ (
          if r.platform_service_id == k
          then some (kept (get_service r.platform_service_id n.registry) r)
          else get_service k n.registry)
  unfolding get_service receive receive_found
  receive_registers cap ref supply store n e r m k there fresh kind load =
      rw (there, fresh)
        (unfold record_in_log accept process handle_remote_registration in
          rw (kind, load)
            (adopt_services _ r m e.source_node_id supply
                (record (remember cap e.nonce n) {
                  vector_clock = merge_clock e.vector_clock (remember cap e.nonce n).vector_clock;
                })
                k refl
              ∙ rw (remember_registry cap e.nonce n) refl))
