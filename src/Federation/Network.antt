-- ===== src/Federation/Network.antt =====
-- federated_registry.py: nodes that push their events to their peers in one process: authenticated
-- registration, revocation, expiry of a lease, and synchronisation with peers. A network is the store
-- of event objects and the node objects by their ids.
pub mod Pushed
use bhiv_qcg.Prelude.{
  ℕ, String, Bool, true, false, not, Option, none, some, List, [], ◌∷◌, ◌++◌, ◌==◌, if◌then◌else◌,
  length, mem,
}
use bhiv_qcg.Prelude.Dict.{Dict, lookup, insert}
use bhiv_qcg.Prelude.Hashing.{Hashing}
use bhiv_qcg.Services.{PlatformServiceRecord, CapabilityManifest, record_dict}
use bhiv_qcg.Services.Registry.{Receipt, already_registered, registered}
use bhiv_qcg.Services.Mutations.{register_service, remove_service}
use bhiv_qcg.Trust.Proof.{NodeProof, Verifier}
use bhiv_qcg.Trust.Certificates.{
  ServiceCertificate, CertificateAuthority, AuthResult, AuthReason, authenticate,
}
use bhiv_qcg.Leases.{revoke_lease}
use bhiv_qcg.Federation.{Payload, registration, removal, Store}
use bhiv_qcg.Federation.Node.{FederatedRegistryNode, Supply, clock_at, receive, grant}
use bhiv_qcg.Federation.Sync.{Counts, Fresh, publish, sync_found}

pub record Network : Type 0 where
  pub store : Store
  pub nodes : Dict FederatedRegistryNode

-- `add_peer`
unfoldable pub add_peer : String → FederatedRegistryNode → FederatedRegistryNode
add_peer peer_id n = record n {
  peers = if mem peer_id n.peers then n.peers else n.peers ++ peer_id ∷ [];
  vector_clock = elim (lookup peer_id n.vector_clock) [
    | none ↦ insert peer_id 0 n.vector_clock
    | some ts ↦ n.vector_clock
  ];
}

unfoldable pub without : String → List String → List String
without s [] = []
without s (x ∷ xs) = let rest = without s xs in if x == s then rest else x ∷ rest

-- `remove_peer`
unfoldable pub remove_peer : String → FederatedRegistryNode → FederatedRegistryNode
remove_peer peer_id n = record n { peers = without peer_id n.peers }

-- What a step of a node takes from outside: for each node that it reaches, and for its own event.
pub record NetworkSupply : Type 0 where
  pub at : String → Supply
  pub fresh : Fresh

-- What `register_service_authenticated` returns
pub data Registration : Type 0 where
  auth_failed : AuthResult → Registration
  answered : Receipt → Registration

abbrev pub is_registered : Receipt → Bool
is_registered (registered sid hash e) = true
is_registered _ = false

abbrev pub is_leased : Receipt → Bool
is_leased (registered sid hash e) = true
is_leased (already_registered sid e) = true
is_leased _ = false

module _ (h : Hashing) (cap : ℕ) where
  unfoldable pub deliver_found :
      Option FederatedRegistryNode → ℕ → NetworkSupply → String → Network → Network
  deliver_found none ref supply peer_id net = net
  deliver_found (some peer) ref supply peer_id net =
      let (store', peer') = receive h cap ref (supply.at peer_id) net.store peer in
      record { store = store'; nodes = insert peer_id peer' net.nodes }

  -- The loop of `_propagate_to_peers`
  unfoldable pub propagate : ℕ → NetworkSupply → List String → Network → Network
  propagate ref supply [] net = net
  propagate ref supply (peer_id ∷ rest) net =
      propagate ref supply rest (deliver_found (lookup peer_id net.nodes) ref supply peer_id net)

  -- `_broadcast_registration` and `_broadcast_removal`: the node's own event, recorded and pushed
  unfoldable pub broadcast :
      String → Payload → NetworkSupply → FederatedRegistryNode → Network → Network
  broadcast event_type payload supply n net =
      let (store', n') = publish h event_type "" payload supply.fresh net.store n in
      propagate (length net.store) supply n'.peers
        (record { store = store'; nodes = insert n'.node_id n' net.nodes })

  abbrev pub grant_if : Bool → String → Supply → FederatedRegistryNode → FederatedRegistryNode
  grant_if true sid supply n = grant h sid supply n
  grant_if false sid supply n = n

  abbrev pub broadcast_if :
      Bool → String → Payload → NetworkSupply → FederatedRegistryNode → Network → Network
  broadcast_if true event_type payload supply n net = broadcast event_type payload supply n net
  broadcast_if false event_type payload supply n net = record net {
    nodes = insert n.node_id n net.nodes;
  }

  -- The registration of a service that may: registry, lease, broadcast
  unfoldable pub register_admitted :
      PlatformServiceRecord
      → Option CapabilityManifest
      → NetworkSupply
      → FederatedRegistryNode
      → Network
      → Registration × Network
  register_admitted r m supply n net =
      let own = supply.at n.node_id in
      let (receipt, registry) = register_service h r m own.stamp n.registry in
      let n' =
        grant_if (is_leased receipt) r.platform_service_id own (record n { registry = registry }) in
      (
        answered receipt,
        broadcast_if (is_registered receipt) "SERVICE_REGISTERED" (registration r m) supply n' net,
      )

  module _ (iso : ℕ → String) (verify : Verifier) where
    unfoldable pub register_if :
        AuthResult
        → PlatformServiceRecord
        → Option CapabilityManifest
        → NetworkSupply
        → FederatedRegistryNode
        → Network
        → Registration × Network
    register_if result r m supply n net =
        if not result.authenticated
        then (auth_failed result, net)
        else register_admitted r m supply n net

    -- `register_service_authenticated`. Without a proof and a certificate the registration is trusted.
    unfoldable pub register_service_authenticated :
        CertificateAuthority
        → PlatformServiceRecord
        → Option CapabilityManifest
        → Option (NodeProof × ServiceCertificate)
        → NetworkSupply
        → FederatedRegistryNode
        → Network
        → Registration × Network
    register_service_authenticated ca r m none supply n net = register_admitted r m supply n net
    register_service_authenticated ca r m (some (proof, certificate)) supply n net =
        register_if
          (authenticate h iso verify (supply.at n.node_id).now ca r.platform_service_id proof
            certificate (h.dumps (record_dict r)))
          r m supply n net

  -- `revoke_service`; the removal is broadcast whether or not there was a service.
  unfoldable pub revoke_service :
      String → String → NetworkSupply → FederatedRegistryNode → Network → Receipt × Network
  revoke_service service_id reason supply n net =
      let (receipt, registry) =
        remove_service h service_id reason (supply.at n.node_id).stamp n.registry in
      let n' = record n {
        registry = registry;
        heartbeat = (revoke_lease service_id n.heartbeat).1;
      } in
      (receipt, broadcast "SERVICE_REMOVED" (removal service_id reason) supply n' net)

  -- `_on_lease_expired`
  unfoldable pub on_lease_expired :
      String → NetworkSupply → FederatedRegistryNode → Network → Network
  on_lease_expired service_id supply n net =
      let (receipt, registry) =
        remove_service h service_id "Lease expired" (supply.at n.node_id).stamp n.registry in
      broadcast "SERVICE_REMOVED" (removal service_id "Lease expired") supply
        (record n { registry = registry }) net

  -- What `sync_with_peer` returns
  pub data Synced : Type 0 where
    peer_not_found : Synced
    sync_completed : Counts → Synced

  unfoldable pub sync_peer :
      Option FederatedRegistryNode
      → (ℕ → Supply)
      → Fresh
      → FederatedRegistryNode
      → Network
      → Synced × Network
  sync_peer none supply fresh n net = (peer_not_found, net)
  sync_peer (some peer) supply fresh n net =
      let (c, store', n') = sync_found h peer supply fresh net.store n in
      (sync_completed c, record { store = store'; nodes = insert n.node_id n' net.nodes })

  -- `sync_with_peer`
  unfoldable pub sync_with_peer :
      String → (ℕ → Supply) → Fresh → FederatedRegistryNode → Network → Synced × Network
  sync_with_peer peer_id supply fresh n net =
      if mem peer_id n.peers
      then sync_peer (lookup peer_id net.nodes) supply fresh n net
      else (peer_not_found, net)
