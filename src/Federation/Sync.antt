-- ===== src/Federation/Sync.antt =====
-- federated_registry.py: `sync_with_peer`, in which a node pulls the services of a peer.
pub mod Merged
use bhiv_qcg.Prelude.{
  ℕ, ◌+◌, String, Option, none, some, List, [], ◌∷◌, ◌++◌, if◌then◌else◌, length,
}
use bhiv_qcg.Prelude.Dict.{Dict, lookup, insert}
use bhiv_qcg.Prelude.Hashing.{Hashing}
use bhiv_qcg.Services.{PlatformServiceRecord, CapabilityManifest}
use bhiv_qcg.Services.Registry.{PlatformServiceRegistry}
use bhiv_qcg.Services.Queries.{list_services, get_service, get_manifest}
use bhiv_qcg.Federation.{FederationEvent, Payload, synced, Store, record_event}
use bhiv_qcg.Federation.Node.{
  FederatedRegistryNode, Supply, clock_at, adopt_found, remote_wins, record_in_log,
}

-- `merged`, `conflicts_resolved` and `skipped`
pub record Counts : Type 0 where
  pub merged : ℕ
  pub conflicts_resolved : ℕ
  pub skipped : ℕ

-- What an event takes from random sources and the clock: id, time stamp and nonce.
pub record Fresh : Type 0 where
  pub event_id : String
  pub timestamp : String
  pub nonce : String

-- `_increment_clock`
unfoldable pub increment_clock : FederatedRegistryNode → FederatedRegistryNode
increment_clock n = record n {
  vector_clock = insert n.node_id (clock_at n.node_id n.vector_clock + 1) n.vector_clock;
}

-- `_create_event`
unfoldable pub create_event :
    String → String → Payload → Fresh → FederatedRegistryNode → FederationEvent
create_event event_type target payload fresh n = record {
  event_id = fresh.event_id;
  event_type = event_type;
  source_node_id = n.node_id;
  target_node_id = target;
  payload = payload;
  vector_clock = n.vector_clock;
  timestamp = fresh.timestamp;
  nonce = fresh.nonce;
  event_hash = "";
  previous_event_hash = "";
}

module _ (h : Hashing) where
  -- The counters after a service of the peer
  unfoldable pub counted : Option PlatformServiceRecord → PlatformServiceRecord → Counts → Counts
  counted none remote c = record c { merged = c.merged + 1 }
  counted (some local) remote c =
      if remote_wins h local remote
      then record c { conflicts_resolved = c.conflicts_resolved + 1 }
      else record c { skipped = c.skipped + 1 }

  -- The loop over the services of the peer. Each has its own supply, by its place.
  unfoldable pub pull :
      PlatformServiceRegistry
      → String
      → (ℕ → Supply)
      → List PlatformServiceRecord
      → FederatedRegistryNode × Counts
      → FederatedRegistryNode × Counts
  pull peer peer_id supply [] (n, c) = (n, c)
  pull peer peer_id supply (remote ∷ rest) (n, c) =
      let found = get_service remote.platform_service_id n.registry in
      pull peer peer_id (λ i. supply (i + 1)) rest
        (
          adopt_found h found remote (get_manifest remote.platform_service_id peer) peer_id
              (supply 0) n,
          counted found remote c,
        )

  -- An event of the node's own is made, put into the store and recorded.
  unfoldable pub publish :
      String
      → String
      → Payload
      → Fresh
      → Store
      → FederatedRegistryNode
      → Store × FederatedRegistryNode
  publish event_type target payload fresh store n =
      let n' = increment_clock n in
      record_in_log h (length store) (store ++ create_event event_type target payload fresh n' ∷ [])
        n'

  -- `sync_with_peer`, once the peer is found
  unfoldable pub sync_found :
      FederatedRegistryNode
      → (ℕ → Supply)
      → Fresh
      → Store
      → FederatedRegistryNode
      → Counts × Store × FederatedRegistryNode
  sync_found peer supply fresh store n =
      let services = list_services peer.registry in
      let (n', c) =
        pull peer.registry peer.node_id supply services
          (n, record { merged = 0; conflicts_resolved = 0; skipped = 0 }) in
      let (store', n'') =
        publish "SYNC_COMPLETED" peer.node_id
          (synced c.merged c.conflicts_resolved c.skipped (length services)
            (length (list_services n'.registry)))
          fresh store n' in
      (c, store', n'')
