-- ===== src/Federation/Node.antt =====
-- federated_registry.py: `FederatedRegistryNode`, its state and what it does with an event of a peer.
-- The certificate authority of a node stands apart (Federation.Network); metrics are left out.
pub mod Frame
pub mod Received
pub mod Nonces
pub mod Clock
pub mod Converged
use bhiv_qcg.Prelude.{
  ℕ, zero, suc, ◌-◌, max, String, Bool, Option, none, some, List, [], ◌∷◌, ◌++◌, ◌==◌, ltb,
  if◌then◌else◌, length, get_elem?, mem,
}
use mathlib.Core.Option.{map as option_map}
use bhiv_qcg.Prelude.Dict.{Dict, lookup, insert, erase}
use bhiv_qcg.Prelude.Hashing.{Hashing}
use bhiv_qcg.Services.{PlatformServiceRecord, CapabilityManifest}
use bhiv_qcg.Services.Evidence.{Stamp}
use bhiv_qcg.Services.Registry.{PlatformServiceRegistry}
use bhiv_qcg.Services.Mutations.{merge_remote_service, remove_service}
use bhiv_qcg.Leases.{HeartbeatManager, grant_lease, revoke_lease}
use bhiv_qcg.Federation.{
  FederationEvent, Payload, registration, removal, Store, AuditLog, record_event,
}
use bhiv_qcg.Federation.Conflict.{resolve}

pub record FederatedRegistryNode : Type 0 where
  pub node_id : String
  pub registry : PlatformServiceRegistry
  pub heartbeat : HeartbeatManager
  -- the ids of the peers; a network holds the nodes
  pub peers : List String
  pub vector_clock : Dict ℕ
  pub seen_nonces : List String
  pub nonce_order : List String
  pub audit_log : AuditLog

-- What one step takes from clocks and random sources.
pub record Supply : Type 0 where
  pub stamp : Stamp
  pub lease_id : String
  pub now : ℕ
  -- the time stamp of a manifest that is rebuilt from its dict
  pub published : String

-- Python's `set.discard`, on a list without repetition
unfoldable pub discard : String → List String → List String
discard s [] = []
discard s (x ∷ xs) = let rest = discard s xs in if x == s then rest else x ∷ rest

-- One round of the eviction
unfoldable pub evict_first : FederatedRegistryNode → List String → FederatedRegistryNode
evict_first n [] = n
evict_first n (old ∷ order) = record n {
  nonce_order = order;
  seen_nonces = discard old n.seen_nonces;
}

unfoldable pub evict : ℕ → FederatedRegistryNode → FederatedRegistryNode
evict zero n = n
evict (suc count) n = evict count (evict_first n n.nonce_order)

-- A fresh nonce is remembered, and the oldest go when there are more than `cap`.
unfoldable pub remember : ℕ → String → FederatedRegistryNode → FederatedRegistryNode
remember cap nonce n =
    let n' = record n {
      seen_nonces = n.seen_nonces ++ nonce ∷ [];
      nonce_order = n.nonce_order ++ nonce ∷ [];
    } in
    if ltb cap (length n'.seen_nonces) then evict (length n'.seen_nonces - cap) n' else n'

-- `self._vector_clock.get(node_id, 0)`
abbrev pub or_zero : Option ℕ → ℕ
or_zero none = 0
or_zero (some n) = n

abbrev pub clock_at : String → Dict ℕ → ℕ
clock_at k clock = or_zero (lookup k clock)

-- The loop over the clock of the event
unfoldable pub merge_clock : Dict ℕ → Dict ℕ → Dict ℕ
merge_clock [] clock = clock
merge_clock ((k, ts) ∷ theirs) clock =
    merge_clock theirs (insert k (max (clock_at k clock) ts) clock)

-- `_dict_to_manifest(_)`
abbrev pub rebuilt : String → CapabilityManifest → CapabilityManifest
rebuilt published m = record m { publication_timestamp = published }

module _ (h : Hashing) where
  abbrev pub merge :
      PlatformServiceRecord
      → Option CapabilityManifest
      → String
      → Supply
      → FederatedRegistryNode
      → FederatedRegistryNode
  merge r m source supply n = record n {
    registry =
        (merge_remote_service h r (option_map (rebuilt supply.published) m) source supply.stamp
          n.registry).1;
  }

  abbrev pub grant : String → Supply → FederatedRegistryNode → FederatedRegistryNode
  grant sid supply n = record n {
    heartbeat = (grant_lease sid none supply.lease_id supply.now n.heartbeat).1;
  }

  -- `winner.registration_timestamp == remote_record.registration_timestamp`
  unfoldable pub remote_wins : PlatformServiceRecord → PlatformServiceRecord → Bool
  remote_wins local remote =
      (resolve h local remote).registration_timestamp == remote.registration_timestamp

  -- A service of a peer meets the one that is held under its id, if any.
  unfoldable pub adopt_found :
      Option PlatformServiceRecord
      → PlatformServiceRecord
      → Option CapabilityManifest
      → String
      → Supply
      → FederatedRegistryNode
      → FederatedRegistryNode
  adopt_found none remote m source supply n =
      grant remote.platform_service_id supply (merge remote m source supply n)
  adopt_found (some local) remote m source supply n =
      if remote_wins local remote then merge remote m source supply n else n

  unfoldable pub handle_remote_registration :
      Payload → String → Supply → FederatedRegistryNode → FederatedRegistryNode
  handle_remote_registration (registration remote m) source supply n =
      adopt_found (lookup remote.platform_service_id n.registry.services) remote m source supply n
  handle_remote_registration _ source supply n = n

  unfoldable pub handle_remote_removal :
      Payload → Supply → FederatedRegistryNode → FederatedRegistryNode
  handle_remote_removal (removal sid reason) supply n = if sid == "" then n else record n {
    registry = (remove_service h sid reason supply.stamp n.registry).1;
    heartbeat = (revoke_lease sid n.heartbeat).1;
  }
  handle_remote_removal _ supply n = n

  -- The dispatch on the type of the event
  unfoldable pub process : FederationEvent → Supply → FederatedRegistryNode → FederatedRegistryNode
  process event supply n =
      if event.event_type == "SERVICE_REGISTERED"
      then handle_remote_registration event.payload event.source_node_id supply n
      else if event.event_type == "SERVICE_REMOVED"
      then handle_remote_removal event.payload supply n
      else n

  -- The event is recorded in the node's log, which writes into the event.
  unfoldable pub record_in_log : ℕ → Store → FederatedRegistryNode → Store × FederatedRegistryNode
  record_in_log ref store n =
      let (store', log) = record_event h ref store n.audit_log in
      (store', record n { audit_log = log })

  -- What is done before the event is recorded: nonce, clock, dispatch.
  unfoldable pub accept :
      ℕ → FederationEvent → Supply → FederatedRegistryNode → FederatedRegistryNode
  accept cap event supply n =
      let n' = remember cap event.nonce n in
      process event supply
        (record n' { vector_clock = merge_clock event.vector_clock n'.vector_clock })

  unfoldable pub receive_found :
      ℕ
      → Option FederationEvent
      → ℕ
      → Supply
      → Store
      → FederatedRegistryNode
      → Store × FederatedRegistryNode
  receive_found cap none ref supply store n = (store, n)
  receive_found cap (some event) ref supply store n =
      if mem event.nonce n.seen_nonces
      then (store, n)
      else record_in_log ref store (accept cap event supply n)

  -- `receive_federation_event(event)`
  unfoldable pub receive :
      ℕ → ℕ → Supply → Store → FederatedRegistryNode → Store × FederatedRegistryNode
  receive cap ref supply store n = receive_found cap (get_elem? store ref) ref supply store n
