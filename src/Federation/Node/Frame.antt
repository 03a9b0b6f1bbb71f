-- ===== src/Federation/Node/Frame.antt =====
-- federated_registry.py: what the handlers of a remote registration and a remote removal leave alone.
use bhiv_qcg.Prelude.{String, ◌≡◌, refl, inl, inr, Option, none, some, ◌==◌, Bool-cases}
use bhiv_qcg.Prelude.Hashing.{Hashing}
use bhiv_qcg.Services.{PlatformServiceRecord, CapabilityManifest}
use bhiv_qcg.Services.Registry.{PlatformServiceRegistry}
use bhiv_qcg.Leases.{HeartbeatManager}
use bhiv_qcg.Federation.{FederationEvent, Payload, registration, removal, synced, other}
use bhiv_qcg.Federation.Node.{
  FederatedRegistryNode, Supply, remote_wins, adopt_found, handle_remote_registration,
  handle_remote_removal, process,
}

-- All but the registry and the leases is the same.
pub record IsFramed (n n' : FederatedRegistryNode) : Type 0 where
  pub same_id : n'.node_id ≡ n.node_id
  pub same_peers : n'.peers ≡ n.peers
  pub same_clock : n'.vector_clock ≡ n.vector_clock
  pub same_seen : n'.seen_nonces ≡ n.seen_nonces
  pub same_order : n'.nonce_order ≡ n.nonce_order
  pub same_log : n'.audit_log ≡ n.audit_log

pub frame_lem :
    (n : FederatedRegistryNode) (registry : PlatformServiceRegistry) (heartbeat : HeartbeatManager)
    → IsFramed n (record n { registry = registry; heartbeat = heartbeat })
frame_lem n registry heartbeat = record {
  same_id = refl;
  same_peers = refl;
  same_clock = refl;
  same_seen = refl;
  same_order = refl;
  same_log = refl;
}

module _ (h : Hashing) where
  pub adopt_found-IsFramed :
      (o : Option PlatformServiceRecord) (r : PlatformServiceRecord) (m : Option CapabilityManifest)
      (source : String) (supply : Supply) (n : FederatedRegistryNode)
      → IsFramed n (adopt_found h o r m source supply n)
  unfolding adopt_found
  adopt_found-IsFramed none r m source supply n = frame_lem n _ _
  adopt_found-IsFramed (some local) r m source supply n =
      elim (Bool-cases (remote_wins h local r)) [
        | inl theirs ↦ rw theirs (frame_lem n _ _)
        | inr ours ↦ rw ours (frame_lem n _ _)
      ]

  registration-IsFramed :
      (p : Payload) (source : String) (supply : Supply) (n : FederatedRegistryNode)
      → IsFramed n (handle_remote_registration h p source supply n)
  unfolding handle_remote_registration
  registration-IsFramed (registration r m) source supply n =
      adopt_found-IsFramed _ r m source supply n
  registration-IsFramed (removal s r) source supply n = frame_lem n _ _
  registration-IsFramed (synced a b c d e) source supply n = frame_lem n _ _
  registration-IsFramed (other j) source supply n = frame_lem n _ _

  removal-IsFramed :
      (p : Payload) (supply : Supply) (n : FederatedRegistryNode)
      → IsFramed n (handle_remote_removal h p supply n)
  unfolding handle_remote_removal
  removal-IsFramed (registration r m) supply n = frame_lem n _ _
  removal-IsFramed (removal s r) supply n = elim (Bool-cases (s == "")) [
    | inl empty ↦ rw empty (frame_lem n _ _)
    | inr named ↦ rw named (frame_lem n _ _)
  ]
  removal-IsFramed (synced a b c d e) supply n = frame_lem n _ _
  removal-IsFramed (other j) supply n = frame_lem n _ _

  pub process-IsFramed :
      (e : FederationEvent) (supply : Supply) (n : FederatedRegistryNode)
      → IsFramed n (process h e supply n)
  unfolding process
  process-IsFramed e supply n = elim (Bool-cases (e.event_type == "SERVICE_REGISTERED")) [
    | inl registers ↦ rw registers (registration-IsFramed e.payload e.source_node_id supply n)
    | inr rest ↦ elim (Bool-cases (e.event_type == "SERVICE_REMOVED")) [
      | inl removes ↦ rw (rest, removes) (removal-IsFramed e.payload supply n)
      | inr neither ↦ rw (rest, neither) (frame_lem n _ _)
    ]
  ]
