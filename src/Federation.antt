-- ===== src/Federation.antt =====
-- federated_registry.py: `FederationAuditLog`, and the events that nodes share. An event is an object
-- that `record` changes in place and that a peer records in its own log, so a log holds references:
-- positions in a store of events.
pub mod Shared
pub mod Conflict
pub mod Node
pub mod Sync
pub mod Network
use bhiv_qcg.Prelude.{ℕ, ◌+◌, String, Bool, Option, none, some, List, [], ◌∷◌, ◌++◌, get_elem?, set}
use bhiv_qcg.Prelude.Dict.{Dict}
use bhiv_qcg.Prelude.Hashing.{
  Hashing, Json, str, num, object, null, Fields, end, field, fields_from,
}
use bhiv_qcg.Services.{PlatformServiceRecord, CapabilityManifest, record_dict, manifest_dict}
use bhiv_qcg.Chain.{digest, verify_from}

-- The payloads of the events that a node makes, and any other.
pub data Payload : Type 0 where
  registration : PlatformServiceRecord → Option CapabilityManifest → Payload
  removal : String → String → Payload
  synced : (merged conflicts_resolved skipped peer_services local_services : ℕ) → Payload
  other : Json → Payload

pub record FederationEvent : Type 0 where
  pub event_id : String
  pub event_type : String
  pub source_node_id : String
  pub target_node_id : String
  pub payload : Payload
  pub vector_clock : Dict ℕ
  pub timestamp : String
  pub nonce : String
  pub event_hash : String
  pub previous_event_hash : String

abbrev pub Store : Type 0
Store = List FederationEvent

pub record AuditLog : Type 0 where
  pub events : List ℕ
  pub head_hash : String
  pub sequence : ℕ

abbrev pub previous_hash_of : FederationEvent → String
previous_hash_of e = e.previous_event_hash

abbrev pub event_hash_of : FederationEvent → String
event_hash_of e = e.event_hash

abbrev pub manifest_or_null : Option CapabilityManifest → Json
manifest_or_null none = null
manifest_or_null (some m) = manifest_dict m

unfoldable pub payload_dict : Payload → Json
payload_dict (registration r m) =
    object (field "record" (record_dict r) (field "manifest" (manifest_or_null m) end))
payload_dict (removal service_id reason) =
    object (field "service_id" (str service_id) (field "reason" (str reason) end))
payload_dict (synced merged conflicts skipped peer_services local_services) = object (
    field "merged" (num merged) (
      field "conflicts_resolved" (num conflicts) (
        field "skipped" (num skipped) (
          field "peer_service_count" (num peer_services)
            (field "local_service_count" (num local_services) end)))))
payload_dict (other payload) = payload

-- `hash_seed` before it is dumped
unfoldable pub event_seed : String → FederationEvent → Json
event_seed head e = object (
    field "event_id" (str e.event_id) (
      field "event_type" (str e.event_type) (
        field "source_node_id" (str e.source_node_id) (
          field "target_node_id" (str e.target_node_id) (
            field "payload" (payload_dict e.payload) (
              field "vector_clock" (object (fields_from num e.vector_clock))
                (field "nonce" (str e.nonce) (field "previous_hash" (str head) end))))))))

-- The objects that the references stand for.
abbrev pub deref_one : Option FederationEvent → List FederationEvent → List FederationEvent
deref_one none rest = rest
deref_one (some e) rest = e ∷ rest

unfoldable pub deref : Store → List ℕ → List FederationEvent
deref store [] = []
deref store (r ∷ refs) = deref_one (get_elem? store r) (deref store refs)

module _ (h : Hashing) where
  abbrev pub genesis : String
  genesis = h.sha256 "FEDERATION_GENESIS"

  abbrev pub new_log : AuditLog
  new_log = record { events = []; head_hash = genesis; sequence = 0 }

  -- What `record` writes into the event
  unfoldable pub stamped : String → FederationEvent → FederationEvent
  stamped head e = record e {
    previous_event_hash = head;
    event_hash = digest h previous_hash_of event_hash_of event_seed head e;
  }

  unfoldable pub record_found : Option FederationEvent → ℕ → Store → AuditLog → Store × AuditLog
  record_found none ref store log = (store, log)
  record_found (some e) ref store log = (
    set store ref (stamped log.head_hash e),
    record {
      events = log.events ++ ref ∷ [];
      head_hash = (stamped log.head_hash e).event_hash;
      sequence = log.sequence + 1;
    },
  )

  -- `record(event)`
  unfoldable pub record_event : ℕ → Store → AuditLog → Store × AuditLog
  record_event ref store log = record_found (get_elem? store ref) ref store log

  unfoldable pub verify_chain : Store → AuditLog → Bool
  verify_chain store log =
      verify_from h previous_hash_of event_hash_of event_seed genesis (deref store log.events)
        log.head_hash
