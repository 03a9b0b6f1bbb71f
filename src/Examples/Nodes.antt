-- ===== src/Examples/Nodes.antt =====
-- Two federated nodes: a registration is pushed, received twice, and the registries are synchronised.
use bhiv_qcg.Prelude.{
  ℕ, String, ◌≡◌, refl, sym, ap, ◌∙◌, ◌≢◌, ◌↔◌, ◌⊎◌, inl, inr, true, none, some, List, [], ◌∷◌,
  arith, eq_iff,
}
use bhiv_qcg.Prelude.Dict.{Dict, lookup}
use bhiv_qcg.Prelude.Order.{pos, negsuc, lex}
use bhiv_qcg.Prelude.Numerals.{dotted}
use bhiv_qcg.Prelude.Hashing.{Hashing}
use bhiv_qcg.Services.{PlatformServiceRecord, record_dict}
use bhiv_qcg.Services.Registry.{new_registry, is_same_version}
use bhiv_qcg.Services.Queries.{get_service}
use bhiv_qcg.Trust.Proof.{NodeProof, Verifier, NodeSigner, verify_node_proof}
use bhiv_qcg.Trust.Certificates.{
  ServiceCertificate, CertificateAuthority, authenticate, verify_certificate, is_revoked,
  canonical_payload, ca_proof,
}
use bhiv_qcg.Federation.{FederationEvent, registration, new_log}
use bhiv_qcg.Federation.Conflict.{parse_version, resolve}
use bhiv_qcg.Federation.Conflict.Order.{Stands}
use bhiv_qcg.Federation.Node.Converged.{Arrival, Apart, absorb, registrations_converge}
use bhiv_qcg.Federation.Node.{FederatedRegistryNode, Supply, receive}
use bhiv_qcg.Federation.Node.Received.{kept, receive_registers}
use bhiv_qcg.Federation.Node.Nonces.{IsWindow, receive_once}
use bhiv_qcg.Federation.Sync.{Fresh, sync_found}
use bhiv_qcg.Federation.Sync.Merged.{sync_converges}
use bhiv_qcg.Federation.Network.{Network, NetworkSupply, register_service_authenticated}
use bhiv_qcg.Federation.Network.Pushed.{service_at, register_reaches}
use bhiv_qcg.Examples.Toy.{plain}

three_parts : dotted " 1.20.3 " ≡ some (pos 1 ∷ pos 20 ∷ pos 3 ∷ [])
three_parts = refl

signs : dotted "-1.+2.3_0" ≡ some (negsuc 0 ∷ pos 2 ∷ pos 30 ∷ [])
signs = refl

no_number : dotted "1.x.0" ≡ none
no_number = refl

empty_part : dotted "1." ≡ none
empty_part = refl

abbrev h : Hashing
h = plain "previous_hash"

abbrev service : String → String → PlatformServiceRecord
service version timestamp = record {
  platform_service_id = "svc";
  capability_id = "cap";
  service_name = "Solver";
  version = version;
  provider = "P";
  owner = [];
  runtime_type = "PROCESS";
  service_classification = "PLATFORM_SERVICE";
  capability_category = "OPTIMIZATION";
  status = "ACTIVE";
  registration_timestamp = timestamp;
  description = "";
  tags = [];
  endpoints = [];
  dependencies = [];
}

abbrev older : PlatformServiceRecord
older = service "1.9.0" "2025"

abbrev newer : PlatformServiceRecord
newer = service "1.10.0" "2026"

newer_wins : (resolve h older newer ≡ newer) × (resolve h newer older ≡ newer)
unfolding resolve parse_version lex
newer_wins = (refl, refl)

abbrev supply : Supply
supply = record {
  stamp = record { fresh_id = "id"; now = "now" };
  lease_id = "l";
  now = 5;
  published = "p";
}

abbrev fresh : Fresh
fresh = record { event_id = "e"; timestamp = "t"; nonce = "n1" }

abbrev node : String → List String → Dict PlatformServiceRecord → FederatedRegistryNode
node id peers services = record {
  node_id = id;
  registry = record (new_registry h) { services = services };
  heartbeat = record { ttl = 60; leases = [] };
  peers = peers;
  vector_clock = (id, 0) ∷ [];
  seen_nonces = "n0" ∷ [];
  nonce_order = "n0" ∷ [];
  audit_log = new_log h;
}

abbrev a : FederatedRegistryNode
a = node "a" ("b" ∷ []) []

abbrev b : FederatedRegistryNode
b = node "b" ("a" ∷ []) (("svc", older) ∷ [])

abbrev event : FederationEvent
event = record {
  event_id = "e";
  event_type = "SERVICE_REGISTERED";
  source_node_id = "a";
  target_node_id = "";
  payload = registration newer none;
  vector_clock = ("a", 3) ∷ [];
  timestamp = "t";
  nonce = "n1";
  event_hash = "";
  previous_event_hash = "";
}

same_records :
    (x : PlatformServiceRecord)
    → Stands x (older ∷ newer ∷ []) ↔ Stands x (newer ∷ older ∷ newer ∷ [])
same_records x = (λ s. inr s, λ s. elim s [ inl e ↦ inr (inl e) | inr t ↦ t ])

stamps_differ : older.registration_timestamp ≢ newer.registration_timestamp
stamps_differ e = ground (arith, eq_iff "2025" "2026", e)

one_of : (x : PlatformServiceRecord) → Stands x (older ∷ newer ∷ []) → (x ≡ older) ⊎ (x ≡ newer)
one_of x (inl e) = inl e
one_of x (inr (inl e)) = inr e
one_of x (inr (inr never)) = absurd never

abbrev stamp_of : PlatformServiceRecord → String
stamp_of r = r.registration_timestamp

no_tie : Apart (older ∷ newer ∷ [])
no_tie x y s t e = elim (one_of x s) [
  | inl x_is ↦ elim (one_of y t) [
    | inl y_is ↦ x_is ∙ sym y_is
    | inr y_is ↦ absurd (stamps_differ (sym (ap stamp_of x_is) ∙ e ∙ ap stamp_of y_is))
  ]
  | inr x_is ↦ elim (one_of y t) [
    | inl y_is ↦ absurd (stamps_differ (sym (ap stamp_of y_is) ∙ sym e ∙ ap stamp_of x_is))
    | inr y_is ↦ x_is ∙ sym y_is
  ]
]

abbrev arrives : PlatformServiceRecord → Arrival
arrives r = record { service = r; manifest = none; source = "c"; supply = supply }

abbrev c : FederatedRegistryNode
c = node "c" [] (("svc", newer) ∷ [])

registrations_converge_example :
    get_service "svc" (absorb h (arrives newer ∷ []) b).registry
    ≡ get_service "svc" (absorb h (arrives older ∷ arrives newer ∷ []) c).registry
unfolding get_service lookup
registrations_converge_example =
    registrations_converge h "svc" b c older newer (arrives newer ∷ [])
      (arrives older ∷ arrives newer ∷ []) refl refl (refl, tt) (refl, (refl, tt)) same_records
      no_tie

receive_registers_example :
    get_service "svc" (receive h 2 0 supply (event ∷ []) b).1.registry
    ≡ some (kept h (get_service "svc" b.registry) newer)
receive_registers_example =
    receive_registers h 2 0 supply (event ∷ []) b event newer none "svc" refl refl refl refl

b-IsWindow : IsWindow 2 b
b-IsWindow = record { same = refl; distinct = (refl, tt); bounded = omega arith }

receive_once_example :
    let (store', b') = receive h 2 0 supply (event ∷ []) b in
    IsWindow 2 b' × (receive h 2 0 supply store' b' ≡ (store', b'))
receive_once_example =
    receive_once h 2 0 supply supply (event ∷ []) b event (omega arith) b-IsWindow refl

abbrev supplies : ℕ → Supply
supplies i = supply

sync_converges_example :
    let (c, store', a') = sync_found h b supplies fresh [] a in
    let (c', store'', b') = sync_found h a' supplies fresh store' b in
    get_service "svc" b'.registry ≡ get_service "svc" a'.registry
sync_converges_example =
    sync_converges h a b supplies supplies fresh fresh [] "svc" tt (refl, unfold lookup in refl, tt)

abbrev verify : Verifier
verify key signature text = true

abbrev signer : NodeSigner
signer = record {
  identity = record { node_id = "CA"; public_key = "k"; node_role = ""; version = "" };
  sign = λ text. "";
}

abbrev certificate : ServiceCertificate
certificate = record {
  serial_number = "s1";
  service_id = "svc";
  public_key = "k";
  issuer_id = "CA";
  issued_at = 0;
  expires_at = 100;
  ca_signature = "";
  cert_hash = "#";
}

abbrev ca : CertificateAuthority
ca = record { ca_signer = signer; issued = ("s1", certificate) ∷ []; revoked_serials = [] }

abbrev proof : NodeProof
proof = record { node_id = "svc"; signature = ""; signed_hash = "#" }

abbrev iso : ℕ → String
iso t = ""

authentic :
    (authenticate h iso verify 5 ca "svc" proof certificate
      (h.dumps (record_dict newer))).authenticated
    ≡ true
unfolding authenticate verify_certificate is_revoked canonical_payload ca_proof verify_node_proof
    record_dict lookup
authentic = refl

abbrev network : Network
network = record { store = []; nodes = ("a", a) ∷ ("b", b) ∷ [] }

abbrev network_supply : NetworkSupply
network_supply = record { at = λ id. supply; fresh = fresh }

register_reaches_example :
    service_at "b" "svc"
      (register_service_authenticated h 2 iso verify ca newer none
        (some (proof, certificate))
        network_supply
        a
        network).1
    ≡ some (kept h (get_service "svc" b.registry) newer)
register_reaches_example =
    register_reaches h 2 iso verify ca newer none proof certificate network_supply a b network "b"
      "svc" authentic (unfold get_service lookup is_same_version in refl) (refl, tt) refl
      (λ e. ground (arith, eq_iff "a" "b", e)) (unfold lookup in refl) refl
