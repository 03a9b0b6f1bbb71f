-- ===== src/Federation/Network/Pushed.antt =====
-- federated_registry.py: a registration at one node reaches its peers.
use bhiv_qcg.Prelude.{
  ℕ, String, ◌≡◌, refl, sym, ap, ◌∙◌, ◌≢◌, inl, inr, true, false, Option, none, some, List, [], ◌∷◌,
  ◌++◌, arith, ◌==◌, eq_iff, if◌then◌else◌, Bool-cases, String-cases, eq_false, length, get_elem?,
  get_elem?-append_length, mem, get_elem?-set_self,
}
use bhiv_qcg.Prelude.Dict.{lookup, lookup-insert, lookup-insert_self}
use bhiv_qcg.Prelude.Hashing.{Hashing}
use bhiv_qcg.Services.{PlatformServiceRecord, CapabilityManifest, record_dict}
use bhiv_qcg.Services.Registry.{is_same_version}
use bhiv_qcg.Services.Mutations.{register_service}
use bhiv_qcg.Services.Queries.{get_service}
use bhiv_qcg.Federation.{FederationEvent, registration, Store, stamped, record_event, record_found}
use bhiv_qcg.Federation.Node.{FederatedRegistryNode, Supply, receive, receive_found, record_in_log}
use bhiv_qcg.Federation.Node.Received.{kept, receive_registers}
use bhiv_qcg.Federation.Node.Nonces.{Distinct}
use bhiv_qcg.Federation.Sync.{Fresh, create_event, increment_clock, publish}
use bhiv_qcg.Federation.Network.{
  Network, NetworkSupply, deliver_found, propagate, broadcast, register_admitted, register_if,
  register_service_authenticated,
}
use bhiv_qcg.Trust.Proof.{NodeProof, Verifier}
use bhiv_qcg.Trust.Certificates.{ServiceCertificate, CertificateAuthority, authenticate}

-- The object of a reference carries a registration, whatever the logs wrote into it.
pub record Carries (ref : ℕ) (nonce : String) (r : PlatformServiceRecord)
    (m : Option CapabilityManifest) (store : Store) : Type 0 where
  pub event : FederationEvent
  pub there : get_elem? store ref ≡ some event
  pub nonce_is : event.nonce ≡ nonce
  pub type_is : event.event_type ≡ "SERVICE_REGISTERED"
  pub payload_is : event.payload ≡ registration r m

-- What the node of an id holds under a key.
abbrev pub service_in : Option FederatedRegistryNode → String → Option PlatformServiceRecord
service_in none k = none
service_in (some n) k = get_service k n.registry

abbrev pub service_at : String → String → Network → Option PlatformServiceRecord
service_at p k net = service_in (lookup p net.nodes) k

module _ (h : Hashing) (cap : ℕ) where
  record_event-Carries :
      (ref : ℕ) (nonce : String) (r : PlatformServiceRecord) (m : Option CapabilityManifest)
      (store : Store) (n : FederatedRegistryNode)
      → Carries ref nonce r m store
      → Carries ref nonce r m (record_in_log h ref store n).0
  unfolding record_in_log record_event record_found stamped
  record_event-Carries ref nonce r m store n c = rw c.there (record {
    event = stamped h n.audit_log.head_hash c.event;
    there = get_elem?-set_self store ref (stamped h n.audit_log.head_hash c.event) c.event c.there;
    nonce_is = c.nonce_is;
    type_is = c.type_is;
    payload_is = c.payload_is;
  })

  receive-Carries :
      (ref : ℕ) (nonce : String) (r : PlatformServiceRecord) (m : Option CapabilityManifest)
      (supply : Supply) (store : Store) (n : FederatedRegistryNode)
      → Carries ref nonce r m store
      → Carries ref nonce r m (receive h cap ref supply store n).0
  unfolding receive receive_found
  receive-Carries ref nonce r m supply store n c =
      rw c.there (elim (Bool-cases (mem c.event.nonce n.seen_nonces)) [
        | inl seen ↦ rw seen c
        | inr fresh ↦ rw fresh (record_event-Carries ref nonce r m store _ c)
      ])

  deliver_found-Carries :
      (o : Option FederatedRegistryNode) (ref : ℕ) (nonce : String) (r : PlatformServiceRecord)
      (m : Option CapabilityManifest) (supply : NetworkSupply) (p : String) (net : Network)
      → Carries ref nonce r m net.store
      → Carries ref nonce r m (deliver_found h cap o ref supply p net).store
  unfolding deliver_found
  deliver_found-Carries none ref nonce r m supply p net c = c
  deliver_found-Carries (some n) ref nonce r m supply p net c =
      receive-Carries ref nonce r m (supply.at p) net.store n c

  deliver_elsewhere :
      (o : Option FederatedRegistryNode) (ref : ℕ) (supply : NetworkSupply) (p q : String)
      (net : Network)
      → p ≢ q
      → lookup q (deliver_found h cap o ref supply p net).nodes ≡ lookup q net.nodes
  unfolding deliver_found
  deliver_elsewhere none ref supply p q net differ = refl
  deliver_elsewhere (some n) ref supply p q net differ =
      lookup-insert p q _ net.nodes ∙ rw (eq_false p q differ) refl

  propagate_elsewhere :
      (ref : ℕ) (supply : NetworkSupply) (ps : List String) (q : String) (net : Network)
      → mem q ps ≡ false
      → lookup q (propagate h cap ref supply ps net).nodes ≡ lookup q net.nodes
  unfolding propagate
  propagate_elsewhere ref supply [] q net m = refl
  propagate_elsewhere ref supply (p ∷ ps) q net m =
      propagate_elsewhere ref supply ps q _ (ground (arith, m))
      ∙ deliver_elsewhere (lookup p net.nodes) ref supply p q net
          (λ e. ground (arith, m, eq_iff q p, sym e))

  -- The peer whose turn it is.
  deliver_here :
      (ref : ℕ) (nonce : String) (r : PlatformServiceRecord) (m : Option CapabilityManifest)
      (supply : NetworkSupply) (p k : String) (n : FederatedRegistryNode) (net : Network)
      → Carries ref nonce r m net.store
      → mem nonce n.seen_nonces ≡ false
      → service_at p k (deliver_found h cap (some n) ref supply p net) ≡ (
          if r.platform_service_id == k
          then some (kept h (get_service r.platform_service_id n.registry) r)
          else get_service k n.registry)
  unfolding deliver_found
  deliver_here ref nonce r m supply p k n net c fresh =
      rw (lookup-insert_self p (receive h cap ref (supply.at p) net.store n).1 net.nodes) (
        receive_registers h cap ref (supply.at p) net.store n c.event r m k c.there
          (rw c.nonce_is fresh) c.type_is c.payload_is)

  propagate_reaches :
      (ref : ℕ) (nonce : String) (r : PlatformServiceRecord) (m : Option CapabilityManifest)
      (supply : NetworkSupply) (ps : List String) (q k : String) (n : FederatedRegistryNode)
      (net : Network)
      → Carries ref nonce r m net.store
      → Distinct ps
      → mem q ps ≡ true
      → lookup q net.nodes ≡ some n
      → mem nonce n.seen_nonces ≡ false
      → service_at q k (propagate h cap ref supply ps net) ≡ (
          if r.platform_service_id == k
          then some (kept h (get_service r.platform_service_id n.registry) r)
          else get_service k n.registry)
  unfolding propagate
  propagate_reaches ref nonce r m supply [] q k n net c d there found fresh =
      absurd (ground (arith, there))
  propagate_reaches ref nonce r m supply (p ∷ ps) q k n net c d there found fresh =
      elim (String-cases q p) [
        | inl same ↦ rw⁻¹ same (
            ap (λ o. service_in o k)
              (propagate_elsewhere ref supply ps q
                (deliver_found h cap (lookup q net.nodes) ref supply q net) (rw same d.0))
            ∙ rw found (deliver_here ref nonce r m supply q k n net c fresh))
        | inr differ ↦
            propagate_reaches ref nonce r m supply ps q k n
              (deliver_found h cap (lookup p net.nodes) ref supply p net)
              (deliver_found-Carries (lookup p net.nodes) ref nonce r m supply p net c) d.1
              (ground (arith, there, eq_false q p differ))
              (deliver_elsewhere (lookup p net.nodes) ref supply p q net (λ e. differ (sym e))
                ∙ found)
              fresh
      ]

  published-Carries :
      (r : PlatformServiceRecord) (m : Option CapabilityManifest) (fresh : Fresh) (store : Store)
      (n : FederatedRegistryNode)
      → Carries
          (length store)
          fresh.nonce
          r
          m
          (publish h "SERVICE_REGISTERED" "" (registration r m) fresh store n).0
  unfolding publish create_event
  published-Carries r m fresh store n =
      let e = create_event "SERVICE_REGISTERED" "" (registration r m) fresh (increment_clock n) in
      record_event-Carries (length store) fresh.nonce r m (store ++ e ∷ []) (increment_clock n)
        (record {
          event = e;
          there = get_elem?-append_length store e;
          nonce_is = refl;
          type_is = refl;
          payload_is = refl;
        })

  broadcast_reaches :
      (r : PlatformServiceRecord) (m : Option CapabilityManifest) (supply : NetworkSupply)
      (n peer : FederatedRegistryNode) (net : Network) (q k : String)
      → Distinct n.peers
      → mem q n.peers ≡ true
      → n.node_id ≢ q
      → lookup q net.nodes ≡ some peer
      → mem supply.fresh.nonce peer.seen_nonces ≡ false
      → service_at q k (broadcast h cap "SERVICE_REGISTERED" (registration r m) supply n net) ≡ (
          if r.platform_service_id == k
          then some (kept h (get_service r.platform_service_id peer.registry) r)
          else get_service k peer.registry)
  unfolding broadcast publish record_in_log increment_clock
  broadcast_reaches r m supply n peer net q k d there differ found fresh =
      propagate_reaches (length net.store) supply.fresh.nonce r m supply n.peers q k peer _
        (published-Carries r m supply.fresh net.store n) d there
        (lookup-insert n.node_id q _ net.nodes ∙ rw (eq_false n.node_id q differ) found) fresh

  -- A node registers a service that it does not hold in the same version, with a proof and a
  -- certificate that authenticate it. Then every peer of the node holds, under the id of the service,
  -- what the meeting of the service with its own leaves, and under every other id what it held. The ids
  -- of the peers are distinct, the node is not its own peer, and the peer has not seen the fresh nonce.
  pub register_reaches :
      (iso : ℕ → String) (verify : Verifier) (ca : CertificateAuthority) (r : PlatformServiceRecord)
      (m : Option CapabilityManifest) (proof : NodeProof) (certificate : ServiceCertificate)
      (supply : NetworkSupply) (n peer : FederatedRegistryNode) (net : Network) (q k : String)
      → (authenticate h iso verify
          (supply.at n.node_id).now
          ca
          r.platform_service_id
          proof
          certificate
          (h.dumps (record_dict r))).authenticated
        ≡ true
      → is_same_version (get_service r.platform_service_id n.registry) r ≡ false
      → Distinct n.peers
      → mem q n.peers ≡ true
      → n.node_id ≢ q
      → lookup q net.nodes ≡ some peer
      → mem supply.fresh.nonce peer.seen_nonces ≡ false
      → service_at q k
          (register_service_authenticated h cap iso verify ca r m
            (some (proof, certificate))
            supply
            n
            net).1
        ≡ (if r.platform_service_id == k
            then some (kept h (get_service r.platform_service_id peer.registry) r)
            else get_service k peer.registry)
  unfolding register_service_authenticated register_if register_admitted register_service
  register_reaches iso verify ca r m proof cert supply n peer net q k ok new d there differ found
        fresh =
      let other : is_same_version (lookup r.platform_service_id n.registry.services) r ≡ false =
        unfold get_service in new in
      rw (ok, other) (broadcast_reaches r m supply _ peer net q k d there differ found fresh)
