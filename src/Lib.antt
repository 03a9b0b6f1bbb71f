-- ===== src/Lib.antt =====
-- A verification library for the Hybrid Quantum Communication Gateway (bhiv-QCG).
--
-- The program takes a message, encodes it for a simulated quantum channel, translates the measured
-- counts into a classical contract, and acknowledges the contract once. Around that pipeline stand the
-- components that make it trustworthy: replay protection, hash-chained and Merkle-tree logs, service
-- lifecycle, leases, certificates and custody chains, and the routing of workloads to providers. A
-- registry of services is shared by a federation of nodes, which authenticate what they register, push
-- events to their peers and resolve conflicts; a client SDK invokes a service through a circuit
-- breaker. Contracts of any producer are validated, checked by the governance layer, executed by the
-- runtime core, and agreed on by a round of consensus. The library models the Python modules of the
-- repository's root, one by one:
--
--   Merkle              audit_trail.py: _build_merkle_tree, _merkle_proof, _verify_merkle_proof
--   Merkle.Incremental  audit_trail.py: MerkleAuditTrail._rebuild_tree, the update after an append
--   AuditTrail          audit_trail.py: AuditEntry, MerkleAuditTrail (append, inclusion, integrity)
--   EvidenceLedger      evidence_ledger.py, execution_record.py: EvidenceLedger with its file
--   Chain               the verification loop of a chain of event hashes, for the components that share it
--   Lifecycle           platform_lifecycle_manager.py: LifecycleManager; Lifecycle.Session runs its calls
--   Leases              heartbeat_manager.py: HeartbeatManager
--   Services            platform_service_registry.py: records and manifests; Services.Negotiation the
--                       VersionNegotiator, Services.Evidence the recorder, Services.Registry,
--                       Services.Mutations and Services.Queries the PlatformServiceRegistry;
--                       Services.Session runs its calls
--   Federation          federated_registry.py: FederationAuditLog, over a store of shared event objects;
--                       Federation.Conflict the ConflictResolver, Federation.Node how a node receives
--                       an event, Federation.Sync what it pulls from a peer, Federation.Network
--                       registration, revocation and the push to the peers
--   Sdk                 platform_capability_sdk.py, sdk_models.py: Sdk.Breaker the CircuitBreaker,
--                       Sdk.Evidence the SDKEvidenceChain, Sdk.Manifest when validate_manifest
--                       raises, Sdk.Invocation invoke_capability
--   Execution.Contract  execution_contract.py: ComputationExecutionContract, validate_contract
--   Execution.Core      runtime_core.py: RuntimeCore.execute
--   Execution.Remote    runtime_core.py: RuntimeCore.execute through a client of Sdk.Invocation
--   Execution.Governance  governance.py: GovernanceLayer.enforce, over the core
--   Execution.Provenance  provenance.py: sign_contract, verify_contract_provenance, over Trust.Proof
--   Execution.Consensus consensus_simulation.py: DistributedConsensusNode, ConsensusEngine
--   Replay.Enforcer     replay_enforcer.py: ReplayEnforcer
--   Replay.Registry     replay_registry.py: ReplayRegistry with its backing file
--   Replay.Authority    canonical_replay_authority.py: CanonicalReplayAuthority, over the registry
--   Gateway.Contract    models.py: the validated records, and the settings of config.py they use
--   Gateway.Translation translation_layer.py: translate; quantum_producer.py: _message_to_bits
--   Gateway.Limiter     hybrid_gateway.py: _RateLimiter
--   Gateway.Pipeline    hybrid_gateway.py: QuantumGateway.transmit, through the parts above
--   Gateway.Posture     degraded_runtime.py: evaluate
--   Routing.Classes     execution_classification.py
--   Routing.Providers   quantum_provider_registry.py: QuantumProviderRegistry
--   Routing.Router      workload_router.py: WorkloadRouter, over the provider registry
--   Trust.Proof         node_identity.py: sign_payload, verify_node_proof
--   Trust.Custody       trust_chain.py: NodeRegistry, TrustChain
--   Trust.Certificates  service_identity.py: ServiceCertificateAuthority, MutualAuthenticator
--   Prelude             shared helpers: dicts, JSON and hashes, orders on integers and texts (Prelude.Order),
--                       Python's int() and split on version texts (Prelude.Numerals)
--   Examples            concrete inputs, with stand-ins for the hash functions (Examples.Toy)
--
-- How the code is read. An object's attributes are the fields of a record, and a method takes the
-- record and gives its result and the new record. A raised exception is a constructor of the result. A
-- method that holds a lock for its whole update is one step, so a list of calls is an interleaving.
-- enable and disable of the lifecycle manager read the state and take the lock again for the write: the
-- call of a session carries what it read, and stands where it writes.
-- Prelude.Dict is Python's dict with text keys, in insertion order. Error and reason texts are kept as
-- the case that they word, with the values formatted into them. Clocks, uuids and time stamps are
-- arguments. A float that the code compares is a fraction or a count in a finer unit (thresholds are in
-- hundredths, tokens in 60000ths, times in milliseconds or microseconds), so that no rounding occurs;
-- the rounding of a reported confidence to four digits is left out. In Execution a confidence is a whole
-- number of ten-thousandths, and how Python prints one is a parameter (FloatText); the threshold of
-- consensus is a whole number of hundredths. int() is read for ASCII digits. An update sets an attribute
-- to a value of its declared type, and a caller does not change a record after registering it. A
-- federation is a dict of nodes by id, so that a push to a peer changes the peer. What a remote runtime
-- or the network of the SDK answers is an argument.
--
-- What is taken from outside. SHA-256 and json.dumps are the two functions of Prelude.Hashing; a
-- theorem that needs more of them says so: IsDocumented (a hex digest has 64 characters), KeepsField
-- (a dumped object determines one field). Tamper evidence is relative: the conclusion is that nothing
-- was changed, or that two different texts with one digest are among those which the two structures
-- digest (Prelude.Hashing.Clash). ECDSA is a verifier and the signers' functions (Trust.Proof.IsSound: a signature verifies under its signer's key). The simulator
-- of the channel is a function from bits, noise, shots and seed to counts. uuid5 is a function.
--
-- Fuel. Three loops are recursions on a number of rounds: levels_from and root_from, which start with
-- the number of leaves (each round at least halves a level of two or more), and grow_root, which starts
-- with the length of the top level. That this is enough is part of the equations proved of them: the
-- incremental tree equals the built one, and the ledger's root equals the root of that tree. The
-- eviction threshold of the enforcer is an argument; the code's value is eviction_threshold.
--
-- The window of nonces of a node takes its cap as an argument, and is proved to stay within it.
--
-- Not modelled: the web servers, transports and clients (I/O), the Qiskit circuits, logging and
-- metrics, the quantum network contract, status reports of a federated node, discovery, health calls
-- and backoff delays of the SDK, a backing file of the replay registry whose JSON is no object (the
-- program raises on it), the solver fabric in its own folder, and the copies of these files in the
-- packet folders.
pub mod AuditTrail
pub mod Chain
pub mod EvidenceLedger
pub mod Examples
pub mod Execution
pub mod Federation
pub mod Gateway
pub mod Leases
pub mod Lifecycle
pub mod Merkle
pub mod Prelude
pub mod Replay
pub mod Routing
pub mod Sdk
pub mod Services
pub mod Trust
