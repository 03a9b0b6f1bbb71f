-- ===== src/Execution.antt =====
-- The path of a computation contract: execution_contract.py, runtime_core.py, governance.py,
-- provenance.py and consensus_simulation.py.
pub mod Contract
pub mod Core
pub mod Governance
pub mod Remote
pub mod Provenance
pub mod Consensus
