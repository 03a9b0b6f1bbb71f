-- ===== src/Routing/Router.antt =====
-- workload_router.py: `WorkloadRouter`. A reason text is kept as the case that it words.
-- Left out: the fields that nothing reads (a decision's time, a workload's noise bound and constraints).
pub mod Decisions
pub mod Hardware
use bhiv_qcg.Prelude.{
  ℕ, String, Bool, true, false, ◌&&◌, ◌||◌, Option, none, some, ◌==◌, ltb, leb, if◌then◌else◌,
}
use bhiv_qcg.Prelude.Dict.{Dict, lookup}
use bhiv_qcg.Routing.Classes.{
  ExecutionClassification, classical, quantum_local, quantum_simulated, quantum_live, hybrid,
  ExecutionPath, live, local, simulated, fallback, blocked,
}
use bhiv_qcg.Routing.Providers.{
  ProviderRecord, ProviderRegistry, is_live_hardware, is_remote_simulator,
  get_execution_classification, get_best_provider,
}

pub data WorkloadSuitability : Type 0 where
  quantum_preferred classical_preferred hybrid_required quantum_required : WorkloadSuitability

pub data Reason : Type 0 where
  assessed_classical required_fallback required_blocked preferred_fallback : Reason
  routed_to preferred_routed_to : String → String → Reason

pub record RoutingDecision : Type 0 where
  pub workload_id : String
  pub suitability : WorkloadSuitability
  pub recommended_provider_id : String
  pub recommended_classification : ExecutionClassification
  pub recommended_path : ExecutionPath
  pub fallback_available : Bool
  pub fallback_provider_id : String
  pub fallback_classification : Option ExecutionClassification
  pub reason : Reason

pub record WorkloadMetadata : Type 0 where
  pub workload_id : String
  pub workload_type : String
  pub problem_size : ℕ
  pub is_qubo_compatible : Bool
  pub requires_entanglement : Bool
  pub requires_live_hardware : Bool
  pub classical_fallback_acceptable : Bool

unfoldable pub assess_suitability : WorkloadMetadata → WorkloadSuitability
assess_suitability m =
    if m.requires_live_hardware || m.requires_entanglement
    then quantum_required
    else if m.is_qubo_compatible
    then if ltb 100 m.problem_size
      then hybrid_required
      else if leb 3 m.problem_size
      then quantum_preferred
      else classical_preferred
    else if (m.workload_type == "SIMULATION") && leb 5 m.problem_size
    then quantum_preferred
    else classical_preferred

unfoldable pub route_classical : WorkloadMetadata → WorkloadSuitability → RoutingDecision
route_classical m suitability = record {
  workload_id = m.workload_id;
  suitability = suitability;
  recommended_provider_id = "CLASSICAL_RUNTIME";
  recommended_classification = classical;
  recommended_path = local;
  fallback_available = false;
  fallback_provider_id = "";
  fallback_classification = none;
  reason = assessed_classical;
}

-- `path` of a provider
unfoldable pub path_of : ProviderRecord → ExecutionPath
path_of p = if is_live_hardware p then live else if is_remote_simulator p then simulated else local

unfoldable pub route_quantum_required :
    WorkloadMetadata → WorkloadSuitability → Option ProviderRecord → RoutingDecision
route_quantum_required m suitability none =
    if m.classical_fallback_acceptable
    then record {
      workload_id = m.workload_id;
      suitability = suitability;
      recommended_provider_id = "CLASSICAL_FALLBACK";
      recommended_classification = classical;
      recommended_path = fallback;
      fallback_available = true;
      fallback_provider_id = "";
      fallback_classification = none;
      reason = required_fallback;
    }
    else record {
      workload_id = m.workload_id;
      suitability = suitability;
      recommended_provider_id = "NONE";
      recommended_classification = classical;
      recommended_path = blocked;
      fallback_available = false;
      fallback_provider_id = "";
      fallback_classification = none;
      reason = required_blocked;
    }
route_quantum_required m suitability (some p) = record {
  workload_id = m.workload_id;
  suitability = suitability;
  recommended_provider_id = p.provider_id;
  recommended_classification = get_execution_classification p;
  recommended_path = path_of p;
  fallback_available = m.classical_fallback_acceptable;
  fallback_provider_id = if m.classical_fallback_acceptable then "CLASSICAL_RUNTIME" else "";
  fallback_classification = if m.classical_fallback_acceptable then some classical else none;
  reason = routed_to p.provider_name p.provider_type;
}

unfoldable pub route_quantum_preferred :
    WorkloadMetadata → WorkloadSuitability → Option ProviderRecord → RoutingDecision
route_quantum_preferred m suitability none = record {
  workload_id = m.workload_id;
  suitability = suitability;
  recommended_provider_id = "CLASSICAL_FALLBACK";
  recommended_classification = classical;
  recommended_path = fallback;
  fallback_available = true;
  fallback_provider_id = "";
  fallback_classification = none;
  reason = preferred_fallback;
}
route_quantum_preferred m suitability (some p) = record {
  workload_id = m.workload_id;
  suitability = suitability;
  recommended_provider_id = p.provider_id;
  recommended_classification = get_execution_classification p;
  recommended_path = path_of p;
  fallback_available = true;
  fallback_provider_id = "CLASSICAL_RUNTIME";
  fallback_classification = some classical;
  reason = preferred_routed_to p.provider_name p.provider_type;
}

unfoldable pub route_by :
    WorkloadMetadata → WorkloadSuitability → Option ProviderRecord → RoutingDecision
route_by m classical_preferred best = route_classical m classical_preferred
route_by m quantum_required best = route_quantum_required m quantum_required best
route_by m suitability best = route_quantum_preferred m suitability best

unfoldable pub route : WorkloadMetadata → ProviderRegistry → RoutingDecision
route m s =
    route_by m (assess_suitability m) (get_best_provider m.problem_size m.requires_live_hardware s)
