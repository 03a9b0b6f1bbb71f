-- ===== src/Examples/Routing.antt =====
-- Providers and workloads on which the theorems are applied.
use bhiv_qcg.Prelude.{String, true, false, none, [], ◌∷◌}
use bhiv_qcg.Routing.Classes.{available, degraded, ProviderStatus}
use bhiv_qcg.Routing.Providers.{ProviderRecord, ProviderRegistry, get_best_provider, usable}
use bhiv_qcg.Routing.Providers.Best.{IsSelection, get_best_provider-IsSelection}
use bhiv_qcg.Routing.Router.{WorkloadMetadata, route}
use bhiv_qcg.Routing.Router.Decisions.{Fits, route-Fits}

abbrev provider : String → String → ProviderStatus → ProviderRecord
provider name type status = record {
  provider_id = name;
  provider_name = name;
  provider_type = type;
  status = status;
  health_endpoint = "";
  max_qubits = 30;
  last_health_check = "";
  last_health_result = none;
}

abbrev two : ProviderRegistry
two = record {
  providers =
      ("aer", provider "aer" "LOCAL_SIMULATOR" available)
      ∷ ("far", provider "far" "REMOTE_SIMULATOR" degraded)
      ∷ [];
  health_history = [];
}

abbrev hardware_job : WorkloadMetadata
hardware_job = record {
  workload_id = "w";
  workload_type = "GENERAL";
  problem_size = 4;
  is_qubo_compatible = false;
  requires_entanglement = false;
  requires_live_hardware = true;
  classical_fallback_acceptable = false;
}

get_best_provider-IsSelection_example :
    IsSelection true (get_best_provider 4 true two) (usable 4 two.providers)
get_best_provider-IsSelection_example = get_best_provider-IsSelection 4 true two

route-Fits_example :
    Fits
      (route hardware_job two).recommended_path
      (route hardware_job two).recommended_classification
route-Fits_example = route-Fits hardware_job two
