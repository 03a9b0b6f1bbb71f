-- ===== src/Routing/Providers.antt =====
-- quantum_provider_registry.py: `QuantumProviderRegistry`. What a health check finds (the import of
-- Qiskit Aer, the endpoint's answer) is an argument. Of a record's fields, those that the registry
-- copies without a look (capabilities, gates, noise model) are left out.
pub mod Best
use bhiv_qcg.Prelude.{
  ℕ, String, Bool, true, false, not, ◌&&◌, ◌||◌, Option, none, some, List, [], ◌∷◌, ◌++◌, ◌==◌, ltb,
  leb, eqb, if◌then◌else◌,
}
use bhiv_qcg.Prelude.Dict.{Dict, lookup, insert, erase, contains}
use bhiv_qcg.Routing.Classes.{
  ExecutionClassification, classical, quantum_local, quantum_simulated, quantum_live,
  ProviderStatus, available, degraded, unavailable, unknown,
}

pub record ProviderRecord : Type 0 where
  pub provider_id : String
  pub provider_name : String
  pub provider_type : String
  pub status : ProviderStatus
  pub health_endpoint : String
  pub max_qubits : ℕ
  pub last_health_check : String
  pub last_health_result : Option ProviderStatus

abbrev pub is_local_simulator : ProviderRecord → Bool
is_local_simulator p = p.provider_type == "LOCAL_SIMULATOR"

abbrev pub is_remote_simulator : ProviderRecord → Bool
is_remote_simulator p = p.provider_type == "REMOTE_SIMULATOR"

abbrev pub is_live_hardware : ProviderRecord → Bool
is_live_hardware p = p.provider_type == "LIVE_HARDWARE"

abbrev pub is_available : ProviderRecord → Bool
is_available p = elim p.status [ available ↦ true | degraded ↦ true | _ ↦ false ]

unfoldable pub get_execution_classification : ProviderRecord → ExecutionClassification
get_execution_classification p =
    if is_live_hardware p
    then quantum_live
    else if is_remote_simulator p
    then quantum_simulated
    else if is_local_simulator p
    then quantum_local
    else classical

pub record HealthResult : Type 0 where
  pub provider_id : String
  pub status : ProviderStatus
  pub checked_at : String

pub record ProviderRegistry : Type 0 where
  pub providers : Dict ProviderRecord
  pub health_history : List HealthResult

unfoldable pub register_provider : ProviderRecord → ProviderRegistry → Bool × ProviderRegistry
register_provider p s = (
  not (contains p.provider_id s.providers),
  record s { providers = insert p.provider_id p s.providers },
)

unfoldable pub deregister_provider : String → ProviderRegistry → Bool × ProviderRegistry
deregister_provider provider_id s =
    if contains provider_id s.providers
    then (true, record s { providers = erase provider_id s.providers })
    else (false, s)

unfoldable pub get_provider : String → ProviderRegistry → Option ProviderRecord
get_provider provider_id s = lookup provider_id s.providers

-- `p.is_available and p.max_qubits >= min_qubits`
abbrev pub is_usable : ℕ → ProviderRecord → Bool
is_usable min_qubits p = is_available p && leb min_qubits p.max_qubits

unfoldable pub usable : ℕ → Dict ProviderRecord → List ProviderRecord
usable min_qubits [] = []
usable min_qubits ((k, p) ∷ ps) =
    let rest = usable min_qubits ps in if is_usable min_qubits p then p ∷ rest else rest

-- `type_priority.get(p.provider_type, 99)`
unfoldable pub type_priority : Bool → ProviderRecord → ℕ
type_priority prefer_live p =
    if p.provider_type == "LIVE_HARDWARE"
    then if prefer_live then 0 else 2
    else if p.provider_type == "REMOTE_SIMULATOR"
    then 1
    else if p.provider_type == "LOCAL_SIMULATOR"
    then if prefer_live then 2 else 0
    else 99

unfoldable pub status_priority : ProviderRecord → ℕ
status_priority p = elim p.status [ available ↦ 0 | degraded ↦ 1 | _ ↦ 99 ]

-- `<=` on the pairs that `sort` compares
unfoldable pub precedes : Bool → ProviderRecord → ProviderRecord → Bool
precedes prefer_live p q =
    ltb (type_priority prefer_live p) (type_priority prefer_live q)
    || (eqb (type_priority prefer_live p) (type_priority prefer_live q)
        && leb (status_priority p) (status_priority q))

-- `available.sort(key=...)`, stable
unfoldable pub insert_sorted : Bool → ProviderRecord → List ProviderRecord → List ProviderRecord
insert_sorted prefer_live p [] = p ∷ []
insert_sorted prefer_live p (q ∷ qs) =
    let rest = insert_sorted prefer_live p qs in
    if precedes prefer_live p q then p ∷ q ∷ qs else q ∷ rest

unfoldable pub sort : Bool → List ProviderRecord → List ProviderRecord
sort prefer_live [] = []
sort prefer_live (p ∷ ps) = insert_sorted prefer_live p (sort prefer_live ps)

unfoldable pub first : List ProviderRecord → Option ProviderRecord
first [] = none
first (p ∷ ps) = some p

unfoldable pub get_best_provider : ℕ → Bool → ProviderRegistry → Option ProviderRecord
get_best_provider min_qubits prefer_live s =
    first (sort prefer_live (usable min_qubits s.providers))

-- What the check of a provider can find out from outside.
pub record Probe : Type 0 where
  pub aer_installed : Bool
  -- the endpoint's HTTP status, or none for an exception
  pub http_status : Option ℕ
  pub now : String

abbrev pub of_http : Option ℕ → ProviderStatus
of_http none = unavailable
of_http (some code) = if eqb code 200 then available else degraded

unfoldable pub probed_status : Probe → ProviderRecord → ProviderStatus
probed_status probe p =
    if is_local_simulator p
    then if probe.aer_installed then available else unavailable
    else if not (p.health_endpoint == "")
    then of_http probe.http_status
    else unknown

-- `check_provider_health`, from what `get_provider` finds
unfoldable pub check_found :
    Probe → String → ProviderRegistry → Option ProviderRecord → HealthResult × ProviderRegistry
check_found probe provider_id s none =
    (record { provider_id = provider_id; status = unknown; checked_at = "" }, s)
check_found probe provider_id s (some p) =
    let result : HealthResult = record {
      provider_id = provider_id;
      status = probed_status probe p;
      checked_at = probe.now;
    } in
    (
      result,
      record {
        providers =
            insert provider_id
              (record p {
                status = result.status;
                last_health_check = probe.now;
                last_health_result = some result.status;
              })
              s.providers;
        health_history = s.health_history ++ result ∷ [];
      },
    )

unfoldable pub check_provider_health :
    Probe → String → ProviderRegistry → HealthResult × ProviderRegistry
check_provider_health probe provider_id s =
    check_found probe provider_id s (get_provider provider_id s)
