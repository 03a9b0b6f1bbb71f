-- ===== src/Routing/Classes.antt =====
-- execution_classification.py: the enumerations, `classify_execution`, and the results that carry a
-- class. A payload is a `Json` value, a confidence the digits of the float, the time an argument.
use bhiv_qcg.Prelude.{String, Bool, true, false, ◌&&◌, ◌==◌, if◌then◌else◌}
use bhiv_qcg.Prelude.Hashing.{Json, str, real, object, end, field, Hashing}

pub data ExecutionClassification : Type 0 where
  classical quantum_local quantum_simulated quantum_live hybrid : ExecutionClassification

pub data ExecutionPath : Type 0 where
  live local simulated fallback blocked : ExecutionPath

pub data ProviderStatus : Type 0 where
  available degraded unavailable unknown : ProviderStatus

abbrev pub classification_text : ExecutionClassification → String
classification_text classical = "CLASSICAL"
classification_text quantum_local = "QUANTUM_LOCAL"
classification_text quantum_simulated = "QUANTUM_SIMULATED"
classification_text quantum_live = "QUANTUM_LIVE"
classification_text hybrid = "HYBRID"

abbrev pub path_text : ExecutionPath → String
path_text live = "LIVE"
path_text local = "LOCAL"
path_text simulated = "SIMULATED"
path_text fallback = "FALLBACK"
path_text blocked = "BLOCKED"

-- `cls` and `path` before the hybrid test
abbrev pub class_of_device : Bool → Bool → Bool → ExecutionClassification × ExecutionPath
class_of_device is_local_simulator is_remote_simulator is_live_hardware =
    if is_live_hardware
    then (quantum_live, live)
    else if is_remote_simulator
    then (quantum_simulated, simulated)
    else if is_local_simulator
    then (quantum_local, local)
    else (classical, local)

-- `cls in (QUANTUM_LIVE, QUANTUM_SIMULATED, QUANTUM_LOCAL)`
abbrev pub is_device_class : ExecutionClassification → Bool
is_device_class quantum_live = true
is_device_class quantum_simulated = true
is_device_class quantum_local = true
is_device_class _ = false

abbrev pub hybrid_class :
    Bool → ExecutionClassification × ExecutionPath → ExecutionClassification × ExecutionPath
hybrid_class has_classical_component (cls, path) =
    if has_classical_component && is_device_class cls then (hybrid, path) else (cls, path)

unfoldable pub classify_execution :
    ProviderStatus → Bool → Bool → Bool → Bool → ExecutionClassification × ExecutionPath
classify_execution unavailable is_local is_remote is_live has_classical = (classical, blocked)
classify_execution _ is_local is_remote is_live has_classical =
    hybrid_class has_classical (class_of_device is_local is_remote is_live)

pub record ClassifiedResult : Type 0 where
  pub trace_id : String
  pub classification : ExecutionClassification
  pub execution_path : ExecutionPath
  pub provider_id : String
  pub result_payload : Json
  pub confidence : String
  pub result_hash : String
  pub fallback_reason : String
  pub blocked_reason : String
  pub original_classification : String
  pub timestamp : String

abbrev pub is_quantum : ClassifiedResult → Bool
is_quantum r = elim r.classification [ classical ↦ false | _ ↦ true ]

abbrev pub is_fallback : ClassifiedResult → Bool
is_fallback r = elim r.execution_path [ fallback ↦ true | _ ↦ false ]

abbrev pub is_blocked : ClassifiedResult → Bool
is_blocked r = elim r.execution_path [ blocked ↦ true | _ ↦ false ]

module _ (h : Hashing) where
  -- The text that `__post_init__` hashes
  unfoldable pub result_digest : ClassifiedResult → String
  result_digest r = h.sha256 (
      h.dumps (
        object (
          field "trace_id" (str r.trace_id) (
            field "classification" (str (classification_text r.classification)) (
              field "execution_path" (str (path_text r.execution_path)) (
                field "provider_id" (str r.provider_id) (
                  field "result_payload" r.result_payload
                    (field "confidence" (real r.confidence) end))))))))

  -- `__post_init__`
  unfoldable pub post_init : ClassifiedResult → ClassifiedResult
  post_init r = if r.result_hash == "" then record r { result_hash = result_digest r } else r

  unfoldable pub build_classified_result :
      String
      → ExecutionClassification
      → ExecutionPath
      → String
      → Json
      → String
      → String
      → String
      → String
      → String
      → ClassifiedResult
  build_classified_result trace_id cls path provider_id payload confidence why_fallback why_blocked
        original timestamp =
      post_init (record {
        trace_id = trace_id;
        classification = cls;
        execution_path = path;
        provider_id = provider_id;
        result_payload = payload;
        confidence = confidence;
        result_hash = "";
        fallback_reason = why_fallback;
        blocked_reason = why_blocked;
        original_classification = original;
        timestamp = timestamp;
      })

  unfoldable pub build_blocked_result : String → String → String → String → ClassifiedResult
  build_blocked_result trace_id why_blocked original timestamp = post_init (record {
    trace_id = trace_id;
    classification = classical;
    execution_path = blocked;
    provider_id = "NONE";
    result_payload = object (field "status" (str "BLOCKED") (field "reason" (str why_blocked) end));
    confidence = "0.0";
    result_hash = "";
    fallback_reason = "";
    blocked_reason = why_blocked;
    original_classification = original;
    timestamp = timestamp;
  })

  unfoldable pub build_fallback_result :
      String → Json → String → String → String → String → ClassifiedResult
  build_fallback_result trace_id payload confidence why_fallback original timestamp =
      post_init (record {
        trace_id = trace_id;
        classification = classical;
        execution_path = fallback;
        provider_id = "CLASSICAL_FALLBACK";
        result_payload = payload;
        confidence = confidence;
        result_hash = "";
        fallback_reason = why_fallback;
        blocked_reason = "";
        original_classification = original;
        timestamp = timestamp;
      })
