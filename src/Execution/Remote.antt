-- ===== src/Execution/Remote.antt =====
-- runtime_core.py: `execute` outside a test run, through the client of platform_capability_sdk.py. Each
-- execution makes a new client. How Python reads the status and the message of a response is an
-- argument, and so are the fresh id of the invocation and what the network does.
pub mod Answered
use bhiv_qcg.Prelude.{
  ℕ, String, Bool, true, false, not, ◌&&◌, Option, none, some, [], if◌then◌else◌,
}
use bhiv_qcg.Prelude.Hashing.{Hashing, Json, str, real, object, Fields, end, field}
use bhiv_qcg.Services.{any_dict}
use bhiv_qcg.Prelude.Order.{ltb_ℤ}
use bhiv_qcg.Sdk.Evidence.{new_chain}
use bhiv_qcg.Sdk.Invocation.{
  Network, Request, Status, success, InvocationResult, Sdk, invoke_capability,
}
use bhiv_qcg.Execution.Contract.{
  Config, FloatText, ComputationExecutionContract, ContractError, validate_contract,
}
use bhiv_qcg.Execution.Core.{Invocation, failed, ExecutionResult, execute}

-- The settings of a client
pub record SdkConfig : Type 0 where
  pub max_retries : ℕ
  pub threshold : ℕ
  pub timeout : ℕ
  pub trust_method : String

-- `contract.to_dict()`
unfoldable pub contract_dict : FloatText → ComputationExecutionContract → Json
contract_dict fl c = object (
    field "producer_type" (str c.producer_type) (
      field "payload" (any_dict c.payload) (
        field "confidence" (real (fl.plain c.confidence)) (
          field "trace_id" (str c.trace_id) (
            field "contract_version" (str c.contract_version) (
              field "execution_constraints" (any_dict c.execution_constraints) (
                field "payload_hash" (str c.payload_hash) (
                  field "execution_classification" (str c.execution_classification) (
                    field "execution_path" (str c.execution_path) (
                      field "producer_id" (str c.producer_id) (
                        field "producer_signature" (str c.producer_signature) (
                          field "contract_signature" (str c.contract_signature)
                            (field "timestamp" (str c.timestamp) end)))))))))))))

-- The call of `invoke_capability`, with its default version
unfoldable pub remote_request : FloatText → String → ComputationExecutionContract → Request
remote_request fl invocation_id c = record {
  invocation_id = invocation_id;
  service_id = "dhiraj-runtime";
  operation = "execute";
  payload = contract_dict fl c;
  version = "1.0.0";
}

-- An error as an f-string shows it
abbrev pub error_shown : Option String → String
error_shown none = "None"
error_shown (some e) = e

-- What `execute` makes of the outcome. After an exception there is no result to read: `execute_remotely`
-- does not answer then.
unfoldable pub invocation_of : (Json → Invocation) → Option InvocationResult → Invocation
invocation_of read none = failed ""
invocation_of read (some r) = elim r.status [
  | success ↦ read r.response
  | _ ↦ failed (error_shown r.error)
]

abbrev pub is_exception : Option InvocationResult → Bool
is_exception none = true
is_exception (some r) = false

-- `PlatformCapabilitySDK()`
abbrev pub new_sdk : Hashing → SdkConfig → Sdk
new_sdk h settings = record {
  max_retries = settings.max_retries;
  threshold = settings.threshold;
  timeout = settings.timeout;
  trust_method = settings.trust_method;
  breakers = [];
  evidence = new_chain h;
}

abbrev pub is_valid : Option ContractError → Bool
is_valid none = true
is_valid (some e) = false

module _ (h : Hashing) (fl : FloatText) where
  -- The remote runtime is invoked only for a valid contract of enough confidence.
  abbrev pub is_invoked : Config → ComputationExecutionContract → Bool
  is_invoked config c =
      is_valid (validate_contract h config none none c)
      && not (ltb_ℤ c.confidence config.corruption_threshold)
      && not (ltb_ℤ c.confidence config.confidence_threshold)

  -- `execute`, with none for an exception of the invocation, which nothing catches
  unfoldable pub execute_remotely :
      (Json → Invocation)
      → Config
      → SdkConfig
      → String
      → Network
      → String
      → ComputationExecutionContract
      → Option ExecutionResult
  execute_remotely read config settings invocation_id net latest_evidence c =
      let outcome =
        (invoke_capability h false (remote_request fl invocation_id c) net
          (new_sdk h settings)).0 in
      if is_invoked config c && is_exception outcome
      then none
      else some (execute h fl config false (λ c'. invocation_of read outcome) latest_evidence c)
