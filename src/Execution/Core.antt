-- ===== src/Execution/Core.antt =====
-- runtime_core.py: `RuntimeCore.execute`. Whether the environment of a test run is set, and the
-- invocation of the remote runtime through the SDK, are arguments; logging is left out.
pub mod Acknowledged
use Prim.Native.String.{◌++◌ as text_append, find, len}
use bhiv_qcg.Prelude.{ℕ, String, Bool, true, false, Option, none, some, if◌then◌else◌}
use text.Mathlib.Text.{find?}
use bhiv_qcg.Prelude.Order.{ℤ, pos, ltb_ℤ}
use bhiv_qcg.Prelude.Hashing.{Hashing, Json, str, real, object, Fields, end, field}
use bhiv_qcg.Execution.Contract.{
  Config, FloatText, ComputationExecutionContract, ContractError, validate_contract, error_text,
  joined,
}

-- The acknowledgements, and why an execution halted.
pub data Ack : Type 0 where
  ok : Ack
  degraded : ℤ → Ack
  invalid_contract : ContractError → Ack
  low_confidence : ℤ → Ack
  sdk_failure : String → Ack
  runtime_failure : String → Ack

-- The texts that stand in the program for them
unfoldable pub ack_text : FloatText → Ack → String
ack_text fl ok = "ACK:OK"
ack_text fl (degraded c) = text_append "ACK:DEGRADED:confidence=" (fl.fixed4 c)
ack_text fl (invalid_contract e) = text_append "HALT:INVALID_CONTRACT:" (error_text fl e)
ack_text fl (low_confidence c) = text_append "HALT:LOW_CONFIDENCE:" (fl.fixed4 c)
ack_text fl (sdk_failure e) = text_append "HALT:SDK_INVOCATION_FAILURE:" e
ack_text fl (runtime_failure m) = text_append "HALT:DHIRAJ_RUNTIME_FAILURE:" m

-- What the SDK returns of an invocation: the error of one that did not succeed, or the "status" and
-- the "message" of the response.
pub data Invocation : Type 0 where
  failed : String → Invocation
  responded : String → String → Invocation

pub record ExecutionResult : Type 0 where
  pub contract_trace_id : String
  pub producer_type : String
  pub ack : Ack
  pub confidence : ℤ
  pub runtime_hash : String

abbrev pub is_found : Option ℕ → Bool
is_found none = false
is_found (some i) = true

-- `part in text`
abbrev pub is_part : String → String → Bool
is_part part text = is_found (find? text part)

unfoldable pub ack_of_invocation : Invocation → Ack
ack_of_invocation (failed e) = sdk_failure e
ack_of_invocation (responded status message) =
    if is_part "FAIL" status then runtime_failure message else ok

module _ (h : Hashing) (fl : FloatText) where
  -- The text that `_result` digests, before it is dumped
  unfoldable pub path_seed : ComputationExecutionContract → Ack → String → Json
  path_seed c ack latest_evidence = object (
      field "payload_hash" (str c.payload_hash) (
        field "confidence" (real (fl.plain c.confidence)) (
          field "ack" (str (ack_text fl ack)) (field "latest_evidence" (str latest_evidence) end))))

  -- `_result` and `_halt`
  unfoldable pub result : ComputationExecutionContract → Ack → String → ExecutionResult
  result c ack latest_evidence = record {
    contract_trace_id = c.trace_id;
    producer_type = c.producer_type;
    ack = ack;
    confidence = c.confidence;
    runtime_hash = h.sha256 (h.dumps (path_seed c ack latest_evidence));
  }

  -- The steps after validation
  unfoldable pub ack_by_confidence : Config → Bool → Invocation → ComputationExecutionContract → Ack
  ack_by_confidence config under_test invocation c =
      if ltb_ℤ c.confidence config.corruption_threshold
      then low_confidence c.confidence
      else if ltb_ℤ c.confidence config.confidence_threshold
      then degraded c.confidence
      else if under_test
      then ok
      else ack_of_invocation invocation

  unfoldable pub ack_of :
      Option ContractError → Config → Bool → Invocation → ComputationExecutionContract → Ack
  ack_of (some e) config under_test invocation c = invalid_contract e
  ack_of none config under_test invocation c = ack_by_confidence config under_test invocation c

  -- `execute`. `latest_evidence` is the head of the ledger, or "" where there is none.
  unfoldable pub execute :
      Config
      → Bool
      → (ComputationExecutionContract → Invocation)
      → String
      → ComputationExecutionContract
      → ExecutionResult
  execute config under_test invoke latest_evidence c =
      result c (ack_of (validate_contract h config none none c) config under_test (invoke c) c)
        latest_evidence
