-- ===== src/Sdk/Invocation.antt =====
-- platform_capability_sdk.py: `invoke_capability`; sdk_models.py: its result. What the network answers
-- is an argument: the outcome of the negotiation, whether the service was found, what the discovery
-- nodes answer for the manifest, and what each attempt returns. Delays between attempts, durations and
-- time stamps are left out.
pub mod Recorded
pub mod Served
use bhiv_qcg.Prelude.{
  ℕ, zero, suc, ◌+◌, String, Bool, true, false, not, Option, none, some, List, ◌==◌, if◌then◌else◌,
}
use Prim.Native.String.{◌++◌ as text_append}
use bhiv_qcg.Prelude.Hashing.{
  Hashing, Json, str, num, real, object, null, flag, array, Items, nil, item, Fields, end, field,
}
use bhiv_qcg.Sdk.Breaker.{
  CircuitBreaker, new_breaker, allow_request, record_success, record_failure,
}
use bhiv_qcg.Sdk.Manifest.{Attempt, response, raised, is_truthy, validate_manifest_raises}
use bhiv_qcg.Sdk.Evidence.{InvocationEvidence, SdkEvidenceChain, record_evidence}
use bhiv_qcg.Prelude.Dict.{Dict, lookup, insert}

-- A `NegotiationResult`, with the rest of its dict
pub record NegotiationResult : Type 0 where
  pub status : String
  pub negotiated_version : Option String
  pub message : String
  pub as_dict : Json

pub record Network : Type 0 where
  pub negotiation : NegotiationResult
  pub service_found : Bool
  -- the answers of the discovery nodes to the request for the metadata
  pub metadata : List Attempt
  pub attempt : ℕ → Attempt
  -- the time of each attempt, and that of the first look at the breaker
  pub attempt_time : ℕ → ℕ
  pub now : ℕ

pub record Request : Type 0 where
  pub invocation_id : String
  pub service_id : String
  pub operation : String
  pub payload : Json
  pub version : String

-- The status of an `InvocationResult`
pub data Status : Type 0 where
  success failed circuit_open version_rejected service_not_found : Status

pub record InvocationResult : Type 0 where
  pub invocation_id : String
  pub service_id : String
  pub operation : String
  pub status : Status
  pub response : Json
  pub trust_method : String
  pub evidence : Option InvocationEvidence
  pub error : Option String
  pub retry_count : ℕ

pub record Sdk : Type 0 where
  pub max_retries : ℕ
  pub threshold : ℕ
  pub timeout : ℕ
  pub trust_method : String
  pub breakers : Dict CircuitBreaker
  pub evidence : SdkEvidenceChain

abbrev pub is_object : Json → Bool
is_object (object fields) = true
is_object _ = false

abbrev pub or_new : Option CircuitBreaker → Sdk → CircuitBreaker
or_new none sdk = new_breaker sdk.threshold sdk.timeout
or_new (some b) sdk = b

-- `_get_breaker`
unfoldable pub get_breaker : String → Sdk → CircuitBreaker
get_breaker service_id sdk = or_new (lookup service_id sdk.breakers) sdk

abbrev pub put_breaker : String → CircuitBreaker → Sdk → Sdk
put_breaker service_id b sdk = record sdk { breakers = insert service_id b sdk.breakers }

-- What the loop over the attempts leaves: the response, `null` where there is none, the last error and
-- the number of retries
pub record Tried : Type 0 where
  pub answer : Json
  pub last_error : Option String
  pub retry_count : ℕ
  pub breaker : CircuitBreaker

-- The loop, with the number of attempts that are left and the number of this one
unfoldable pub try_from : ℕ → ℕ → Network → Option String → CircuitBreaker → Tried
try_from zero i net error b = record {
  answer = null;
  last_error = error;
  retry_count = i;
  breaker = b;
}
try_from (suc left) i net error b = elim (net.attempt i) [
  | response r ↦ record {
    answer = r;
    last_error = error;
    retry_count = i;
    breaker = record_success b;
  }
  | raised e ↦
      try_from left (i + 1) net (some e)
        (elim left [ zero ↦ record_failure (net.attempt_time i) b | suc more ↦ b ])
]

abbrev pub or_version : Option String → String → String
or_version none default = default
or_version (some v) default = if v == "" then default else v

abbrev pub or_empty : Json → Json
or_empty r = if is_truthy r then r else object end

-- `response is None`
abbrev pub status_of : Json → Status
status_of null = failed
status_of _ = success

abbrev pub status_text : Status → String
status_text success = "SUCCESS"
status_text failed = "FAILED"
status_text circuit_open = "CIRCUIT_OPEN"
status_text version_rejected = "VERSION_REJECTED"
status_text service_not_found = "SERVICE_NOT_FOUND"

-- The result after the attempts: no response and the last error, or the response and no error
abbrev pub answered : Json → Option String → Json × Option String
answered null error = (object end, error)
answered r error = (r, none)

-- A result without evidence
abbrev pub refusal : Status → Json → String → Request → Sdk → InvocationResult
refusal s answer error q sdk = record {
  invocation_id = q.invocation_id;
  service_id = q.service_id;
  operation = q.operation;
  status = s;
  response = answer;
  trust_method = sdk.trust_method;
  evidence = none;
  error = some error;
  retry_count = 0;
}

abbrev pub not_found_text : String → String
not_found_text service_id =
    text_append (text_append "Service '" service_id) "' not found in any discovery node"

module _ (h : Hashing) where
  -- `request_payload`
  unfoldable pub request_payload : Request → Network → Json
  request_payload q net = object (
      field "service_id" (str q.service_id) (
        field "operation" (str q.operation) (
          field "payload" q.payload (
            field "version" (str (or_version net.negotiation.negotiated_version q.version))
              (field "invocation_id" (str q.invocation_id) end)))))

  -- The evidence of an invocation that was carried out, recorded in the chain
  unfoldable pub conclude : Request → Json → Json → Option String → ℕ → Sdk → InvocationResult × Sdk
  conclude q request answer last_error retries sdk =
      let e : InvocationEvidence = record {
        invocation_id = q.invocation_id;
        service_id = q.service_id;
        operation = q.operation;
        request_hash = h.sha256 (h.dumps request);
        response_hash = h.sha256 (h.dumps (or_empty answer));
        trust_method = sdk.trust_method;
        status = status_text (status_of answer);
        evidence_hash = "";
        previous_evidence_hash = "";
      } in
      let (entry, chain) = record_evidence h e sdk.evidence in
      let (given, error) = answered answer last_error in
      (
        record {
          invocation_id = q.invocation_id;
          service_id = q.service_id;
          operation = q.operation;
          status = status_of answer;
          response = given;
          trust_method = sdk.trust_method;
          evidence = some entry;
          error = error;
          retry_count = retries;
        },
        record sdk { evidence = chain },
      )

  -- The attempts and what follows
  unfoldable pub invoke_service : Request → Network → CircuitBreaker → Sdk → InvocationResult × Sdk
  invoke_service q net b sdk =
      let tried = try_from (sdk.max_retries + 1) 0 net none b in
      conclude q (request_payload q net) tried.answer tried.last_error tried.retry_count
        (put_breaker q.service_id tried.breaker sdk)

  -- The mocked answer of a test environment
  abbrev pub mocked : Json
  mocked =
      object (field "status" (str "SUCCESS") (field "message" (str "Mocked by QCG_MOCK_SDK") end))

  abbrev pub returned : InvocationResult × Sdk → Option InvocationResult × Sdk
  returned (r, sdk) = (some r, sdk)

  -- `invoke_capability`, with none for an exception
  unfoldable pub invoke_capability : Bool → Request → Network → Sdk → Option InvocationResult × Sdk
  invoke_capability mock q net sdk =
      let (admitted, b) = allow_request net.now (get_breaker q.service_id sdk) in
      let sdk' = put_breaker q.service_id b sdk in
      if mock
      then returned (conclude q (object (field "payload" q.payload end)) mocked none 0 sdk)
      else if not admitted
      then (
        some (
            refusal circuit_open (object end)
              (text_append "Circuit breaker is OPEN for " q.service_id) q sdk),
        sdk',
      )
      else if net.negotiation.status == "UNSUPPORTED"
      then (
        some (refusal version_rejected net.negotiation.as_dict net.negotiation.message q sdk),
        sdk',
      )
      else if not net.service_found
      then (
        some (refusal service_not_found (object end) (not_found_text q.service_id) q sdk),
        put_breaker q.service_id (record_failure net.now b) sdk',
      )
      else if validate_manifest_raises net.metadata
      then (none, sdk')
      else if not (is_object q.payload)
      then (
        some (
            refusal failed (object end)
              "UNTRUSTED_PAYLOAD: Payload must be a tightly structured dictionary." q sdk),
        sdk',
      )
      else returned (invoke_service q net b sdk')
