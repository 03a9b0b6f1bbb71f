-- ===== src/Examples/Sdk.antt =====
-- A circuit breaker that opens and is probed, and invocations that retry, fail and are refused.
use bhiv_qcg.Prelude.{
  ℕ, ◌+◌, ◌≡◌, refl, ◌↔◌, true, false, none, some, List, [], ◌∷◌, arith, eqb, if◌then◌else◌,
}
use bhiv_qcg.Prelude.Hashing.{Hashing, str, object, field, end}
use bhiv_qcg.Prelude.Dict.{lookup}
use bhiv_qcg.Sdk.Breaker.{new_breaker, allow_request, current}
use bhiv_qcg.Sdk.Breaker.Refined.{
  Call, asks, succeeds, fails, run, passes, tally, allow_request_refines,
}
use mathlib.Core.Option.{map as option_map}
use bhiv_qcg.Sdk.Manifest.{
  Attempt, response, raised, validate_manifest_raises, fetch_metadata, has_text, get_or,
  manifest_raises, operations_raise,
}
use bhiv_qcg.Sdk.Evidence.{new_chain, record_evidence}
use bhiv_qcg.Sdk.Invocation.{
  Network, Request, success, service_not_found, Sdk, get_breaker, try_from, conclude,
  invoke_service, invoke_capability, InvocationResult,
}
use bhiv_qcg.Sdk.Invocation.Served.{status_in, IsServed, invoke_capability-iff-IsServed}
use bhiv_qcg.Examples.Toy.{plain}

abbrev h : Hashing
h = plain "invocation_id"

-- Two failures open the breaker; it is probed 30 seconds after the second.
abbrev calls : List (ℕ × Call)
calls = (1000, asks) ∷ (1000, fails) ∷ (2000, succeeds) ∷ (3000, fails) ∷ (4000, fails) ∷ []

allow_request_refines_example :
    (allow_request 34000 (run calls (new_breaker 2 30000))).0
    ≡ passes 2 30000 34000 (tally calls (record { failures = 0; last = 0 }))
allow_request_refines_example =
    allow_request_refines 2 30000 34000 calls (omega arith)
      (omega arith, (omega arith, (omega arith, (omega arith, (omega arith, omega arith)))))

abbrev sdk : Sdk
sdk = record {
  max_retries = 1;
  threshold = 2;
  timeout = 30000;
  trust_method = "NODE_SIGNATURE";
  breakers = [];
  evidence = new_chain h;
}

abbrev request : Request
request = record {
  invocation_id = "inv-1";
  service_id = "svc";
  operation = "run";
  payload = object end;
  version = "1.0.0";
}

abbrev second_try : ℕ → Attempt
second_try i = if eqb i 1 then response (str "done") else raised "timeout"

abbrev network : Network
network = record {
  negotiation = record {
    status = "COMPATIBLE";
    negotiated_version = none;
    message = "";
    as_dict = object end;
  };
  service_found = true;
  metadata = response (object end) ∷ [];
  attempt = second_try;
  attempt_time = λ i. 5000 + i;
  now = 5000;
}

invoke_capability-iff-IsServed_example :
    (status_in (invoke_capability h false request network sdk).0 ≡ some success)
    ↔ IsServed request network sdk
invoke_capability-iff-IsServed_example = invoke_capability-iff-IsServed h request network sdk

retried :
    option_map
      (λ (r : InvocationResult). r.retry_count)
      (invoke_capability h false request network sdk).0
    ≡ some 1
unfolding validate_manifest_raises fetch_metadata has_text invoke_capability invoke_service try_from
    conclude record_evidence allow_request current get_breaker lookup
retried = refl

lost :
    status_in (invoke_capability h false request (record network { service_found = false }) sdk).0
    ≡ some service_not_found
unfolding invoke_capability allow_request current get_breaker lookup validate_manifest_raises
    fetch_metadata has_text get_or manifest_raises operations_raise
lost = refl

-- A manifest that is a text makes the validation, and with it the invocation, raise.
malformed :
    (invoke_capability h false request
      (record network { metadata = response (object (field "manifest" (str "v1") end)) ∷ [] })
      sdk).0
    ≡ none
unfolding invoke_capability allow_request current get_breaker lookup validate_manifest_raises
    fetch_metadata has_text get_or manifest_raises operations_raise
malformed = refl
