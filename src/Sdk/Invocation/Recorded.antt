-- ===== src/Sdk/Invocation/Recorded.antt =====
-- platform_capability_sdk.py: the evidence chain of an SDK over its whole life.
use bhiv_qcg.Prelude.{ℕ, String, ◌≡◌, Bool, true, Option, none, List, [], ◌∷◌, arith, eq_refl}
use bhiv_qcg.Prelude.Hashing.{Hashing, Json, object, field, end}
use bhiv_qcg.Sdk.Breaker.{allow_request, CircuitBreaker}
use bhiv_qcg.Sdk.Evidence.{verify_chain, genesis, new_chain, record_evidence_intact}
use bhiv_qcg.Sdk.Invocation.{
  Network, Request, Sdk, mocked, get_breaker, put_breaker, conclude, invoke_service,
  invoke_capability,
}

-- One invocation: whether the answers are mocked, what is asked, and what the network does
pub record Call : Type 0 where
  pub mock : Bool
  pub request : Request
  pub network : Network

module _ (h : Hashing) where
  abbrev pub run_call : Call → Sdk → Sdk
  run_call c sdk = (invoke_capability h c.mock c.request c.network sdk).1

  unfoldable pub run : List Call → Sdk → Sdk
  run [] sdk = sdk
  run (c ∷ cs) sdk = run cs (run_call c sdk)

  abbrev IsIntact : Sdk → Type 0
  IsIntact sdk = verify_chain h sdk.evidence ≡ true

  conclude-IsIntact :
      (q : Request) (request : Json) (answer : Json) (error : Option String) (retries : ℕ)
      (sdk : Sdk)
      → IsIntact sdk
      → IsIntact (conclude h q request answer error retries sdk).1
  unfolding conclude
  conclude-IsIntact q request answer error retries sdk v = record_evidence_intact h _ sdk.evidence v

  invoke_service-IsIntact :
      (q : Request) (net : Network) (b : CircuitBreaker) (sdk : Sdk)
      → IsIntact sdk
      → IsIntact (invoke_service h q net b sdk).1
  unfolding invoke_service
  invoke_service-IsIntact q net b sdk v =
      conclude-IsIntact q _ _ _ _ (put_breaker q.service_id _ sdk) v

  run_call-IsIntact : (c : Call) (sdk : Sdk) → IsIntact sdk → IsIntact (run_call c sdk)
  unfolding invoke_capability
  run_call-IsIntact c sdk v =
      let q = c.request in
      let (admitted, b) = allow_request c.network.now (get_breaker q.service_id sdk) in
      let mocked_v =
        conclude-IsIntact q (object (field "payload" q.payload end)) (mocked h) none 0 sdk v in
      let served_v = invoke_service-IsIntact q c.network b (put_breaker q.service_id b sdk) v in
      ground (arith, mocked_v, served_v, v)

  run-IsIntact : (cs : List Call) (sdk : Sdk) → IsIntact sdk → IsIntact (run cs sdk)
  unfolding run
  run-IsIntact [] sdk v = v
  run-IsIntact (c ∷ cs) sdk v = run-IsIntact cs (run_call c sdk) (run_call-IsIntact c sdk v)

  -- After any invocations of a new SDK, whatever the network did, whether the answers were mocked,
  -- and whatever was refused, the evidence chain of the SDK verifies.
  invocations_verify :
      (sdk : Sdk) (cs : List Call)
      → sdk.evidence ≡ new_chain h
      → verify_chain h (run cs sdk).evidence ≡ true
  unfolding verify_chain bhiv_qcg.Chain.verify_from
  invocations_verify sdk cs new = run-IsIntact cs sdk (rw new (eq_refl (genesis h)))
