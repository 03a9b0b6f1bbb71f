-- ===== src/Execution/Remote/Answered.antt =====
-- runtime_core.py, platform_capability_sdk.py: what an acknowledgement OK says of the remote runtime.
use mathlib.Core.Option.{some-injective}
use bhiv_qcg.Prelude.{
  String, ◌≡◌, refl, ap, ◌∙◌, inl, inr, false, ◌&&◌, Option, none, some, arith, Bool-cases,
}
use bhiv_qcg.Prelude.Hashing.{Hashing, Json}
use bhiv_qcg.Sdk.Invocation.{
  Network, Status, success, failed as attempts_failed, circuit_open, version_rejected,
  service_not_found, InvocationResult, invoke_capability,
}
use bhiv_qcg.Sdk.Invocation.Served.{status_in, IsServed, invoke_capability-iff-IsServed}
use bhiv_qcg.Execution.Contract.{Config, FloatText, ComputationExecutionContract}
use bhiv_qcg.Execution.Core.{ok, Invocation, ExecutionResult, ack_of_invocation, execute}
use bhiv_qcg.Execution.Core.Acknowledged.{
  IsAcknowledged, IsExecuted-iff, execute-iff-IsAcknowledged,
}
use bhiv_qcg.Execution.Remote.{
  SdkConfig, remote_request, invocation_of, new_sdk, is_invoked, is_exception, execute_remotely,
}

answered_lem :
    (read : Json → Invocation) (s : Status) (r : InvocationResult)
    → r.status ≡ s
    → ack_of_invocation (invocation_of read (some r)) ≡ ok
    → s ≡ success
unfolding ack_of_invocation invocation_of
answered_lem read success r e k = refl
answered_lem read attempts_failed r e k = absurd (ground (arith, e, k))
answered_lem read circuit_open r e k = absurd (ground (arith, e, k))
answered_lem read version_rejected r e k = absurd (ground (arith, e, k))
answered_lem read service_not_found r e k = absurd (ground (arith, e, k))

success_lem :
    (read : Json → Invocation) (o : Option InvocationResult)
    → ack_of_invocation (invocation_of read o) ≡ ok
    → status_in o ≡ some success
unfolding ack_of_invocation invocation_of
success_lem read none k = absurd (ground (arith, k))
success_lem read (some r) k = ap some (answered_lem read r.status r refl k)

module _ (h : Hashing) (fl : FloatText) where
  -- Outside a test run, a contract is acknowledged with OK only if it is valid under the configuration,
  -- its confidence is below neither threshold, and the remote runtime was reached: its version was not
  -- rejected, it was found, the validation of its manifest did not raise, and one of the attempts returned, the first of them not `null`.
  pub execute_remotely-IsServed :
      (read : Json → Invocation) (config : Config) (settings : SdkConfig) (invocation_id : String)
      (net : Network) (latest_evidence : String) (c : ComputationExecutionContract)
      (answer : ExecutionResult)
      → execute_remotely h fl read config settings invocation_id net latest_evidence c ≡ some answer
      → answer.ack ≡ ok
      → let q = remote_request fl invocation_id c in
        let sdk = new_sdk h settings in
        IsAcknowledged h fl config false
          (invocation_of read (invoke_capability h false q net sdk).0)
          c
        × IsServed q net sdk
  unfolding execute_remotely
  execute_remotely-IsServed read config settings invocation_id net latest_evidence c answer done e =
      let q = remote_request fl invocation_id c in
      let sdk = new_sdk h settings in
      let o = (invoke_capability h false q net sdk).0 in
      let result = execute h fl config false (λ c'. invocation_of read o) latest_evidence c in
      elim (Bool-cases (is_invoked h fl config c && is_exception o)) [
        | inl broken ↦ absurd (ground (arith, rw broken at done))
        | inr fine ↦
            let same : result ≡ answer = some-injective result answer (rw fine at done) in
            let w : IsAcknowledged h fl config false (invocation_of read o) c =
              (execute-iff-IsAcknowledged h fl config false (λ c'. invocation_of read o)
                  latest_evidence c).0
                (ap (λ (x : ExecutionResult). x.ack) same ∙ e) in
            (
              w,
              (invoke_capability-iff-IsServed h q net sdk).0 (
                  success_lem read o (elim w.executed [
                    | inl test ↦ absurd (ground (arith, test))
                    | inr answered ↦ (IsExecuted-iff h fl (invocation_of read o)).1 answered
                  ])),
            )
      ]
