-- ===== src/Execution/Core/Acknowledged.antt =====
-- runtime_core.py: when `execute` acknowledges a contract.
use bhiv_qcg.Prelude.{
  String, ◌≡◌, refl, ◌↔◌, ◌⊎◌, inl, inr, Bool, true, false, Option, none, some, arith,
}
use bhiv_qcg.Prelude.Order.{ltb_ℤ}
use bhiv_qcg.Prelude.Hashing.{Hashing}
use bhiv_qcg.Execution.Contract.{
  Config, FloatText, ComputationExecutionContract, ContractError, validate_contract,
}
use bhiv_qcg.Execution.Contract.Valid.{IsContract, validate_contract-iff-IsContract}
use bhiv_qcg.Execution.Core.{
  ok, Invocation, failed, responded, is_part, ack_of_invocation, result, ack_by_confidence, ack_of,
  execute,
}

module _ (h : Hashing) (fl : FloatText) where
  -- The remote runtime was invoked, and the status of its response does not contain FAIL.
  abbrev pub IsExecuted : Invocation → Type 0
  IsExecuted invocation =
      (status : String) × (message : String) × (invocation ≡ responded status message)
      × (is_part "FAIL" status ≡ false)

  pub IsExecuted-iff : (i : Invocation) → (ack_of_invocation i ≡ ok) ↔ IsExecuted i
  unfolding ack_of_invocation
  IsExecuted-iff (failed e) =
      ((λ k. absurd (ground (arith, k))), (λ (s, m, e', p). absurd (ground (arith, e'))))
  IsExecuted-iff (responded s m) =
      ((λ k. (s, m, refl, ground (arith, k))), (λ (s', m', e', p). ground (arith, e', p)))

  -- What the acknowledgement OK stands for.
  pub record IsAcknowledged (config : Config) (under_test : Bool) (invocation : Invocation)
      (c : ComputationExecutionContract) : Type 0 where
    pub is_contract : IsContract h config.allowed_producer_types config.minimum_contract_version c
    pub not_corrupt : ltb_ℤ c.confidence config.corruption_threshold ≡ false
    pub confident : ltb_ℤ c.confidence config.confidence_threshold ≡ false
    pub executed : (under_test ≡ true) ⊎ IsExecuted invocation

  by_confidence_iff :
      (config : Config) (under_test : Bool) (invocation : Invocation)
      (c : ComputationExecutionContract)
      → (ack_by_confidence h fl config under_test invocation c ≡ ok) ↔ (
          (ltb_ℤ c.confidence config.corruption_threshold ≡ false)
          × (ltb_ℤ c.confidence config.confidence_threshold ≡ false)
          × ((under_test ≡ true) ⊎ (ack_of_invocation invocation ≡ ok)))
  unfolding ack_by_confidence
  by_confidence_iff config under_test invocation c =
      ((λ e. (ground arith, ground arith, ground arith)), (λ k. ground arith))

  ack_of_iff :
      (o : Option ContractError) (config : Config) (under_test : Bool) (invocation : Invocation)
      (c : ComputationExecutionContract)
      → (ack_of h fl o config under_test invocation c ≡ ok)
        ↔ ((o ≡ none) × (ack_by_confidence h fl config under_test invocation c ≡ ok))
  unfolding ack_of
  ack_of_iff none config under_test invocation c = ((λ e. (refl, e)), (λ k. k.1))
  ack_of_iff (some x) config under_test invocation c =
      ((λ e. absurd (ground (arith, e))), (λ k. absurd (ground (arith, k.0))))

  pub execute-iff-IsAcknowledged :
      (config : Config) (under_test : Bool) (invoke : ComputationExecutionContract → Invocation)
      (latest_evidence : String) (c : ComputationExecutionContract)
      → ((execute h fl config under_test invoke latest_evidence c).ack ≡ ok)
        ↔ IsAcknowledged config under_test (invoke c) c
  unfolding execute result
  execute-iff-IsAcknowledged config under_test invoke latest_evidence c =
      let valid = validate_contract-iff-IsContract h config none none c in
      let outer =
        ack_of_iff (validate_contract h config none none c) config under_test (invoke c) c in
      let inner = by_confidence_iff config under_test (invoke c) c in
      (
        (λ e.
            let passed = outer.0 e in
            let k = inner.0 passed.1 in
            record {
              is_contract = valid.0 passed.0;
              not_corrupt = k.0;
              confident = k.1;
              executed = elim k.2 [
                | inl test ↦ inl test
                | inr answered ↦ inr ((IsExecuted-iff (invoke c)).0 answered)
              ];
            }),
        (λ a. outer.1 (
          valid.1 a.is_contract,
          inner.1 (
            a.not_corrupt,
            a.confident,
            elim a.executed [
              | inl test ↦ inl test
              | inr answered ↦ inr ((IsExecuted-iff (invoke c)).1 answered)
            ],
          ),
        )),
      )
