-- ===== src/Execution/Governance/Admitted.antt =====
-- governance.py: which contracts reach the core.
use mathlib.Core.List.{append-nil}
use bhiv_qcg.Prelude.{
  ℕ, zero, suc, ◌-◌, ◌≤◌, String, ◌≡◌, refl, sym, ap, ◌≢◌, ◌↔◌, inl, inr, true, false, Option, none,
  some, List, [], ◌∷◌, ◌++◌, arith, Bool-cases, eq_false, length, mem,
}
use bhiv_qcg.Prelude.Hashing.{Hashing}
use bhiv_qcg.Execution.Contract.{
  Config, FloatText, ComputationExecutionContract, ContractError, validate_contract, parse_semver,
  is_empty, or_allowed, or_version,
}
use bhiv_qcg.Execution.Contract.Valid.{IsContract, IsRecent, validate_contract-iff-IsContract}
use bhiv_qcg.Execution.Core.{ExecutionResult}
use bhiv_qcg.Execution.Governance.{
  Violation, Verdict, executed, GovernanceLayer, max_violations, drop_first, extend,
  producer_violations, version_violation, schema_violation, observed, policy_1, policy_2, policy_3,
  delegate, after, enforce,
}

module _ (h : Hashing) (fl : FloatText) (config : Config)
    (core : ComputationExecutionContract → ExecutionResult) where
  -- In strict mode only a policy without a violation lets the next one follow.
  after_strict :
      (vs so_far : List Violation) (g : GovernanceLayer)
      (next : List Violation → Verdict × List Violation × GovernanceLayer) (r : ExecutionResult)
      → g.strict ≡ true
      → ((after h fl config core vs so_far g next).0 ≡ executed r)
        ↔ ((vs ≡ []) × ((next so_far).0 ≡ executed r))
  after_strict [] so_far g next r s = ((λ e. (refl, e)), (λ k. k.1))
  after_strict (v ∷ vs) so_far g next r s =
      rw s ((λ e. absurd (ground (arith, e))), (λ k. absurd (ground (arith, k.0))))

  after_permissive :
      (vs so_far : List Violation) (g : GovernanceLayer)
      (next : List Violation → Verdict × List Violation × GovernanceLayer)
      → g.strict ≡ false
      → after h fl config core vs so_far g next ≡ next (so_far ++ vs)
  after_permissive [] so_far g next s = ap next (sym (append-nil so_far))
  after_permissive (v ∷ vs) so_far g next s = rw s refl

  producer_violations_iff :
      (g : GovernanceLayer) (c : ComputationExecutionContract)
      → mem c.producer_type g.allowed_producers ≡ true
      → producer_violations g c ≡ []
  unfolding producer_violations
  producer_violations_iff g c m = rw m refl

  version_violation_none :
      (g : GovernanceLayer) (c : ComputationExecutionContract)
      → IsRecent c.contract_version g.minimum_version
      → version_violation (parse_semver c.contract_version) (parse_semver g.minimum_version) g c
        ≡ []
  unfolding version_violation
  version_violation_none g c r = rw (r.parses, r.bound_parses, r.not_below) refl

  schema_violation_iff :
      (o : Option ContractError) (trace_id : String)
      → (schema_violation o trace_id ≡ []) ↔ (o ≡ none)
  schema_violation_iff none trace_id = ((λ e. refl), (λ e. refl))
  schema_violation_iff (some x) trace_id =
      ((λ e. absurd (ground (arith, e))), (λ e. absurd (ground (arith, e))))

  defaults :
      (g : GovernanceLayer)
      → is_empty g.allowed_producers ≡ false
      → g.minimum_version ≢ ""
      → (or_allowed (some g.allowed_producers) config.allowed_producer_types ≡ g.allowed_producers)
        × (or_version (some g.minimum_version) config.minimum_contract_version ≡ g.minimum_version)
  defaults g some_allowed named = (rw some_allowed refl, rw (eq_false _ _ named) refl)

  -- A strict layer with some allowed producers and a minimum version lets exactly the contracts through
  -- that are valid under its own producers and minimum version, and its answer to them is that of the
  -- core.
  pub enforce_strict :
      (g : GovernanceLayer) (c : ComputationExecutionContract)
      → g.strict ≡ true
      → is_empty g.allowed_producers ≡ false
      → g.minimum_version ≢ ""
      → ((enforce h fl config core g c).0 ≡ executed (core c))
        ↔ IsContract h g.allowed_producers g.minimum_version c
  unfolding enforce policy_1 policy_2 policy_3 delegate
  enforce_strict g c strict some_allowed named =
      let (allowed, minimum) = defaults g some_allowed named in
      let checked =
        validate_contract h config (some g.allowed_producers) (some g.minimum_version) c in
      let valid : (checked ≡ none) ↔ IsContract h g.allowed_producers g.minimum_version c =
        rw (allowed, minimum) at
          (validate_contract-iff-IsContract h config (some g.allowed_producers)
            (some g.minimum_version) c) in
      let p1 = producer_violations g c in
      let p2 =
        version_violation (parse_semver c.contract_version) (parse_semver g.minimum_version) g c in
      let p3 = schema_violation checked c.trace_id in
      let last = λ (vs : List Violation). delegate h fl config core vs g c in
      let third = λ (vs : List Violation). after h fl config core p3 vs g last in
      let second = λ (vs : List Violation). after h fl config core p2 vs g third in
      let first = after_strict p1 [] g second (core c) strict in
      let then_second = after_strict p2 [] g third (core c) strict in
      let then_third = after_strict p3 [] g last (core c) strict in
      (
        (λ e.
            let a = then_third.0 (then_second.0 (first.0 e).1).1 in
            valid.0 ((schema_violation_iff checked c.trace_id).0 a.0)),
        (λ k. first.1 (
          producer_violations_iff g c k.producer_allowed,
          then_second.1 (
            version_violation_none g c k.is_recent,
            then_third.1 ((schema_violation_iff checked c.trace_id).1 (valid.1 k), refl),
          ),
        )),
      )

  -- A layer that is not strict hands every contract to the core, answers what the core answers, and
  -- reports the violations of the three policies in their order, then what it observes of the answer.
  enforce_permissive :
      (g : GovernanceLayer) (c : ComputationExecutionContract)
      → g.strict ≡ false
      → let (verdict, violations, g') = enforce h fl config core g c in
        (verdict ≡ executed (core c))
        × (violations
            ≡ ((policy_1 h fl config core g c ++ policy_2 h fl config core g c)
                ++ policy_3 h fl config core g c)
              ++ observed fl c (core c).ack)
  unfolding enforce delegate
  enforce_permissive g c lenient =
      rw
        (
          after_permissive (policy_1 h fl config core g c) [] g _ lenient,
          after_permissive (policy_2 h fl config core g c) _ g _ lenient,
          after_permissive (policy_3 h fl config core g c) _ g _ lenient,
        )
        (refl, refl)

length-drop_first : (n : ℕ) (vs : List Violation) → length (drop_first n vs) ≡ length vs - n
unfolding drop_first
length-drop_first zero vs = omega arith
length-drop_first (suc n) [] = omega arith
length-drop_first (suc n) (v ∷ vs) = omega (arith, length-drop_first n vs)

length-extend : (cap : ℕ) (log vs : List Violation) → length (extend cap log vs) ≤ cap
unfolding extend
length-extend cap log vs = omega (arith, length-drop_first (length (log ++ vs) - cap) (log ++ vs))

module _ (h : Hashing) (fl : FloatText) (config : Config)
    (core : ComputationExecutionContract → ExecutionResult) where
  after_bounded :
      (vs so_far : List Violation) (g : GovernanceLayer)
      (next : List Violation → Verdict × List Violation × GovernanceLayer)
      → ((us : List Violation) → length (next us).2.violations ≤ max_violations)
      → length (after h fl config core vs so_far g next).2.violations ≤ max_violations
  after_bounded [] so_far g next bound = bound so_far
  after_bounded (v ∷ vs) so_far g next bound = elim (Bool-cases g.strict) [
    | inl strict ↦ rw strict (length-extend max_violations g.violations (so_far ++ v ∷ vs))
    | inr lenient ↦ rw lenient (bound (so_far ++ v ∷ vs))
  ]

  delegate_bounded :
      (vs : List Violation) (g : GovernanceLayer) (c : ComputationExecutionContract)
      → length (delegate h fl config core vs g c).2.violations ≤ max_violations
  unfolding delegate
  delegate_bounded vs g c = length-extend max_violations _ (observed fl c (core c).ack)

  -- Whatever the log of the layer held, after a call of `enforce` it holds at most 10,000 violations.
  enforce_bounded :
      (g : GovernanceLayer) (c : ComputationExecutionContract)
      → length (enforce h fl config core g c).2.violations ≤ max_violations
  unfolding enforce
  enforce_bounded g c = after_bounded (policy_1 h fl config core g c) [] g _ (λ vs.
      after_bounded (policy_2 h fl config core g c) vs g _ (λ us.
        after_bounded (policy_3 h fl config core g c) us g _ (λ ws. delegate_bounded ws g c)))
