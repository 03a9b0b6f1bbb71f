-- ===== src/Execution/Governance.antt =====
-- governance.py: `GovernanceLayer.enforce`. What it calls the core is an argument, so that the layer
-- stands apart from it; a violation carries what its details are formatted from. The set of allowed
-- producers and the minimum version of the layer are those after the defaults are put in.
pub mod Admitted
use Prim.Native.String.{◌++◌ as text_append}
use bhiv_qcg.Prelude.{
  ℕ, zero, suc, ◌-◌, String, Bool, Option, none, some, List, [], ◌∷◌, ◌++◌, if◌then◌else◌, length,
  mem,
}
use bhiv_qcg.Prelude.Order.{ℤ, pos, ltb_ℤ, lex}
use bhiv_qcg.Prelude.Hashing.{Hashing}
use bhiv_qcg.Execution.Contract.{
  Config, FloatText, ComputationExecutionContract, ContractError, unauthorized_producer,
  below_minimum, validate_contract, parse_semver, invalid_version,
}
use bhiv_qcg.Execution.Core.{Ack, ack_text, invalid_contract, ExecutionResult, is_part}

pub data Violation : Type 0 where
  unauthorized : String → String → List String → Violation
  downgrade : String → String → String → Violation
  invalid : String → ContractError → Violation
  replay_mismatch : String → Violation
  low_confidence : String → Ack → Violation

-- What the layer answers: its own HALT, or the result of the core.
pub data Verdict : Type 0 where
  halted : Violation → Verdict
  executed : ExecutionResult → Verdict

pub record GovernanceLayer : Type 0 where
  pub strict : Bool
  pub allowed_producers : List String
  pub minimum_version : String
  pub violations : List Violation

-- `_MAX_VIOLATIONS`, and `deque(maxlen=...)`: the oldest go first
abbrev pub max_violations : ℕ
max_violations = 10_000

unfoldable pub drop_first : ℕ → List Violation → List Violation
drop_first zero vs = vs
drop_first (suc n) [] = []
drop_first (suc n) (v ∷ vs) = drop_first n vs

unfoldable pub extend : ℕ → List Violation → List Violation → List Violation
extend cap log vs = drop_first (length (log ++ vs) - cap) (log ++ vs)

-- Policy 1
unfoldable pub producer_violations : GovernanceLayer → ComputationExecutionContract → List Violation
producer_violations g c =
    if mem c.producer_type g.allowed_producers
    then []
    else unauthorized c.trace_id c.producer_type g.allowed_producers ∷ []

-- Policy 2
unfoldable pub version_violation :
    Option (List ℤ)
    → Option (List ℤ)
    → GovernanceLayer
    → ComputationExecutionContract
    → List Violation
version_violation none minimum g c = invalid c.trace_id (invalid_version c.contract_version) ∷ []
version_violation (some v) none g c = invalid c.trace_id (invalid_version g.minimum_version) ∷ []
version_violation (some v) (some m) g c =
    if lex ltb_ℤ v m then downgrade c.trace_id c.contract_version g.minimum_version ∷ [] else []

-- Policy 3
abbrev pub schema_violation : Option ContractError → String → List Violation
schema_violation none trace_id = []
schema_violation (some e) trace_id = invalid trace_id e ∷ []

-- What is observed of the core's answer
unfoldable pub observed : FloatText → ComputationExecutionContract → Ack → List Violation
observed fl c ack =
    (if is_part "REPLAY_DETECTED" (ack_text fl ack) then replay_mismatch c.trace_id ∷ [] else [])
    ++ (if is_part "LOW_CONFIDENCE" (ack_text fl ack)
        then low_confidence c.trace_id ack ∷ []
        else [])

module _ (h : Hashing) (fl : FloatText) (config : Config)
    (core : ComputationExecutionContract → ExecutionResult) where
  -- The violations of the three policies, in their order
  unfoldable pub policy_1 : GovernanceLayer → ComputationExecutionContract → List Violation
  policy_1 g c = producer_violations g c

  unfoldable pub policy_2 : GovernanceLayer → ComputationExecutionContract → List Violation
  policy_2 g c =
      version_violation (parse_semver c.contract_version) (parse_semver g.minimum_version) g c

  unfoldable pub policy_3 : GovernanceLayer → ComputationExecutionContract → List Violation
  policy_3 g c =
      schema_violation
        (validate_contract h config (some g.allowed_producers) (some g.minimum_version) c)
        c.trace_id

  -- The contract goes to the core, and its answer is observed. `extend` is called once for the
  -- violations so far and once for each observed one.
  unfoldable pub delegate :
      List Violation
      → GovernanceLayer
      → ComputationExecutionContract
      → Verdict × List Violation × GovernanceLayer
  delegate vs g c =
      let answer = core c in
      let seen = observed fl c answer.ack in
      (
        executed answer,
        vs ++ seen,
        record g {
          violations = extend max_violations (extend max_violations g.violations vs) seen;
        },
      )

  abbrev pub halt :
      Violation → List Violation → GovernanceLayer → Verdict × List Violation × GovernanceLayer
  halt v vs g = (halted v, vs, record g { violations = extend max_violations g.violations vs })

  -- In strict mode a policy's violation halts; else the next policy follows.
  abbrev pub after :
      List Violation
      → List Violation
      → GovernanceLayer
      → (List Violation → Verdict × List Violation × GovernanceLayer)
      → Verdict × List Violation × GovernanceLayer
  after [] vs g next = next vs
  after (v ∷ more) vs g next = if g.strict then halt v (vs ++ v ∷ more) g else next (vs ++ v ∷ more)

  -- `enforce`
  unfoldable pub enforce :
      GovernanceLayer → ComputationExecutionContract → Verdict × List Violation × GovernanceLayer
  enforce g c = after (policy_1 g c) [] g (λ vs.
      after (policy_2 g c) vs g (λ vs'. after (policy_3 g c) vs' g (λ vs''. delegate vs'' g c)))

-- `clear_violations`
abbrev pub clear_violations : GovernanceLayer → GovernanceLayer
clear_violations g = record g { violations = [] }
