-- ===== src/Execution/Contract/Valid.antt =====
-- execution_contract.py: which contracts `validate_contract` accepts.
use mathlib.Core.Option.{some-injective}
use bhiv_qcg.Prelude.{
  String, ◌≡◌, refl, sym, ◌∙◌, ◌≢◌, ◌↔◌, inl, inr, Bool, true, false, Option, none, some, List, [],
  ◌∷◌, arith, eq_iff, Bool-cases, eq_false, mem,
}
use bhiv_qcg.Prelude.Order.{ℤ, pos, ltb_ℤ, lex}
use bhiv_qcg.Prelude.Hashing.{Hashing}
use bhiv_qcg.Execution.Contract.{
  Config, ComputationExecutionContract, ContractError, parse_semver, version_error, is_empty,
  or_allowed, or_version, then_check, error_if, canonical_hash, validate_contract,
}

-- Both parse, and the first is not below the second.
pub record IsRecent (version minimum : String) : Type 0 where
  pub parsed : List ℤ
  pub bound : List ℤ
  pub parses : parse_semver version ≡ some parsed
  pub bound_parses : parse_semver minimum ≡ some bound
  pub not_below : lex ltb_ℤ parsed bound ≡ false

pub record IsContract (h : Hashing) (allowed : List String) (minimum : String)
    (c : ComputationExecutionContract) : Type 0 where
  pub producer_allowed : mem c.producer_type allowed ≡ true
  pub has_payload : c.payload ≢ []
  pub not_negative : ltb_ℤ c.confidence (pos 0) ≡ false
  pub at_most_one : ltb_ℤ (pos 10000) c.confidence ≡ false
  pub has_trace_id : c.trace_id ≢ ""
  pub is_recent : IsRecent c.contract_version minimum
  pub is_intact : c.payload_hash ≡ canonical_hash h c.payload
  pub has_timestamp : c.timestamp ≢ ""

-- The chain of tests gives no error exactly when each test passes.
checks_iff :
    (b1 b2 b3 b4 : Bool) (o : Option ContractError) (b6 b7 : Bool)
    (e1 e2 e3 e4 e6 e7 : ContractError)
    → (then_check (error_if b1 e1) (
          then_check (error_if b2 e2) (
            then_check (error_if b3 e3) (
              then_check
                (error_if b4 e4)
                (then_check o (then_check (error_if b6 e6) (error_if b7 e7))))))
        ≡ none)
      ↔ ((b1 ≡ false)
          × (b2 ≡ false)
          × (b3 ≡ false)
          × (b4 ≡ false)
          × (o ≡ none)
          × (b6 ≡ false)
          × (b7 ≡ false))
checks_iff b1 b2 b3 b4 o b6 b7 e1 e2 e3 e4 e6 e7 = (
  (λ e. (
    ground arith,
    ground arith,
    ground arith,
    ground arith,
    ground arith,
    ground arith,
    ground arith,
  )),
  (λ k. ground arith),
)

version_error_iff :
    (v m : String) (a b : Option (List ℤ))
    → parse_semver v ≡ a
    → parse_semver m ≡ b
    → (version_error a b v m ≡ none) ↔ IsRecent v m
unfolding version_error
version_error_iff v m none b p q =
    ((λ e. absurd (ground (arith, e))), (λ r. absurd (ground (arith, p, r.parses))))
version_error_iff v m (some x) none p q =
    ((λ e. absurd (ground (arith, e))), (λ r. absurd (ground (arith, q, r.bound_parses))))
version_error_iff v m (some x) (some y) p q = elim (Bool-cases (lex ltb_ℤ x y)) [
  | inl less ↦
      let clash : lex ltb_ℤ x y ≢ false = λ e. ground (arith, less, e) in
      rw less (
        (λ e. absurd (ground (arith, e))),
        (λ r. absurd (
            clash (
              rw
                (
                  some-injective x r.parsed (sym p ∙ r.parses),
                  some-injective y r.bound (sym q ∙ r.bound_parses),
                )
                r.not_below))),
      )
  | inr not_less ↦ rw not_less (
    (λ e. record { parsed = x; bound = y; parses = p; bound_parses = q; not_below = not_less }),
    (λ r. refl),
  )
]

is_empty_iff {ℓ} : {A : Type ℓ} (xs : List A) → (is_empty xs ≡ false) ↔ (xs ≢ [])
is_empty_iff [] = ((λ e. absurd (ground (arith, e))), (λ n. absurd (n refl)))
is_empty_iff (x ∷ xs) = ((λ e n. cc), (λ n. refl))

module _ (h : Hashing) where
  -- `validate_contract` raises nothing exactly when the producer is allowed, the payload is not empty,
  -- the confidence lies between 0 and 1, trace id and time stamp are not empty, the version parses and
  -- is at least the minimum, which parses too, and the payload hash is that of the payload. An absent or
  -- empty set of producers or minimum version stands for that of the configuration.
  pub validate_contract-iff-IsContract :
      (config : Config) (producers : Option (List String)) (version : Option String)
      (c : ComputationExecutionContract)
      → (validate_contract h config producers version c ≡ none)
        ↔ IsContract h
            (or_allowed producers config.allowed_producer_types)
            (or_version version config.minimum_contract_version)
            c
  unfolding validate_contract
  validate_contract-iff-IsContract config producers version c =
      let minimum = or_version version config.minimum_contract_version in
      let expected = canonical_hash h c.payload in
      let recent = version_error_iff c.contract_version minimum _ _ refl refl in
      let checks = checks_iff _ _ _ _ _ _ _ _ _ _ _ _ _ in
      (
        (λ e.
            let passed = checks.0 e in
            record {
              producer_allowed = ground (arith, passed);
              has_payload = (is_empty_iff c.payload).0 passed.1;
              not_negative = ground (arith, passed);
              at_most_one = ground (arith, passed);
              has_trace_id = λ p. ground (arith, (eq_iff c.trace_id "").1 p, passed);
              is_recent = recent.0 passed.4;
              is_intact = (eq_iff c.payload_hash expected).0 (ground (arith, passed));
              has_timestamp = λ p. ground (arith, (eq_iff c.timestamp "").1 p, passed);
            }),
        (λ k. checks.1 (
          rw k.producer_allowed refl,
          (is_empty_iff c.payload).1 k.has_payload,
          rw (k.not_negative, k.at_most_one) refl,
          eq_false c.trace_id "" k.has_trace_id,
          recent.1 k.is_recent,
          rw ((eq_iff c.payload_hash expected).1 k.is_intact) refl,
          eq_false c.timestamp "" k.has_timestamp,
        )),
      )
