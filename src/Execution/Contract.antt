-- ===== src/Execution/Contract.antt =====
-- execution_contract.py: `ComputationExecutionContract` and its validation. A confidence is a whole
-- number of ten-thousandths, negative ones included; how a float is printed is a parameter.
use Prim.Native.String.{◌++◌ as text_append}
pub mod Valid
use bhiv_qcg.Prelude.{
  String, Bool, true, false, not, ◌||◌, Option, none, some, List, [], ◌∷◌, ◌==◌, eqb, if◌then◌else◌,
  length, mem,
}
use bhiv_qcg.Prelude.Dict.{Dict}
use bhiv_qcg.Prelude.Order.{ℤ, pos, ltb_ℤ, lex, text_ltb, codes}
use bhiv_qcg.Prelude.Numerals.{split_dots, ints_of}
use bhiv_qcg.Prelude.Hashing.{Hashing, Json, object, fields_from}

-- config.py, as far as this path reads it; the thresholds in ten-thousandths.
pub record Config : Type 0 where
  pub allowed_producer_types : List String
  pub minimum_contract_version : String
  pub corruption_threshold : ℤ
  pub confidence_threshold : ℤ

abbrev pub default_config : Config
default_config = record {
  allowed_producer_types = "CLASSICAL" ∷ "QUANTUM" ∷ "HYBRID" ∷ [];
  minimum_contract_version = "2.0.0";
  corruption_threshold = pos 4000;
  confidence_threshold = pos 7000;
}

-- How Python prints a float: `f"{x}"` and `f"{x:.4f}"`.
pub record FloatText : Type 0 where
  pub plain : ℤ → String
  pub fixed4 : ℤ → String

pub record ComputationExecutionContract : Type 0 where
  pub producer_type : String
  pub payload : Dict Json
  pub confidence : ℤ
  pub trace_id : String
  pub contract_version : String
  pub execution_constraints : Dict Json
  pub payload_hash : String
  pub execution_classification : String
  pub execution_path : String
  pub producer_id : String
  pub producer_signature : String
  pub contract_signature : String
  pub timestamp : String

-- `ContractValidationError`, by what it says
pub data ContractError : Type 0 where
  unauthorized_producer : String → List String → ContractError
  empty_payload : ContractError
  confidence_out_of_range : ℤ → ContractError
  no_trace_id : ContractError
  invalid_version : String → ContractError
  below_minimum : String → String → ContractError
  hash_mismatch : String → String → ContractError
  no_timestamp : ContractError

abbrev pub exactly_three : Option (List ℤ) → Option (List ℤ)
exactly_three none = none
exactly_three (some parts) = if eqb (length parts) 3 then some parts else none

-- `_parse_semver`: `none` where it raises
unfoldable pub parse_semver : String → Option (List ℤ)
parse_semver version = exactly_three (ints_of (split_dots (codes version)))

-- The comparison of the two parsed versions, or the error of the one that does not parse
unfoldable pub version_error :
    Option (List ℤ) → Option (List ℤ) → String → String → Option ContractError
version_error none minimum v m = some (invalid_version v)
version_error (some version) none v m = some (invalid_version m)
version_error (some version) (some minimum) v m =
    if lex ltb_ℤ version minimum then some (below_minimum v m) else none

abbrev pub is_empty {ℓ} : {A : Type ℓ} → List A → Bool
is_empty [] = true
is_empty (x ∷ xs) = false

-- `allowed_producers or config.ALLOWED_PRODUCER_TYPES`
abbrev pub or_allowed : Option (List String) → List String → List String
or_allowed none default = default
or_allowed (some allowed) default = if is_empty allowed then default else allowed

abbrev pub or_version : Option String → String → String
or_version none default = default
or_version (some v) default = if v == "" then default else v

-- The first error of the two: the second test is made only when the first passes.
abbrev pub then_check : Option ContractError → Option ContractError → Option ContractError
then_check none later = later
then_check (some e) later = some e

abbrev pub error_if : Bool → ContractError → Option ContractError
error_if true e = some e
error_if false e = none

module _ (h : Hashing) where
  -- `_canonical_hash`
  unfoldable pub canonical_hash : Dict Json → String
  canonical_hash payload = h.sha256 (h.dumps (object (fields_from (λ j. j) payload)))

  -- `__post_init__`
  unfoldable pub with_hash : ComputationExecutionContract → ComputationExecutionContract
  with_hash c =
      if c.payload_hash == "" then record c { payload_hash = canonical_hash c.payload } else c

  -- `validate_contract`: the error that it raises, if any
  unfoldable pub validate_contract :
      Config
      → Option (List String)
      → Option String
      → ComputationExecutionContract
      → Option ContractError
  validate_contract config allowed_producers minimum_version c =
      let allowed = or_allowed allowed_producers config.allowed_producer_types in
      let minimum = or_version minimum_version config.minimum_contract_version in
      let expected = canonical_hash c.payload in
      then_check
        (error_if (not (mem c.producer_type allowed))
          (unauthorized_producer c.producer_type allowed))
        (then_check (error_if (is_empty c.payload) empty_payload) (
          then_check
            (error_if (ltb_ℤ c.confidence (pos 0) || ltb_ℤ (pos 10000) c.confidence)
              (confidence_out_of_range c.confidence))
            (then_check (error_if (c.trace_id == "") no_trace_id) (
              then_check
                (version_error (parse_semver c.contract_version) (parse_semver minimum)
                  c.contract_version minimum)
                (then_check
                  (error_if (not (c.payload_hash == expected))
                    (hash_mismatch expected c.payload_hash))
                  (error_if (c.timestamp == "") no_timestamp))))))

-- The words of an error. `sorted(allowed)` is printed as Python prints a list of plain texts.
abbrev pub insert_sorted : String → List String → List String
insert_sorted s [] = s ∷ []
insert_sorted s (t ∷ ts) =
    let rest = insert_sorted s ts in if text_ltb t s then t ∷ rest else s ∷ t ∷ ts

abbrev pub sorted : List String → List String
sorted [] = []
sorted (s ∷ ss) = insert_sorted s (sorted ss)

abbrev pub listed : List String → String
listed [] = ""
listed (s ∷ []) = text_append "'" (text_append s "'")
listed (s ∷ t ∷ ss) = text_append "'" (text_append s (text_append "', " (listed (t ∷ ss))))

abbrev pub joined : List String → String
joined [] = ""
joined (s ∷ ss) = text_append s (joined ss)

abbrev pub list_text : List String → String
list_text ss = joined ("[" ∷ listed (sorted ss) ∷ "]" ∷ [])

unfoldable pub error_text : FloatText → ContractError → String
error_text fl (unauthorized_producer p allowed) =
    joined ("Unauthorized producer type '" ∷ p ∷ "'. Allowed: " ∷ list_text allowed ∷ [])
error_text fl empty_payload = "payload must be a non-empty dict."
error_text fl (confidence_out_of_range c) =
    joined ("confidence must be in [0.0, 1.0], got " ∷ fl.plain c ∷ [])
error_text fl no_trace_id = "trace_id must be a non-empty string."
error_text fl (invalid_version v) =
    joined ("Invalid semantic version '" ∷ v ∷ "'. Expected format X.Y.Z" ∷ [])
error_text fl (below_minimum v m) =
    joined (
      "Contract version " ∷ v ∷ " is below minimum " ∷ m ∷ ". Contract downgrade not allowed." ∷ [])
error_text fl (hash_mismatch expected got) =
    joined ("payload_hash mismatch. Expected " ∷ expected ∷ ", got " ∷ got ∷ [])
error_text fl no_timestamp = "timestamp must be a non-empty string."
