-- ===== src/Gateway/Contract.antt =====
-- models.py: the validated records of the pipeline. A float is a fraction with a sign (each finite
-- float is one). A contract keeps the two counts in place of the confidence and the uncertainty, which
-- are computed from them.
use Prim.Native.String.{count}
use Prim.Native.Char.{code}
use bhiv_qcg.Prelude.Numerals.{is_space}
use bhiv_qcg.Prelude.{
  ℕ, String, Bool, not, ◌&&◌, ◌||◌, List, ◌==◌, ltb, leb, eqb, if◌then◌else◌, length, mem,
}
use bhiv_qcg.Prelude.Dict.{Dict}

pub record Real : Type 0 where
  pub is_negative : Bool
  pub numerator : ℕ
  pub denominator : ℕ

-- `0.0 <= x <= 1.0`
abbrev pub in_unit : Real → Bool
in_unit x =
    (not x.is_negative || eqb x.numerator 0) && (x.is_negative || leb x.numerator x.denominator)

unfoldable pub strip_left : String → String
strip_left String.[] = ""
strip_left (String.◌∷◌ c s) =
    let rest = strip_left s in if is_space (code c) then rest else String.◌∷◌ c s

unfoldable pub strip_right : String → String
strip_right String.[] = ""
strip_right (String.◌∷◌ c s) =
    let rest = strip_right s in if is_space (code c) && (rest == "") then "" else String.◌∷◌ c rest

unfoldable pub strip : String → String
strip s = strip_left (strip_right s)

pub record Config : Type 0 where
  pub shots : ℕ
  pub max_message_length : ℕ
  pub supported_modes : List String
  -- CONFIDENCE_THRESHOLD and CORRUPTION_THRESHOLD, in hundredths
  pub confidence_threshold : ℕ
  pub corruption_threshold : ℕ
  pub rate_limit_per_minute : ℕ
  pub contract_version : String

pub data InputError : Type 0 where
  empty_message noise_range empty_counts : InputError
  message_length : ℕ → ℕ → InputError
  unsupported_mode : String → InputError
  shots_not_positive : InputError

pub record TransmissionRequest : Type 0 where
  pub message : String
  pub noise : Real
  pub mode : String

-- The outcome of code that may raise.
pub data Checked {ℓ} (A : Type ℓ) : Type ℓ where
  pass : A → Checked A
  raise : InputError → Checked A

-- `TransmissionRequest(message=, noise=, mode=)`
unfoldable pub make_request : Config → String → Real → String → Checked TransmissionRequest
make_request c message noise mode =
    let stripped = strip message in
    if stripped == ""
    then raise empty_message
    else if ltb c.max_message_length (count stripped)
    then raise (message_length (count stripped) c.max_message_length)
    else if not (in_unit noise)
    then raise noise_range
    else if not (mem mode c.supported_modes)
    then raise (unsupported_mode mode)
    else pass (record { message = stripped; noise = noise; mode = mode })

pub record QuantumDistribution : Type 0 where
  pub encoded_bits : String
  pub transmission_mode : String
  pub noise_factor : Real
  pub shots : ℕ
  pub counts : Dict ℕ
  pub seed : ℕ

-- `QuantumDistribution.__post_init__`
unfoldable pub check_distribution : QuantumDistribution → Checked QuantumDistribution
check_distribution d =
    if eqb (length d.counts) 0
    then raise empty_counts
    else if eqb d.shots 0
    then raise shots_not_positive
    else pass d

pub data TransmissionStatus : Type 0 where
  ok degraded rejected : TransmissionStatus

-- What `decoded_message` holds
pub data Decoded : Type 0 where
  message : String → Decoded
  corrupted : String → String → Decoded

pub record ClassicalContract : Type 0 where
  pub trace_id : String
  -- the dominant count and the total, of which `confidence` is the rounded quotient
  pub dominant_count : ℕ
  pub total_count : ℕ
  pub decoded_message : Decoded
  pub transmission_status : TransmissionStatus
  pub contract_version : String
