-- ===== src/Gateway/Translation.antt =====
-- translation_layer.py, and the producer's encoding in quantum_producer.py. A confidence is the pair
-- of counts whose quotient it is: the comparisons are exact, the rounding to four digits is left out.
use Prim.Native.String.{◌++◌ as text_append}
use bhiv_qcg.Prelude.{
  ℕ, ◌+◌, ◌*◌, ◌%◌, String, Bool, not, Option, none, some, [], ◌∷◌, ◌==◌, ltb, eqb, if◌then◌else◌,
}
use bhiv_qcg.Prelude.Dict.{Dict, lookup}
use bhiv_qcg.Prelude.Decimal.{decimal}
use bhiv_qcg.Gateway.Contract.{
  Config, QuantumDistribution, TransmissionStatus, ok, degraded, rejected, Decoded, message,
  corrupted, ClassicalContract,
}

-- `sum(counts.values())`
unfoldable pub total : Dict ℕ → ℕ
total [] = 0
total ((b, n) ∷ counts) = n + total counts

-- `max(counts, key=counts.get)` with its count, the first of equals, from a first candidate on
unfoldable pub most : String × ℕ → Dict ℕ → String × ℕ
most best [] = best
most (b, n) ((b', m) ∷ counts) =
    let newer = most (b', m) counts in
    let older = most (b, n) counts in if ltb n m then newer else older

abbrev pub hex_digits : Dict ℕ
hex_digits =
    ("0", 0)
    ∷ ("1", 1)
    ∷ ("2", 2)
    ∷ ("3", 3)
    ∷ ("4", 4)
    ∷ ("5", 5)
    ∷ ("6", 6)
    ∷ ("7", 7)
    ∷ ("8", 8)
    ∷ ("9", 9)
    ∷ ("a", 10)
    ∷ ("b", 11)
    ∷ ("c", 12)
    ∷ ("d", 13)
    ∷ ("e", 14)
    ∷ ("f", 15)
    ∷ []

abbrev pub or_zero : Option ℕ → ℕ
or_zero none = 0
or_zero (some n) = n

-- `int(digest[:2], 16)`
unfoldable pub first_byte : String → ℕ
first_byte (String.◌∷◌ a (String.◌∷◌ b rest)) =
    16 * or_zero (lookup (String.◌∷◌ a "") hex_digits)
    + or_zero (lookup (String.◌∷◌ b "") hex_digits)
first_byte _ = 0

-- `f"{n:02b}"` for n below 4
unfoldable pub two_bits : ℕ → String
two_bits n = if ltb n 2 then (if eqb n 0 then "00" else "01") else (if eqb n 2 then "10" else "11")

pub data TranslationError : Type 0 where
  zero_division : TranslationError
  contract_rejected : ClassicalContract → TranslationError

pub data Translated : Type 0 where
  contract : ClassicalContract → Translated
  failed : TranslationError → Translated

-- `confidence < threshold`, the threshold in hundredths
abbrev pub below : ℕ → ℕ → ℕ → Bool
below part whole threshold = ltb (part * 100) (threshold * whole)

unfoldable pub status_of : Config → ℕ → ℕ → Bool → TransmissionStatus
status_of c part whole is_match =
    if below part whole c.corruption_threshold
    then rejected
    else if not is_match
    then rejected
    else if below part whole c.confidence_threshold
    then degraded
    else ok

-- The last test of `translate`
abbrev pub raise_if_rejected : TransmissionStatus → ClassicalContract → Translated
raise_if_rejected rejected k = failed (contract_rejected k)
raise_if_rejected _ k = contract k

module _ (sha256 : String → String) where
  -- `_message_to_bits`, and `expected` in `_verify_bits`
  unfoldable pub message_to_bits : String → String
  message_to_bits text = two_bits (first_byte (sha256 text) % 4)

  unfoldable pub decoded : String → String → Decoded
  decoded received_bits original =
      if received_bits == message_to_bits original
      then message original
      else corrupted (message_to_bits original) received_bits

module _ (sha256 uuid5 : String → String) where
  unfoldable pub trace_id_of : String → ℕ → String → String
  trace_id_of original seed bits =
      uuid5
        (text_append original (text_append ":" (text_append (decimal seed) (text_append ":" bits))))

  -- `translate`, from the dominant bit string and the sum
  unfoldable pub translate_dominant : Config → String × ℕ → ℕ → ℕ → String → Translated
  translate_dominant c (bits, part) whole seed original =
      if eqb whole 0
      then failed zero_division
      else (let status = status_of c part whole (bits == message_to_bits sha256 original) in
          raise_if_rejected status (record {
            trace_id = trace_id_of original seed bits;
            dominant_count = part;
            total_count = whole;
            decoded_message = decoded sha256 bits original;
            transmission_status = status;
            contract_version = c.contract_version;
          }))

  unfoldable pub translate_counts : Config → ℕ → String → Dict ℕ → Translated
  translate_counts c seed original [] = failed zero_division
  translate_counts c seed original (x ∷ counts) =
      translate_dominant c (most x counts) (total (x ∷ counts)) seed original

  unfoldable pub translate : Config → QuantumDistribution → String → Translated
  translate c d original = translate_counts c d.seed original d.counts
