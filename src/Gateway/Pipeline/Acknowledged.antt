-- ===== src/Gateway/Pipeline/Acknowledged.antt =====
-- hybrid_gateway.py and translation_layer.py: what an acknowledgement of `transmit` tells.
use bhiv_qcg.Prelude.{
  ℕ, String, ◌≡◌, refl, inl, inr, true, false, none, some, [], ◌∷◌, ◌==◌, eqb, Bool-cases,
}
use bhiv_qcg.Prelude.Dict.{Dict}
use bhiv_qcg.Prelude.Hashing.{Hashing}
use bhiv_qcg.Replay.Registry
use bhiv_qcg.Replay.Authority
use bhiv_qcg.Gateway.Contract.{
  Real, Config, Checked, pass, raise, TransmissionRequest, QuantumDistribution, make_request,
  TransmissionStatus, ok, degraded, rejected, message, ClassicalContract,
}
use bhiv_qcg.Gateway.Translation.{
  zero_division, contract_rejected, Translated, contract, failed, message_to_bits, decoded, below,
  status_of, most, total, translate_dominant, translate_counts, translate,
}
use bhiv_qcg.Gateway.Limiter
use bhiv_qcg.Gateway.Pipeline.{
  Ack, ack_ok, ack_degraded, halt_unknown_status, Outside, Gateway, acknowledge, endpoint_answer,
  industrial_endpoint, quantum_sender, after_router, after_sender, after_request, transmit,
}

-- An OK acknowledgement carries the message that was sent; a DEGRADED one too, with a confidence from
-- the corruption threshold up to below the confidence threshold; HALT:UNKNOWN_STATUS does not occur.
abbrev pub Delivers : Config → String → Ack → Type 0
Delivers c original (ack_ok d) = d ≡ message original
Delivers c original (ack_degraded d part whole) =
    (d ≡ message original)
    × (below part whole c.corruption_threshold ≡ false)
    × (below part whole c.confidence_threshold ≡ true)
Delivers c original halt_unknown_status = ⊥
Delivers c original _ = Unit

-- What holds of a contract that `translate` returns.
abbrev IsFit : Config → String → ClassicalContract → TransmissionStatus → Type 0
IsFit c original k ok = k.decoded_message ≡ message original
IsFit c original k degraded =
    (k.decoded_message ≡ message original)
    × (below k.dominant_count k.total_count c.corruption_threshold ≡ false)
    × (below k.dominant_count k.total_count c.confidence_threshold ≡ true)
IsFit c original k rejected = ⊥

abbrev IsTranslated : Config → String → Translated → Type 0
IsTranslated c original (contract k) = IsFit c original k k.transmission_status
IsTranslated c original (failed e) = Unit

module _ (h : Hashing) (uuid5 : String → String) (c : Config) where
  translate_dominant-IsTranslated :
      (best : String × ℕ) (whole seed : ℕ) (original : String)
      → IsTranslated c original (translate_dominant h.sha256 uuid5 c best whole seed original)
  unfolding translate_dominant status_of decoded
  translate_dominant-IsTranslated (bits, part) whole seed original =
      elim (Bool-cases (eqb whole 0)) [
        | inl none_counted ↦ rw none_counted tt
        | inr counted ↦ elim (Bool-cases (below part whole c.corruption_threshold)) [
          | inl weak ↦ rw (counted, weak) tt
          | inr fair ↦ elim (Bool-cases (bits == message_to_bits h.sha256 original)) [
            | inr mismatch ↦ rw (counted, fair, mismatch) tt
            | inl match ↦ elim (Bool-cases (below part whole c.confidence_threshold)) [
              | inl middling ↦ rw (counted, fair, match, middling) (refl, fair, middling)
              | inr strong ↦ rw (counted, fair, match, strong) refl
            ]
          ]
        ]
      ]

  counts-IsTranslated :
      (seed : ℕ) (original : String) (counts : Dict ℕ)
      → IsTranslated c original (translate_counts h.sha256 uuid5 c seed original counts)
  unfolding translate_counts
  counts-IsTranslated seed original [] = tt
  counts-IsTranslated seed original (x ∷ counts) =
      translate_dominant-IsTranslated (most x counts) (total (x ∷ counts)) seed original

  acknowledge-Delivers :
      (original : String) (k : ClassicalContract) (s : TransmissionStatus)
      → IsFit c original k s
      → Delivers c original (acknowledge k s)
  unfolding acknowledge
  acknowledge-Delivers original k ok f = f
  acknowledge-Delivers original k degraded f = f
  acknowledge-Delivers original k rejected f = f

  endpoint_answer-Delivers :
      (original : String) (k : ClassicalContract) (s : Registry.Status)
      → IsFit c original k k.transmission_status
      → Delivers c original (endpoint_answer k s)
  unfolding endpoint_answer
  endpoint_answer-Delivers original k Registry.valid f =
      acknowledge-Delivers original k k.transmission_status f
  endpoint_answer-Delivers original k Registry.duplicate f = tt
  endpoint_answer-Delivers original k Registry.stale f = tt
  endpoint_answer-Delivers original k Registry.future f = tt

  after_router-Delivers :
      (o : Outside) (original : String) (t : Translated) (a : Authority.Authority)
      → IsTranslated c original t
      → Delivers c original (after_router h uuid5 o t a).0
  unfolding after_router industrial_endpoint
  after_router-Delivers o original (contract k) a f =
      endpoint_answer-Delivers original k
        (Authority.submit h uuid5 k.trace_id none (some k.trace_id) o.time o.now_iso a).0.status f
  after_router-Delivers o original (failed zero_division) a f = tt
  after_router-Delivers o original (failed (contract_rejected k)) a f = tt

  after_sender-Delivers :
      (o : Outside) (original : String) (d : Checked QuantumDistribution) (a : Authority.Authority)
      → Delivers c original (after_sender h uuid5 c o original d a).0
  unfolding after_sender
  after_sender-Delivers o original (raise e) a = tt
  after_sender-Delivers o original (pass d) a =
      after_router-Delivers o original (translate h.sha256 uuid5 c d original) a
        (unfold translate in counts-IsTranslated d.seed original d.counts)

  after_request-Delivers :
      (o : Outside) (original : String) (seed : ℕ) (r : Checked TransmissionRequest)
      (a : Authority.Authority)
      → Delivers c original (after_request h uuid5 c o original seed r a).0
  unfolding after_request
  after_request-Delivers o original seed (raise e) a = tt
  after_request-Delivers o original seed (pass r) a =
      after_sender-Delivers o original (quantum_sender h uuid5 c o r seed) a

  -- Whatever the channel does to the counts, an OK acknowledgement carries the message that was sent;
  -- a DEGRADED one too, with a confidence from the corruption threshold up to below the confidence
  -- threshold; and HALT:UNKNOWN_STATUS is never answered.
  pub transmit-Delivers :
      (o : Outside) (original : String) (noise : Real) (mode : String) (seed : ℕ) (g : Gateway)
      → Delivers c original (transmit h uuid5 c o original noise mode seed g).0
  unfolding transmit
  transmit-Delivers o original noise mode seed g =
      elim (Bool-cases (Limiter.allow o.monotonic_ms g.limiter).0) [
        | inl allowed ↦ rw allowed (
            after_request-Delivers o original seed (make_request c original noise mode) g.authority)
        | inr limited ↦ rw limited tt
      ]
