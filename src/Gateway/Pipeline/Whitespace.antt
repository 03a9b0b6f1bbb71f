-- ===== src/Gateway/Pipeline/Whitespace.antt =====
-- hybrid_gateway.py and quantum_producer.py: a transmission over a channel without noise.
use native.Mathlib.Nat.{mul-le-mul_right}
use bhiv_qcg.Prelude.{
  ℕ, ◌+◌, ◌*◌, ◌≤◌, ◌<◌, String, ◌≡◌, refl, inl, inr, true, false, [], ◌∷◌, arith, ◌==◌, eqb,
  if◌then◌else◌, Bool-cases, le→ltb,
}
use bhiv_qcg.Prelude.Hashing.{Hashing}
use bhiv_qcg.Replay.Authority
use bhiv_qcg.Gateway.Contract.{
  Real, Config, pass, TransmissionRequest, make_request, check_distribution, TransmissionStatus, ok,
  rejected, ClassicalContract,
}
use bhiv_qcg.Gateway.Translation.{
  contract_rejected, contract, failed, message_to_bits, decoded, below, status_of, trace_id_of,
  most, total, translate_dominant, translate_counts, translate,
}
use bhiv_qcg.Gateway.Limiter
use bhiv_qcg.Gateway.Pipeline.{
  halt_translation_failure, Outside, Gateway, industrial_endpoint, quantum_sender, after_router,
  after_sender, after_request, transmit,
}

module _ (h : Hashing) (uuid5 : String → String) (c : Config) where
  -- The contract of `original` when all shots give the bits of `sent`.
  abbrev pub noiseless_contract : String → String → ℕ → TransmissionStatus → ClassicalContract
  noiseless_contract sent original seed status = record {
    trace_id = trace_id_of h.sha256 uuid5 original seed (message_to_bits h.sha256 sent);
    dominant_count = c.shots;
    total_count = c.shots;
    decoded_message = decoded h.sha256 (message_to_bits h.sha256 sent) original;
    transmission_status = status;
    contract_version = c.contract_version;
  }

  translate_noiseless :
      (sent original : String) (seed : ℕ)
      → 0 < c.shots
      → c.corruption_threshold ≤ 100
      → c.confidence_threshold ≤ 100
      → translate_dominant h.sha256 uuid5 c
          (message_to_bits h.sha256 sent, c.shots)
          c.shots
          seed
          original
        ≡ (if message_to_bits h.sha256 sent == message_to_bits h.sha256 original
            then contract (noiseless_contract sent original seed ok)
            else failed (contract_rejected (noiseless_contract sent original seed rejected)))
  unfolding translate_dominant status_of
  translate_noiseless sent original seed p q r =
      let counted : eqb c.shots 0 ≡ false = ground arith in
      let fair : below c.shots c.shots c.corruption_threshold ≡ false =
        le→ltb (c.shots * 100) (c.corruption_threshold * c.shots)
          (omega (arith, mul-le-mul_right c.shots q)) in
      let strong : below c.shots c.shots c.confidence_threshold ≡ false =
        le→ltb (c.shots * 100) (c.confidence_threshold * c.shots)
          (omega (arith, mul-le-mul_right c.shots r)) in
      elim (Bool-cases (message_to_bits h.sha256 sent == message_to_bits h.sha256 original)) [
        | inl same ↦ rw (counted, fair, same, strong) refl
        | inr other ↦ rw (counted, fair, other) refl
      ]

  -- The answer to a request over a channel that gives every shot the encoded bits.
  after_request_noiseless :
      (o : Outside) (original : String) (seed : ℕ) (r : TransmissionRequest)
      (a : Authority.Authority)
      → 0 < c.shots
      → c.corruption_threshold ≤ 100
      → c.confidence_threshold ≤ 100
      → ((bits : String) (noise : Real) (n s : ℕ) → o.simulate bits noise n s ≡ (bits, n) ∷ [])
      → after_request h uuid5 c o original seed (pass r) a ≡ (
          if message_to_bits h.sha256 r.message == message_to_bits h.sha256 original
          then industrial_endpoint h uuid5 o (noiseless_contract r.message original seed ok) a
          else (halt_translation_failure (noiseless_contract r.message original seed rejected), a))
  unfolding after_request after_sender quantum_sender check_distribution translate translate_counts
      most total
  after_request_noiseless o original seed r a p q t channel =
      let counted : eqb c.shots 0 ≡ false = ground arith in
      let whole : c.shots + 0 ≡ c.shots = omega arith in
      rw
        (
          channel (message_to_bits h.sha256 r.message) r.noise c.shots seed,
          counted,
          whole,
          translate_noiseless r.message original seed p q t,
        )
        (elim (Bool-cases
          (message_to_bits h.sha256 r.message == message_to_bits h.sha256 original)) [
            | inl same ↦ rw same (unfold after_router in refl)
            | inr other ↦ rw other (unfold after_router in refl)
          ])

  -- Over a channel that gives every shot the encoded bits, with thresholds of at most 1, a call that the
  -- limiter allows and whose request is valid reaches the endpoint with an OK contract if the stripped
  -- message, which the producer encodes, has the bits of the message as it was given, and answers
  -- HALT:TRANSLATION_FAILURE if not.
  pub transmit_noiseless :
      (o : Outside) (original : String) (noise : Real) (mode : String) (seed : ℕ)
      (r : TransmissionRequest) (g : Gateway)
      → 0 < c.shots
      → c.corruption_threshold ≤ 100
      → c.confidence_threshold ≤ 100
      → ((bits : String) (noise : Real) (n s : ℕ) → o.simulate bits noise n s ≡ (bits, n) ∷ [])
      → (Limiter.allow o.monotonic_ms g.limiter).0 ≡ true
      → make_request c original noise mode ≡ pass r
      → (transmit h uuid5 c o original noise mode seed g).0 ≡ (
          if message_to_bits h.sha256 r.message == message_to_bits h.sha256 original
          then (industrial_endpoint h uuid5 o
              (noiseless_contract r.message original seed ok)
              g.authority).0
          else halt_translation_failure (noiseless_contract r.message original seed rejected))
  unfolding transmit
  transmit_noiseless o original noise mode seed r g p q t channel allowed valid =
      rw (allowed, valid, after_request_noiseless o original seed r g.authority p q t channel)
        (elim (Bool-cases
          (message_to_bits h.sha256 r.message == message_to_bits h.sha256 original)) [
            | inl same ↦ rw same refl
            | inr other ↦ rw other refl
          ])
