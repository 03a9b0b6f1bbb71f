-- ===== src/Gateway/Pipeline.antt =====
-- hybrid_gateway.py: `QuantumGateway.transmit`, from the rate limiter to the endpoint. The simulator is
-- an argument: the counts that it gives for bits, noise, shots and seed. An acknowledgement is kept as
-- the case that its text words.
pub mod Acknowledged
pub mod Whitespace
pub mod Replayed
use bhiv_qcg.Prelude.{ℕ, String, none, some, List, [], ◌∷◌, if◌then◌else◌}
use bhiv_qcg.Prelude.Dict.{Dict}
use bhiv_qcg.Prelude.Hashing.{Hashing}
use bhiv_qcg.Replay.Registry
use bhiv_qcg.Replay.Authority
use bhiv_qcg.Gateway.Contract.{
  Real, Config, InputError, Checked, pass, raise, TransmissionRequest, QuantumDistribution,
  make_request, check_distribution, TransmissionStatus, ok, degraded, rejected, Decoded,
  ClassicalContract,
}
use bhiv_qcg.Gateway.Translation.{
  TranslationError, zero_division, contract_rejected, Translated, contract, failed, message_to_bits,
  translate,
}
use bhiv_qcg.Gateway.Limiter
use bhiv_qcg.Gateway.Limiter.{RateLimiter}

pub data Ack : Type 0 where
  ack_ok : Decoded → Ack
  ack_degraded : Decoded → ℕ → ℕ → Ack
  halt_replay_detected halt_unknown_status halt_rate_limit_exceeded : Ack
  halt_invalid_input : InputError → Ack
  halt_translation_failure : ClassicalContract → Ack
  halt_unexpected : TranslationError → Ack

-- What the outside gives to one call: the clocks, a time stamp, and the simulator.
pub record Outside : Type 0 where
  pub monotonic_ms : ℕ
  pub time : ℕ
  pub now_iso : String
  pub simulate : String → Real → ℕ → ℕ → Dict ℕ

pub record Gateway : Type 0 where
  pub authority : Authority.Authority
  pub limiter : RateLimiter

-- The texts of `industrial_endpoint`, for a contract that is no replay
unfoldable pub acknowledge : ClassicalContract → TransmissionStatus → Ack
acknowledge k ok = ack_ok k.decoded_message
acknowledge k degraded = ack_degraded k.decoded_message k.dominant_count k.total_count
acknowledge k rejected = halt_unknown_status

unfoldable pub endpoint_answer : ClassicalContract → Registry.Status → Ack
endpoint_answer k Registry.valid = acknowledge k k.transmission_status
endpoint_answer k _ = halt_replay_detected

module _ (h : Hashing) (uuid5 : String → String) where
  unfoldable pub industrial_endpoint :
      Outside → ClassicalContract → Authority.Authority → Ack × Authority.Authority
  industrial_endpoint o k a =
      let (verdict, a') =
        Authority.submit h uuid5 k.trace_id none (some k.trace_id) o.time o.now_iso a in
      (endpoint_answer k verdict.status, a')

  -- `quantum_sender`: `run_quantum_producer` with the default number of shots
  unfoldable pub quantum_sender :
      Config → Outside → TransmissionRequest → ℕ → Checked QuantumDistribution
  quantum_sender c o request seed =
      let bits = message_to_bits h.sha256 request.message in
      check_distribution (record {
        encoded_bits = bits;
        transmission_mode = request.mode;
        noise_factor = request.noise;
        shots = c.shots;
        counts = o.simulate bits request.noise c.shots seed;
        seed = seed;
      })

  -- After `classical_router`: an exception of `translate` is caught in `transmit`.
  unfoldable pub after_router :
      Outside → Translated → Authority.Authority → Ack × Authority.Authority
  after_router o (contract k) a = industrial_endpoint o k a
  after_router o (failed zero_division) a = (halt_unexpected zero_division, a)
  after_router o (failed (contract_rejected k)) a = (halt_translation_failure k, a)

  unfoldable pub after_sender :
      Config
      → Outside
      → String
      → Checked QuantumDistribution
      → Authority.Authority
      → Ack × Authority.Authority
  after_sender c o message (raise e) a = (halt_invalid_input e, a)
  after_sender c o message (pass d) a = after_router o (translate h.sha256 uuid5 c d message) a

  unfoldable pub after_request :
      Config
      → Outside
      → String
      → ℕ
      → Checked TransmissionRequest
      → Authority.Authority
      → Ack × Authority.Authority
  after_request c o message seed (raise e) a = (halt_invalid_input e, a)
  after_request c o message seed (pass request) a =
      after_sender c o message (quantum_sender c o request seed) a

  unfoldable pub transmit : Config → Outside → String → Real → String → ℕ → Gateway → Ack × Gateway
  transmit c o message noise mode seed g =
      let (allowed, limiter) = Limiter.allow o.monotonic_ms g.limiter in
      let (ack, authority) =
        after_request c o message seed (make_request c message noise mode) g.authority in
      if allowed
      then (ack, record { authority = authority; limiter = limiter })
      else (halt_rate_limit_exceeded, record g { limiter = limiter })

  unfoldable pub reset_replay_registry : Gateway → Gateway
  reset_replay_registry g = record g { authority = Authority.reset g.authority }

-- A transmission, with what the outside gives to it.
pub record Transmission : Type 0 where
  pub outside : Outside
  pub message : String
  pub noise : Real
  pub mode : String
  pub seed : ℕ

module _ (h : Hashing) (uuid5 : String → String) (c : Config) where
  unfoldable pub run : List Transmission → Gateway → Gateway
  run [] g = g
  run (x ∷ xs) g = run xs (transmit h uuid5 c x.outside x.message x.noise x.mode x.seed g).1
