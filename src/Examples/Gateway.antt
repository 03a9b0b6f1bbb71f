-- ===== src/Examples/Gateway.antt =====
-- Transmissions on which the theorems are applied.
use bhiv_qcg.Prelude.{
  ◌+◌, ◌-◌, ◌*◌, ◌≤◌, ◌≡◌, refl, ◌≢◌, true, false, List, [], ◌∷◌, arith, ◌==◌, if◌then◌else◌,
}
use bhiv_qcg.Prelude.Dict.{lookup}
use bhiv_qcg.Prelude.Hashing.{Hashing}
use bhiv_qcg.Replay.Registry
use bhiv_qcg.Replay.Authority
use bhiv_qcg.Gateway.Contract.{
  Real, Config, pass, TransmissionRequest, make_request, strip, strip_left, strip_right, ok,
  rejected, message, ClassicalContract,
}
use bhiv_qcg.Gateway.Translation.{message_to_bits}
use bhiv_qcg.Gateway.Limiter
use bhiv_qcg.Gateway.Limiter.{RateLimiter, new_limiter, token, end_of, run_allows}
use bhiv_qcg.Gateway.Pipeline.{
  halt_translation_failure, halt_replay_detected, Outside, Gateway, industrial_endpoint,
  endpoint_answer, acknowledge, transmit, Transmission, run,
}
use bhiv_qcg.Gateway.Pipeline.Acknowledged.{Delivers, transmit-Delivers}
use bhiv_qcg.Gateway.Pipeline.Whitespace.{noiseless_contract, transmit_noiseless}
use bhiv_qcg.Gateway.Pipeline.Replayed.{endpoint_replays}

-- A stand-in for SHA-256 that tells a padded text from a plain one.
abbrev toy : Hashing
toy = record { sha256 = λ s. if s == "HELLO" then "02" else "01"; dumps = λ j. "" }

abbrev config : Config
config = record {
  shots = 1024;
  max_message_length = 256;
  supported_modes = "entangled" ∷ "direct" ∷ "superdense" ∷ [];
  confidence_threshold = 70;
  corruption_threshold = 40;
  rate_limit_per_minute = 60;
  contract_version = "1.0.0";
}

abbrev quiet : Real
quiet = record { is_negative = false; numerator = 0; denominator = 1 }

abbrev outside : Outside
outside = record {
  monotonic_ms = 5;
  time = 7;
  now_iso = "t";
  simulate = λ bits noise n s. (bits, n) ∷ [];
}

abbrev gateway : Gateway
gateway = record {
  authority = record {
    registry = record {
      ttl = 300;
      max_gap = 1000;
      entries = [];
      sequence_counter = 0;
      file = Registry.missing;
    };
    lineage_log = [];
    all_verdicts = [];
  };
  limiter = new_limiter 60 0;
}

run_allows_example :
    (Limiter.run (0 ∷ 10 ∷ 2000 ∷ []) (new_limiter 2 0)).0 * token
    ≤ 2 * token + (end_of 0 (0 ∷ 10 ∷ 2000 ∷ []) - 0) * 2
run_allows_example =
    run_allows (0 ∷ 10 ∷ 2000 ∷ []) (new_limiter 2 0) (omega arith)
      (omega arith, (omega arith, (omega arith, tt)))

transmit-Delivers_example :
    Delivers config "HELLO"
      (transmit toy (λ s. s) config outside "HELLO" quiet "direct" 42 gateway).0
transmit-Delivers_example =
    transmit-Delivers toy (λ s. s) config outside "HELLO" quiet "direct" 42 gateway

abbrev request : TransmissionRequest
request = record { message = "HELLO"; noise = quiet; mode = "direct" }

wide_space_stripped : strip "\u{a0}HELLO\u{2003}" ≡ "HELLO"
unfolding strip strip_left strip_right
wide_space_stripped = refl

padded_is_valid : make_request config " HELLO " quiet "direct" ≡ pass request
unfolding make_request strip strip_left strip_right
padded_is_valid = refl

first_allowed : (Limiter.allow 5 gateway.limiter).0 ≡ true
unfolding Limiter.allow
first_allowed = refl

transmit_noiseless_example :
    (transmit toy (λ s. s) config outside " HELLO " quiet "direct" 42 gateway).0 ≡ (
      if message_to_bits toy.sha256 "HELLO" == message_to_bits toy.sha256 " HELLO "
      then (industrial_endpoint toy
          (λ s. s)
          outside
          (noiseless_contract toy (λ s. s) config "HELLO" " HELLO " 42 ok)
          gateway.authority).0
      else halt_translation_failure
          (noiseless_contract toy (λ s. s) config "HELLO" " HELLO " 42 rejected))
transmit_noiseless_example =
    transmit_noiseless toy (λ s. s) config outside " HELLO " quiet "direct" 42 request gateway
      (omega arith) (omega arith) (omega arith) (λ bits noise n s. refl) first_allowed
      padded_is_valid

abbrev good : ClassicalContract
good = record {
  trace_id = "trace";
  dominant_count = 900;
  total_count = 1024;
  decoded_message = message "HELLO";
  transmission_status = ok;
  contract_version = "1.0.0";
}

first_is_acked :
    (industrial_endpoint toy (λ s. s) outside good gateway.authority).0 ≢ halt_replay_detected
unfolding industrial_endpoint endpoint_answer acknowledge Authority.submit Authority.record_decision
    Authority.verdict_of Registry.submit Registry.submit_fresh lookup
first_is_acked e = ground (arith, e)

abbrev between : List Transmission
between =
    record { outside = outside; message = "HELLO"; noise = quiet; mode = "direct"; seed = 42 } ∷ []

endpoint_replays_example :
    let later =
      run toy
        (λ s. s)
        config
        between
        (record gateway {
          authority = (industrial_endpoint toy (λ s. s) outside good gateway.authority).1;
        }) in
    (industrial_endpoint toy (λ s. s) outside good later.authority).0 ≡ halt_replay_detected
endpoint_replays_example =
    endpoint_replays toy (λ s. s) config outside outside good good gateway between refl
      first_is_acked
