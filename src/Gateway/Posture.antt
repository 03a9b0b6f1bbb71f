-- ===== src/Gateway/Posture.antt =====
-- degraded_runtime.py: `evaluate`, the advice on a contract. A label and a justification are kept as
-- the case that they word.
use bhiv_qcg.Prelude.{
  ℕ, ◌*◌, String, ◌≡◌, refl, sym, Bool, true, false, not, ◌&&◌, ◌||◌, arith, ltb, if◌then◌else◌,
}
use bhiv_qcg.Gateway.Contract.{
  Real, TransmissionStatus, ok, degraded, rejected, Decoded, ClassicalContract,
}

pub data Outcome : Type 0 where
  outcome_ok outcome_degraded hold reject halt : Outcome

pub data Label : Type 0 where
  halt_replay_detected halt_rate_limit_exceeded reject_invalid_contract hold_high_noise : Label
  label_degraded : ℕ → ℕ → Label
  label_ok : Decoded → Label

pub record OperationalPosture : Type 0 where
  pub outcome : Outcome
  pub trace_id : String
  pub dominant_count : ℕ
  pub total_count : ℕ
  pub action_label : Label
  pub emit_action : Bool

abbrev pub posture : ClassicalContract → Outcome → Label → Bool → OperationalPosture
posture k outcome label emit = record {
  outcome = outcome;
  trace_id = k.trace_id;
  dominant_count = k.dominant_count;
  total_count = k.total_count;
  action_label = label;
  emit_action = emit;
}

-- `noise_factor > 0.50`
abbrev pub is_noisy : Real → Bool
is_noisy x = not x.is_negative && ltb x.denominator (2 * x.numerator)

-- The tests on the status and the noise
unfoldable pub by_status : ClassicalContract → Bool → TransmissionStatus → OperationalPosture
by_status k noisy rejected = posture k reject reject_invalid_contract false
by_status k noisy degraded =
    if noisy
    then posture k hold hold_high_noise false
    else posture k outcome_degraded (label_degraded k.dominant_count k.total_count) true
by_status k noisy ok = posture k outcome_ok (label_ok k.decoded_message) true

unfoldable pub evaluate : ClassicalContract → Real → Bool → Bool → OperationalPosture
evaluate k noise_factor replay_detected rate_limited =
    if replay_detected
    then posture k halt halt_replay_detected false
    else if rate_limited
    then posture k halt halt_rate_limit_exceeded false
    else by_status k (is_noisy noise_factor) k.transmission_status

-- Which contracts may act: a whole table of the stops and the status.
abbrev pub may_act : Bool → Bool → Bool → TransmissionStatus → Bool
may_act replay limited noisy ok = not replay && not limited
may_act replay limited noisy degraded = not replay && not limited && not noisy
may_act replay limited noisy rejected = false

abbrev pub outcome_emits : Outcome → Bool
outcome_emits outcome_ok = true
outcome_emits outcome_degraded = true
outcome_emits _ = false

by_status-may_act :
    (k : ClassicalContract) (noisy : Bool) (s : TransmissionStatus)
    → ((by_status k noisy s).emit_action ≡ may_act false false noisy s)
      × (outcome_emits (by_status k noisy s).outcome ≡ (by_status k noisy s).emit_action)
unfolding by_status
by_status-may_act k noisy ok = (refl, refl)
by_status-may_act k true degraded = (refl, refl)
by_status-may_act k false degraded = (refl, refl)
by_status-may_act k noisy rejected = (refl, refl)

may_act-stopped :
    (replay limited noisy : Bool) (s : TransmissionStatus)
    → (replay || limited ≡ true)
    → may_act replay limited noisy s ≡ false
may_act-stopped replay limited noisy ok h = ground (arith, h)
may_act-stopped replay limited noisy degraded h = ground (arith, h)
may_act-stopped replay limited noisy rejected h = refl

-- A posture permits action exactly when no replay was detected, no rate limit was exceeded, and the
-- contract is OK (whatever the noise), or is DEGRADED over a noise of at most one half; and it permits
-- action exactly in the outcomes OK and DEGRADED.
evaluate_permits :
    (k : ClassicalContract) (noise : Real) (replay limited : Bool)
    → ((evaluate k noise replay limited).emit_action
        ≡ may_act replay limited (is_noisy noise) k.transmission_status)
      × (outcome_emits (evaluate k noise replay limited).outcome
          ≡ (evaluate k noise replay limited).emit_action)
unfolding evaluate
evaluate_permits k noise true limited =
    (sym (may_act-stopped true limited (is_noisy noise) k.transmission_status refl), refl)
evaluate_permits k noise false true =
    (sym (may_act-stopped false true (is_noisy noise) k.transmission_status refl), refl)
evaluate_permits k noise false false = by_status-may_act k (is_noisy noise) k.transmission_status
