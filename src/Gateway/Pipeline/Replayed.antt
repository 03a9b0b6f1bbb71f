-- ===== src/Gateway/Pipeline/Replayed.antt =====
-- hybrid_gateway.py: a contract is acknowledged at most once.
use bhiv_qcg.Prelude.{
  ℕ, ◌+◌, String, ◌≡◌, refl, ◌≢◌, inl, inr, Option, none, some, List, [], ◌∷◌, arith, Bool-cases,
  le→ltb,
}
use bhiv_qcg.Prelude.Dict.{lookup}
use bhiv_qcg.Prelude.Hashing.{Hashing}
use bhiv_qcg.Replay.Registry
use bhiv_qcg.Replay.Registry.Answers.{submit-keeps, submit-valid, submit_known}
use bhiv_qcg.Replay.Authority
use bhiv_qcg.Gateway.Contract.{
  Config, Checked, pass, raise, TransmissionRequest, QuantumDistribution, make_request,
  ClassicalContract,
}
use bhiv_qcg.Gateway.Translation.{
  zero_division, contract_rejected, Translated, contract, failed, translate,
}
use bhiv_qcg.Gateway.Limiter
use bhiv_qcg.Gateway.Pipeline.{
  halt_replay_detected, Outside, Gateway, endpoint_answer, industrial_endpoint, quantum_sender,
  after_router, after_sender, after_request, transmit, Transmission, run,
}

module _ (h : Hashing) (uuid5 : String → String) where
  -- The authority's registry and verdict are the registry's.
  authority_registry :
      (m : String) (t : Option ℕ) (trace : Option String) (now : ℕ) (iso : String)
      (a : Authority.Authority)
      → ((Authority.submit h uuid5 m t trace now iso a).1.registry
          ≡ (Registry.submit m t now a.registry).1)
        × ((Authority.submit h uuid5 m t trace now iso a).0.status
            ≡ (Registry.submit m t now a.registry).0.status)
  unfolding Authority.submit Authority.record_decision Authority.verdict_of
  authority_registry m t trace now iso a = (refl, refl)

  -- The entry of a message in the registry of an authority.
  abbrev pub entry_of : String → Authority.Authority → Option Registry.RegistryEntry
  entry_of m a = lookup m a.registry.entries

  endpoint-keeps :
      (o : Outside) (k : ClassicalContract) (a : Authority.Authority) (m : String)
      (e : Registry.RegistryEntry)
      → entry_of m a ≡ some e
      → entry_of m (industrial_endpoint h uuid5 o k a).1 ≡ some e
  unfolding industrial_endpoint
  endpoint-keeps o k a m e here =
      rw (authority_registry k.trace_id none (some k.trace_id) o.time o.now_iso a).0
        (submit-keeps k.trace_id m none o.time a.registry e here)

  router-keeps :
      (o : Outside) (t : Translated) (a : Authority.Authority) (m : String)
      (e : Registry.RegistryEntry)
      → entry_of m a ≡ some e
      → entry_of m (after_router h uuid5 o t a).1 ≡ some e
  unfolding after_router
  router-keeps o (contract k) a m e here = endpoint-keeps o k a m e here
  router-keeps o (failed zero_division) a m e here = here
  router-keeps o (failed (contract_rejected k)) a m e here = here

  module _ (c : Config) where
    sender-keeps :
        (o : Outside) (x : String) (d : Checked QuantumDistribution) (a : Authority.Authority)
        (m : String) (e : Registry.RegistryEntry)
        → entry_of m a ≡ some e
        → entry_of m (after_sender h uuid5 c o x d a).1 ≡ some e
    unfolding after_sender
    sender-keeps o x (raise f) a m e here = here
    sender-keeps o x (pass d) a m e here =
        router-keeps o (translate h.sha256 uuid5 c d x) a m e here

    request-keeps :
        (o : Outside) (x : String) (seed : ℕ) (r : Checked TransmissionRequest)
        (a : Authority.Authority) (m : String) (e : Registry.RegistryEntry)
        → entry_of m a ≡ some e
        → entry_of m (after_request h uuid5 c o x seed r a).1 ≡ some e
    unfolding after_request
    request-keeps o x seed (raise f) a m e here = here
    request-keeps o x seed (pass r) a m e here =
        sender-keeps o x (quantum_sender h uuid5 c o r seed) a m e here

    transmit-keeps :
        (x : Transmission) (g : Gateway) (m : String) (e : Registry.RegistryEntry)
        → entry_of m g.authority ≡ some e
        → entry_of m (transmit h uuid5 c x.outside x.message x.noise x.mode x.seed g).1.authority
          ≡ some e
    unfolding transmit
    transmit-keeps x g m e here =
        elim (Bool-cases (Limiter.allow x.outside.monotonic_ms g.limiter).0) [
          | inl allowed ↦ rw allowed (
              request-keeps x.outside x.message x.seed (make_request c x.message x.noise x.mode)
                g.authority m e here)
          | inr limited ↦ rw limited here
        ]

    run-keeps :
        (xs : List Transmission) (g : Gateway) (m : String) (e : Registry.RegistryEntry)
        → entry_of m g.authority ≡ some e
        → entry_of m (run h uuid5 c xs g).authority ≡ some e
    unfolding run
    run-keeps [] g m e here = here
    run-keeps (x ∷ xs) g m e here =
        run-keeps xs (transmit h uuid5 c x.outside x.message x.noise x.mode x.seed g).1 m e
          (transmit-keeps x g m e here)

    answer-valid :
        (k : ClassicalContract) (s : Registry.Status)
        → endpoint_answer k s ≢ halt_replay_detected
        → s ≡ Registry.valid
    unfolding endpoint_answer
    answer-valid k Registry.valid n = refl
    answer-valid k Registry.duplicate n = absurd (n refl)
    answer-valid k Registry.stale n = absurd (n refl)
    answer-valid k Registry.future n = absurd (n refl)

    known-replay :
        (o : Outside) (k : ClassicalContract) (a : Authority.Authority) (e : Registry.RegistryEntry)
        → entry_of k.trace_id a ≡ some e
        → (industrial_endpoint h uuid5 o k a).0 ≡ halt_replay_detected
    unfolding industrial_endpoint endpoint_answer
    known-replay o k a e here =
        rw
          (
            (authority_registry k.trace_id none (some k.trace_id) o.time o.now_iso a).1,
            submit_known k.trace_id none o.time a.registry e here,
          )
          (rw (le→ltb (o.time + a.registry.ttl) o.time (omega arith)) refl)

    acked-known :
        (o : Outside) (k : ClassicalContract) (a : Authority.Authority)
        → (industrial_endpoint h uuid5 o k a).0 ≢ halt_replay_detected
        → (e : Registry.RegistryEntry) × (entry_of k.trace_id (industrial_endpoint h uuid5 o k a).1
            ≡ some e)
    unfolding industrial_endpoint
    acked-known o k a acked =
        let same = authority_registry k.trace_id none (some k.trace_id) o.time o.now_iso a in
        let (e, here, number) =
          submit-valid k.trace_id none o.time a.registry (answer-valid k _ (rw same.1 at acked)) in
        (e, rw same.0 here)

    -- Once the endpoint has answered a contract with anything but HALT:REPLAY_DETECTED, it answers every
    -- later contract of that trace id with HALT:REPLAY_DETECTED, whatever the gateway transmits in
    -- between (no transmission resets the registry).
    pub endpoint_replays :
        (o o' : Outside) (k k' : ClassicalContract) (g : Gateway) (xs : List Transmission)
        → k'.trace_id ≡ k.trace_id
        → (industrial_endpoint h uuid5 o k g.authority).0 ≢ halt_replay_detected
        → let later =
            run h uuid5 c xs
              (record g { authority = (industrial_endpoint h uuid5 o k g.authority).1 }) in
          (industrial_endpoint h uuid5 o' k' later.authority).0 ≡ halt_replay_detected
    endpoint_replays o o' k k' g xs same acked =
        let (e, here) = acked-known o k g.authority acked in
        known-replay o' k' _ e (rw same (run-keeps xs _ k.trace_id e here))
