-- ===== src/Lifecycle/Transitions.antt =====
-- The state machine DRAFT, ACTIVE, DEPRECATED, RETIRED: what calls can do to the state of a service,
-- and that the enabled overlay follows the state.
use bhiv_qcg.Prelude.{
  String, ◌≡◌, refl, ap, ◌∙◌, ◌⊎◌, inl, inr, Bool, true, false, not, Option, none, some, List, [],
  ◌∷◌, arith, ◌==◌, eq_iff, Bool-cases, mem,
}
use bhiv_qcg.Prelude.Dict.{lookup, lookup-insert}
use bhiv_qcg.Prelude.Hashing.{Hashing}
use bhiv_qcg.Lifecycle.{
  LifecycleManager, Stamp, lifecycle_states, valid_transitions, get_state, state_is, record_event,
  seal, register, transition, transition_from, enable_after, disable_after, deprecate, retire,
  or_default,
}
use bhiv_qcg.Lifecycle.Session.{Call, run_call, run}

-- An edge of the diagram.
abbrev pub Edge : String → String → Type 0
Edge c t = mem t (valid_transitions c) ≡ true

pub data Reach (c : String) : String → Type 0 where
  here : Reach c c
  next : {t u : String} → Reach c t → Edge t u → Reach c u

-- The call registers `j`.
abbrev pub registers : Call → String → Bool
registers (Call.register s i a r) j = s == j
registers _ j = false

abbrev pub NeverRegisters : String → List (Call × Stamp) → Type 0
NeverRegisters j [] = Unit
NeverRegisters j (c ∷ calls) = (registers c.0 j ≡ false) × NeverRegisters j calls

-- Where a service in state `c` may be after one call.
abbrev Stepped : String → Option String → Type 0
Stepped c after = (t : String) × (after ≡ some t) × ((t ≡ c) ⊎ Edge c t)

module _ (h : Hashing) where
  record_event-states :
      (s a p n c r : String) (stamp : Stamp) (m : LifecycleManager)
      → (record_event h s a p n c r stamp m).1.service_states ≡ m.service_states
  unfolding record_event seal
  record_event-states s a p n c r stamp m = refl

  transition_from-Stepped :
      (current : Option String) (s t a r : String) (stamp : Stamp) (m : LifecycleManager)
      (j c : String)
      → lookup s m.service_states ≡ current
      → lookup j m.service_states ≡ some c
      → Stepped c (lookup j (transition_from h current s t a r stamp m).1.service_states)
  unfolding transition_from record_event seal
  transition_from-Stepped none s t a r stamp m j c found e = (c, e, inl refl)
  transition_from-Stepped (some current) s t a r stamp m j c found e =
      elim (Bool-cases (not (mem t lifecycle_states))) [
        | inl bad ↦ rw bad (c, e, inl refl)
        | inr good ↦ rw good (elim (Bool-cases (not (mem t (valid_transitions current)))) [
          | inl refused ↦ rw refused (c, e, inl refl)
          | inr allowed ↦ rw allowed (elim (Bool-cases (s == j)) [
            | inl same ↦
                let here : s ≡ j = (eq_iff s j).0 same in
                let at : current ≡ c = ground arith in
                (t, rw (lookup-insert, same) refl, inr (rw (← at) (ground arith)))
            | inr other ↦ (c, rw (lookup-insert, other) e, inl refl)
          ])
        ])
      ]

  run_call-Stepped :
      (c : Call) (stamp : Stamp) (m : LifecycleManager) (j state : String)
      → registers c j ≡ false
      → lookup j m.service_states ≡ some state
      → Stepped state (lookup j (run_call h c stamp m).1.service_states)
  run_call-Stepped (Call.register s i a r) stamp m j state other e =
      unfold register in
      (elim (Bool-cases (not (mem i lifecycle_states))) [
        | inl bad ↦ rw bad (state, e, inl refl)
        | inr good ↦ rw (good, record_event-states, lookup-insert, other) (state, e, inl refl)
      ])
  run_call-Stepped (Call.transition s t a r) stamp m j state other e =
      unfold transition in
      transition_from-Stepped (lookup s m.service_states) s t a r stamp m j state refl e
  run_call-Stepped (Call.enable s a read) stamp m j state other e =
      unfold enable_after transition in
      (elim (Bool-cases (state_is read "ACTIVE")) [
        | inl active ↦ rw (active, record_event-states) (state, e, inl refl)
        | inr inactive ↦ rw inactive (
            transition_from-Stepped (lookup s m.service_states) s "ACTIVE" a "Enabled by operator"
              stamp m j state refl e)
      ])
  run_call-Stepped (Call.disable s a read) stamp m j state other e =
      unfold disable_after transition in
      (elim (Bool-cases (state_is read "ACTIVE")) [
        | inl active ↦ rw active (
            transition_from-Stepped (lookup s m.service_states) s "DRAFT" a "Disabled by operator"
              stamp m j state refl e)
        | inr inactive ↦ rw (inactive, record_event-states) (state, e, inl refl)
      ])
  run_call-Stepped (Call.deprecate s a r) stamp m j state other e =
      unfold deprecate transition in
      transition_from-Stepped (lookup s m.service_states) s "DEPRECATED" a
        (or_default r "Deprecated by operator") stamp m j state refl e
  run_call-Stepped (Call.retire s a r) stamp m j state other e =
      unfold retire transition in
      transition_from-Stepped (lookup s m.service_states) s "RETIRED" a
        (or_default r "Retired by operator") stamp m j state refl e

  Reach-trans_left : {a b c : String} → Edge a b → Reach b c → Reach a c
  Reach-trans_left e here = next here e
  Reach-trans_left e (next r f) = next (Reach-trans_left e r) f

  -- A registered service that is not registered again moves only along the edges of the diagram,
  -- whatever the calls, with whatever arguments.
  run-Reach :
      (calls : List (Call × Stamp)) (m : LifecycleManager) (j state : String)
      → NeverRegisters j calls
      → get_state m j ≡ some state
      → (t : String) × (get_state (run h calls m) j ≡ some t) × Reach state t
  unfolding run get_state
  run-Reach [] m j state never e = (state, e, here)
  run-Reach ((c, stamp) ∷ calls) m j state never e =
      let (t, moved, step) = run_call-Stepped c stamp m j state never.0 e in
      let (u, reached, path) = run-Reach calls (run_call h c stamp m).1 j t never.1 moved in
      (
        u,
        reached,
        elim step [ inl same ↦ rw (← same) path | inr edge ↦ Reach-trans_left edge path ],
      )

  no_exit : (c t : String) → c ≡ "RETIRED" → Edge c t → ⊥
  no_exit c t p e =
      let nowhere : mem t (valid_transitions "RETIRED") ≡ true = rw (← p) e in
      let none_there : false ≡ true = unfold valid_transitions in nowhere in cc none_there

  Reach-retired : {t : String} → Reach "RETIRED" t → t ≡ "RETIRED"
  Reach-retired here = refl
  Reach-retired (next r e) = absurd (no_exit _ _ (Reach-retired r) e)

  -- A service in state RETIRED that is not registered again is still RETIRED after any calls, with
  -- whatever arguments.
  pub run-retired :
      (calls : List (Call × Stamp)) (m : LifecycleManager) (j : String)
      → NeverRegisters j calls
      → get_state m j ≡ some "RETIRED"
      → get_state (run h calls m) j ≡ some "RETIRED"
  run-retired calls m j never e =
      let (t, reached, path) = run-Reach calls m j "RETIRED" never e in
      reached ∙ ap some (Reach-retired path)
