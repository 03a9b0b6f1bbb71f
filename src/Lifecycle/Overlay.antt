-- ===== src/Lifecycle/Overlay.antt =====
-- The overlay `_service_enabled` does not contradict the state, as long as no other call comes between
-- the two steps of an `enable` or `disable`: a service is enabled exactly when it is ACTIVE.
use bhiv_qcg.Prelude.{
  String, ◌≡◌, refl, ap, ◌∙◌, ◌⊎◌, inl, inr, Bool, true, false, not, Option, none, some, List, [],
  ◌∷◌, arith, ◌==◌, eq_iff, eq_refl, Bool-cases, Option-cases, String-cases, eq_false, mem,
}
use bhiv_qcg.Prelude.Dict.{lookup, insert, lookup-insert}
use bhiv_qcg.Prelude.Hashing.{Hashing}
use bhiv_qcg.Lifecycle.{
  LifecycleManager, Stamp, lifecycle_states, valid_transitions, get_state, is_enabled, state_is,
  record_event, seal, register, transition, transition_from, enable_after, disable_after, deprecate,
  retire, write_state, new_manager,
}
use bhiv_qcg.Lifecycle.Session.{Call, run_call, run}

-- An ACTIVE service has its overlay set.
pub record IsOverlaid (m : LifecycleManager) : Type 0 where
  pub active_is_enabled :
      (j : String)
      → lookup j m.service_states ≡ some "ACTIVE"
      → lookup j m.service_enabled ≡ some true

-- The state that the call read is still the state when it writes.
abbrev pub IsCurrent : Call → LifecycleManager → Type 0
IsCurrent (Call.enable s a read) m = read ≡ get_state m s
IsCurrent (Call.disable s a read) m = read ≡ get_state m s
IsCurrent _ m = Unit

-- All calls of the session are current.
abbrev pub IsUndisturbed : Hashing → List (Call × Stamp) → LifecycleManager → Type 0
IsUndisturbed h [] m = Unit
IsUndisturbed h ((c, stamp) ∷ calls) m =
    IsCurrent c m × IsUndisturbed h calls (run_call h c stamp m).1

module _ (h : Hashing) where
  record_event-IsOverlaid :
      (s a p n c r : String) (stamp : Stamp) (m : LifecycleManager)
      → IsOverlaid m
      → IsOverlaid (record_event h s a p n c r stamp m).1
  unfolding record_event seal
  record_event-IsOverlaid s a p n c r stamp m v = record { active_is_enabled = v.active_is_enabled }

  write_state-IsOverlaid :
      (s t : String) (m : LifecycleManager) → IsOverlaid m → IsOverlaid (write_state s t m)
  write_state-IsOverlaid s t m v = record {
    active_is_enabled = λ j e. ground (
      arith,
      lookup-insert s j t m.service_states,
      lookup-insert s j (t == "ACTIVE") m.service_enabled,
      v.active_is_enabled j,
      eq_iff t "ACTIVE",
    );
  }

  transition_from-IsOverlaid :
      (current : Option String) (s t a r : String) (stamp : Stamp) (m : LifecycleManager)
      → IsOverlaid m
      → IsOverlaid (transition_from h current s t a r stamp m).1
  unfolding transition_from
  transition_from-IsOverlaid none s t a r stamp m v = v
  transition_from-IsOverlaid (some current) s t a r stamp m v =
      elim (Bool-cases (not (mem t lifecycle_states))) [
        | inl bad ↦ rw bad v
        | inr good ↦ rw good (elim (Bool-cases (not (mem t (valid_transitions current)))) [
          | inl refused ↦ rw refused v
          | inr allowed ↦
              rw allowed
                (record_event-IsOverlaid s _ _ _ _ _ stamp _ (write_state-IsOverlaid s t m v))
        ])
      ]

  transition-IsOverlaid :
      (s t a r : String) (stamp : Stamp) (m : LifecycleManager)
      → IsOverlaid m
      → IsOverlaid (transition h s t a r stamp m).1
  unfolding transition
  transition-IsOverlaid s t a r stamp m v =
      transition_from-IsOverlaid (lookup s m.service_states) s t a r stamp m v

  set_overlay-IsOverlaid :
      (s : String) (b : Bool) (m : LifecycleManager)
      → (b ≡ true) ⊎ (state_is (lookup s m.service_states) "ACTIVE" ≡ false)
      → IsOverlaid m
      → IsOverlaid (record m { service_enabled = insert s b m.service_enabled })
  set_overlay-IsOverlaid s b m why v = record {
    active_is_enabled = λ j e. ground (
      arith,
      lookup-insert s j b m.service_enabled,
      v.active_is_enabled j,
      eq_iff s j,
      eq_refl "ACTIVE",
    );
  }

  run_call-IsOverlaid :
      (c : Call) (stamp : Stamp) (m : LifecycleManager)
      → IsCurrent c m
      → IsOverlaid m
      → IsOverlaid (run_call h c stamp m).1
  unfolding get_state
  run_call-IsOverlaid (Call.register s i a r) stamp m current v =
      unfold register in
      (elim (Bool-cases (not (mem i lifecycle_states))) [
        | inl bad ↦ rw bad v
        | inr good ↦
            rw good (record_event-IsOverlaid s _ _ _ _ _ stamp _ (write_state-IsOverlaid s i m v))
      ])
  run_call-IsOverlaid (Call.transition s t a r) stamp m current v =
      transition-IsOverlaid s t a r stamp m v
  run_call-IsOverlaid (Call.enable s a read) stamp m current v =
      unfold enable_after in
      rw current (elim (Bool-cases (state_is (lookup s m.service_states) "ACTIVE")) [
        | inl active ↦ rw active (
            record_event-IsOverlaid s _ _ _ _ _ stamp _
              (set_overlay-IsOverlaid s true m (inl refl) v))
        | inr inactive ↦ rw inactive (transition-IsOverlaid s "ACTIVE" a _ stamp m v)
      ])
  run_call-IsOverlaid (Call.disable s a read) stamp m current v =
      unfold disable_after in
      rw current (elim (Bool-cases (state_is (lookup s m.service_states) "ACTIVE")) [
        | inl active ↦ rw active (transition-IsOverlaid s "DRAFT" a _ stamp m v)
        | inr inactive ↦ rw inactive (
            record_event-IsOverlaid s _ _ _ _ _ stamp _
              (set_overlay-IsOverlaid s false m (inr inactive) v))
      ])
  run_call-IsOverlaid (Call.deprecate s a r) stamp m current v =
      unfold deprecate in transition-IsOverlaid s "DEPRECATED" a _ stamp m v
  run_call-IsOverlaid (Call.retire s a r) stamp m current v =
      unfold retire in transition-IsOverlaid s "RETIRED" a _ stamp m v

  run-IsOverlaid :
      (calls : List (Call × Stamp)) (m : LifecycleManager)
      → IsUndisturbed h calls m
      → IsOverlaid m
      → IsOverlaid (run h calls m)
  unfolding run
  run-IsOverlaid [] m u v = v
  run-IsOverlaid ((c, stamp) ∷ calls) m u v =
      run-IsOverlaid calls (run_call h c stamp m).1 u.1 (run_call-IsOverlaid c stamp m u.0 v)

  enabled_lem :
      (m : LifecycleManager) (j : String)
      → IsOverlaid m
      → is_enabled m j ≡ state_is (get_state m j) "ACTIVE"
  unfolding is_enabled get_state
  enabled_lem m j v = elim (Option-cases (lookup j m.service_states)) [
    | inl missing ↦ ground arith
    | inr (state, found) ↦ elim (String-cases state "ACTIVE") [
      | inl active ↦ ground (arith, v.active_is_enabled j (found ∙ ap some active))
      | inr other ↦ ground (arith, eq_false state "ACTIVE" other)
    ]
  ]

  nothing_there :
      (k : String) → lookup {V = String} k [] ≡ some "ACTIVE" → lookup {V = Bool} k [] ≡ some true
  unfolding lookup
  nothing_there k e = cc

  -- After any calls of a new manager in which no other call comes between the read and the write of an
  -- `enable` or a `disable`, `is_enabled` of a service is True exactly when its state is ACTIVE.
  pub is_enabled-eq-is_active :
      (calls : List (Call × Stamp)) (j : String)
      → IsUndisturbed h calls (new_manager h)
      → let m = run h calls (new_manager h) in is_enabled m j ≡ state_is (get_state m j) "ACTIVE"
  is_enabled-eq-is_active calls j undisturbed = enabled_lem (run h calls (new_manager h)) j (
      run-IsOverlaid calls (new_manager h) undisturbed
        (record { active_is_enabled = λ k e. nothing_there k e }))
