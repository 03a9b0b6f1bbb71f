-- ===== src/Lifecycle/Evidence.antt =====
-- The evidence chain: every call keeps it verifiable, and only adds to it.
use bhiv_qcg.Prelude.{
  String, ◌≡◌, refl, sym, ◌∙◌, inl, inr, true, false, not, Option, none, some, List, [], ◌∷◌, ◌++◌,
  eq_refl, Bool-cases, mem,
}
use bhiv_qcg.Prelude.Hashing.{Hashing}
use bhiv_qcg.Chain.{verify_from, verify_from-append}
use mathlib.Core.List.{append-nil}
use bhiv_qcg.Prelude.Dict.{lookup, insert}
use bhiv_qcg.Lifecycle.{
  LifecycleManager, LifecycleEvent, Stamp, Result, ok, err, event_seed, event_hash_of,
  previous_hash_of, genesis, new_manager, unsealed, seal, LifecycleError, invalid_initial_state,
  not_registered, invalid_target_state, invalid_transition, lifecycle_states, valid_transitions,
  write_state, action_for_transition, state_is, or_unknown, register, enable_after, disable_after,
  deprecate, retire, record_event, verify_chain, transition, transition_from,
}
use bhiv_qcg.Lifecycle.Session.{Call, run_call, run}

-- What a call adds to the events: nothing when it raised, else the event that it returned.
abbrev pub added : Result → List LifecycleEvent
added (err x) = []
added (ok e) = e ∷ []

module _ (h : Hashing) where
  seal_intact :
      (m : LifecycleManager) (e : LifecycleEvent)
      → e.previous_event_hash ≡ m.head_hash
      → verify_chain h m ≡ true
      → verify_chain h (seal h m e).1 ≡ true
  unfolding verify_chain seal event_seed
  seal_intact m e p v =
      verify_from-append h previous_hash_of event_hash_of event_seed (genesis h) m.events
        m.head_hash _ v p refl

  record_event_intact :
      (service_id action previous_state new_state actor reason : String) (stamp : Stamp)
      (m : LifecycleManager)
      → verify_chain h m ≡ true
      → verify_chain h
          (record_event h service_id action previous_state new_state actor reason stamp m).1
        ≡ true
  unfolding record_event
  record_event_intact s a p n c r stamp m v = seal_intact m (unsealed h s a p n c r stamp m) refl v

  -- How a call may end: it raised and changed nothing, or it changed the two dicts at most and then
  -- recorded one event.
  data Outcome (m : LifecycleManager) : Result × LifecycleManager → Type 0 where
    raised : (x : LifecycleError) → Outcome m (err x, m)
    recorded :
        (s a p n c r : String) (stamp : Stamp) (m' : LifecycleManager)
        → m'.events ≡ m.events
        → m'.head_hash ≡ m.head_hash
        → Outcome m (record_event h s a p n c r stamp m')

  register-Outcome :
      (s i a r : String) (stamp : Stamp) (m : LifecycleManager)
      → Outcome m (register h s i a r stamp m)
  unfolding register
  register-Outcome s i a r stamp m = elim (Bool-cases (not (mem i lifecycle_states))) [
    | inl bad ↦ rw bad (raised (invalid_initial_state i))
    | inr good ↦ rw good (recorded s "REGISTER" "NONE" i a r stamp (write_state s i m) refl refl)
  ]

  transition_from-Outcome :
      (current : Option String) (s t a r : String) (stamp : Stamp) (m : LifecycleManager)
      → Outcome m (transition_from h current s t a r stamp m)
  unfolding transition_from
  transition_from-Outcome none s t a r stamp m = raised (not_registered s)
  transition_from-Outcome (some current) s t a r stamp m =
      elim (Bool-cases (not (mem t lifecycle_states))) [
        | inl bad ↦ rw bad (raised (invalid_target_state t))
        | inr good ↦ rw good (elim (Bool-cases (not (mem t (valid_transitions current)))) [
          | inl refused ↦ rw refused (raised (invalid_transition current t))
          | inr allowed ↦ rw allowed (
              recorded s (action_for_transition current t) current t a r stamp (write_state s t m)
                refl refl)
        ])
      ]

  transition-Outcome :
      (s t a r : String) (stamp : Stamp) (m : LifecycleManager)
      → Outcome m (transition h s t a r stamp m)
  unfolding transition
  transition-Outcome s t a r stamp m =
      transition_from-Outcome (lookup s m.service_states) s t a r stamp m

  run_call-Outcome :
      (c : Call) (stamp : Stamp) (m : LifecycleManager) → Outcome m (run_call h c stamp m)
  run_call-Outcome (Call.register s i a r) stamp m = register-Outcome s i a r stamp m
  run_call-Outcome (Call.transition s t a r) stamp m = transition-Outcome s t a r stamp m
  run_call-Outcome (Call.enable s a read) stamp m =
      unfold enable_after in
      (elim (Bool-cases (state_is read "ACTIVE")) [
        | inl active ↦ rw active (
            recorded s "ENABLE" "ACTIVE" "ACTIVE" a "Re-enabled active service" stamp
              (record m { service_enabled = insert s true m.service_enabled }) refl refl)
        | inr inactive ↦ rw inactive (transition-Outcome s "ACTIVE" a "Enabled by operator" stamp m)
      ])
  run_call-Outcome (Call.disable s a read) stamp m =
      unfold disable_after in
      (let current = read in
        elim (Bool-cases (state_is current "ACTIVE")) [
          | inl active ↦ rw active (transition-Outcome s "DRAFT" a "Disabled by operator" stamp m)
          | inr inactive ↦ rw inactive (
              recorded s "DISABLE" (or_unknown current) (or_unknown current) a
                "Disable requested (already inactive)" stamp
                (record m { service_enabled = insert s false m.service_enabled }) refl refl)
        ])
  run_call-Outcome (Call.deprecate s a r) stamp m =
      unfold deprecate in transition-Outcome s "DEPRECATED" a _ stamp m
  run_call-Outcome (Call.retire s a r) stamp m =
      unfold retire in transition-Outcome s "RETIRED" a _ stamp m

  verify_chain-cong :
      (m n : LifecycleManager)
      → m.events ≡ n.events
      → m.head_hash ≡ n.head_hash
      → verify_chain h m ≡ verify_chain h n
  unfolding verify_chain
  verify_chain-cong m n p q = cc

  Outcome-intact :
      {m : LifecycleManager} {o : Result × LifecycleManager}
      → Outcome m o
      → verify_chain h m ≡ true
      → verify_chain h o.1 ≡ true
  Outcome-intact (raised x) v = v
  Outcome-intact {m} (recorded s a p n c r stamp m' same_events same_head) v =
      record_event_intact s a p n c r stamp m' (verify_chain-cong m' m same_events same_head ∙ v)

  run_intact :
      (calls : List (Call × Stamp)) (m : LifecycleManager)
      → verify_chain h m ≡ true
      → verify_chain h (run h calls m) ≡ true
  unfolding run
  run_intact [] m v = v
  run_intact ((c, stamp) ∷ calls) m v =
      run_intact calls (run_call h c stamp m).1 (Outcome-intact (run_call-Outcome c stamp m) v)

  -- From a new manager, after any calls with any stamps, `verify_chain` answers True.
  pub run_verifies :
      (calls : List (Call × Stamp)) → verify_chain h (run h calls (new_manager h)) ≡ true
  run_verifies calls =
      run_intact calls (new_manager h) (unfold verify_chain verify_from in eq_refl _)

  Outcome-appends :
      {m : LifecycleManager} {o : Result × LifecycleManager}
      → Outcome m o
      → o.1.events ≡ m.events ++ added o.0
  Outcome-appends {m} (raised x) = sym (append-nil m.events)
  Outcome-appends (recorded s a p n c r stamp m' same_events same_head) =
      unfold record_event seal in rw same_events refl

  -- The log is append-only: a call that returns an event adds exactly that event at its end, and a
  -- call that raises adds nothing.
  events_appended :
      (c : Call) (stamp : Stamp) (m : LifecycleManager)
      → (run_call h c stamp m).1.events ≡ m.events ++ added (run_call h c stamp m).0
  events_appended c stamp m = Outcome-appends (run_call-Outcome c stamp m)

  Outcome-err :
      {m : LifecycleManager} {o : Result × LifecycleManager} {x : LifecycleError}
      → Outcome m o
      → o.0 ≡ err x
      → o.1 ≡ m
  Outcome-err (raised y) e = refl
  Outcome-err (recorded s a p n c r stamp m' same_events same_head) e =
      unfold record_event seal in cc e

  -- A call that raises leaves the whole state as it was.
  raise_unchanged :
      (c : Call) (stamp : Stamp) (m : LifecycleManager) {x : LifecycleError}
      → (run_call h c stamp m).0 ≡ err x
      → (run_call h c stamp m).1 ≡ m
  raise_unchanged c stamp m e = Outcome-err (run_call-Outcome c stamp m) e
