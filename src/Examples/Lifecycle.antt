-- ===== src/Examples/Lifecycle.antt =====
-- A service is registered, deprecated and retired.
use bhiv_qcg.Prelude.{◌≡◌, refl, true, false, some, List, [], ◌∷◌}
use bhiv_qcg.Prelude.Dict.{lookup, insert}
use bhiv_qcg.Prelude.Hashing.{Hashing}
use bhiv_qcg.Lifecycle.{
  LifecycleManager, Stamp, err, invalid_transition, new_manager, get_state, is_enabled, state_is,
  register, verify_chain, transition, transition_from, record_event, seal, valid_transitions,
  enable_after, disable_after, retire, deprecate,
}
use bhiv_qcg.Lifecycle.Session.{Call, run_call, run}
use bhiv_qcg.Lifecycle.Evidence.{run_verifies}
use bhiv_qcg.Lifecycle.Transitions.{run-retired}
use bhiv_qcg.Lifecycle.Overlay.{IsUndisturbed, is_enabled-eq-is_active}
use bhiv_qcg.Examples.Toy.{keeping}

abbrev h : Hashing
h = keeping "previous_hash"

abbrev stamp : Stamp
stamp = record { event_id = "id"; timestamp = "now" }

abbrev start : List (Call × Stamp)
start = (Call.register "svc" "ACTIVE" "SYSTEM" "Initial registration", stamp) ∷ []

abbrev end_of_life : List (Call × Stamp)
end_of_life =
    (Call.deprecate "svc" "SYSTEM" "", stamp)
    ∷ (Call.retire "svc" "SYSTEM" "", stamp)
    ∷ (Call.enable "svc" "SYSTEM" (some "RETIRED"), stamp)
    ∷ []

abbrev started : LifecycleManager
started = run h start (new_manager h)

abbrev ended : LifecycleManager
ended = run h end_of_life started

started_active : get_state started "svc" ≡ some "ACTIVE"
unfolding run register record_event seal get_state lookup insert
started_active = refl

ended_retired : get_state ended "svc" ≡ some "RETIRED"
unfolding run register record_event seal get_state lookup insert transition transition_from
    valid_transitions enable_after retire deprecate
ended_retired = refl

run_verifies_example : verify_chain h ended ≡ true
unfolding run
run_verifies_example =
    run_verifies h
      ((Call.register "svc" "ACTIVE" "SYSTEM" "Initial registration", stamp) ∷ end_of_life)

enable_refused :
    (run_call h (Call.enable "svc" "SYSTEM" (some "RETIRED")) stamp ended).0
    ≡ err (invalid_transition "RETIRED" "ACTIVE")
unfolding run register record_event seal get_state lookup insert transition transition_from
    valid_transitions enable_after retire deprecate
enable_refused = refl

run-retired_example : get_state (run h end_of_life ended) "svc" ≡ some "RETIRED"
run-retired_example = run-retired h end_of_life ended "svc" (refl, (refl, (refl, tt))) ended_retired

abbrev drafted : List (Call × Stamp)
drafted =
    (Call.register "svc" "DRAFT" "SYSTEM" "Initial registration", stamp)
    ∷ (Call.enable "svc" "SYSTEM" (some "DRAFT"), stamp)
    ∷ []

drafted-IsUndisturbed : IsUndisturbed h drafted (new_manager h)
unfolding register record_event seal get_state lookup insert
drafted-IsUndisturbed = (tt, (refl, tt))

is_enabled-eq-is_active_example :
    is_enabled (run h drafted (new_manager h)) "svc"
    ≡ state_is (get_state (run h drafted (new_manager h)) "svc") "ACTIVE"
is_enabled-eq-is_active_example = is_enabled-eq-is_active h drafted "svc" drafted-IsUndisturbed

-- `disable` reads DRAFT, then another thread enables the service, then `disable` writes.
abbrev raced : LifecycleManager
raced =
    (run_call h (Call.disable "svc" "SYSTEM" (some "DRAFT")) stamp
      (run h drafted (new_manager h))).1

overlay_contradicts : (get_state raced "svc" ≡ some "ACTIVE") × (is_enabled raced "svc" ≡ false)
unfolding run register record_event seal get_state is_enabled lookup insert transition
    transition_from valid_transitions enable_after disable_after
overlay_contradicts = (refl, refl)
