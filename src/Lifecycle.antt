-- ===== src/Lifecycle.antt =====
-- platform_lifecycle_manager.py: `LifecycleManager`. A method takes the state and the stamp (the
-- fresh uuid4 and the wall clock's text) and returns its result and the new state; a raised
-- ValueError is an `err`. Every method holds the lock for its whole update, and is one step here.
pub mod Session
pub mod Transitions
pub mod Evidence
pub mod Overlay
use bhiv_qcg.Prelude.{
  ℕ, ◌+◌, String, Bool, true, false, not, ◌&&◌, Option, none, some, List, [], ◌∷◌, ◌++◌, ◌==◌,
  if◌then◌else◌, length, mem,
}
use bhiv_qcg.Prelude.Dict.{Dict, lookup, insert}
use bhiv_qcg.Prelude.Hashing.{Hashing, Json, str, object, end, field}
use bhiv_qcg.Chain.{verify_from}

abbrev pub lifecycle_states : List String
lifecycle_states = "DRAFT" ∷ "ACTIVE" ∷ "DEPRECATED" ∷ "RETIRED" ∷ []

-- `VALID_TRANSITIONS.get(current, set())`
unfoldable pub valid_transitions : String → List String
valid_transitions current =
    if current == "DRAFT"
    then "ACTIVE" ∷ []
    else if current == "ACTIVE"
    then "DEPRECATED" ∷ "DRAFT" ∷ []
    else if current == "DEPRECATED"
    then "RETIRED" ∷ "ACTIVE" ∷ []
    else []

pub record LifecycleEvent : Type 0 where
  pub event_id : String
  pub service_id : String
  pub action : String
  pub previous_state : String
  pub new_state : String
  pub actor : String
  pub reason : String
  pub timestamp : String
  pub event_hash : String
  pub previous_event_hash : String
  -- the two entries of `replay_metadata`
  pub chain_length : ℕ
  pub head_hash_before : String

pub record Stamp : Type 0 where
  pub event_id : String
  pub timestamp : String

pub record LifecycleManager : Type 0 where
  pub service_states : Dict String
  pub service_enabled : Dict Bool
  pub events : List LifecycleEvent
  pub head_hash : String

pub data LifecycleError : Type 0 where
  invalid_initial_state : String → LifecycleError
  not_registered : String → LifecycleError
  invalid_target_state : String → LifecycleError
  invalid_transition : String → String → LifecycleError

pub data Result : Type 0 where
  ok : LifecycleEvent → Result
  err : LifecycleError → Result

unfoldable pub get_state : LifecycleManager → String → Option String
get_state m service_id = lookup service_id m.service_states

-- `self._service_enabled.get(service_id, True)`
abbrev pub enabled_overlay : Option Bool → Bool
enabled_overlay none = true
enabled_overlay (some b) = b

unfoldable pub is_enabled : LifecycleManager → String → Bool
is_enabled m service_id = elim (lookup service_id m.service_states) [
  | none ↦ false
  | some state ↦ state == "ACTIVE" && enabled_overlay (lookup service_id m.service_enabled)
]

unfoldable pub action_for_transition : String → String → String
action_for_transition from_state to_state =
    if from_state == "DRAFT" && to_state == "ACTIVE"
    then "ENABLE"
    else if from_state == "ACTIVE" && to_state == "DRAFT"
    then "DISABLE"
    else if from_state == "ACTIVE" && to_state == "DEPRECATED"
    then "DEPRECATE"
    else if from_state == "DEPRECATED" && to_state == "ACTIVE"
    then "ENABLE"
    else if from_state == "DEPRECATED" && to_state == "RETIRED"
    then "RETIRE"
    else "TRANSITION"

-- The dict that is digested, in the order of its sorted keys.
unfoldable pub event_seed : String → LifecycleEvent → Json
event_seed head e = object (
    field "action" (str e.action) (
      field "actor" (str e.actor) (
        field "event_id" (str e.event_id) (
          field "new_state" (str e.new_state) (
            field "previous_hash" (str head) (
              field "previous_state" (str e.previous_state)
                (field "reason" (str e.reason) (field "service_id" (str e.service_id) end))))))))

abbrev pub event_hash_of : LifecycleEvent → String
event_hash_of e = e.event_hash

abbrev pub previous_hash_of : LifecycleEvent → String
previous_hash_of e = e.previous_event_hash

-- `reason or default`
abbrev pub or_default : String → String → String
or_default reason default = if reason == "" then default else reason

-- The two dict writes before an event is recorded.
abbrev pub write_state : String → String → LifecycleManager → LifecycleManager
write_state service_id state m = record m {
  service_states = insert service_id state m.service_states;
  service_enabled = insert service_id (state == "ACTIVE") m.service_enabled;
}

abbrev pub state_is : Option String → String → Bool
state_is none s = false
state_is (some t) s = t == s

-- `current or "UNKNOWN"`
abbrev pub or_unknown : Option String → String
or_unknown none = "UNKNOWN"
or_unknown (some s) = or_default s "UNKNOWN"

module _ (h : Hashing) where
  -- `hashlib.sha256(b"LIFECYCLE_GENESIS").hexdigest()`
  abbrev pub genesis : String
  genesis = h.sha256 "LIFECYCLE_GENESIS"

  abbrev pub new_manager : LifecycleManager
  new_manager = record {
    service_states = [];
    service_enabled = [];
    events = [];
    head_hash = genesis;
  }

  -- The event before its hash is known; the digest does not read the hash.
  abbrev pub unsealed :
      String
      → String
      → String
      → String
      → String
      → String
      → Stamp
      → LifecycleManager
      → LifecycleEvent
  unsealed service_id action previous_state new_state actor reason stamp m = record {
    event_id = stamp.event_id;
    service_id = service_id;
    action = action;
    previous_state = previous_state;
    new_state = new_state;
    actor = actor;
    reason = reason;
    timestamp = stamp.timestamp;
    event_hash = "";
    previous_event_hash = m.head_hash;
    chain_length = length m.events + 1;
    head_hash_before = m.head_hash;
  }

  -- `event_hash = sha256(dumps(..))`, then `self._events.append(event)` and the new head.
  unfoldable pub seal : LifecycleManager → LifecycleEvent → Result × LifecycleManager
  seal m e =
      let hash = h.sha256 (h.dumps (event_seed m.head_hash e)) in
      let event = record e { event_hash = hash } in
      (ok event, record m { events = m.events ++ event ∷ []; head_hash = hash })

  unfoldable pub record_event :
      String
      → String
      → String
      → String
      → String
      → String
      → Stamp
      → LifecycleManager
      → Result × LifecycleManager
  record_event service_id action previous_state new_state actor reason stamp m =
      seal m (unsealed service_id action previous_state new_state actor reason stamp m)

  unfoldable pub register :
      String → String → String → String → Stamp → LifecycleManager → Result × LifecycleManager
  register service_id initial_state actor reason stamp m =
      if not (mem initial_state lifecycle_states)
      then (err (invalid_initial_state initial_state), m)
      else record_event service_id "REGISTER" "NONE" initial_state actor reason stamp
          (write_state service_id initial_state m)

  -- `transition`, from the state that `self._service_states.get(service_id)` found.
  unfoldable pub transition_from :
      Option String
      → String
      → String
      → String
      → String
      → Stamp
      → LifecycleManager
      → Result × LifecycleManager
  transition_from none service_id target_state actor reason stamp m =
      (err (not_registered service_id), m)
  transition_from (some current) service_id target_state actor reason stamp m =
      if not (mem target_state lifecycle_states)
      then (err (invalid_target_state target_state), m)
      else if not (mem target_state (valid_transitions current))
      then (err (invalid_transition current target_state), m)
      else record_event service_id (action_for_transition current target_state) current target_state
          actor reason stamp (write_state service_id target_state m)

  unfoldable pub transition :
      String → String → String → String → Stamp → LifecycleManager → Result × LifecycleManager
  transition service_id target_state actor reason stamp m =
      transition_from (lookup service_id m.service_states) service_id target_state actor reason
        stamp m

  -- The rest of `enable`, from the state that `get_state` read. The lock is free in between, so other
  -- calls may have run since.
  unfoldable pub enable_after :
      Option String → String → String → Stamp → LifecycleManager → Result × LifecycleManager
  enable_after read service_id actor stamp m =
      if state_is read "ACTIVE"
      then record_event service_id "ENABLE" "ACTIVE" "ACTIVE" actor "Re-enabled active service"
          stamp (record m { service_enabled = insert service_id true m.service_enabled })
      else transition service_id "ACTIVE" actor "Enabled by operator" stamp m

  -- `enable` and `disable`, undisturbed
  unfoldable pub enable : String → String → Stamp → LifecycleManager → Result × LifecycleManager
  enable service_id actor stamp m = enable_after (get_state m service_id) service_id actor stamp m

  unfoldable pub disable_after :
      Option String → String → String → Stamp → LifecycleManager → Result × LifecycleManager
  disable_after read service_id actor stamp m =
      if state_is read "ACTIVE"
      then transition service_id "DRAFT" actor "Disabled by operator" stamp m
      else record_event service_id "DISABLE" (or_unknown read) (or_unknown read) actor
          "Disable requested (already inactive)" stamp
          (record m { service_enabled = insert service_id false m.service_enabled })

  unfoldable pub disable : String → String → Stamp → LifecycleManager → Result × LifecycleManager
  disable service_id actor stamp m = disable_after (get_state m service_id) service_id actor stamp m

  unfoldable pub deprecate :
      String → String → String → Stamp → LifecycleManager → Result × LifecycleManager
  deprecate service_id actor reason stamp m =
      transition service_id "DEPRECATED" actor (or_default reason "Deprecated by operator") stamp m

  unfoldable pub retire :
      String → String → String → Stamp → LifecycleManager → Result × LifecycleManager
  retire service_id actor reason stamp m =
      transition service_id "RETIRED" actor (or_default reason "Retired by operator") stamp m

  unfoldable pub verify_chain : LifecycleManager → Bool
  verify_chain m =
      verify_from h previous_hash_of event_hash_of event_seed genesis m.events m.head_hash
