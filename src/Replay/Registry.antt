-- ===== src/Replay/Registry.antt =====
-- replay_registry.py: `ReplayRegistry` with its backing file. The clock's value is an argument, and a
-- file is what `json.loads` reads from it. A reason text is kept as the numbers it is formatted from.
pub mod Restart
pub mod Counter
pub mod Answers
use bhiv_qcg.Prelude.{
  ℕ, ◌+◌, ◌-◌, String, Bool, Option, none, some, List, [], ◌∷◌, ltb, leb, if◌then◌else◌,
}
use bhiv_qcg.Prelude.Dict.{Dict, lookup, insert, contains}

pub data Status : Type 0 where
  valid duplicate stale future : Status

pub data Reason : Type 0 where
  no_reason : Reason
  too_old : ℕ → ℕ → Reason
  already_processed : ℕ → Reason
  gap : ℕ → ℕ → Reason

pub record RegistryDecision : Type 0 where
  pub message_id : String
  pub sequence_number : ℕ
  pub status : Status
  pub reason : Reason

pub record RegistryEntry : Type 0 where
  pub message_id : String
  pub sequence_number : ℕ
  pub issued_at : ℕ

-- The object that `_persist` writes.
pub record Saved : Type 0 where
  pub sequence_counter : ℕ
  pub entries : Dict RegistryEntry

-- What the file holds. A JSON value that is no object, which the program never writes and on which
-- `_load` raises, is left out.
pub data File : Type 0 where
  missing blank corrupt : File
  saved : Saved → File

pub record ReplayRegistry : Type 0 where
  pub ttl : ℕ
  pub max_gap : ℕ
  pub entries : Dict RegistryEntry
  pub sequence_counter : ℕ
  pub file : File

-- `for mid, entry_data in data["entries"].items(): self._entries[mid] = ...`
unfoldable pub read_entries : Dict RegistryEntry → Dict RegistryEntry → Dict RegistryEntry
read_entries [] acc = acc
read_entries ((mid, e) ∷ rest) acc = read_entries rest (insert mid e acc)

-- `_load`
unfoldable pub load : ReplayRegistry → File → ReplayRegistry
load s missing = s
load s blank = s
load s corrupt = record s { entries = []; sequence_counter = 0 }
load s (saved found) = record s {
  sequence_counter = found.sequence_counter;
  entries = read_entries found.entries s.entries;
}

-- `ReplayRegistry(path, ttl_seconds, max_sequence_gap)`, with the file found at the path
unfoldable pub open_registry : ℕ → ℕ → File → ReplayRegistry
open_registry ttl max_gap file =
    load (record { ttl = ttl; max_gap = max_gap; entries = []; sequence_counter = 0; file = file })
      file

-- `_persist`
unfoldable pub persist : ReplayRegistry → ReplayRegistry
persist s = record s {
  file = saved (record { sequence_counter = s.sequence_counter; entries = s.entries });
}

-- The part of `submit` under the lock, from the entry of the message.
unfoldable pub submit_fresh :
    Option RegistryEntry → String → ℕ → ReplayRegistry → RegistryDecision × ReplayRegistry
submit_fresh (some e) message_id issued s = (
  record {
    message_id = message_id;
    sequence_number = e.sequence_number;
    status = duplicate;
    reason = already_processed e.sequence_number;
  },
  s,
)
submit_fresh none message_id issued s =
    let next_seq = s.sequence_counter + 1 in
    if ltb s.max_gap (next_seq - s.sequence_counter)
    then (
      record {
        message_id = message_id;
        sequence_number = 0;
        status = future;
        reason = gap (next_seq - s.sequence_counter) s.max_gap;
      },
      s,
    )
    else (
      record {
        message_id = message_id;
        sequence_number = next_seq;
        status = valid;
        reason = no_reason;
      },
      persist (record s {
        sequence_counter = next_seq;
        entries =
            insert message_id
              (record { message_id = message_id; sequence_number = next_seq; issued_at = issued })
              s.entries;
      }),
    )

abbrev pub or_now : Option ℕ → ℕ → ℕ
or_now none now = now
or_now (some t) now = t

unfoldable pub submit : String → Option ℕ → ℕ → ReplayRegistry → RegistryDecision × ReplayRegistry
submit message_id issued_at now s =
    let issued = or_now issued_at now in
    if ltb (issued + s.ttl) now
    then (
      record {
        message_id = message_id;
        sequence_number = 0;
        status = stale;
        reason = too_old (now - issued) s.ttl;
      },
      s,
    )
    else submit_fresh (lookup message_id s.entries) message_id issued s

unfoldable pub validate_sequence_order : ℕ → ReplayRegistry → Status
validate_sequence_order n s =
    if leb n 0 then stale else if ltb (s.sequence_counter + s.max_gap) n then future else valid

unfoldable pub is_known : String → ReplayRegistry → Bool
is_known message_id s = contains message_id s.entries

unfoldable pub reset : ReplayRegistry → ReplayRegistry
reset s = persist (record s { entries = []; sequence_counter = 0 })

-- The calls that change a registry.
pub data Call : Type 0 where
  submits : String → Option ℕ → ℕ → Call
  resets : Call

unfoldable pub run_call : Call → ReplayRegistry → ReplayRegistry
run_call (submits m t now) s = (submit m t now s).1
run_call resets s = reset s

unfoldable pub run : List Call → ReplayRegistry → ReplayRegistry
run [] s = s
run (c ∷ cs) s = run cs (run_call c s)
