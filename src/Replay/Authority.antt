-- ===== src/Replay/Authority.antt =====
-- canonical_replay_authority.py: `CanonicalReplayAuthority` over a `ReplayRegistry`. `uuid5` and the
-- ISO time stamp are arguments, the hash functions a parameter.
pub mod Lineage
use bhiv_qcg.Prelude.Decimal.{decimal}
use bhiv_qcg.Prelude.{
  ℕ, ◌-◌, String, Option, none, some, List, [], ◌∷◌, ◌==◌, ltb, leb, if◌then◌else◌, length,
}
use bhiv_qcg.Prelude.Dict.{Dict, lookup, insert}
use bhiv_qcg.Prelude.Hashing.{Json, str, num, object, Fields, end, field, Hashing}
use bhiv_qcg.Replay.Registry.{
  Status, valid, duplicate, stale, future, RegistryDecision, ReplayRegistry,
}
use bhiv_qcg.Replay.Registry

abbrev pub status_text : Status → String
status_text valid = "VALID"
status_text duplicate = "DUPLICATE"
status_text stale = "STALE"
status_text future = "FUTURE"

abbrev pub schema_version : String
schema_version = "1.0.0"

abbrev pub origin : String
origin = "CanonicalReplayAuthority"

pub record ReplayLineageRecord : Type 0 where
  pub replay_id : String
  pub message_id : String
  pub sequence_number : ℕ
  pub decision : Status
  pub decision_timestamp : String
  pub origin_component : String
  pub version : String
  pub trace_reference : String
  pub parent_reference : String
  pub verification_hash : String

pub record ReplayVerdict : Type 0 where
  pub message_id : String
  pub sequence_number : ℕ
  pub status : Status
  pub reason : Registry.Reason
  pub lineage_record : ReplayLineageRecord

pub record Authority : Type 0 where
  pub registry : ReplayRegistry
  pub lineage_log : Dict ReplayLineageRecord
  pub all_verdicts : Dict ReplayVerdict

unfoldable pub parent_of : ℕ → String
parent_of seq = if ltb 1 seq then decimal (seq - 1) else ""

abbrev pub log_if_valid :
    Status → String → ReplayLineageRecord → Dict ReplayLineageRecord → Dict ReplayLineageRecord
log_if_valid valid message_id r log = insert message_id r log
log_if_valid _ message_id r log = log

-- `trace_reference or message_id`
abbrev pub trace_or : Option String → String → String
trace_or none message_id = message_id
trace_or (some t) message_id = if t == "" then message_id else t

unfoldable pub verdict_of : RegistryDecision → ReplayLineageRecord → ReplayVerdict
verdict_of d r = record {
  message_id = d.message_id;
  sequence_number = d.sequence_number;
  status = d.status;
  reason = d.reason;
  lineage_record = r;
}

module _ (h : Hashing) where
  unfoldable pub canonical : RegistryDecision → String → String
  canonical d trace = h.dumps (
      object (
        field "message_id" (str d.message_id) (
          field "sequence_number" (num d.sequence_number) (
            field "decision" (str (status_text d.status)) (
              field "origin" (str origin) (
                field "schema_version" (str schema_version) (
                  field "trace_reference" (str trace)
                    (field "parent_reference" (str (parent_of d.sequence_number)) end))))))))

module _ (h : Hashing) (uuid5 : String → String) where
  unfoldable pub build_lineage_record : RegistryDecision → String → String → ReplayLineageRecord
  build_lineage_record d trace now_iso = record {
    replay_id = uuid5 (canonical h d trace);
    message_id = d.message_id;
    sequence_number = d.sequence_number;
    decision = d.status;
    decision_timestamp = now_iso;
    origin_component = origin;
    version = schema_version;
    trace_reference = trace;
    parent_reference = parent_of d.sequence_number;
    verification_hash = h.sha256 (canonical h d trace);
  }

  -- The part of `submit` after the registry's answer.
  unfoldable pub record_decision :
      String
      → Option String
      → String
      → RegistryDecision × ReplayRegistry
      → Authority
      → ReplayVerdict × Authority
  record_decision message_id trace now_iso (d, registry) s =
      let r = build_lineage_record d (trace_or trace message_id) now_iso in
      let verdict = verdict_of d r in
      (
        verdict,
        record {
          registry = registry;
          lineage_log = log_if_valid d.status message_id r s.lineage_log;
          all_verdicts = insert message_id verdict s.all_verdicts;
        },
      )

  unfoldable pub submit :
      String → Option ℕ → Option String → ℕ → String → Authority → ReplayVerdict × Authority
  submit message_id issued_at trace now now_iso s =
      record_decision message_id trace now_iso (Registry.submit message_id issued_at now s.registry)
        s

unfoldable pub find_verdict : String → Authority → Option ReplayVerdict
find_verdict message_id s = lookup message_id s.all_verdicts

-- `sorted(self._lineage.values(), key=lambda r: r.sequence_number)`, stable
unfoldable pub insert_by_sequence :
    ReplayLineageRecord → List ReplayLineageRecord → List ReplayLineageRecord
insert_by_sequence r [] = r ∷ []
insert_by_sequence r (q ∷ qs) =
    if leb r.sequence_number q.sequence_number then r ∷ q ∷ qs else q ∷ insert_by_sequence r qs

unfoldable pub sorted_records : Dict ReplayLineageRecord → List ReplayLineageRecord
sorted_records [] = []
sorted_records ((k, r) ∷ log) = insert_by_sequence r (sorted_records log)

unfoldable pub lineage : Authority → List ReplayLineageRecord
lineage s = sorted_records s.lineage_log

unfoldable pub reset : Authority → Authority
reset s = record { registry = Registry.reset s.registry; lineage_log = []; all_verdicts = [] }

-- `sequence_status`: the counter, and the last record's number (0 without one)
unfoldable pub last_sequence : Dict ReplayLineageRecord → ℕ
last_sequence [] = 0
last_sequence ((k, r) ∷ []) = r.sequence_number
last_sequence ((k, r) ∷ x ∷ log) = last_sequence (x ∷ log)

unfoldable pub sequence_status : Authority → ℕ × ℕ
sequence_status s = (s.registry.sequence_counter, last_sequence s.lineage_log)

-- `valid_count` and `rejected_count` of `verification_report`
unfoldable pub counts : Authority → ℕ × ℕ
counts s = (length s.lineage_log, length s.all_verdicts - length s.lineage_log)

-- A session: submissions, each with the times that it reads.
pub record Submission : Type 0 where
  pub message_id : String
  pub issued_at : Option ℕ
  pub trace : Option String
  pub now : ℕ
  pub now_iso : String

module _ (h : Hashing) (uuid5 : String → String) where
  unfoldable pub run : List Submission → Authority → Authority
  run [] s = s
  run (x ∷ xs) s = run xs (submit h uuid5 x.message_id x.issued_at x.trace x.now x.now_iso s).1
