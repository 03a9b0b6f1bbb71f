-- ===== src/Replay/Enforcer.antt =====
-- replay_enforcer.py: `ReplayEnforcer`, one call of `submit` at a time (it holds the lock). The clock's
-- value is an argument. The reason texts are kept as the numbers that they are formatted from.
pub mod Bounds
pub mod Once
use bhiv_qcg.Prelude.{
  ℕ, zero, suc, ◌+◌, ◌-◌, ◌/◌, max, String, Bool, Option, none, some, List, [], ◌∷◌, ltb, leb,
  if◌then◌else◌, length,
}
use bhiv_qcg.Prelude.Dict.{Dict, lookup, insert, erase}

-- `_EVICTION_THRESHOLD`
abbrev pub eviction_threshold : ℕ
eviction_threshold = 10_000

pub data Status : Type 0 where
  accepted rejected_duplicate rejected_stale : Status

pub data Reason : Type 0 where
  no_reason : Reason
  too_old : ℕ → ℕ → Reason
  already_processed : ℕ → Reason

pub record ReplayDecision : Type 0 where
  pub artifact_id : String
  pub sequence_id : ℕ
  pub status : Status
  pub reason : Reason

-- artifact_id -> (sequence_id, issued_at)
pub record ReplayEnforcer : Type 0 where
  pub ttl : ℕ
  pub sequence_counter : ℕ
  pub cache : Dict (ℕ × ℕ)

abbrev pub new_enforcer : ℕ → ReplayEnforcer
new_enforcer ttl = record { ttl = ttl; sequence_counter = 0; cache = [] }

-- `now - issued > self._ttl`
abbrev pub is_stale : ℕ → ℕ → ℕ → Bool
is_stale ttl issued now = ltb (issued + ttl) now

-- The keys of the entries outside the window.
unfoldable pub expired : ℕ → ℕ → Dict (ℕ × ℕ) → List String
expired ttl now [] = []
expired ttl now ((aid, entry) ∷ cache) =
    let rest = expired ttl now cache in if is_stale ttl entry.1 now then aid ∷ rest else rest

-- `for aid in aids: del self._cache[aid]`
unfoldable pub delete_all : List String → Dict (ℕ × ℕ) → Dict (ℕ × ℕ)
delete_all [] cache = cache
delete_all (aid ∷ aids) cache = delete_all aids (erase aid cache)

-- `sorted(items, key=lambda kv: kv[1][1])`, stable
unfoldable pub insert_by_issued : String × (ℕ × ℕ) → Dict (ℕ × ℕ) → Dict (ℕ × ℕ)
insert_by_issued x [] = x ∷ []
insert_by_issued x (y ∷ ys) = if leb x.1.1 y.1.1 then x ∷ y ∷ ys else y ∷ insert_by_issued x ys

unfoldable pub sort_by_issued : Dict (ℕ × ℕ) → Dict (ℕ × ℕ)
sort_by_issued [] = []
sort_by_issued (x ∷ xs) = insert_by_issued x (sort_by_issued xs)

-- The keys of `oldest[:n]`
unfoldable pub first_keys : ℕ → Dict (ℕ × ℕ) → List String
first_keys zero items = []
first_keys (suc n) [] = []
first_keys (suc n) (x ∷ items) = x.0 ∷ first_keys n items

-- "If nothing expired but cache is still at threshold, evict oldest by issued_at"
unfoldable pub evict_oldest : ℕ → Dict (ℕ × ℕ) → Dict (ℕ × ℕ)
evict_oldest threshold cache =
    if leb threshold (length cache)
    then delete_all (first_keys (max 1 (threshold / 10)) (sort_by_issued cache)) cache
    else cache

-- `_evict_if_needed`, for any threshold
unfoldable pub evict_if_needed : ℕ → ℕ → ℕ → Dict (ℕ × ℕ) → Dict (ℕ × ℕ)
evict_if_needed threshold ttl now cache =
    if ltb (length cache) threshold
    then cache
    else evict_oldest threshold (delete_all (expired ttl now cache) cache)

-- `issued_at` when it is None
abbrev pub or_now : Option ℕ → ℕ → ℕ
or_now none now = now
or_now (some t) now = t

-- The part of `submit` under the lock, from what the cache holds of the artifact.
unfoldable pub submit_fresh :
    ℕ → Option (ℕ × ℕ) → String → ℕ → ℕ → ReplayEnforcer → ReplayDecision × ReplayEnforcer
submit_fresh threshold (some entry) artifact_id issued now s = (
  record {
    artifact_id = artifact_id;
    sequence_id = entry.0;
    status = rejected_duplicate;
    reason = already_processed entry.0;
  },
  s,
)
submit_fresh threshold none artifact_id issued now s =
    let seq = s.sequence_counter + 1 in
    (
      record {
        artifact_id = artifact_id;
        sequence_id = seq;
        status = accepted;
        reason = no_reason;
      },
      record s {
        sequence_counter = seq;
        cache = evict_if_needed threshold s.ttl now (insert artifact_id (seq, issued) s.cache);
      },
    )

unfoldable pub submit_with :
    ℕ → String → Option ℕ → ℕ → ReplayEnforcer → ReplayDecision × ReplayEnforcer
submit_with threshold artifact_id issued_at now s =
    let issued = or_now issued_at now in
    if is_stale s.ttl issued now
    then (
      record {
        artifact_id = artifact_id;
        sequence_id = 0;
        status = rejected_stale;
        reason = too_old (now - issued) s.ttl;
      },
      s,
    )
    else submit_fresh threshold (lookup artifact_id s.cache) artifact_id issued now s

unfoldable pub submit : String → Option ℕ → ℕ → ReplayEnforcer → ReplayDecision × ReplayEnforcer
submit = submit_with eviction_threshold

unfoldable pub reset : ReplayEnforcer → ReplayEnforcer
reset s = record s { sequence_counter = 0; cache = [] }

-- A session: submissions with the times at which the clock is read.
pub record Submission : Type 0 where
  pub artifact_id : String
  pub issued_at : Option ℕ
  pub now : ℕ

unfoldable pub run : ℕ → List Submission → ReplayEnforcer → List ReplayDecision × ReplayEnforcer
run threshold [] s = ([], s)
run threshold (x ∷ xs) s =
    let (d, s') = submit_with threshold x.artifact_id x.issued_at x.now s in
    let (ds, last) = run threshold xs s' in (d ∷ ds, last)
