-- ===== src/Replay/Enforcer/Once.antt =====
-- replay_enforcer.py: which submissions are accepted, and how they are numbered.
use bhiv_qcg.Prelude.{
  ℕ, ◌+◌, ◌≤◌, ◌<◌, String, ◌≡◌, refl, ◌≢◌, inl, inr, Bool, true, false, ◌&&◌, Option, none, some,
  List, [], ◌∷◌, arith, ◌==◌, eq_iff, eqb, if◌then◌else◌, Bool-cases, lt→ltb, length,
}
use bhiv_qcg.Prelude.Dict.{Dict, lookup, insert, lookup-insert, length-insert}
use bhiv_qcg.Replay.Enforcer.{
  accepted, ReplayDecision, ReplayEnforcer, is_stale, or_now, evict_if_needed, submit_fresh,
  submit_with, Submission, run,
}

abbrev pub is_accepted : ReplayDecision → Bool
is_accepted d = elim d.status [ accepted ↦ true | _ ↦ false ]

-- The sequence ids of the accepted artifacts, in order.
abbrev pub accepted_ids : List ReplayDecision → List ℕ
accepted_ids [] = []
accepted_ids (d ∷ ds) = if is_accepted d then d.sequence_id ∷ accepted_ids ds else accepted_ids ds

-- `n + 1, n + 2, ...`, as many as the list `ids` has items.
abbrev pub consecutive : ℕ → List ℕ → Bool
consecutive n [] = true
consecutive n (i ∷ ids) = eqb i (n + 1) && consecutive (n + 1) ids

accepted_next :
    (threshold : ℕ) (found : Option (ℕ × ℕ)) (aid : String) (issued now : ℕ) (s : ReplayEnforcer)
    (ds : List ReplayDecision)
    → consecutive
        (submit_fresh threshold found aid issued now s).1.sequence_counter
        (accepted_ids ds)
      ≡ true
    → consecutive s.sequence_counter
        (accepted_ids ((submit_fresh threshold found aid issued now s).0 ∷ ds))
      ≡ true
unfolding submit_fresh
accepted_next threshold (some e) aid issued now s ds h = h
accepted_next threshold none aid issued now s ds h = ground (arith, h)

-- Over any session, the accepted artifacts are numbered one after the other, from the counter on.
run-consecutive :
    (threshold : ℕ) (xs : List Submission) (s : ReplayEnforcer)
    → consecutive s.sequence_counter (accepted_ids (run threshold xs s).0) ≡ true
unfolding run submit_with
run-consecutive threshold [] s = refl
run-consecutive threshold (x ∷ xs) s =
    elim (Bool-cases (is_stale s.ttl (or_now x.issued_at x.now) x.now)) [
      | inl stale ↦ rw stale (run-consecutive threshold xs s)
      | inr fresh ↦ rw fresh (
          accepted_next threshold (lookup x.artifact_id s.cache) x.artifact_id
            (or_now x.issued_at x.now) x.now s
            (run threshold xs
              (submit_fresh threshold (lookup x.artifact_id s.cache) x.artifact_id
                (or_now x.issued_at x.now) x.now s).1).0
            (run-consecutive threshold xs
              (submit_fresh threshold (lookup x.artifact_id s.cache) x.artifact_id
                (or_now x.issued_at x.now) x.now s).1))
    ]

-- How often the artifact is accepted.
abbrev pub times_accepted : String → List ReplayDecision → ℕ
times_accepted aid [] = 0
times_accepted aid (d ∷ ds) =
    let rest = times_accepted aid ds in
    if is_accepted d && (d.artifact_id == aid) then rest + 1 else rest

-- What is still open to an artifact: nothing, once it is in the cache.
abbrev still_open : Option (ℕ × ℕ) → ℕ
still_open none = 1
still_open (some e) = 0

with_room :
    (threshold ttl now : ℕ) (aid : String) (e : ℕ × ℕ) (d : Dict (ℕ × ℕ))
    → length d + 1 < threshold
    → evict_if_needed threshold ttl now (insert aid e d) ≡ insert aid e d
unfolding evict_if_needed
with_room threshold ttl now aid e d room =
    rw (lt→ltb (length (insert aid e d)) threshold (omega (arith, length-insert aid e d))) refl

-- One step under the lock: it accepts the artifact at most as often as is open before, less what is open after.
step_once :
    (threshold : ℕ) (found : Option (ℕ × ℕ)) (aid other : String) (issued now : ℕ)
    (s : ReplayEnforcer)
    → lookup aid s.cache ≡ found
    → (is_accepted (submit_fresh threshold found aid issued now s).0 ≡ true
        → length s.cache + 1 < threshold)
    → times_accepted other ((submit_fresh threshold found aid issued now s).0 ∷ [])
        + still_open (lookup other (submit_fresh threshold found aid issued now s).1.cache)
      ≤ still_open (lookup other s.cache)
unfolding submit_fresh
step_once threshold (some e) aid other issued now s here room = omega arith
step_once threshold none aid other issued now s here room =
    rw (with_room threshold s.ttl now aid (s.sequence_counter + 1, issued) s.cache (room refl)) (
      ground
        (arith, lookup-insert aid other (s.sequence_counter + 1, issued) s.cache, eq_iff aid other))

times_accepted-cons :
    (aid : String) (d : ReplayDecision) (ds : List ReplayDecision)
    → times_accepted aid (d ∷ ds) ≡ times_accepted aid (d ∷ []) + times_accepted aid ds
times_accepted-cons aid d ds = ground arith

-- Over the session, no accepted artifact fills the cache up to the threshold.
abbrev pub IsRoomy : ℕ → List Submission → ReplayEnforcer → Type 0
IsRoomy threshold [] s = Unit
IsRoomy threshold (x ∷ xs) s =
    (is_accepted (submit_with threshold x.artifact_id x.issued_at x.now s).0 ≡ true
      → length s.cache + 1 < threshold)
    × IsRoomy threshold xs (submit_with threshold x.artifact_id x.issued_at x.now s).1

run_once :
    (threshold : ℕ) (aid : String) (xs : List Submission) (s : ReplayEnforcer)
    → IsRoomy threshold xs s
    → times_accepted aid (run threshold xs s).0 ≤ still_open (lookup aid s.cache)
unfolding run submit_with
run_once threshold aid [] s room = omega arith
run_once threshold aid (x ∷ xs) s room =
    elim (Bool-cases (is_stale s.ttl (or_now x.issued_at x.now) x.now)) [
      | inl stale ↦ rw stale (run_once threshold aid xs s (rw stale at room).1)
      | inr fresh ↦
          rw fresh
            let issued = or_now x.issued_at x.now in
              let found = lookup x.artifact_id s.cache in
              let next = submit_fresh threshold found x.artifact_id issued x.now s in
              let space = rw fresh at room in
              let step = step_once threshold found x.artifact_id aid issued x.now s refl space.0 in
              let rest = run_once threshold aid xs next.1 space.1 in
              omega (arith, step, rest, times_accepted-cons aid next.0 (run threshold xs next.1).0)
    ]

still_open-le : (o : Option (ℕ × ℕ)) → still_open o ≤ 1
still_open-le none = omega arith
still_open-le (some e) = omega arith

still_open-known : (o : Option (ℕ × ℕ)) → o ≢ none → still_open o ≡ 0
still_open-known none h = absurd (h refl)
still_open-known (some e) h = refl

-- A session in which no accepted artifact fills the cache up to the eviction threshold, however many
-- submissions are duplicates or stale, accepts each artifact at most once, and none that is in the cache
-- at its start.
pub run_accepts_once :
    (threshold : ℕ) (aid : String) (xs : List Submission) (s : ReplayEnforcer)
    → IsRoomy threshold xs s
    → (times_accepted aid (run threshold xs s).0 ≤ 1)
      × (lookup aid s.cache ≢ none → times_accepted aid (run threshold xs s).0 ≡ 0)
run_accepts_once threshold aid xs s room =
    let once = run_once threshold aid xs s room in
    (
      omega (arith, once, still_open-le (lookup aid s.cache)),
      λ known. omega (arith, once, still_open-known (lookup aid s.cache) known),
    )
