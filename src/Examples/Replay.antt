-- ===== src/Examples/Replay.antt =====
-- Sessions of replay protection on which the theorems are applied.
use bhiv_qcg.Prelude.{ℕ, ◌≤◌, String, ◌≡◌, refl, ◌≢◌, none, some, List, [], ◌∷◌, arith, length}
use bhiv_qcg.Prelude.Dict.{lookup, insert}
use bhiv_qcg.Replay.Enforcer
use bhiv_qcg.Replay.Enforcer.Once.{IsRoomy, times_accepted, run_accepts_once}
use bhiv_qcg.Replay.Registry
use bhiv_qcg.Replay.Registry.{resets, submits}
use bhiv_qcg.Replay.Registry.Restart.{restart-run}
use bhiv_qcg.Replay.Authority
use bhiv_qcg.Replay.Authority.Lineage.{Linked, lineage-Linked}
use bhiv_qcg.Examples.Toy.{plain}

abbrev sent : String → ℕ → Enforcer.Submission
sent aid now = record { artifact_id = aid; issued_at = none; now = now }

abbrev session : List Enforcer.Submission
session = sent "a" 1 ∷ sent "b" 2 ∷ sent "a" 3 ∷ sent "a" 4 ∷ sent "a" 5 ∷ sent "c" 6 ∷ []

abbrev fresh : Enforcer.ReplayEnforcer
fresh = Enforcer.new_enforcer 300

-- Six submissions of three artifacts, below a threshold of four.
session-IsRoomy : IsRoomy 4 session fresh
unfolding Enforcer.submit_with Enforcer.submit_fresh Enforcer.evict_if_needed lookup insert
session-IsRoomy = (
  (λ k. omega arith),
  (
    (λ k. omega arith),
    ((λ k. omega arith), ((λ k. omega arith), ((λ k. omega arith), ((λ k. omega arith), tt)))),
  ),
)

run_accepts_once_example :
    (times_accepted "a" (Enforcer.run 4 session fresh).0 ≤ 1)
    × (lookup "a" fresh.cache ≢ none → times_accepted "a" (Enforcer.run 4 session fresh).0 ≡ 0)
run_accepts_once_example = run_accepts_once 4 "a" session fresh session-IsRoomy

abbrev calls : List Registry.Call
calls = submits "m" none 5 ∷ submits "n" (some 4) 6 ∷ submits "m" none 7 ∷ []

restart-run_example :
    let last = Registry.run calls (Registry.open_registry 300 100 Registry.corrupt) in
    Registry.open_registry last.ttl last.max_gap last.file ≡ last
restart-run_example = restart-run 300 100 Registry.corrupt calls

abbrev new_registry : Registry.ReplayRegistry
new_registry = record {
  ttl = 300;
  max_gap = 100;
  entries = [];
  sequence_counter = 0;
  file = Registry.missing;
}

first_is_valid : (Registry.submit "m" none 5 new_registry).0.status ≡ Registry.valid
unfolding Registry.submit Registry.submit_fresh lookup
first_is_valid = refl

abbrev new_authority : Authority.Authority
new_authority = record { registry = new_registry; lineage_log = []; all_verdicts = [] }

abbrev asked : String → ℕ → Authority.Submission
asked m now = record { message_id = m; issued_at = none; trace = none; now = now; now_iso = "t" }

lineage-Linked_example :
    let last =
      Authority.run
        (plain "message_id")
        (λ s. s)
        (asked "m" 1 ∷ asked "m" 2 ∷ asked "n" 3 ∷ [])
        new_authority in
    Linked (plain "message_id") 0 (Authority.lineage last)
    × (length (Authority.lineage last) ≡ last.registry.sequence_counter)
lineage-Linked_example =
    lineage-Linked (plain "message_id") (λ s. s) (asked "m" 1 ∷ asked "m" 2 ∷ asked "n" 3 ∷ [])
      new_authority (tt, refl)
