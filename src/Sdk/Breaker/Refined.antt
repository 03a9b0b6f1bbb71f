-- ===== src/Sdk/Breaker/Refined.antt =====
-- platform_capability_sdk.py: what a circuit breaker promises. It counts the failures since the last
-- success; a request passes unless there are as many as the threshold and the last is too recent.
use bhiv_qcg.Prelude.{
  ℕ, ◌+◌, ◌≤◌, ◌<◌, ◌≡◌, refl, inl, inr, Bool, ◌||◌, List, [], ◌∷◌, arith, ltb, leb, if◌then◌else◌,
  Bool-cases,
}
use bhiv_qcg.Sdk.Breaker.{
  CircuitState, closed, open_circuit, half_open, CircuitBreaker, new_breaker, probed, current,
  admits, allow_request, record_success, record_failure,
}

-- The calls of a breaker: a request asks, and its outcome is recorded.
pub data Call : Type 0 where
  asks succeeds fails : Call

abbrev pub run_call : ℕ → Call → CircuitBreaker → CircuitBreaker
run_call now asks b = (allow_request now b).1
run_call now succeeds b = record_success b
run_call now fails b = record_failure now b

unfoldable pub run : List (ℕ × Call) → CircuitBreaker → CircuitBreaker
run [] b = b
run ((now, c) ∷ cs) b = run cs (run_call now c b)

-- The abstract state: failures since the last success, and the time of the last failure.
pub record Tally : Type 0 where
  pub failures : ℕ
  pub last : ℕ

abbrev pub count : ℕ → Call → Tally → Tally
count now asks t = t
count now succeeds t = record t { failures = 0 }
count now fails t = record { failures = t.failures + 1; last = now }

abbrev pub tally : List (ℕ × Call) → Tally → Tally
tally [] t = t
tally ((now, c) ∷ cs) t = tally cs (count now c t)

abbrev pub passes : ℕ → ℕ → ℕ → Tally → Bool
passes threshold timeout now t = ltb t.failures threshold || leb (t.last + timeout) now

-- The times do not go back, from `clock` on and up to `now`.
abbrev pub IsTimed : ℕ → List (ℕ × Call) → ℕ → Type 0
IsTimed clock [] now = clock ≤ now
IsTimed clock ((time, c) ∷ cs) now = (clock ≤ time) × IsTimed time cs now

-- How the state of a breaker stands to the tally, at a time.
abbrev pub Shows : ℕ → ℕ → ℕ → CircuitState → Tally → Type 0
Shows threshold timeout clock closed t = t.failures < threshold
Shows threshold timeout clock open_circuit t = threshold ≤ t.failures
Shows threshold timeout clock half_open t = (threshold ≤ t.failures) × (t.last + timeout ≤ clock)

pub record IsShown (threshold timeout clock : ℕ) (b : CircuitBreaker) (t : Tally) : Type 0 where
  pub same_threshold : b.failure_threshold ≡ threshold
  pub same_timeout : b.reset_timeout ≡ timeout
  pub same_failures : b.failure_count ≡ t.failures
  pub same_last : b.last_failure_time ≡ t.last
  pub shows : Shows threshold timeout clock b.state t

probed-Shows :
    (threshold timeout clock now : ℕ) (s : CircuitState) (t : Tally)
    → clock ≤ now
    → Shows threshold timeout clock s t
    → Shows threshold timeout now (probed (leb (t.last + timeout) now) s) t
probed-Shows threshold timeout clock now closed t le w = w
probed-Shows threshold timeout clock now half_open t le w = (w.0, omega (arith, w.1, le))
probed-Shows threshold timeout clock now open_circuit t le w =
    elim (Bool-cases (leb (t.last + timeout) now)) [
      | inl elapsed ↦ rw elapsed (w, ground (arith, elapsed))
      | inr early ↦ rw early w
    ]

admits-passes :
    (threshold timeout clock now : ℕ) (s : CircuitState) (t : Tally)
    → clock ≤ now
    → Shows threshold timeout clock s t
    → admits (probed (leb (t.last + timeout) now) s) ≡ passes threshold timeout now t
admits-passes threshold timeout clock now closed t le w = ground (arith, w)
admits-passes threshold timeout clock now half_open t le w = ground (arith, w, le)
admits-passes threshold timeout clock now open_circuit t le w = ground (arith, w)

allowed_lem :
    (threshold timeout clock now : ℕ) (b : CircuitBreaker) (t : Tally)
    → clock ≤ now
    → IsShown threshold timeout clock b t
    → (allow_request now b).0 ≡ passes threshold timeout now t
unfolding allow_request current
allowed_lem threshold timeout clock now b t le w =
    rw (w.same_last, w.same_timeout)
      (admits-passes threshold timeout clock now b.state t le w.shows)

under-Shows :
    (threshold timeout clock now : ℕ) (s : CircuitState) (t : Tally)
    → Shows threshold timeout clock s t
    → t.failures + 1 < threshold
    → Shows threshold timeout now s (record { failures = t.failures + 1; last = now })
under-Shows threshold timeout clock now closed t w under = under
under-Shows threshold timeout clock now open_circuit t w under = omega (arith, w)
under-Shows threshold timeout clock now half_open t w under = absurd (omega (arith, w.0, under))

failed-Shows :
    (threshold timeout clock now : ℕ) (s : CircuitState) (t : Tally)
    → Shows threshold timeout clock s t
    → Shows threshold timeout now
        (if leb threshold (t.failures + 1) then open_circuit else s)
        (record { failures = t.failures + 1; last = now })
failed-Shows threshold timeout clock now s t w =
    elim (Bool-cases (leb threshold (t.failures + 1))) [
      | inl over ↦ rw over (ground (arith, over))
      | inr under ↦ rw under (under-Shows threshold timeout clock now s t w (ground (arith, under)))
    ]

run_call-IsShown :
    (threshold timeout clock now : ℕ) (c : Call) (b : CircuitBreaker) (t : Tally)
    → 0 < threshold
    → clock ≤ now
    → IsShown threshold timeout clock b t
    → IsShown threshold timeout now (run_call now c b) (count now c t)
unfolding allow_request current record_success record_failure
run_call-IsShown threshold timeout clock now asks b t pos le w = record {
  same_threshold = w.same_threshold;
  same_timeout = w.same_timeout;
  same_failures = w.same_failures;
  same_last = w.same_last;
  shows =
      rw (w.same_last, w.same_timeout)
        (probed-Shows threshold timeout clock now b.state t le w.shows);
}
run_call-IsShown threshold timeout clock now succeeds b t pos le w = record {
  same_threshold = w.same_threshold;
  same_timeout = w.same_timeout;
  same_failures = refl;
  same_last = w.same_last;
  shows = pos;
}
run_call-IsShown threshold timeout clock now fails b t pos le w = record {
  same_threshold = w.same_threshold;
  same_timeout = w.same_timeout;
  same_failures = omega (arith, w.same_failures);
  same_last = refl;
  shows =
      rw (w.same_threshold, w.same_failures)
        (failed-Shows threshold timeout clock now b.state t w.shows);
}

run-allowed :
    (threshold timeout clock now : ℕ) (cs : List (ℕ × Call)) (b : CircuitBreaker) (t : Tally)
    → 0 < threshold
    → IsTimed clock cs now
    → IsShown threshold timeout clock b t
    → (allow_request now (run cs b)).0 ≡ passes threshold timeout now (tally cs t)
unfolding run
run-allowed threshold timeout clock now [] b t pos timed w =
    allowed_lem threshold timeout clock now b t timed w
run-allowed threshold timeout clock now ((time, c) ∷ cs) b t pos timed w =
    run-allowed threshold timeout time now cs (run_call time c b) (count time c t) pos timed.1
      (run_call-IsShown threshold timeout clock time c b t pos timed.0 w)

-- A breaker with a positive threshold, after any calls at times that do not go back, lets a request
-- through exactly when fewer failures than the threshold were recorded since the last success, or the
-- time since the last failure has reached the timeout. In the second case it lets every request
-- through, until an outcome is recorded.
pub allow_request_refines :
    (threshold timeout now : ℕ) (cs : List (ℕ × Call))
    → 0 < threshold
    → IsTimed 0 cs now
    → (allow_request now (run cs (new_breaker threshold timeout))).0
      ≡ passes threshold timeout now (tally cs (record { failures = 0; last = 0 }))
allow_request_refines threshold timeout now cs pos timed =
    run-allowed threshold timeout 0 now cs (new_breaker threshold timeout)
      (record { failures = 0; last = 0 }) pos timed
      (record {
        same_threshold = refl;
        same_timeout = refl;
        same_failures = refl;
        same_last = refl;
        shows = pos;
      })
