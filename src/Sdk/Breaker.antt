-- ===== src/Sdk/Breaker.antt =====
-- platform_capability_sdk.py: `CircuitBreaker`. Times are numbers of milliseconds, as arguments.
pub mod Refined
use bhiv_qcg.Prelude.{ℕ, ◌+◌, Bool, true, false, leb, if◌then◌else◌}

pub data CircuitState : Type 0 where
  closed open_circuit half_open : CircuitState

pub record CircuitBreaker : Type 0 where
  pub failure_threshold : ℕ
  pub reset_timeout : ℕ
  pub state : CircuitState
  pub failure_count : ℕ
  pub last_failure_time : ℕ

abbrev pub new_breaker : ℕ → ℕ → CircuitBreaker
new_breaker threshold timeout = record {
  failure_threshold = threshold;
  reset_timeout = timeout;
  state = closed;
  failure_count = 0;
  last_failure_time = 0;
}

abbrev pub probed : Bool → CircuitState → CircuitState
probed elapsed open_circuit = if elapsed then half_open else open_circuit
probed elapsed s = s

-- The property `state`, which may move OPEN to HALF_OPEN
unfoldable pub current : ℕ → CircuitBreaker → CircuitState × CircuitBreaker
current now b =
    let s = probed (leb (b.last_failure_time + b.reset_timeout) now) b.state in
    (s, record b { state = s })

abbrev pub admits : CircuitState → Bool
admits closed = true
admits half_open = true
admits open_circuit = false

unfoldable pub allow_request : ℕ → CircuitBreaker → Bool × CircuitBreaker
allow_request now b = let (s, b') = current now b in (admits s, b')

unfoldable pub record_success : CircuitBreaker → CircuitBreaker
record_success b = record b { failure_count = 0; state = closed }

unfoldable pub record_failure : ℕ → CircuitBreaker → CircuitBreaker
record_failure now b = record b {
  failure_count = b.failure_count + 1;
  last_failure_time = now;
  state = if leb b.failure_threshold (b.failure_count + 1) then open_circuit else b.state;
}
