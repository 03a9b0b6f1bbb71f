-- ===== src/Gateway/Limiter.antt =====
-- hybrid_gateway.py: `_RateLimiter`. Time is in milliseconds and a token is 60000 parts, so that the
-- refill of `per_minute` parts a millisecond is exact.
use bhiv_qcg.Prelude.{
  ℕ, ◌+◌, ◌-◌, ◌*◌, ◌≤◌, min, ◌≡◌, refl, inl, inr, Bool, true, false, List, [], ◌∷◌, arith, leb,
  if◌then◌else◌, Bool-cases,
}

abbrev pub token : ℕ
token = 60_000

pub record RateLimiter : Type 0 where
  pub capacity : ℕ
  pub tokens : ℕ
  pub last : ℕ

abbrev pub new_limiter : ℕ → ℕ → RateLimiter
new_limiter per_minute now = record {
  capacity = per_minute;
  tokens = per_minute * token;
  last = now;
}

-- `min(self._capacity, self._tokens + (now - self._last) * self._refill_rate)`
abbrev pub refilled : ℕ → RateLimiter → ℕ
refilled now r = min (r.capacity * token) (r.tokens + (now - r.last) * r.capacity)

unfoldable pub allow : ℕ → RateLimiter → Bool × RateLimiter
allow now r =
    if leb token (refilled now r)
    then (true, record r { tokens = refilled now r - token; last = now })
    else (false, record r { tokens = refilled now r; last = now })

-- How many of the calls at the given times are allowed, and the state after them.
unfoldable pub run : List ℕ → RateLimiter → ℕ × RateLimiter
run [] r = (0, r)
run (now ∷ times) r =
    let (allowed, r') = allow now r in
    let (n, last) = run times r' in ((if allowed then n + 1 else n), last)

-- The clock does not go back.
abbrev pub IsMonotonic : ℕ → List ℕ → Type 0
IsMonotonic from [] = Unit
IsMonotonic from (now ∷ times) = (from ≤ now) × IsMonotonic now times

-- The time of the last call.
abbrev pub end_of : ℕ → List ℕ → ℕ
end_of from [] = from
end_of from (now ∷ times) = end_of now times

leb→le : (a b : ℕ) → leb a b ≡ true → a ≤ b
leb→le a b h = ground arith

refilled-le :
    (now : ℕ) (r : RateLimiter)
    → (refilled now r ≤ r.capacity * token)
      × (refilled now r ≤ r.tokens + (now - r.last) * r.capacity)
refilled-le now r = (omega arith, omega arith)

-- One call: what it costs and leaves is covered by what there was and the refill.
allow_pays :
    (now : ℕ) (r : RateLimiter)
    → (if (allow now r).0 then token else 0) + (allow now r).1.tokens ≡ refilled now r
unfolding allow
allow_pays now r = elim (Bool-cases (leb token (refilled now r))) [
  | inl a ↦ rw a (omega (arith, leb→le token (refilled now r) a))
  | inr b ↦ rw b (omega arith)
]

monotonic_end : (from : ℕ) (times : List ℕ) → IsMonotonic from times → from ≤ end_of from times
monotonic_end from [] m = omega arith
monotonic_end from (now ∷ times) m = omega (arith, m.0, monotonic_end now times m.1)

-- Refills over two spans add up.
spans : (a b e c : ℕ) → a ≤ b → b ≤ e → (b - a) * c + (e - b) * c ≡ (e - a) * c
spans a b e c h k = grind arith

allow_frame :
    (now : ℕ) (r : RateLimiter)
    → ((allow now r).1.capacity ≡ r.capacity) × ((allow now r).1.last ≡ now)
unfolding allow
allow_frame now r = elim (Bool-cases (leb token (refilled now r))) [
  | inl a ↦ rw a (refl, refl)
  | inr b ↦ rw b (refl, refl)
]

paid : (b : Bool) (n : ℕ) → (if b then n + 1 else n) * token ≡ (if b then token else 0) + n * token
paid true n = omega arith
paid false n = omega arith

run_budget :
    (times : List ℕ) (r : RateLimiter)
    → IsMonotonic r.last times
    → (run times r).0 * token + (run times r).1.tokens
      ≤ r.tokens + (end_of r.last times - r.last) * r.capacity
unfolding run
run_budget [] r m = omega arith
run_budget (now ∷ times) r m =
    let frame = allow_frame now r in
    let rest = run_budget times (allow now r).1 (rw frame.1 m.1) in
    let rest' = rw (frame.0, frame.1) at rest in
    omega (
      arith,
      rest',
      paid (allow now r).0 (run times (allow now r).1).0,
      allow_pays now r,
      refilled-le now r,
      spans r.last now (end_of now times) r.capacity m.0 (monotonic_end now times m.1),
    )

-- At most `capacity` calls are allowed at once, and over any span of time at most `capacity` more for
-- each minute of it: 60000 times the number of calls allowed is at most `capacity` times 60000 plus the
-- milliseconds of the span, from a limiter that holds no more tokens than its capacity, on a clock that
-- does not go back.
pub run_allows :
    (times : List ℕ) (r : RateLimiter)
    → r.tokens ≤ r.capacity * token
    → IsMonotonic r.last times
    → (run times r).0 * token ≤ r.capacity * token + (end_of r.last times - r.last) * r.capacity
run_allows times r full m = omega (arith, run_budget times r m)
