-- ===== src/Sdk/Invocation/Served.antt =====
-- platform_capability_sdk.py: when `invoke_capability` succeeds.
use bhiv_qcg.Prelude.{
  ℕ, zero, suc, ◌+◌, ◌≤◌, ◌<◌, String, ◌≡◌, refl, sym, ap, ◌∙◌, ◌≢◌, ◌↔◌, ◌⊎◌, inl, inr, Bool, true,
  false, Option, none, some, arith, ◌==◌, ltb, Bool-cases, ltb→lt,
}
use bhiv_qcg.Prelude.Hashing.{Hashing, Json, null}
use bhiv_qcg.Sdk.Breaker.{CircuitBreaker, allow_request}
use bhiv_qcg.Sdk.Manifest.{Attempt, response, raised, fetch_metadata}
use bhiv_qcg.Sdk.Manifest.Read.{IsReadable, validate_manifest_raises-iff-IsReadable}
use bhiv_qcg.Sdk.Invocation.{
  Network, Request, success, status_of, Sdk, get_breaker, put_breaker, is_object, try_from,
  conclude, invoke_service, invoke_capability, InvocationResult, Status,
}

abbrev pub is_raised : Attempt → Bool
is_raised (response r) = false
is_raised (raised e) = true

abbrev answer_of : Attempt → Json
answer_of (response r) = r
answer_of (raised e) = null

Attempt-cases : (a : Attempt) → ((r : Json) × (a ≡ response r)) ⊎ ((e : String) × (a ≡ raised e))
Attempt-cases (response r) = inl (r, refl)
Attempt-cases (raised e) = inr (e, refl)

-- Some attempt from `start` on and before `stop` is the first that returns, and it does not return
-- `null`.
pub record IsAnswered (start stop : ℕ) (net : Network) : Type 0 where
  pub turn : ℕ
  pub answer : Json
  pub from_start : start ≤ turn
  pub in_time : turn < stop
  pub returned : net.attempt turn ≡ response answer
  pub not_null : status_of answer ≡ success
  pub is_first : (j : ℕ) → start ≤ j → j < turn → is_raised (net.attempt j) ≡ true

-- What a successful invocation stands for.
pub record IsServed (q : Request) (net : Network) (sdk : Sdk) : Type 0 where
  pub admitted : (allow_request net.now (get_breaker q.service_id sdk)).0 ≡ true
  pub compatible : net.negotiation.status == "UNSUPPORTED" ≡ false
  pub found : net.service_found ≡ true
  pub manifest_read : IsReadable (fetch_metadata net.metadata null)
  pub payload_object : is_object q.payload ≡ true
  pub answered : IsAnswered 0 (sdk.max_retries + 1) net

try_from-success :
    (left i stop : ℕ) (net : Network) (error : Option String) (b : CircuitBreaker)
    → i + left ≡ stop
    → IsAnswered i stop net
    → status_of (try_from left i net error b).answer ≡ success
unfolding try_from
try_from-success zero i stop net error b end w =
    absurd (omega (arith, end, w.from_start, w.in_time))
try_from-success (suc left) i stop net error b end w = elim (Attempt-cases (net.attempt i)) [
  | inl (r, now_returned) ↦ elim (Bool-cases (ltb i w.turn)) [
    | inl later ↦
        absurd (ground (arith, w.is_first i (omega arith) (ltb→lt i w.turn later), now_returned))
    | inr now ↦
        let same : i ≡ w.turn = ground (arith, now, w.from_start) in
        rw (status_of, now_returned)
          (ap (λ a. status_of (answer_of a))
              (sym now_returned ∙ ap (λ k. net.attempt k) same ∙ w.returned)
            ∙ w.not_null)
  ]
  | inr (e, now_raised) ↦
      let later : i ≢ w.turn =
        λ same. ground (arith, sym now_raised ∙ ap (λ k. net.attempt k) same ∙ w.returned) in
      rw (status_of, now_raised)
        (try_from-success left (i + 1) stop net (some e) _ (omega (arith, end)) (record {
          turn = w.turn;
          answer = w.answer;
          from_start = omega (arith, w.from_start, later);
          in_time = w.in_time;
          returned = w.returned;
          not_null = w.not_null;
          is_first = λ j le lt. w.is_first j (omega (arith, le)) lt;
        }))
]

try_from-IsAnswered :
    (left i stop : ℕ) (net : Network) (error : Option String) (b : CircuitBreaker)
    → i + left ≡ stop
    → status_of (try_from left i net error b).answer ≡ success
    → IsAnswered i stop net
unfolding try_from
try_from-IsAnswered zero i stop net error b end e = absurd (ground (arith, e))
try_from-IsAnswered (suc left) i stop net error b end e = elim (Attempt-cases (net.attempt i)) [
  | inl (r, now_returned) ↦ record {
    turn = i;
    answer = r;
    from_start = omega arith;
    in_time = omega (arith, end);
    returned = now_returned;
    not_null = rw (status_of, now_returned) at e;
    is_first = λ j le lt. absurd (omega (arith, le, lt));
  }
  | inr (x, now_raised) ↦
      let w =
        try_from-IsAnswered left (i + 1) stop net (some x) _ (omega (arith, end))
          (rw (status_of, now_raised) at e) in
      record {
        turn = w.turn;
        answer = w.answer;
        from_start = omega (arith, w.from_start);
        in_time = w.in_time;
        returned = w.returned;
        not_null = w.not_null;
        is_first = λ j le lt. elim (Bool-cases (ltb i j)) [
          | inl later ↦ w.is_first j (ground (arith, later)) lt
          | inr now ↦
              ap (λ k. is_raised (net.attempt k)) (ground (arith, now, le))
              ∙ ap is_raised now_raised
        ];
      }
]

-- The status of a result; an exception has none.
abbrev pub status_in : Option InvocationResult → Option Status
status_in none = none
status_in (some r) = some r.status

module _ (h : Hashing) where
  conclude_status :
      (q : Request) (request : Json) (answer : Json) (error : Option String) (retries : ℕ)
      (sdk : Sdk)
      → (conclude h q request answer error retries sdk).0.status ≡ status_of answer
  unfolding conclude
  conclude_status q request answer error retries sdk = refl

  served_iff :
      (q : Request) (net : Network) (b : CircuitBreaker) (sdk : Sdk)
      → ((invoke_service h q net b sdk).0.status ≡ success) ↔ IsAnswered 0 (sdk.max_retries + 1) net
  unfolding invoke_service conclude
  served_iff q net b sdk = (
    try_from-IsAnswered (sdk.max_retries + 1) 0 (sdk.max_retries + 1) net none b (omega arith),
    try_from-success (sdk.max_retries + 1) 0 (sdk.max_retries + 1) net none b (omega arith),
  )

  -- An invocation that is not mocked succeeds exactly when the circuit breaker of the service lets it
  -- through, the negotiation does not answer UNSUPPORTED, the service is found, the discovery nodes leave
  -- readable metadata (empty, an error, or a dict whose manifest is empty or a dict with operations that
  -- can be gone through and searched: on others the validation raises), the payload is an object, and one
  -- of the first `max_retries + 1` attempts returns, the first of them not `null`.
  pub invoke_capability-iff-IsServed :
      (q : Request) (net : Network) (sdk : Sdk)
      → (status_in (invoke_capability h false q net sdk).0 ≡ some success) ↔ IsServed q net sdk
  unfolding invoke_capability
  invoke_capability-iff-IsServed q net sdk =
      let (admitted, b) = allow_request net.now (get_breaker q.service_id sdk) in
      let readable = validate_manifest_raises-iff-IsReadable net.metadata in
      let served = served_iff q net b (put_breaker q.service_id b sdk) in
      (
        (λ e. record {
          admitted = ground (arith, e);
          compatible = ground (arith, e);
          found = ground (arith, e);
          manifest_read = readable.0 (ground (arith, e));
          payload_object = ground (arith, e);
          answered = served.0 (ground (arith, e));
        }),
        (λ w.
            let yes = served.1 w.answered in
            let read = readable.1 w.manifest_read in
            ground (arith, w.admitted, w.compatible, w.found, read, w.payload_object, yes)),
      )
