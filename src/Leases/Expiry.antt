-- ===== src/Leases/Expiry.antt =====
-- heartbeat_manager.py: how long a lease lives, from the calls alone.
use bhiv_qcg.Prelude.{
  ℕ, ◌+◌, String, ◌≡◌, refl, ap, ◌∙◌, inl, inr, Bool, false, Option, none, some, List, [], ◌∷◌,
  arith, ◌==◌, eq_refl, ltb, leb, if◌then◌else◌, Bool-cases, String-cases, eq_false,
}
use bhiv_qcg.Prelude.Dict.{Dict, lookup, insert, lookup-insert}
use bhiv_qcg.Leases.{
  expired, revoked, ServiceLease, HeartbeatManager, seconds, or_default, is_active, grant_lease,
  renewed, renew_found, renew_lease, receive_heartbeat, revoke_found, revoke_lease, is_due,
  expire_all, check_expired, holds, has_active_lease, Call, grants, renews, beats, revokes, checks,
  run_call, run,
}

-- The lease that the loop leaves.
abbrev pub swept : ℕ → Option ServiceLease → Option ServiceLease
swept now none = none
swept now (some l) = some (if is_due now l then record l { status = expired } else l)

pub lookup-expire_all :
    (now : ℕ) (k : String) (d : Dict ServiceLease)
    → lookup k (expire_all now d).1 ≡ swept now (lookup k d)
unfolding lookup expire_all
lookup-expire_all now k [] = refl
lookup-expire_all now k ((j, l) ∷ d) = elim (Bool-cases (is_due now l)) [
  | inl due ↦ rw due (elim (Bool-cases (j == k)) [
    | inl same ↦ rw same (rw due refl)
    | inr other ↦ rw other (lookup-expire_all now k d)
  ])
  | inr fine ↦ rw fine (elim (Bool-cases (j == k)) [
    | inl same ↦ rw same (rw fine refl)
    | inr other ↦ rw other (lookup-expire_all now k d)
  ])
]

-- What the calls say of one service, without the leases that the manager keeps: until when it is
-- covered and with which TTL. A grant covers it anew; a renewal or heartbeat prolongs a cover that was
-- not taken away; a revocation takes it away, and so does a sweep after its end.
abbrev pub Cover : Type 0
Cover = Option (ℕ × ℕ)

abbrev pub prolonged : ℕ → Cover → Cover
prolonged now none = none
prolonged now (some (end, ttl)) = some (now + seconds ttl, ttl)

abbrev pub swept_away : ℕ → Cover → Cover
swept_away now none = none
swept_away now (some (end, ttl)) = if ltb end now then none else some (end, ttl)

abbrev pub covered_by : ℕ → String → ℕ → Call → Cover → Cover
covered_by ttl s now (grants k t uuid) c =
    if k == s then some (now + seconds (or_default t ttl), or_default t ttl) else c
covered_by ttl s now (renews k) c = if k == s then prolonged now c else c
covered_by ttl s now (beats k) c = if k == s then prolonged now c else c
covered_by ttl s now (revokes k) c = if k == s then none else c
covered_by ttl s now checks c = swept_away now c

abbrev pub cover : ℕ → String → List (ℕ × Call) → Cover → Cover
cover ttl s [] c = c
cover ttl s ((now, call) ∷ calls) c = cover ttl s calls (covered_by ttl s now call c)

abbrev pub in_force : ℕ → Cover → Bool
in_force now none = false
in_force now (some (end, ttl)) = leb now end

-- The cover that a lease stands for.
abbrev cover_of : Option ServiceLease → Cover
cover_of none = none
cover_of (some l) = if is_active l.status then some (l.expires_at, l.ttl_seconds) else none

swept_lem :
    (now : ℕ) (o : Option ServiceLease) → cover_of (swept now o) ≡ swept_away now (cover_of o)
swept_lem now none = refl
swept_lem now (some l) = elim (Bool-cases (is_active l.status)) [
  | inl on ↦ elim (Bool-cases (ltb l.expires_at now)) [
    | inl late ↦ rw (on, late) refl
    | inr early ↦ rw (on, early) (rw on refl)
  ]
  | inr off ↦ rw off (rw off refl)
]

insert_lem :
    (k s : String) (l : ServiceLease) (d : Dict ServiceLease)
    → cover_of (lookup s (insert k l d))
      ≡ (if k == s then cover_of (some l) else cover_of (lookup s d))
insert_lem k s l d =
    rw (lookup-insert k s l d)
      (elim (Bool-cases (k == s)) [ inl same ↦ rw same refl | inr other ↦ rw other refl ])

renew_found_lem :
    (k s : String) (now : ℕ) (o : Option ServiceLease) (m : HeartbeatManager)
    → lookup k m.leases ≡ o
    → cover_of (lookup s (renew_found k now o m).1.leases) ≡ (
        if k == s
        then prolonged now (cover_of (lookup s m.leases))
        else cover_of (lookup s m.leases))
unfolding renew_found
renew_found_lem k s now none m e = elim (String-cases k s) [
  | inl same ↦ rw⁻¹ same (rw (eq_refl k, e) refl)
  | inr other ↦ rw (eq_false k s other) refl
]
renew_found_lem k s now (some l) m e = elim (Bool-cases (is_active l.status)) [
  | inl on ↦ rw on (
      insert_lem k s (renewed now l) m.leases ∙ elim (String-cases k s) [
        | inl same ↦ rw⁻¹ same (rw (eq_refl k, e, on) refl)
        | inr other ↦ rw (eq_false k s other) refl
      ])
  | inr off ↦ rw off (elim (String-cases k s) [
    | inl same ↦ rw⁻¹ same (rw (eq_refl k, e, off) refl)
    | inr other ↦ rw (eq_false k s other) refl
  ])
]

revoke_found_lem :
    (k s : String) (o : Option ServiceLease) (m : HeartbeatManager)
    → lookup k m.leases ≡ o
    → cover_of (lookup s (revoke_found k o m).1.leases)
      ≡ (if k == s then none else cover_of (lookup s m.leases))
unfolding revoke_found
revoke_found_lem k s none m e = elim (String-cases k s) [
  | inl same ↦ rw⁻¹ same (rw (eq_refl k, e) refl)
  | inr other ↦ rw (eq_false k s other) refl
]
revoke_found_lem k s (some l) m e = insert_lem k s (record l { status = revoked }) m.leases

run_call_lem :
    (s : String) (now : ℕ) (c : Call) (m : HeartbeatManager)
    → cover_of (lookup s (run_call now c m).leases)
      ≡ covered_by m.ttl s now c (cover_of (lookup s m.leases))
unfolding run_call grant_lease renew_lease receive_heartbeat revoke_lease check_expired
run_call_lem s now (grants k t uuid) m = insert_lem k s _ m.leases
run_call_lem s now (renews k) m = renew_found_lem k s now (lookup k m.leases) m refl
run_call_lem s now (beats k) m = renew_found_lem k s now (lookup k m.leases) m refl
run_call_lem s now (revokes k) m = revoke_found_lem k s (lookup k m.leases) m refl
run_call_lem s now checks m =
    ap cover_of (lookup-expire_all now s m.leases) ∙ swept_lem now (lookup s m.leases)

renew_found_ttl :
    (k : String) (now : ℕ) (o : Option ServiceLease) (m : HeartbeatManager)
    → (renew_found k now o m).1.ttl ≡ m.ttl
unfolding renew_found
renew_found_ttl k now none m = refl
renew_found_ttl k now (some l) m = ground arith

revoke_found_ttl :
    (k : String) (o : Option ServiceLease) (m : HeartbeatManager)
    → (revoke_found k o m).1.ttl ≡ m.ttl
unfolding revoke_found
revoke_found_ttl k none m = refl
revoke_found_ttl k (some l) m = refl

run_call_ttl : (now : ℕ) (c : Call) (m : HeartbeatManager) → (run_call now c m).ttl ≡ m.ttl
unfolding run_call grant_lease renew_lease receive_heartbeat revoke_lease check_expired
run_call_ttl now (grants k t uuid) m = refl
run_call_ttl now (renews k) m = renew_found_ttl k now (lookup k m.leases) m
run_call_ttl now (beats k) m = renew_found_ttl k now (lookup k m.leases) m
run_call_ttl now (revokes k) m = revoke_found_ttl k (lookup k m.leases) m
run_call_ttl now checks m = refl

run_lem :
    (s : String) (cs : List (ℕ × Call)) (m : HeartbeatManager)
    → cover_of (lookup s (run cs m).leases) ≡ cover m.ttl s cs (cover_of (lookup s m.leases))
unfolding run
run_lem s [] m = refl
run_lem s ((now, c) ∷ cs) m =
    run_lem s cs (run_call now c m) ∙ rw (run_call_ttl now c m, run_call_lem s now c m) refl

holds_lem : (now : ℕ) (o : Option ServiceLease) → holds now o ≡ in_force now (cover_of o)
holds_lem now none = refl
holds_lem now (some l) = elim (Bool-cases (is_active l.status)) [
  | inl on ↦ rw on (ground arith)
  | inr off ↦ rw off refl
]

-- From a manager without leases, after any calls at any times: a service has an active lease exactly
-- when the calls leave it covered at that time. A grant covers it for the TTL given or the default; each
-- later renewal or heartbeat covers it for that TTL again, unless it was revoked, or swept after its
-- cover had ended, since the grant.
pub has_active_lease-eq-in_force :
    (ttl : ℕ) (cs : List (ℕ × Call)) (s : String) (now : ℕ)
    → has_active_lease s now (run cs (record { ttl = ttl; leases = [] }))
      ≡ in_force now (cover ttl s cs none)
unfolding has_active_lease
has_active_lease-eq-in_force ttl cs s now =
    holds_lem now (lookup s (run cs (record { ttl = ttl; leases = [] })).leases)
    ∙ ap (in_force now) (run_lem s cs (record { ttl = ttl; leases = [] }) ∙ unfold lookup in refl)
