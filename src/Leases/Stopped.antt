-- ===== src/Leases/Stopped.antt =====
-- heartbeat_manager.py: leases that were revoked or swept, and late heartbeats.
use bhiv_qcg.Prelude.{
  ℕ, ◌+◌, String, ◌≡◌, refl, ap, ◌≢◌, inl, inr, Bool, true, false, not, Option, none, some, List,
  [], ◌∷◌, arith, ◌==◌, eq_iff, Bool-cases, le→ltb, All,
}
use bhiv_qcg.Prelude.Dict.{Dict, lookup, insert, lookup-insert, lookup-insert_self}
use bhiv_qcg.Leases.{
  revoked, ServiceLease, HeartbeatManager, seconds, is_active, grant_lease, renewed, renew_found,
  renew_lease, receive_heartbeat, revoke_found, revoke_lease, accepted, check_expired, holds,
  has_active_lease, Call, grants, renews, beats, revokes, checks, run_call, run,
}
use bhiv_qcg.Leases.Expiry.{swept, lookup-expire_all}

-- No lease, or one that is not ACTIVE.
abbrev pub is_stopped : Option ServiceLease → Bool
is_stopped none = true
is_stopped (some l) = not (is_active l.status)

abbrev pub IsStopped : String → HeartbeatManager → Type 0
IsStopped s m = is_stopped (lookup s m.leases) ≡ true

abbrev pub NoGrant : String → List (ℕ × Call) → Type 0
NoGrant s cs = All (λ c. (t : Option ℕ) (uuid : String) → c.1 ≢ grants s t uuid) cs

insert-is_stopped :
    (k s : String) (l : ServiceLease) (d : Dict ServiceLease)
    → ((k ≡ s) → is_active l.status ≡ false)
    → is_stopped (lookup s d) ≡ true
    → is_stopped (lookup s (insert k l d)) ≡ true
insert-is_stopped k s l d new old = rw (lookup-insert k s l d) (elim (Bool-cases (k == s)) [
  | inl same ↦ rw same (ground (arith, new ((eq_iff k s).0 same)))
  | inr other ↦ rw other old
])

renew_found-IsStopped :
    (k s : String) (now : ℕ) (o : Option ServiceLease) (m : HeartbeatManager)
    → lookup k m.leases ≡ o
    → IsStopped s m
    → IsStopped s (renew_found k now o m).1
unfolding renew_found
renew_found-IsStopped k s now none m here stopped = stopped
renew_found-IsStopped k s now (some l) m here stopped = elim (Bool-cases (is_active l.status)) [
  | inr off ↦ rw off stopped
  | inl on ↦ rw on (
      insert-is_stopped k s (renewed now l) m.leases
        (λ same. absurd (ground (arith, on, rw (← same, here) at stopped))) stopped)
]

revoke_found-IsStopped :
    (k s : String) (o : Option ServiceLease) (m : HeartbeatManager)
    → IsStopped s m
    → IsStopped s (revoke_found k o m).1
unfolding revoke_found
revoke_found-IsStopped k s none m stopped = stopped
revoke_found-IsStopped k s (some l) m stopped =
    insert-is_stopped k s (record l { status = revoked }) m.leases (λ same. refl) stopped

swept-is_stopped :
    (now : ℕ) (o : Option ServiceLease) → is_stopped o ≡ true → is_stopped (swept now o) ≡ true
swept-is_stopped now none h = refl
swept-is_stopped now (some l) h = ground (arith, h)

run_call-IsStopped :
    (now : ℕ) (c : Call) (m : HeartbeatManager) (s : String)
    → ((t : Option ℕ) (uuid : String) → c ≢ grants s t uuid)
    → IsStopped s m
    → IsStopped s (run_call now c m)
unfolding run_call grant_lease renew_lease receive_heartbeat revoke_lease check_expired
run_call-IsStopped now (grants k t uuid) m s other stopped =
    insert-is_stopped k s _ m.leases
      (λ same. absurd (other t uuid (ap (λ x. grants x t uuid) same))) stopped
run_call-IsStopped now (renews k) m s other stopped =
    renew_found-IsStopped k s now (lookup k m.leases) m refl stopped
run_call-IsStopped now (beats k) m s other stopped =
    renew_found-IsStopped k s now (lookup k m.leases) m refl stopped
run_call-IsStopped now (revokes k) m s other stopped =
    revoke_found-IsStopped k s (lookup k m.leases) m stopped
run_call-IsStopped now checks m s other stopped =
    rw (lookup-expire_all now s m.leases) (swept-is_stopped now (lookup s m.leases) stopped)

run-IsStopped :
    (cs : List (ℕ × Call)) (m : HeartbeatManager) (s : String)
    → NoGrant s cs
    → IsStopped s m
    → IsStopped s (run cs m)
unfolding run
run-IsStopped [] m s n stopped = stopped
run-IsStopped ((now, c) ∷ cs) m s n stopped =
    run-IsStopped cs (run_call now c m) s n.1 (run_call-IsStopped now c m s n.0 stopped)

stopped-holds : (now : ℕ) (o : Option ServiceLease) → is_stopped o ≡ true → holds now o ≡ false
stopped-holds now none h = refl
stopped-holds now (some l) h = ground (arith, h)

-- A service without a lease, or with one that was revoked or swept, has no active lease at any later time
-- until it is granted a new one, whatever heartbeats and renewals come.
run_stays_stopped :
    (cs : List (ℕ × Call)) (m : HeartbeatManager) (s : String) (later : ℕ)
    → NoGrant s cs
    → IsStopped s m
    → has_active_lease s later (run cs m) ≡ false
unfolding has_active_lease
run_stays_stopped cs m s later n stopped =
    stopped-holds later (lookup s (run cs m).leases) (run-IsStopped cs m s n stopped)

beat_holds :
    (s : String) (now : ℕ) (o : Option ServiceLease) (m : HeartbeatManager)
    → lookup s m.leases ≡ o
    → (holds now (lookup s (renew_found s now o m).1.leases) ≡ accepted (renew_found s now o m).0)
      × (accepted (renew_found s now o m).0 ≡ not (is_stopped o))
unfolding renew_found
beat_holds s now none m here = rw here (refl, refl)
beat_holds s now (some l) m here = elim (Bool-cases (is_active l.status)) [
  | inl on ↦
      rw (on, lookup-insert_self s (renewed now l) m.leases)
        (rw (on, le→ltb (now + seconds l.ttl_seconds) now (omega arith)) (refl, refl))
  | inr off ↦ rw (off, here) (rw off (refl, refl))
]

-- A heartbeat is accepted exactly when the lease is ACTIVE, also after its expiry as long as no sweep has
-- marked it; and right after the heartbeat the service has an active lease exactly when it was accepted.
heartbeat_revives :
    (s : String) (now : ℕ) (m : HeartbeatManager)
    → (has_active_lease s now (receive_heartbeat s now m).1 ≡ (receive_heartbeat s now m).0)
      × ((receive_heartbeat s now m).0 ≡ not (is_stopped (lookup s m.leases)))
unfolding has_active_lease receive_heartbeat
heartbeat_revives s now m = beat_holds s now (lookup s m.leases) m refl
