-- ===== src/Leases.antt =====
-- heartbeat_manager.py: `HeartbeatManager`. A time is a number of microseconds, as `datetime` counts
-- them, and an argument, as is a fresh uuid. The evidence recorder is called for its effect only.
-- A sweep reads the clock once for each lease; here all of them read the same time.
pub mod Expiry
pub mod Stopped
use bhiv_qcg.Prelude.{
  ℕ, ◌+◌, ◌*◌, String, Bool, true, false, not, ◌&&◌, Option, none, some, List, [], ◌∷◌, ltb, eqb,
  if◌then◌else◌,
}
use bhiv_qcg.Prelude.Dict.{Dict, lookup, insert}

pub data LeaseStatus : Type 0 where
  active expired revoked : LeaseStatus

pub record ServiceLease : Type 0 where
  pub service_id : String
  pub lease_id : String
  pub granted_at : ℕ
  pub expires_at : ℕ
  pub ttl_seconds : ℕ
  pub last_heartbeat : ℕ
  pub renewal_count : ℕ
  pub status : LeaseStatus

pub record HeartbeatManager : Type 0 where
  pub ttl : ℕ
  pub leases : Dict ServiceLease

-- `timedelta(seconds=ttl)`
abbrev pub seconds : ℕ → ℕ
seconds ttl = ttl * 1_000_000

-- `now > expires`
abbrev pub is_expired : ℕ → ServiceLease → Bool
is_expired now l = ltb l.expires_at now

abbrev pub is_active : LeaseStatus → Bool
is_active active = true
is_active _ = false

-- `ttl_seconds or self._ttl_seconds`
abbrev pub or_default : Option ℕ → ℕ → ℕ
or_default none ttl = ttl
or_default (some t) ttl = if eqb t 0 then ttl else t

unfoldable pub grant_lease :
    String → Option ℕ → String → ℕ → HeartbeatManager → ServiceLease × HeartbeatManager
grant_lease service_id ttl_seconds uuid now m =
    let ttl = or_default ttl_seconds m.ttl in
    let lease : ServiceLease = record {
      service_id = service_id;
      lease_id = uuid;
      granted_at = now;
      expires_at = now + seconds ttl;
      ttl_seconds = ttl;
      last_heartbeat = now;
      renewal_count = 0;
      status = active;
    } in
    (lease, record m { leases = insert service_id lease m.leases })

-- The update that `renew_lease` and `receive_heartbeat` make
abbrev pub renewed : ℕ → ServiceLease → ServiceLease
renewed now l = record l {
  expires_at = now + seconds l.ttl_seconds;
  last_heartbeat = now;
  renewal_count = l.renewal_count + 1;
}

-- `renew_lease`, from the lease that is found
unfoldable pub renew_found :
    String → ℕ → Option ServiceLease → HeartbeatManager → Option ServiceLease × HeartbeatManager
renew_found service_id now none m = (none, m)
renew_found service_id now (some l) m =
    if is_active l.status
    then (some (renewed now l), record m { leases = insert service_id (renewed now l) m.leases })
    else (none, m)

unfoldable pub renew_lease : String → ℕ → HeartbeatManager → Option ServiceLease × HeartbeatManager
renew_lease service_id now m = renew_found service_id now (lookup service_id m.leases) m

abbrev pub accepted : Option ServiceLease → Bool
accepted none = false
accepted (some l) = true

-- The same update, with a Boolean answer.
unfoldable pub receive_heartbeat : String → ℕ → HeartbeatManager → Bool × HeartbeatManager
receive_heartbeat service_id now m =
    let (found, m') = renew_found service_id now (lookup service_id m.leases) m in
    (accepted found, m')

unfoldable pub revoke_found :
    String → Option ServiceLease → HeartbeatManager → Bool × HeartbeatManager
revoke_found service_id none m = (false, m)
revoke_found service_id (some l) m =
    (true, record m { leases = insert service_id (record l { status = revoked }) m.leases })

unfoldable pub revoke_lease : String → HeartbeatManager → Bool × HeartbeatManager
revoke_lease service_id m = revoke_found service_id (lookup service_id m.leases) m

-- `lease.status == "ACTIVE" and lease.is_expired()`
abbrev pub is_due : ℕ → ServiceLease → Bool
is_due now l = is_active l.status && is_expired now l

-- The loop of `check_expired`
unfoldable pub expire_all : ℕ → Dict ServiceLease → List String × Dict ServiceLease
expire_all now [] = ([], [])
expire_all now ((sid, l) ∷ leases) =
    let (sids, rest) = expire_all now leases in
    if is_due now l
    then (sid ∷ sids, (sid, record l { status = expired }) ∷ rest)
    else (sids, (sid, l) ∷ rest)

unfoldable pub check_expired : ℕ → HeartbeatManager → List String × HeartbeatManager
check_expired now m =
    let (sids, leases) = expire_all now m.leases in (sids, record m { leases = leases })

abbrev pub holds : ℕ → Option ServiceLease → Bool
holds now none = false
holds now (some l) = is_active l.status && not (is_expired now l)

unfoldable pub has_active_lease : String → ℕ → HeartbeatManager → Bool
has_active_lease service_id now m = holds now (lookup service_id m.leases)

unfoldable pub get_active_leases : ℕ → Dict ServiceLease → List ServiceLease
get_active_leases now [] = []
get_active_leases now ((sid, l) ∷ leases) =
    let rest = get_active_leases now leases in
    if is_active l.status && not (is_expired now l) then l ∷ rest else rest

-- The calls, each with the time at which it runs.
pub data Call : Type 0 where
  grants : String → Option ℕ → String → Call
  renews beats revokes : String → Call
  checks : Call

unfoldable pub run_call : ℕ → Call → HeartbeatManager → HeartbeatManager
run_call now (grants s t uuid) m = (grant_lease s t uuid now m).1
run_call now (renews s) m = (renew_lease s now m).1
run_call now (beats s) m = (receive_heartbeat s now m).1
run_call now (revokes s) m = (revoke_lease s m).1
run_call now checks m = (check_expired now m).1

unfoldable pub run : List (ℕ × Call) → HeartbeatManager → HeartbeatManager
run [] m = m
run ((now, c) ∷ cs) m = run cs (run_call now c m)
