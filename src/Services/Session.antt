-- ===== src/Services/Session.antt =====
-- Calls of a `PlatformServiceRegistry`, one after the other, in the order in which its lock admits them.
pub mod Logged
pub mod Catalog
pub mod Refined
pub mod Well
pub mod Published
use bhiv_qcg.Prelude.{String, Option, List, [], ◌∷◌}
use bhiv_qcg.Prelude.Hashing.{Hashing}
use bhiv_qcg.Services.{PlatformServiceRecord, CapabilityManifest}
use bhiv_qcg.Services.Negotiation.{Answer}
use bhiv_qcg.Services.Evidence.{Stamp}
use bhiv_qcg.Services.Registry.{PlatformServiceRegistry, Receipt, Update}
use bhiv_qcg.Services.Mutations.{
  register_service, update_service, set_status as change_status, merge_remote_service,
  remove_service, negotiate_version, enable_service, disable_service, deprecate_service,
  retire_service,
}

pub data Call : Type 0 where
  register : PlatformServiceRecord → Option CapabilityManifest → Call
  update : String → List Update → Call
  set_status : String → String → String → Call
  enable : String → Call
  disable : String → Call
  deprecate : String → String → Call
  retire : String → String → Call
  merge : PlatformServiceRecord → Option CapabilityManifest → String → Call
  remove : String → String → Call
  negotiate : String → String → Call

module _ (h : Hashing) where
  -- What a call leaves; its receipt is the first component of the method.
  unfoldable pub run_call : Call → Stamp → PlatformServiceRegistry → PlatformServiceRegistry
  run_call (register r m) stamp reg = (register_service h r m stamp reg).1
  run_call (update sid updates) stamp reg = (update_service h sid updates stamp reg).1
  run_call (set_status sid s reason) stamp reg = (change_status h sid s reason stamp reg).1
  run_call (enable sid) stamp reg = (enable_service h sid stamp reg).1
  run_call (disable sid) stamp reg = (disable_service h sid stamp reg).1
  run_call (deprecate sid reason) stamp reg = (deprecate_service h sid reason stamp reg).1
  run_call (retire sid reason) stamp reg = (retire_service h sid reason stamp reg).1
  run_call (merge r m node) stamp reg = (merge_remote_service h r m node stamp reg).1
  run_call (remove sid reason) stamp reg = (remove_service h sid reason stamp reg).1
  run_call (negotiate sid requested) stamp reg = (negotiate_version h sid requested stamp reg).1

  unfoldable pub run : List (Call × Stamp) → PlatformServiceRegistry → PlatformServiceRegistry
  run [] reg = reg
  run ((c, stamp) ∷ calls) reg = run calls (run_call c stamp reg)
