-- ===== src/Lifecycle/Session.antt =====
-- The public methods of `LifecycleManager` as calls, and sessions of them.
use bhiv_qcg.Prelude.{String, Option, List, [], ◌∷◌}
use bhiv_qcg.Prelude.Hashing.{Hashing}
use bhiv_qcg.Lifecycle
use bhiv_qcg.Lifecycle.{LifecycleManager, Stamp, Result}

-- The calls of the public methods that may change the state, each at the time at which it takes the
-- lock for its write. An `enable` or `disable` comes with the state that it read before, which may be an
-- older one.
pub data Call : Type 0 where
  register transition : String → String → String → String → Call
  enable disable : String → String → Option String → Call
  deprecate retire : String → String → String → Call

abbrev pub run_call : Hashing → Call → Stamp → LifecycleManager → Result × LifecycleManager
run_call h (Call.register s i a r) = Lifecycle.register h s i a r
run_call h (Call.transition s t a r) = Lifecycle.transition h s t a r
run_call h (Call.enable s a read) = Lifecycle.enable_after h read s a
run_call h (Call.disable s a read) = Lifecycle.disable_after h read s a
run_call h (Call.deprecate s a r) = Lifecycle.deprecate h s a r
run_call h (Call.retire s a r) = Lifecycle.retire h s a r

-- A session: any calls, each with its stamp; an error is caught by the caller.
unfoldable pub run : Hashing → List (Call × Stamp) → LifecycleManager → LifecycleManager
run h [] m = m
run h ((c, stamp) ∷ calls) m = run h calls (run_call h c stamp m).1
