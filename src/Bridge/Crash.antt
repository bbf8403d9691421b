-- ===== src/Bridge/Crash.antt =====
-- `nativeCrash` with its stack frames, and `nativeDumpWithoutCrash`.
use crashkit.Prelude.{◌+◌, Bool, true, Option, none, some, ◌>>=◌}
use crashkit.Bridge.{Bridge}

-- The write through a null pointer.
pub crash : Option (Unit {0})
crash = none

pub stack_frame3 : Option (Unit {0})
unfolding crash
stack_frame3 = crash

pub stack_frame2 : Option (Unit {0})
unfolding stack_frame3
stack_frame2 = stack_frame3

pub stack_frame1 : Option (Unit {0})
unfolding stack_frame2
stack_frame1 = stack_frame2

unfoldable pub native_crash : Option Bool
unfolding stack_frame1
native_crash = stack_frame1 >>= λ _. some true

-- The dump itself is the client library's.
unfoldable pub native_dump_without_crash : Bridge → Bool × Bridge
native_dump_without_crash s = (true, record s { dumps = s.dumps + 1 })
