-- ===== src/Kernel/Sleeplock.antt =====
-- lab1/kernel/sleeplock.c: the locks that a process may sleep with. Each body under the spin lock `lk->lk` is
-- one step, and a process is its pid.
pub mod Owner
mod Tests
use learn_mit_s.Common.{ℕ, Bool, true, false, ◌&&◌, Option, none, some, ◌==◌, if◌then◌else◌}

pub record Sleeplock : Type 0 where
  pub locked : Bool
  pub pid : ℕ

unfoldable pub initsleeplock : Sleeplock
initsleeplock = record { locked = false; pid = 0 }

-- `none`: the caller sleeps, and tries again when it is woken.
unfoldable pub acquiresleep : ℕ → Sleeplock → Option Sleeplock
acquiresleep pid lk = if lk.locked then none else some (record { locked = true; pid = pid })

-- The sleepers on the lock are woken.
unfoldable pub releasesleep : Sleeplock → Sleeplock
releasesleep lk = record { locked = false; pid = 0 }

unfoldable pub holdingsleep : ℕ → Sleeplock → Bool
holdingsleep pid lk = lk.locked && lk.pid == pid
