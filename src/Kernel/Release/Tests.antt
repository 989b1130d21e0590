-- ===== src/Kernel/Release/Tests.antt =====
-- The last descriptor of a file without links is closed: its inode is cleared and written to disk.
use learn_mit_s.Common.{ℕ, ◌≡◌, refl, Option, none, some, arith}
use learn_mit_s.Common.{ℤ, pos}
use learn_mit_s.Kernel.Sys.{Sys, Outcome, done, panicked, asleep, out_of_fuel}
use learn_mit_s.Kernel.Fileio.{Device}
use learn_mit_s.Kernel.Sysfile.{sys_close}
use learn_mit_s.Kernel.Sysfile.Sample.{process}
use learn_mit_s.Kernel.Release.Reads.{Restores}
use learn_mit_s.Kernel.Release.Calls.{close, SameHeld, perform, perform-SameHeld}

abbrev no_devices : ℕ → Option Device
no_devices major = none

abbrev state_of : Outcome ℤ → Sys
state_of (done z s) = s
state_of panicked = process
state_of asleep = process
state_of out_of_fuel = process

abbrev after : Sys
after = state_of (perform no_devices (λ _. 0) close process)

restores : (major : ℕ) (d : Device) → no_devices major ≡ some d → Restores d
restores major d e = absurd (ground (arith, e))

closed : perform no_devices (λ _. 0) close process ≡ done (pos 0) after
unfolding sys_close
closed = refl

inode_cleared : (after.fs.inodes 5).ref ≡ 0
unfolding sys_close
inode_cleared = refl

perform-SameHeld_example : SameHeld process after
perform-SameHeld_example =
    perform-SameHeld no_devices (λ _. 0) restores close process after (pos 0) closed
