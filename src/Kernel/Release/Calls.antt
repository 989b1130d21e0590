-- ===== src/Kernel/Release/Calls.antt =====
-- Every system call of lab1/kernel/sysfile.c but `sys_exec` gives back the locks and the transactions it takes.
use learn_mit_s.Common.{ℕ, ◌≡◌, refl, Option, some}
use learn_mit_s.Common.{ℤ}
use mathlib.Core.Path.{subst}
use learn_mit_s.Kernel.Str.{Mem}
use learn_mit_s.Kernel.Sys.{Sys, done, Act}
use learn_mit_s.Kernel.Fileio.{Device}
use learn_mit_s.Kernel.Sysfile.{sys_dup, sys_read, sys_write, sys_close, sys_fstat, sys_pipe}
use learn_mit_s.Kernel.Syspath.{sys_link, sys_unlink}
use learn_mit_s.Kernel.Sysopen.{sys_open, sys_mkdir, sys_mknod, sys_chdir}
use learn_mit_s.Kernel.Locks.{Locks}
use learn_mit_s.Kernel.Release.{Holding, Has, EndsIn, Moves}
use learn_mit_s.Kernel.Release.Descriptors.{sys_dup-Moves, sys_close-Moves, sys_pipe-Moves}
use learn_mit_s.Kernel.Release.Reads.{Restores, sys_read-Moves, sys_write-Moves, sys_fstat-Moves}
use learn_mit_s.Kernel.Release.Links.{sys_link-Moves}
use learn_mit_s.Kernel.Release.Unlinks.{sys_unlink-Moves}
use learn_mit_s.Kernel.Release.Opens.{
  sys_open-Moves, sys_mkdir-Moves, sys_mknod-Moves, sys_chdir-Moves,
}

pub data Call : Type 0 where
  dup read write close fstat link unlink open_call mkdir mknod chdir pipe : Call

-- No lock of an inode or a buffer is held that was not before, none is lost, and the process is in as many
-- transactions.
pub record SameHeld (s u : Sys) : Type 0 where
  pub inodes : (i : ℕ) → (u.fs.inodes i).owned ≡ (s.fs.inodes i).owned
  pub buffers : (b : ℕ) → u.fs.held b ≡ s.fs.held b
  pub ops : u.ops ≡ s.ops

module _ (devsw : ℕ → Option Device) (stack : Mem) where
  abbrev pub perform : Call → Act ℤ
  perform dup = sys_dup
  perform read = sys_read devsw
  perform write = sys_write devsw
  perform close = sys_close
  perform fstat = sys_fstat stack
  perform link = sys_link
  perform unlink = sys_unlink
  perform open_call = sys_open
  perform mkdir = sys_mkdir
  perform mknod = sys_mknod
  perform chdir = sys_chdir
  perform pipe = sys_pipe

  module _ (restores : (major : ℕ) (d : Device) → devsw major ≡ some d → Restores d) where
    perform-Moves : (c : Call) {h : Holding} → Moves h (perform c) h
    perform-Moves dup = sys_dup-Moves
    perform-Moves read = sys_read-Moves devsw restores
    perform-Moves write = sys_write-Moves devsw restores
    perform-Moves close = sys_close-Moves
    perform-Moves fstat = sys_fstat-Moves stack
    perform-Moves link = sys_link-Moves
    perform-Moves unlink = sys_unlink-Moves
    perform-Moves open_call = sys_open-Moves
    perform-Moves mkdir = sys_mkdir-Moves
    perform-Moves mknod = sys_mknod-Moves
    perform-Moves chdir = sys_chdir-Moves
    perform-Moves pipe = sys_pipe-Moves

    -- Every call on files that comes back, by any of its branches, has given back each inode lock, each buffer and
    -- each transaction it took, and no more than these, as long as the functions of the devices do so.
    pub perform-SameHeld : (c : Call) (s u : Sys) (r : ℤ) → perform c s ≡ done r u → SameHeld s u
    perform-SameHeld c s u r e =
        let l : Locks = record { inodes = λ i. (s.fs.inodes i).owned; buffers = s.fs.held } in
        let h : Holding = record { locks = l; ops = s.ops } in
        let now : Has h s = record {
          fs = record { inodes = λ i. refl; buffers = λ b. refl };
          ops = refl;
        } in
        let after : Has h u = subst (EndsIn (λ _. Has h)) e ((perform-Moves c).runs s now) in
        record { inodes = after.fs.inodes; buffers = after.fs.buffers; ops = after.ops }
