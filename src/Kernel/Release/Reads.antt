-- ===== src/Kernel/Release/Reads.antt =====
-- `sys_read`, `sys_write` and `sys_fstat` give back what they take, as long as the devices do.
use learn_mit_s.Common.{
  ℕ, zero, suc, ◌+◌, ◌-◌, ◌%◌, ◌^◌, ◌≡◌, refl, true, not, Option, none, some, ltb, ◌==◌, if_both,
  if◌then◌else◌,
}
use learn_mit_s.Common.{ℤ, pos}
use learn_mit_s.Kernel.Str.{Mem}
use learn_mit_s.Kernel.Pipe
use learn_mit_s.Kernel.Pipe.{piperead, pipewrite}
use learn_mit_s.Kernel.File.{File, FileType, fd_none, fd_pipe, fd_inode, fd_device}
use learn_mit_s.Kernel.Inode.{inode_at}
use learn_mit_s.Kernel.Content.{readi, writei}
use learn_mit_s.Kernel.Locks.Contents.{readi-Keeps, writei-Keeps}
use learn_mit_s.Kernel.Sys.{Act, ◌>>=◌, pure, panic, argint, argaddr}
use learn_mit_s.Kernel.Fileio.{
  max_write, minus_one, rounds, Device, user_byte, user_writable, pipe_outcome, read_pipe,
  write_pipe, read_inode, advance_by, write_some, write_chunks, all_or_error, write_inode,
  on_device, no_device, set_mem, write_locked, read_kind, write_kind, fileread, filewrite, stati,
  stat_inode, stat_kind, filestat,
}
use learn_mit_s.Kernel.Sysfile.{sys_read, sys_write, sys_fstat}
use learn_mit_s.Kernel.Release.{
  Holding, Has, in_op, EndsIn, Moves, seq, answer, branch, panic-Gives, call-Keeps, ilock_seq,
  iunlock-Moves, begin_op-Moves, end_op-Moves,
}
use learn_mit_s.Kernel.Release.Files.{
  argint-Moves, argaddr-Moves, copyout_buffer-Moves, set_file-Moves,
}
use learn_mit_s.Kernel.Release.Descriptors.{get-Moves, argfd-Moves}

pipe_outcome-Moves : {h : Holding} (pi : ℕ) (r : Pipe.Outcome) → Moves h (pipe_outcome pi r) h
pipe_outcome-Moves pi (Pipe.returns r p) = record {
  runs = λ s has. record { fs = has.fs; ops = has.ops };
}
pipe_outcome-Moves pi (Pipe.sleeps i p) = record { runs = λ s has. tt }

read_pipe-Moves : {h : Holding} (pi addr n : ℕ) → Moves h (read_pipe pi addr n) h
unfolding read_pipe
read_pipe-Moves pi addr n = record {
  runs = λ s has.
      (pipe_outcome-Moves pi
          (piperead (user_writable s) addr s.killed (rounds n) (s.pipes pi)).1).runs
        _ record { fs = has.fs; ops = has.ops };
}

write_pipe-Moves : {h : Holding} (pi addr n : ℕ) → Moves h (write_pipe pi addr n) h
unfolding write_pipe
write_pipe-Moves pi addr n = record {
  runs = λ s has.
      (pipe_outcome-Moves pi (pipewrite (user_byte s) addr s.killed (rounds n) (s.pipes pi))).runs s
        has;
}

set_mem-Moves : {h : Holding} (m : Mem) → Moves h (set_mem m) h
set_mem-Moves m = record { runs = λ s has. record { fs = has.fs; ops = has.ops } }

advance_by-Moves : {h : Holding} (f : ℕ) (r : Option ℕ) → Moves h (advance_by f r) h
advance_by-Moves f none = answer tt λ s has. has
advance_by-Moves f (some r) = set_file-Moves f (λ x. record x { off = (x.off + r) % 2 ^ 32 })

read_inode-Moves : {h : Holding} (f addr n : ℕ) (x : File) → Moves h (read_inode f addr n x) h
unfolding read_inode
read_inode-Moves {h} f addr n x = ilock_seq x.ip λ free. seq get-Moves λ v.
    let m = readi v.space x.ip true addr x.off n v.mem in
    seq (call-Keeps m (readi-Keeps v.space x.ip true addr x.off n v.mem)) λ got.
      seq (set_mem-Moves got.1) λ _.
        seq (set_file-Moves f (λ y. record y { off = (y.off + got.0) % 2 ^ 32 }))
          λ _. seq (iunlock-Moves {h = h} x.ip free) λ _. answer (pos got.0) λ s has. has

write_locked-Moves : {h : Holding} (f ip addr n1 : ℕ) → Moves h (write_locked f ip addr n1) h
unfolding write_locked
write_locked-Moves f ip addr n1 = seq get-Moves λ s.
    let off = (s.files f).off in
    let m = writei s.space ip true addr off n1 s.mem in
    seq (call-Keeps m (writei-Keeps s.space ip true addr off n1 s.mem))
      λ r. seq (advance_by-Moves f r) λ _. answer r λ u has. has

write_some-Moves : {h : Holding} (f ip addr n1 : ℕ) → Moves h (write_some f ip addr n1) h
unfolding write_some
write_some-Moves {h} f ip addr n1 = seq begin_op-Moves λ _. ilock_seq ip λ free.
    seq (write_locked-Moves f ip addr n1) λ r.
      seq (iunlock-Moves {h = in_op h} ip free)
        λ _. seq (end_op-Moves {h = h}) λ _. answer r λ s has. has

-- What follows a round of the loop.
wrote-Moves :
    {h : Holding} (n1 i : ℕ) (rest : Act ℕ) (r : Option ℕ)
    → Moves h rest h
    → Moves h (elim r [ none ↦ pure i | some k ↦ if not (k == n1) then panic else rest ]) h
wrote-Moves n1 i rest none go = answer i λ s has. has
wrote-Moves n1 i rest (some k) go = branch (not (k == n1)) (λ e. panic-Gives) λ e. go

write_chunks-Moves :
    {h : Holding} (fuel f ip addr n i : ℕ) → Moves h (write_chunks fuel f ip addr n i) h
unfolding write_chunks
write_chunks-Moves zero f ip addr n i = record { runs = λ s has. tt }
write_chunks-Moves {h} (suc fuel) f ip addr n i =
    let n1 = if ltb max_write (n - i) then max_write else n - i in
    branch (ltb i n)
      (λ e. seq (write_some-Moves f ip ((addr + i) % 2 ^ 64) n1) λ r.
        wrote-Moves n1 i (write_chunks fuel f ip addr n (i + n1)) r
          (write_chunks-Moves fuel f ip addr n (i + n1)))
      λ e. answer i λ s has. has

write_inode-Moves : {h : Holding} (f ip addr n : ℕ) → Moves h (write_inode f ip addr n) h
unfolding write_inode
write_inode-Moves f ip addr n =
    seq (write_chunks-Moves (rounds n + 1) f ip addr (rounds n) 0)
      λ i. answer (all_or_error n i) λ s has. has

on_device-Moves :
    {h : Holding} (f : Device → Act ℤ) (r : Option Device)
    → ((d : Device) → r ≡ some d → Moves h (f d) h)
    → Moves h (on_device f r) h
on_device-Moves f none k = answer minus_one λ s has. has
on_device-Moves f (some d) k = k d refl

-- The functions of a device take no lock and no transaction that they do not give back.
pub record Restores (d : Device) : Type 0 where
  pub read : (h : Holding) (addr n : ℕ) → Moves h (d.read addr n) h
  pub write : (h : Holding) (addr n : ℕ) → Moves h (d.write addr n) h

module _ (devsw : ℕ → Option Device)
    (restores : (major : ℕ) (d : Device) → devsw major ≡ some d → Restores d) where
  read_kind-Moves :
      {h : Holding} (f addr n : ℕ) (x : File) (kind : FileType)
      → Moves h (read_kind devsw f addr n x kind) h
  unfolding read_kind
  read_kind-Moves f addr n x fd_none = panic-Gives
  read_kind-Moves f addr n x fd_pipe = read_pipe-Moves x.pipe addr n
  read_kind-Moves f addr n x fd_inode = read_inode-Moves f addr n x
  read_kind-Moves {h} f addr n x fd_device =
      branch (no_device x.major) (λ e. answer minus_one λ u has. has)
        λ e.
          on_device-Moves (λ d. d.read addr n) (devsw x.major)
            λ d k. (restores x.major d k).read h addr n

  fileread-Moves : {h : Holding} (f addr n : ℕ) → Moves h (fileread devsw f addr n) h
  unfolding fileread
  fileread-Moves {h} f addr n = record {
    runs = λ s has.
        let x = s.files f in
        if_both (EndsIn (λ _. Has h)) (not x.readable) _ _ (λ e. has)
          λ e. (read_kind-Moves f addr n x x.kind).runs s has;
  }

  write_kind-Moves :
      {h : Holding} (f addr n : ℕ) (x : File) (kind : FileType)
      → Moves h (write_kind devsw f addr n x kind) h
  unfolding write_kind
  write_kind-Moves f addr n x fd_none = panic-Gives
  write_kind-Moves f addr n x fd_pipe = write_pipe-Moves x.pipe addr n
  write_kind-Moves f addr n x fd_inode = write_inode-Moves f x.ip addr n
  write_kind-Moves {h} f addr n x fd_device =
      branch (no_device x.major) (λ e. answer minus_one λ u has. has)
        λ e.
          on_device-Moves (λ d. d.write addr n) (devsw x.major)
            λ d k. (restores x.major d k).write h addr n

  filewrite-Moves : {h : Holding} (f addr n : ℕ) → Moves h (filewrite devsw f addr n) h
  unfolding filewrite
  filewrite-Moves {h} f addr n = record {
    runs = λ s has.
        let x = s.files f in
        if_both (EndsIn (λ _. Has h)) (not x.writable) _ _ (λ e. has)
          λ e. (write_kind-Moves f addr n x x.kind).runs s has;
  }

  pub sys_read-Moves : {h : Holding} → Moves h (sys_read devsw) h
  unfolding sys_read
  sys_read-Moves {h} = seq (argfd-Moves 0) on
    where
      on :
          (r : Option (ℕ × ℕ))
          → Moves h
              (elim r [
                | none ↦ pure minus_one
                | some (fd, x) ↦ do n ← argint 2; p ← argaddr 1; fileread devsw x p n
              ])
              h
      on none = answer minus_one λ s has. has
      on (some (fd, x)) = seq (argint-Moves 2) λ n. seq (argaddr-Moves 1) λ p. fileread-Moves x p n

  pub sys_write-Moves : {h : Holding} → Moves h (sys_write devsw) h
  unfolding sys_write
  sys_write-Moves {h} = seq (argfd-Moves 0) on
    where
      on :
          (r : Option (ℕ × ℕ))
          → Moves h
              (elim r [
                | none ↦ pure minus_one
                | some (fd, x) ↦ do n ← argint 2; p ← argaddr 1; filewrite devsw x p n
              ])
              h
      on none = answer minus_one λ s has. has
      on (some (fd, x)) = seq (argint-Moves 2) λ n. seq (argaddr-Moves 1) λ p. filewrite-Moves x p n

stat_inode-Moves : {h : Holding} (stack : Mem) (ip addr : ℕ) → Moves h (stat_inode stack ip addr) h
unfolding stat_inode
stat_inode-Moves {h} stack ip addr = ilock_seq ip λ free.
    seq (call-Keeps (inode_at ip) (λ l s at. at)) λ i. seq (iunlock-Moves {h = h} ip free) λ _.
      seq (copyout_buffer-Moves addr 24 (stati i stack))
        λ ok. answer (if ok then pos 0 else minus_one) λ s has. has

stat_kind-Moves :
    {h : Holding} (stack : Mem) (ip addr : ℕ) (kind : FileType)
    → Moves h (stat_kind stack ip addr kind) h
stat_kind-Moves stack ip addr fd_none = answer minus_one λ s has. has
stat_kind-Moves stack ip addr fd_pipe = answer minus_one λ s has. has
stat_kind-Moves stack ip addr fd_inode = stat_inode-Moves stack ip addr
stat_kind-Moves stack ip addr fd_device = stat_inode-Moves stack ip addr

filestat-Moves : {h : Holding} (stack : Mem) (f addr : ℕ) → Moves h (filestat stack f addr) h
unfolding filestat
filestat-Moves stack f addr = record {
  runs = λ s has. (stat_kind-Moves stack (s.files f).ip addr (s.files f).kind).runs s has;
}

pub sys_fstat-Moves : {h : Holding} (stack : Mem) → Moves h (sys_fstat stack) h
unfolding sys_fstat
sys_fstat-Moves {h} stack = seq (argfd-Moves 0) on
  where
    on :
        (r : Option (ℕ × ℕ))
        → Moves h
            (elim r [
              | none ↦ pure minus_one
              | some (fd, x) ↦ do st ← argaddr 1; filestat stack x st
            ])
            h
    on none = answer minus_one λ s has. has
    on (some (fd, x)) = seq (argaddr-Moves 1) λ st. filestat-Moves stack x st
