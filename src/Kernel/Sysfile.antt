-- ===== src/Kernel/Sysfile.antt =====
-- lab1/kernel/sysfile.c: the system calls on descriptors. The table `ofile` of the process is a function of the
-- descriptor. A call answers with the signed value of what it leaves in a0.
pub mod Slots
pub mod Copies
pub mod Leaves
pub mod Unwind
pub mod Sample
mod Tests
use learn_mit_s.Common.{
  ℕ, zero, suc, ◌+◌, ◌%◌, ◌^◌, Bool, true, false, ◌||◌, Option, none, some, leb, if◌then◌else◌,
  update,
}
use learn_mit_s.Common.{ℤ, pos}
use learn_mit_s.Kernel.Str.{Mem}
use learn_mit_s.Kernel.Fs.Words.{store32}
use learn_mit_s.Kernel.Sys.{
  nofile, Sys, Outcome, done, panicked, asleep, out_of_fuel, Act, bind_outcome, ◌>>=◌, ◌>>◌, pure,
  panic, get, argint, argaddr, filedup, fileclose, copyout_buffer,
}
use learn_mit_s.Kernel.Fileio.{Device, minus_one, fileread, filewrite, filestat, pipealloc}

abbrev pub set_ofile : ℕ → Option ℕ → Act (Unit {0})
set_ofile fd f s = done tt (record s { ofile = update s.ofile fd f })

abbrev pub with_fd : ℕ → Option ℕ → Option (ℕ × ℕ)
with_fd fd none = none
with_fd fd (some f) = some (fd, f)

-- The descriptor and its file; an `int` that is negative has its highest bit set.
unfoldable pub argfd : ℕ → Act (Option (ℕ × ℕ))
unfolding argint
argfd n = do
  fd ← argint n
  s ← get
  pure (if leb (2 ^ 31) fd || leb nofile fd then none else with_fd fd (s.ofile fd))

abbrev pub is_open : Option ℕ → Bool
is_open none = false
is_open (some f) = true

-- The loop of `fdalloc`, with `r` descriptors left from `fd` on.
unfoldable pub find_slot : ℕ → ℕ → (ℕ → Option ℕ) → Option ℕ
find_slot zero fd t = none
find_slot (suc r) fd t =
    let rest = find_slot r (fd + 1) t in if is_open (t fd) then rest else some fd

abbrev pub slot_taken : ℕ → Option ℕ → Act (Option ℕ)
slot_taken f none = pure none
slot_taken f (some fd) = do set_ofile fd (some f); pure (some fd)

unfoldable pub fdalloc : ℕ → Act (Option ℕ)
unfolding find_slot
fdalloc f s = slot_taken f (find_slot nofile 0 s.ofile) s

-- `sys_dup` with the file.
unfoldable pub dup_file : ℕ → Act ℤ
unfolding fdalloc filedup
dup_file f = do
  fd ← fdalloc f
  elim fd [ none ↦ pure minus_one | some d ↦ do filedup f; pure (pos d) ]

unfoldable pub sys_dup : Act ℤ
unfolding argfd dup_file
sys_dup = do f ← argfd 0; elim f [ none ↦ pure minus_one | some (fd, x) ↦ dup_file x ]

unfoldable pub close_fd : ℕ → ℕ → Act ℤ
unfolding fileclose
close_fd fd f = do set_ofile fd none; fileclose f; pure (pos 0)

unfoldable pub sys_close : Act ℤ
unfolding argfd close_fd
sys_close = do f ← argfd 0; elim f [ none ↦ pure minus_one | some (fd, x) ↦ close_fd fd x ]

module _ (devsw : ℕ → Option Device) where
  unfoldable pub sys_read : Act ℤ
  unfolding argfd argint argaddr fileread
  sys_read = do
    f ← argfd 0
    elim f [
      | none ↦ pure minus_one
      | some (fd, x) ↦ do n ← argint 2; p ← argaddr 1; fileread devsw x p n
    ]

  unfoldable pub sys_write : Act ℤ
  unfolding argfd argint argaddr filewrite
  sys_write = do
    f ← argfd 0
    elim f [
      | none ↦ pure minus_one
      | some (fd, x) ↦ do n ← argint 2; p ← argaddr 1; filewrite devsw x p n
    ]

-- `stack` is what `filestat` finds on the kernel stack.
unfoldable pub sys_fstat : Mem → Act ℤ
unfolding argfd argaddr filestat
sys_fstat stack = do
  f ← argfd 0
  elim f [ none ↦ pure minus_one | some (fd, x) ↦ do st ← argaddr 1; filestat stack x st ]

unfoldable pub close_both : ℕ → ℕ → Act ℤ
unfolding fileclose
close_both rf wf = do fileclose rf; fileclose wf; pure minus_one

-- An `int` in a buffer at 0.
abbrev pub int_buffer : ℕ → Mem
int_buffer fd = store32 (λ a. 0) 0 fd

-- The end of `sys_pipe` where the second `copyout` gave `ok`.
unfoldable pub pipe_copied : ℕ → ℕ → ℕ → ℕ → Bool → Act ℤ
unfolding close_both
pipe_copied fd0 fd1 rf wf true = pure (pos 0)
pipe_copied fd0 fd1 rf wf false = do set_ofile fd0 none; set_ofile fd1 none; close_both rf wf

-- `sys_pipe` with both descriptors.
unfoldable pub pipe_fds : ℕ → ℕ → ℕ → ℕ → ℕ → Act ℤ
unfolding copyout_buffer store32 pipe_copied
pipe_fds fdarray fd0 fd1 rf wf = do
  ok ← copyout_buffer fdarray 4 (int_buffer fd0)
  if ok
      then (do
        ok1 ← copyout_buffer ((fdarray + 4) % 2 ^ 64) 4 (int_buffer fd1)
        pipe_copied fd0 fd1 rf wf ok1)
      else pipe_copied fd0 fd1 rf wf false

-- `sys_pipe` with the answer of the second `fdalloc`, and of the first.
unfoldable pub pipe_second : ℕ → ℕ → ℕ → ℕ → Option ℕ → Act ℤ
unfolding close_both pipe_fds
pipe_second fdarray rf wf fd0 none = do set_ofile fd0 none; close_both rf wf
pipe_second fdarray rf wf fd0 (some fd1) = pipe_fds fdarray fd0 fd1 rf wf

unfoldable pub pipe_first : ℕ → ℕ → ℕ → Option ℕ → Act ℤ
unfolding fdalloc close_both pipe_second
pipe_first fdarray rf wf none = close_both rf wf
pipe_first fdarray rf wf (some fd0) = do b ← fdalloc wf; pipe_second fdarray rf wf fd0 b

-- `sys_pipe` with both files.
unfoldable pub pipe_files : ℕ → ℕ → ℕ → Act ℤ
unfolding fdalloc pipe_first
pipe_files fdarray rf wf = do a ← fdalloc rf; pipe_first fdarray rf wf a

unfoldable pub sys_pipe : Act ℤ
unfolding argaddr pipealloc pipe_files
sys_pipe = do
  fdarray ← argaddr 0
  made ← pipealloc
  elim made [ none ↦ pure minus_one | some (rf, wf) ↦ pipe_files fdarray rf wf ]
