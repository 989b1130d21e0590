-- ===== src/Kernel/Release/Descriptors.antt =====
-- `sys_dup`, `sys_close`, `sys_pipe`, `sys_read`, `sys_write` and `sys_fstat` give back what they take.
use learn_mit_s.Common.{ℕ, ◌+◌, ◌%◌, ◌^◌, Bool, true, false, Option, none, some, ◌==◌}
use learn_mit_s.Common.{pos}
use learn_mit_s.Kernel.Kalloc.{null}
use learn_mit_s.Kernel.Pipe
use learn_mit_s.Kernel.Pipe.{piperead, pipewrite}
use learn_mit_s.Kernel.Sys.{
  Sys, done, Act, ◌>>=◌, ◌>>◌, pure, get, kalloc, filealloc, filedup, fileclose,
}
use learn_mit_s.Kernel.Fileio.{minus_one, pipe_end, open_pipe, pipealloc}
use learn_mit_s.Kernel.Sysfile.{
  argfd, dup_file, sys_dup, close_fd, sys_close, close_both, int_buffer, pipe_copied, pipe_fds,
  pipe_second, pipe_first, pipe_files, sys_pipe,
}
use learn_mit_s.Kernel.Release.{Holding, Gives, Moves, seq, answer, branch}
use learn_mit_s.Kernel.Release.Files.{
  argint-Moves, argaddr-Moves, copyout_buffer-Moves, filealloc-Moves, filedup-Moves,
  fileclose-Moves, set_file-Moves, set_ofile-Moves, fdalloc-Moves,
}

-- A call that goes on by the state it starts in.
pub by_state {ℓ} :
    {A : Type ℓ} {h : Holding} {P : A → Sys → Type 0} (m : Sys → Act A)
    → ((s : Sys) → Gives h (m s) P)
    → Gives h (λ s. m s s) P
by_state m f = record { runs = λ s has. (f s).runs s has }

pub get-Moves : {h : Holding} → Moves h get h
get-Moves = record { runs = λ s has. has }

pub argfd-Moves : {h : Holding} (n : ℕ) → Moves h (argfd n) h
unfolding argfd
argfd-Moves n = seq (argint-Moves n) λ fd. seq get-Moves λ s. answer _ λ u has. has

dup_file-Moves : {h : Holding} (f : ℕ) → Moves h (dup_file f) h
unfolding dup_file
dup_file-Moves {h} f = seq (fdalloc-Moves f) placed
  where
    placed :
        (fd : Option ℕ)
        → Moves h (elim fd [ none ↦ pure minus_one | some d ↦ do filedup f; pure (pos d) ]) h
    placed none = answer minus_one λ s has. has
    placed (some d) = seq (filedup-Moves f) λ _. answer (pos d) λ s has. has

pub sys_dup-Moves : {h : Holding} → Moves h sys_dup h
unfolding sys_dup
sys_dup-Moves {h} = seq (argfd-Moves 0) on
  where
    on :
        (r : Option (ℕ × ℕ))
        → Moves h (elim r [ none ↦ pure minus_one | some (fd, x) ↦ dup_file x ]) h
    on none = answer minus_one λ s has. has
    on (some (fd, x)) = dup_file-Moves x

close_fd-Moves : {h : Holding} (fd f : ℕ) → Moves h (close_fd fd f) h
unfolding close_fd
close_fd-Moves fd f =
    seq (set_ofile-Moves fd none) λ _. seq (fileclose-Moves f) λ _. answer (pos 0) λ s has. has

pub sys_close-Moves : {h : Holding} → Moves h sys_close h
unfolding sys_close
sys_close-Moves {h} = seq (argfd-Moves 0) on
  where
    on :
        (r : Option (ℕ × ℕ))
        → Moves h (elim r [ none ↦ pure minus_one | some (fd, x) ↦ close_fd fd x ]) h
    on none = answer minus_one λ s has. has
    on (some (fd, x)) = close_fd-Moves fd x

-- `sys_pipe`
close_both-Moves : {h : Holding} (rf wf : ℕ) → Moves h (close_both rf wf) h
unfolding close_both
close_both-Moves rf wf =
    seq (fileclose-Moves rf) λ _. seq (fileclose-Moves wf) λ _. answer minus_one λ s has. has

pipe_copied-Moves :
    {h : Holding} (fd0 fd1 rf wf : ℕ) (ok : Bool) → Moves h (pipe_copied fd0 fd1 rf wf ok) h
unfolding pipe_copied
pipe_copied-Moves fd0 fd1 rf wf true = answer (pos 0) λ s has. has
pipe_copied-Moves fd0 fd1 rf wf false =
    seq (set_ofile-Moves fd0 none) λ _. seq (set_ofile-Moves fd1 none) λ _. close_both-Moves rf wf

pipe_fds-Moves :
    {h : Holding} (fdarray fd0 fd1 rf wf : ℕ) → Moves h (pipe_fds fdarray fd0 fd1 rf wf) h
unfolding pipe_fds
pipe_fds-Moves fdarray fd0 fd1 rf wf = seq (copyout_buffer-Moves fdarray 4 (int_buffer fd0)) λ ok.
    branch ok
      (λ e.
        seq (copyout_buffer-Moves ((fdarray + 4) % 2 ^ 64) 4 (int_buffer fd1))
          λ ok1. pipe_copied-Moves fd0 fd1 rf wf ok1)
      λ e. pipe_copied-Moves fd0 fd1 rf wf false

pipe_second-Moves :
    {h : Holding} (fdarray rf wf fd0 : ℕ) (b : Option ℕ)
    → Moves h (pipe_second fdarray rf wf fd0 b) h
unfolding pipe_second
pipe_second-Moves fdarray rf wf fd0 none =
    seq (set_ofile-Moves fd0 none) λ _. close_both-Moves rf wf
pipe_second-Moves fdarray rf wf fd0 (some fd1) = pipe_fds-Moves fdarray fd0 fd1 rf wf

pipe_first-Moves :
    {h : Holding} (fdarray rf wf : ℕ) (a : Option ℕ) → Moves h (pipe_first fdarray rf wf a) h
unfolding pipe_first
pipe_first-Moves fdarray rf wf none = close_both-Moves rf wf
pipe_first-Moves fdarray rf wf (some fd0) =
    seq (fdalloc-Moves wf) (pipe_second-Moves fdarray rf wf fd0)

pipe_files-Moves : {h : Holding} (fdarray rf wf : ℕ) → Moves h (pipe_files fdarray rf wf) h
unfolding pipe_files
pipe_files-Moves fdarray rf wf = seq (fdalloc-Moves rf) (pipe_first-Moves fdarray rf wf)

kalloc-Moves : {h : Holding} → Moves h kalloc h
unfolding kalloc
kalloc-Moves = record { runs = λ s has. record { fs = has.fs; ops = has.ops } }

set_pipe-Moves :
    {h : Holding} (f : Sys → ℕ → Pipe.Pipe)
    → Moves {A = Unit {0}} h (λ s. done tt (record s { pipes = f s })) h
set_pipe-Moves f = record { runs = λ s has. record { fs = has.fs; ops = has.ops } }

open_pipe-Moves : {h : Holding} (f0 f1 pi : ℕ) → Moves h (open_pipe f0 f1 pi) h
unfolding open_pipe
open_pipe-Moves f0 f1 pi =
    branch (pi == null)
      (λ e. seq (fileclose-Moves f0) λ _. seq (fileclose-Moves f1) λ _. answer none λ s has. has)
      λ e. seq (set_pipe-Moves _) λ _.
        seq (set_file-Moves f0 (pipe_end pi false))
          λ _. seq (set_file-Moves f1 (pipe_end pi true)) λ _. answer (some (f0, f1)) λ s has. has

pipealloc-Moves : {h : Holding} → Moves h pipealloc h
unfolding pipealloc
pipealloc-Moves {h} = seq filealloc-Moves first
  where
    second :
        (a : ℕ) (f1 : Option ℕ)
        → Moves {A = Option (ℕ × ℕ)} h
            (elim f1 [
              | none ↦ do fileclose a; pure none
              | some b ↦ do pi ← kalloc; open_pipe a b pi
            ])
            h
    second a none = seq (fileclose-Moves a) λ _. answer none λ s has. has
    second a (some b) = seq kalloc-Moves λ pi. open_pipe-Moves a b pi

    first :
        (f0 : Option ℕ)
        → Moves {A = Option (ℕ × ℕ)} h
            (elim f0 [
              | none ↦ pure none
              | some a ↦ do
                f1 ← filealloc
                elim f1 [
                  | none ↦ do fileclose a; pure none
                  | some b ↦ do pi ← kalloc; open_pipe a b pi
                ]
            ])
            h
    first none = answer none λ s has. has
    first (some a) = seq filealloc-Moves (second a)

pub sys_pipe-Moves : {h : Holding} → Moves h sys_pipe h
unfolding sys_pipe
sys_pipe-Moves {h} = seq (argaddr-Moves 0) λ fdarray. seq pipealloc-Moves (with_files fdarray)
  where
    with_files :
        (fdarray : ℕ) (r : Option (ℕ × ℕ))
        → Moves h (elim r [ none ↦ pure minus_one | some (rf, wf) ↦ pipe_files fdarray rf wf ]) h
    with_files fdarray none = answer minus_one λ s has. has
    with_files fdarray (some (rf, wf)) = pipe_files-Moves fdarray rf wf
