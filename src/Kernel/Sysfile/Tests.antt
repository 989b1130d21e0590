-- ===== src/Kernel/Sysfile/Tests.antt =====
-- Theorems and runs for the calls on descriptors.
use learn_mit_s.Common.{ℕ, ◌<◌, ◌≡◌, refl, ◌⊎◌, true, some, arith}
use learn_mit_s.Common.{ℤ, pos}
use learn_mit_s.Kernel.Vm.{walkaddr}
use learn_mit_s.Kernel.Usercopy.{translate}
use learn_mit_s.Kernel.Pipe.{fresh_pipe}
use learn_mit_s.Kernel.Sys.{nofile, Sys, Outcome, done, panicked, asleep, out_of_fuel}
use learn_mit_s.Kernel.Fileio.{minus_one}
use learn_mit_s.Kernel.Sysfile.{is_open, dup_file, close_fd, pipe_files}
use learn_mit_s.Kernel.Sysfile.Sample.{process, with_pipe}
use learn_mit_s.Kernel.Sysfile.Unwind.{PipeOpened, pipe_files-PipeOpened}
use learn_mit_s.Kernel.Sysfile.Slots.{Lowest}
use learn_mit_s.Kernel.Sysfile.Copies.{close_fd-dup_file}

answer : Outcome ℤ → ℤ
answer r = elim r [ done z s ↦ z | _ ↦ pos 99 ]

dup_two : answer (dup_file 3 process) ≡ pos 2
unfolding answer dup_file
dup_two = refl

close_fd-dup_file_example :
    (((fd : ℕ) → fd < nofile → is_open (process.ofile fd) ≡ true)
      × (dup_file 3 process ≡ done minus_one process))
    ⊎ ((fd : ℕ) × (u : Sys) × Lowest process.ofile nofile 0 fd
        × (dup_file 3 process ≡ done (pos fd) u)
        × (u.ofile fd ≡ some 3)
        × (close_fd fd 3 u ≡ done (pos 0) process))
close_fd-dup_file_example = close_fd-dup_file process 3 0 refl (omega arith)

abbrev state_of : Outcome ℤ → Sys
state_of (done z s) = s
state_of panicked = process
state_of asleep = process
state_of out_of_fuel = process

-- The address for the descriptors is not mapped, so both are taken back and the page of the pipe is freed.
abbrev after : Sys
after = state_of (pipe_files 0 7 8 with_pipe)

unmapped : pipe_files 0 7 8 with_pipe ≡ done minus_one after
unfolding pipe_files translate walkaddr fresh_pipe
unmapped = refl

page_freed : after.space.tables.freelist ≡ 4096
unfolding pipe_files translate walkaddr fresh_pipe
page_freed = refl

pipe_files-PipeOpened_example : PipeOpened with_pipe.ofile 7 8 minus_one after.ofile
pipe_files-PipeOpened_example = pipe_files-PipeOpened 0 7 8 with_pipe after minus_one unmapped
