-- ===== src/Kernel/Release/Files.antt =====
-- The calls on descriptors give back what they take.
use learn_mit_s.Common.{ℕ, ◌%◌, ◌^◌, Bool, true, false, Option, none, some, ltb, if_both}
use learn_mit_s.Kernel.Kalloc
use learn_mit_s.Kernel.Str.{Mem}
use learn_mit_s.Kernel.Usercopy.{copyinstr, copyout}
use learn_mit_s.Kernel.Pipe.{pipeclose}
use learn_mit_s.Kernel.File
use learn_mit_s.Kernel.Sysfile.{set_ofile, find_slot, slot_taken, fdalloc}
use learn_mit_s.Kernel.File.{File, Files, Closing, nothing, close_pipe, put_inode}
use learn_mit_s.Kernel.Inode.{iput}
use learn_mit_s.Kernel.Content.{area, beside}
use learn_mit_s.Kernel.Locks.Trunc.{iput-Keeps}
use learn_mit_s.Kernel.Sys.{
  nofile, argraw, argint, argaddr, argstr, text_at, copied_in, fetchstr, copied_out, copyout_buffer,
  freed, kfree, filealloc, set_file, duplicated, filedup, close_end, finish_close, closed,
  fileclose,
}
use learn_mit_s.Kernel.Release.{
  Holding, Has, EndsIn, Moves, seq, answer, panic-Gives, call-Keeps, begin_op-Moves, end_op-Moves,
}

argraw-Moves : {h : Holding} (n : ℕ) → Moves h (argraw n) h
unfolding argraw
argraw-Moves {h} n = record {
  runs = λ s has. if_both (EndsIn (λ _. Has h)) (ltb n 6) _ _ (λ e. has) λ e. tt;
}

pub argint-Moves : {h : Holding} (n : ℕ) → Moves h (argint n) h
unfolding argint
argint-Moves n = seq (argraw-Moves n) λ x. answer (x % 2 ^ 32) λ s has. has

pub argaddr-Moves : {h : Holding} (n : ℕ) → Moves h (argaddr n) h
unfolding argaddr
argaddr-Moves n = argraw-Moves n

copied_in-Moves {ℓ} :
    {A : Type ℓ} {h : Holding} (f : Mem → A) (r : Option (Bool × Mem)) → Moves h (copied_in f r) h
copied_in-Moves f none = record { runs = λ s has. tt }
copied_in-Moves f (some (false, m)) = record { runs = λ s has. has }
copied_in-Moves f (some (true, m)) = record { runs = λ s has. has }

pub argstr-Moves : {h : Holding} (n max : ℕ) → Moves h (argstr n max) h
unfolding argstr fetchstr
argstr-Moves n max = seq (argaddr-Moves n) λ addr. record {
  runs = λ s has.
      (copied_in-Moves (text_at max area)
          (copyinstr s.space.pt s.space.tables area addr max s.mem)).runs
        s has;
}

copied_out-Moves : {h : Holding} (r : Option (Bool × Mem)) → Moves h (copied_out r) h
copied_out-Moves none = record { runs = λ s has. tt }
copied_out-Moves (some (ok, m)) = record { runs = λ s has. record { fs = has.fs; ops = has.ops } }

pub copyout_buffer-Moves :
    {h : Holding} (addr len : ℕ) (d : Mem) → Moves h (copyout_buffer addr len d) h
unfolding copyout_buffer
copyout_buffer-Moves addr len d = record {
  runs = λ s has.
      (copied_out-Moves (copyout s.space.pt s.space.tables addr area len (beside s.mem d))).runs s
        has;
}

freed-Moves : {h : Holding} (r : Option Kalloc.Kmem) → Moves h (freed r) h
freed-Moves none = panic-Gives
freed-Moves (some k) = record { runs = λ s has. record { fs = has.fs; ops = has.ops } }

close_end-Moves : {h : Holding} (pi : ℕ) (writable : Bool) → Moves h (close_end pi writable) h
unfolding close_end kfree
close_end-Moves {h} pi writable = record {
  runs = λ s has.
      if_both (EndsIn (λ _. Has h)) (pipeclose (s.pipes pi) writable).1 _ _
        (λ e.
          (freed-Moves (Kalloc.kfree s.endk pi s.space.tables)).runs _
            record { fs = has.fs; ops = has.ops })
        λ e. record { fs = has.fs; ops = has.ops };
}

finish_close-Moves : {h : Holding} (c : Closing) → Moves h (finish_close c) h
unfolding finish_close
finish_close-Moves nothing = answer tt λ s has. has
finish_close-Moves (close_pipe pi writable) = close_end-Moves pi writable
finish_close-Moves (put_inode ip) =
    seq begin_op-Moves λ _. seq (call-Keeps (iput ip) (iput-Keeps ip)) λ _. end_op-Moves

closed-Moves : {h : Holding} (r : Option (Closing × Files)) → Moves h (closed r) h
closed-Moves none = panic-Gives
closed-Moves (some (c, t)) = record {
  runs = λ s has. (finish_close-Moves c).runs _ record { fs = has.fs; ops = has.ops };
}

pub fileclose-Moves : {h : Holding} (f : ℕ) → Moves h (fileclose f) h
unfolding fileclose
fileclose-Moves f = record { runs = λ s has. (closed-Moves (File.fileclose f s.files)).runs s has }

pub filealloc-Moves : {h : Holding} → Moves h filealloc h
unfolding filealloc
filealloc-Moves = record { runs = λ s has. record { fs = has.fs; ops = has.ops } }

duplicated-Moves : {h : Holding} (r : Option Files) → Moves h (duplicated r) h
duplicated-Moves none = panic-Gives
duplicated-Moves (some t) = record { runs = λ s has. record { fs = has.fs; ops = has.ops } }

pub filedup-Moves : {h : Holding} (f : ℕ) → Moves h (filedup f) h
unfolding filedup
filedup-Moves f = record { runs = λ s has. (duplicated-Moves (File.filedup f s.files)).runs s has }

pub set_file-Moves : {h : Holding} (f : ℕ) (g : File → File) → Moves h (set_file f g) h
set_file-Moves f g = record { runs = λ s has. record { fs = has.fs; ops = has.ops } }

pub set_ofile-Moves : {h : Holding} (fd : ℕ) (f : Option ℕ) → Moves h (set_ofile fd f) h
set_ofile-Moves fd f = record { runs = λ s has. record { fs = has.fs; ops = has.ops } }

slot_taken-Moves : {h : Holding} (f : ℕ) (r : Option ℕ) → Moves h (slot_taken f r) h
slot_taken-Moves f none = answer none λ s has. has
slot_taken-Moves f (some fd) = seq (set_ofile-Moves fd (some f)) λ _. answer (some fd) λ s has. has

pub fdalloc-Moves : {h : Holding} (f : ℕ) → Moves h (fdalloc f) h
unfolding fdalloc
fdalloc-Moves f = record {
  runs = λ s has. (slot_taken-Moves f (find_slot nofile 0 s.ofile)).runs s has;
}
