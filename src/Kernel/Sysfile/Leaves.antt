-- ===== src/Kernel/Sysfile/Leaves.antt =====
-- Calls that leave the table of descriptors alone.
use learn_mit_s.Common.{ℕ, ◌+◌, ◌≡◌, Bool, Option, none, some, if_both}
use learn_mit_s.Kernel.Str.{Mem}
use learn_mit_s.Kernel.Kalloc
use learn_mit_s.Kernel.Usercopy.{copyout}
use learn_mit_s.Kernel.Pipe.{pipeclose}
use learn_mit_s.Kernel.File
use learn_mit_s.Kernel.File.{Files, Closing, nothing, close_pipe, put_inode}
use learn_mit_s.Kernel.Fs
use learn_mit_s.Kernel.Inode.{iput}
use learn_mit_s.Kernel.Content.{area, beside}
use learn_mit_s.Kernel.Sys.{
  Sys, Outcome, done, panicked, asleep, out_of_fuel, Act, bind_outcome, in_fs, copied_out,
  copyout_buffer, freed, kfree, close_end, finish_close, closed, fileclose, begin_op, end_op,
}

abbrev pub Slots : Type 0
Slots = ℕ → Option ℕ

-- Where a call comes back, the answer and the descriptors are so.
abbrev pub Leaves {ℓ} : {A : Type ℓ} → (A → Slots → Type 0) → Outcome A → Type 0
Leaves P (done a s) = P a s.ofile
Leaves P panicked = Unit
Leaves P asleep = Unit
Leaves P out_of_fuel = Unit

pub then-Leaves {ℓ κ} :
    {A : Type ℓ} {B : Type κ} (P : A → Slots → Type 0) (Q : B → Slots → Type 0) (r : Outcome A)
    (f : A → Act B)
    → Leaves P r
    → ((a : A) (s : Sys) → P a s.ofile → Leaves Q (f a s))
    → Leaves Q (bind_outcome r f)
then-Leaves P Q (done a s) f h k = k a s h
then-Leaves P Q panicked f h k = tt
then-Leaves P Q asleep f h k = tt
then-Leaves P Q out_of_fuel f h k = tt

abbrev pub Same {ℓ} : {A : Type ℓ} → Slots → A → Slots → Type 0
Same t a u = u ≡ t

-- `fileclose` and `copyout` leave the descriptors alone.
in_fs-Same :
    (t : Slots) (r : Fs.Result (Unit {0})) (s : Sys) → s.ofile ≡ t → Leaves (Same t) (in_fs r s)
in_fs-Same t (Fs.done a v) s h = h
in_fs-Same t Fs.panicked s h = tt
in_fs-Same t Fs.asleep s h = tt
in_fs-Same t Fs.out_of_fuel s h = tt

freed-Same :
    (t : Slots) (r : Option Kalloc.Kmem) (s : Sys) → s.ofile ≡ t → Leaves (Same t) (freed r s)
freed-Same t none s h = tt
freed-Same t (some k) s h = h

finish_close-Same :
    (t : Slots) (c : Closing) (s : Sys) → s.ofile ≡ t → Leaves (Same t) (finish_close c s)
unfolding finish_close close_end kfree begin_op end_op
finish_close-Same t nothing s h = h
finish_close-Same t (close_pipe pi writable) s h =
    if_both (Leaves (Same t)) (pipeclose (s.pipes pi) writable).1 _ _
      (λ e. freed-Same t (Kalloc.kfree s.endk pi s.space.tables) _ h) λ e. h
finish_close-Same t (put_inode ip) s h =
    then-Leaves (Same t) (Same t) (in_fs (iput ip s.fs) (record s { ops = s.ops + 1 }))
      (λ _. end_op) (in_fs-Same t (iput ip s.fs) (record s { ops = s.ops + 1 }) h) λ _ u k. k

closed-Same :
    (t : Slots) (r : Option (Closing × Files)) (s : Sys)
    → s.ofile ≡ t
    → Leaves (Same t) (closed r s)
closed-Same t none s h = tt
closed-Same t (some (c, v)) s h = finish_close-Same t c (record s { files = v }) h

pub fileclose-Same : (t : Slots) (f : ℕ) (s : Sys) → s.ofile ≡ t → Leaves (Same t) (fileclose f s)
unfolding fileclose
fileclose-Same t f s h = closed-Same t (File.fileclose f s.files) s h

copied_out-Same :
    (t : Slots) (r : Option (Bool × Mem)) (s : Sys) → s.ofile ≡ t → Leaves (Same t) (copied_out r s)
copied_out-Same t none s h = tt
copied_out-Same t (some (ok, m)) s h = h

pub copyout_buffer-Same :
    (t : Slots) (addr len : ℕ) (d : Mem) (s : Sys)
    → s.ofile ≡ t
    → Leaves (Same t) (copyout_buffer addr len d s)
unfolding copyout_buffer
copyout_buffer-Same t addr len d s h =
    copied_out-Same t (copyout s.space.pt s.space.tables addr area len (beside s.mem d)) s h
