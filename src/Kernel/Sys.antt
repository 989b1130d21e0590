-- ===== src/Kernel/Sys.antt =====
-- What a system call works on, lab1/kernel/syscall.c: the arguments of a call, and the calls of the layers below
-- as lab1/kernel/sysfile.c makes them. `args` is the registers a0 to a5 of the trap frame, and `sz`, `killed`,
-- `ofile` and `cwd` are those of `myproc()`. `ops` is the number of transactions that the process is in; the log is
-- in Kernel.Log. A pipe has the address of its page. A buffer on the kernel stack lies at `area`, behind memory.
use learn_mit_s.Common.{
  ℕ, zero, suc, ◌+◌, ◌-◌, ◌*◌, ◌%◌, ◌^◌, Bool, true, false, ◌||◌, Option, none, some, [], ◌∷◌, ltb,
  leb, ◌==◌, if◌then◌else◌, update,
}
use learn_mit_s.Kernel.Str.{Mem}
use learn_mit_s.Kernel.Kalloc
use learn_mit_s.Kernel.Usercopy.{copyin, copyinstr, copyout}
use learn_mit_s.Kernel.Pipe.{Pipe, pipeclose}
use learn_mit_s.Kernel.File
use learn_mit_s.Kernel.File.{File, fd_pipe, Files, Closing, nothing, close_pipe, put_inode}
use learn_mit_s.Kernel.Fs
use learn_mit_s.Kernel.Fs.{Fs, M}
use learn_mit_s.Kernel.Fs.Words.{load32}
use learn_mit_s.Kernel.Inode.{iput}
use learn_mit_s.Kernel.Path.{Text}
use learn_mit_s.Kernel.Content.{Space, area, beside, memory_of}

abbrev pub nofile : ℕ
nofile = 16

abbrev pub maxpath : ℕ
maxpath = 128

pub record Sys : Type 0 where
  pub fs : Fs
  pub files : Files
  pub pipes : ℕ → Pipe
  pub space : Space
  pub endk : ℕ
  pub mem : Mem
  pub args : ℕ → ℕ
  pub sz : ℕ
  pub killed : Bool
  pub ofile : ℕ → Option ℕ
  pub cwd : ℕ
  pub ops : ℕ

pub data Outcome {ℓ} (A : Type ℓ) : Type ℓ where
  done : A → Sys → Outcome A
  panicked : Outcome A
  asleep : Outcome A
  out_of_fuel : Outcome A

abbrev pub Act {ℓ} : Type ℓ → Type ℓ
Act A = Sys → Outcome A

infixl 5 ◌>>=◌ ◌>>◌
abbrev pub bind_outcome {ℓ κ} : {A : Type ℓ} {B : Type κ} → Outcome A → (A → Act B) → Outcome B
bind_outcome (done a s) f = f a s
bind_outcome panicked f = panicked
bind_outcome asleep f = asleep
bind_outcome out_of_fuel f = out_of_fuel

abbrev pub ◌>>=◌ {ℓ κ} : {A : Type ℓ} {B : Type κ} → Act A → (A → Act B) → Act B
m >>= f = λ s. bind_outcome (m s) f

abbrev pub ◌>>◌ {ℓ} : {B : Type ℓ} → Act (Unit {0}) → Act B → Act B
m >> k = m >>= λ _. k

abbrev pub pure {ℓ} : {A : Type ℓ} → A → Act A
pure a s = done a s

abbrev pub panic {ℓ} : {A : Type ℓ} → Act A
panic s = panicked

abbrev pub get : Act Sys
get s = done s s

-- A call of the file system.
abbrev pub in_fs {ℓ} : {A : Type ℓ} → Fs.Result A → Sys → Outcome A
in_fs (Fs.done a t) s = done a (record s { fs = t })
in_fs Fs.panicked s = panicked
in_fs Fs.asleep s = asleep
in_fs Fs.out_of_fuel s = out_of_fuel

abbrev pub call {ℓ} : {A : Type ℓ} → M A → Act A
call m s = in_fs (m s.fs) s

unfoldable pub begin_op : Act (Unit {0})
begin_op s = done tt (record s { ops = s.ops + 1 })

unfoldable pub end_op : Act (Unit {0})
end_op s = done tt (record s { ops = s.ops - 1 })

-- `syscall.c`
unfoldable pub argraw : ℕ → Act ℕ
argraw n s = if ltb n 6 then done (s.args n) s else panicked

-- An `int` is its 32 bits.
unfoldable pub argint : ℕ → Act ℕ
unfolding argraw
argint n = do x ← argraw n; pure (x % 2 ^ 32)

unfoldable pub argaddr : ℕ → Act ℕ
unfolding argraw
argaddr n = argraw n

-- The string at `a`, of at most `r` bytes.
unfoldable pub text_at : ℕ → ℕ → Mem → Text
text_at zero a m = []
text_at (suc r) a m = let rest = text_at r (a + 1) m in if m a == 0 then [] else m a ∷ rest

-- What is in a buffer behind memory after a copy, or `none` for -1.
abbrev pub copied_in {ℓ} : {A : Type ℓ} → (Mem → A) → Option (Bool × Mem) → Act (Option A)
copied_in f none = λ s. out_of_fuel
copied_in f (some (false, m)) = pure none
copied_in f (some (true, m)) = pure (some (f m))

-- The string is in `buf` then.
unfoldable pub fetchstr : ℕ → ℕ → Act (Option Text)
unfolding copyinstr text_at
fetchstr addr max s =
    copied_in (text_at max area) (copyinstr s.space.pt s.space.tables area addr max s.mem) s

unfoldable pub fetchaddr : ℕ → Act (Option ℕ)
unfolding copyin load32
fetchaddr addr s =
    if leb s.sz addr || ltb s.sz ((addr + 8) % 2 ^ 64)
    then done none s
    else copied_in (λ m. load32 m area + 2 ^ 32 * load32 m (area + 4))
        (copyin s.space.pt s.space.tables area addr 8 s.mem) s

unfoldable pub argstr : ℕ → ℕ → Act (Option Text)
unfolding argaddr fetchstr
argstr n max = do addr ← argaddr n; fetchstr addr max

-- `copyout` of the buffer `d`: true for 0.
abbrev pub copied_out : Option (Bool × Mem) → Act Bool
copied_out none = λ s. out_of_fuel
copied_out (some (ok, m)) = λ s. done ok (record s { mem = memory_of s.mem m })

unfoldable pub copyout_buffer : ℕ → ℕ → Mem → Act Bool
unfolding copyout
copyout_buffer addr len d s =
    copied_out (copyout s.space.pt s.space.tables addr area len (beside s.mem d)) s

-- Pages.
unfoldable pub kalloc : Act ℕ
unfolding Kalloc.kalloc
kalloc s =
    let (pa, k) = Kalloc.kalloc s.space.tables in
    done pa (record s { space = record s.space { tables = k } })

abbrev pub freed : Option Kalloc.Kmem → Act (Unit {0})
freed none = panic
freed (some k) = λ s. done tt (record s { space = record s.space { tables = k } })

unfoldable pub kfree : ℕ → Act (Unit {0})
unfolding Kalloc.kfree
kfree pa s = freed (Kalloc.kfree s.endk pa s.space.tables) s

-- Files.
unfoldable pub filealloc : Act (Option ℕ)
unfolding File.filealloc
filealloc s = let (f, t) = File.filealloc s.files in done f (record s { files = t })

abbrev pub set_file : ℕ → (File → File) → Act (Unit {0})
set_file f g s = done tt (record s { files = update s.files f (g (s.files f)) })

abbrev pub duplicated : Option Files → Act (Unit {0})
duplicated none = panic
duplicated (some t) = λ s. done tt (record s { files = t })

unfoldable pub filedup : ℕ → Act (Unit {0})
unfolding File.filedup
filedup f s = duplicated (File.filedup f s.files) s

-- `pipeclose` of the pipe at `pi`; the wakeups are in Kernel.Pipe.
unfoldable pub close_end : ℕ → Bool → Act (Unit {0})
unfolding kfree pipeclose
close_end pi writable = λ s.
    let (p, last) = pipeclose (s.pipes pi) writable in
    let u = record s { pipes = update s.pipes pi p } in if last then kfree pi u else done tt u

-- The end of `fileclose`.
unfoldable pub finish_close : Closing → Act (Unit {0})
unfolding close_end begin_op end_op iput
finish_close nothing = pure tt
finish_close (close_pipe pi writable) = close_end pi writable
finish_close (put_inode ip) = do begin_op; call (iput ip); end_op

abbrev pub closed : Option (Closing × Files) → Act (Unit {0})
closed none = panic
closed (some (c, t)) = λ s. finish_close c (record s { files = t })

unfoldable pub fileclose : ℕ → Act (Unit {0})
unfolding finish_close File.fileclose
fileclose f s = closed (File.fileclose f s.files) s
