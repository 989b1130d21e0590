-- ===== src/Kernel/Fileio.antt =====
-- lab1/kernel/file.c: reading and writing open files, and their metadata; `pipealloc` of lab1/kernel/pipe.c. The
-- device switch `devsw` is a table of functions, an entry `none` where it holds 0. `stack` is what the kernel
-- stack holds where a `struct stat` is, in which `stati` leaves four bytes as they are.
use learn_mit_s.Common.{
  ℕ, zero, suc, ◌+◌, ◌-◌, ◌%◌, ◌^◌, Bool, true, false, not, ◌||◌, Option, none, some, List, [], ◌∷◌,
  ltb, leb, ◌==◌, if◌then◌else◌, update,
}
use learn_mit_s.Common.{ℤ, pos, negsuc}
use learn_mit_s.Kernel.Str.{Mem}
use learn_mit_s.Kernel.Kalloc.{null}
use learn_mit_s.Kernel.Vm.{pgrounddown}
use learn_mit_s.Kernel.Usercopy.{translate}
use learn_mit_s.Kernel.Pipe
use learn_mit_s.Kernel.Pipe.{Pipe, fresh_pipe, piperead, pipewrite}
use learn_mit_s.Kernel.File.{File, FileType, fd_none, fd_pipe, fd_inode, fd_device}
use learn_mit_s.Kernel.Fs.Words.{store16, store32}
use learn_mit_s.Kernel.Fs.{Inode}
use learn_mit_s.Kernel.Inode.{inode_at, ilock, iunlock}
use learn_mit_s.Kernel.Content.{readi, writei}
use learn_mit_s.Kernel.Sys.{
  Sys, done, asleep, out_of_fuel, Act, ◌>>=◌, ◌>>◌, pure, panic, get, call, begin_op, end_op,
  kalloc, filealloc, set_file, fileclose, copyout_buffer,
}

abbrev pub ndev : ℕ
ndev = 10

abbrev pub rootdev : ℕ
rootdev = 1

-- ((MAXOPBLOCKS - 1 - 1 - 2) / 2) * BSIZE
abbrev pub max_write : ℕ
max_write = 3072

abbrev pub minus_one : ℤ
minus_one = negsuc 0

-- The rounds of a loop `for(i = 0; i < n; i++)` for the 32 bits of an `int n`.
abbrev pub rounds : ℕ → ℕ
rounds n = if leb (2 ^ 31) n then 0 else n

pub record Device : Type 0 where
  pub read : ℕ → ℕ → Act ℤ
  pub write : ℕ → ℕ → Act ℤ

-- The bytes that a user reads and writes one by one.
abbrev pub user_byte : Sys → ℕ → Option ℕ
user_byte s a =
    let pa0 = translate s.space.pt s.space.tables (pgrounddown a) in
    if pa0 == 0 then none else some (s.mem (pa0 + (a - pgrounddown a)))

abbrev pub user_writable : Sys → ℕ → Bool
user_writable s a = not (translate s.space.pt s.space.tables (pgrounddown a) == 0)

unfoldable pub store_user : Sys → ℕ → List ℕ → Mem → Mem
store_user s a [] m = m
store_user s a (ch ∷ out) m =
    let pa0 = translate s.space.pt s.space.tables (pgrounddown a) in
    store_user s (a + 1) out (update m (pa0 + (a - pgrounddown a)) ch)

abbrev pub pipe_outcome : ℕ → Pipe.Outcome → Act ℤ
pipe_outcome pi (Pipe.returns r p) = λ s. done r (record s { pipes = update s.pipes pi p })
pipe_outcome pi (Pipe.sleeps i p) = λ s. asleep

unfoldable pub read_pipe : ℕ → ℕ → ℕ → Act ℤ
unfolding piperead store_user
read_pipe pi addr n s =
    let (out, r) = piperead (user_writable s) addr s.killed (rounds n) (s.pipes pi) in
    pipe_outcome pi r (record s { mem = store_user s addr out s.mem })

unfoldable pub write_pipe : ℕ → ℕ → ℕ → Act ℤ
unfolding pipewrite
write_pipe pi addr n s =
    pipe_outcome pi (pipewrite (user_byte s) addr s.killed (rounds n) (s.pipes pi)) s

abbrev pub set_mem : Mem → Act (Unit {0})
set_mem m s = done tt (record s { mem = m })

-- `f->off += r`
abbrev pub advance : ℕ → ℕ → Act (Unit {0})
advance f r = set_file f (λ x. record x { off = (x.off + r) % 2 ^ 32 })

-- `fileread` of an inode, with the file as it was.
unfoldable pub read_inode : ℕ → ℕ → ℕ → File → Act ℤ
unfolding ilock readi iunlock
read_inode f addr n x = do
  call (ilock x.ip)
  v ← get
  got ← call (readi v.space x.ip true addr x.off n v.mem)
  set_mem got.1
  advance f got.0
  call (iunlock x.ip)
  pure (pos got.0)

-- The answer of `writei`: a negative one moves nothing on.
abbrev pub advance_by : ℕ → Option ℕ → Act (Unit {0})
advance_by f none = pure tt
advance_by f (some r) = advance f r

-- `filewrite` of `n1` bytes to the inode `ip`, whose lock is held.
unfoldable pub write_locked : ℕ → ℕ → ℕ → ℕ → Act (Option ℕ)
unfolding writei
write_locked f ip addr n1 = do
  s ← get
  r ← call (writei s.space ip true addr (s.files f).off n1 s.mem)
  advance_by f r
  pure r

-- The body of the loop of `filewrite`, for `n1` bytes.
unfoldable pub write_some : ℕ → ℕ → ℕ → ℕ → Act (Option ℕ)
unfolding begin_op end_op ilock write_locked iunlock
write_some f ip addr n1 = do
  begin_op
  call (ilock ip)
  r ← write_locked f ip addr n1
  call (iunlock ip)
  end_op
  pure r

-- The loop of `filewrite` at `i`: where it stops. A round writes at least a byte.
unfoldable pub write_chunks : ℕ → ℕ → ℕ → ℕ → ℕ → ℕ → Act ℕ
unfolding write_some
write_chunks zero f ip addr n i = λ s. out_of_fuel
write_chunks (suc fuel) f ip addr n i =
    let n1 = if ltb max_write (n - i) then max_write else n - i in
    let rest = write_chunks fuel f ip addr n (i + n1) in
    let round : Act ℕ = (do
      r ← write_some f ip ((addr + i) % 2 ^ 64) n1
      elim r [ none ↦ pure i | some k ↦ if not (k == n1) then panic else rest ]) in
    if ltb i n then round else pure i

-- `(i == n ? n : -1)`, for the bits of `n`.
abbrev pub all_or_error : ℕ → ℕ → ℤ
all_or_error n i = if i == n then pos n else minus_one

unfoldable pub write_inode : ℕ → ℕ → ℕ → ℕ → Act ℤ
unfolding write_chunks
write_inode f ip addr n = do
  i ← write_chunks (rounds n + 1) f ip addr (rounds n) 0
  pure (all_or_error n i)

abbrev pub on_device : (Device → Act ℤ) → Option Device → Act ℤ
on_device f none = pure minus_one
on_device f (some d) = f d

-- `f->major < 0 || f->major >= NDEV` for a `short` by its 16 bits.
abbrev pub no_device : ℕ → Bool
no_device major = leb (2 ^ 15) major || leb ndev major

-- The calls by the kind of the file.
module _ (devsw : ℕ → Option Device) (f addr n : ℕ) where
  unfoldable pub read_kind : File → FileType → Act ℤ
  unfolding read_pipe read_inode
  read_kind x fd_none = panic
  read_kind x fd_pipe = read_pipe x.pipe addr n
  read_kind x fd_inode = read_inode f addr n x
  read_kind x fd_device =
      if no_device x.major then pure minus_one else on_device (λ d. d.read addr n) (devsw x.major)

  unfoldable pub fileread : Act ℤ
  unfolding read_kind
  fileread s =
      let x = s.files f in if not x.readable then done minus_one s else read_kind x x.kind s

  unfoldable pub write_kind : File → FileType → Act ℤ
  unfolding write_pipe write_inode
  write_kind x fd_none = panic
  write_kind x fd_pipe = write_pipe x.pipe addr n
  write_kind x fd_inode = write_inode f x.ip addr n
  write_kind x fd_device =
      if no_device x.major then pure minus_one else on_device (λ d. d.write addr n) (devsw x.major)

  unfoldable pub filewrite : Act ℤ
  unfolding write_kind
  filewrite s =
      let x = s.files f in if not x.writable then done minus_one s else write_kind x x.kind s

-- `stati`, into the `struct stat` at 0.
unfoldable pub stati : Inode → Mem → Mem
unfolding store16 store32
stati x d =
    let d1 = store32 (store32 d 0 rootdev) 4 x.inum in
    let d2 = store16 (store16 d1 8 x.type) 10 x.nlink in store32 (store32 d2 16 x.size) 20 0

-- `filestat` of an inode.
unfoldable pub stat_inode : Mem → ℕ → ℕ → Act ℤ
unfolding stati ilock iunlock copyout_buffer
stat_inode stack ip addr = do
  call (ilock ip)
  i ← call (inode_at ip)
  call (iunlock ip)
  ok ← copyout_buffer addr 24 (stati i stack)
  pure (if ok then pos 0 else minus_one)

abbrev pub stat_kind : Mem → ℕ → ℕ → FileType → Act ℤ
stat_kind stack ip addr fd_none = pure minus_one
stat_kind stack ip addr fd_pipe = pure minus_one
stat_kind stack ip addr fd_inode = stat_inode stack ip addr
stat_kind stack ip addr fd_device = stat_inode stack ip addr

unfoldable pub filestat : Mem → ℕ → ℕ → Act ℤ
unfolding stat_inode
filestat stack f addr = λ s. stat_kind stack (s.files f).ip addr (s.files f).kind s

-- A file of a pipe, and the pipe in a page.
abbrev pub pipe_end : ℕ → Bool → File → File
pipe_end pi writable x = record x {
  kind = fd_pipe;
  readable = not writable;
  writable = writable;
  pipe = pi;
}

-- `pipealloc` with both files: the page that `kalloc` gave holds what it held.
unfoldable pub open_pipe : ℕ → ℕ → ℕ → Act (Option (ℕ × ℕ))
unfolding fileclose fresh_pipe
open_pipe f0 f1 pi =
    let fail : Act (Option (ℕ × ℕ)) = (do fileclose f0; fileclose f1; pure none) in
    let make : Act (Option (ℕ × ℕ)) = (do
      (λ s. done tt (record s { pipes = update s.pipes pi (fresh_pipe (λ i. s.mem (pi + i))) }))
      set_file f0 (pipe_end pi false)
      set_file f1 (pipe_end pi true)
      pure (some (f0, f1))) in
    if pi == null then fail else make

unfoldable pub pipealloc : Act (Option (ℕ × ℕ))
unfolding filealloc fileclose kalloc open_pipe
pipealloc = do
  f0 ← filealloc
  elim f0 [
    | none ↦ pure none
    | some a ↦ do
      f1 ← filealloc
      elim f1 [ none ↦ do fileclose a; pure none | some b ↦ do pi ← kalloc; open_pipe a b pi ]
  ]
