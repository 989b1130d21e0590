-- ===== src/Kernel/Content.antt =====
-- lab1/kernel/fs.c: what files hold. A process has a page table `pt` in the
-- tables `k`, and memory of bytes; a buffer lies behind all of memory, at `area`, while bytes are copied.
pub mod Read
pub mod Logged
pub mod Round
pub mod Store
pub mod Grow
pub mod RoundTrip
pub mod Write
mod Tests
use learn_mit_s.Common.{
  ℕ, zero, suc, ◌+◌, ◌-◌, ◌*◌, ◌/◌, ◌%◌, ◌^◌, min, Bool, true, false, ◌||◌, Option, none, some, ltb,
  if◌then◌else◌,
}
use learn_mit_s.Common.{ℤ, pos, length}
use learn_mit_s.Kernel.Kalloc.{Kmem}
use learn_mit_s.Kernel.Str.{Mem, strncmp, strncpy}
use learn_mit_s.Kernel.Usercopy.{either_copyin, either_copyout}
use learn_mit_s.Kernel.Fs.{
  bsize, maxfile, Inode, Fs, Result, done, panicked, out_of_fuel, M, bind_result, ◌>>=◌, ◌>>◌, pure,
  panic, bread, brelse, log_write, content, set_data,
}
use learn_mit_s.Kernel.Fs.Words.{load16, store16}
use learn_mit_s.Kernel.Inode.{
  inode_at, set_inode, bmap, iupdate, iget, idup, ilock, iunlock, iput, iunlockput,
}
use learn_mit_s.Kernel.Path.{Text, dirsiz, skipelem}

-- The table of the process and the kernel's tables.
pub record Space : Type 0 where
  pub pt : ℕ
  pub tables : Kmem

abbrev pub area : ℕ
area = 2 ^ 64

-- Memory with the buffer `d` behind it, and the two parts again.
abbrev pub beside : Mem → Mem → Mem
beside m d a = if ltb a area then m a else d (a - area)

abbrev pub buffer_of : Mem → Mem
buffer_of m i = m (area + i)

abbrev pub memory_of : Mem → Mem → Mem
memory_of m m1 a = if ltb a area then m1 a else m a

-- `m = min(n - tot, BSIZE - off%BSIZE)`
abbrev pub part : ℕ → ℕ → ℕ → ℕ
part n tot off = min (n - tot) (bsize - off % bsize)

-- What `readi` does with the answer of `either_copyout` for the block `b`; `rest` is the rest of the loop.
unfoldable pub read_copied : (Mem → M (ℕ × Mem)) → ℕ → Mem → ℕ → Option (Bool × Mem) → M (ℕ × Mem)
unfolding brelse
read_copied rest tot m b none = λ s. out_of_fuel
read_copied rest tot m b (some (true, m1)) = do brelse b; rest (memory_of m m1)
read_copied rest tot m b (some (false, m1)) = do brelse b; pure (tot, memory_of m m1)

-- A round of `readi` with the block `b` locked.
unfoldable pub read_locked :
    (Mem → M (ℕ × Mem)) → Space → Bool → ℕ → ℕ → ℕ → ℕ → Mem → ℕ → M (ℕ × Mem)
unfolding read_copied either_copyout
read_locked rest p user_dst dst off k tot m b = λ s.
    read_copied rest tot m b
      (either_copyout p.pt p.tables user_dst dst (area + off % bsize) k (beside m (s.blocks b))) s

-- The loop of `readi`: the bytes read and memory. A round reads at least a byte.
unfoldable pub readi_from : ℕ → Space → ℕ → Bool → ℕ → ℕ → ℕ → ℕ → Mem → M (ℕ × Mem)
unfolding bmap bread read_locked
readi_from zero p ip user_dst dst off n tot m = λ s. out_of_fuel
readi_from (suc fuel) p ip user_dst dst off n tot m =
    let k = part n tot off in
    let rest = readi_from fuel p ip user_dst (dst + k) (off + k) n (tot + k) in
    let round : M (ℕ × Mem) = (do
      b ← bmap ip (off / bsize)
      bread b
      read_locked rest p user_dst dst off k tot m b) in
    if ltb tot n then round else pure (tot, m)

unfoldable pub readi : Space → ℕ → Bool → ℕ → ℕ → ℕ → Mem → M (ℕ × Mem)
unfolding readi_from
readi p ip user_dst dst off n m = λ s.
    let size = (s.inodes ip).size in
    let n' = if ltb size ((off + n) % 2 ^ 32) then size - off else n in
    if ltb size off || ltb ((off + n) % 2 ^ 32) off
    then done (0, m) s
    else readi_from (n' + 1) p ip user_dst dst off n' 0 m s

-- What `writei` does with the answer of `either_copyin` for the block `b`; `rest` is the rest of the loop.
unfoldable pub write_copied : M ℕ → ℕ → ℕ → Option (Bool × Mem) → M ℕ
unfolding brelse log_write
write_copied rest off b none = λ s. out_of_fuel
write_copied rest off b (some (true, m1)) = do
  set_data b (buffer_of m1)
  log_write b
  brelse b
  rest
write_copied rest off b (some (false, m1)) = do set_data b (buffer_of m1); brelse b; pure off

-- A round of `writei` with the block `b` locked.
unfoldable pub write_locked : M ℕ → Space → Bool → ℕ → ℕ → ℕ → Mem → ℕ → M ℕ
unfolding write_copied either_copyin
write_locked rest p user_src src off k m b = λ s.
    write_copied rest off b
      (either_copyin p.pt p.tables (area + off % bsize) user_src src k (beside m (s.blocks b))) s

-- The loop of `writei`: where it stopped.
unfoldable pub writei_from : ℕ → Space → ℕ → Bool → ℕ → ℕ → ℕ → ℕ → Mem → M ℕ
unfolding bmap bread write_locked
writei_from zero p ip user_src src off n tot m = λ s. out_of_fuel
writei_from (suc fuel) p ip user_src src off n tot m =
    let k = part n tot off in
    let rest = writei_from fuel p ip user_src (src + k) (off + k) n (tot + k) m in
    let round : M ℕ = (do
      b ← bmap ip (off / bsize)
      bread b
      write_locked rest p user_src src off k m b) in
    if ltb tot n then round else pure off

-- The end of `writei` when the loop stopped at `stop`.
unfoldable pub grow : ℕ → ℕ → ℕ → M (Option ℕ)
unfolding iupdate
grow ip n stop = do
  if ltb 0 n
      then (do
        set_inode ip (λ x. record x { size = if ltb x.size stop then stop else x.size })
        iupdate ip)
      else pure tt
  pure (some n)

-- The number of bytes, or `none` for -1.
unfoldable pub writei : Space → ℕ → Bool → ℕ → ℕ → ℕ → Mem → M (Option ℕ)
unfolding writei_from grow
writei p ip user_src src off n m = λ s.
    let size = (s.inodes ip).size in
    let go : M (Option ℕ) = (writei_from (n + 1) p ip user_src src off n 0 m >>= grow ip n) in
    if ltb size off || ltb ((off + n) % 2 ^ 32) off
    then done none s
    else if ltb (maxfile * bsize) ((off + n) % 2 ^ 32)
    then done none s
    else go s
