-- ===== src/Kernel/Locks/Contents.antt =====
-- Reading and writing the content of an inode gives back the buffers.
use learn_mit_s.Common.{
  ℕ, zero, suc, ◌+◌, ◌-◌, ◌*◌, ◌/◌, ◌%◌, ◌^◌, ◌≡◌, refl, Bool, true, false, ◌||◌, Option, none,
  some, ltb, if_both, if◌then◌else◌,
}
use learn_mit_s.Kernel.Str.{Mem}
use learn_mit_s.Kernel.Usercopy.{either_copyin, either_copyout}
use learn_mit_s.Kernel.Fs.{bsize, maxfile, M, ◌>>=◌, ◌>>◌, pure, bread, brelse, log_write}
use learn_mit_s.Kernel.Fs.Bitmap.{with_held}
use learn_mit_s.Kernel.Inode.{set_inode, bmap, iupdate}
use learn_mit_s.Kernel.Content.{
  Space, area, beside, memory_of, part, read_copied, read_locked, readi_from, readi, write_copied,
  write_locked, writei_from, grow, writei,
}
use learn_mit_s.Kernel.Locks.{
  Locks, lock_buffer, EndsAt, Takes, Keeps, then_ends, bread_then, brelse-Takes, set_inode-At,
}
use learn_mit_s.Kernel.Locks.Inodes.{bmap-Keeps, iupdate-Keeps}

read_copied-Takes :
    (rest : Mem → M (ℕ × Mem)) (tot : ℕ) (m : Mem) (b : ℕ) (r : Option (Bool × Mem)) (l : Locks)
    → l.buffers b ≡ false
    → ((m1 : Mem) → Takes l (rest m1) l)
    → Takes (lock_buffer b l) (read_copied rest tot m b r) l
unfolding read_copied
read_copied-Takes rest tot m b none l free k s h = tt
read_copied-Takes rest tot m b (some (true, m1)) l free k s h =
    then_ends l l (brelse b s) (λ _. rest (memory_of m m1)) (brelse-Takes b l free s h)
      λ _. k (memory_of m m1)
read_copied-Takes rest tot m b (some (false, m1)) l free k s h =
    then_ends l l (brelse b s) (λ _. pure (tot, memory_of m m1)) (brelse-Takes b l free s h)
      λ _ u at. at

readi_from-Keeps :
    (fuel : ℕ) (p : Space) (ip : ℕ) (user : Bool) (dst off n tot : ℕ) (m : Mem)
    → Keeps (readi_from fuel p ip user dst off n tot m)
unfolding readi_from read_locked
readi_from-Keeps zero p ip user dst off n tot m l s h = tt
readi_from-Keeps (suc fuel) p ip user dst off n tot m l s h =
    let k = part n tot off in
    let rest = readi_from fuel p ip user (dst + k) (off + k) n (tot + k) in
    let round : M (ℕ × Mem) =
      bmap ip (off / bsize) >>= (λ b. bread b >> read_locked rest p user dst off k tot m b) in
    if_both (λ (x : M (ℕ × Mem)). EndsAt l (x s)) (ltb tot n) round (pure (tot, m))
      (λ e. then_ends l l (bmap ip (off / bsize) s) _ (bmap-Keeps ip (off / bsize) l s h) λ b u at.
        bread_then l l b (read_locked rest p user dst off k tot m b) u at λ free have.
          let v = with_held b true u in
          read_copied-Takes rest tot m b
            (either_copyout p.pt p.tables user dst (area + off % bsize) k (beside m (v.blocks b))) l
            free (λ m1. readi_from-Keeps fuel p ip user (dst + k) (off + k) n (tot + k) m1 l) v
            have)
      λ e. h

pub readi-Keeps :
    (p : Space) (ip : ℕ) (user : Bool) (dst off n : ℕ) (m : Mem)
    → Keeps (readi p ip user dst off n m)
unfolding readi
readi-Keeps p ip user dst off n m l s h =
    let size = (s.inodes ip).size in
    let n' = if ltb size ((off + n) % 2 ^ 32) then size - off else n in
    if_both (EndsAt l) (ltb size off || ltb ((off + n) % 2 ^ 32) off) _ _ (λ e. h)
      λ e. readi_from-Keeps (n' + 1) p ip user dst off n' 0 m l s h

write_copied-Takes :
    (rest : M ℕ) (off b : ℕ) (r : Option (Bool × Mem)) (l : Locks)
    → l.buffers b ≡ false
    → Takes l rest l
    → Takes (lock_buffer b l) (write_copied rest off b r) l
unfolding write_copied log_write
write_copied-Takes rest off b none l free k s h = tt
write_copied-Takes rest off b (some (true, m1)) l free k s h =
    then_ends l l _ (λ _. rest)
      (brelse-Takes b l free _ record { inodes = h.inodes; buffers = h.buffers }) λ _. k
write_copied-Takes rest off b (some (false, m1)) l free k s h =
    then_ends l l _ (λ _. pure off)
      (brelse-Takes b l free _ record { inodes = h.inodes; buffers = h.buffers }) λ _ u at. at

writei_from-Keeps :
    (fuel : ℕ) (p : Space) (ip : ℕ) (user : Bool) (src off n tot : ℕ) (m : Mem)
    → Keeps (writei_from fuel p ip user src off n tot m)
unfolding writei_from write_locked
writei_from-Keeps zero p ip user src off n tot m l s h = tt
writei_from-Keeps (suc fuel) p ip user src off n tot m l s h =
    let k = part n tot off in
    let rest = writei_from fuel p ip user (src + k) (off + k) n (tot + k) m in
    let round : M ℕ =
      bmap ip (off / bsize) >>= (λ b. bread b >> write_locked rest p user src off k m b) in
    if_both (λ (x : M ℕ). EndsAt l (x s)) (ltb tot n) round (pure off)
      (λ e. then_ends l l (bmap ip (off / bsize) s) _ (bmap-Keeps ip (off / bsize) l s h) λ b u at.
        bread_then l l b (write_locked rest p user src off k m b) u at λ free have.
          let v = with_held b true u in
          write_copied-Takes rest off b
            (either_copyin p.pt p.tables (area + off % bsize) user src k (beside m (v.blocks b))) l
            free (writei_from-Keeps fuel p ip user (src + k) (off + k) n (tot + k) m l) v have)
      λ e. h

grow-Keeps : (ip n stop : ℕ) → Keeps (grow ip n stop)
unfolding grow
grow-Keeps ip n stop l s h =
    let raise : M (Unit {0}) =
      set_inode ip (λ x. record x { size = if ltb x.size stop then stop else x.size })
      >> iupdate ip in
    let first : M (Unit {0}) = if ltb 0 n then raise else pure tt in
    then_ends l l (first s) (λ _. pure (some n))
      (if_both (λ (m : M (Unit {0})). EndsAt l (m s)) (ltb 0 n) raise (pure tt)
        (λ e. iupdate-Keeps ip l _ (
          set_inode-At ip (λ x. record x { size = if ltb x.size stop then stop else x.size }) l s
            (λ x. refl) h))
        λ e. h)
      λ _ u at. at

pub writei-Keeps :
    (p : Space) (ip : ℕ) (user : Bool) (src off n : ℕ) (m : Mem)
    → Keeps (writei p ip user src off n m)
unfolding writei
writei-Keeps p ip user src off n m l s h =
    if_both (EndsAt l) (ltb (s.inodes ip).size off || ltb ((off + n) % 2 ^ 32) off) _ _ (λ e. h)
      λ e.
        if_both (EndsAt l) (ltb (maxfile * bsize) ((off + n) % 2 ^ 32)) _ _ (λ f. h)
          λ f.
            then_ends l l (writei_from (n + 1) p ip user src off n 0 m s) (grow ip n)
              (writei_from-Keeps (n + 1) p ip user src off n 0 m l s h)
              λ stop. grow-Keeps ip n stop l
