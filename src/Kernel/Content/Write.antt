-- ===== src/Kernel/Content/Write.antt =====
-- `writei` where the source is not mapped.
use learn_mit_s.Common.{
  ℕ, suc, ◌+◌, ◌*◌, ◌/◌, ◌%◌, ◌≤◌, ◌<◌, ◌≡◌, refl, ap, ◌∙◌, ◌≢◌, true, false, none, some, arith,
  ◌==◌, ==_ne, lt→ltb, update, update_self, if-true, if-false,
}
use learn_mit_s.Kernel.Kalloc.{Kmem}
use learn_mit_s.Kernel.Vm.{pgrounddown}
use learn_mit_s.Kernel.Str.{Mem}
use learn_mit_s.Kernel.Usercopy.{translate, copyin_from, copyin, either_copyin}
use learn_mit_s.Kernel.Fs.{bsize, maxfile, Fs, done, M, bind_result, ◌>>◌, pure, bread}
use learn_mit_s.Kernel.Fs.Bitmap.{with_held, brelse-bread}
use learn_mit_s.Kernel.Fs.Take.{brelse_locked}
use learn_mit_s.Kernel.Inode.{iblock}
use learn_mit_s.Kernel.Inode.Blocks.{block_of, IsHeld, bmap-IsHeld}
use learn_mit_s.Kernel.Inode.Disk.{updated}
use learn_mit_s.Kernel.Content.Grow.{no_wrap, no_growth, sized, sized_at, grow-done, updated-kept}
use learn_mit_s.Kernel.Content.{
  Space, area, beside, buffer_of, part, write_copied, write_locked, writei_from, grow, writei,
}

-- Whatever the source, not one byte comes from a page that is not mapped.
pub copyin_unmapped :
    (pt : ℕ) (k : Kmem) (dst src len : ℕ) (m : Mem)
    → 0 < len
    → translate pt k (pgrounddown src) ≡ 0
    → either_copyin pt k dst true src len m ≡ some (false, m)
unfolding either_copyin copyin copyin_from
copyin_unmapped pt k dst src len m pos z =
    let more : len + 1 ≡ suc len = omega arith in
    ap (λ f. copyin_from f (translate pt k) dst src len m) more
    ∙ if-false (some (true, m)) _ (==_ne len 0 (omega (arith, pos)))
    ∙ if-true (some (false, m)) _ (ap (λ n. n == 0) z)

-- The first round from a page that is not mapped.
module _ (p : Space) (ip src off n : ℕ) (m : Mem) (s : Fs) (pos : 0 < n)
    (held : IsHeld s ip (off / bsize))
    (unmapped : translate p.pt p.tables (pgrounddown src) ≡ 0) where
  open held use {unheld}

  abbrev b : ℕ
  b = block_of s ip (off / bsize)

  abbrev buffer : Mem
  buffer = buffer_of (beside m (s.blocks b))

  abbrev stopped : Fs
  stopped = record s { blocks = update s.blocks b buffer }

  buffer_kept : (i : ℕ) → buffer i ≡ s.blocks b i
  buffer_kept i = ground arith

  locked_stops :
      (rest : M ℕ)
      → write_locked rest p true src off (part n 0 off) m b (with_held b true s) ≡ done off stopped
  unfolding write_locked write_copied
  locked_stops rest =
      let copy =
        copyin_unmapped p.pt p.tables (area + off % bsize) src (part n 0 off)
          (beside m (s.blocks b)) (omega (arith, pos)) unmapped in
      ap (λ o. write_copied rest off b o (with_held b true s)) copy
      ∙ ap (λ r. bind_result r (λ _. pure off))
          (brelse_locked b (with_held b true stopped) s.held unheld refl)

  loop_stops : writei_from (n + 1) p ip true src off n 0 m s ≡ done off stopped
  unfolding writei_from
  loop_stops =
      let k = part n 0 off in
      let rest = writei_from n p ip true (src + k) (off + k) n (0 + k) m in
      let more : n + 1 ≡ suc n = omega arith in
      let (locked, back) = brelse-bread b s unheld in
      ap (λ f. writei_from f p ip true src off n 0 m s) more
      ∙ ap (λ f. f s) (if-true _ (pure off) (lt→ltb 0 n pos))
      ∙ ap (λ r. bind_result r (λ b'. bread b' >> write_locked rest p true src off k m b'))
          (bmap-IsHeld ip (off / bsize) s held)
      ∙ ap (λ r. bind_result r (λ _. write_locked rest p true src off k m b)) locked
      ∙ locked_stops rest

-- `writei` of `n` > 0 bytes inside a file and from a page that is not mapped, into a block that the file holds,
-- with neither that block's buffer nor the inode's locked: the copy fails in the first round, no byte of the
-- block changes and the size stays, yet the call answers `n`, as if all were written.
pub writei-unmapped :
    (p : Space) (ip src off n : ℕ) (m : Mem) (s : Fs)
    → 0 < n
    → off ≤ (s.inodes ip).size
    → off + n ≤ maxfile * bsize
    → IsHeld s ip (off / bsize)
    → block_of s ip (off / bsize) ≢ iblock (s.inodes ip).inum s
    → s.held (iblock (s.inodes ip).inum s) ≡ false
    → translate p.pt p.tables (pgrounddown src) ≡ 0
    → (t : Fs) × (writei p ip true src off n m s ≡ done (some n) t)
      × ((t.inodes ip).size ≡ (s.inodes ip).size)
      × ((i : ℕ)
          → t.blocks (block_of s ip (off / bsize)) i ≡ s.blocks (block_of s ip (off / bsize)) i)
unfolding writei
writei-unmapped p ip src off n m s pos low short held apart unheld' unmapped =
    let x = s.inodes ip in
    let b = block_of s ip (off / bsize) in
    let s2 = stopped p ip src off n m s pos held unmapped in
    let stop = loop_stops p ip src off n m s pos held unmapped in
    let (no_size, no_file) = no_wrap off n x.size low short in
    (
      updated ip (sized ip off s2),
      if-false (done none s) _ no_size
          ∙ if-false (done none s) _ no_file
          ∙ ap (λ r. bind_result r (grow ip n)) stop
          ∙ grow-done ip n off s2 pos unheld',
      ap (λ y. y.size) (sized_at ip off s2) ∙ no_growth off x.size low,
      λ i.
          updated-kept ip off b i s2 apart
          ∙ ap (λ f. f i) (update_self s.blocks b (buffer p ip src off n m s pos held unmapped))
          ∙ buffer_kept p ip src off n m s pos held unmapped i,
    )
