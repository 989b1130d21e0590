-- ===== src/Kernel/Content/Grow.antt =====
-- The end of `writei`: the size, and the inode on disk.
use learn_mit_s.Common.{
  ℕ, ◌+◌, ◌*◌, ◌%◌, ◌^◌, ◌≤◌, ◌<◌, ◌≡◌, sym, ap, ◌∙◌, ◌≢◌, false, ◌||◌, some, arith, ltb,
  if◌then◌else◌, lt→ltb, update, update_self, update_ne, if-true,
}
use learn_mit_s.Kernel.Fs.{bsize, maxfile, Inode, Fs, done, bind_result, ◌>>◌, pure}
use learn_mit_s.Kernel.Inode.{set_inode, iblock, in_iblock, store_dinode, iupdate}
use learn_mit_s.Kernel.Inode.Disk.{updated, iupdate-done}
use learn_mit_s.Kernel.Content.{grow}

pub no_wrap :
    (off n size : ℕ)
    → off ≤ size
    → off + n ≤ maxfile * bsize
    → ((ltb size off || ltb ((off + n) % 2 ^ 32) off) ≡ false)
      × (ltb (maxfile * bsize) ((off + n) % 2 ^ 32) ≡ false)
no_wrap off n size low short =
    let same : (off + n) % 2 ^ 32 ≡ off + n = omega (arith, short) in
    (ground (arith, low, same), ground (arith, short, same))

pub no_growth : (off size : ℕ) → off ≤ size → (if ltb size off then off else size) ≡ size
no_growth off size low = ground (arith, low)

-- The inode with the size that a loop stopped at `stop` leaves.
abbrev pub resized : ℕ → Inode → Inode
resized stop x = record x { size = if ltb x.size stop then stop else x.size }

abbrev pub sized : ℕ → ℕ → Fs → Fs
sized ip stop s = record s { inodes = update s.inodes ip (resized stop (s.inodes ip)) }

pub sized_at : (ip stop : ℕ) (s : Fs) → (sized ip stop s).inodes ip ≡ resized stop (s.inodes ip)
sized_at ip stop s = update_self s.inodes ip (resized stop (s.inodes ip))

pub grow-done :
    (ip n stop : ℕ) (s : Fs)
    → 0 < n
    → s.held (iblock (s.inodes ip).inum s) ≡ false
    → grow ip n stop s ≡ done (some n) (updated ip (sized ip stop s))
unfolding grow
grow-done ip n stop s pos unheld =
    let t = sized ip stop s in
    let at : iblock (t.inodes ip).inum t ≡ iblock (s.inodes ip).inum s =
      ap (λ x. iblock x.inum s) (sized_at ip stop s) in
    ap (λ f. bind_result (f s) (λ _. pure (some n)))
      (if-true (set_inode ip (resized stop) >> iupdate ip) (pure tt) (lt→ltb 0 n pos))
    ∙ ap (λ r. bind_result r (λ _. pure (some n))) (iupdate-done ip t (ap s.held at ∙ unheld))

-- The other blocks stay.
pub updated-kept :
    (ip stop b i : ℕ) (s : Fs)
    → b ≢ iblock (s.inodes ip).inum s
    → (updated ip (sized ip stop s)).blocks b i ≡ s.blocks b i
updated-kept ip stop b i s apart =
    let t = sized ip stop s in
    let d = iblock (t.inodes ip).inum t in
    let at : d ≡ iblock (s.inodes ip).inum s = ap (λ x. iblock x.inum s) (sized_at ip stop s) in
    ap (λ f. f i)
      (update_ne s.blocks d (store_dinode (in_iblock (t.inodes ip).inum) (t.inodes ip) (s.blocks d))
        b (λ e. apart (sym e ∙ at)))
