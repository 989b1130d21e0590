-- ===== src/Kernel/Content/RoundTrip.antt =====
-- Bytes written into a file and read back.
use learn_mit_s.Common.{
  ℕ, ◌+◌, ◌-◌, ◌*◌, ◌/◌, ◌%◌, min, ◌≤◌, ◌<◌, ◌≡◌, sym, ap, ap₂, ◌∙◌, ◌≢◌, inl, false, none, some,
  arith, ltb, if◌then◌else◌, if-false, List, [], ◌∷◌, ◌++◌, length, length-append, update, true,
}
use mathlib.Core.Path.{subst}
use learn_mit_s.Kernel.Str.{Mem}
use learn_mit_s.Kernel.Fs.{bsize, maxfile, ndirect, Fs, done, bind_result}
use learn_mit_s.Kernel.Inode.{iblock}
use learn_mit_s.Kernel.Inode.Blocks.{block_of, IsHeld}
use learn_mit_s.Kernel.Content.{Space, area, writei_from, grow, writei, readi}
use learn_mit_s.Kernel.Inode.Disk.{updated}
use learn_mit_s.Kernel.Content.Grow.{no_wrap, sized, sized_at, grow-done, updated-kept}
use learn_mit_s.Kernel.Content.Read.{byte_at, filled-in, readi-filled}
use learn_mit_s.Kernel.Content.Round.{IsOwn, Wrote, block_of-kept}
use learn_mit_s.Kernel.Content.Store.{writei_from-Wrote}
use learn_mit_s.Kernel.Content.Logged.{mark_all, mark_all-append, blocks_of, length-blocks_of, Logs}
use learn_mit_s.Kernel.Log.{Log}
use learn_mit_s.Kernel.Log.Several.{HasRoom, HasRoom-le, log_all, log_all-some}

-- Where an inode may write: its own blocks, none of which is the one that the inode itself lies in.
pub record IsWritable (s : Fs) (ip lo hi : ℕ) : Type 0 where
  pub own : IsOwn s ip lo hi
  pub inode_unheld : s.held (iblock (s.inodes ip).inum s) ≡ false
  pub not_inode :
      (q : ℕ) → lo ≤ q → q < hi → block_of s ip (q / bsize) ≢ iblock (s.inodes ip).inum s
  pub list_not_inode : (s.inodes ip).addrs ndirect ≢ iblock (s.inodes ip).inum s

-- The blocks that the bytes lie in, and then the inode's own.
abbrev pub written_blocks : Fs → ℕ → ℕ → ℕ → List ℕ
written_blocks s ip off n = blocks_of s ip off n ++ iblock (s.inodes ip).inum s ∷ []

-- What a write of `n` bytes from `src` to `off` has done.
pub record Written (s t : Fs) (ip src off n : ℕ) (m : Mem) : Type 0 where
  pub size :
      (t.inodes ip).size
      ≡ (if ltb (s.inodes ip).size (off + n) then off + n else (s.inodes ip).size)
  pub bytes : (q : ℕ) → off ≤ q → q < off + n → byte_at t ip q ≡ m (src + (q - off))
  pub held : (q : ℕ) → off ≤ q → q < off + n → IsHeld t ip (q / bsize)
  pub logged : t.logged ≡ mark_all (written_blocks s ip off n) s.logged

whole_loop :
    (p : Space) (ip src off n : ℕ) (m : Mem) (s : Fs)
    → src + n ≤ area
    → IsOwn s ip off (off + n)
    → (t : Fs) × (writei_from (n + 1) p ip false src off n 0 m s ≡ done (off + n) t)
      × Wrote s t ip off (off + n) src m
      × Logs s t ip off n
whole_loop p ip src off n m s =
    let all : n - 0 ≡ n = omega arith in
    subst
      (λ r.
        src + r ≤ area
        → IsOwn s ip off (off + r)
        → (t : Fs) × (writei_from (n + 1) p ip false src off n 0 m s ≡ done (off + r) t)
          × Wrote s t ip off (off + r) src m
          × Logs s t ip off r)
      all
      (λ fits own.
        writei_from-Wrote (n + 1) p ip src off n 0 m s (omega arith) (omega arith) fits own)

-- A file after a change that keeps its list of blocks holds them as before.
moved-IsHeld :
    (s u : Fs) (ip bn : ℕ)
    → (u.inodes ip).addrs ≡ (s.inodes ip).addrs
    → u.held ≡ s.held
    → block_of u ip bn ≡ block_of s ip bn
    → IsHeld s ip bn
    → IsHeld u ip bn
moved-IsHeld s u ip bn list held same h = record {
  small = h.small;
  nonzero = λ e. h.nonzero (sym same ∙ e);
  unheld = ap₂ (λ f b. f b) held same ∙ h.unheld;
  indirect = λ ge.
      let (ne, free) = h.indirect ge in
      let at = ap (λ f. f ndirect) list in (λ e. ne (sym at ∙ e), ap₂ (λ f b. f b) held at ∙ free);
}

pub writei-Written :
    (p : Space) (ip src off n : ℕ) (m : Mem) (s : Fs)
    → 0 < n
    → off ≤ (s.inodes ip).size
    → off + n ≤ maxfile * bsize
    → src + n ≤ area
    → IsWritable s ip off (off + n)
    → (t : Fs) × (writei p ip false src off n m s ≡ done (some n) t) × Written s t ip src off n m
unfolding writei
writei-Written p ip src off n m s pos low short fits h =
    let x = s.inodes ip in
    let end = off + n in
    let (no_size, no_file) = no_wrap off n x.size low short in
    let (t, e, w, l) = whole_loop p ip src off n m s fits h.own in
    let at : (t.inodes ip) ≡ x = ap (λ f. f ip) w.inodes in
    let iblock_same : iblock (t.inodes ip).inum t ≡ iblock x.inum s =
      ap₂ (λ y sb. y.inum / 16 + sb.inodestart) at w.sb in
    let u = updated ip (sized ip end t) in
    let moved_block : iblock (((sized ip end t).inodes ip).inum) (sized ip end t)
        ≡ iblock (t.inodes ip).inum t =
      ap (λ y. iblock y.inum t) (sized_at ip end t) in
    let list_same : (u.inodes ip).addrs ≡ x.addrs =
      ap (λ y. y.addrs) (sized_at ip end t) ∙ ap (λ y. y.addrs) at in
    let same : (bn : ℕ) → block_of u ip bn ≡ block_of s ip bn = λ bn.
      block_of-kept s u ip bn list_same (λ i.
        updated-kept ip end (x.addrs ndirect) i t (λ q. h.list_not_inode (q ∙ iblock_same))
        ∙ w.kept (x.addrs ndirect) i (λ q l r. inl (h.own.no_list q l r))) in
    (
      u,
      if-false (done none s) _ no_size
          ∙ if-false (done none s) _ no_file
          ∙ ap (λ r. bind_result r (grow ip n)) e
          ∙ grow-done ip n end t pos (ap₂ (λ f b. f b) w.held iblock_same ∙ h.inode_unheld),
      record {
        size =
            ap (λ y. y.size) (sized_at ip end t)
            ∙ ap (λ y. if ltb y.size end then end else y.size) at;
        bytes = λ q l r.
            ap (λ b. u.blocks b (q % bsize)) (same (q / bsize))
            ∙ updated-kept ip end (block_of s ip (q / bsize)) (q % bsize) t
                (λ z. h.not_inode q l r (z ∙ iblock_same))
            ∙ w.bytes q l r;
        held = λ q l r.
            moved-IsHeld s u ip (q / bsize) list_same w.held (same (q / bsize)) (h.own.held q l r);
        logged =
            ap₂ (λ f b. update f b true) l (moved_block ∙ iblock_same)
            ∙ sym (mark_all-append (blocks_of s ip off n) (iblock x.inum s ∷ []) s.logged);
      },
    )

few_blocks : (s : Fs) (ip off n : ℕ) → length (written_blocks s ip off n) ≤ n / bsize + 3
few_blocks s ip off n = omega (
  arith,
  length-append (blocks_of s ip off n) (iblock (s.inodes ip).inum s ∷ []),
  length-blocks_of s ip off n,
)

read_size :
    (off n old new : ℕ)
    → off ≤ old
    → new ≡ (if ltb old (off + n) then off + n else old)
    → (off ≤ new) × (min n (new - off) ≡ n)
read_size off n old new low e = (ground (arith, low, e), ground (arith, low, e))

-- What `writei` puts from kernel memory into a file of at most 268 blocks, `readi` gets back: both answer `n`,
-- and each byte arrives. The bytes start inside the file or at its end, may span blocks, and lie in blocks
-- that the file holds, which are distinct, unlocked, and neither its list of blocks nor the inode's own block.
-- Both places in memory end at 2^64 or before. In the log `lg` a transaction has begun, and there is room for
-- `n / 1024 + 3` blocks more. Then the blocks that `log_write` has marked for `writei` are those that the bytes
-- lie in and the inode's own, and the log takes these, one after the other, without a panic.
pub readi-writei :
    (p : Space) (ip src dst off n : ℕ) (m m' : Mem) (s : Fs) (lg : Log)
    → 0 < n
    → off ≤ (s.inodes ip).size
    → off + n ≤ maxfile * bsize
    → src + n ≤ area
    → dst + n ≤ area
    → IsWritable s ip off (off + n)
    → HasRoom lg (n / bsize + 3)
    → (t : Fs) × (u : Mem) × (writei p ip false src off n m s ≡ done (some n) t)
      × (readi p ip false dst off n m' t ≡ done (n, u) t)
      × ((i : ℕ) → i < n → u (dst + i) ≡ m (src + i))
      × (t.logged ≡ mark_all (written_blocks s ip off n) s.logged)
      × ((lg' : Log) × (log_all (written_blocks s ip off n) lg ≡ some lg'))
readi-writei p ip src dst off n m m' s lg pos low short fits fits' h room =
    let (t, e, w) = writei-Written p ip src off n m s pos low short fits h in
    let (low', whole) = read_size off n (s.inodes ip).size (t.inodes ip).size low w.size in
    let (u, e', all) =
      readi-filled p ip dst off n m' t low' (omega (arith, short)) fits'
        (λ q l r. w.held q l (omega (arith, r, whole))) in
    (
      t,
      u,
      e,
      e' ∙ ap (λ k. done (k, u) t) whole,
      λ i lt.
          let back : off + (dst + i - dst) ≡ off + i = omega arith in
          let there : src + (off + i - off) ≡ src + i = omega arith in
          all (dst + i)
          ∙ filled-in (byte_at t ip) dst off (min n ((t.inodes ip).size - off)) m' (dst + i)
              (omega arith) (omega (arith, lt, whole))
          ∙ ap (byte_at t ip) back
          ∙ w.bytes (off + i) (omega arith) (omega (arith, lt))
          ∙ ap m there,
      w.logged,
      log_all-some (written_blocks s ip off n) lg (HasRoom-le (few_blocks s ip off n) room),
    )
