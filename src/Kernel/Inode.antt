-- ===== src/Kernel/Inode.antt =====
-- lab1/kernel/fs.c: the inode cache, and which blocks an inode holds. Each body under `icache.lock` is one step.
-- The sleep lock of an inode is `owned`: a second `acquiresleep` by the same process sleeps.
pub mod Cache
pub mod Blocks
pub mod Alloc
pub mod Dinode
pub mod Disk
mod Tests
use learn_mit_s.Common.{
  ℕ, zero, suc, ◌+◌, ◌-◌, ◌*◌, ◌/◌, ◌%◌, Bool, true, false, not, ◌&&◌, ◌||◌, Option, none, some,
  ltb, ◌==◌, if◌then◌else◌, update,
}
use learn_mit_s.Kernel.Str.{Mem, memset}
use learn_mit_s.Kernel.Fs.{
  ndirect, nindirect, ipb, Inode, Fs, Result, done, panicked, asleep, M, bind_result, ◌>>=◌, ◌>>◌,
  pure, panic, bread, brelse, log_write, content, set_data, balloc, bfree,
}
use learn_mit_s.Kernel.Fs.Words.{load16, store16, load32, store32}

abbrev pub ninode : ℕ
ninode = 50

abbrev pub inode_at : ℕ → M Inode
inode_at ip s = done (s.inodes ip) s

abbrev pub set_inode : ℕ → (Inode → Inode) → M (Unit {0})
set_inode ip f s = done tt (record s { inodes = update s.inodes ip (f (s.inodes ip)) })

-- `IBLOCK(inum, sb)`, and where the inode is in it.
abbrev pub iblock : ℕ → Fs → ℕ
iblock inum s = inum / ipb + s.sb.inodestart

abbrev pub in_iblock : ℕ → ℕ
in_iblock inum = inum % ipb * 64

-- The block numbers of a `struct dinode` at `a`, `r` of them from the `i`th on.
unfoldable pub store_addrs : ℕ → ℕ → ℕ → (ℕ → ℕ) → Mem → Mem
unfolding store32
store_addrs zero i a addrs d = d
store_addrs (suc r) i a addrs d =
    store_addrs r (i + 1) a addrs (store32 d (a + 12 + 4 * i) (addrs i))

unfoldable pub store_dinode : ℕ → Inode → Mem → Mem
unfolding store16 store32 store_addrs
store_dinode a ip d =
    let d1 = store16 (store16 d a ip.type) (a + 2) ip.major in
    let d2 = store16 (store16 d1 (a + 4) ip.minor) (a + 6) ip.nlink in
    store_addrs (ndirect + 1) 0 a ip.addrs (store32 d2 (a + 8) ip.size)

unfoldable pub load_dinode : ℕ → Mem → Inode → Inode
unfolding load16 load32
load_dinode a d ip = record ip {
  type = load16 d a;
  major = load16 d (a + 2);
  minor = load16 d (a + 4);
  nlink = load16 d (a + 6);
  size = load32 d (a + 8);
  addrs = λ i. if ltb i (ndirect + 1) then load32 d (a + 12 + 4 * i) else ip.addrs i;
}

unfoldable pub iupdate : ℕ → M (Unit {0})
unfolding bread brelse log_write store_dinode
iupdate ip = λ s.
    let i = s.inodes ip in
    let b = iblock i.inum s in
    let go : M (Unit {0}) = (do
      bread b
      d ← content b
      set_data b (store_dinode (in_iblock i.inum) i d)
      log_write b
      brelse b) in
    go s

abbrev pub reused : ℕ → Inode → Inode
reused inum x = record x { inum = inum; ref = 1; valid = false }

abbrev pub once_more : Inode → Inode
once_more x = record x { ref = x.ref + 1 }

-- `if(empty == 0 && ip->ref == 0) empty = ip`
abbrev pub first_empty : Bool → ℕ → Option ℕ → Option ℕ
first_empty free i (some e) = some e
first_empty free i none = if free then some i else none

-- The loop of `iget` with `r` entries left from `i` on; `empty` is the first that is not in use.
unfoldable pub iget_from : ℕ → ℕ → ℕ → Option ℕ → M ℕ
iget_from zero i inum none = panic
iget_from zero i inum (some e) = do set_inode e (reused inum); pure e
iget_from (suc r) i inum empty = λ s.
    let x = s.inodes i in
    let seen = first_empty (x.ref == 0) i empty in
    let rest = iget_from r (i + 1) inum seen s in
    if ltb 0 x.ref && x.inum == inum then (set_inode i once_more >> pure i) s else rest

unfoldable pub iget : ℕ → M ℕ
unfolding iget_from
iget inum = iget_from ninode 0 inum none

unfoldable pub idup : ℕ → M ℕ
idup ip = do set_inode ip once_more; pure ip

-- The loop of `ialloc`, with `r` inodes left from `inum` on.
unfoldable pub ialloc_from : ℕ → ℕ → ℕ → M ℕ
unfolding bread brelse log_write load16 store16 iget memset
ialloc_from zero inum type = panic
ialloc_from (suc r) inum type = λ s.
    let b = iblock inum s in
    let at = in_iblock inum in
    let rest = ialloc_from r (inum + 1) type in
    let go : M ℕ = (do
      bread b
      d ← content b
      if load16 d at == 0
          then (do
            set_data b (store16 (memset at 0 64 d) at type)
            log_write b
            brelse b
            iget inum)
          else (do brelse b; rest)) in
    go s

unfoldable pub ialloc : ℕ → M ℕ
unfolding ialloc_from
ialloc type s = ialloc_from (s.sb.ninodes - 1) 1 type s

unfoldable pub acquiresleep : ℕ → M (Unit {0})
acquiresleep ip s =
    if (s.inodes ip).owned then asleep else set_inode ip (λ x. record x { owned = true }) s

unfoldable pub releasesleep : ℕ → M (Unit {0})
releasesleep ip = set_inode ip (λ x. record x { owned = false })

-- The end of `ilock` where it has read the inode.
unfoldable pub check_type : ℕ → M (Unit {0})
check_type ip = do
  set_inode ip (λ x. record x { valid = true })
  x ← inode_at ip
  if x.type == 0 then panic else pure tt

-- `ilock` of an inode that is not valid, behind `acquiresleep`.
unfoldable pub read_inode : ℕ → M (Unit {0})
unfolding bread brelse load_dinode check_type
read_inode ip = λ s.
    let i = s.inodes ip in
    let b = iblock i.inum s in
    let go : M (Unit {0}) = (do
      bread b
      d ← content b
      set_inode ip (load_dinode (in_iblock i.inum) d)
      brelse b
      check_type ip) in
    go s

unfoldable pub ilock : ℕ → M (Unit {0})
unfolding acquiresleep read_inode
ilock ip = λ s.
    let i = s.inodes ip in
    let go : M (Unit {0}) = (do acquiresleep ip; if i.valid then pure tt else read_inode ip) in
    if ltb i.ref 1 then panicked else go s

unfoldable pub iunlock : ℕ → M (Unit {0})
unfolding releasesleep
iunlock ip =
    λ s. if not (s.inodes ip).owned || ltb (s.inodes ip).ref 1 then panicked else releasesleep ip s

-- `if((addr = ip->addrs[k]) == 0) ip->addrs[k] = addr = balloc(ip->dev)`
unfoldable pub ensure_addr : ℕ → ℕ → M ℕ
unfolding balloc
ensure_addr ip k = λ s.
    let addr = (s.inodes ip).addrs k in
    let fresh : M ℕ = (do
      b ← balloc
      set_inode ip (λ x. record x { addrs = update x.addrs k b })
      pure b) in
    if addr == 0 then fresh s else done addr s

-- `if((addr = a[bn]) == 0){ a[bn] = addr = balloc(ip->dev); log_write(bp); }` in the block `at`.
unfoldable pub ensure_entry : ℕ → ℕ → M ℕ
unfolding balloc load32 store32 log_write
ensure_entry at bn = λ s.
    let addr = load32 (s.blocks at) (4 * bn) in
    let fresh : M ℕ = (do
      b ← balloc
      d ← content at
      set_data at (store32 d (4 * bn) b)
      log_write at
      pure b) in
    if addr == 0 then fresh s else done addr s

-- `bmap` for the block `k` of those in the indirect block.
unfoldable pub bmap_indirect : ℕ → ℕ → M ℕ
unfolding ensure_addr ensure_entry bread brelse
bmap_indirect ip k = do
  at ← ensure_addr ip ndirect
  bread at
  addr ← ensure_entry at k
  brelse at
  pure addr

unfoldable pub bmap : ℕ → ℕ → M ℕ
unfolding ensure_addr bmap_indirect
bmap ip bn =
    if ltb bn ndirect
    then ensure_addr ip bn
    else if ltb (bn - ndirect) nindirect
    then bmap_indirect ip (bn - ndirect)
    else panic

-- The loops of `itrunc`, with `r` rounds left from `i` on.
unfoldable pub free_direct : ℕ → ℕ → ℕ → M (Unit {0})
unfolding bfree
free_direct zero i ip = pure tt
free_direct (suc r) i ip = λ s.
    let addr = (s.inodes ip).addrs i in
    let rest = free_direct r (i + 1) ip in
    let go : M (Unit {0}) = (do
      bfree addr
      set_inode ip (λ x. record x { addrs = update x.addrs i 0 })
      rest) in
    if addr == 0 then rest s else go s

unfoldable pub free_indirect : ℕ → ℕ → ℕ → M (Unit {0})
unfolding bfree load32
free_indirect zero j at = pure tt
free_indirect (suc r) j at = λ s.
    let addr = load32 (s.blocks at) (4 * j) in
    let rest = free_indirect r (j + 1) at in
    let go : M (Unit {0}) = (do bfree addr; rest) in if addr == 0 then rest s else go s

unfoldable pub itrunc : ℕ → M (Unit {0})
unfolding free_direct free_indirect bread brelse bfree iupdate
itrunc ip = do
  free_direct ndirect 0 ip
  x ← inode_at ip
  if x.addrs ndirect == 0 then pure tt else (do
    bread (x.addrs ndirect)
    free_indirect nindirect 0 (x.addrs ndirect)
    brelse (x.addrs ndirect)
    bfree (x.addrs ndirect)
    set_inode ip (λ y. record y { addrs = update y.addrs ndirect 0 }))
  set_inode ip (λ y. record y { size = 0 })
  iupdate ip

unfoldable pub iput : ℕ → M (Unit {0})
unfolding acquiresleep releasesleep itrunc iupdate
iput ip = λ s.
    let i = s.inodes ip in
    let free : M (Unit {0}) = (do
      acquiresleep ip
      itrunc ip
      set_inode ip (λ x. record x { type = 0 })
      iupdate ip
      set_inode ip (λ x. record x { valid = false })
      releasesleep ip) in
    let go : M (Unit {0}) = (do
      if i.ref == 1 && i.valid && i.nlink == 0 then free else pure tt
      set_inode ip (λ x. record x { ref = x.ref - 1 })) in
    go s

unfoldable pub iunlockput : ℕ → M (Unit {0})
unfolding iunlock iput
iunlockput ip = do iunlock ip; iput ip
