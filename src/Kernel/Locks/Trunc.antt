-- ===== src/Kernel/Locks/Trunc.antt =====
-- Blocks are given back with their buffers, and so is the inode that `iput` drops.
use learn_mit_s.Common.{
  ℕ, zero, suc, ◌+◌, ◌-◌, ◌*◌, ◌≡◌, refl, true, false, ◌&&◌, ◌==◌, if_both, if◌then◌else◌, update,
}
use learn_mit_s.Kernel.Fs.{ndirect, nindirect, M, ◌>>=◌, ◌>>◌, pure, bread, brelse, bfree}
use learn_mit_s.Kernel.Fs.Bitmap.{with_held}
use learn_mit_s.Kernel.Fs.Words.{load32}
use learn_mit_s.Kernel.Inode.{
  inode_at, set_inode, iupdate, free_direct, free_indirect, itrunc, acquiresleep, releasesleep,
  iput, iunlock, iunlockput,
}
use learn_mit_s.Kernel.Locks.{
  Locks, lock_inode, lock_buffer, EndsAt, Takes, Keeps, then_ends, bread_then, brelse-Takes,
  set_inode-At, disown-At,
}
use learn_mit_s.Kernel.Locks.Blocks.{bfree-Keeps}
use learn_mit_s.Kernel.Locks.Inodes.{iupdate-Keeps, acquiresleep_then, iunlock-Takes}

free_direct-Keeps : (r i ip : ℕ) → Keeps (free_direct r i ip)
unfolding free_direct
free_direct-Keeps zero i ip l s h = h
free_direct-Keeps (suc r) i ip l s h =
    if_both (EndsAt l) ((s.inodes ip).addrs i == 0) _ _ (λ e. free_direct-Keeps r (i + 1) ip l s h)
      λ e.
        then_ends l l (bfree ((s.inodes ip).addrs i) s) _
          (bfree-Keeps ((s.inodes ip).addrs i) l s h)
          λ _ u at.
            free_direct-Keeps r (i + 1) ip l _
              (set_inode-At ip (λ x. record x { addrs = update x.addrs i 0 }) l u (λ x. refl) at)

free_indirect-Keeps : (r j at : ℕ) → Keeps (free_indirect r j at)
unfolding free_indirect
free_indirect-Keeps zero j at l s h = h
free_indirect-Keeps (suc r) j at l s h =
    if_both (EndsAt l) (load32 (s.blocks at) (4 * j) == 0) _ _
      (λ e. free_indirect-Keeps r (j + 1) at l s h)
      λ e.
        then_ends l l (bfree (load32 (s.blocks at) (4 * j)) s) _
          (bfree-Keeps (load32 (s.blocks at) (4 * j)) l s h) λ _. free_indirect-Keeps r (j + 1) at l

-- `itrunc` for the indirect block `b`, and its end.
abbrev drop_indirect : ℕ → ℕ → M (Unit {0})
drop_indirect ip b = do
  bread b
  free_indirect nindirect 0 b
  brelse b
  bfree b
  set_inode ip (λ y. record y { addrs = update y.addrs ndirect 0 })

abbrev drop_size : ℕ → M (Unit {0})
drop_size ip = do set_inode ip (λ y. record y { size = 0 }); iupdate ip

drop_indirect-Keeps : (ip b : ℕ) → Keeps (drop_indirect ip b)
drop_indirect-Keeps ip b l s h =
    let clear : M (Unit {0}) = set_inode ip (λ y. record y { addrs = update y.addrs ndirect 0 }) in
    bread_then l l b (free_indirect nindirect 0 b >> (brelse b >> (bfree b >> clear))) s h
      λ free at.
        let k = lock_buffer b l in
        let u = with_held b true s in
        then_ends k l (free_indirect nindirect 0 b u) (λ _. brelse b >> (bfree b >> clear))
          (free_indirect-Keeps nindirect 0 b k u at)
          λ _ v have.
            then_ends l l (brelse b v) (λ _. bfree b >> clear) (brelse-Takes b l free v have)
              λ _ w freed.
                then_ends l l (bfree b w) (λ _. clear) (bfree-Keeps b l w freed)
                  λ _ x last.
                    set_inode-At ip (λ y. record y { addrs = update y.addrs ndirect 0 }) l x
                      (λ y. refl) last

pub itrunc-Keeps : (ip : ℕ) → Keeps (itrunc ip)
unfolding itrunc
itrunc-Keeps ip l s h =
    then_ends l l (free_direct ndirect 0 ip s)
      (λ _. inode_at ip >>= (λ x.
        (if x.addrs ndirect == 0 then pure tt else drop_indirect ip (x.addrs ndirect))
        >> drop_size ip))
      (free_direct-Keeps ndirect 0 ip l s h)
      λ _ u at.
        let b = (u.inodes ip).addrs ndirect in
        let drop : M (Unit {0}) = if b == 0 then pure tt else drop_indirect ip b in
        then_ends l l (drop u) (λ _. drop_size ip)
          (if_both (λ (m : M (Unit {0})). EndsAt l (m u)) (b == 0) (pure tt) (drop_indirect ip b)
            (λ e. at) λ e. drop_indirect-Keeps ip b l u at)
          λ _ v have.
            iupdate-Keeps ip l _ (set_inode-At ip (λ y. record y { size = 0 }) l v (λ y. refl) have)

-- `iput` of the last reference to an inode without links.
abbrev free_inode : ℕ → M (Unit {0})
free_inode ip = do
  acquiresleep ip
  itrunc ip
  set_inode ip (λ x. record x { type = 0 })
  iupdate ip
  set_inode ip (λ x. record x { valid = false })
  releasesleep ip

free_inode-Keeps : (ip : ℕ) → Keeps (free_inode ip)
unfolding releasesleep
free_inode-Keeps ip l s h =
    let close : M (Unit {0}) = set_inode ip (λ x. record x { valid = false }) >> releasesleep ip in
    let untype : M (Unit {0}) =
      set_inode ip (λ x. record x { type = 0 }) >> (iupdate ip >> close) in
    acquiresleep_then l l ip (itrunc ip >> untype) s h λ free u at.
      let k = lock_inode ip l in
      then_ends k l (itrunc ip u) (λ _. untype) (itrunc-Keeps ip k u at)
        λ _ v have.
          let w = record v { inodes = update v.inodes ip (record (v.inodes ip) { type = 0 }) } in
          then_ends k l (iupdate ip w) (λ _. close)
            (iupdate-Keeps ip k w
              (set_inode-At ip (λ x. record x { type = 0 }) k v (λ x. refl) have))
            λ _ x got.
              disown-At ip l _ free
                (set_inode-At ip (λ y. record y { valid = false }) k x (λ y. refl) got)

pub iput-Keeps : (ip : ℕ) → Keeps (iput ip)
unfolding iput
iput-Keeps ip l s h =
    let i = s.inodes ip in
    let last = i.ref == 1 && i.valid && i.nlink == 0 in
    let drop : M (Unit {0}) = if last then free_inode ip else pure tt in
    then_ends l l (drop s) (λ _. set_inode ip (λ x. record x { ref = x.ref - 1 }))
      (if_both (λ (m : M (Unit {0})). EndsAt l (m s)) last (free_inode ip) (pure tt)
        (λ e. free_inode-Keeps ip l s h) λ e. h)
      λ _ u at. set_inode-At ip (λ x. record x { ref = x.ref - 1 }) l u (λ x. refl) at

pub iunlockput-Takes :
    (ip : ℕ) (l : Locks) → l.inodes ip ≡ false → Takes (lock_inode ip l) (iunlockput ip) l
unfolding iunlockput
iunlockput-Takes ip l free s h =
    then_ends l l (iunlock ip s) (λ _. iput ip) (iunlock-Takes ip l free s h) λ _. iput-Keeps ip l
