-- ===== src/Kernel/Locks/Inodes.antt =====
-- The inode cache gives back its buffers; `ilock` takes the lock of the inode, and `iunlock` gives it back.
use learn_mit_s.Common.{
  ℕ, zero, suc, ◌+◌, ◌-◌, ◌*◌, ◌≡◌, refl, sym, ◌∙◌, Bool, true, false, not, ◌&&◌, ◌||◌, Option,
  none, some, ltb, ◌==◌, if_both, if-true, ap, if◌then◌else◌, update,
}
use learn_mit_s.Kernel.Str.{memset}
use learn_mit_s.Kernel.Fs.{
  ndirect, nindirect, Fs, Result, done, panicked, asleep, out_of_fuel, M, bind_result, ◌>>◌, pure,
  panic, brelse, log_write, set_data, balloc,
}
use learn_mit_s.Kernel.Fs.Bitmap.{with_held}
use learn_mit_s.Kernel.Fs.Words.{load16, store16, load32}
use learn_mit_s.Kernel.Inode.{
  set_inode, iblock, in_iblock, load_dinode, iupdate, reused, once_more, first_empty, iget_from,
  ninode, iget, idup, ialloc_from, ialloc, acquiresleep, releasesleep, check_type, read_inode,
  ilock, iunlock, ensure_addr, ensure_entry, bmap_indirect, bmap,
}
use learn_mit_s.Kernel.Locks.{
  Locks, At, lock_inode, lock_buffer, EndsAt, Takes, Keeps, then_ends, bind_ends, bread_then,
  brelse-Takes, set_inode-At, own-At, disown-At,
}
use learn_mit_s.Kernel.Locks.Blocks.{balloc-Keeps}

pub iupdate-Keeps : (ip : ℕ) → Keeps (iupdate ip)
unfolding iupdate log_write
iupdate-Keeps ip l s h =
    let b = iblock (s.inodes ip).inum s in
    bread_then l l b _ s h
      λ free at. brelse-Takes b l free _ record { inodes = at.inodes; buffers = at.buffers }

iget_from-Keeps : (r i inum : ℕ) (empty : Option ℕ) → Keeps (iget_from r i inum empty)
unfolding iget_from
iget_from-Keeps zero i inum none l s h = tt
iget_from-Keeps zero i inum (some e) l s h = set_inode-At e (reused inum) l s (λ x. refl) h
iget_from-Keeps (suc r) i inum empty l s h =
    let x = s.inodes i in
    if_both (EndsAt l) (ltb 0 x.ref && x.inum == inum) _ _
      (λ e. set_inode-At i once_more l s (λ y. refl) h)
      λ e. iget_from-Keeps r (i + 1) inum (first_empty (x.ref == 0) i empty) l s h

pub iget-Keeps : (inum : ℕ) → Keeps (iget inum)
unfolding iget
iget-Keeps inum l s h = iget_from-Keeps ninode 0 inum none l s h

pub idup-Keeps : (ip : ℕ) → Keeps (idup ip)
unfolding idup
idup-Keeps ip l s h = set_inode-At ip once_more l s (λ y. refl) h

ialloc_from-Keeps : (r inum type : ℕ) → Keeps (ialloc_from r inum type)
unfolding ialloc_from log_write
ialloc_from-Keeps zero inum type l s h = tt
ialloc_from-Keeps (suc r) inum type l s h =
    let b = iblock inum s in
    let at = in_iblock inum in
    let d = s.blocks b in
    let claim : M ℕ =
      set_data b (store16 (memset at 0 64 d) at type) >> (log_write b >> (brelse b >> iget inum)) in
    let next : M ℕ = brelse b >> ialloc_from r (inum + 1) type in
    let u = with_held b true s in
    bread_then l l b _ s h λ free k.
      if_both (λ (m : M ℕ). EndsAt l (m u)) (load16 d at == 0) claim next
        (λ e.
          then_ends l l
            (brelse b (record u {
              blocks = update s.blocks b (store16 (memset at 0 64 d) at type);
              logged = update s.logged b true;
            }))
            _ (brelse-Takes b l free _ record { inodes = k.inodes; buffers = k.buffers })
            λ _. iget-Keeps inum l)
        λ e.
          then_ends l l (brelse b u) _ (brelse-Takes b l free u k)
            λ _. ialloc_from-Keeps r (inum + 1) type l

pub ialloc-Keeps : (type : ℕ) → Keeps (ialloc type)
unfolding ialloc
ialloc-Keeps type l s h = ialloc_from-Keeps (s.sb.ninodes - 1) 1 type l s h

-- A lock is taken only where it is free.
pub acquiresleep_then {ℓ} :
    {B : Type ℓ} (l l' : Locks) (ip : ℕ) (k : M B) (s : Fs)
    → At l s
    → (l.inodes ip ≡ false → Takes (lock_inode ip l) k l')
    → EndsAt l' (bind_result (acquiresleep ip s) (λ _. k))
unfolding acquiresleep
acquiresleep_then l l' ip k s h f =
    if_both (λ r. EndsAt l' (bind_result r (λ _. k))) (s.inodes ip).owned asleep
      (set_inode ip (λ x. record x { owned = true }) s) (λ _. tt)
      λ n. f (sym (h.inodes ip) ∙ n) _ (own-At ip l s h)

check_type-Keeps : (ip : ℕ) → Keeps (check_type ip)
unfolding check_type
check_type-Keeps ip l s h =
    let u = record s { inodes = update s.inodes ip (record (s.inodes ip) { valid = true }) } in
    if_both (λ (m : M (Unit {0})). EndsAt l (m u)) ((u.inodes ip).type == 0) panic (pure tt)
      (λ e. tt) λ e. set_inode-At ip (λ x. record x { valid = true }) l s (λ x. refl) h

read_inode-Keeps : (ip : ℕ) → Keeps (read_inode ip)
unfolding read_inode load_dinode
read_inode-Keeps ip l s h =
    let i = s.inodes ip in
    let b = iblock i.inum s in
    bread_then l l b _ s h λ free at.
      then_ends l l _ _
        (brelse-Takes b l free _ (
          set_inode-At ip (load_dinode (in_iblock i.inum) (s.blocks b)) (lock_buffer b l) _
            (λ x. refl) at))
        λ _. check_type-Keeps ip l

-- Behind `ilock` the lock is held, and before it was free.
pub ilock_then {ℓ} :
    {B : Type ℓ} (l l' : Locks) (ip : ℕ) (k : M B) (s : Fs)
    → At l s
    → (l.inodes ip ≡ false → Takes (lock_inode ip l) k l')
    → EndsAt l' (bind_result (ilock ip s) (λ _. k))
unfolding ilock
ilock_then l l' ip k s h f =
    let read : M (Unit {0}) = if (s.inodes ip).valid then pure tt else read_inode ip in
    if_both (λ r. EndsAt l' (bind_result r (λ _. k))) (ltb (s.inodes ip).ref 1) panicked
      ((acquiresleep ip >> read) s) (λ _. tt)
      λ _.
        bind_ends l' (acquiresleep ip s) (λ _. read) (λ _. k)
          (acquiresleep_then l l' ip (read >> k) s h λ free u at.
            then_ends (lock_inode ip l) l' (read u) _
              (if_both (λ (m : M (Unit {0})). EndsAt (lock_inode ip l) (m u)) (s.inodes ip).valid
                (pure tt) (read_inode ip) (λ _. at) λ _. read_inode-Keeps ip (lock_inode ip l) u at)
              λ _. f free)

pub iunlock-Takes :
    (ip : ℕ) (l : Locks) → l.inodes ip ≡ false → Takes (lock_inode ip l) (iunlock ip) l
unfolding iunlock releasesleep
iunlock-Takes ip l free s h =
    if_both (EndsAt l) (not (s.inodes ip).owned || ltb (s.inodes ip).ref 1) _ _ (λ e. tt)
      λ e. disown-At ip l s free h

ensure_addr-Keeps : (ip k : ℕ) → Keeps (ensure_addr ip k)
unfolding ensure_addr
ensure_addr-Keeps ip k l s h =
    if_both (EndsAt l) ((s.inodes ip).addrs k == 0) _ _
      (λ e.
        then_ends l l (balloc s) _ (balloc-Keeps l s h) λ b u at.
          set_inode-At ip (λ x. record x { addrs = update x.addrs k b }) l u (λ x. refl) at)
      λ e. h

ensure_entry-Keeps : (at bn : ℕ) → Keeps (ensure_entry at bn)
unfolding ensure_entry log_write
ensure_entry-Keeps at bn l s h =
    if_both (EndsAt l) (load32 (s.blocks at) (4 * bn) == 0) _ _
      (λ e.
        then_ends l l (balloc s) _ (balloc-Keeps l s h)
          λ b u k. record { inodes = k.inodes; buffers = k.buffers })
      λ e. h

bmap_indirect-Keeps : (ip k : ℕ) → Keeps (bmap_indirect ip k)
unfolding bmap_indirect
bmap_indirect-Keeps ip k l s h =
    then_ends l l (ensure_addr ip ndirect s) _ (ensure_addr-Keeps ip ndirect l s h) λ b u at.
      bread_then l l b _ u at λ free got.
        let v = with_held b true u in
        then_ends (lock_buffer b l) l (ensure_entry b k v) (λ addr. brelse b >> pure addr)
          (ensure_entry-Keeps b k (lock_buffer b l) v got)
          λ addr w have.
            then_ends l l (brelse b w) (λ _. pure addr) (brelse-Takes b l free w have)
              λ _ x last. last

pub bmap-Keeps : (ip bn : ℕ) → Keeps (bmap ip bn)
unfolding bmap
bmap-Keeps ip bn l s h =
    if_both (λ (m : M ℕ). EndsAt l (m s)) (ltb bn ndirect) _ _ (λ e. ensure_addr-Keeps ip bn l s h)
      λ e.
        if_both (λ (m : M ℕ). EndsAt l (m s)) (ltb (bn - ndirect) nindirect) _ _
          (λ f. bmap_indirect-Keeps ip (bn - ndirect) l s h) λ f. tt

pure_ends :
    (l : Locks) (r : Result (Unit {0}))
    → EndsAt l (bind_result r (λ _. pure {A = Unit {0}} tt))
    → EndsAt l r
pure_ends l (done a s) h = h
pure_ends l panicked h = tt
pure_ends l asleep h = tt
pure_ends l out_of_fuel h = tt

pub ilock-Takes : (ip : ℕ) (l : Locks) → Takes l (ilock ip) (lock_inode ip l)
ilock-Takes ip l s h =
    pure_ends (lock_inode ip l) (ilock ip s)
      (ilock_then l (lock_inode ip l) ip (pure tt) s h λ free u at. at)

-- Whether a call comes back.
abbrev pub returns {ℓ} : {A : Type ℓ} → Result A → Bool
returns (done a s) = true
returns panicked = false
returns asleep = false
returns out_of_fuel = false

pub ilock_locked : (ip : ℕ) (s : Fs) → (s.inodes ip).owned ≡ true → returns (ilock ip s) ≡ false
unfolding ilock acquiresleep
ilock_locked ip s y =
    let read : M (Unit {0}) = if (s.inodes ip).valid then pure tt else read_inode ip in
    if_both (λ r. returns r ≡ false) (ltb (s.inodes ip).ref 1) panicked _ (λ _. refl)
      λ _. ap (λ r. returns (bind_result r (λ _. read))) (if-true asleep _ y)
