-- ===== src/Kernel/Inode/Disk.antt =====
-- An inode on disk: what `iupdate` writes, `ilock` reads.
use learn_mit_s.Common.{
  ℕ, ◌+◌, ◌/◌, ◌<◌, ◌≡◌, refl, sym, ap, ap₂, ◌∙◌, ◌≢◌, true, false, arith, ltb, if◌then◌else◌,
  ==_ne, update, update_self, if-false,
}
use mathlib.Core.Path.{subst}
use learn_mit_s.Kernel.Fs.{
  Inode, Fs, done, panicked, asleep, M, bind_result, ◌>>=◌, ◌>>◌, pure, panic, bread, brelse,
  log_write, content,
}
use learn_mit_s.Kernel.Fs.Bitmap.{with_held, brelse-bread}
use learn_mit_s.Kernel.Fs.Take.{brelse_locked}
use learn_mit_s.Kernel.Inode.{
  set_inode, iblock, in_iblock, store_dinode, load_dinode, iupdate, acquiresleep, check_type,
  read_inode, ilock,
}
use learn_mit_s.Kernel.Inode.Dinode.{Fits, SameDisk, load-store_dinode}

-- The state in which the inode is on disk.
abbrev pub updated : ℕ → Fs → Fs
updated ip s =
    let i = s.inodes ip in
    let b = iblock i.inum s in
    record s {
      blocks = update s.blocks b (store_dinode (in_iblock i.inum) i (s.blocks b));
      logged = update s.logged b true;
    }

pub iupdate-done :
    (ip : ℕ) (s : Fs)
    → s.held (iblock (s.inodes ip).inum s) ≡ false
    → iupdate ip s ≡ done tt (updated ip s)
unfolding iupdate log_write
iupdate-done ip s unheld =
    let b = iblock (s.inodes ip).inum s in
    let i = s.inodes ip in
    let (locked, back) = brelse-bread b s unheld in
    ap
      (λ r. bind_result r (λ _ t. brelse b (record t {
        blocks = update t.blocks b (store_dinode (in_iblock i.inum) i (t.blocks b));
        logged = update t.logged b true;
      })))
      locked
    ∙ brelse_locked b (with_held b true (updated ip s)) s.held unheld refl

abbrev made_valid : Inode → Inode
made_valid x = record x { valid = true }

check_type-done :
    (ip : ℕ) (s : Fs) (x : Inode)
    → s.inodes ip ≡ x
    → x.type ≢ 0
    → (u : Fs) × (check_type ip s ≡ done tt u) × (u.inodes ip ≡ made_valid x)
unfolding check_type
check_type-done ip s x e typed =
    let u = record s { inodes = update s.inodes ip (made_valid (s.inodes ip)) } in
    let at : u.inodes ip ≡ made_valid x =
      update_self s.inodes ip (made_valid (s.inodes ip)) ∙ ap made_valid e in
    (
      u,
      ap (λ f. f u)
          (if-false panic (pure tt)
            (==_ne (u.inodes ip).type 0 (λ z. typed (sym (ap (λ y. y.type) at) ∙ z)))),
      at,
    )

-- The inode as it is read from the disk into the entry `x`.
abbrev pub read_from_disk : Fs → Inode → Inode
read_from_disk s x = load_dinode (in_iblock x.inum) (s.blocks (iblock x.inum s)) x

read_inode-done :
    (ip : ℕ) (s : Fs) (x : Inode)
    → s.inodes ip ≡ x
    → s.held (iblock x.inum s) ≡ false
    → (read_from_disk s x).type ≢ 0
    → (u : Fs) × (read_inode ip s ≡ done tt u) × (u.inodes ip ≡ made_valid (read_from_disk s x))
unfolding read_inode
read_inode-done ip s x e unheld typed =
    let b = iblock x.inum s in
    let f = load_dinode (in_iblock x.inum) (s.blocks b) in
    let (locked, back) = brelse-bread b s unheld in
    let w = record s { inodes = update s.inodes ip (f (s.inodes ip)) } in
    let at : w.inodes ip ≡ read_from_disk s x =
      update_self s.inodes ip (f (s.inodes ip)) ∙ ap f e in
    let body : Inode → M (Unit {0}) = λ i t.
      (bread (iblock i.inum s)
          >> (content (iblock i.inum s) >>= (λ d.
              set_inode ip (load_dinode (in_iblock i.inum) d)
              >> (brelse (iblock i.inum s) >> check_type ip))))
        t in
    let (u, done_u, is) = check_type-done ip w (read_from_disk s x) at typed in
    (
      u,
      ap (λ i. body i s) e
          ∙ ap
              (λ r. bind_result r (λ _. content b >>= (λ d.
                set_inode ip (load_dinode (in_iblock x.inum) d) >> (brelse b >> check_type ip))))
              locked
          ∙ ap (λ r. bind_result r (λ _. check_type ip))
              (brelse_locked b (with_held b true w) s.held unheld refl)
          ∙ done_u,
      is,
    )

-- An inode whose fields fit the disk is read back as it was written: after `iupdate` of the entry `ip`, in every
-- later state `v` in which the block of the inode has still its content, and no one holds its buffer, `ilock`
-- of an entry of that inode, in use, not locked and not valid, makes it valid, with the same type, numbers, links,
-- size and blocks. The inode has a type.
pub ilock-iupdate :
    (ip ip' : ℕ) (s v : Fs)
    → Fits (s.inodes ip)
    → (s.inodes ip).type ≢ 0
    → s.held (iblock (s.inodes ip).inum s) ≡ false
    → v.sb ≡ s.sb
    → (v.inodes ip').inum ≡ (s.inodes ip).inum
    → 0 < (v.inodes ip').ref
    → (v.inodes ip').owned ≡ false
    → (v.inodes ip').valid ≡ false
    → v.held (iblock (v.inodes ip').inum v) ≡ false
    → v.blocks (iblock (s.inodes ip).inum s) ≡ (updated ip s).blocks (iblock (s.inodes ip).inum s)
    → (iupdate ip s ≡ done tt (updated ip s))
      × ((u : Fs) × (ilock ip' v ≡ done tt u)
          × ((u.inodes ip').valid ≡ true)
          × SameDisk (u.inodes ip') (s.inodes ip))
unfolding ilock acquiresleep
ilock-iupdate ip ip' s v fits typed unheld same_sb same_inum used free stale unheld' kept =
    let x = s.inodes ip in
    let y = v.inodes ip' in
    let b = iblock x.inum s in
    let y1 = record y { owned = true } in
    let v1 = record v { inodes = update v.inodes ip' y1 } in
    let at = update_self v.inodes ip' y1 in
    let in_use : ltb y.ref 1 ≡ false = ground (arith, used) in
    let block : iblock y.inum v ≡ b = ap₂ (λ n sb. n / 16 + sb.inodestart) same_inum same_sb in
    let d = store_dinode (in_iblock x.inum) x (s.blocks b) in
    let read : v.blocks (iblock y.inum v) ≡ d =
      ap v.blocks block ∙ kept ∙ update_self s.blocks b d in
    let from : read_from_disk v1 y1 ≡ load_dinode (in_iblock x.inum) d y1 =
      ap₂ (λ n m. load_dinode (in_iblock n) m y1) same_inum read in
    let same : SameDisk (read_from_disk v1 y1) x =
      subst (λ z. SameDisk z x) (sym from)
        (load-store_dinode (in_iblock x.inum) x (s.blocks b) y1 fits) in
    let (u, e, is) = read_inode-done ip' v1 y1 at unheld' (λ z. typed (sym same.type ∙ z)) in
    (
      iupdate-done ip s unheld,
      (
        u,
        if-false panicked _ in_use
            ∙ ap (λ r. bind_result r (λ _. if y.valid then pure tt else read_inode ip'))
                (if-false asleep (done tt v1) free)
            ∙ ap (λ f. f v1) (if-false (pure tt) (read_inode ip') stale)
            ∙ e,
        ap (λ z. z.valid) is,
        subst (λ z. SameDisk z x) (sym is)
            record {
              type = same.type;
              major = same.major;
              minor = same.minor;
              nlink = same.nlink;
              size = same.size;
              addrs = same.addrs;
            },
      ),
    )
