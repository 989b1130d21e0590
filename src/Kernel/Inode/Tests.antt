-- ===== src/Kernel/Inode/Tests.antt =====
-- A cache with one entry in use.
use learn_mit_s.Common.{
  refl, ℕ, ◌<◌, ◌≡◌, sym, ◌∙◌, ◌≢◌, ◌⊎◌, false, arith, ◌==◌, if◌then◌else◌, update, true, ap,
}
use learn_mit_s.Kernel.Fs.{Inode, Fs, done, panicked, bblock, test_bit}
use learn_mit_s.Kernel.Inode.{ninode, iget, bmap, store_dinode, iupdate, ilock}
use learn_mit_s.Kernel.Fs.Bitmap.{used, Ready}
use learn_mit_s.Kernel.Fs.Search.{Full, Chosen}
use learn_mit_s.Kernel.Inode.Alloc.{Grown, bmap-Grown}
use learn_mit_s.Kernel.Inode.Dinode.{Fits, SameDisk}
use learn_mit_s.Kernel.Inode.Disk.{updated, ilock-iupdate}
use learn_mit_s.Kernel.Inode.Cache.{IsFor, Unique, NoneFor, Got, iget-Got}

abbrev inode : ℕ → ℕ → Inode
inode inum ref = record {
  inum = inum;
  ref = ref;
  owned = false;
  valid = false;
  type = 0;
  major = 0;
  minor = 0;
  nlink = 0;
  size = 0;
  addrs = λ _. 0;
}

abbrev cache : Fs
cache = record {
  sb = record { size = 8; ninodes = 16; inodestart = 2; bmapstart = 3 };
  blocks = λ b i. 0;
  held = λ _. false;
  logged = λ _. false;
  inodes = λ i. if i == 3 then inode 1 2 else inode 0 0;
}

in_use : (i inum : ℕ) → IsFor cache inum i → i ≡ 3
in_use i inum (pos, e) = ground (arith, pos)

cache-Unique : Unique cache
cache-Unique i j inum a b x y = in_use i inum x ∙ sym (in_use j inum y)

iget-Got_example :
    ((iget 1 cache ≡ panicked)
      × NoneFor cache 1 0 ninode
      × ((k : ℕ) → k < ninode → (cache.inodes k).ref ≢ 0))
    ⊎ ((i : ℕ) × (t : Fs) × (iget 1 cache ≡ done i t) × Got cache 1 i t)
iget-Got_example = iget-Got 1 cache cache-Unique

-- A file that is written to disk and read into another entry.
abbrev file : Inode
file = record (inode 1 1) { type = 2; nlink = 1; size = 700; addrs = λ i. if i == 0 then 5 else 0 }

abbrev before : Fs
before = record cache { inodes = λ _. file }

abbrev later : Fs
later = record cache {
  blocks = update (λ b i. 0) 2 (store_dinode 64 file (λ _. 0));
  inodes = λ _. inode 1 1;
}

file-Fits : Fits file
file-Fits = record {
  type = omega arith;
  major = omega arith;
  minor = omega arith;
  nlink = omega arith;
  size = omega arith;
  addrs = λ i. ground arith;
}

ilock-iupdate_example :
    (iupdate 0 before ≡ done tt (updated 0 before))
    × ((u : Fs) × (ilock 3 later ≡ done tt u)
        × ((u.inodes 3).valid ≡ true)
        × SameDisk (u.inodes 3) file)
ilock-iupdate_example =
    ilock-iupdate 0 3 before later file-Fits (λ e. omega (arith, e)) refl refl refl (omega arith)
      refl refl refl refl

-- An empty file on a disk of eight blocks: 0 to 3 are in use, and block 3 is the bitmap.
abbrev empty_file : Fs
empty_file = record cache {
  blocks = λ b i. if b == 3 then (if i == 0 then 15 else 0) else 7;
  inodes = λ _. inode 1 1;
}

empty_file-Ready : Ready empty_file
unfolding test_bit
empty_file-Ready = record {
  bitmap_below = λ c lt. omega (arith, lt);
  bitmap_used =
      λ c lt. let at : bblock c empty_file ≡ 3 = omega (arith, lt) in ap (used empty_file) at;
  bitmap_unheld = λ c lt. refl;
  free_unheld = λ c lt e. refl;
}

bmap-Grown_example :
    (Full empty_file 0 × (bmap 0 2 empty_file ≡ panicked))
    ⊎ ((c : ℕ) × (u : Fs) × (bmap 0 2 empty_file ≡ done c u)
        × Chosen empty_file 0 c
        × Grown empty_file u 0 2 c
        × Ready u)
bmap-Grown_example = bmap-Grown 0 2 empty_file (omega arith) refl empty_file-Ready
