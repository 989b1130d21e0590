-- ===== src/Kernel/Fs/Tests.antt =====
-- A small disk: blocks 0 to 3 are in use, and block 3 is the bitmap.
use learn_mit_s.Common.{ℕ, ◌<◌, ◌≡◌, refl, ap, ◌⊎◌, false, arith, ◌==◌, if◌then◌else◌}
use learn_mit_s.Kernel.Fs.{Inode, Fs, done, panicked, bblock, test_bit, balloc, bfree}
use learn_mit_s.Kernel.Fs.Bitmap.{used, Ready, Takes}
use learn_mit_s.Kernel.Fs.Search.{Full, Chosen}
use learn_mit_s.Kernel.Fs.Take.{balloc-Takes}
use learn_mit_s.Kernel.Fs.Free.{bfree-balloc}

abbrev no_inode : Inode
no_inode = record {
  inum = 0;
  ref = 0;
  owned = false;
  valid = false;
  type = 0;
  major = 0;
  minor = 0;
  nlink = 0;
  size = 0;
  addrs = λ _. 0;
}

abbrev disk : Fs
disk = record {
  sb = record { size = 8; ninodes = 16; inodestart = 2; bmapstart = 3 };
  blocks = λ b i. if b == 3 then (if i == 0 then 15 else 0) else 7;
  held = λ _. false;
  logged = λ _. false;
  inodes = λ _. no_inode;
}

disk-Ready : Ready disk
unfolding test_bit
disk-Ready = record {
  bitmap_below = λ c lt. omega (arith, lt);
  bitmap_used = λ c lt. let at : bblock c disk ≡ 3 = omega (arith, lt) in ap (used disk) at;
  bitmap_unheld = λ c lt. refl;
  free_unheld = λ c lt e. refl;
}

balloc-Takes_example :
    (Full disk 0 × (balloc disk ≡ panicked))
    ⊎ ((c : ℕ) × (t : Fs) × Chosen disk 0 c × (balloc disk ≡ done c t) × Takes c disk t)
balloc-Takes_example = balloc-Takes disk disk-Ready

four_free : used disk 4 ≡ false
unfolding test_bit
four_free = refl

bfree-balloc_example :
    (c : ℕ) × (t u : Fs) × (balloc disk ≡ done c t)
    × Ready t
    × (bfree c t ≡ done tt u)
    × ((y : ℕ) → y < 8 → used u y ≡ used disk y)
bfree-balloc_example = bfree-balloc disk 4 disk-Ready (omega arith) four_free
