-- ===== src/Kernel/Content/Tests.antt =====
-- A file of two blocks: bytes across the border, and a source that is not mapped.
use learn_mit_s.Common.{
  ℕ, zero, suc, ◌+◌, ◌-◌, ◌/◌, ◌%◌, min, ◌<◌, ◌≡◌, refl, true, false, some, arith, ◌==◌,
  if◌then◌else◌,
}
use learn_mit_s.Kernel.Log.{Log}
use learn_mit_s.Kernel.Log.Several.{HasRoom, log_all}
use learn_mit_s.Kernel.Content.Logged.{mark_all}
use learn_mit_s.Kernel.Kalloc.{null}
use learn_mit_s.Kernel.Vm.{walk_from, walk, walkaddr}
use learn_mit_s.Kernel.Str.{Mem}
use learn_mit_s.Kernel.Usercopy.{translate}
use learn_mit_s.Kernel.Fs.{bsize, Inode, Fs, done}
use learn_mit_s.Kernel.Inode.Blocks.{block_of, IsHeld}
use learn_mit_s.Kernel.Content.{Space, readi, writei}
use learn_mit_s.Kernel.Content.Read.{byte_at, filled, readi-filled}
use learn_mit_s.Kernel.Content.Round.{IsOwn}
use learn_mit_s.Kernel.Content.RoundTrip.{IsWritable, written_blocks, readi-writei}
use learn_mit_s.Kernel.Content.Write.{writei-unmapped}

abbrev file : Inode
file = record {
  inum = 1;
  ref = 1;
  owned = true;
  valid = true;
  type = 2;
  major = 0;
  minor = 0;
  nlink = 1;
  size = 1024;
  addrs = λ i. if i == 0 then 5 else if i == 1 then 6 else 0;
}

abbrev disk : Fs
disk = record {
  sb = record { size = 8; ninodes = 16; inodestart = 2; bmapstart = 3 };
  blocks = λ b i. i % 256;
  held = λ _. false;
  logged = λ _. false;
  inodes = λ _. file;
}

abbrev space : Space
space = record { pt = 0x8000_1000; tables = record { freelist = null; mem = λ _. 0 } }

abbrev bytes : Mem
bytes a = a % 256

block : (bn : ℕ) → bn < 2 → block_of disk 0 bn ≡ bn + 5
block zero lt = refl
block (suc zero) lt = refl
block (suc (suc bn)) lt = absurd (omega (arith, lt))

holds : (q : ℕ) → q < 2048 → IsHeld disk 0 (q / bsize)
holds q lt =
    let at = block (q / bsize) (omega (arith, lt)) in
    record {
      small = omega (arith, lt);
      nonzero = λ e. omega (arith, at, e);
      unheld = refl;
      indirect = λ ge. absurd (omega (arith, lt, ge));
    }

own : IsOwn disk 0 1022 (1022 + 4)
own = record {
  held = λ q l h. holds q (omega (arith, h));
  apart = λ q q' l h l' h' e.
      let a = block (q / bsize) (omega (arith, h)) in
      let b = block (q' / bsize) (omega (arith, h')) in omega (arith, a, b, e);
  no_list = λ q l h e. let a = block (q / bsize) (omega (arith, h)) in omega (arith, a, e);
}

writable : IsWritable disk 0 1022 (1022 + 4)
writable = record {
  own = own;
  inode_unheld = refl;
  not_inode = λ q l h e. let a = block (q / bsize) (omega (arith, h)) in omega (arith, a, e);
  list_not_inode = λ e. omega (arith, e);
}

-- A log of 31 blocks in which a transaction has begun, and holds one block.
abbrev log : Log
log = record {
  start = 2;
  size = 31;
  outstanding = 1;
  committing = false;
  lh = record { n = 1; block = λ _. 7 };
}

log-HasRoom : HasRoom log (4 / bsize + 3)
log-HasRoom = record { begun = omega arith; fits_header = omega arith; fits_disk = omega arith }

readi-writei_example :
    (t : Fs) × (u : Mem) × (writei space 0 false 100 1022 4 bytes disk ≡ done (some 4) t)
    × (readi space 0 false 200 1022 4 bytes t ≡ done (4, u) t)
    × ((i : ℕ) → i < 4 → u (200 + i) ≡ bytes (100 + i))
    × (t.logged ≡ mark_all (written_blocks disk 0 1022 4) disk.logged)
    × ((lg' : Log) × (log_all (written_blocks disk 0 1022 4) log ≡ some lg'))
readi-writei_example =
    readi-writei space 0 100 200 1022 4 bytes bytes disk log (omega arith) (omega arith)
      (omega arith) (omega arith) (omega arith) writable log-HasRoom

-- Two of the ten bytes are in the file.
readi-filled_example :
    (t : Mem) × (readi space 0 false 200 1022 10 bytes disk ≡ done (min 10 (1024 - 1022), t) disk)
    × ((a : ℕ) → t a ≡ filled (byte_at disk 0) 200 1022 (min 10 (1024 - 1022)) bytes a)
readi-filled_example =
    readi-filled space 0 200 1022 10 bytes disk (omega arith) (omega arith) (omega arith)
      (λ q l h. holds q (omega (arith, h)))

nowhere : translate 0x8000_1000 space.tables 0x4000 ≡ 0
unfolding translate walkaddr walk walk_from
nowhere = refl

writei-unmapped_example :
    (t : Fs) × (writei space 0 true 0x4010 1000 100 bytes disk ≡ done (some 100) t)
    × ((t.inodes 0).size ≡ 1024)
    × ((i : ℕ) → t.blocks 5 i ≡ disk.blocks 5 i)
writei-unmapped_example =
    writei-unmapped space 0 0x4010 1000 100 bytes disk (omega arith) (omega arith) (omega arith)
      (holds 1000 (omega arith)) (λ e. omega (arith, e)) refl nowhere
