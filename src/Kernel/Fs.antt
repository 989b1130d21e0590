-- ===== src/Kernel/Fs.antt =====
-- lab1/kernel/fs.c and fs.h: the block layer of the file system and its state. There is one device, so `dev` is
-- left out of the calls. The content of a block is that of its buffer, as Kernel.Blocks has it, in bytes;
-- `held` says which buffers are locked, and `logged` which blocks the transaction has given to `log_write`,
-- whose panics are in Kernel.Log: here a transaction has begun, and the log has room for the block. A pointer `struct inode *` is an index of `icache.inode`.
pub mod Bits
pub mod Words
pub mod Bitmap
pub mod Search
pub mod Take
pub mod Free
mod Tests
use learn_mit_s.Common.{
  ℕ, zero, suc, ◌+◌, ◌-◌, ◌*◌, ◌/◌, ◌%◌, ◌^◌, Bool, true, false, not, ltb, ◌==◌, if◌then◌else◌,
  update,
}
use learn_mit_s.Kernel.Str.{Mem, memset}

abbrev pub bsize : ℕ
bsize = 1024

abbrev pub ndirect : ℕ
ndirect = 12

abbrev pub nindirect : ℕ
nindirect = 256

abbrev pub maxfile : ℕ
maxfile = ndirect + nindirect

-- Bitmap bits per block, and inodes per block.
abbrev pub bpb : ℕ
bpb = bsize * 8

abbrev pub ipb : ℕ
ipb = 16

-- The part of `struct superblock` that is read after the start.
pub record Superblock : Type 0 where
  pub size : ℕ
  pub ninodes : ℕ
  pub inodestart : ℕ
  pub bmapstart : ℕ

-- `struct inode`; a `short` is its 16 bits, and `owned` says whether the sleep lock is held.
pub record Inode : Type 0 where
  pub inum : ℕ
  pub ref : ℕ
  pub owned : Bool
  pub valid : Bool
  pub type : ℕ
  pub major : ℕ
  pub minor : ℕ
  pub nlink : ℕ
  pub size : ℕ
  pub addrs : ℕ → ℕ

pub record Fs : Type 0 where
  pub sb : Superblock
  pub blocks : ℕ → Mem
  pub held : ℕ → Bool
  pub logged : ℕ → Bool
  pub inodes : ℕ → Inode

-- A call ends with a value and a state, panics, or sleeps on a lock that is held; a loop can run out of fuel.
pub data Result {ℓ} (A : Type ℓ) : Type ℓ where
  done : A → Fs → Result A
  panicked : Result A
  asleep : Result A
  out_of_fuel : Result A

abbrev pub M {ℓ} : Type ℓ → Type ℓ
M A = Fs → Result A

infixl 5 ◌>>=◌ ◌>>◌
abbrev pub bind_result {ℓ κ} : {A : Type ℓ} {B : Type κ} → Result A → (A → M B) → Result B
bind_result (done a s) f = f a s
bind_result panicked f = panicked
bind_result asleep f = asleep
bind_result out_of_fuel f = out_of_fuel

abbrev pub ◌>>=◌ {ℓ κ} : {A : Type ℓ} {B : Type κ} → M A → (A → M B) → M B
m >>= f = λ s. bind_result (m s) f

abbrev pub ◌>>◌ {ℓ} : {B : Type ℓ} → M (Unit {0}) → M B → M B
m >> k = m >>= λ _. k

abbrev pub pure {ℓ} : {A : Type ℓ} → A → M A
pure a s = done a s

abbrev pub panic {ℓ} : {A : Type ℓ} → M A
panic s = panicked

-- `bread` locks the buffer: a second `bread` of a block that is not released sleeps.
unfoldable pub bread : ℕ → M (Unit {0})
bread b s = if s.held b then asleep else done tt (record s { held = update s.held b true })

unfoldable pub brelse : ℕ → M (Unit {0})
brelse b s = if s.held b then done tt (record s { held = update s.held b false }) else panicked

-- Where the log takes the block. Log.Several says of a list of blocks when that is so.
unfoldable pub log_write : ℕ → M (Unit {0})
log_write b s = done tt (record s { logged = update s.logged b true })

-- The bytes of the buffer of `b`, and a store into them.
abbrev pub content : ℕ → M Mem
content b s = done (s.blocks b) s

abbrev pub set_data : ℕ → Mem → M (Unit {0})
set_data b v s = done tt (record s { blocks = update s.blocks b v })

unfoldable pub bzero : ℕ → M (Unit {0})
unfolding bread brelse log_write memset
bzero bno = do
  bread bno
  d ← content bno
  set_data bno (memset 0 0 bsize d)
  log_write bno
  brelse bno

-- `BBLOCK(b, sb)`
abbrev pub bblock : ℕ → Fs → ℕ
bblock b s = b / bpb + s.sb.bmapstart

-- `x & (1 << k)`, as a test.
unfoldable pub test_bit : ℕ → ℕ → Bool
test_bit zero x = x % 2 == 1
test_bit (suc k) x = test_bit k (x / 2)

-- What `balloc` does at a clear bit.
unfoldable pub take_bit : ℕ → ℕ → M ℕ
unfolding brelse log_write bzero
take_bit b bi = λ s.
    let at = bblock b s in
    let go : M ℕ = (do
      d ← content at
      set_data at (update d (bi / 8) (d (bi / 8) + 2 ^ (bi % 8)))
      log_write at
      brelse at
      bzero (b + bi)
      pure (b + bi)) in
    go s

-- The inner loop of `balloc`, with `r` bits of the bitmap block left at `bi`; `next` is the rest of the
-- outer loop.
unfoldable pub scan_bits : M ℕ → ℕ → ℕ → ℕ → M ℕ
unfolding brelse test_bit take_bit
scan_bits next zero b bi = λ s. (brelse (bblock b s) >> next) s
scan_bits next (suc r) b bi = λ s.
    let rest = scan_bits next r b (bi + 1) s in
    let at = bblock b s in
    if not (ltb (b + bi) s.sb.size)
    then (brelse at >> next) s
    else if test_bit (bi % 8) (s.blocks at (bi / 8))
    then rest
    else take_bit b bi s

-- The outer loop at the block number `b`; the fuel counts bitmap blocks. Block numbers stay below 2^31.
unfoldable pub balloc_from : ℕ → ℕ → M ℕ
unfolding scan_bits bread
balloc_from zero b = λ s. out_of_fuel
balloc_from (suc fuel) b = λ s.
    let next = balloc_from fuel (b + bpb) in
    let round : M ℕ = (do bread (bblock b s); scan_bits next bpb b 0) in
    if ltb b s.sb.size then round s else panicked

unfoldable pub balloc : M ℕ
unfolding balloc_from
balloc s = balloc_from (s.sb.size / bpb + 2) 0 s

-- `bfree` with the block of the bitmap locked.
unfoldable pub clear_bit : ℕ → M (Unit {0})
unfolding brelse log_write test_bit
clear_bit b = λ s.
    let at = bblock b s in
    let bi = b % bpb in
    let d = s.blocks at in
    let clear : M (Unit {0}) = (do
      set_data at (update d (bi / 8) (d (bi / 8) - 2 ^ (bi % 8)))
      log_write at
      brelse at) in
    if not (test_bit (bi % 8) (d (bi / 8))) then panicked else clear s

unfoldable pub bfree : ℕ → M (Unit {0})
unfolding bread clear_bit
bfree b = λ s. (bread (bblock b s) >> clear_bit b) s
