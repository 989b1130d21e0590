-- ===== src/Kernel/Blocks.antt =====
-- The block layer as the file system sees it: what the header comment of lab1/kernel/bio.c promises.
-- One device; block number `b` has a content on disk and a content in the cache (`view`, equal to
-- that on disk where no buffer holds the block), and `refcnt` counts the users of its buffer.
-- The disk takes `power` more writes: a machine that loses power after `k` writes is a run with
-- `power` equal to `k`, since nothing that happens later reaches the disk. A block write is atomic.
use learn_mit_s.Common.{ℕ, zero, suc, ◌+◌, ◌-◌, ◌%◌, ◌^◌, update}

-- The 256 words of a block.
abbrev pub Block : Type 0
Block = ℕ → ℕ

pub record Io : Type 0 where
  pub disk : ℕ → Block
  pub view : ℕ → Block
  pub refcnt : ℕ → ℕ
  pub power : ℕ

-- A machine after a restart: no block is cached.
abbrev pub reboot : (ℕ → Block) → ℕ → Io
reboot d k = record { disk = d; view = d; refcnt = λ _. 0; power = k }

-- `b->refcnt++` and `b->refcnt--` on a `uint`.
abbrev pub incr : ℕ → ℕ
incr r = (r + 1) % 2 ^ 32

abbrev pub decr : ℕ → ℕ
decr r = (r + 2 ^ 32 - 1) % 2 ^ 32

-- The buffer that `bread` returns holds `s.view b`.
unfoldable pub bread : ℕ → Io → Io
bread b s = record s { refcnt = update s.refcnt b (incr (s.refcnt b)) }

unfoldable pub brelse : ℕ → Io → Io
brelse b s = record s { refcnt = update s.refcnt b (decr (s.refcnt b)) }

unfoldable pub bpin : ℕ → Io → Io
bpin b s = record s { refcnt = update s.refcnt b (incr (s.refcnt b)) }

unfoldable pub bunpin : ℕ → Io → Io
bunpin b s = record s { refcnt = update s.refcnt b (decr (s.refcnt b)) }

-- A store into the buffer of `b`.
unfoldable pub set_data : ℕ → Block → Io → Io
set_data b v s = record s { view = update s.view b v }

unfoldable pub written : ℕ → ℕ → Io → Io
written b zero s = s
written b (suc k) s = record s { disk = update s.disk b (s.view b); power = k }

unfoldable pub bwrite : ℕ → Io → Io
unfolding written
bwrite b s = written b s.power s
