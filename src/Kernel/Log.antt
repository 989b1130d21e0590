-- ===== src/Kernel/Log.antt =====
-- lab1/kernel/log.c: the redo log that makes the block writes of a transaction one atomic write.
-- One device, so `dev` is left out. Each body that runs under `log.lock` is one step; a `sleep` is a
-- call that does not go through and is made again later.
pub mod Loops
pub mod Runs
pub mod Recovery
pub mod Crash
pub mod Reserve
pub mod Refcount
pub mod Several
mod Tests
use learn_mit_s.Common.{
  ℕ, zero, suc, ◌+◌, ◌-◌, ◌*◌, ◌%◌, ◌^◌, Bool, true, false, ◌||◌, Option, none, some, ltb, leb,
  ◌==◌, if◌then◌else◌, update,
}
use learn_mit_s.Kernel.Blocks.{Block, Io, bread, brelse, bpin, bunpin, set_data, bwrite}

abbrev pub maxopblocks : ℕ
maxopblocks = 10

abbrev pub logsize : ℕ
logsize = maxopblocks * 3

-- `struct logheader`; the array is a function, and its bound is a theorem.
pub record LogHeader : Type 0 where
  pub n : ℕ
  pub block : ℕ → ℕ

pub record Log : Type 0 where
  pub start : ℕ
  pub size : ℕ
  pub outstanding : ℕ
  pub committing : Bool
  pub lh : LogHeader

-- The rounds of `for (i = 0; i < n; i++)` for the `int` whose bits are `n`.
unfoldable pub rounds : ℕ → ℕ
rounds n = if ltb n (2 ^ 31) then n else 0

-- On disk the header is the count and then the block numbers, a word each.
unfoldable pub load_blocks : ℕ → ℕ → Block → (ℕ → ℕ) → ℕ → ℕ
load_blocks zero i hb block = block
load_blocks (suc r) i hb block = load_blocks r (i + 1) hb (update block i (hb (1 + i)))

unfoldable pub store_blocks : ℕ → ℕ → (ℕ → ℕ) → Block → Block
store_blocks zero i block hb = hb
store_blocks (suc r) i block hb = store_blocks r (i + 1) block (update hb (1 + i) (block i))

unfoldable pub install_from : ℕ → ℕ → Log → Io → Io
install_from zero tail lg s = s
install_from (suc r) tail lg s =
    let lbuf = lg.start + tail + 1 in
    let dbuf = lg.lh.block tail in
    let s1 = bread dbuf (bread lbuf s) in
    let s2 = bwrite dbuf (set_data dbuf (s1.view lbuf) s1) in
    install_from r (tail + 1) lg (brelse dbuf (brelse lbuf (bunpin dbuf s2)))

-- Copy committed blocks from log to their home location.
unfoldable pub install_trans : Log → Io → Io
unfolding rounds
install_trans lg s = install_from (rounds lg.lh.n) 0 lg s

unfoldable pub read_head : Log → Io → Log × Io
unfolding rounds
read_head lg s =
    let s1 = bread lg.start s in
    let hb = s1.view lg.start in
    let n = hb 0 in
    (
      record lg { lh = record { n = n; block = load_blocks (rounds n) 0 hb lg.lh.block } },
      brelse lg.start s1,
    )

unfoldable pub header : LogHeader → Block → Block
unfolding rounds
header lh hb = store_blocks (rounds lh.n) 0 lh.block (update hb 0 lh.n)

unfoldable pub write_head : Log → Io → Io
write_head lg s =
    let s1 = bread lg.start s in
    let s2 = set_data lg.start (header lg.lh (s1.view lg.start)) s1 in
    brelse lg.start (bwrite lg.start s2)

-- `log.lh.n = 0`
abbrev pub cleared : Log → Log
cleared lg = record lg { lh = record { n = 0; block = lg.lh.block } }

unfoldable pub recover_from_log : Log → Io → Log × Io
recover_from_log lg s =
    let (lg1, s1) = read_head lg s in
    let s2 = install_trans lg1 s1 in (cleared lg1, write_head (cleared lg1) s2)

-- The size test compares two constants, 124 and `BSIZE`, and passes.
unfoldable pub initlog : ℕ → ℕ → Log → Io → Log × Io
initlog logstart nlog lg s = recover_from_log (record lg { start = logstart; size = nlog }) s

unfoldable pub write_log_from : ℕ → ℕ → Log → Io → Io
write_log_from zero tail lg s = s
write_log_from (suc r) tail lg s =
    let to = lg.start + tail + 1 in
    let from = lg.lh.block tail in
    let s1 = bread from (bread to s) in
    let s2 = bwrite to (set_data to (s1.view from) s1) in
    write_log_from r (tail + 1) lg (brelse to (brelse from s2))

-- Copy modified blocks from cache to log.
unfoldable pub write_log : Log → Io → Io
unfolding rounds
write_log lg s = write_log_from (rounds lg.lh.n) 0 lg s

unfoldable pub commit : Log → Io → Log × Io
unfolding rounds
commit lg s =
    let s1 = write_log lg s in
    let s2 = write_head lg s1 in
    let s3 = install_trans lg s2 in
    if ltb 0 (rounds lg.lh.n) then (cleared lg, write_head (cleared lg) s3) else (lg, s)

-- `none`: the caller sleeps on the log.
unfoldable pub begin_op : Log → Option Log
begin_op lg =
    if lg.committing
    then none
    else if ltb logsize (lg.lh.n + (lg.outstanding + 1) * maxopblocks)
    then none
    else some (record lg { outstanding = lg.outstanding + 1 })

-- Up to the release of the lock: `none` is the panic, the Boolean is `do_commit`. With it false the
-- sleepers on the log are woken.
unfoldable pub end_op : Log → Option (Log × Bool)
end_op lg =
    let out = (lg.outstanding + 2 ^ 32 - 1) % 2 ^ 32 in
    if lg.committing
    then none
    else if out == 0
    then some (record lg { outstanding = out; committing = true }, true)
    else some (record lg { outstanding = out }, false)

-- After `commit()`, when the lock is held again; the sleepers on the log are woken.
unfoldable pub end_commit : Log → Log
end_commit lg = record lg { committing = false }

-- The index of `b` among the block numbers from `i` on, or the index after them.
unfoldable pub absorb : ℕ → ℕ → (ℕ → ℕ) → ℕ → ℕ
absorb zero i block b = i
absorb (suc r) i block b = let rest = absorb r (i + 1) block b in if block i == b then i else rest

-- `none` is a panic; the Boolean tells whether the block is pinned as a new one.
unfoldable pub log_write : ℕ → Log → Option (Log × Bool)
unfolding absorb rounds
log_write b lg =
    let i = absorb (rounds lg.lh.n) 0 lg.lh.block b in
    let block = update lg.lh.block i b in
    if leb logsize lg.lh.n || leb (lg.size - 1) lg.lh.n
    then none
    else if ltb lg.outstanding 1
    then none
    else if i == lg.lh.n
    then some (record lg { lh = record { n = lg.lh.n + 1; block = block } }, true)
    else some (record lg { lh = record { n = lg.lh.n; block = block } }, false)
