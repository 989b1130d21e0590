-- ===== src/Kernel/Log/Recovery.antt =====
-- What recovery makes of a disk: nothing of one whose header is clear, and the logged contents of one
-- whose header names them.
use learn_mit_s.Common.{
  ℕ, zero, suc, ◌+◌, ◌≤◌, ◌<◌, ◌≡◌, refl, sym, ap, ◌∙◌, ◌≢◌, ◌⊎◌, inl, inr, ◌&&◌, arith, ltb, leb,
  if◌then◌else◌, update,
}
use mathlib.Core.Path.{subst}
use learn_mit_s.Kernel.Blocks.{Block, Io, bread, brelse}
use learn_mit_s.Kernel.Log.{
  logsize, LogHeader, Log, rounds, load_blocks, store_blocks, header, read_head, install_trans,
  cleared, recover_from_log,
}
use learn_mit_s.Kernel.Log.Loops.{slot, Copies, install_from-Copies, write_head-Copied}
use learn_mit_s.Kernel.Log.Runs.{
  Untouched, Touched, Separate, Agree, step-disk, Copies-other, Copies-stays, Copies-settles,
}

pub rounds_small : (n : ℕ) → n ≤ logsize → rounds n ≡ n
unfolding rounds
rounds_small n h = ground arith

store_blocks_lem :
    (r i j : ℕ) (block : ℕ → ℕ) (hb : Block)
    → store_blocks r i block hb (1 + j) ≡ (if leb i j && ltb j (i + r) then block j else hb (1 + j))
unfolding store_blocks
store_blocks_lem zero i j block hb = ground arith
store_blocks_lem (suc r) i j block hb =
    ground (arith, store_blocks_lem r (i + 1) j block (update hb (1 + i) (block i)))

store_blocks-zero : (r i : ℕ) (block : ℕ → ℕ) (hb : Block) → store_blocks r i block hb 0 ≡ hb 0
unfolding store_blocks
store_blocks-zero zero i block hb = refl
store_blocks-zero (suc r) i block hb =
    ground (arith, store_blocks-zero r (i + 1) block (update hb (1 + i) (block i)))

load_blocks_lem :
    (r i j : ℕ) (hb : Block) (block : ℕ → ℕ)
    → load_blocks r i hb block j ≡ (if leb i j && ltb j (i + r) then hb (1 + j) else block j)
unfolding load_blocks
load_blocks_lem zero i j hb block = ground arith
load_blocks_lem (suc r) i j hb block =
    ground (arith, load_blocks_lem r (i + 1) j hb (update block i (hb (1 + i))))

-- The header written holds the count and the block numbers.
pub header-count : (lh : LogHeader) (hb : Block) → header lh hb 0 ≡ lh.n
unfolding header
header-count lh hb = ground (arith, store_blocks-zero (rounds lh.n) 0 lh.block (update hb 0 lh.n))

pub header-block :
    (lh : LogHeader) (hb : Block) (j : ℕ)
    → lh.n ≤ logsize
    → j < lh.n
    → header lh hb (1 + j) ≡ lh.block j
unfolding header
header-block lh hb j h lt =
    ground
      (arith, rounds_small lh.n h, store_blocks_lem (rounds lh.n) 0 j lh.block (update hb 0 lh.n))

-- `b` is a block of the file system, not of the log.
abbrev pub Outside : Log → ℕ → Type 0
Outside lg b = (b < lg.start) ⊎ (lg.start + lg.size ≤ b)

-- The log has room for its blocks behind the header, and none of them belongs in the log itself.
pub record Fits (lg : Log) : Type 0 where
  pub few : lg.lh.n ≤ logsize
  pub room : lg.lh.n < lg.size
  pub home : (i : ℕ) → i < lg.lh.n → Outside lg (lg.lh.block i)

module _ {lg : Log} (f : Fits lg) where
  -- The home blocks and the log blocks do not meet.
  pub slots-Untouched : (b : ℕ) → (b ≡ lg.start) ⊎ Outside lg b → Untouched (slot lg) lg.lh.n 0 b
  slots-Untouched b h i lo hi = let r = f.room in omega arith

  pub homes-Untouched :
      (b : ℕ) → lg.start ≤ b → b < lg.start + lg.size → Untouched lg.lh.block lg.lh.n 0 b
  homes-Untouched b lo hi i a c e = let o = f.home i (omega arith) in omega arith

  pub homes-Separate : Separate (slot lg) lg.lh.block lg.lh.n 0
  homes-Separate i lo hi = let r = f.room in homes-Untouched (slot lg i) (omega arith) (omega arith)

  pub slots-Separate : Separate lg.lh.block (slot lg) lg.lh.n 0
  slots-Separate i lo hi = slots-Untouched (lg.lh.block i) (inr (f.home i (omega arith)))

  pub start-inside : Untouched lg.lh.block lg.lh.n 0 lg.start
  start-inside = let r = f.room in homes-Untouched lg.start (omega arith) (omega arith)

  pub Outside-ne : (b : ℕ) → Outside lg b → lg.start ≢ b
  Outside-ne b o = let r = f.room in omega arith

-- The log in memory after the header has been read.
abbrev pub loaded : Log → Io → Log
loaded lg s = record lg {
  lh = record {
    n = s.view lg.start 0;
    block = load_blocks (rounds (s.view lg.start 0)) 0 (s.view lg.start) lg.lh.block;
  };
}

pub read_head-log : (lg : Log) (s : Io) → (read_head lg s).0 ≡ loaded lg s
unfolding read_head bread
read_head-log lg s = refl

read_head-io :
    (lg : Log) (s : Io)
    → ((read_head lg s).1.disk ≡ s.disk)
      × ((read_head lg s).1.view ≡ s.view)
      × ((read_head lg s).1.power ≡ s.power)
unfolding read_head bread brelse
read_head-io lg s = (refl, refl, refl)

pub install_trans-Copies :
    (lg : Log) (s : Io) → Copies (slot lg) lg.lh.block (rounds lg.lh.n) 0 s (install_trans lg s)
unfolding install_trans
install_trans-Copies lg s = install_from-Copies (rounds lg.lh.n) 0 lg s

-- Clearing the header at the end does not touch another block.
recover-install :
    (lg : Log) (s : Io) (b : ℕ)
    → lg.start ≢ b
    → (recover_from_log lg s).1.disk b ≡ (install_trans (loaded lg s) (read_head lg s).1).disk b
unfolding recover_from_log
recover-install lg s b ne =
    let u = install_trans (loaded lg s) (read_head lg s).1 in
    rw (read_head-log lg s) (step-disk (write_head-Copied (cleared (loaded lg s)) u) ne)

-- With a clear header on disk recovery changes no block but the header.
pub recover_clear :
    (lg : Log) (s : Io) (b : ℕ)
    → s.view lg.start 0 ≡ 0
    → lg.start ≢ b
    → (recover_from_log lg s).1.disk b ≡ s.disk b
unfolding rounds
recover_clear lg s b e ne =
    let io = read_head-io lg s in
    recover-install lg s b ne
    ∙ (Copies-other (install_trans-Copies (loaded lg s) (read_head lg s).1) b none_written).0
    ∙ ap (λ d. d b) io.0
  where
    none_written : Untouched (loaded lg s).lh.block (rounds (s.view lg.start 0)) 0 b
    none_written i lo hi = absurd (ground arith)

module _ (lg : Log) (s : Io) (lh : LogHeader) (hb : Block) (f : Fits (record lg { lh = lh }))
    (head : s.view lg.start ≡ header lh hb) where
  pub count-lem : (loaded lg s).lh.n ≡ lh.n
  count-lem = ap (λ h. h 0) head ∙ header-count lh hb

  pub rounds-lem : rounds (loaded lg s).lh.n ≡ lh.n
  rounds-lem = ap rounds count-lem ∙ rounds_small lh.n f.few

  pub block-lem : (i : ℕ) → i < lh.n → (loaded lg s).lh.block i ≡ lh.block i
  block-lem i lt =
      load_blocks_lem (rounds (s.view lg.start 0)) 0 i (s.view lg.start) lg.lh.block
      ∙ rw (rounds-lem) (taken ∙ ap (λ h. h (1 + i)) head ∙ header-block lh hb i f.few lt)
    where
      taken :
          (if leb 0 i && ltb i (0 + lh.n) then s.view lg.start (1 + i) else lg.lh.block i)
          ≡ s.view lg.start (1 + i)
      taken = ground arith

  Separate-lem : Separate (slot lg) (loaded lg s).lh.block lh.n 0
  Separate-lem i lo hi j a b = rw (block-lem j (omega arith)) (homes-Separate f i lo hi j a b)

  -- With the header of `lh` on disk and its blocks in the log, recovery with the power for them leaves
  -- at home block `b` the content `w`, if the log says so of each copy of `b`, and if `b` has a copy
  -- or holds `w` already.
  pub recover_logged :
      (b : ℕ) (w : Block)
      → lh.n ≤ s.power
      → lg.start ≢ b
      → ((i : ℕ) → i < lh.n → lh.block i ≡ b → s.view (slot lg i) ≡ w)
      → Touched lh.block lh.n 0 b ⊎ (s.disk b ≡ w)
      → (recover_from_log lg s).1.disk b ≡ w
  recover_logged b w p ne says h = recover-install lg s b ne ∙ settled
    where
      s1 : Io
      s1 = (read_head lg s).1

      run : Copies (slot lg) (loaded lg s).lh.block lh.n 0 s1 (install_trans (loaded lg s) s1)
      run =
          subst
            (λ n. Copies (slot lg) (loaded lg s).lh.block n 0 s1 (install_trans (loaded lg s) s1))
            rounds-lem (install_trans-Copies (loaded lg s) s1)

      agree : Agree (slot lg) (loaded lg s).lh.block lh.n 0 s1 b w
      agree i lo hi e =
          ap (λ v. v (slot lg i)) (read_head-io lg s).1
          ∙ says i (omega arith) (sym (block-lem i (omega arith)) ∙ e)

      settled : (install_trans (loaded lg s) s1).disk b ≡ w
      settled = elim h [
        | inr d ↦ Copies-stays run Separate-lem agree (ap (λ x. x b) (read_head-io lg s).0 ∙ d)
        | inl (i, lo, hi, e) ↦
            let q = (read_head-io lg s).2 in
            Copies-settles run Separate-lem agree (omega arith)
              (i, lo, hi, block-lem i (omega arith) ∙ e)
      ]
