-- ===== src/Kernel/Log/Crash.antt =====
-- A transaction is atomic and durable: wherever power fails during `commit`, recovery finds either
-- every home block as it was or every home block as the transaction left it.
use learn_mit_s.Common.{
  ℕ, ◌≤◌, ◌<◌, ◌≡◌, refl, sym, ap, ◌∙◌, ◌≢◌, ◌⊎◌, inl, inr, arith, ℕ_discrete, lt→ltb, update_self,
}
use mathlib.Core.Path.{subst}
use learn_mit_s.Kernel.Blocks.{Io, reboot}
use learn_mit_s.Kernel.Log.{
  Log, rounds, header, write_log, write_log_from, install_trans, write_head, cleared, initlog,
  commit,
}
use learn_mit_s.Kernel.Log.Loops.{slot, Copies, Copied, write_log_from-Copies, write_head-Copied}
use learn_mit_s.Kernel.Log.Runs.{
  Untouched, Touched, Agree, step-disk, step-view, Copies-other, Copies-dark, Copies-power,
  Copies-fresh, Copies-stays, Copies-settles, Touched-cases,
}
use learn_mit_s.Kernel.Log.Recovery.{
  Outside, Fits, slots-Untouched, homes-Untouched, homes-Separate, slots-Separate, start-inside,
  Outside-ne, rounds_small, header-count, install_trans-Copies, recover_clear, recover_logged,
}

-- A state in which `commit` may be called: no transaction stands in the log on disk, and of the home
-- blocks only those in the log differ between the cache and the disk.
pub record Ready (lg : Log) (s : Io) : Type 0 where
  pub fits : Fits lg
  pub idle : s.disk lg.start 0 ≡ 0
  pub clean : (b : ℕ) → Outside lg b → Untouched lg.lh.block lg.lh.n 0 b → s.view b ≡ s.disk b

module _ {lg : Log} {s : Io} (ready : Ready lg s) where
  open ready use {fits, idle, clean}

  abbrev n : ℕ
  n = lg.lh.n

  abbrev s1 : Io
  s1 = write_log lg s

  abbrev s2 : Io
  s2 = write_head lg s1

  abbrev s3 : Io
  s3 = install_trans lg s2

  abbrev s4 : Io
  s4 = write_head (cleared lg) s3

  logged : Copies lg.lh.block (slot lg) n 0 s s1
  unfolding write_log
  logged =
      subst (λ k. Copies lg.lh.block (slot lg) n 0 s (write_log_from k 0 lg s))
        (sym (rounds_small n fits.few)) (write_log_from-Copies n 0 lg s)

  headed : Copied lg.start (header lg.lh (s1.view lg.start)) s1 s2
  headed = write_head-Copied lg s1

  installed : Copies (slot lg) lg.lh.block n 0 s2 s3
  installed =
      subst (λ k. Copies (slot lg) lg.lh.block k 0 s2 s3) (rounds_small n fits.few)
        (install_trans-Copies lg s2)

  erased : Copied lg.start (header (cleared lg).lh (s3.view lg.start)) s3 s4
  erased = write_head-Copied (cleared lg) s3

  -- The log blocks do not move the header or a home block.
  early : (b : ℕ) → (b ≡ lg.start) ⊎ Outside lg b → s1.disk b ≡ s.disk b
  early b o = (Copies-other logged b (slots-Untouched fits b o)).0

  -- Power fails before the header is written: nothing else has reached the disk.
  module _ (lost : s.power ≤ n) where
    late : (b : ℕ) → s4.disk b ≡ s1.disk b
    late b =
        let p1 = Copies-power logged in
        let p2 = headed.power in
        let p3 = Copies-power installed in
        erased.dark (omega arith) b
        ∙ Copies-dark installed (omega arith) b
        ∙ headed.dark (omega arith) b

    unchanged : (b : ℕ) → (b ≡ lg.start) ⊎ Outside lg b → s4.disk b ≡ s.disk b
    unchanged b o = late b ∙ early b o

  -- The header reaches the disk: from there on the transaction stands.
  module _ (held : n < s.power) where
    power-lem : 0 < s1.power
    power-lem = omega (arith, Copies-power logged)

    head-lem : s3.disk lg.start ≡ header lg.lh (s1.view lg.start)
    head-lem =
        (Copies-other installed lg.start (start-inside fits)).0
        ∙ headed.lit power-lem lg.start
        ∙ update_self s1.disk lg.start (header lg.lh (s1.view lg.start))

    inside : (i : ℕ) → i < n → (lg.start ≢ slot lg i) × Untouched lg.lh.block n 0 (slot lg i)
    inside i lt =
        let r = fits.room in
        (omega arith, homes-Untouched fits (slot lg i) (omega arith) (omega arith))

    slot-disk : (i : ℕ) → i < n → s3.disk (slot lg i) ≡ s.view (lg.lh.block i)
    slot-disk i lt =
        (Copies-other installed (slot lg i) (inside i lt).1).0
        ∙ step-disk headed (inside i lt).0
        ∙ (Copies-fresh logged (slots-Separate fits) (λ a b e. omega arith) i (omega arith)
              (omega arith)).1
            (omega arith)

    slot-view : (i : ℕ) → i < n → s2.view (slot lg i) ≡ s.view (lg.lh.block i)
    slot-view i lt =
        step-view headed (inside i lt).0
        ∙ (Copies-fresh logged (slots-Separate fits) (λ a b e. omega arith) i (omega arith)
            (omega arith)).0

    agree : (b : ℕ) → Agree (slot lg) lg.lh.block n 0 s2 b (s.view b)
    agree b i lo hi e = slot-view i (omega arith) ∙ ap s.view e

    before : (b : ℕ) → Outside lg b → Untouched lg.lh.block n 0 b → s2.disk b ≡ s.view b
    before b o h = step-disk headed (Outside-ne fits b o) ∙ early b (inr o) ∙ sym (clean b o h)

    -- Every home block holds its new content, or is in the log on disk with it.
    settled : (b : ℕ) → Outside lg b → Touched lg.lh.block n 0 b ⊎ (s3.disk b ≡ s.view b)
    settled b o = elim (Touched-cases lg.lh.block n 0 b) [
      | inl t ↦ inl t
      | inr h ↦ inr (Copies-stays installed (homes-Separate fits) (agree b) (before b o h))
    ]

    finished : (b : ℕ) → Outside lg b → 0 < s3.power → s3.disk b ≡ s.view b
    finished b o p = elim (settled b o) [
      | inr e ↦ e
      | inl t ↦
          let q = Copies-power installed in
          Copies-settles installed (homes-Separate fits) (agree b) (omega arith) t
    ]

  commit-empty : n ≡ 0 → (commit lg s).1 ≡ s
  unfolding commit rounds
  commit-empty e = ground arith

  commit-full : 0 < n → (commit lg s).1 ≡ s4
  unfolding commit
  commit-full h = rw (rounds_small n fits.few, lt→ltb 0 n h)

-- The machine after it has gone down in or after `commit` and come up again, and has run `initlog` with
-- the power for `p` writes. The log in memory starts from any value.
abbrev pub after_crash : Log → Io → Log → ℕ → Io
after_crash lg s fresh p = (initlog lg.start lg.size fresh (reboot (commit lg s).1.disk p)).1

module _ {lg : Log} {s : Io} (ready : Ready lg s) (fresh : Log) (p : ℕ) where
  open ready use {fits, idle, clean}

  abbrev ready_log : Log
  ready_log = record fresh { start = lg.start; size = lg.size }

  abbrev restart : Io → Io
  restart t = (initlog lg.start lg.size fresh (reboot t.disk p)).1

  -- Recovery from a disk with a clear header.
  from_clear :
      (t : Io) (b : ℕ) → t.disk lg.start 0 ≡ 0 → Outside lg b → (restart t).disk b ≡ t.disk b
  unfolding initlog
  from_clear t b e o = recover_clear ready_log (reboot t.disk p) b e (Outside-ne fits b o)

  from_commit :
      (t : Io) (b : ℕ)
      → (commit lg s).1 ≡ t
      → (after_crash lg s fresh p).disk b ≡ (restart t).disk b
  from_commit t b e = ap (λ u. (restart u).disk b) e

  -- In a state in which `commit` may be called (the header on disk is clear, the log in memory
  -- fits, and outside the log only its home blocks differ between the cache and the disk): if
  -- power fails before the header that names the transaction is written, then after a restart
  -- every block outside the log holds what the disk held before `commit`.
  pub commit_undone :
      s.power ≤ lg.lh.n → (b : ℕ) → Outside lg b → (after_crash lg s fresh p).disk b ≡ s.disk b
  commit_undone lost b o = elim (ℕ_discrete lg.lh.n 0) [
    | yes z ↦ from_commit s b (commit-empty ready z) ∙ from_clear s b idle o
    | no nz ↦
        from_commit (s4 ready) b (commit-full ready (omega arith))
        ∙ from_clear (s4 ready) b (ap (λ h. h 0) (unchanged ready lost lg.start (inl refl)) ∙ idle)
            o
        ∙ unchanged ready lost b (inr o)
  ]

  -- The header stands: its blocks are installed, again where they were installed before.
  from_standing :
      lg.lh.n ≤ p
      → lg.lh.n < s.power
      → (s3 ready).power ≡ 0
      → (b : ℕ) → Outside lg b
      → (restart (s4 ready)).disk b ≡ s.view b
  unfolding initlog
  from_standing enough held out b o =
      recover_logged ready_log (reboot (s4 ready).disk p) lg.lh ((s1 ready).view lg.start)
        (record { few = fits.few; room = fits.room; home = fits.home })
        (dark lg.start ∙ head-lem ready held) b (s.view b) enough (Outside-ne fits b o)
        (λ i lt e. dark (slot lg i) ∙ slot-disk ready held i lt ∙ ap s.view e)
        (elim (settled ready held b o) [ inl t ↦ inl t | inr e ↦ inr (dark b ∙ e) ])
    where
      dark : (c : ℕ) → (s4 ready).disk c ≡ (s3 ready).disk c
      dark = (erased ready).dark out

  -- The header has been cleared again, which happens after the last block is installed.
  from_erased :
      lg.lh.n < s.power
      → 0 < (s3 ready).power
      → (b : ℕ) → Outside lg b
      → (restart (s4 ready)).disk b ≡ s.view b
  from_erased held p3 b o =
      from_clear (s4 ready) b
        (ap (λ h. h 0) ((erased ready).lit p3 lg.start ∙ update_self (s3 ready).disk lg.start _)
          ∙ header-count (cleared lg).lh ((s3 ready).view lg.start))
        o
      ∙ step-disk (erased ready) (Outside-ne fits b o)
      ∙ finished ready held b o p3

  -- In a state in which `commit` may be called (the header on disk is clear, the log in memory
  -- fits, and outside the log only its home blocks differ between the cache and the disk): if
  -- power fails after the header that names the transaction is written, or not at all, then after
  -- a restart with the power for at least one write for each logged block every block outside the
  -- log holds what the cache held at the call of `commit`.
  pub commit_durable :
      lg.lh.n ≤ p
      → lg.lh.n < s.power
      → (b : ℕ) → Outside lg b
      → (after_crash lg s fresh p).disk b ≡ s.view b
  commit_durable enough held b o = elim (ℕ_discrete lg.lh.n 0) [
    | yes z ↦
        from_commit s b (commit-empty ready z)
        ∙ from_clear s b idle o
        ∙ sym (clean b o (λ i lo hi. absurd (omega arith)))
    | no nz ↦
        from_commit (s4 ready) b (commit-full ready (omega arith))
        ∙ elim (ℕ_discrete (s3 ready).power 0) [
          | yes out ↦ from_standing enough held out b o
          | no more ↦ from_erased held (omega arith) b o
        ]
  ]
