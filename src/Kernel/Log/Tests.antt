-- ===== src/Kernel/Log/Tests.antt =====
-- The theorems on the log at a transaction of two blocks, cut off at several writes.
use learn_mit_s.Common.{
  ℕ, ◌+◌, ◌-◌, ◌^◌, ◌≤◌, ◌≡◌, refl, fun_ext, ◌↔◌, inr, Bool, true, ◌||◌, some, List, [], ◌∷◌, arith,
  ◌==◌, if◌then◌else◌,
}
use learn_mit_s.Kernel.Blocks.{Block, Io, reboot}
use learn_mit_s.Kernel.Log.{
  logsize, LogHeader, Log, header, begin_op, end_op, log_write, recover_from_log,
}
use learn_mit_s.Kernel.Log.Recovery.{Fits}
use learn_mit_s.Kernel.Log.Crash.{Ready, after_crash, commit_undone, commit_durable}
use learn_mit_s.Kernel.Log.Reserve.{
  Calls, begin, Reach, ready, later, idle_log, log_write_succeeds, end_op-last_iff,
}
use learn_mit_s.Kernel.Log.Refcount.{Distinct, recover_underflow}

abbrev two_blocks : LogHeader
two_blocks = record { n = 2; block = λ i. 40 + i }

abbrev log : Log
log = record { start = 2; size = 31; outstanding = 0; committing = true; lh = two_blocks }

abbrev zeroes : ℕ → Block
zeroes b w = 0

-- Blocks 40 and 41 have been changed in the cache.
abbrev edited : ℕ → Block
edited b w = if b == 40 || b == 41 then b else 0

abbrev machine : ℕ → Io
machine k = record { disk = zeroes; view = edited; refcnt = λ _. 0; power = k }

log-Fits : Fits log
log-Fits = record { few = omega arith; room = omega arith; home = λ i h. inr (omega arith) }

machine-Ready : (k : ℕ) → Ready log (machine k)
machine-Ready k = record {
  fits = log-Fits;
  idle = refl;
  clean = λ b o h.
      fun_ext λ w. ground (arith, h 0 (omega arith) (omega arith), h 1 (omega arith) (omega arith));
}

commit_undone_example : (after_crash log (machine 2) log 5).disk 40 ≡ zeroes 40
commit_undone_example = commit_undone (machine-Ready 2) log 5 (omega arith) 40 (inr (omega arith))

-- Power fails after the header and one of the two home blocks.
commit_durable_example : (after_crash log (machine 4) log 5).disk 41 ≡ edited 41
commit_durable_example =
    commit_durable (machine-Ready 4) log 5 (omega arith) (omega arith) 41 (inr (omega arith))

abbrev started : Calls
started = record { log = record (idle_log 2 31 (λ i. 0)) { outstanding = 1 }; ops = 0 ∷ [] }

started-Reach : Reach 31 started
unfolding begin_op
started-Reach = later (ready 2 (λ i. 0)) (begin refl)

log_write_succeeds_example :
    (lg : Log) × (new : Bool) × (log_write 40 started.log ≡ some (lg, new)) × (lg.lh.n ≤ logsize)
log_write_succeeds_example =
    log_write_succeeds started-Reach (omega arith) 40 0 [] [] refl (omega arith)

end_op-last_iff_example :
    (lg : Log) × (last : Bool) × (end_op started.log ≡ some (lg, last))
    × ((last ≡ true) ↔ (◌≡◌ {A = List ℕ} [] []))
end_op-last_iff_example = end_op-last_iff started-Reach 0 [] [] refl

-- A disk whose log holds a committed transaction.
abbrev standing : ℕ → Block
standing b = if b == 2 then header two_blocks (zeroes 2) else zeroes b

two_blocks-Distinct : Distinct 2 (λ i. 40 + i)
two_blocks-Distinct i j hi hj e = omega arith

recover_underflow_example : (recover_from_log log (reboot standing 9)).1.refcnt 41 ≡ 2 ^ 32 - 1
recover_underflow_example =
    recover_underflow log two_blocks (zeroes 2) standing 9 1 log-Fits two_blocks-Distinct refl
      (omega arith)
