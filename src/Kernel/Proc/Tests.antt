-- ===== src/Kernel/Proc/Tests.antt =====
-- The theorems on the process table at one with init and a sleeping child.
use learn_mit_s.Common.{ℕ, zero, suc, ◌<◌, ◌≡◌, refl, ◌≢◌, Bool, true, false, none, some, arith}
use learn_mit_s.Kernel.Proc.{unused, sleeping, runnable, on_proc, no_chan, Proc, Table, fork, kill}
use learn_mit_s.Kernel.Proc.Kill.{First, FirstFree, kill_zero}

abbrev free_entry : Proc
free_entry = record {
  state = unused;
  parent = none;
  chan = no_chan;
  killed = false;
  xstate = 0;
  pid = 0;
}

-- init at 0, and at 1 its child, which sleeps on itself.
abbrev entries : ℕ → Proc
entries zero = record free_entry { state = runnable; pid = 1 }
entries (suc zero) = record free_entry {
  state = sleeping;
  parent = some 0;
  chan = on_proc 1;
  pid = 2;
}
entries _ = free_entry

abbrev table : Table
table = record { proc = entries; nextpid = 3; initproc = 0 }

second : First 2 1 table
second = record { inside = omega arith; has = refl; earlier = before }
  where
    before : (j : ℕ) → j < 1 → (entries j).pid ≢ 2
    before zero h = λ e. omega arith
    before (suc j) h = absurd (omega arith)

zero_pid : First 0 2 table
zero_pid = record { inside = omega arith; has = refl; earlier = before }
  where
    before : (j : ℕ) → j < 2 → (entries j).pid ≢ 0
    before zero h = λ e. omega arith
    before (suc zero) h = λ e. omega arith
    before (suc (suc j)) h = absurd (omega arith)

third_free : FirstFree 2 table
third_free = record { free = refl; busy = before }
  where
    before :
        (j : ℕ)
        → j < 2
        → (elim (entries j).state as (λ s. Bool) [ unused ↦ true | _ ↦ false ]) ≡ false
    before zero h = refl
    before (suc zero) h = refl
    before (suc (suc j)) h = absurd (omega arith)

kill_zero_example :
    ((kill 0 table).0 ≡ true)
    × ((fork true true true 0 (kill 0 table).1).0 ≡ some 3)
    × (((fork true true true 0 (kill 0 table).1).1.proc 2).killed ≡ true)
kill_zero_example = kill_zero 2 0 table zero_pid third_free
