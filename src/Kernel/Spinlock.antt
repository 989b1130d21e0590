-- ===== src/Kernel/Spinlock.antt =====
-- lab1/kernel/spinlock.c: spin locks, and the nesting count that keeps interrupts off while one is
-- held. A CPU is a number; the fences of the code are the sequential order of the steps.
pub mod Nesting
pub mod Mutex
mod Tests
use learn_mit_s.Common.{
  ℕ, ◌+◌, ◌-◌, Bool, true, false, not, ◌&&◌, Option, none, some, ltb, ◌==◌, if◌then◌else◌,
}

-- The fields of `struct cpu` that push_off and pop_off use, with the interrupt enable bit.
pub record Cpu : Type 0 where
  pub intr : Bool
  pub noff : ℕ
  pub intena : Bool

pub record Spinlock : Type 0 where
  pub locked : Bool
  pub cpu : Option ℕ

unfoldable pub initlock : Spinlock
initlock = record { locked = false; cpu = none }

unfoldable pub push_off : Cpu → Cpu
push_off c = record {
  intr = false;
  noff = c.noff + 1;
  intena = if c.noff == 0 then c.intr else c.intena;
}

-- `none` is a panic.
unfoldable pub pop_off : Cpu → Option Cpu
pop_off c =
    if c.intr
    then none
    else if ltb c.noff 1
    then none
    else some (record { intr = c.noff - 1 == 0 && c.intena; noff = c.noff - 1; intena = c.intena })

abbrev pub is_cpu : Option ℕ → ℕ → Bool
is_cpu none c = false
is_cpu (some d) c = d == c

-- `lk->locked && lk->cpu == mycpu()`
unfoldable pub holding : ℕ → Spinlock → Bool
holding c lk = lk.locked && is_cpu lk.cpu c

-- `acquire` up to its loop: `none` is the panic.
unfoldable pub acquire_enter : ℕ → Cpu → Spinlock → Option Cpu
unfolding holding push_off
acquire_enter c cpu lk = if holding c lk then none else some (push_off cpu)

-- `__sync_lock_test_and_set(&lk->locked, 1)`: the old value and the lock.
unfoldable pub test_and_set : Spinlock → Bool × Spinlock
test_and_set lk = (lk.locked, record lk { locked = true })

-- `lk->cpu = mycpu()`
unfoldable pub acquire_record : ℕ → Spinlock → Spinlock
acquire_record c lk = record lk { cpu = some c }

-- `release` up to its fence: `none` is the panic.
unfoldable pub release_enter : ℕ → Spinlock → Option Spinlock
unfolding holding
release_enter c lk = if not (holding c lk) then none else some (record lk { cpu = none })

-- `__sync_lock_release(&lk->locked)`
unfoldable pub release_unlock : Spinlock → Spinlock
release_unlock lk = record lk { locked = false }
