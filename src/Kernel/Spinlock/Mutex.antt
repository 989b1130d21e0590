-- ===== src/Kernel/Spinlock/Mutex.antt =====
-- Mutual exclusion of one spin lock, over any number of CPUs and all interleavings of their steps.
use learn_mit_s.Common.{ℕ, ◌≡◌, ◌↔◌, Bool, true, false, some, arith, update}
use learn_mit_s.Kernel.Spinlock.{
  Spinlock, initlock, holding, test_and_set, acquire_record, release_enter, release_unlock,
}

-- Where a CPU stands with the lock: outside; in the loop of `acquire`; behind the swap that found the
-- lock free; in its critical section; in `release` behind `lk->cpu = 0`.
pub data Pc : Type 0 where
  outside spinning won inside leaving : Pc

pub record Cpus : Type 0 where
  pub lock : Spinlock
  pub pc : ℕ → Pc

abbrev moved : Cpus → Spinlock → ℕ → Pc → Cpus
moved s lk c p = record { lock = lk; pc = update s.pc c p }

-- A CPU enters `acquire` only past the test for a lock that it holds already, and leaves its critical
-- section by `release`. Interrupts are off in between, so no handler runs there.
pub data Step (s : Cpus) : Cpus → Type 0 where
  enter : (c : ℕ) → s.pc c ≡ outside → holding c s.lock ≡ false → Step s (moved s s.lock c spinning)
  swap_lost :
      (c : ℕ)
      → s.pc c ≡ spinning
      → (test_and_set s.lock).0 ≡ true
      → Step s (moved s (test_and_set s.lock).1 c spinning)
  swap_won :
      (c : ℕ)
      → s.pc c ≡ spinning
      → (test_and_set s.lock).0 ≡ false
      → Step s (moved s (test_and_set s.lock).1 c won)
  note : (c : ℕ) → s.pc c ≡ won → Step s (moved s (acquire_record c s.lock) c inside)
  leave :
      (c : ℕ) {lk : Spinlock}
      → s.pc c ≡ inside
      → release_enter c s.lock ≡ some lk
      → Step s (moved s lk c leaving)
  unlock : (c : ℕ) → s.pc c ≡ leaving → Step s (moved s (release_unlock s.lock) c outside)

pub data Reach : Cpus → Type 0 where
  start : Reach (record { lock = initlock; pc = λ _. outside })
  later : {s t : Cpus} → Reach s → Step s t → Reach t

-- From the swap that found the lock free to its release.
abbrev pub owns : Pc → Bool
owns outside = false
owns spinning = false
owns _ = true

record Inv (s : Cpus) : Type 0 where
  held : (c : ℕ) → owns (s.pc c) ≡ true → s.lock.locked ≡ true
  single : (c d : ℕ) → owns (s.pc c) ≡ true → owns (s.pc d) ≡ true → c ≡ d
  noted : (c : ℕ) → s.pc c ≡ inside → s.lock.cpu ≡ some c
  other : (c : ℕ) → s.lock.cpu ≡ some c → s.pc c ≡ inside

Step-Inv : {s t : Cpus} → Step s t → Inv s → Inv t
unfolding test_and_set acquire_record release_enter release_unlock
Step-Inv (enter c p h) v = record {
  held = λ d o. ground (arith, v.held d);
  single = λ d e o q. ground (arith, v.single d e);
  noted = λ d o. ground (arith, v.noted d);
  other = λ d o. ground (arith, v.other d);
}
Step-Inv (swap_lost c p h) v = record {
  held = λ d o. ground (arith, v.held d);
  single = λ d e o q. ground (arith, v.single d e);
  noted = λ d o. ground (arith, v.noted d);
  other = λ d o. ground (arith, v.other d);
}
Step-Inv (swap_won c p h) v = record {
  held = λ d o. ground (arith, v.held d);
  single = λ d e o q. ground (arith, v.held d, v.held e);
  noted = λ d o. ground (arith, v.noted d);
  other = λ d o. ground (arith, v.other d, v.held d);
}
Step-Inv (note c p) v = record {
  held = λ d o. ground (arith, v.held d, v.held c);
  single = λ d e o q. ground (arith, v.single d e, v.single c d, v.single c e);
  noted = λ d o. ground (arith, v.noted d, v.single c d);
  other = λ d o. ground (arith, v.other d);
}
Step-Inv (leave c p h) v = record {
  held = λ d o. ground (arith, v.held d, v.held c);
  single = λ d e o q. ground (arith, v.single d e, v.single c d, v.single c e);
  noted = λ d o. ground (arith, v.noted d, v.single c d);
  other = λ d o. ground (arith, v.other d);
}
Step-Inv (unlock c p) v = record {
  held = λ d o. ground (arith, v.held d, v.single c d);
  single = λ d e o q. ground (arith, v.single d e);
  noted = λ d o. ground (arith, v.noted d, v.single c d);
  other = λ d o. ground (arith, v.other d);
}

Reach-Inv : {s : Cpus} → Reach s → Inv s
unfolding initlock
Reach-Inv start = record {
  held = λ c o. cc o;
  single = λ c d o q. cc o;
  noted = λ c o. cc o;
  other = λ c o. cc o;
}
Reach-Inv (later r st) = Step-Inv st (Reach-Inv r)

-- In every reachable state at most one CPU is between the swap that took the lock and its release.
pub mutual_exclusion :
    {s : Cpus} → Reach s → (c d : ℕ) → owns (s.pc c) ≡ true → owns (s.pc d) ≡ true → c ≡ d
mutual_exclusion r = (Reach-Inv r).single

-- `holding` is true on a CPU exactly while that CPU is in its critical section: so `acquire` does not
-- panic for a CPU outside of it, and `release` does not panic for one inside.
pub holding-true_iff :
    {s : Cpus} → Reach s → (c : ℕ) → (holding c s.lock ≡ true) ↔ (s.pc c ≡ inside)
unfolding holding
holding-true_iff {s} r c = (
  λ h. ground (arith, (Reach-Inv r).other c),
  λ e. ground (arith, (Reach-Inv r).noted c e, (Reach-Inv r).held c),
)
