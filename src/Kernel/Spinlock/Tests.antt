-- ===== src/Kernel/Spinlock/Tests.antt =====
-- The theorems on spin locks with CPU 0 in its critical section.
use learn_mit_s.Common.{ℕ, ◌≡◌, refl, ◌↔◌, inl, true, false, some, List, [], ◌∷◌, update}
use learn_mit_s.Kernel.Spinlock.{Cpu, initlock, holding, test_and_set, acquire_record}
use learn_mit_s.Kernel.Spinlock.Nesting.{
  Call, push, pop, run, nil, pair, IsValid, Restored, Balanced-run,
}
use learn_mit_s.Kernel.Spinlock.Mutex.{
  Pc, inside, Cpus, enter, swap_won, note, Reach, start, later, mutual_exclusion, holding-true_iff,
}

abbrev entered : Cpus
entered = record {
  lock = record { locked = true; cpu = some 0 };
  pc = update (update (update (λ _. Pc.outside) 0 Pc.spinning) 0 Pc.won) 0 inside;
}

entered-Reach : Reach entered
unfolding initlock holding test_and_set acquire_record
entered-Reach = later (later (later start (enter 0 refl refl)) (swap_won 0 refl refl)) (note 0 refl)

mutual_exclusion_example : ◌≡◌ {A = ℕ} 0 0
mutual_exclusion_example = mutual_exclusion entered-Reach 0 0 refl refl

holding-true_iff_example : (holding 0 entered.lock ≡ true) ↔ (entered.pc 0 ≡ inside)
holding-true_iff_example = holding-true_iff entered-Reach 0

abbrev awake : Cpu
awake = record { intr = true; noff = 0; intena = false }

abbrev nested : List Call
nested = push ∷ push ∷ pop ∷ pop ∷ []

Balanced-run_example : (c : Cpu) × (run nested awake ≡ some c) × IsValid c × Restored awake c
Balanced-run_example = Balanced-run (pair (pair nil nil) nil) awake (inl refl)
