-- ===== src/Kernel/Proc/Scan.antt =====
-- What the scans of the process table do, entry by entry.
use learn_mit_s.Common.{
  ℕ, zero, suc, ◌+◌, ◌≤◌, ◌<◌, ◌≡◌, refl, sym, ap, ap₂, ◌∙◌, inl, inr, Bool, true, false, ◌&&◌,
  some, arith, ℕ_discrete, ◌==◌, if◌then◌else◌, ==→eq, ==_refl, ==_ne, Bool-cases,
}
use mathlib.Core.Path.{subst}
use learn_mit_s.Kernel.Proc.{
  nproc, runnable, is_sleeping, Chan, is_chan, Proc, Table, is_parent, set_proc, reparent_from,
  reparent, wakeup_from, wakeup,
}

-- The entry `p` after a wakeup of the sleepers on `chan`.
abbrev pub woke : Chan → Proc → Proc
woke chan p =
    if is_sleeping p.state && is_chan p.chan chan then record p { state = runnable } else p

-- The entry `q` after the children of `p` have gone to `init`.
abbrev pub given_away : ℕ → ℕ → Proc → Proc
given_away p init q = if is_parent p q.parent then record q { parent = some init } else q

-- One entry of the table is changed, or is left where the test fails.
if-set_proc :
    (c : Bool) (t : Table) (i : ℕ) (q : Proc) (j : ℕ)
    → (if c then set_proc t i q else t).proc j
      ≡ (if i == j then (if c then q else t.proc i) else t.proc j)
if-set_proc true t i q j = refl
if-set_proc false t i q j = elim (Bool-cases (i == j)) [
  | inl e ↦ rw e (ap t.proc (sym (==→eq i j e)))
  | inr e ↦ rw e
]

if-initproc :
    (c : Bool) (t : Table) (i : ℕ) (q : Proc)
    → (if c then set_proc t i q else t).initproc ≡ t.initproc
if-initproc true t i q = refl
if-initproc false t i q = refl

wakeup_from_below :
    (r i j : ℕ) (chan : Chan) (t : Table) → j < i → (wakeup_from r i chan t).proc j ≡ t.proc j
unfolding wakeup_from
wakeup_from_below zero i j chan t lt = refl
wakeup_from_below (suc r) i j chan t lt =
    wakeup_from_below r (i + 1) j chan _ (omega arith)
    ∙ if-set_proc _ t i _ j
    ∙ rw (==_ne i j (omega arith))

wakeup_from_lem :
    (r i j : ℕ) (chan : Chan) (t : Table)
    → i ≤ j
    → j < i + r
    → (wakeup_from r i chan t).proc j ≡ woke chan (t.proc j)
unfolding wakeup_from
wakeup_from_lem zero i j chan t lo hi = absurd (omega arith)
wakeup_from_lem (suc r) i j chan t lo hi = elim (ℕ_discrete i j) [
  | yes e ↦
      wakeup_from_below r (i + 1) j chan _ (omega arith)
      ∙ if-set_proc _ t i _ j
      ∙ subst (λ k. (if i == k then woke_at i else t.proc k) ≡ woke chan (t.proc k)) e
          (rw (==_refl i))
  | no ne ↦
      wakeup_from_lem r (i + 1) j chan _ (omega arith) (omega arith)
      ∙ ap (woke chan) {y = t.proc j} (if-set_proc _ t i _ j ∙ rw (==_ne i j ne))
]
  where
    woke_at : ℕ → Proc
    woke_at k = woke chan (t.proc k)

-- `wakeup` makes every process that sleeps on the channel runnable, and changes nothing else in the
-- table.
pub wakeup_lem :
    (chan : Chan) (t : Table) (j : ℕ) → j < nproc → (wakeup chan t).proc j ≡ woke chan (t.proc j)
unfolding wakeup
wakeup_lem chan t j h = wakeup_from_lem nproc 0 j chan t (omega arith) h

reparent_from_below : (r i j p : ℕ) (t : Table) → j < i → (reparent_from r i p t).proc j ≡ t.proc j
unfolding reparent_from
reparent_from_below zero i j p t lt = refl
reparent_from_below (suc r) i j p t lt =
    reparent_from_below r (i + 1) j p _ (omega arith)
    ∙ if-set_proc _ t i _ j
    ∙ rw (==_ne i j (omega arith))

reparent_from-initproc : (r i p : ℕ) (t : Table) → (reparent_from r i p t).initproc ≡ t.initproc
unfolding reparent_from
reparent_from-initproc zero i p t = refl
reparent_from-initproc (suc r) i p t = reparent_from-initproc r (i + 1) p _ ∙ if-initproc _ t i _

reparent_from_lem :
    (r i j p : ℕ) (t : Table)
    → i ≤ j
    → j < i + r
    → (reparent_from r i p t).proc j ≡ given_away p t.initproc (t.proc j)
unfolding reparent_from
reparent_from_lem zero i j p t lo hi = absurd (omega arith)
reparent_from_lem (suc r) i j p t lo hi = elim (ℕ_discrete i j) [
  | yes e ↦
      reparent_from_below r (i + 1) j p _ (omega arith)
      ∙ if-set_proc _ t i _ j
      ∙ subst (λ k. (if i == k then gone i else t.proc k) ≡ given_away p t.initproc (t.proc k)) e
          (rw (==_refl i))
  | no ne ↦
      reparent_from_lem r (i + 1) j p _ (omega arith) (omega arith)
      ∙ ap₂ (given_away p) {v = t.proc j} (if-initproc _ t i _)
          (if-set_proc _ t i _ j ∙ rw (==_ne i j ne))
]
  where
    gone : ℕ → Proc
    gone k = given_away p t.initproc (t.proc k)

-- `reparent` gives exactly the children of `p` to init.
pub reparent_lem :
    (p : ℕ) (t : Table) (j : ℕ)
    → j < nproc
    → (reparent p t).proc j ≡ given_away p t.initproc (t.proc j)
unfolding reparent
reparent_lem p t j h = reparent_from_lem nproc 0 j p t (omega arith) h
