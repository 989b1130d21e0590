-- ===== src/Kernel/Proc/Kill.antt =====
-- `kill` by pid, and what it does to an entry that no process has.
use learn_mit_s.Common.{
  ℕ, zero, suc, ◌+◌, ◌≤◌, ◌<◌, ◌≡◌, refl, ap, ◌∙◌, ◌≢◌, true, false, some, arith, ℕ_discrete,
  if◌then◌else◌, eq→==, ==_ne, update, update_self, update_ne,
}
use mathlib.Core.Path.{subst}
use learn_mit_s.Kernel.Proc.{
  nproc, unused, runnable, is_unused, is_sleeping, Proc, Table, set_proc, find_unused, give_pid,
  allocproc, fork_from, fork, kill_from, kill,
}

-- The entry `p` after a kill.
abbrev pub hit : Proc → Proc
hit p = record p { killed = true; state = if is_sleeping p.state then runnable else p.state }

-- `i` is the first entry with the pid.
pub record First (pid i : ℕ) (t : Table) : Type 0 where
  pub inside : i < nproc
  pub has : (t.proc i).pid ≡ pid
  pub earlier : (j : ℕ) → j < i → (t.proc j).pid ≢ pid

kill_from-hit :
    (r i k pid : ℕ) (t : Table)
    → i ≤ k
    → k < i + r
    → (t.proc k).pid ≡ pid
    → ((j : ℕ) → i ≤ j → j < k → (t.proc j).pid ≢ pid)
    → kill_from r i pid t ≡ (true, set_proc t k (hit (t.proc k)))
unfolding kill_from
kill_from-hit zero i k pid t lo hi e h = absurd (omega arith)
kill_from-hit (suc r) i k pid t lo hi e h = elim (ℕ_discrete i k) [
  | yes q ↦
      subst (λ k. kill_from (suc r) i pid t ≡ (true, set_proc t k (hit (t.proc k)))) q
        (rw (eq→== _ _ (ap (λ k. (t.proc k).pid) q ∙ e)))
  | no ne ↦ rw (==_ne _ _ (h i (omega arith) (omega arith))) (
      kill_from-hit r (i + 1) k pid t (omega arith) (omega arith) e
        (λ j a b. h j (omega arith) (omega arith)))
]

kill_from-miss :
    (r i pid : ℕ) (t : Table)
    → ((j : ℕ) → i ≤ j → j < i + r → (t.proc j).pid ≢ pid)
    → kill_from r i pid t ≡ (false, t)
unfolding kill_from
kill_from-miss zero i pid t h = refl
kill_from-miss (suc r) i pid t h =
    rw (==_ne _ _ (h i (omega arith) (omega arith)))
      (kill_from-miss r (i + 1) pid t (λ j a b. h j (omega arith) (omega arith)))

-- `kill` marks the first entry with the pid as killed, makes it runnable if it sleeps, leaves the rest
-- of the table alone and returns 0.
pub kill-First :
    (pid i : ℕ) (t : Table) → First pid i t → kill pid t ≡ (true, set_proc t i (hit (t.proc i)))
unfolding kill
kill-First pid i t f =
    kill_from-hit nproc 0 i pid t (omega arith) f.inside f.has (λ j a b. f.earlier j b)

-- With no entry of that pid `kill` returns -1 and changes nothing.
pub kill_missing :
    (pid : ℕ) (t : Table) → ((j : ℕ) → j < nproc → (t.proc j).pid ≢ pid) → kill pid t ≡ (false, t)
unfolding kill
kill_missing pid t h = kill_from-miss nproc 0 pid t (λ j a b. h j b)

find_unused_lem :
    (r i k : ℕ) (proc : ℕ → Proc)
    → i ≤ k
    → k < i + r
    → is_unused (proc k).state ≡ true
    → ((j : ℕ) → i ≤ j → j < k → is_unused (proc j).state ≡ false)
    → find_unused r i proc ≡ some k
unfolding find_unused
find_unused_lem zero i k proc lo hi u h = absurd (omega arith)
find_unused_lem (suc r) i k proc lo hi u h = elim (ℕ_discrete i k) [
  | yes q ↦
      subst (λ k. find_unused (suc r) i proc ≡ some k) q
        (rw (ap (λ k. is_unused (proc k).state) q ∙ u))
  | no ne ↦ rw (h i (omega arith) (omega arith)) (
      find_unused_lem r (i + 1) k proc (omega arith) (omega arith) u
        (λ j a b. h j (omega arith) (omega arith)))
]

-- The entry `i` is free, and is the first that is.
pub record FirstFree (i : ℕ) (t : Table) : Type 0 where
  pub free : (t.proc i).state ≡ unused
  pub busy : (j : ℕ) → j < i → is_unused (t.proc j).state ≡ false

pid-give_pid : (i : ℕ) (t : Table) → ((give_pid i t).proc i).pid ≡ t.nextpid
unfolding give_pid
pid-give_pid i t = ap (λ q. q.pid) (update_self t.proc i _)

allocproc_ok :
    (i : ℕ) (t : Table)
    → find_unused nproc 0 t.proc ≡ some i
    → allocproc true true t ≡ (some i, give_pid i t)
unfolding allocproc
allocproc_ok i t e = rw (e, allocproc)

-- The table after a `fork` by `p` that has found the entry `i`.
abbrev forked : ℕ → ℕ → Table → Table
forked i p t =
    set_proc (give_pid i t) i (record ((give_pid i t).proc i) { parent = some p; state = runnable })

fork_ok :
    (i p : ℕ) (t : Table)
    → find_unused nproc 0 t.proc ≡ some i
    → fork true true true p t ≡ (some t.nextpid, forked i p t)
unfolding fork
fork_ok i p t e =
    ap (fork_from true p) (allocproc_ok i t e)
    ∙ (ap (λ (n : ℕ). (some n, forked i p t)) (pid-give_pid i t))

child-killed : (i p : ℕ) (t : Table) → ((forked i p t).proc i).killed ≡ (t.proc i).killed
unfolding give_pid
child-killed i p t =
    ap (λ q. q.killed) (update_self (give_pid i t).proc i _)
    ∙ ap (λ q. q.killed) (update_self t.proc i (record (t.proc i) { pid = t.nextpid }))

-- An entry that is free has the pid 0. If it is the first with that pid and the first that is free,
-- then `kill(0)` returns 0 and marks it, and the next process that `fork` makes, which gets that entry,
-- is marked as killed from its start.
pub kill_zero :
    (i p : ℕ) (t : Table)
    → First 0 i t
    → FirstFree i t
    → ((kill 0 t).0 ≡ true)
      × ((fork true true true p (kill 0 t).1).0 ≡ some t.nextpid)
      × (((fork true true true p (kill 0 t).1).1.proc i).killed ≡ true)
kill_zero i p t f g =
    let e = kill-First 0 i t f in
    let made = fork_ok i p (kill 0 t).1 (found e) in
    (
      ap (λ r. r.0) e,
      ap (λ r. r.0) made ∙ ap (λ r. some (r.1.nextpid)) e,
      ap (λ r. (r.1.proc i).killed) made
          ∙ child-killed i p (kill 0 t).1
          ∙ ap (λ r. (r.1.proc i).killed) e
          ∙ ap (λ q. q.killed) (update_self t.proc i (hit (t.proc i))),
    )
  where
    still : (j : ℕ) → j < i → is_unused (update t.proc i (hit (t.proc i)) j).state ≡ false
    still j lt = ap (λ q. is_unused q.state) (update_ne t.proc i _ j (omega arith)) ∙ g.busy j lt

    hit-free : is_unused (hit (t.proc i)).state ≡ true
    hit-free = ap (λ s. is_unused (if is_sleeping s then runnable else s)) g.free

    found :
        kill 0 t ≡ (true, set_proc t i (hit (t.proc i)))
        → find_unused nproc 0 (kill 0 t).1.proc ≡ some i
    found e =
        ap (λ r. find_unused nproc 0 r.1.proc) e
        ∙ find_unused_lem nproc 0 i _ (omega arith) f.inside
            (ap (λ q. is_unused q.state) (update_self t.proc i (hit (t.proc i))) ∙ hit-free)
            (λ j a b. still j b)
