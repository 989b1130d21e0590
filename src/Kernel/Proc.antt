-- ===== src/Kernel/Proc.antt =====
-- lab1/kernel/proc.c: the process table and the states of its processes.
-- A `struct proc *` is an index into the table. Each loop body under `p->lock` is one step, and the
-- memory, files, name and saved registers of a process are left out; whether an allocation or a copy
-- that they need goes through is an argument.
pub mod Scan
pub mod Kill
mod Tests
use learn_mit_s.Common.{
  ℕ, zero, suc, ◌+◌, Bool, true, false, not, ◌&&◌, ◌||◌, Option, none, some, ◌==◌, if◌then◌else◌,
  update,
}

abbrev pub nproc : ℕ
nproc = 64

pub data ProcState : Type 0 where
  unused sleeping runnable running zombie : ProcState

abbrev pub is_unused : ProcState → Bool
is_unused unused = true
is_unused _ = false

abbrev pub is_sleeping : ProcState → Bool
is_sleeping sleeping = true
is_sleeping _ = false

abbrev pub is_runnable : ProcState → Bool
is_runnable runnable = true
is_runnable _ = false

abbrev pub is_zombie : ProcState → Bool
is_zombie zombie = true
is_zombie _ = false

-- What a process sleeps on: an entry of the table, or another address; 0 is no channel.
pub data Chan : Type 0 where
  on_proc : ℕ → Chan
  on_addr : ℕ → Chan

abbrev pub is_chan : Chan → Chan → Bool
is_chan (on_proc p) (on_proc q) = p == q
is_chan (on_addr a) (on_addr b) = a == b
is_chan _ _ = false

abbrev pub no_chan : Chan
no_chan = on_addr 0

pub record Proc : Type 0 where
  pub state : ProcState
  pub parent : Option ℕ
  pub chan : Chan
  pub killed : Bool
  pub xstate : ℕ
  pub pid : ℕ

pub record Table : Type 0 where
  pub proc : ℕ → Proc
  pub nextpid : ℕ
  pub initproc : ℕ

abbrev pub set_proc : Table → ℕ → Proc → Table
set_proc t i p = record t { proc = update t.proc i p }

abbrev pub is_parent : ℕ → Option ℕ → Bool
is_parent p none = false
is_parent p (some q) = q == p

-- The first unused entry of the `r` entries from `i` on.
unfoldable pub find_unused : ℕ → ℕ → (ℕ → Proc) → Option ℕ
find_unused zero i proc = none
find_unused (suc r) i proc =
    let rest = find_unused r (i + 1) proc in if is_unused (proc i).state then some i else rest

unfoldable pub freeproc : ℕ → Table → Table
freeproc i t =
    set_proc t i (record {
      state = unused;
      parent = none;
      chan = no_chan;
      killed = false;
      xstate = 0;
      pid = 0;
    })

-- `allocpid`, and the entry `i` given the new pid.
unfoldable pub give_pid : ℕ → Table → Table
give_pid i t = record t {
  proc = update t.proc i (record (t.proc i) { pid = t.nextpid });
  nextpid = t.nextpid + 1;
}

-- The entry found and the table. The Booleans: the trapframe page and the page table were allocated.
unfoldable pub allocproc : Bool → Bool → Table → Option ℕ × Table
allocproc trapframe pagetable t = elim (find_unused nproc 0 t.proc) [
  | none ↦ (none, t)
  | some i ↦
      if not trapframe
      then (none, give_pid i t)
      else if not pagetable
      then (none, freeproc i (give_pid i t))
      else (some i, give_pid i t)
]

-- `fork` behind the call of `allocproc`; the Boolean: the memory was copied.
abbrev pub fork_from : Bool → ℕ → Option ℕ × Table → Option ℕ × Table
fork_from copied p (none, t) = (none, t)
fork_from copied p (some i, t) = if not copied then (none, freeproc i t) else (
  some (t.proc i).pid,
  set_proc t i (record (t.proc i) { parent = some p; state = runnable }),
)

-- `fork` by the process `p`, with -1 as `none`.
unfoldable pub fork : Bool → Bool → Bool → ℕ → Table → Option ℕ × Table
fork trapframe pagetable copied p t = fork_from copied p (allocproc trapframe pagetable t)

-- The loop of `reparent` over the `r` entries from `i` on.
unfoldable pub reparent_from : ℕ → ℕ → ℕ → Table → Table
reparent_from zero i p t = t
reparent_from (suc r) i p t = reparent_from r (i + 1) p (
    if is_parent p (t.proc i).parent
    then set_proc t i (record (t.proc i) { parent = some t.initproc })
    else t)

unfoldable pub reparent : ℕ → Table → Table
reparent p t = reparent_from nproc 0 p t

unfoldable pub wakeup1 : ℕ → Table → Table
wakeup1 p t =
    if is_chan (t.proc p).chan (on_proc p) && is_sleeping (t.proc p).state
    then set_proc t p (record (t.proc p) { state = runnable })
    else t

abbrev pub wake : ℕ → Option ℕ → Table → Table
wake p none t = t
wake p (some q) t = wakeup1 q t

-- `exit`: `none` is the panic of init. The parent is read before the children are given away.
unfoldable pub exit : ℕ → ℕ → Table → Option Table
exit p status t =
    let t1 = wakeup1 t.initproc t in
    let parent = (t1.proc p).parent in
    let t2 = wake p parent (reparent p t1) in
    if p == t.initproc
    then none
    else some (set_proc t2 p (record (t2.proc p) { xstate = status; state = zombie }))

-- The loop of `wakeup` over the `r` entries from `i` on.
unfoldable pub wakeup_from : ℕ → ℕ → Chan → Table → Table
wakeup_from zero i chan t = t
wakeup_from (suc r) i chan t = wakeup_from r (i + 1) chan (
    if is_sleeping (t.proc i).state && is_chan (t.proc i).chan chan
    then set_proc t i (record (t.proc i) { state = runnable })
    else t)

unfoldable pub wakeup : Chan → Table → Table
wakeup chan t = wakeup_from nproc 0 chan t

-- `kill` over the `r` entries from `i` on: whether it returns 0, and the table.
unfoldable pub kill_from : ℕ → ℕ → ℕ → Table → Bool × Table
kill_from zero i pid t = (false, t)
kill_from (suc r) i pid t =
    let rest = kill_from r (i + 1) pid t in
    let p = t.proc i in
    if p.pid == pid
    then (
      true,
      set_proc t i
          (record p { killed = true; state = if is_sleeping p.state then runnable else p.state }),
    )
    else rest

unfoldable pub kill : ℕ → Table → Bool × Table
kill pid t = kill_from nproc 0 pid t

-- What a scan of `wait` ends with.
pub data Waited : Type 0 where
  reaped : (pid xstate : ℕ) → Table → Waited
  failed : Waited
  asleep : Table → Waited

-- `sleep(chan, &p->lock)` up to `sched`.
unfoldable pub go_to_sleep : ℕ → Chan → Table → Table
go_to_sleep p chan t = set_proc t p (record (t.proc p) { chan = chan; state = sleeping })

-- The tidying up of `sleep` when the process runs again.
unfoldable pub woken : ℕ → Table → Table
woken p t = set_proc t p (record (t.proc p) { chan = no_chan })

-- The scan over the `r` entries from `i` on; `copied` tells whether the status could be copied out, or
-- was not wanted.
unfoldable pub wait_from : ℕ → ℕ → Bool → Bool → ℕ → Table → Waited
wait_from zero i havekids copied p t =
    if not havekids || (t.proc p).killed then failed else asleep (go_to_sleep p (on_proc p) t)
wait_from (suc r) i havekids copied p t =
    let np = t.proc i in
    let kin = is_parent p np.parent in
    let rest = wait_from r (i + 1) (havekids || kin) copied p t in
    if kin && is_zombie np.state
    then (if not copied then failed else reaped np.pid np.xstate (freeproc i t))
    else rest

unfoldable pub wait : Bool → ℕ → Table → Waited
wait copied p t = wait_from nproc 0 false copied p t

-- One entry of the scheduler's loop: `none` if it is not runnable.
unfoldable pub dispatch : ℕ → Table → Option Table
dispatch i t =
    if is_runnable (t.proc i).state
    then some (set_proc t i (record (t.proc i) { state = running }))
    else none

unfoldable pub yield_cpu : ℕ → Table → Table
yield_cpu p t = set_proc t p (record (t.proc p) { state = runnable })
