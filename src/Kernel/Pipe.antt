-- ===== src/Kernel/Pipe.antt =====
-- lab1/kernel/pipe.c: a pipe of 512 bytes between processes. `nread` and `nwrite` are `uint`s that
-- count all bytes and wrap. Everything between two sleeps runs under `pi->lock` and is one step: a call
-- returns or sleeps, and one that sleeps goes on at the same byte in the pipe that it wakes up to.
-- The wakeups of the other side come before each sleep of a writer and each return but that of -1.
-- `user a` is what `copyin` finds at the user address `a`, `none` for its failure, and `writable a`
-- tells whether `copyout` succeeds there (both are of vm.c); `killed` is the flag of the process.
pub mod Contents
pub mod Transfer
mod Tests
use learn_mit_s.Common.{
  ℕ, zero, suc, ◌+◌, ◌%◌, ◌^◌, Bool, true, false, not, ◌&&◌, ◌||◌, Option, none, some, List, [],
  ◌∷◌, ◌==◌, if◌then◌else◌, length, update, ℤ, pos, negsuc,
}

abbrev pub pipesize : ℕ
pipesize = 512

-- `uint` addition
abbrev pub add32 : ℕ → ℕ → ℕ
add32 a b = (a + b) % 2 ^ 32

pub record Pipe : Type 0 where
  pub bytes : ℕ → ℕ
  pub nread : ℕ
  pub nwrite : ℕ
  pub readopen : Bool
  pub writeopen : Bool

-- The pipe that `pipealloc` sets up in a fresh page, whose bytes are what the page held.
unfoldable pub fresh_pipe : (ℕ → ℕ) → Pipe
fresh_pipe page = record { bytes = page; nread = 0; nwrite = 0; readopen = true; writeopen = true }

-- The pipe after `pipeclose`, and whether its page is freed.
unfoldable pub pipeclose : Pipe → Bool → Pipe × Bool
pipeclose pi writable =
    let pi' =
      if writable then record pi { writeopen = false } else record pi { readopen = false } in
    (pi', not pi'.readopen && not pi'.writeopen)

-- `pi->data[pi->nwrite++ % PIPESIZE] = ch`
unfoldable pub put : ℕ → Pipe → Pipe
put ch pi = record pi {
  bytes = update pi.bytes (pi.nwrite % pipesize) ch;
  nwrite = add32 pi.nwrite 1;
}

-- `ch = pi->data[pi->nread++ % PIPESIZE]`, for a pipe that is not empty.
unfoldable pub get : Pipe → ℕ × Pipe
get pi = (pi.bytes (pi.nread % pipesize), record pi { nread = add32 pi.nread 1 })

-- A call has returned `r`, or sleeps with `i` bytes done.
pub data Outcome : Type 0 where
  returns : (r : ℤ) → Pipe → Outcome
  sleeps : (i : ℕ) → Pipe → Outcome

module _ (user : ℕ → Option ℕ) (addr : ℕ) (killed : Bool) where
  -- The loop at byte `i`, with `r` bytes left.
  unfoldable pub write_from : ℕ → ℕ → Pipe → Outcome
  unfolding put
  write_from zero i pi = returns (pos i) pi
  write_from (suc r) i pi =
      let wait = if not pi.readopen || killed then returns (negsuc 0) pi else sleeps i pi in
      let copy : Outcome = elim (user (addr + i)) [
        | none ↦ returns (pos i) pi
        | some ch ↦ write_from r (i + 1) (put ch pi)
      ] in
      if pi.nwrite == add32 pi.nread pipesize then wait else copy

  unfoldable pub pipewrite : ℕ → Pipe → Outcome
  unfolding write_from
  pipewrite n pi = write_from n 0 pi

module _ (writable : ℕ → Bool) (addr : ℕ) where
  -- The copying loop at byte `i`, with `r` bytes left: the bytes delivered and the pipe. A byte that
  -- `copyout` refuses has left the pipe.
  unfoldable pub read_from : ℕ → ℕ → Pipe → List ℕ × Pipe
  read_from zero i pi = ([], pi)
  read_from (suc r) i pi =
      let (ch, pi') = get pi in
      let (out, pi'') = read_from r (i + 1) pi' in
      if pi.nread == pi.nwrite
      then ([], pi)
      else if not (writable (addr + i))
      then ([], pi')
      else (ch ∷ out, pi'')

  -- The bytes delivered, with the outcome. A reader sleeps only before the first byte.
  unfoldable pub piperead : Bool → ℕ → Pipe → List ℕ × Outcome
  piperead killed n pi =
      let (out, pi') = read_from n 0 pi in
      if pi.nread == pi.nwrite && pi.writeopen
      then (if killed then ([], returns (negsuc 0) pi) else ([], sleeps 0 pi))
      else (out, returns (pos (length out)) pi')
