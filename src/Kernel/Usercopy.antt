-- ===== src/Kernel/Usercopy.antt =====
-- lab1/kernel/vm.c and lab1/kernel/proc.c: copies between kernel and user memory, over a memory of bytes;
-- page tables are in Kernel.Vm, whose `walkaddr` only reads. A copy gives true for 0, false for -1.
pub mod In
mod Tests
use learn_mit_s.Common.{
  ℕ, zero, suc, ◌+◌, ◌-◌, min, Bool, true, false, Option, none, some, ◌==◌, if◌then◌else◌, update,
}
use learn_mit_s.Kernel.Kalloc.{pgsize, Kmem}
use learn_mit_s.Kernel.Vm.{Run, done, panicked, out_of_fuel, pgrounddown, walkaddr}
use learn_mit_s.Kernel.Str.{Mem, memmove}

-- What a call that only reads answered; `walkaddr` always answers (`walkaddr-done`).
abbrev pub answer : Run ℕ → ℕ
answer (done pa s) = pa
answer panicked = 0
answer out_of_fuel = 0

unfoldable pub translate : ℕ → Kmem → ℕ → ℕ
translate pagetable s va0 = answer (walkaddr pagetable va0 s)

-- `n = PGSIZE - (va - va0); if(n > len) n = len`
abbrev pub chunk : ℕ → ℕ → ℕ
chunk va len = min (pgsize - (va - pgrounddown va)) len

-- The loops; a round copies at least a byte, so more fuel than bytes is enough. `addr` is the table.
unfoldable pub copyin_from : ℕ → (ℕ → ℕ) → ℕ → ℕ → ℕ → Mem → Option (Bool × Mem)
copyin_from zero addr dst srcva len m = none
copyin_from (suc fuel) addr dst srcva len m =
    let va0 = pgrounddown srcva in
    let pa0 = addr va0 in
    let n = chunk srcva len in
    let rest =
      copyin_from fuel addr (dst + n) (va0 + pgsize) (len - n)
        (memmove dst (pa0 + (srcva - va0)) n m) in
    if len == 0 then some (true, m) else if pa0 == 0 then some (false, m) else rest

unfoldable pub copyin : ℕ → Kmem → ℕ → ℕ → ℕ → Mem → Option (Bool × Mem)
unfolding copyin_from
copyin pagetable s dst srcva len m = copyin_from (len + 1) (translate pagetable s) dst srcva len m

unfoldable pub copyout_from : ℕ → (ℕ → ℕ) → ℕ → ℕ → ℕ → Mem → Option (Bool × Mem)
copyout_from zero addr dstva src len m = none
copyout_from (suc fuel) addr dstva src len m =
    let va0 = pgrounddown dstva in
    let pa0 = addr va0 in
    let n = chunk dstva len in
    let rest =
      copyout_from fuel addr (va0 + pgsize) (src + n) (len - n)
        (memmove (pa0 + (dstva - va0)) src n m) in
    if len == 0 then some (true, m) else if pa0 == 0 then some (false, m) else rest

unfoldable pub copyout : ℕ → Kmem → ℕ → ℕ → ℕ → Mem → Option (Bool × Mem)
unfolding copyout_from
copyout pagetable s dstva src len m = copyout_from (len + 1) (translate pagetable s) dstva src len m

-- The inner loop of `copyinstr`, with `n` bytes left in the page: whether it met the terminator.
unfoldable pub copy_string : ℕ → ℕ → ℕ → Mem → Bool × Mem
copy_string zero dst p m = (false, m)
copy_string (suc n) dst p m =
    let rest = copy_string n (dst + 1) (p + 1) (update m dst (m p)) in
    if m p == 0 then (true, update m dst 0) else rest

unfoldable pub copyinstr_from : ℕ → (ℕ → ℕ) → ℕ → ℕ → ℕ → Mem → Option (Bool × Mem)
unfolding copy_string
copyinstr_from zero addr dst srcva max m = none
copyinstr_from (suc fuel) addr dst srcva max m =
    let va0 = pgrounddown srcva in
    let pa0 = addr va0 in
    let n = chunk srcva max in
    let (got_null, m1) = copy_string n dst (pa0 + (srcva - va0)) m in
    let rest = copyinstr_from fuel addr (dst + n) (va0 + pgsize) (max - n) m1 in
    if max == 0
    then some (false, m)
    else if pa0 == 0
    then some (false, m)
    else if got_null
    then some (true, m1)
    else rest

unfoldable pub copyinstr : ℕ → Kmem → ℕ → ℕ → ℕ → Mem → Option (Bool × Mem)
unfolding copyinstr_from
copyinstr pagetable s dst srcva max m =
    copyinstr_from (max + 1) (translate pagetable s) dst srcva max m

-- `pagetable` is that of `myproc()`.
unfoldable pub either_copyout : ℕ → Kmem → Bool → ℕ → ℕ → ℕ → Mem → Option (Bool × Mem)
unfolding copyout
either_copyout pagetable s user_dst dst src len m =
    let user = copyout pagetable s dst src len m in
    if user_dst then user else some (true, memmove dst src len m)

unfoldable pub either_copyin : ℕ → Kmem → ℕ → Bool → ℕ → ℕ → Mem → Option (Bool × Mem)
unfolding copyin
either_copyin pagetable s dst user_src src len m =
    let user = copyin pagetable s dst src len m in
    if user_src then user else some (true, memmove dst src len m)
