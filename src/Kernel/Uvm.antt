-- ===== src/Kernel/Uvm.antt =====
-- lab1/kernel/vm.c: the kernel's table, and the memory of user processes. `endk` is the end of the kernel,
-- which `kfree` tests against; `etext` and `trampoline` are set by the linker.
pub mod Unmap
mod Tests
use learn_mit_s.Common.{
  ℕ, zero, suc, ◌+◌, ◌-◌, ◌*◌, ◌/◌, ◌%◌, Bool, true, false, not, ◌&&◌, Option, none, some, ltb, leb,
  ◌==◌, if◌then◌else◌,
}
use learn_mit_s.Kernel.Kalloc.{pgsize, phystop, null, pgroundup, Kmem, fill_page, kalloc, kfree}
use learn_mit_s.Kernel.Vm.{
  Run, done, panicked, out_of_fuel, M, bind_run, ◌>>=◌, ◌>>◌, pure, panic, maxva, is_valid, is_user,
  pte2pa, pte_flags, store_word, zalloc, walk, mappages,
}

abbrev pub read_word : ℕ → M ℕ
read_word a s = done (s.mem a) s

abbrev pub write_word : ℕ → ℕ → M (Unit {0})
write_word a v s = done tt (store_word a v s)

abbrev pub run_kalloc : M ℕ
run_kalloc s = let (p, s1) = kalloc s in done p s1

abbrev pub clear : ℕ → M (Unit {0})
clear p s = done tt (record s { mem = fill_page p 0 s.mem })

abbrev pub freed : Option Kmem → Run (Unit {0})
freed none = panicked
freed (some s) = done tt s

abbrev pub run_kfree : ℕ → ℕ → M (Unit {0})
run_kfree endk pa s = freed (kfree endk pa s)

-- `memmove(dst, src, PGSIZE)` of whole pages.
unfoldable pub copy_page : ℕ → ℕ → M (Unit {0})
copy_page dst src s = done tt (record s {
  mem = λ a. if leb dst a && ltb a (dst + pgsize) then s.mem (src + (a - dst)) else s.mem a;
})

unfoldable pub kvmmap : ℕ → ℕ → ℕ → ℕ → ℕ → M (Unit {0})
unfolding mappages
kvmmap kernel va pa sz perm = do ok ← mappages kernel va sz pa perm; if ok then pure tt else panic

unfoldable pub kvmpa : ℕ → ℕ → M ℕ
unfolding walk
kvmpa kernel va = do
  found ← walk kernel va false
  elim found [
    | none ↦ panic
    | some pte ↦ do w ← read_word pte; if is_valid w then pure (pte2pa w + va % pgsize) else panic
  ]

abbrev pub kernbase : ℕ
kernbase = 0x8000_0000

-- The kernel's table: `PTE_R | PTE_W` is 6, `PTE_R | PTE_X` is 10.
unfoldable pub kvminit : ℕ → ℕ → M ℕ
unfolding kvmmap
kvminit etext trampoline = do
  kernel ← run_kalloc
  clear kernel
  kvmmap kernel 0x1000_0000 0x1000_0000 pgsize 6
  kvmmap kernel 0x1000_1000 0x1000_1000 pgsize 6
  kvmmap kernel 0x200_0000 0x200_0000 0x1_0000 6
  kvmmap kernel 0xc00_0000 0xc00_0000 0x40_0000 6
  kvmmap kernel kernbase kernbase (etext - kernbase) 10
  kvmmap kernel etext etext (phystop - etext) 6
  kvmmap kernel (maxva - pgsize) trampoline pgsize 10
  pure kernel

-- The end of a round of `uvmunmap` for the entry `pte`.
unfoldable pub unmap_entry : ℕ → Bool → ℕ → M (Unit {0})
unmap_entry endk do_free pte = do
  w ← read_word pte
  if not (is_valid w)
      then panic
      else if pte_flags w == 1
      then panic
      else (do if do_free then run_kfree endk (pte2pa w) else pure tt; write_word pte 0)

-- The loop of `uvmunmap`, with `npages` rounds left.
unfoldable pub uvmunmap_from : ℕ → ℕ → ℕ → ℕ → Bool → M (Unit {0})
unfolding walk unmap_entry
uvmunmap_from endk pagetable a zero do_free = pure tt
uvmunmap_from endk pagetable a (suc npages) do_free =
    let rest = uvmunmap_from endk pagetable (a + pgsize) npages do_free in
    do
      found ← walk pagetable a false
      elim found [ none ↦ panic | some pte ↦ do unmap_entry endk do_free pte; rest ]

unfoldable pub uvmunmap : ℕ → ℕ → ℕ → ℕ → Bool → M (Unit {0})
unfolding uvmunmap_from
uvmunmap endk pagetable va npages do_free =
    if not (va % pgsize == 0) then panic else uvmunmap_from endk pagetable va npages do_free

-- The table, or 0.
unfoldable pub uvmcreate : M ℕ
uvmcreate s = let (p, s1) = zalloc s in done p s1

-- Sizes are below `MAXVA`, so no sum wraps and the number of pages fits an `int`.
unfoldable pub uvmdealloc : ℕ → ℕ → ℕ → ℕ → M ℕ
unfolding uvmunmap pgroundup
uvmdealloc endk pagetable oldsz newsz =
    if leb oldsz newsz
    then pure oldsz
    else if ltb (pgroundup newsz) (pgroundup oldsz)
    then (do
      uvmunmap endk pagetable (pgroundup newsz) ((pgroundup oldsz - pgroundup newsz) / pgsize) true
      pure newsz)
    else pure newsz

-- The loop of `uvmalloc` at `a`, from the rounded `oldsz`: the new size, or 0. The fuel counts pages.
-- `PTE_W | PTE_X | PTE_R | PTE_U` is 30.
unfoldable pub uvmalloc_from : ℕ → ℕ → ℕ → ℕ → ℕ → ℕ → M ℕ
unfolding mappages uvmdealloc
uvmalloc_from zero endk pagetable a oldsz newsz = λ s. out_of_fuel
uvmalloc_from (suc fuel) endk pagetable a oldsz newsz =
    let rest = uvmalloc_from fuel endk pagetable (a + pgsize) oldsz newsz in
    let failed : M ℕ = (do left ← uvmdealloc endk pagetable a oldsz; pure 0) in
    let round : M ℕ = (do
      mem ← run_kalloc
      if mem == null then failed else (do
        clear mem
        ok ← mappages pagetable a pgsize mem 30
        if ok then rest else (do run_kfree endk mem; failed))) in
    if ltb a newsz then round else pure newsz

-- `mappages` panics at `MAXVA`, so that many pages are enough.
unfoldable pub uvmalloc : ℕ → ℕ → ℕ → ℕ → M ℕ
unfolding pgroundup
uvmalloc endk pagetable oldsz newsz =
    if ltb newsz oldsz
    then pure oldsz
    else uvmalloc_from (maxva / pgsize + 2) endk pagetable (pgroundup oldsz) (pgroundup oldsz) newsz

-- The loop of `freewalk` over the entries of one page, `r` of them from `i` on; `down` frees a page below.
unfoldable pub free_entries : (ℕ → M (Unit {0})) → ℕ → ℕ → ℕ → M (Unit {0})
free_entries down zero i pagetable = pure tt
free_entries down (suc r) i pagetable =
    let rest = free_entries down r (i + 1) pagetable in
    do
      pte ← read_word (pagetable + 8 * i)
      if is_valid pte && pte / 2 % 8 == 0
          then (do down (pte2pa pte); write_word (pagetable + 8 * i) 0; rest)
          else if is_valid pte
          then panic
          else rest

-- The fuel is the depth of the tables, which is 3.
unfoldable pub freewalk : ℕ → ℕ → ℕ → M (Unit {0})
unfolding free_entries
freewalk zero endk pagetable = λ s. out_of_fuel
freewalk (suc depth) endk pagetable = do
  free_entries (freewalk depth endk) 512 0 pagetable
  run_kfree endk pagetable

unfoldable pub uvmfree : ℕ → ℕ → ℕ → M (Unit {0})
unfolding uvmunmap freewalk pgroundup
uvmfree endk pagetable sz = do
  if ltb 0 sz then uvmunmap endk pagetable 0 (pgroundup sz / pgsize) true else pure tt
  freewalk 3 endk pagetable

-- The loop of `uvmcopy`, with `r` pages left from `i` on: true for 0, false for -1.
unfoldable pub uvmcopy_from : ℕ → ℕ → ℕ → ℕ → ℕ → M Bool
unfolding walk mappages uvmunmap copy_page
uvmcopy_from endk old new i zero = pure true
uvmcopy_from endk old new i (suc r) =
    let rest = uvmcopy_from endk old new (i + pgsize) r in
    let failed : M Bool = (do uvmunmap endk new 0 (i / pgsize) true; pure false) in
    do
      found ← walk old i false
      elim found [
        | none ↦ panic
        | some pte ↦ do
          w ← read_word pte
          if not (is_valid w) then panic else (do
            mem ← run_kalloc
            if mem == null then failed else (do
              copy_page mem (pte2pa w)
              ok ← mappages new i pgsize mem (pte_flags w)
              if ok then rest else (do run_kfree endk mem; failed)))
      ]

unfoldable pub uvmcopy : ℕ → ℕ → ℕ → ℕ → M Bool
unfolding uvmcopy_from pgroundup
uvmcopy endk old new sz = uvmcopy_from endk old new 0 (pgroundup sz / pgsize)

-- `*pte &= ~PTE_U`
unfoldable pub uvmclear : ℕ → ℕ → M (Unit {0})
unfolding walk
uvmclear pagetable va = do
  found ← walk pagetable va false
  elim found [
    | none ↦ panic
    | some pte ↦ do w ← read_word pte; write_word pte (w - w / 16 % 2 * 16)
  ]
