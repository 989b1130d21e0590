-- ===== src/Kernel/Kalloc.antt =====
-- lab1/kernel/kalloc.c: the allocator of whole pages. The free pages form a list that is kept in
-- the pages themselves, the first word of each holding the address of the next.
-- Memory is read in words of eight bytes, by address. The address `endk` stands for `end[]`, which
-- the linker sets. Each body runs under `kmem.lock`, so it is one step.
pub mod FreeList
pub mod Boot
pub mod Ownership
mod Tests
use learn_mit_s.Common.{
  ℕ, zero, suc, ◌+◌, ◌-◌, ◌*◌, ◌/◌, ◌%◌, not, ◌&&◌, ◌||◌, Option, none, some, ltb, leb, ◌==◌,
  if◌then◌else◌, update,
}

abbrev pub pgsize : ℕ
pgsize = 4096

-- `KERNBASE + 128*1024*1024`
abbrev pub phystop : ℕ
phystop = 0x8000_0000 + 128 * 1024 * 1024

abbrev pub null : ℕ
null = 0

-- `(sz + PGSIZE - 1) & ~(PGSIZE - 1)`
unfoldable pub pgroundup : ℕ → ℕ
pgroundup sz = (sz + pgsize - 1) / pgsize * pgsize

-- `struct kmem`, with the memory that its list runs through.
pub record Kmem : Type 0 where
  pub freelist : ℕ
  pub mem : ℕ → ℕ

-- `memset(pa, c, PGSIZE)` for a page-aligned `pa`, `w` being the word of eight bytes `c`.
unfoldable pub fill_page : ℕ → ℕ → (ℕ → ℕ) → ℕ → ℕ
fill_page pa w m a = if leb pa a && ltb a (pa + pgsize) then w else m a

-- `none` is the panic.
unfoldable pub kfree : ℕ → ℕ → Kmem → Option Kmem
unfolding fill_page
kfree endk pa s =
    if not (pa % pgsize == 0) || (ltb pa endk || leb phystop pa)
    then none
    else some (record {
      freelist = pa;
      mem = update (fill_page pa 0x0101_0101_0101_0101 s.mem) pa s.freelist;
    })

-- The page, or `null`, and the state after.
unfoldable pub kalloc : Kmem → ℕ × Kmem
unfolding fill_page
kalloc s =
    let r = s.freelist in
    if r == null
    then (r, s)
    else (r, record { freelist = s.mem r; mem = fill_page r 0x0505_0505_0505_0505 s.mem })

-- The loop of `freerange` from `p`; each round goes up one page, so the fuel is a number of pages.
unfoldable pub freerange_from : ℕ → ℕ → ℕ → ℕ → Kmem → Option Kmem
unfolding kfree
freerange_from endk zero p pa_end s = none
freerange_from endk (suc fuel) p pa_end s =
    if leb (p + pgsize) pa_end
    then elim (kfree endk p s) [
      | none ↦ none
      | some s' ↦ freerange_from endk fuel (p + pgsize) pa_end s'
    ]
    else some s

unfoldable pub freerange : ℕ → ℕ → ℕ → Kmem → Option Kmem
freerange endk pa_start pa_end s =
    freerange_from endk (pa_end / pgsize + 1) (pgroundup pa_start) pa_end s

unfoldable pub kinit : ℕ → (ℕ → ℕ) → Option Kmem
kinit endk mem = freerange endk endk phystop (record { freelist = null; mem = mem })
