-- ===== src/Kernel/Vm.antt =====
-- lab1/kernel/vm.c: page tables. A page table is the address of its root page; memory is that of the page
-- allocator, read in words of eight bytes, so the entry `&pagetable[i]` is the address `pagetable + 8 * i`.
pub mod Entrybits
pub mod Owners
pub mod Growth
pub mod Walk
pub mod Entries
pub mod Mapping
mod Tests
use learn_mit_s.Common.{
  ℕ, zero, suc, ◌+◌, ◌-◌, ◌*◌, ◌/◌, ◌%◌, ◌^◌, Bool, true, false, not, ◌&&◌, Option, none, some, leb,
  ◌==◌, if◌then◌else◌, update,
}
use Prim.Native.Nat.{bit_or}
use learn_mit_s.Kernel.Kalloc.{pgsize, null, Kmem, fill_page, kalloc}

-- A call ends with a value and a state, or panics; a loop can also run out of fuel.
pub data Run {ℓ} (A : Type ℓ) : Type ℓ where
  done : A → Kmem → Run A
  panicked : Run A
  out_of_fuel : Run A

abbrev pub M {ℓ} : Type ℓ → Type ℓ
M A = Kmem → Run A

infixl 5 ◌>>=◌ ◌>>◌
abbrev pub bind_run {ℓ κ} : {A : Type ℓ} {B : Type κ} → Run A → (A → M B) → Run B
bind_run (done a s) f = f a s
bind_run panicked f = panicked
bind_run out_of_fuel f = out_of_fuel

abbrev pub ◌>>=◌ {ℓ κ} : {A : Type ℓ} {B : Type κ} → M A → (A → M B) → M B
m >>= f = λ s. bind_run (m s) f

abbrev pub ◌>>◌ {ℓ} : {B : Type ℓ} → M (Unit {0}) → M B → M B
m >> k = m >>= λ _. k

abbrev pub pure {ℓ} : {A : Type ℓ} → A → M A
pure a s = done a s

abbrev pub panic {ℓ} : {A : Type ℓ} → M A
panic s = panicked

abbrev pub maxva : ℕ
maxva = 2 ^ 38

abbrev pub pgrounddown : ℕ → ℕ
pgrounddown a = a / pgsize * pgsize

-- `PX(level, va)`
abbrev pub px : ℕ → ℕ → ℕ
px level va = va / 2 ^ (12 + 9 * level) % 512

-- `PTE2PA(pte)`, and the bits `PTE_V` and `PTE_U` of an entry.
abbrev pub pte2pa : ℕ → ℕ
pte2pa pte = pte / 1024 * 4096 % 2 ^ 64

abbrev pub is_valid : ℕ → Bool
is_valid pte = pte % 2 == 1

abbrev pub is_user : ℕ → Bool
is_user pte = pte / 16 % 2 == 1

-- `PTE_FLAGS(pte)`
abbrev pub pte_flags : ℕ → ℕ
pte_flags pte = pte % 1024

-- `PA2PTE(pa) | perm | PTE_V`
abbrev pub make_pte : ℕ → ℕ → ℕ
make_pte pa perm = bit_or (bit_or (pa / 4096 * 1024 % 2 ^ 64) perm) 1

abbrev pub store_word : ℕ → ℕ → Kmem → Kmem
store_word a v s = record s { mem = update s.mem a v }

-- `kalloc` and `memset(p, 0, PGSIZE)`: the page, or `null` with nothing cleared.
unfoldable pub zalloc : Kmem → ℕ × Kmem
unfolding fill_page
zalloc s =
    let (p, s1) = kalloc s in
    if p == null then (p, s1) else (p, record s1 { mem = fill_page p 0 s1.mem })

-- The loop of `walk` at `level`, in the page `pt`: the address of the entry, if there is one.
unfoldable pub walk_from : ℕ → ℕ → ℕ → Bool → Kmem → Option ℕ × Kmem
unfolding zalloc
walk_from zero pt va alloc s = (some (pt + 8 * px 0 va), s)
walk_from (suc level) pt va alloc s =
    let at = pt + 8 * px (suc level) va in
    let (p, s1) = zalloc s in
    let down = walk_from level (pte2pa (s.mem at)) va alloc s in
    let made = walk_from level p va alloc (store_word at (make_pte p 0) s1) in
    if is_valid (s.mem at)
    then down
    else if not alloc
    then (none, s)
    else if p == null
    then (none, s1)
    else made

abbrev pub finished {ℓ} : {A : Type ℓ} → A × Kmem → Run A
finished (a, s) = done a s

unfoldable pub walk : ℕ → ℕ → Bool → M (Option ℕ)
unfolding walk_from
walk pagetable va alloc s =
    if leb maxva va then panicked else finished (walk_from 2 pagetable va alloc s)

-- What `walkaddr` answers for the entry that `walk` found.
abbrev pub user_page : Option ℕ → Kmem → Run ℕ
user_page none s = done 0 s
user_page (some pte) s =
    if is_valid (s.mem pte) && is_user (s.mem pte) then done (pte2pa (s.mem pte)) s else done 0 s

unfoldable pub walkaddr : ℕ → ℕ → M ℕ
unfolding walk
walkaddr pagetable va s =
    if leb maxva va then done 0 s else bind_run (walk pagetable va false s) user_page

-- The loop of `mappages` at the page `a`: true for 0, false for -1. The fuel counts pages.
unfoldable pub mappages_from : ℕ → ℕ → ℕ → ℕ → ℕ → ℕ → M Bool
unfolding walk
mappages_from zero pagetable a last pa perm s = out_of_fuel
mappages_from (suc fuel) pagetable a last pa perm s =
    let next = mappages_from fuel pagetable (a + pgsize) last (pa + pgsize) perm in
    let put : Option ℕ → M Bool = λ found s1. elim found [
      | none ↦ done false s1
      | some pte ↦
          let s2 = store_word pte (make_pte pa perm) s1 in
          let rest = next s2 in
          if is_valid (s1.mem pte) then panicked else if a == last then done true s2 else rest
    ] in
    bind_run (walk pagetable a true s) put

-- `a` goes up a page a round, and `walk` panics at `MAXVA`.
unfoldable pub mappages : ℕ → ℕ → ℕ → ℕ → ℕ → M Bool
mappages pagetable va size pa perm =
    mappages_from (maxva / pgsize + 1) pagetable (pgrounddown va)
      (pgrounddown ((va + size + 2 ^ 64 - 1) % 2 ^ 64)) pa perm
