-- ===== src/Kernel/Kalloc/Tests.antt =====
-- The theorems on the allocator for a kernel that leaves one free page.
use learn_mit_s.Common.{ℕ, ◌-◌, ◌/◌, ◌≤◌, ◌≡◌, refl, true, false, some, arith, eq→==, update}
use learn_mit_s.Kernel.Kalloc.{
  phystop, pgsize, pgroundup, null, Kmem, fill_page, kfree, kalloc, freerange_from, freerange,
  kinit,
}
use learn_mit_s.Kernel.Kalloc.FreeList.{IsPage}
use learn_mit_s.Kernel.Kalloc.Boot.{Holds, kinit-Holds}
use learn_mit_s.Kernel.Kalloc.Ownership.{
  Pages, alloc, Reach, booted, later, kalloc_fresh, kalloc-kfree,
}

abbrev endk : ℕ
endk = phystop - 5000

abbrev last_page : ℕ
last_page = phystop - pgsize

abbrev ram : ℕ → ℕ
ram a = 7

fits : pgroundup endk ≤ phystop
unfolding pgroundup
fits = omega arith

kinit-Holds_example :
    (s : Kmem) × (kinit endk ram ≡ some s) × Holds endk ((phystop - pgroundup endk) / pgsize) s
kinit-Holds_example = kinit-Holds endk ram (omega arith) fits

abbrev booted_kmem : Kmem
booted_kmem = record {
  freelist = last_page;
  mem = update (fill_page last_page 0x0101_0101_0101_0101 ram) last_page null;
}

booted_lem : kinit endk ram ≡ some booted_kmem
unfolding kinit freerange freerange_from kfree pgroundup
booted_lem = refl

abbrev boot : Pages
boot = record { kmem = booted_kmem; used = λ _. false }

boot-Reach : Reach endk ram boot
boot-Reach = booted booted_lem

first_page : (kalloc booted_kmem).0 ≡ last_page
unfolding kalloc
first_page = refl

kalloc_fresh_example : (boot.used (kalloc boot.kmem).0 ≡ false) × IsPage endk (kalloc boot.kmem).0
kalloc_fresh_example =
    kalloc_fresh (omega arith) ram fits boot-Reach (λ e. omega (arith, first_page, e))

-- One page handed out.
abbrev taken : Pages
taken = record { kmem = (kalloc boot.kmem).1; used = update boot.used (kalloc boot.kmem).0 true }

taken-Reach : Reach endk ram taken
taken-Reach = later boot-Reach (alloc (λ e. omega (arith, first_page, e)))

kalloc-kfree_example :
    (s : Kmem) × (kfree endk last_page taken.kmem ≡ some s) × ((kalloc s).0 ≡ last_page)
kalloc-kfree_example =
    kalloc-kfree (omega arith) ram fits taken-Reach last_page
      (ground (arith, eq→== (kalloc boot.kmem).0 last_page first_page))
