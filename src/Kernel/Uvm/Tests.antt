-- ===== src/Kernel/Uvm/Tests.antt =====
-- A table with one page mapped, and the theorem on `uvmunmap` there.
use learn_mit_s.Common.{
  ℕ, suc, ◌+◌, ◌*◌, ◌<◌, ◌≡◌, refl, sym, ap, true, false, none, some, List, [], ◌∷◌, arith, ◌==◌,
  if◌then◌else◌,
}
use learn_mit_s.Kernel.Kalloc.{Kmem, null}
use learn_mit_s.Kernel.Kalloc.FreeList.{IsPage}
use learn_mit_s.Kernel.Vm.{done, is_valid, make_pte, pte2pa}
use mathlib.Core.Path.{subst}
use learn_mit_s.Kernel.Vm.Owners.{Place, place, Owners, Inv, value_at, entry}
use learn_mit_s.Kernel.Vm.Entries.{slot-page}
use learn_mit_s.Kernel.Uvm.{uvmunmap}
use learn_mit_s.Kernel.Uvm.Unmap.{Unmaps, Leaf, Leaves, uvmunmap-Unmaps}

abbrev endk : ℕ
endk = 0x8000_1000

abbrev root : ℕ
root = 0x8000_1000

-- The tables of levels 1 and 0, and the entry of the page at 0x3000.
abbrev words : ℕ → ℕ
words a =
    if a == root
    then make_pte 0x8000_2000 0
    else if a == 0x8000_2000
    then make_pte 0x8000_3000 0
    else if a == 0x8000_3018
    then make_pte 0x8000_4000 6
    else 0

abbrev state : Kmem
state = record { freelist = null; mem = words }

abbrev owners : Owners
owners p =
    if p == root
    then some (place root 2 [])
    else if p == 0x8000_2000
    then some (place root 1 (0 ∷ []))
    else if p == 0x8000_3000
    then some (place root 0 (0 ∷ 0 ∷ []))
    else none

state-Inv : Inv endk owners state
state-Inv = record {
  tree = record {
    pages = λ p x e. pages p x e;
    children = λ p r l i is e lt v. children p r l i is e lt v;
  };
  free = [];
  listed = record { chain = refl; pages = tt; distinct = tt };
  unowned = tt;
}
  where
    pages : (p : ℕ) (x : Place) → owners p ≡ some x → IsPage endk p
    pages p x e = record {
      aligned = ground (arith, e);
      above = ground (arith, e);
      below = ground (arith, e);
    }

    children :
        (p r l i : ℕ) (is : List ℕ)
        → owners p ≡ some (place r (suc l) is)
        → i < 512
        → is_valid (words (p + 8 * i)) ≡ true
        → owners (pte2pa (words (p + 8 * i))) ≡ some (place r l (i ∷ is))
    children p r l i is e lt v = ground (arith, e, v)

leaves : Leaves root 0x3000 1 state
leaves va lo hi =
    let there : Leaf (entry 2 root 0x3000 words) = (ground arith, ground arith) in
    subst Leaf (sym (ap (λ b. value_at b words) (slot-page root va 0x3000 words (omega arith))))
      there

uvmunmap-Unmaps_example :
    (t : Kmem) × (uvmunmap endk root 0x3000 1 false state ≡ done tt t)
    × Unmaps endk owners root 0x3000 1 state t
uvmunmap-Unmaps_example =
    uvmunmap-Unmaps endk root 0x3000 1 owners state state-Inv refl refl (omega arith) leaves
