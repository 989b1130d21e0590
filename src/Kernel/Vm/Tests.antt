-- ===== src/Kernel/Vm/Tests.antt =====
-- A table with nothing mapped, two free pages, and the theorem on `mappages` there.
use learn_mit_s.Common.{
  ℕ, ◌+◌, ◌*◌, ◌≡◌, refl, inl, inr, false, none, some, [], ◌∷◌, arith, ◌==◌, if◌then◌else◌,
  Bool-cases, ==→eq,
}
use learn_mit_s.Kernel.Kalloc.{Kmem}
use learn_mit_s.Kernel.Kalloc.FreeList.{IsPage}
use learn_mit_s.Kernel.Vm.{is_valid, px, mappages}
use learn_mit_s.Kernel.Vm.Owners.{Place, place, Owners, Inv}
use learn_mit_s.Kernel.Vm.Mapping.{Unmapped, MapsTo, mappages-MapsTo}

abbrev endk : ℕ
endk = 0x8000_1000

abbrev root : ℕ
root = 0x8000_1000

abbrev words : ℕ → ℕ
words a = if a == 0x8000_2000 then 0x8000_3000 else 0

abbrev state : Kmem
state = record { freelist = 0x8000_2000; mem = words }

abbrev owners : Owners
owners p = if p == root then some (place root 2 []) else none

words-invalid : (a : ℕ) → is_valid (words a) ≡ false
words-invalid a = ground arith

state-Inv : Inv endk owners state
state-Inv = record {
  tree = record {
    pages = λ p x e. pages p x e;
    children = λ p r l i is e lt v. absurd (ground (arith, words-invalid (p + 8 * i), v));
  };
  free = 0x8000_2000 ∷ 0x8000_3000 ∷ [];
  listed = record { chain = ground arith; pages = omega arith; distinct = omega arith };
  unowned = (refl, (refl, tt));
}
  where
    pages : (p : ℕ) (x : Place) → owners p ≡ some x → IsPage endk p
    pages p x e = elim (Bool-cases (p == root)) [
      | inl y ↦
          let same = ==→eq p root y in
          record { aligned = omega arith; above = omega arith; below = omega arith }
      | inr n ↦ ground (arith, n, e)
    ]

unmapped : Unmapped root 0x3000 0x5000 state
unmapped va lo hi = rw (words-invalid (root + 8 * px 2 va)) refl

mappages-MapsTo_example :
    MapsTo endk owners root 0x3000 0x8000_4000 6 1 state
      (mappages root 0x3008 0x1800 0x8000_4000 6 state)
mappages-MapsTo_example =
    mappages-MapsTo endk root 0x3008 0x1800 0x8000_4000 6 owners state state-Inv refl (omega arith)
      (omega arith) unmapped
