-- ===== src/Kernel/Uvm/Unmap.antt =====
-- `uvmunmap` without `do_free`: it takes the pages of the range out of one table and nothing else.
use learn_mit_s.Common.{
  ℕ, zero, suc, ◌+◌, ◌*◌, ◌%◌, ◌≤◌, ◌<◌, ◌≡◌, refl, sym, ap, ◌∙◌, ◌≢◌, ◌⊎◌, inl, inr, true, false,
  Option, none, some, [], arith, leb, ltb, ◌==◌, Bool-cases, Option-cases, ==_ne, update,
  update_self, update_ne,
}
use mathlib.Core.Path.{subst}
use learn_mit_s.Kernel.Kalloc.{pgsize, Kmem}
use learn_mit_s.Kernel.Vm.{done, finished, is_valid, pte_flags, store_word, maxva, walk}
use learn_mit_s.Kernel.Vm.Owners.{Owners, IsRoot, Inv, slot, value_at, entry}
use learn_mit_s.Kernel.Vm.Walk.{path_from, IsSlot, walk_from-slot}
use learn_mit_s.Kernel.Vm.Entries.{slot-IsSlot, slot_injective, slot-page, set-Inv, set-slot}
use learn_mit_s.Kernel.Uvm.{unmap_entry, uvmunmap_from, uvmunmap}

-- From `s` to `t` the `k` pages from `a` on are taken out of the table `pt`; no other entry of any table
-- has another value.
pub record Unmaps (endk : ℕ) (own : Owners) (pt a k : ℕ) (s t : Kmem) : Type 0 where
  pub inv : Inv endk own t
  pub inside : (va : ℕ) → a ≤ va → va < a + k * pgsize → entry 2 pt va t.mem ≡ 0
  pub outside :
      (q va : ℕ)
      → IsRoot own q
      → va < maxva
      → (q ≢ pt) ⊎ ((va < a) ⊎ (a + k * pgsize ≤ va))
      → entry 2 q va t.mem ≡ entry 2 q va s.mem

-- Every page of the range is mapped, by a leaf.
abbrev pub Leaf : ℕ → Type 0
Leaf w = (is_valid w ≡ true) × (pte_flags w ≢ 1)

abbrev pub Leaves : ℕ → ℕ → ℕ → Kmem → Type 0
Leaves pt a k s = (va : ℕ) → a ≤ va → va < a + k * pgsize → Leaf (entry 2 pt va s.mem)

-- A valid entry has an address.
entry-slot :
    (pt va : ℕ) (m : ℕ → ℕ)
    → is_valid (entry 2 pt va m) ≡ true
    → (at : ℕ) × (slot 2 pt va m ≡ some at)
entry-slot pt va m v = elim (Option-cases (slot 2 pt va m)) [
  | inl e ↦
      let no : is_valid 0 ≡ true = sym (ap (λ b. is_valid (value_at b m)) e) ∙ v in
      ground (arith, no)
  | inr (at, e) ↦ (at, e)
]

walk-entry :
    (pt va at : ℕ) (s : Kmem)
    → va < maxva
    → slot 2 pt va s.mem ≡ some at
    → walk pt va false s ≡ done (some at) s
unfolding walk
walk-entry pt va at s lt e =
    let inside : leb maxva va ≡ false = ground arith in
    rw inside (ap finished (walk_from-slot 2 pt va s ∙ ap (λ b. (b, s)) e))

unmap_one :
    (endk : ℕ) (own : Owners) (pt a at : ℕ) (s : Kmem)
    → Inv endk own s
    → IsRoot own pt
    → a < maxva
    → a % pgsize ≡ 0
    → slot 2 pt a s.mem ≡ some at
    → Unmaps endk own pt a 1 s (store_word at 0 s)
unmap_one endk own pt a at s v root lt al found = record {
  inv = set-Inv v h 0;
  inside = λ va lo hi.
      ap (λ b. value_at b (update s.mem at 0))
        (set-slot v h 0 2 pt va pt [] root ∙ slot-page pt va a s.mem (omega arith) ∙ found)
      ∙ update_self s.mem at 0;
  outside = λ q va e lt' far.
      ap (λ b. value_at b (update s.mem at 0)) (set-slot v h 0 2 q va q [] e)
      ∙ other q va (slot 2 q va s.mem) e lt' far refl;
}
  where
    h : IsSlot own pt a (path_from 2 a []) at
    h = slot-IsSlot endk 2 pt a pt [] own s.mem at v.tree root found

    other :
        (q va : ℕ) (b : Option ℕ)
        → IsRoot own q
        → va < maxva
        → (q ≢ pt) ⊎ ((va < a) ⊎ (a + 1 * pgsize ≤ va))
        → slot 2 q va s.mem ≡ b
        → value_at b (update s.mem at 0) ≡ value_at b s.mem
    other q va none e lt' far f = refl
    other q va (some b) e lt' far f = update_ne s.mem at 0 b (λ same.
        let (p, g) =
          slot_injective endk pt q a va b own s.mem v.tree root e lt lt' (found ∙ ap some same) f in
        omega (arith, p, g, far))

uvmunmap_from-Unmaps :
    (k endk : ℕ) (own : Owners) (pt a : ℕ) (s : Kmem)
    → Inv endk own s
    → IsRoot own pt
    → a % pgsize ≡ 0
    → a + k * pgsize ≤ maxva
    → Leaves pt a k s
    → (t : Kmem) × (uvmunmap_from endk pt a k false s ≡ done tt t) × Unmaps endk own pt a k s t
unfolding uvmunmap_from unmap_entry
uvmunmap_from-Unmaps zero endk own pt a s v root al top leaves = (
  s,
  refl,
  record { inv = v; inside = λ va lo hi. absurd (omega arith); outside = λ q va e lt far. refl },
)
uvmunmap_from-Unmaps (suc k) endk own pt a s v root al top leaves =
    let leaf = leaves a (omega arith) (omega arith) in
    let (at, found) = entry-slot pt a s.mem leaf.0 in
    let w : entry 2 pt a s.mem ≡ s.mem at = ap (λ b. value_at b s.mem) found in
    let live : is_valid (s.mem at) ≡ true = ap is_valid (sym w) ∙ leaf.0 in
    let is_leaf : (pte_flags (s.mem at) == 1) ≡ false =
      ==_ne _ _ (λ e. leaf.1 (ap pte_flags w ∙ e)) in
    let t = store_word at 0 s in
    let one = unmap_one endk own pt a at s v root (omega arith) al found in
    let next : Leaves pt (a + pgsize) k t = λ va lo hi.
      subst Leaf (sym (one.outside pt va root (omega arith) (omega arith)))
        (leaves va (omega arith) (omega arith)) in
    let (u, ran, rest) =
      uvmunmap_from-Unmaps k endk own pt (a + pgsize) t one.inv root (omega arith) (omega arith)
        next in
    (
      u,
      rw (walk-entry pt a at s (omega arith) found) (rw live (rw is_leaf ran)),
      record {
        inv = rest.inv;
        inside = λ va lo hi. elim (Bool-cases (ltb va (a + pgsize))) [
          | inl y ↦
              rest.outside pt va root (ground arith) (inr (inl (ground arith)))
              ∙ one.inside va lo (ground arith)
          | inr z ↦ rest.inside va (ground arith) (ground arith)
        ];
        outside = λ q va e lt far.
            rest.outside q va e lt (omega arith) ∙ one.outside q va e lt (omega arith);
      },
    )

-- For a page-aligned range below `MAXVA` whose pages are all mapped by leaves, `uvmunmap` without
-- `do_free` ends without a panic, and takes exactly these pages out of the table: no other mapping, in
-- this table or in any other, changes.
pub uvmunmap-Unmaps :
    (endk pt va npages : ℕ) (own : Owners) (s : Kmem)
    → Inv endk own s
    → IsRoot own pt
    → va % pgsize ≡ 0
    → va + npages * pgsize ≤ maxva
    → Leaves pt va npages s
    → (t : Kmem) × (uvmunmap endk pt va npages false s ≡ done tt t)
      × Unmaps endk own pt va npages s t
unfolding uvmunmap
uvmunmap-Unmaps endk pt va npages own s v root al top leaves =
    let aligned : (va % pgsize == 0) ≡ true = ground arith in
    let (t, ran, u) = uvmunmap_from-Unmaps npages endk own pt va s v root al top leaves in
    (t, rw aligned ran, u)
