-- ===== src/Kernel/Vm/Entries.antt =====
-- Writing one entry of level 0: it is the entry of one page of one table.
use learn_mit_s.Common.{
  ℕ, zero, suc, ◌+◌, ◌*◌, ◌/◌, ◌^◌, ◌<◌, ◌≡◌, refl, sym, ap, ◌∙◌, inl, inr, Option, none, some,
  List, [], ◌∷◌, arith, if◌then◌else◌, Bool-cases, update, update_ne, some_inj,
}
use mathlib.Core.Path.{subst}
use learn_mit_s.Kernel.Kalloc.{Kmem}
use learn_mit_s.Kernel.Kalloc.FreeList.{Absent, Chain-update}
use learn_mit_s.Kernel.Vm.{px, pte2pa, is_valid, store_word}
use learn_mit_s.Kernel.Vm.Owners.{
  Place, place, Owners, IsRoot, Tree, Inv, slot, same_place, px-lt, slots-ne,
}
use learn_mit_s.Kernel.Vm.Growth.{Absent-slot}
use learn_mit_s.Kernel.Vm.Walk.{path_from, IsSlot}

-- The entry found for an address is the one at its path.
pub slot-IsSlot :
    (endk l q va r : ℕ) (is : List ℕ) (own : Owners) (m : ℕ → ℕ) (a : ℕ)
    → Tree endk own m
    → own q ≡ some (place r l is)
    → slot l q va m ≡ some a
    → IsSlot own r va (path_from l va is) a
slot-IsSlot endk zero q va r is own m a t e h = record {
  page = q;
  owned = e;
  at = sym (some_inj h);
}
slot-IsSlot endk (suc l) q va r is own m a t e h =
    elim (Bool-cases (is_valid (m (q + 8 * px (suc l) va)))) [
      | inl y ↦
          let c = pte2pa (m (q + 8 * px (suc l) va)) in
          let on : slot (suc l) q va m ≡ slot l c va m = rw y refl in
          slot-IsSlot endk l c va r (px (suc l) va ∷ is) own m a t
            (t.children q r l (px (suc l) va) is e (px-lt (suc l) va) y) (sym on ∙ h)
      | inr n ↦
          let off : slot (suc l) q va m ≡ none = rw n refl in
          let no : none ≡ some a = sym off ∙ h in ground (arith, no)
    ]

-- Two slots with one address are at one place.
pub IsSlot-place :
    (endk r r' va va' a : ℕ) (is js : List ℕ) (own : Owners) (m : ℕ → ℕ)
    → Tree endk own m
    → IsSlot own r va is a
    → IsSlot own r' va' js a
    → (r ≡ r') × (is ≡ js) × (px 0 va ≡ px 0 va')
IsSlot-place endk r r' va va' a is js own m t x y =
    let (p, i) =
      slots-ne endk x.page y.page (px 0 va) (px 0 va') (t.pages x.page _ x.owned)
        (t.pages y.page _ y.owned) (px-lt 0 va) (px-lt 0 va') (sym x.at ∙ y.at) in
    let same = same_place own y.page _ _ (ap own (sym p) ∙ x.owned) y.owned in
    (ap (λ (z : Place). z.root) same, ap (λ (z : Place). z.path) same, i)

-- The indices tell the page apart below `MAXVA`.
page_of_indices :
    (va va' : ℕ)
    → va < 2 ^ 38
    → va' < 2 ^ 38
    → px 2 va ≡ px 2 va'
    → px 1 va ≡ px 1 va'
    → px 0 va ≡ px 0 va'
    → va / 4096 ≡ va' / 4096
page_of_indices va va' a b e2 e1 e0 = omega arith

pub path-indices :
    (va va' : ℕ)
    → path_from 2 va [] ≡ path_from 2 va' []
    → (px 2 va ≡ px 2 va') × (px 1 va ≡ px 1 va')
path-indices va va' e = (ap second e, ap first e)
  where
    first : List ℕ → ℕ
    first [] = 0
    first (x ∷ xs) = x

    second : List ℕ → ℕ
    second [] = 0
    second (x ∷ xs) = first xs

-- No entry serves two pages: neither two of one table nor pages of two tables.
pub slot_injective :
    (endk pt pt' va va' a : ℕ) (own : Owners) (m : ℕ → ℕ)
    → Tree endk own m
    → IsRoot own pt
    → IsRoot own pt'
    → va < 2 ^ 38
    → va' < 2 ^ 38
    → slot 2 pt va m ≡ some a
    → slot 2 pt' va' m ≡ some a
    → (pt ≡ pt') × (va / 4096 ≡ va' / 4096)
slot_injective endk pt pt' va va' a own m t e e' lt lt' h h' =
    let (r, p, i) =
      IsSlot-place endk pt pt' va va' a _ _ own m t (slot-IsSlot endk 2 pt va pt [] own m a t e h)
        (slot-IsSlot endk 2 pt' va' pt' [] own m a t e' h') in
    let (i2, i1) = path-indices va va' p in (r, page_of_indices va va' lt lt' i2 i1 i)

-- The entries of one page are one entry.
abbrev reach : ℕ → ℕ → ℕ → ℕ → (ℕ → ℕ) → Option ℕ
reach i2 i1 i0 p m =
    if is_valid (m (p + 8 * i2))
    then (let q = pte2pa (m (p + 8 * i2)) in
        if is_valid (m (q + 8 * i1)) then some (pte2pa (m (q + 8 * i1)) + 8 * i0) else none)
    else none

pub slot-page : (p va va' : ℕ) (m : ℕ → ℕ) → va / 4096 ≡ va' / 4096 → slot 2 p va m ≡ slot 2 p va' m
slot-page p va va' m e =
    let e2 : px 2 va ≡ px 2 va' = omega arith in
    let e1 : px 1 va ≡ px 1 va' = omega arith in
    let e0 : px 0 va ≡ px 0 va' = omega arith in
    ap (λ i. reach i (px 1 va) (px 0 va) p m) e2
    ∙ ap (λ i. reach (px 2 va') i (px 0 va) p m) e1
    ∙ ap (λ i. reach (px 2 va') (px 1 va') i p m) e0

module _ {endk r va : ℕ} {is : List ℕ} {own : Owners} {s : Kmem} {a : ℕ} (inv : Inv endk own s)
    (at : IsSlot own r va is a) (w : ℕ) where
  open inv use {tree}

  upper-kept :
      (q r' l i : ℕ) (js : List ℕ)
      → own q ≡ some (place r' (suc l) js)
      → i < 512
      → update s.mem a w (q + 8 * i) ≡ s.mem (q + 8 * i)
  upper-kept q r' l i js e lt = update_ne s.mem a w (q + 8 * i) (λ h.
      let (p, _) =
        slots-ne endk at.page q (px 0 va) i (tree.pages at.page _ at.owned) (tree.pages q _ e)
          (px-lt 0 va) lt (sym at.at ∙ h) in
      let same = same_place own q _ _ (ap own (sym p) ∙ at.owned) e in ground (arith, same))

  pub set-Inv : Inv endk own (store_word a w s)
  set-Inv = record {
    tree = record {
      pages = tree.pages;
      children = λ p r' l i js e lt v.
          let k = upper-kept p r' l i js e lt in
          ap (λ x. own (pte2pa x)) k ∙ tree.children p r' l i js e lt (ap is_valid (sym k) ∙ v);
    };
    free = inv.free;
    listed = record {
      chain =
          Chain-update a w s.mem s.freelist inv.free
            (subst (λ b. Absent b inv.free) (sym at.at)
              (Absent-slot endk at.page (px 0 va) own _ inv.free at.owned
                (tree.pages at.page _ at.owned) (px-lt 0 va) inv.listed.pages inv.unowned))
            inv.listed.chain;
      pages = inv.listed.pages;
      distinct = inv.listed.distinct;
    };
    unowned = inv.unowned;
  }

  -- Where the entries are does not change.
  pub set-slot :
      (l q va' r' : ℕ) (js : List ℕ)
      → own q ≡ some (place r' l js)
      → slot l q va' (update s.mem a w) ≡ slot l q va' s.mem
  set-slot zero q va' r' js e = refl
  set-slot (suc l) q va' r' js e =
      let i = px (suc l) va' in
      let k = upper-kept q r' l i js e (px-lt (suc l) va') in
      ap (λ x. if is_valid x then slot l (pte2pa x) va' (update s.mem a w) else none) k
      ∙ elim (Bool-cases (is_valid (s.mem (q + 8 * i)))) [
        | inl y ↦ rw y (
            set-slot l (pte2pa (s.mem (q + 8 * i))) va' r' (i ∷ js)
              (tree.children q r' l i js e (px-lt (suc l) va') y))
        | inr n ↦ rw n refl
      ]
