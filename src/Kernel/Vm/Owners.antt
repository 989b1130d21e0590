-- ===== src/Kernel/Vm/Owners.antt =====
-- Page-table pages and their places: every page of every table has one place in one tree, and none is free.
use learn_mit_s.Common.{
  ℕ, zero, suc, ◌+◌, ◌*◌, ◌≤◌, ◌<◌, ◌≡◌, refl, sym, ap, ◌∙◌, ◌≢◌, ◌⊎◌, true, Option, none, some,
  List, [], ◌∷◌, arith, if◌then◌else◌, ==_ne, All, some_inj,
}
use mathlib.Core.Path.{subst}
use learn_mit_s.Kernel.Kalloc.{pgsize, null, Kmem, fill_page, kalloc}
use learn_mit_s.Kernel.Kalloc.FreeList.{
  IsPage, Absent, IsFree, Chain-cong, fill_page-All, kalloc_step, kalloc-IsFree, kalloc-empty,
}
use learn_mit_s.Kernel.Vm.Entrybits.{pte2pa-make}
use learn_mit_s.Kernel.Vm.{px, pte2pa, is_valid, make_pte, zalloc}

-- The place of a page: the table, the level from 2 down to 0, and the indices that lead to it, the last
-- one first.
pub record Place : Type 0 where
  pub root : ℕ
  pub level : ℕ
  pub path : List ℕ

abbrev pub place : ℕ → ℕ → List ℕ → Place
place r l is = record { root = r; level = l; path = is }

abbrev pub Owners : Type 0
Owners = ℕ → Option Place

abbrev pub IsRoot : Owners → ℕ → Type 0
IsRoot own pt = own pt ≡ some (place pt 2 [])

-- Each entry above level 0 that is valid leads to the page at that place.
pub record Tree (endk : ℕ) (own : Owners) (m : ℕ → ℕ) : Type 0 where
  pub pages : (p : ℕ) (x : Place) → own p ≡ some x → IsPage endk p
  pub children :
      (p r l i : ℕ) (is : List ℕ)
      → own p ≡ some (place r (suc l) is)
      → i < 512
      → is_valid (m (p + 8 * i)) ≡ true
      → own (pte2pa (m (p + 8 * i))) ≡ some (place r l (i ∷ is))

pub record Inv (endk : ℕ) (own : Owners) (s : Kmem) : Type 0 where
  pub tree : Tree endk own s.mem
  pub free : List ℕ
  pub listed : IsFree endk s free
  pub unowned : All (λ x. own x ≡ none) free

-- The entry for `va` below the page `p` at a level, if the tables reach that far, and its value.
abbrev pub slot : ℕ → ℕ → ℕ → (ℕ → ℕ) → Option ℕ
slot zero p va m = some (p + 8 * px 0 va)
slot (suc l) p va m =
    let at = p + 8 * px (suc l) va in if is_valid (m at) then slot l (pte2pa (m at)) va m else none

abbrev pub value_at : Option ℕ → (ℕ → ℕ) → ℕ
value_at none m = 0
value_at (some a) m = m a

abbrev pub entry : ℕ → ℕ → ℕ → (ℕ → ℕ) → ℕ
entry l p va m = value_at (slot l p va m) m

pub same_place : (own : Owners) (p : ℕ) (x y : Place) → own p ≡ some x → own p ≡ some y → x ≡ y
same_place own p x y e f = some_inj (sym e ∙ f)

-- No page is both.
pub owned-ne : (own : Owners) (p q : ℕ) (x : Place) → own p ≡ some x → own q ≡ none → p ≢ q
owned-ne own p q x e f h = let no : none ≡ some x = sym f ∙ ap own (sym h) ∙ e in ground (arith, no)

pub px-lt : (l va : ℕ) → px l va < 512
px-lt l va = omega arith

pub pte2pa-page : (endk x perm : ℕ) → IsPage endk x → perm < 1024 → pte2pa (make_pte x perm) ≡ x
pte2pa-page endk x perm p small = pte2pa-make x perm p.aligned (omega (arith, p.below)) small

-- An entry of one page is no entry of another, and two entries of a page are apart.
pub slots-ne :
    (endk p q i j : ℕ)
    → IsPage endk p
    → IsPage endk q
    → i < 512
    → j < 512
    → p + 8 * i ≡ q + 8 * j
    → (p ≡ q) × (i ≡ j)
slots-ne endk p q i j a b lt lt' e =
    let h = a.aligned in let k = b.aligned in (omega arith, omega arith)

-- What a page fresh from `zalloc` is: it was free, and is cleared; nothing else changed but the list.
pub record Fresh (endk x : ℕ) (rest : List ℕ) (s s1 : Kmem) : Type 0 where
  pub page : IsPage endk x
  pub listed : IsFree endk s1 rest
  pub absent : Absent x rest
  pub cleared : (a : ℕ) → x ≤ a → a < x + pgsize → s1.mem a ≡ 0
  pub kept : (a : ℕ) → (a < x) ⊎ (x + pgsize ≤ a) → s1.mem a ≡ s.mem a

pub zalloc_none : (endk : ℕ) (s : Kmem) → IsFree endk s [] → zalloc s ≡ (null, s)
unfolding zalloc
zalloc_none endk s f = rw (kalloc-empty endk s f) refl

pub zalloc_some :
    (endk x : ℕ) (s : Kmem) (rest : List ℕ)
    → IsFree endk s (x ∷ rest)
    → (s1 : Kmem) × (zalloc s ≡ (x, s1)) × Fresh endk x rest s s1
unfolding zalloc fill_page
zalloc_some endk x s rest f =
    let ne : s.freelist ≢ null = λ e. f.chain.1 (sym f.chain.0 ∙ e) in
    let junk = fill_page x 0x0505_0505_0505_0505 s.mem in
    let s0 : Kmem = record { freelist = s.mem x; mem = junk } in
    let took : kalloc s ≡ (x, s0) =
      kalloc_step s ne
      ∙ ap (λ p. (p, record { freelist = s.mem p; mem = fill_page p 0x0505_0505_0505_0505 s.mem }))
          f.chain.0 in
    let f0 : IsFree endk s0 rest =
      subst (λ r. IsFree endk r.1 rest) took (kalloc-IsFree endk x s rest f).1 in
    (
      record s0 { mem = fill_page x 0 junk },
      rw took (rw (==_ne x null f.chain.1) refl),
      record {
        page = f.pages.0;
        listed = record {
          chain =
              Chain-cong junk (fill_page x 0 junk) s0.freelist rest
                (fill_page-All endk x 0 junk rest f.pages.0 f.pages.1 f.distinct.0) f0.chain;
          pages = f0.pages;
          distinct = f0.distinct;
        };
        absent = f.distinct.0;
        cleared = λ a lo hi. ground arith;
        kept = λ a h. ground arith;
      },
    )
