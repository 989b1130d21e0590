-- ===== src/Kernel/Kalloc/FreeList.antt =====
-- The list of free pages: what `kfree` and `kalloc` do to it, and the list that `kinit` builds.
use learn_mit_s.Common.{
  ℕ, ◌%◌, ◌≤◌, ◌<◌, ◌≡◌, refl, sym, ◌∙◌, ◌≢◌, inl, inr, not, ◌||◌, none, some, List, [], ◌∷◌, arith,
  ltb, leb, ◌==◌, ==_ne, Bool-cases, All, update, update_self, update_ne,
}
use learn_mit_s.Kernel.Kalloc.{pgsize, phystop, null, Kmem, fill_page, kfree, kalloc}

-- From `p` the first words of the pages lead through `xs` to `null`.
abbrev pub Chain : (ℕ → ℕ) → ℕ → List ℕ → Type 0
Chain m p [] = p ≡ null
Chain m p (x ∷ xs) = (p ≡ x) × (x ≢ null) × Chain m (m x) xs

-- What `kfree` asks of an address.
pub record IsPage (endk pa : ℕ) : Type 0 where
  pub aligned : pa % pgsize ≡ 0
  pub above : endk ≤ pa
  pub below : pa < phystop

abbrev pub Absent : ℕ → List ℕ → Type 0
Absent p xs = All (λ x. p ≢ x) xs

abbrev pub Distinct : List ℕ → Type 0
Distinct [] = Unit
Distinct (x ∷ xs) = Absent x xs × Distinct xs

-- `xs` are the free pages of the state, in the order of the list.
pub record IsFree (endk : ℕ) (s : Kmem) (xs : List ℕ) : Type 0 where
  pub chain : Chain s.mem s.freelist xs
  pub pages : All (IsPage endk) xs
  pub distinct : Distinct xs

-- Two pages that differ share no address.
fill_page-ne :
    (endk pa x w : ℕ) (m : ℕ → ℕ)
    → IsPage endk pa
    → IsPage endk x
    → pa ≢ x
    → fill_page pa w m x ≡ m x
unfolding fill_page
fill_page-ne endk pa x w m p q ne = ground arith

pub Chain-cong :
    (m m' : ℕ → ℕ) (p : ℕ) (xs : List ℕ) → All (λ x. m' x ≡ m x) xs → Chain m p xs → Chain m' p xs
Chain-cong m m' p [] h c = c
Chain-cong m m' p (x ∷ xs) (e, h) (a, b, c) = (a, b, rw e (Chain-cong m m' (m x) xs h c))

pub fill_page-All :
    (endk pa w : ℕ) (m : ℕ → ℕ) (xs : List ℕ)
    → IsPage endk pa
    → All (IsPage endk) xs
    → Absent pa xs
    → All (λ x. fill_page pa w m x ≡ m x) xs
fill_page-All endk pa w m [] p q a = tt
fill_page-All endk pa w m (x ∷ xs) p q a =
    (fill_page-ne endk pa x w m p q.0 a.0, fill_page-All endk pa w m xs p q.1 a.1)

-- A write to a page that is not free leaves the list alone.
pub update-All :
    (a v : ℕ) (m : ℕ → ℕ) (xs : List ℕ) → Absent a xs → All (λ x. update m a v x ≡ m x) xs
update-All a v m [] h = tt
update-All a v m (x ∷ xs) h = (update_ne m a v x h.0, update-All a v m xs h.1)

pub Chain-update :
    (a v : ℕ) (m : ℕ → ℕ) (p : ℕ) (xs : List ℕ)
    → Absent a xs
    → Chain m p xs
    → Chain (update m a v) p xs
Chain-update a v m p xs h c = Chain-cong m (update m a v) p xs (update-All a v m xs h) c

-- `kfree` of a page that is not free puts it at the head of the list.
pub kfree-IsFree :
    (endk pa : ℕ) (s : Kmem) (xs : List ℕ)
    → 0 < endk
    → IsFree endk s xs
    → IsPage endk pa
    → Absent pa xs
    → (s' : Kmem) × (kfree endk pa s ≡ some s') × IsFree endk s' (pa ∷ xs)
unfolding kfree
kfree-IsFree endk pa s xs low f p a = (
  record { freelist = pa; mem = update (fill_page pa 0x0101_0101_0101_0101 s.mem) pa s.freelist },
  ground arith,
  record {
    chain = (
      refl,
      omega arith,
      rw (update_self filled pa s.freelist) (
          Chain-update pa s.freelist filled s.freelist xs a (
            Chain-cong s.mem filled s.freelist xs
              (fill_page-All endk pa 0x0101_0101_0101_0101 s.mem xs p f.pages a) f.chain)),
    );
    pages = (p, f.pages);
    distinct = (a, f.distinct);
  },
)
  where
    filled : ℕ → ℕ
    filled = fill_page pa 0x0101_0101_0101_0101 s.mem

-- `kfree` panics at every other address.
pub kfree-panic : (endk pa : ℕ) (s : Kmem) → ¬ IsPage endk pa → kfree endk pa s ≡ none
unfolding kfree
kfree-panic endk pa s h =
    elim (Bool-cases (not (pa % pgsize == 0) || (ltb pa endk || leb phystop pa))) [
      | inl e ↦ rw e
      | inr e ↦
          absurd (h (record { aligned = ground arith; above = ground arith; below = ground arith }))
    ]

pub kalloc_step :
    (s : Kmem)
    → s.freelist ≢ null
    → kalloc s ≡ (
      s.freelist,
      record {
        freelist = s.mem s.freelist;
        mem = fill_page s.freelist 0x0505_0505_0505_0505 s.mem;
      },
    )
unfolding kalloc
kalloc_step s ne = rw (==_ne s.freelist null ne)

-- `kalloc` takes the page at the head of the list and leaves the others free.
pub kalloc-IsFree :
    (endk x : ℕ) (s : Kmem) (xs : List ℕ)
    → IsFree endk s (x ∷ xs)
    → ((kalloc s).0 ≡ x) × IsFree endk (kalloc s).1 xs
kalloc-IsFree endk x s xs f = rw (kalloc_step s (λ e. chain.1 (sym chain.0 ∙ e))) (
  chain.0,
  record {
    chain = rw (chain.0) (
        Chain-cong s.mem (fill_page x 0x0505_0505_0505_0505 s.mem) (s.mem x) xs
          (fill_page-All endk x 0x0505_0505_0505_0505 s.mem xs pages.0 pages.1 distinct.0) chain.2);
    pages = pages.1;
    distinct = distinct.1;
  },
)
  where
    open f use {chain, pages, distinct}

-- With no free page `kalloc` returns `null` and changes nothing.
pub kalloc-empty : (endk : ℕ) (s : Kmem) → IsFree endk s [] → kalloc s ≡ (null, s)
unfolding kalloc
kalloc-empty endk s f = ground arith
