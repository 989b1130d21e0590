-- ===== src/Kernel/Vm/Walk.antt =====
-- `walk`: the entry that it returns is the one for the address, and the tables that it adds map nothing.
use learn_mit_s.Common.{
  ℕ, zero, suc, ◌+◌, ◌*◌, ◌<◌, ◌≡◌, refl, ap, ◌∙◌, inl, inr, true, false, Option, none, some, List,
  [], ◌∷◌, arith, Bool-cases, ==_ne, All, update_self, some_inj,
}
use mathlib.Core.Path.{subst}
use learn_mit_s.Kernel.Kalloc.{null, Kmem}
use learn_mit_s.Kernel.Kalloc.FreeList.{IsFree}
use learn_mit_s.Kernel.Vm.Entrybits.{make-is_valid}
use learn_mit_s.Kernel.Vm.{px, pte2pa, is_valid, make_pte, walk_from}
use learn_mit_s.Kernel.Vm.Owners.{
  Place, place, Owners, Tree, Inv, slot, entry, px-lt, pte2pa-page, zalloc_none, zalloc_some,
}
use learn_mit_s.Kernel.Vm.Growth.{grown, hung, grown-old, hung-Inv, hung-same, hung-linked}

-- Where the indices of `va` lead from the path `is` at a level.
abbrev pub path_from : ℕ → ℕ → List ℕ → List ℕ
path_from zero va is = is
path_from (suc l) va is = path_from l va (px (suc l) va ∷ is)

-- The address of an entry at level 0 in the table `r`, at the end of the path.
pub record IsSlot (own : Owners) (r va : ℕ) (is : List ℕ) (a : ℕ) : Type 0 where
  pub page : ℕ
  pub owned : own page ≡ some (place r 0 is)
  pub at : a ≡ page + 8 * px 0 va

-- From `s` to `t` every table is kept, with the value of every entry.
pub record Keeps (own own' : Owners) (s t : Kmem) : Type 0 where
  pub owned : (q : ℕ) (y : Place) → own q ≡ some y → own' q ≡ some y
  pub same :
      (k q va r : ℕ) (is : List ℕ)
      → own q ≡ some (place r k is)
      → entry k q va t.mem ≡ entry k q va s.mem
  pub linked :
      (q r k i : ℕ) (is : List ℕ)
      → own q ≡ some (place r (suc k) is)
      → i < 512
      → is_valid (s.mem (q + 8 * i)) ≡ true
      → t.mem (q + 8 * i) ≡ s.mem (q + 8 * i)

-- What a walk to `va` has done: it found or made the entry, or memory ran out.
pub data Found (own : Owners) (l p va r : ℕ) (is : List ℕ) (m : ℕ → ℕ) : Option ℕ → Type 0 where
  missing : Found own l p va r is m none
  at_slot :
      (a : ℕ)
      → IsSlot own r va (path_from l va is) a
      → slot l p va m ≡ some a
      → Found own l p va r is m (some a)

pub record Walked (endk l p va r : ℕ) (is : List ℕ) (own : Owners) (s : Kmem) (found : Option ℕ)
    (t : Kmem) : Type 0 where
  pub after : Owners
  pub inv : Inv endk after t
  pub keeps : Keeps own after s t
  pub entry_found : Found after l p va r is t.mem found

Keeps-refl : (own : Owners) (s : Kmem) → Keeps own own s s
Keeps-refl own s = record {
  owned = λ q y e. e;
  same = λ k q va r is e. refl;
  linked = λ q r k i is e lt v. refl;
}

-- One level down through a valid entry.
Found-down :
    (own : Owners) (l p va r : ℕ) (is : List ℕ) (m : ℕ → ℕ) (c : ℕ) (found : Option ℕ)
    → is_valid (m (p + 8 * px (suc l) va)) ≡ true
    → pte2pa (m (p + 8 * px (suc l) va)) ≡ c
    → Found own l c va r (px (suc l) va ∷ is) m found
    → Found own (suc l) p va r is m found
Found-down own l p va r is m c found v e missing = missing
Found-down own l p va r is m c found v e (at_slot a h f) =
    at_slot a h (rw v (ap (λ d. slot l d va m) e ∙ f))

Keeps-trans :
    (own1 own2 own3 : Owners) (s t u : Kmem)
    → Keeps own1 own2 s t
    → Keeps own2 own3 t u
    → Keeps own1 own3 s u
Keeps-trans own1 own2 own3 s t u a b = record {
  owned = λ q y e. b.owned q y (a.owned q y e);
  same = λ k q va r is e. b.same k q va r is (a.owned q _ e) ∙ a.same k q va r is e;
  linked = λ q r k i is e lt v.
      b.linked q r k i is (a.owned q _ e) lt (ap is_valid (a.linked q r k i is e lt v) ∙ v)
      ∙ a.linked q r k i is e lt v;
}

abbrev pub WalkedTo : (endk l p va r : ℕ) → List ℕ → Owners → Kmem → Option ℕ × Kmem → Type 0
WalkedTo endk l p va r is own s (found, t) = Walked endk l p va r is own s found t

-- The walk goes on from `s1`, in which the entry at `p` leads to the page `c`.
Walked-down :
    (endk l p va r c : ℕ) (is : List ℕ) (own own1 : Owners) (s s1 : Kmem) (res : Option ℕ × Kmem)
    → Keeps own own1 s s1
    → own1 p ≡ some (place r (suc l) is)
    → is_valid (s1.mem (p + 8 * px (suc l) va)) ≡ true
    → pte2pa (s1.mem (p + 8 * px (suc l) va)) ≡ c
    → WalkedTo endk l c va r (px (suc l) va ∷ is) own1 s1 res
    → WalkedTo endk (suc l) p va r is own s res
Walked-down endk l p va r c is own own1 s s1 (found, t) k e v ec w =
    let kept = w.keeps.linked p r l (px (suc l) va) is e (px-lt (suc l) va) v in
    record {
      after = w.after;
      inv = w.inv;
      keeps = Keeps-trans own own1 w.after s s1 t k w.keeps;
      entry_found =
          Found-down w.after l p va r is t.mem c found (ap is_valid kept ∙ v) (ap pte2pa kept ∙ ec)
            w.entry_found;
    }

-- What a walk from the page `p` does, for every state of the tables.
abbrev pub Walks : (endk l va : ℕ) → Type 0
Walks endk l va =
    (p r : ℕ) (is : List ℕ) (own : Owners) (s : Kmem)
    → Inv endk own s
    → own p ≡ some (place r l is)
    → WalkedTo endk l p va r is own s (walk_from l p va true s)

-- A new page is hung at an invalid entry, if there is a free one.
grow-Walked :
    (endk l va : ℕ)
    → Walks endk l va
    → (p r : ℕ) (is : List ℕ) (own : Owners) (s : Kmem) (free : List ℕ) → Tree endk own s.mem
    → IsFree endk s free
    → All (λ y. own y ≡ none) free
    → own p ≡ some (place r (suc l) is)
    → is_valid (s.mem (p + 8 * px (suc l) va)) ≡ false
    → Inv endk own s
    → WalkedTo endk (suc l) p va r is own s (walk_from (suc l) p va true s)
unfolding walk_from
grow-Walked endk l va below p r is own s [] tree f u e n v =
    rw (n, zalloc_none endk s f)
      (record { after = own; inv = v; keeps = Keeps-refl own s; entry_found = missing })
grow-Walked endk l va below p r is own s (x ∷ rest) tree f u e n v =
    let (s1, got, fresh) = zalloc_some endk x s rest f in
    let i = px (suc l) va in
    let lt = px-lt (suc l) va in
    let own1 = grown tree fresh u p r l i is e lt n in
    let t = hung tree fresh u p r l i is e lt n in
    let k : Keeps own own1 s t = record {
      owned = grown-old tree fresh u p r l i is e lt n;
      same = hung-same tree fresh u p r l i is e lt n;
      linked = hung-linked tree fresh u p r l i is e lt n;
    } in
    let at : t.mem (p + 8 * i) ≡ make_pte x 0 = update_self s1.mem (p + 8 * i) (make_pte x 0) in
    rw (n, got, ==_ne x null f.chain.1)
      (Walked-down endk l p va r x is own own1 s t (walk_from l x va true t) k (k.owned p _ e)
        (ap is_valid at ∙ make-is_valid x 0)
        (ap pte2pa at ∙ pte2pa-page endk x 0 fresh.page (omega arith))
        (below x r (i ∷ is) own1 t (hung-Inv tree fresh u p r l i is e lt n)
          (update_self own x (some (place r l (i ∷ is))))))

pub walk_from-Walked : (endk l va : ℕ) → Walks endk l va
unfolding walk_from
walk_from-Walked endk zero va p r is own s v e = record {
  after = own;
  inv = v;
  keeps = Keeps-refl own s;
  entry_found = at_slot (p + 8 * px 0 va) (record { page = p; owned = e; at = refl }) refl;
}
walk_from-Walked endk (suc l) va p r is own s v e =
    elim (Bool-cases (is_valid (s.mem (p + 8 * px (suc l) va)))) [
      | inl y ↦
          let c = pte2pa (s.mem (p + 8 * px (suc l) va)) in
          rw y (
            Walked-down endk l p va r c is own own s s (walk_from l c va true s) (Keeps-refl own s)
              e y refl
              (walk_from-Walked endk l va c r (px (suc l) va ∷ is) own s v
                (v.tree.children p r l (px (suc l) va) is e (px-lt (suc l) va) y)))
      | inr n ↦
          grow-Walked endk l va (walk_from-Walked endk l va) p r is own s v.free v.tree v.listed
            v.unowned e n v
    ]

-- Without `alloc` the walk reads the tables and changes nothing.
pub walk_from-slot : (l p va : ℕ) (s : Kmem) → walk_from l p va false s ≡ (slot l p va s.mem, s)
unfolding walk_from
walk_from-slot zero p va s = refl
walk_from-slot (suc l) p va s = elim (Bool-cases (is_valid (s.mem (p + 8 * px (suc l) va)))) [
  | inl y ↦ rw y (walk_from-slot l (pte2pa (s.mem (p + 8 * px (suc l) va))) va s)
  | inr n ↦ rw n refl
]

pub Found-some :
    {own : Owners} {l p va r : ℕ} {is : List ℕ} {m : ℕ → ℕ} {found : Option ℕ} (a : ℕ)
    → Found own l p va r is m found
    → found ≡ some a
    → IsSlot own r va (path_from l va is) a × (slot l p va m ≡ some a)
Found-some a missing e = ground (arith, e)
Found-some {own} {l} {p} {va} {r} {is} {m} a (at_slot b h f) e =
    (subst (IsSlot own r va (path_from l va is)) (some_inj e) h, f ∙ e)
