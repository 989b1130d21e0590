-- ===== src/Kernel/Vm/Growth.antt =====
-- What a new page-table page does to the tables: nothing that was mapped or unmapped changes.
use learn_mit_s.Common.{
  ℕ, zero, suc, ◌+◌, ◌*◌, ◌<◌, ◌≡◌, refl, sym, ap, ◌∙◌, ◌≢◌, inl, inr, true, false, none, some,
  List, [], ◌∷◌, arith, ℕ_discrete, if◌then◌else◌, Bool-cases, All, update, update_self, update_ne,
}
use mathlib.Core.Path.{subst}
use learn_mit_s.Kernel.Kalloc.{Kmem}
use learn_mit_s.Kernel.Kalloc.FreeList.{IsPage, Absent, Chain-update}
use learn_mit_s.Kernel.Vm.Entrybits.{make-is_valid}
use learn_mit_s.Kernel.Vm.{px, pte2pa, is_valid, make_pte, store_word}
use learn_mit_s.Kernel.Vm.Owners.{
  Place, place, Owners, Tree, Inv, slot, value_at, entry, same_place, owned-ne, px-lt, pte2pa-page,
  slots-ne, Fresh,
}

pub Absent-slot :
    (endk p i : ℕ) (own : Owners) (x : Place) (xs : List ℕ)
    → own p ≡ some x
    → IsPage endk p
    → i < 512
    → All (IsPage endk) xs
    → All (λ y. own y ≡ none) xs
    → Absent (p + 8 * i) xs
Absent-slot endk p i own x [] e pg lt h k = tt
Absent-slot endk p i own x (y ∷ ys) e pg lt (h, hs) (k, ks) = (
  λ q. owned-ne own p y x e k (slots-ne endk p y i 0 pg h lt (omega arith) (omega (arith, q))).0,
  Absent-slot endk p i own x ys e pg lt hs ks,
)

-- The entry `i` of the page `p` at a level above 0 is invalid, and a fresh page `x` is hung there.
module _ {endk : ℕ} {own : Owners} {s s1 : Kmem} {x : ℕ} {rest : List ℕ}
    (tree : Tree endk own s.mem) (fresh : Fresh endk x rest s s1)
    (unowned : All (λ y. own y ≡ none) (x ∷ rest)) (p r l i : ℕ) (is : List ℕ)
    (at_p : own p ≡ some (place r (suc l) is)) (small : i < 512)
    (invalid : is_valid (s.mem (p + 8 * i)) ≡ false) where
  abbrev pub grown : Owners
  grown = update own x (some (place r l (i ∷ is)))

  abbrev pub hung : Kmem
  hung = store_word (p + 8 * i) (make_pte x 0) s1

  grown-new : grown x ≡ some (place r l (i ∷ is))
  grown-new = update_self own x (some (place r l (i ∷ is)))

  pub grown-old : (q : ℕ) (y : Place) → own q ≡ some y → grown q ≡ some y
  grown-old q y e =
      update_ne own x (some (place r l (i ∷ is))) q (λ h. owned-ne own q x y e unowned.0 (sym h))
      ∙ e

  page_p : IsPage endk p
  page_p = tree.pages p _ at_p

  -- An entry of a table page that was there, other than the one changed, is as it was.
  old-entry :
      (q j : ℕ) (y : Place)
      → own q ≡ some y
      → j < 512
      → p + 8 * i ≢ q + 8 * j
      → hung.mem (q + 8 * j) ≡ s.mem (q + 8 * j)
  old-entry q j y e lt ne =
      let ne' = owned-ne own q x y e unowned.0 in
      let pg = tree.pages q y e in
      let h = pg.aligned in
      let k = fresh.page.aligned in
      update_ne s1.mem (p + 8 * i) (make_pte x 0) (q + 8 * j) ne
      ∙ fresh.kept (q + 8 * j) (omega arith)

  new-entry : (j : ℕ) → j < 512 → hung.mem (x + 8 * j) ≡ 0
  new-entry j lt =
      update_ne s1.mem (p + 8 * i) (make_pte x 0) (x + 8 * j) (λ e.
        owned-ne own p x _ at_p unowned.0 (slots-ne endk p x i j page_p fresh.page small lt e).0)
      ∙ fresh.cleared (x + 8 * j) (omega arith) (omega arith)

  hung-entry : hung.mem (p + 8 * i) ≡ make_pte x 0
  hung-entry = update_self s1.mem (p + 8 * i) (make_pte x 0)

  hung_child : pte2pa (hung.mem (p + 8 * i)) ≡ x
  hung_child = ap pte2pa hung-entry ∙ pte2pa-page endk x 0 fresh.page (omega arith)

  -- The rest of a case on whether `q` is the new page.
  hung-children :
      (q r' l' j : ℕ) (js : List ℕ)
      → grown q ≡ some (place r' (suc l') js)
      → j < 512
      → is_valid (hung.mem (q + 8 * j)) ≡ true
      → grown (pte2pa (hung.mem (q + 8 * j))) ≡ some (place r' l' (j ∷ js))
  hung-children q r' l' j js e lt v = elim (ℕ_discrete x q) [
    | yes new ↦
        let none_valid : hung.mem (q + 8 * j) ≡ 0 =
          ap (λ y. hung.mem (y + 8 * j)) (sym new) ∙ new-entry j lt in
        absurd (ground (arith, none_valid, v))
    | no old ↦
        let e' : own q ≡ some (place r' (suc l') js) =
          sym (update_ne own x (some (place r l (i ∷ is))) q old) ∙ e in
        elim (ℕ_discrete (p + 8 * i) (q + 8 * j)) [
          | yes here ↦
              let (same_p, same_i) =
                slots-ne endk p q i j page_p (tree.pages q _ e') small lt here in
              let same : place r (suc l) is ≡ place r' (suc l') js =
                same_place own q _ _ (ap own (sym same_p) ∙ at_p) e' in
              ap grown (ap (λ a. pte2pa (hung.mem a)) (sym here) ∙ hung_child)
              ∙ grown-new
              ∙ ap some (ground (arith, same, same_i))
          | no other ↦
              let kept = old-entry q j _ e' lt other in
              ap (λ w. grown (pte2pa w)) kept
              ∙ grown-old _ _ (tree.children q r' l' j js e' lt (ap is_valid (sym kept) ∙ v))
        ]
  ]

  hung-Tree : Tree endk grown hung.mem
  hung-Tree = record {
    pages = λ q y e. elim (ℕ_discrete x q) [
      | yes new ↦ subst (IsPage endk) new fresh.page
      | no old ↦ tree.pages q y (sym (update_ne own x (some (place r l (i ∷ is))) q old) ∙ e)
    ];
    children = hung-children;
  }

  still_unowned :
      (ys : List ℕ) → Absent x ys → All (λ y. own y ≡ none) ys → All (λ y. grown y ≡ none) ys
  still_unowned [] a h = tt
  still_unowned (y ∷ ys) (a, more) (h, hs) =
      (update_ne own x (some (place r l (i ∷ is))) y a ∙ h, still_unowned ys more hs)

  pub hung-Inv : Inv endk grown hung
  hung-Inv = record {
    tree = hung-Tree;
    free = rest;
    listed = record {
      chain =
          Chain-update (p + 8 * i) (make_pte x 0) s1.mem s1.freelist rest
            (Absent-slot endk p i own _ rest at_p page_p small fresh.listed.pages unowned.1)
            fresh.listed.chain;
      pages = fresh.listed.pages;
      distinct = fresh.listed.distinct;
    };
    unowned = still_unowned rest fresh.absent unowned.1;
  }

  -- Below the new page nothing is mapped.
  new-none : (k va : ℕ) → entry k x va hung.mem ≡ 0
  new-none zero va = new-entry (px 0 va) (px-lt 0 va)
  new-none (suc k) va =
      let cleared : is_valid (hung.mem (x + 8 * px (suc k) va)) ≡ false =
        ap is_valid (new-entry (px (suc k) va) (px-lt (suc k) va)) in
      ap
        (λ b.
          value_at
            (if b then slot k (pte2pa (hung.mem (x + 8 * px (suc k) va))) va hung.mem else none)
            hung.mem)
        cleared

  -- Every entry of every table has the value that it had.
  pub hung-same :
      (k q va r' : ℕ) (js : List ℕ)
      → own q ≡ some (place r' k js)
      → entry k q va hung.mem ≡ entry k q va s.mem
  hung-same zero q va r' js e = old-entry q (px 0 va) _ e (px-lt 0 va) (λ h.
      let same_p =
        (slots-ne endk p q i (px 0 va) page_p (tree.pages q _ e) small (px-lt 0 va) h).0 in
      let same = same_place own q _ _ (ap own (sym same_p) ∙ at_p) e in ground (arith, same))
  hung-same (suc k) q va r' js e = elim (ℕ_discrete (p + 8 * i) (q + 8 * px (suc k) va)) [
    | yes here ↦
        let now : is_valid (hung.mem (q + 8 * px (suc k) va)) ≡ true =
          ap (λ a. is_valid (hung.mem a)) (sym here) ∙ ap is_valid hung-entry ∙ make-is_valid x 0 in
        let before : is_valid (s.mem (q + 8 * px (suc k) va)) ≡ false =
          ap (λ a. is_valid (s.mem a)) (sym here) ∙ invalid in
        let child : pte2pa (hung.mem (q + 8 * px (suc k) va)) ≡ x =
          ap (λ a. pte2pa (hung.mem a)) (sym here) ∙ hung_child in
        ap
          (λ b.
            value_at
              (if b then slot k (pte2pa (hung.mem (q + 8 * px (suc k) va))) va hung.mem else none)
              hung.mem)
          now
        ∙ ap (λ c. entry k c va hung.mem) child
        ∙ new-none k va
        ∙ sym (
            ap
              (λ b.
                value_at
                  (if b then slot k (pte2pa (s.mem (q + 8 * px (suc k) va))) va s.mem else none)
                  s.mem)
              before)
    | no other ↦
        let kept = old-entry q (px (suc k) va) _ e (px-lt (suc k) va) other in
        ap (λ w. value_at (if is_valid w then slot k (pte2pa w) va hung.mem else none) hung.mem)
          kept
        ∙ elim (Bool-cases (is_valid (s.mem (q + 8 * px (suc k) va)))) [
          | inl y ↦ rw y (
              hung-same k (pte2pa (s.mem (q + 8 * px (suc k) va))) va r' (px (suc k) va ∷ js)
                (tree.children q r' k (px (suc k) va) js e (px-lt (suc k) va) y))
          | inr n ↦ rw n refl
        ]
  ]

  -- A valid entry is as it was.
  pub hung-linked :
      (q r' k j : ℕ) (js : List ℕ)
      → own q ≡ some (place r' (suc k) js)
      → j < 512
      → is_valid (s.mem (q + 8 * j)) ≡ true
      → hung.mem (q + 8 * j) ≡ s.mem (q + 8 * j)
  hung-linked q r' k j js e lt v = old-entry q j _ e lt (λ h.
      let no : is_valid (s.mem (q + 8 * j)) ≡ false =
        ap (λ a. is_valid (s.mem a)) (sym h) ∙ invalid in
      ground (arith, no, v))
