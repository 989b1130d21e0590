-- ===== src/Kernel/Kalloc/Ownership.antt =====
-- The allocator together with the code that owns its pages: calls of `kalloc` and `kfree`, and writes
-- to owned pages, in any order.
use learn_mit_s.Common.{
  ℕ, ◌*◌, ◌/◌, ◌≤◌, ◌<◌, ◌≡◌, refl, sym, ap, ◌∙◌, ◌≢◌, inl, inr, Bool, true, false, some, List, [],
  ◌∷◌, arith, ◌==◌, ==→eq, Bool-cases, All, update, update_self, update_ne,
}
use mathlib.Core.Path.{subst}
use learn_mit_s.Common.{some_inj}
use learn_mit_s.Kernel.Kalloc.{pgsize, phystop, null, pgroundup, Kmem, kfree, kalloc, kinit}
use learn_mit_s.Kernel.Kalloc.FreeList.{
  Chain-update, IsPage, Absent, IsFree, kfree-IsFree, kalloc-IsFree, kalloc-empty,
}
use learn_mit_s.Kernel.Kalloc.Boot.{kinit-Holds}

-- `used p` tells whether the page `p` has been handed out and not freed since.
pub record Pages : Type 0 where
  pub kmem : Kmem
  pub used : ℕ → Bool

abbrev page_of : ℕ → ℕ
page_of a = a / pgsize * pgsize

-- A page is freed and written only by code that owns it.
pub data Step (endk : ℕ) (t : Pages) : Pages → Type 0 where
  alloc :
      (kalloc t.kmem).0 ≢ null
      → Step endk t
          (record { kmem = (kalloc t.kmem).1; used = update t.used (kalloc t.kmem).0 true })
  alloc_failed : (kalloc t.kmem).0 ≡ null → Step endk t (record t { kmem = (kalloc t.kmem).1 })
  free :
      (p : ℕ) {s : Kmem}
      → t.used p ≡ true
      → kfree endk p t.kmem ≡ some s
      → Step endk t (record { kmem = s; used = update t.used p false })
  store :
      (a v : ℕ)
      → t.used (page_of a) ≡ true
      → Step endk t
          (record t { kmem = record { freelist = t.kmem.freelist; mem = update t.kmem.mem a v } })

-- From a boot with the memory `mem`.
pub data Reach (endk : ℕ) (mem : ℕ → ℕ) : Pages → Type 0 where
  booted :
      {s : Kmem} → kinit endk mem ≡ some s → Reach endk mem (record { kmem = s; used = λ _. false })
  later : {t u : Pages} → Reach endk mem t → Step endk t u → Reach endk mem u

-- Every free page is out of use, and every page in use is one that `kfree` accepts.
record Inv (endk : ℕ) (t : Pages) : Type 0 where
  free : List ℕ
  listed : IsFree endk t.kmem free
  idle : All (λ x. t.used x ≡ false) free
  owned : (p : ℕ) → t.used p ≡ true → IsPage endk p

idle-Absent :
    (used : ℕ → Bool) (p : ℕ) (xs : List ℕ)
    → used p ≡ true
    → All (λ x. used x ≡ false) xs
    → Absent p xs
idle-Absent used p [] u h = tt
idle-Absent used p (x ∷ xs) u (h, t) = (λ e. cc (ap used e), idle-Absent used p xs u t)

idle-update :
    (used : ℕ → Bool) (p : ℕ) (b : Bool) (xs : List ℕ)
    → Absent p xs
    → All (λ x. used x ≡ false) xs
    → All (λ x. update used p b x ≡ false) xs
idle-update used p b [] a h = tt
idle-update used p b (x ∷ xs) (ne, rest) (h, t) =
    (update_ne used p b x ne ∙ h, idle-update used p b xs rest t)

-- An address inside a page that is in use is no free page.
store-Absent :
    (endk a : ℕ) (used : ℕ → Bool) (xs : List ℕ)
    → used (page_of a) ≡ true
    → All (IsPage endk) xs
    → All (λ x. used x ≡ false) xs
    → Absent a xs
store-Absent endk a used [] u p h = tt
store-Absent endk a used (x ∷ xs) u (p, ps) (h, t) = (differs, store-Absent endk a used xs u ps t)
  where
    own_page : a ≡ x → page_of a ≡ x
    own_page e = let al = p.aligned in omega arith

    differs : a ≢ x
    differs e = cc (ap used (own_page e))

owned-update :
    (endk : ℕ) (used : ℕ → Bool) (p : ℕ) (b : Bool)
    → (b ≡ true → IsPage endk p)
    → ((q : ℕ) → used q ≡ true → IsPage endk q)
    → (q : ℕ) → update used p b q ≡ true
    → IsPage endk q
owned-update endk used p b h o q u = elim (Bool-cases (p == q)) [
  | inl e ↦ subst (λ x. IsPage endk x) (==→eq p q e) (h (rw e at u))
  | inr e ↦ o q (rw e at u)
]

module _ {endk : ℕ} (low : 0 < endk) where
  alloc-Inv :
      (t : Pages) (xs : List ℕ)
      → IsFree endk t.kmem xs
      → All (λ x. t.used x ≡ false) xs
      → ((p : ℕ) → t.used p ≡ true → IsPage endk p)
      → (kalloc t.kmem).0 ≢ null
      → Inv endk (record { kmem = (kalloc t.kmem).1; used = update t.used (kalloc t.kmem).0 true })
  alloc-Inv t [] f i o ne = absurd (ne (ap (λ r. r.0) (kalloc-empty endk t.kmem f)))
  alloc-Inv t (x ∷ xs) f i o ne =
      let (e, rest) = kalloc-IsFree endk x t.kmem xs f in
      record {
        free = xs;
        listed = rest;
        idle = rw e (idle-update t.used x true xs f.distinct.0 i.1);
        owned =
            owned-update endk t.used (kalloc t.kmem).0 true
              (λ _. subst (IsPage endk) (sym e) f.pages.0) o;
      }

  failed-Inv :
      (t : Pages) (xs : List ℕ)
      → IsFree endk t.kmem xs
      → All (λ x. t.used x ≡ false) xs
      → ((p : ℕ) → t.used p ≡ true → IsPage endk p)
      → (kalloc t.kmem).0 ≡ null
      → Inv endk (record t { kmem = (kalloc t.kmem).1 })
  failed-Inv t [] f i o e =
      rw (kalloc-empty endk t.kmem f) (record { free = []; listed = f; idle = i; owned = o })
  failed-Inv t (x ∷ xs) f i o e = absurd (f.chain.1 (sym (kalloc-IsFree endk x t.kmem xs f).0 ∙ e))

  Step-Inv : {t u : Pages} → Step endk t u → Inv endk t → Inv endk u
  Step-Inv {t} (alloc ne) v = alloc-Inv t v.free v.listed v.idle v.owned ne
  Step-Inv {t} (alloc_failed e) v = failed-Inv t v.free v.listed v.idle v.owned e
  Step-Inv {t} (free p u e) v =
      let away = idle-Absent t.used p v.free u v.idle in
      let (s', freed, listed) = kfree-IsFree endk p t.kmem v.free low v.listed (v.owned p u) away in
      record {
        free = p ∷ v.free;
        listed = subst (λ k. IsFree endk k (p ∷ v.free)) (some_inj (sym freed ∙ e)) listed;
        idle = (update_self t.used p false, idle-update t.used p false v.free away v.idle);
        owned = owned-update endk t.used p false (λ b. cc b) v.owned;
      }
  Step-Inv {t} (store a x u) v = record {
    free = v.free;
    listed = record {
      chain =
          Chain-update a x t.kmem.mem t.kmem.freelist v.free
            (store-Absent endk a t.used v.free u v.listed.pages v.idle) v.listed.chain;
      pages = v.listed.pages;
      distinct = v.listed.distinct;
    };
    idle = v.idle;
    owned = v.owned;
  }

  fresh :
      (t : Pages) (xs : List ℕ)
      → IsFree endk t.kmem xs
      → All (λ x. t.used x ≡ false) xs
      → (kalloc t.kmem).0 ≢ null
      → (t.used (kalloc t.kmem).0 ≡ false) × IsPage endk (kalloc t.kmem).0
  fresh t [] f i ne = absurd (ne (ap (λ r. r.0) (kalloc-empty endk t.kmem f)))
  fresh t (x ∷ xs) f i ne = rw ((kalloc-IsFree endk x t.kmem xs f).0) (i.0, f.pages.0)

  module _ (mem : ℕ → ℕ) (fits : pgroundup endk ≤ phystop) where
    booted-Inv :
        {s : Kmem} → kinit endk mem ≡ some s → Inv endk (record { kmem = s; used = λ _. false })
    booted-Inv {s} e =
        let (s', ran, (xs, f, n)) = kinit-Holds endk mem low fits in
        record {
          free = xs;
          listed = subst (λ k. IsFree endk k xs) (some_inj (sym ran ∙ e)) f;
          idle = all_idle xs;
          owned = λ p u. cc u;
        }
      where
        all_idle : (xs : List ℕ) → All (λ x. ◌≡◌ {A = Bool} false false) xs
        all_idle [] = tt
        all_idle (x ∷ xs) = (refl, all_idle xs)

    Reach-Inv : {t : Pages} → Reach endk mem t → Inv endk t
    Reach-Inv (booted e) = booted-Inv e
    Reach-Inv (later r st) = Step-Inv st (Reach-Inv r)

    -- After a boot and any run of allocations, frees and stores by the owners of pages, a page that
    -- `kalloc` returns is a whole page of the free range and is not in use.
    pub kalloc_fresh :
        {t : Pages}
        → Reach endk mem t
        → (kalloc t.kmem).0 ≢ null
        → (t.used (kalloc t.kmem).0 ≡ false) × IsPage endk (kalloc t.kmem).0
    kalloc_fresh {t} r ne = let v = Reach-Inv r in fresh t v.free v.listed v.idle ne

    -- After a boot and any run of allocations, frees and stores by the owners of pages, `kfree`
    -- of a page in use does not panic, and `kalloc` can return that page next.
    pub kalloc-kfree :
        {t : Pages}
        → Reach endk mem t
        → (p : ℕ) → t.used p ≡ true
        → (s : Kmem) × (kfree endk p t.kmem ≡ some s) × ((kalloc s).0 ≡ p)
    kalloc-kfree {t} r p u =
        let v = Reach-Inv r in
        let (s, freed, f) =
          kfree-IsFree endk p t.kmem v.free low v.listed (v.owned p u)
            (idle-Absent t.used p v.free u v.idle) in
        (s, freed, (kalloc-IsFree endk p s v.free f).0)
