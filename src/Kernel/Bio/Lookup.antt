-- ===== src/Kernel/Bio/Lookup.antt =====
-- Which buffer `bget` gives for a block, and what it leaves alone.
use learn_mit_s.Common.{
  ℕ, ◌≡◌, refl, ◌≢◌, ◌↔◌, inl, inr, false, Option, none, some, List, [], ◌∷◌, arith, Option-cases,
  All,
}
use learn_mit_s.Kernel.Bio.{Buf, is_for, first_some, find_cached, find_unused, bget}

-- No buffer is for the block.
abbrev pub NotCached : ℕ → ℕ → List Buf → Type 0
NotCached dev blockno bs = All (λ b. is_for dev blockno b ≡ false) bs

abbrev pub InUse : List Buf → Type 0
InUse bs = All (λ (b : Buf). b.refcnt ≢ 0) bs

pub find_cached-none :
    (dev blockno : ℕ) (bs : List Buf)
    → (find_cached dev blockno bs ≡ none) ↔ NotCached dev blockno bs
unfolding find_cached
find_cached-none dev blockno [] = (λ h. tt, λ h. refl)
find_cached-none dev blockno (b ∷ bs) =
    let (f, g) = find_cached-none dev blockno bs in
    elim (Option-cases (find_cached dev blockno bs)) [
      | inl e ↦ (λ h. (ground arith, f e), λ h. rw (h.0, e))
      | inr ((i, cs), e) ↦ (λ h. absurd (ground (arith, e, h)), λ h. cc (g h.1))
    ]

find_unused-none :
    (dev blockno : ℕ) (bs : List Buf) → (find_unused dev blockno bs ≡ none) ↔ InUse bs
unfolding find_unused
find_unused-none dev blockno [] = (λ h. tt, λ h. refl)
find_unused-none dev blockno (b ∷ bs) =
    let (f, g) = find_unused-none dev blockno bs in
    elim (Option-cases (find_unused dev blockno bs)) [
      | inl e ↦ (λ h. (ground arith, f e), λ h. rw e (ground arith))
      | inr ((i, cs), e) ↦ (λ h. absurd (ground (arith, e, h)), λ h. cc (g h.1))
    ]

first_some-none {ℓ} :
    {A : Type ℓ} (r s : Option A) → first_some r s ≡ none → (r ≡ none) × (s ≡ none)
first_some-none none s h = (refl, h)
first_some-none (some a) s h = cc

-- `bget` panics exactly when the block is in no buffer and every buffer is in use.
pub bget-none_iff :
    (dev blockno : ℕ) (bs : List Buf)
    → (bget dev blockno bs ≡ none) ↔ (NotCached dev blockno bs × InUse bs)
unfolding bget
bget-none_iff dev blockno bs =
    let (f, g) = find_cached-none dev blockno bs in
    let (p, q) = find_unused-none dev blockno bs in
    (λ h. (f (first_some-none _ _ h).0, p (first_some-none _ _ h).1), λ h. rw (g h.0) (q h.1))
