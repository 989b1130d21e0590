-- ===== src/Kernel/Kalloc/Boot.antt =====
-- `kinit` frees every whole page between the end of the kernel and `PHYSTOP`.
use learn_mit_s.Common.{
  ℕ, zero, suc, ◌+◌, ◌-◌, ◌*◌, ◌/◌, ◌%◌, ◌≤◌, ◌<◌, ◌≡◌, refl, inl, inr, some, List, [], ◌∷◌, arith,
  leb, Bool-cases, length, All,
}
use learn_mit_s.Kernel.Kalloc.{
  pgsize, phystop, null, pgroundup, Kmem, freerange_from, freerange, kinit,
}
use learn_mit_s.Kernel.Kalloc.FreeList.{IsPage, Absent, IsFree, kfree-IsFree}

abbrev AllBelow : ℕ → List ℕ → Type 0
AllBelow p xs = All (λ x. x < p) xs

AllBelow-Absent : (p : ℕ) (xs : List ℕ) → AllBelow p xs → Absent p xs
AllBelow-Absent p [] h = tt
AllBelow-Absent p (x ∷ xs) (h, t) = (omega arith, AllBelow-Absent p xs t)

AllBelow-mono : (p q : ℕ) (xs : List ℕ) → p ≤ q → AllBelow p xs → AllBelow q xs
AllBelow-mono p q [] le h = tt
AllBelow-mono p q (x ∷ xs) le (h, t) = (omega arith, AllBelow-mono p q xs le t)

-- The allocator holds `n` free pages.
abbrev pub Holds : ℕ → ℕ → Kmem → Type 0
Holds endk n s = (xs : List ℕ) × IsFree endk s xs × (length xs ≡ n)

freerange_from_lem :
    (endk fuel p pa_end : ℕ) (s : Kmem) (xs : List ℕ)
    → 0 < endk
    → endk ≤ p
    → p % pgsize ≡ 0
    → pa_end ≤ phystop
    → p ≤ pa_end
    → pa_end < p + fuel * pgsize
    → IsFree endk s xs
    → AllBelow p xs
    → (n : ℕ) → length xs + (pa_end - p) / pgsize ≡ n
    → (s' : Kmem) × (freerange_from endk fuel p pa_end s ≡ some s') × Holds endk n s'
unfolding freerange_from
freerange_from_lem endk zero p pa_end s xs low ge al top le enough f b n e = absurd (omega arith)
freerange_from_lem endk (suc fuel) p pa_end s xs low ge al top le enough f b n count =
    elim (Bool-cases (leb (p + pgsize) pa_end)) [
      | inl e ↦
          let page : IsPage endk p = record { aligned = al; above = ge; below = ground arith } in
          let (s', freed, f') = kfree-IsFree endk p s xs low f page (AllBelow-Absent p xs b) in
          let (t, ran, (ys, free, len)) =
            freerange_from_lem endk fuel (p + pgsize) pa_end s' (p ∷ xs) low (omega arith)
              (omega arith) top (ground arith) (omega arith) f'
              (omega arith, AllBelow-mono p (p + pgsize) xs (omega arith) b) n (ground arith) in
          (t, rw (e, freed) ran, (ys, free, ground arith))
      | inr e ↦ (s, rw e, (xs, f, ground arith))
    ]

-- For a kernel whose end, above 0 and rounded up to a page, is at most `PHYSTOP`, and from any
-- memory, `kinit` ends without a panic, and every whole page from the end of the kernel up to
-- `PHYSTOP` is free, each once.
pub kinit-Holds :
    (endk : ℕ) (mem : ℕ → ℕ)
    → 0 < endk
    → pgroundup endk ≤ phystop
    → (s : Kmem) × (kinit endk mem ≡ some s) × Holds endk ((phystop - pgroundup endk) / pgsize) s
unfolding kinit freerange pgroundup
kinit-Holds endk mem low fits =
    freerange_from_lem endk (phystop / pgsize + 1) (pgroundup endk) phystop
      (record { freelist = null; mem = mem }) [] low (omega arith) (omega arith) (omega arith) fits
      (omega arith) (record { chain = refl; pages = tt; distinct = tt }) tt _ (omega arith)
