-- ===== src/Kernel/Usercopy/In.antt =====
-- `copyin` and `copyinstr`: what reaches the kernel, and when they fail.
use learn_mit_s.Common.{
  ℕ, zero, suc, ◌+◌, ◌-◌, ◌%◌, ◌≤◌, ◌<◌, ◌≡◌, refl, sym, ap, ◌∙◌, ◌≢◌, ◌⊎◌, inl, inr, Bool, true,
  false, ◌&&◌, some, arith, leb, ltb, ◌==◌, Bool-cases, Option-cases, ==→eq, ltb→lt, ==_false,
}
use mathlib.Core.Path.{subst}
use learn_mit_s.Kernel.Kalloc.{pgsize, Kmem}
use learn_mit_s.Kernel.Vm.{done, pgrounddown, maxva, is_valid, is_user, walk_from, walk, walkaddr}
use learn_mit_s.Kernel.Vm.Owners.{slot}
use learn_mit_s.Kernel.Vm.Walk.{walk_from-slot}
use learn_mit_s.Kernel.Str.{Mem, memmove}
use learn_mit_s.Kernel.Str.Memmove.{memmove_lem}
use learn_mit_s.Kernel.Usercopy.{translate, chunk, copyin_from, copyin}

-- `walkaddr` always answers, and changes nothing.
pub walkaddr-done : (pt va : ℕ) (s : Kmem) → walkaddr pt va s ≡ done (translate pt s va) s
unfolding walkaddr walk translate
walkaddr-done pt va s = elim (Bool-cases (leb maxva va)) [
  | inl over ↦ rw over refl
  | inr in_range ↦
      let step : walk_from 2 pt va false s ≡ (slot 2 pt va s.mem, s) = walk_from-slot 2 pt va s in
      elim (Option-cases (slot 2 pt va s.mem)) [
        | inl e ↦ rw in_range (rw step (rw e refl))
        | inr (a, e) ↦ elim (Bool-cases (is_valid (s.mem a) && is_user (s.mem a))) [
          | inl y ↦ rw in_range (rw step (rw e (rw y refl)))
          | inr n ↦ rw in_range (rw step (rw e (rw n refl)))
        ]
      ]
]

-- Where a byte of user memory lies, and whether its page is mapped.
abbrev pub phys : (ℕ → ℕ) → ℕ → ℕ
phys addr va = addr (pgrounddown va) + va % pgsize

abbrev pub IsMapped : (ℕ → ℕ) → ℕ → Type 0
IsMapped addr va = addr (pgrounddown va) ≢ 0

-- No byte of the user's range lies in the kernel's.
abbrev pub Apart : (ℕ → ℕ) → ℕ → ℕ → ℕ → Type 0
Apart addr dst srcva len =
    (i : ℕ)
    → i < len
    → IsMapped addr (srcva + i)
    → (phys addr (srcva + i) < dst) ⊎ (dst + len ≤ phys addr (srcva + i))

-- What a copy of `len` bytes into the kernel has done when it answers `r` in the memory `t`.
pub record Copied (addr : ℕ → ℕ) (dst srcva len : ℕ) (m : Mem) (r : Bool) (t : Mem) : Type 0 where
  pub arrived :
      r ≡ true
      → (i : ℕ) → i < len
      → IsMapped addr (srcva + i) × (t (dst + i) ≡ m (phys addr (srcva + i)))
  pub failed : r ≡ false → (i : ℕ) × (i < len) × (addr (pgrounddown (srcva + i)) ≡ 0)
  pub outside : (a : ℕ) → (a < dst) ⊎ (dst + len ≤ a) → t a ≡ m a

-- Bytes of the first chunk lie in the first page, and the rest starts where the next page does.
chunk-page :
    (srcva len i : ℕ)
    → i < chunk srcva len
    → (pgrounddown (srcva + i) ≡ pgrounddown srcva)
      × ((srcva + i) % pgsize ≡ (srcva - pgrounddown srcva) + i)
      × (i < len)
chunk-page srcva len i h = (omega (arith, h), omega (arith, h), omega (arith, h))

chunk-rest :
    (srcva len i : ℕ)
    → i < len - chunk srcva len
    → (pgrounddown srcva + pgsize + i ≡ srcva + (chunk srcva len + i)) × (chunk srcva len + i < len)
chunk-rest srcva len i h = (omega (arith, h), omega (arith, h))

module _ (addr : ℕ → ℕ) (dst srcva len : ℕ) (m : Mem) (apart : Apart addr dst srcva len)
    (mapped : IsMapped addr srcva) where
  abbrev n : ℕ
  n = chunk srcva len

  abbrev m1 : Mem
  m1 = memmove dst (addr (pgrounddown srcva) + (srcva - pgrounddown srcva)) n m

  first_chunk :
      (i : ℕ) → i < n → IsMapped addr (srcva + i) × (m1 (dst + i) ≡ m (phys addr (srcva + i)))
  first_chunk i h =
      let (page, off, lt) = chunk-page srcva len i h in
      let same : addr (pgrounddown (srcva + i)) ≡ addr (pgrounddown srcva) = ap addr page in
      let there : addr (pgrounddown srcva) + (srcva - pgrounddown srcva) + i
          ≡ phys addr (srcva + i) =
        omega (arith, same, off) in
      (
        λ z. mapped (sym same ∙ z),
        memmove_lem dst (addr (pgrounddown srcva) + (srcva - pgrounddown srcva)) n m (dst + i)
            ∙ ground (arith, h)
            ∙ ap m there,
      )

  away : (a : ℕ) → (a < dst) ⊎ (dst + n ≤ a) → m1 a ≡ m a
  away a h =
      memmove_lem dst (addr (pgrounddown srcva) + (srcva - pgrounddown srcva)) n m a
      ∙ ground (arith, h)

  later-Apart : Apart addr (dst + n) (pgrounddown srcva + pgsize) (len - n)
  later-Apart i h w =
      let (at, lt) = chunk-rest srcva len i h in
      let w' : IsMapped addr (srcva + (n + i)) = subst (IsMapped addr) at w in
      let same : phys addr (pgrounddown srcva + pgsize + i) ≡ phys addr (srcva + (n + i)) =
        ap (phys addr) at in
      ground (arith, apart (n + i) lt w', same, lt)

  rest_arrived :
      (r : Bool) (t : Mem)
      → Copied addr (dst + n) (pgrounddown srcva + pgsize) (len - n) m1 r t
      → r ≡ true
      → (i : ℕ) → n ≤ i
      → i < len
      → IsMapped addr (srcva + i) × (t (dst + i) ≡ m (phys addr (srcva + i)))
  rest_arrived r t c y i ge h =
      let j = i - n in
      let (at, lt) = chunk-rest srcva len j (omega (arith, ge, h)) in
      let at' : pgrounddown srcva + pgsize + j ≡ srcva + i = omega (arith, at, ge) in
      let (w, e) = c.arrived y j (omega (arith, ge, h)) in
      let w' : IsMapped addr (srcva + i) = subst (IsMapped addr) at' w in
      let same : phys addr (pgrounddown srcva + pgsize + j) ≡ phys addr (srcva + i) =
        ap (phys addr) at' in
      (
        w',
        ap t (omega (arith, ge))
            ∙ e
            ∙ ap m1 same
            ∙ away (phys addr (srcva + i)) (ground (arith, apart i h w')),
      )

  both_chunks :
      (r : Bool) (t : Mem)
      → Copied addr (dst + n) (pgrounddown srcva + pgsize) (len - n) m1 r t
      → Copied addr dst srcva len m r t
  both_chunks r t c = record {
    arrived = λ y i h. elim (Bool-cases (ltb i n)) [
      | inl lt ↦
          let (w, e) = first_chunk i (ltb→lt i n lt) in
          (w, c.outside (dst + i) (inl (ground (arith, lt))) ∙ e)
      | inr ge ↦ rest_arrived r t c y i (ground (arith, ge)) h
    ];
    failed = λ no.
        let (j, lt, e) = c.failed no in
        let (at, lt') = chunk-rest srcva len j lt in
        (n + j, lt', ap (λ v. addr (pgrounddown v)) (sym at) ∙ e);
    outside = λ a h. c.outside a (ground (arith, h)) ∙ away a (ground (arith, h));
  }

copyin_step :
    (fuel : ℕ) (addr : ℕ → ℕ) (dst srcva len : ℕ) (m : Mem)
    → len < fuel
    → Apart addr dst srcva len
    → (r : Bool) × (t : Mem) × (copyin_from fuel addr dst srcva len m ≡ some (r, t))
      × Copied addr dst srcva len m r t
unfolding copyin_from
copyin_step zero addr dst srcva len m lt apart = absurd (omega (arith, lt))
copyin_step (suc fuel) addr dst srcva len m lt apart = elim (Bool-cases (len == 0)) [
  | inl e ↦ (
    true,
    m,
    rw e refl,
    record {
      arrived = λ _ i h. ground (arith, e, h);
      failed = λ no. ground (arith, no);
      outside = λ a h. refl;
    },
  )
  | inr ne ↦ elim (Bool-cases (addr (pgrounddown srcva) == 0)) [
    | inl z ↦
        let start : addr (pgrounddown (srcva + 0)) ≡ addr (pgrounddown srcva) =
          ap (λ v. addr (pgrounddown v)) (omega arith) in
        (
          false,
          m,
          rw ne (rw z refl),
          record {
            arrived = λ no. ground (arith, no);
            failed = λ _.
                (0, omega (arith, ==_false len 0 ne), start ∙ ==→eq (addr (pgrounddown srcva)) 0 z);
            outside = λ a h. refl;
          },
        )
    | inr nz ↦
        let n = chunk srcva len in
        let mapped = ==_false (addr (pgrounddown srcva)) 0 nz in
        let (r, t, e, c) =
          copyin_step fuel addr (dst + n) (pgrounddown srcva + pgsize) (len - n)
            (m1 addr dst srcva len m apart mapped) (omega (arith, lt, ==_false len 0 ne))
            (later-Apart addr dst srcva len m apart mapped) in
        (r, t, rw ne (rw nz e), both_chunks addr dst srcva len m apart mapped r t c)
  ]
]

-- If no mapped byte of the range lies in the destination, `copyin` ends. It answers 0 only if every page of the
-- range is mapped, and then each byte of the range has arrived; it answers -1 only if some page is not. No
-- byte outside the destination has changed.
pub copyin-Copied :
    (pagetable : ℕ) (s : Kmem) (dst srcva len : ℕ) (m : Mem)
    → Apart (translate pagetable s) dst srcva len
    → (r : Bool) × (t : Mem) × (copyin pagetable s dst srcva len m ≡ some (r, t))
      × Copied (translate pagetable s) dst srcva len m r t
unfolding copyin
copyin-Copied pagetable s dst srcva len m apart =
    copyin_step (len + 1) (translate pagetable s) dst srcva len m (omega arith) apart
