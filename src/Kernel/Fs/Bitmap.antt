-- ===== src/Kernel/Fs/Bitmap.antt =====
-- The bitmap, and the inner loop of `balloc`.
use learn_mit_s.Common.{
  ℕ, zero, suc, ◌+◌, ◌*◌, ◌/◌, ◌%◌, ◌≤◌, ◌<◌, ◌≡◌, refl, sym, ap, ◌∙◌, fun_ext, ◌≢◌, ◌⊎◌, inl, inr,
  Bool, true, false, not, arith, ltb, ◌==◌, if◌then◌else◌, Bool-cases, ==→eq, update, update_self,
  ℕ_discrete,
}
use learn_mit_s.Kernel.Fs.{
  Fs, done, M, ◌>>◌, bsize, bpb, bread, brelse, bblock, test_bit, take_bit, scan_bits,
}

-- Whether the bitmap marks a block as used.
abbrev pub used : Fs → ℕ → Bool
used s c = test_bit (c % 8) (s.blocks (bblock c s) (c % bpb / 8))

-- Between calls: the bitmap's blocks are marked as used, no one holds their buffers, nor that of a free block.
pub record Ready (s : Fs) : Type 0 where
  pub bitmap_below : (c : ℕ) → c < s.sb.size → bblock c s < s.sb.size
  pub bitmap_used : (c : ℕ) → c < s.sb.size → used s (bblock c s) ≡ true
  pub bitmap_unheld : (c : ℕ) → c < s.sb.size → s.held (bblock c s) ≡ false
  pub free_unheld : (c : ℕ) → c < s.sb.size → used s c ≡ false → s.held c ≡ false

-- From `s` to `t` the block `c` is taken: it is marked and zeroed, and no other block is touched but the
-- bitmap's.
pub record Takes (c : ℕ) (s t : Fs) : Type 0 where
  pub sb : t.sb ≡ s.sb
  pub inodes : t.inodes ≡ s.inodes
  pub held : (x : ℕ) → t.held x ≡ s.held x
  pub marked : used t c ≡ true
  pub others : (x : ℕ) → x ≢ c → x < s.sb.size → used t x ≡ used s x
  pub zeroed : (i : ℕ) → i < bsize → t.blocks c i ≡ 0
  pub kept : (x : ℕ) → x ≢ c → x ≢ bblock c s → t.blocks x ≡ s.blocks x

abbrev pub with_held : ℕ → Bool → Fs → Fs
with_held b h s = record s { held = update s.held b h }

pub brelse-bread :
    (b : ℕ) (s : Fs)
    → s.held b ≡ false
    → (bread b s ≡ done tt (with_held b true s)) × (brelse b (with_held b true s) ≡ done tt s)
unfolding bread brelse
brelse-bread b s h =
    let back : update (update s.held b true) b false ≡ s.held = fun_ext (λ x.
      elim (Bool-cases (b == x)) [
        | inl e ↦ rw e (sym h ∙ ap s.held (==→eq b x e))
        | inr e ↦ rw e refl
      ]) in
    let yes : update s.held b true b ≡ true = update_self s.held b true in
    (rw h refl, rw yes (ap (λ f. done tt (record s { held = f })) back))

-- A bit of the block that the scan is in.
abbrev pub bit_at : ℕ → ℕ → Fs → Bool
bit_at b j s = test_bit (j % 8) (s.blocks (bblock b s) (j / 8))

pub bit_at-used : (q j : ℕ) (s : Fs) → j < bpb → bit_at (q * bpb) j s ≡ used s (q * bpb + j)
bit_at-used q j s lt =
    let e0 : j % 8 ≡ (q * bpb + j) % 8 = omega arith in
    let e1 : q * bpb / bpb ≡ (q * bpb + j) / bpb = omega (arith, lt) in
    let e2 : j / 8 ≡ (q * bpb + j) % bpb / 8 = omega (arith, lt) in
    ap (λ k. test_bit k (s.blocks (bblock (q * bpb) s) (j / 8))) e0
    ∙ ap (λ n. test_bit ((q * bpb + j) % 8) (s.blocks (n + s.sb.bmapstart) (j / 8))) e1
    ∙ ap (λ n. test_bit ((q * bpb + j) % 8) (s.blocks (bblock (q * bpb + j) s) n)) e2

-- One more at the start of a range.
from_next :
    (f : ℕ → Bool) (a n : ℕ)
    → f a ≡ true
    → ((i : ℕ) → a + 1 ≤ i → i < n → f i ≡ true)
    → (i : ℕ) → a ≤ i
    → i < n
    → f i ≡ true
from_next f a n now later i lo hi = elim (ℕ_discrete a i) [
  | yes e ↦ ap f (sym e) ∙ now
  | no ne ↦ later i (omega (arith, lo, ne)) hi
]

abbrev three {ℓ} : {A : Type ℓ} → Bool → Bool → A → A → A → A
three c d x y z = if not c then x else if d then y else z

three-first {ℓ} : {A : Type ℓ} (c d : Bool) (x y z : A) → c ≡ false → three c d x y z ≡ x
three-first c d x y z h = rw h refl

three-second {ℓ} : {A : Type ℓ} (c d : Bool) (x y z : A) → c ≡ true → d ≡ true → three c d x y z ≡ y
three-second c d x y z h k = rw h (rw k refl)

three-third {ℓ} : {A : Type ℓ} (c d : Bool) (x y z : A) → c ≡ true → d ≡ false → three c d x y z ≡ z
three-third c d x y z h k = rw h (rw k refl)

pub scan_bits-cases :
    (next : M ℕ) (r b bi : ℕ) (s : Fs)
    → ((j : ℕ) × (bi ≤ j)
        × (j < bi + r)
        × (b + j < s.sb.size)
        × (bit_at b j s ≡ false)
        × ((i : ℕ) → bi ≤ i → i < j → bit_at b i s ≡ true)
        × (scan_bits next r b bi s ≡ take_bit b j s))
      ⊎ (((i : ℕ) → bi ≤ i → i < bi + r → b + i < s.sb.size → bit_at b i s ≡ true)
          × (scan_bits next r b bi s ≡ (brelse (bblock b s) >> next) s))
unfolding scan_bits
scan_bits-cases next zero b bi s = inr (λ i lo hi. absurd (omega (arith, lo, hi)), refl)
scan_bits-cases next (suc r) b bi s =
    let c = ltb (b + bi) s.sb.size in
    let d = bit_at b bi s in
    let x = (brelse (bblock b s) >> next) s in
    let y = scan_bits next r b (bi + 1) s in
    let z = take_bit b bi s in
    elim (Bool-cases (ltb (b + bi) s.sb.size)) [
      | inr out ↦
          inr (λ i lo hi lt. absurd (ground (arith, out, lo, lt)), three-first c d x y z out)
      | inl inside ↦ elim (Bool-cases (bit_at b bi s)) [
        | inr free ↦ inl (
          bi,
          omega arith,
          omega arith,
          ground (arith, inside),
          free,
          λ i lo hi. absurd (omega (arith, lo, hi)),
          three-third c d x y z inside free,
        )
        | inl busy ↦ elim (scan_bits-cases next r b (bi + 1) s) [
          | inl (j, lo, hi, lt, free, before, e) ↦ inl (
            j,
            omega (arith, lo),
            omega (arith, hi),
            lt,
            free,
            from_next (λ i. bit_at b i s) bi j busy before,
            three-second c d x y z inside busy ∙ e,
          )
          | inr (all, e) ↦ inr (
            λ i l h lt. elim (ℕ_discrete bi i) [
              | yes q ↦ ap (λ k. bit_at b k s) (sym q) ∙ busy
              | no ne ↦ all i (omega (arith, l, ne)) (omega (arith, h)) lt
            ],
            three-second c d x y z inside busy ∙ e,
          )
        ]
      ]
    ]
