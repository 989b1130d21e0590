-- ===== src/Kernel/Vm/Entrybits.antt =====
-- The bits of an entry of a page table, which `PA2PTE(pa) | perm | PTE_V` puts together.
use Prim.Native.Nat.{bit_or, bit_or-bitwise, digits, max}
use native.Mathlib.Nat.{div-div-eq-div-mul}
use learn_mit_s.Common.{
  ℕ, zero, suc, ◌+◌, ◌*◌, ◌/◌, ◌%◌, ◌^◌, ◌<◌, ◌≤◌, ◌≡◌, refl, sym, ap, ap₂, ◌∙◌, true, arith, ◌==◌,
}
use learn_mit_s.Kernel.Vm.{pte2pa, is_valid, make_pte}

abbrev or_digits : ℕ → ℕ → ℕ → ℕ
or_digits n a b = digits (λ y. y) max n a b

-- A count that is large enough does not matter.
or_digits_enough : (n k a b : ℕ) → a ≤ n → a ≤ k → or_digits n a b ≡ or_digits k a b
or_digits_enough zero zero a b le le' = refl
or_digits_enough zero (suc k) zero b le le' = refl
or_digits_enough zero (suc k) (suc a) b le le' = absurd (omega (arith, le))
or_digits_enough (suc n) zero zero b le le' = refl
or_digits_enough (suc n) zero (suc a) b le le' = absurd (omega (arith, le'))
or_digits_enough (suc n) (suc k) zero b le le' = refl
or_digits_enough (suc n) (suc k) (suc a) b le le' =
    ap (λ x. x * 2 + max (suc a % 2) (b % 2))
      (or_digits_enough n k (suc a / 2) (b / 2) (omega (arith, le)) (omega (arith, le')))

or_step : (a b : ℕ) → bit_or a b ≡ bit_or (a / 2) (b / 2) * 2 + max (a % 2) (b % 2)
or_step zero b =
    bit_or-bitwise 0 b
    ∙ halves
    ∙ ap (λ x. x * 2 + max (0 % 2) (b % 2)) (sym (bit_or-bitwise 0 (b / 2)))
  where
    halves : b ≡ b / 2 * 2 + max (0 % 2) (b % 2)
    halves = omega arith
or_step (suc a) b =
    bit_or-bitwise (suc a) b
    ∙ ap (λ x. x * 2 + max (suc a % 2) (b % 2))
        (or_digits_enough a (suc a / 2) (suc a / 2) (b / 2) (omega arith) (omega arith)
          ∙ sym (bit_or-bitwise (suc a / 2) (b / 2)))

or_half : (a b : ℕ) → bit_or a b / 2 ≡ bit_or (a / 2) (b / 2)
or_half a b = omega (arith, or_step a b)

or_zero : (n a : ℕ) → a ≤ n → bit_or a 0 ≡ a
or_zero zero a le =
    let none : a ≡ 0 = omega (arith, le) in
    ap (λ x. bit_or x 0) none ∙ bit_or-bitwise 0 0 ∙ sym none
or_zero (suc n) zero le = bit_or-bitwise 0 0
or_zero (suc n) (suc a) le =
    omega (arith, or_step (suc a) 0, or_zero n (suc a / 2) (omega (arith, le)))

div-pow : (x j : ℕ) → x / 2 ^ suc j ≡ x / 2 ^ j / 2
div-pow x j =
    let twice : 2 ^ suc j ≡ 2 ^ j * 2 = omega arith in
    ap (λ d. x / d) twice ∙ sym (div-div-eq-div-mul x (2 ^ j) 2)

-- The bits from `j` on.
or_above : (j a b : ℕ) → bit_or a b / 2 ^ j ≡ bit_or (a / 2 ^ j) (b / 2 ^ j)
or_above zero a b =
    let one : (x : ℕ) → x / 2 ^ 0 ≡ x = λ x. omega arith in
    one (bit_or a b) ∙ ap₂ bit_or (sym (one a)) (sym (one b))
or_above (suc j) a b =
    div-pow (bit_or a b) j
    ∙ ap (λ x. x / 2) (or_above j a b)
    ∙ or_half (a / 2 ^ j) (b / 2 ^ j)
    ∙ ap₂ bit_or (sym (div-pow a j)) (sym (div-pow b j))

-- Flags do not change the bits above them.
or_flags : (a f : ℕ) → f < 1024 → bit_or a f / 1024 ≡ a / 1024
or_flags a f small =
    let none_left : f / 1024 ≡ 0 = omega (arith, small) in
    or_above 10 a f ∙ ap (bit_or (a / 1024)) none_left ∙ or_zero (a / 1024) (a / 1024) (omega arith)

pub make-is_valid : (x perm : ℕ) → is_valid (make_pte x perm) ≡ true
make-is_valid x perm =
    let a = bit_or (x / 4096 * 1024 % 2 ^ 64) perm in
    let odd : bit_or a 1 % 2 ≡ 1 = omega (arith, or_step a 1) in ap (λ y. y == 1) odd

pub pte2pa-make :
    (x perm : ℕ) → x % 4096 ≡ 0 → x < 2 ^ 56 → perm < 1024 → pte2pa (make_pte x perm) ≡ x
pte2pa-make x perm aligned below small =
    ap (λ y. y * 4096 % 2 ^ 64) (or_flags (bit_or a perm) 1 (omega arith) ∙ or_flags a perm small)
    ∙ omega (arith, aligned, below)
  where
    a : ℕ
    a = x / 4096 * 1024 % 2 ^ 64
