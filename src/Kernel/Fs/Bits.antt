-- ===== src/Kernel/Fs/Bits.antt =====
-- Bits of a byte: what setting and clearing one does to each.
use learn_mit_s.Common.{
  ℕ, zero, suc, ◌+◌, ◌-◌, ◌/◌, ◌%◌, ◌^◌, ◌≤◌, ◌≡◌, refl, ap, ◌∙◌, ◌≢◌, true, false, arith, ◌==◌,
}
use learn_mit_s.Kernel.Fs.{test_bit}

half-add : (x k : ℕ) → (x + 2 ^ suc k) / 2 ≡ x / 2 + 2 ^ k
half-add x k = omega arith

half-sub : (x k : ℕ) → (x - 2 ^ suc k) / 2 ≡ x / 2 - 2 ^ k
half-sub x k = omega arith

pub set_self : (k x : ℕ) → test_bit k x ≡ false → test_bit k (x + 2 ^ k) ≡ true
unfolding test_bit
set_self zero x h = ground (arith, h)
set_self (suc k) x h = ap (test_bit k) (half-add x k) ∙ set_self k (x / 2) h

pub set_other : (k j x : ℕ) → k ≢ j → test_bit k x ≡ false → test_bit j (x + 2 ^ k) ≡ test_bit j x
unfolding test_bit
set_other zero zero x ne h = absurd (ne refl)
set_other zero (suc j) x ne h = ap (test_bit j) (ground (arith, h))
set_other (suc k) zero x ne h = ground arith
set_other (suc k) (suc j) x ne h =
    ap (test_bit j) (half-add x k) ∙ set_other k j (x / 2) (λ e. ne (ap suc e)) h

pub bit-le : (k x : ℕ) → test_bit k x ≡ true → 2 ^ k ≤ x
unfolding test_bit
bit-le zero x h = ground (arith, h)
bit-le (suc k) x h = omega (arith, bit-le k (x / 2) h)

pub clear_self : (k x : ℕ) → test_bit k x ≡ true → test_bit k (x - 2 ^ k) ≡ false
unfolding test_bit
clear_self zero x h = ground (arith, h)
clear_self (suc k) x h = ap (test_bit k) (half-sub x k) ∙ clear_self k (x / 2) h

pub clear_other : (k j x : ℕ) → k ≢ j → test_bit k x ≡ true → test_bit j (x - 2 ^ k) ≡ test_bit j x
unfolding test_bit
clear_other zero zero x ne h = absurd (ne refl)
clear_other zero (suc j) x ne h = ap (test_bit j) (ground (arith, h))
clear_other (suc k) zero x ne h =
    let le = bit-le k (x / 2) h in
    let even : (x - 2 ^ suc k) % 2 ≡ x % 2 = omega (arith, le) in ap (λ b. b == 1) even
clear_other (suc k) (suc j) x ne h =
    ap (test_bit j) (half-sub x k) ∙ clear_other k j (x / 2) (λ e. ne (ap suc e)) h
