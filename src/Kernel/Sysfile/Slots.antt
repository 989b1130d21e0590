-- ===== src/Kernel/Sysfile/Slots.antt =====
-- Which descriptor `fdalloc` takes.
use learn_mit_s.Common.{
  ℕ, zero, suc, ◌+◌, ◌≤◌, ◌<◌, ◌≡◌, refl, sym, ap, ◌∙◌, inl, inr, true, false, Option, none, some,
  arith, Bool-cases, if-true, if-false, some_inj, ℕ_discrete,
}
use learn_mit_s.Kernel.Sysfile.{is_open, find_slot}

-- `fd` is the first of the `r` descriptors from `i` on that is not open.
pub record Lowest (t : ℕ → Option ℕ) (r i fd : ℕ) : Type 0 where
  pub below : fd < i + r
  pub closed : t fd ≡ none
  pub first : (j : ℕ) → i ≤ j → j < fd → is_open (t j) ≡ true

closed_none : (o : Option ℕ) → is_open o ≡ false → o ≡ none
closed_none none h = refl
closed_none (some f) h = absurd (ground (arith, h))

pub find_slot-Lowest :
    (t : ℕ → Option ℕ) (r i fd : ℕ) → find_slot r i t ≡ some fd → (i ≤ fd) × Lowest t r i fd
unfolding find_slot
find_slot-Lowest t zero i fd e = absurd (ground (arith, e))
find_slot-Lowest t (suc r) i fd e = elim (Bool-cases (is_open (t i))) [
  | inl y ↦
      let (above, low) =
        find_slot-Lowest t r (i + 1) fd (sym (if-true (find_slot r (i + 1) t) (some i) y) ∙ e) in
      (
        omega (arith, above),
        record {
          below = omega (arith, low.below);
          closed = low.closed;
          first = λ j a b. elim (ℕ_discrete i j) [
            | yes p ↦ ap (λ k. is_open (t k)) (sym p) ∙ y
            | no n ↦ low.first j (omega (arith, a, n)) b
          ];
        },
      )
  | inr n ↦
      let same : i ≡ fd = some_inj (sym (if-false (find_slot r (i + 1) t) (some i) n) ∙ e) in
      (
        omega (arith, same),
        record {
          below = omega (arith, same);
          closed = ap t (sym same) ∙ closed_none (t i) n;
          first = λ j a b. absurd (omega (arith, same, a, b));
        },
      )
]

pub find_slot_full :
    (t : ℕ → Option ℕ) (r i : ℕ)
    → find_slot r i t ≡ none
    → (j : ℕ) → i ≤ j
    → j < i + r
    → is_open (t j) ≡ true
unfolding find_slot
find_slot_full t zero i e j a b = absurd (omega (arith, a, b))
find_slot_full t (suc r) i e j a b = elim (Bool-cases (is_open (t i))) [
  | inl y ↦ elim (ℕ_discrete i j) [
    | yes p ↦ ap (λ k. is_open (t k)) (sym p) ∙ y
    | no n ↦
        find_slot_full t r (i + 1) (sym (if-true (find_slot r (i + 1) t) (some i) y) ∙ e) j
          (omega (arith, a, n)) (omega (arith, b))
  ]
  | inr n ↦
      let no : some i ≡ none = sym (if-false (find_slot r (i + 1) t) (some i) n) ∙ e in
      absurd (ground (arith, no))
]
