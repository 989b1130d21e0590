-- ===== src/User/Ulib/Strings.antt =====
-- What the copies and comparisons of ulib.c do.
use learn_mit_s.Common.{
  ℕ, zero, suc, ◌+◌, ◌≤◌, ◌<◌, ◌≡◌, sym, ap, ◌∙◌, ◌↔◌, ◌⊎◌, inl, inr, some, arith, ltb, ◌==◌,
  Bool-cases, ==_false, update, update_ne, ℤ, pos, sub_ℕ, sub_ℕ-eq-zero, sub_ℕ-self,
}
use learn_mit_s.Kernel.Str.{Mem, copy_up}
use learn_mit_s.Kernel.Str.Memmove.{moved, copy_up_lem, copy_down_lem}
use learn_mit_s.Kernel.Str.Compare.{NoNul}
use learn_mit_s.User.Ulib.{strcpy, strcmp, memmove_user}

-- Which way it copies depends on the two addresses alone, and for any two ranges, overlapping or not,
-- `memmove` of ulib.c leaves at each byte of the destination what the source held at the start, and
-- changes no other byte.
pub memmove_user_lem :
    (dst src n : ℕ) (m : Mem) (a : ℕ) → memmove_user dst src n m a ≡ moved n dst src m a
unfolding memmove_user
memmove_user_lem dst src n m a = elim (Bool-cases (ltb dst src)) [
  | inl e ↦ rw e (copy_up_lem n dst src m (ground arith) a)
  | inr e ↦ rw e (copy_down_lem n dst src m (ground arith) a)
]

strcpy-copy_up :
    (k fuel s t : ℕ) (m : Mem)
    → k < fuel
    → (s ≤ t) ⊎ (t + k < s)
    → NoNul t k m
    → m (t + k) ≡ 0
    → strcpy fuel s t m ≡ some (copy_up (suc k) s t m)
unfolding strcpy copy_up
strcpy-copy_up k zero s t m lt far live e = ground arith
strcpy-copy_up zero (suc fuel) s t m lt far live e = ground arith
strcpy-copy_up (suc k) (suc fuel) s t m lt far live e =
    let m1 = update m s (m t) in
    let kept : (j : ℕ) → j ≤ k → m1 (t + 1 + j) ≡ m (t + suc j) =
      λ j le. update_ne m s (m t) (t + 1 + j) (omega arith) ∙ ap m (omega arith) in
    let rest =
      strcpy-copy_up k fuel (s + 1) (t + 1) m1 (omega arith) (omega arith)
        (λ j lt z. live (suc j) (omega arith) (sym (kept j (omega arith)) ∙ z))
        (kept k (omega arith) ∙ e) in
    ground (arith, live 0, rest)

-- With the terminator of the source `k` bytes on, none before it, and the destination not on a later
-- byte of the source, `strcpy` ends and has copied the `k` bytes and the terminator, and changed no
-- other byte.
pub strcpy_lem :
    (k fuel s t : ℕ) (m : Mem)
    → k < fuel
    → (s ≤ t) ⊎ (t + k < s)
    → NoNul t k m
    → m (t + k) ≡ 0
    → (m' : Mem) × (strcpy fuel s t m ≡ some m') × ((a : ℕ) → m' a ≡ moved (suc k) s t m a)
strcpy_lem k fuel s t m lt far live e = (
  copy_up (suc k) s t m,
  strcpy-copy_up k fuel s t m lt far live e,
  copy_up_lem (suc k) s t m (omega arith),
)

-- The strings at `p` and `q` agree up to and including the terminator of the first.
abbrev pub SameString : ℕ → ℕ → ℕ → Mem → Type 0
SameString k p q m = (i : ℕ) → i ≤ k → m (p + i) ≡ m (q + i)

SameString-suc :
    (k p q : ℕ) (m : Mem) → m p ≡ m q → SameString k (p + 1) (q + 1) m → SameString (suc k) p q m
SameString-suc k p q m e h zero le = ground arith
SameString-suc k p q m e h (suc i) le = ground (arith, h i)

-- With the terminator of the first string `k` bytes on and none before it, `strcmp` ends, and answers 0
-- exactly when the strings agree up to that terminator.
pub strcmp-zero_iff :
    (k fuel p q : ℕ) (m : Mem)
    → k < fuel
    → NoNul p k m
    → m (p + k) ≡ 0
    → (z : ℤ) × (strcmp fuel p q m ≡ some z) × ((z ≡ pos 0) ↔ SameString k p q m)
unfolding strcmp
strcmp-zero_iff k zero p q m lt live e = absurd (omega arith)
strcmp-zero_iff zero (suc fuel) p q m lt live e =
    let ends : m p ≡ 0 = ground arith in
    (
      sub_ℕ (m p) (m q),
      ground arith,
      (
        λ z i le. ground (arith, sub_ℕ-eq-zero (m p) (m q) z),
        λ h. sub_ℕ-self (m p) (m q) (ground (arith, h 0)),
      ),
    )
strcmp-zero_iff (suc k) (suc fuel) p q m lt live e = elim (Bool-cases (m p == m q)) [
  | inl y ↦
      let (z, ran, both) =
        strcmp-zero_iff k fuel (p + 1) (q + 1) m (omega arith)
          (λ j lt. ground (arith, live (suc j))) (ground arith) in
      (
        z,
        ground (arith, live 0),
        (
          λ h. SameString-suc k p q m (ground arith) (both.0 h),
          λ h. both.1 (λ i le. ground (arith, h (suc i))),
        ),
      )
  | inr n ↦ (
    sub_ℕ (m p) (m q),
    ground arith,
    (
      λ z. absurd (==_false _ _ n (sub_ℕ-eq-zero (m p) (m q) z)),
      λ h. absurd (==_false _ _ n (ground (arith, h 0))),
    ),
  )
]
