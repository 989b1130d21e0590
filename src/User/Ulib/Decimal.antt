-- ===== src/User/Ulib/Decimal.antt =====
-- Decimal numbers: `atoi` reads what `printint` prints.
use learn_mit_s.Common.{
  ℕ, zero, suc, ◌+◌, ◌-◌, ◌*◌, ◌/◌, ◌%◌, ◌^◌, ◌≤◌, ◌<◌, ◌≡◌, ap, ◌∙◌, ◌⊎◌, inl, inr, false, some,
  List, [], ◌∷◌, arith, ◌==◌, Bool-cases, length, All,
}
use learn_mit_s.Kernel.Str.{Mem}
use learn_mit_s.User.Ulib.{atoi_from, atoi}
use learn_mit_s.User.Printf.{digit, push_digits, printint}

-- The characters stand in memory at `s`, and what follows them is not a digit.
abbrev pub Spells : Mem → ℕ → List ℕ → Type 0
Spells m s [] = (m s < 48) ⊎ (57 < m s)
Spells m s (c ∷ cs) = (m s ≡ c) × Spells m (s + 1) cs

-- The number that digits make behind the number `n`.
abbrev value : ℕ → List ℕ → ℕ
value n [] = n
value n (c ∷ cs) = value ((n * 10 + c - 48) % 2 ^ 32) cs

abbrev IsDigit : ℕ → Type 0
IsDigit c = (48 ≤ c) × (c ≤ 57)

atoi_from-value :
    (cs : List ℕ) (fuel n s : ℕ) (m : Mem)
    → All IsDigit cs
    → length cs < fuel
    → Spells m s cs
    → atoi_from fuel n s m ≡ some (value n cs)
unfolding atoi_from
atoi_from-value cs zero n s m d lt h = ground arith
atoi_from-value [] (suc fuel) n s m d lt h = ground arith
atoi_from-value (c ∷ cs) (suc fuel) n s m (d, ds) lt (e, h) =
    ground
      (arith, atoi_from-value cs fuel ((n * 10 + c - 48) % 2 ^ 32) (s + 1) m ds (omega arith) h)

-- The bound on the numbers of `k` digits.
abbrev bound : ℕ → ℕ
bound zero = 1
bound (suc k) = 10 * bound k

digit-value : (d : ℕ) → d < 10 → digit d ≡ 48 + d
digit-value d lt = ground arith

push_digits-value :
    (fuel x : ℕ) (out : List ℕ)
    → x < 10 * bound fuel
    → x < 2 ^ 32
    → value 0 (push_digits (suc fuel) x 10 out) ≡ value x out
unfolding push_digits
push_digits-value zero x out lt small =
    let e : x / 10 ≡ 0 = omega arith in
    rw (e, digit-value (x % 10) (omega arith)) (ap (λ n. value n out) (omega arith))
push_digits-value (suc fuel) x out lt small = elim (Bool-cases (x / 10 == 0)) [
  | inl e ↦ rw (e, digit-value (x % 10) (omega arith)) (ap (λ n. value n out) (ground arith))
  | inr e ↦ rw e (
      push_digits-value fuel (x / 10) (digit (x % 10) ∷ out) (omega arith) (omega arith)
      ∙ ap (λ n. value n out) (rw (digit-value (x % 10) (omega arith)) (omega arith)))
]

digit-IsDigit : (d : ℕ) → d < 10 → IsDigit (digit d)
digit-IsDigit d lt = ground arith

push_digits-IsDigit :
    (fuel x : ℕ) (out : List ℕ) → All IsDigit out → All IsDigit (push_digits fuel x 10 out)
unfolding push_digits
push_digits-IsDigit zero x out h = h
push_digits-IsDigit (suc fuel) x out h = elim (Bool-cases (x / 10 == 0)) [
  | inl e ↦ rw e (digit-IsDigit (x % 10) (omega arith), h)
  | inr e ↦ rw e (
      push_digits-IsDigit fuel (x / 10) (digit (x % 10) ∷ out)
        (digit-IsDigit (x % 10) (omega arith), h))
]

length-push_digits :
    (fuel x : ℕ) (out : List ℕ) → length (push_digits fuel x 10 out) ≤ fuel + length out
unfolding push_digits
length-push_digits zero x out = omega arith
length-push_digits (suc fuel) x out =
    ground (arith, length-push_digits fuel (x / 10) (digit (x % 10) ∷ out))

-- `atoi` gives back every number that `printint` prints in base 10 without a sign, wherever the
-- characters stand, if what follows them is not a digit.
pub atoi-printint :
    (x s fuel : ℕ) (m : Mem)
    → x < 2 ^ 32
    → 32 < fuel
    → Spells m s (printint x 10 false)
    → atoi fuel s m ≡ some x
unfolding atoi printint
atoi-printint x s fuel m small lt h =
    atoi_from-value (push_digits 32 x 10 []) fuel 0 s m (push_digits-IsDigit 32 x [] tt)
      (omega (arith, length-push_digits 32 x [])) h
    ∙ ap some (push_digits-value 31 x [] (omega arith) small)
